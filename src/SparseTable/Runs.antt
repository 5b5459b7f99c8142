-- ===== src/SparseTable/Runs.antt =====
-- The theorems on sparse tables at a table of three entries.
use holys.Common.{
  ℕ, zero, suc, Result, err, ◌+◌, ◌-◌, ◌*◌, ◌^◌, ◌≡◌, ◌↔◌, refl, List, [], ◌∷◌, ◌++◌, length, drop,
  none, some, ok, arith, All,
}
use holys.Common.Bytes.{from_le_bytes}
use holys.Grams.{bytes_eq}
use holys.Common.{◌≢◌, ok-ne-err}
use holys.SparseTable.Ends.{for_each_entry-IsEnded}
use holys.SparseTable.Entry.{for_each_entry, push_entry}
use holys.SparseTable.Errors.{stuck, varint_overflows}
use holys.SparseTable.Varint.{read_varint, write_varint, read-write_varint}
use holys.SparseTable.VarintExact.{Starts, read_varint-Starts}
use holys.SparseTable.Entry.{Entry}
use holys.SparseTable.Errors.{Error}
use holys.SparseTable.Writer.{
  SparseBlockRef, SparseTableWriter, new, insert_all, finish, flush_block, visit_table,
}
use holys.SparseTable.WriterBlocks.{IsEntry}
use holys.SparseTable.WriterTrip.{visit-finish}
use holys.SparseTable.Index.{SparseTableIndex, parse, next_offset_of, read_u64, block_for}
use holys.SparseTable.IndexValid.{Covers, block_for-Covers}
use holys.SparseTable.IndexTiles.{Tiles, parse-Tiles}

read-write_varint_example : read_varint (write_varint [] 300 ++ (7 ∷ [])) ≡ ok (300, 7 ∷ [])
read-write_varint_example = read-write_varint 300 (7 ∷ []) (omega arith)

read_varint-Starts_example :
    (read_varint (172 ∷ 2 ∷ 7 ∷ []) ≡ ok (300, 7 ∷ [])) ↔ Starts (172 ∷ 2 ∷ 7 ∷ []) 300 (7 ∷ [])
read_varint-Starts_example = read_varint-Starts (172 ∷ 2 ∷ 7 ∷ []) 300 (7 ∷ [])

-- 300 to the base 128, and ten bytes whose last has a second bit, for which a u64 has no room.
read_300-Starts : Starts (172 ∷ 2 ∷ 7 ∷ []) 300 (7 ∷ [])
read_300-Starts = (172 ∷ 2 ∷ [], refl, (refl, refl), omega arith, refl, omega arith)

read_too_large :
    read_varint (255 ∷ 255 ∷ 255 ∷ 255 ∷ 255 ∷ 255 ∷ 255 ∷ 255 ∷ 255 ∷ 3 ∷ [])
    ≡ err varint_overflows
unfolding read_varint
read_too_large = refl

abbrev zeros : ℕ → List ℕ
zeros zero = []
zeros (suc n) = 0 ∷ zeros n

-- A hash of 32 bytes, for the runs.
abbrev zero_hash : List ℕ → List ℕ
zero_hash bytes = zeros 32

abbrev three_entries : List Entry
three_entries =
    record { hash = 5; value = 9 + 1 * 2 ^ 40; len = none }
    ∷ record { hash = 7; value = 300 + 2 * 2 ^ 40; len = some 11 }
    ∷ record { hash = 2 ^ 63; value = 4 + 3 * 2 ^ 40; len = some 2 }
    ∷ []

abbrev or_new : Result Error SparseTableWriter → SparseTableWriter
or_new (ok w) = w
or_new (err e) = new

abbrev three_written : SparseTableWriter
three_written = or_new (insert_all zero_hash three_entries new)

three_inserted : insert_all zero_hash three_entries new ≡ ok three_written
unfolding insert_all new holys.Eval.Resolve.unpack_posting write_varint
three_inserted = refl

visit-finish_example :
    visit_table (finish zero_hash three_written).0 (flush_block zero_hash three_written).index []
    ≡ ok three_entries
visit-finish_example = visit-finish zero_hash three_entries three_written are_entries three_inserted
  where
    are_entries : All IsEntry three_entries
    are_entries = (
      (omega arith, omega arith, tt),
      ((omega arith, omega arith, omega arith), ((omega arith, omega arith, omega arith), tt)),
    )

abbrev two_blocks : List SparseBlockRef
two_blocks =
    record { first_hash = 5; offset = 8; len = 20; hash = [] }
    ∷ record { first_hash = 9; offset = 28; len = 10; hash = [] }
    ∷ []

block_for-Covers_example : Covers two_blocks 7 0
block_for-Covers_example = block_for-Covers two_blocks 7 0 (unfold block_for in refl)

-- A table of one block of nine bytes.
abbrev finished_bytes : List ℕ
finished_bytes =
    83 ∷ 71 ∷ 83 ∷ 80 ∷ 65 ∷ 82 ∷ 83 ∷ 69 ∷ 0 ∷ 0 ∷ 0 ∷ 0 ∷ 0 ∷ 0 ∷ 0 ∷ 5 ∷ 19 ∷ 5 ∷ 0 ∷ 0 ∷ 0 ∷ 0
    ∷ 0 ∷ 0 ∷ 0 ∷ 8 ∷ 0 ∷ 0 ∷ 0 ∷ 0 ∷ 0 ∷ 0 ∷ 0 ∷ 0 ∷ 0 ∷ 0 ∷ 0 ∷ 0 ∷ 0 ∷ 0 ∷ 0 ∷ 0 ∷ 0 ∷ 0 ∷ 0 ∷ 0
    ∷ 0 ∷ 0 ∷ 0 ∷ 0 ∷ 0 ∷ 0 ∷ 0 ∷ 0 ∷ 0 ∷ 0 ∷ 0 ∷ 0 ∷ 0 ∷ 0 ∷ 0 ∷ 0 ∷ 0 ∷ 0 ∷ 0 ∷ 1 ∷ 0 ∷ 0 ∷ 0 ∷ 0
    ∷ 0 ∷ 0 ∷ 0 ∷ 1 ∷ 0 ∷ 0 ∷ 0 ∷ 0 ∷ 0 ∷ 0 ∷ 0 ∷ 17 ∷ 0 ∷ 0 ∷ 0 ∷ 0 ∷ 0 ∷ 0 ∷ 0 ∷ 83 ∷ 71 ∷ 83 ∷ 80
    ∷ 65 ∷ 82 ∷ 83 ∷ 69 ∷ []

abbrev or_empty : Result Error SparseTableIndex → SparseTableIndex
or_empty (ok index) = index
or_empty (err e) = record { entry_count = 0; blocks = [] }

abbrev finished_index : SparseTableIndex
finished_index = or_empty (parse (length finished_bytes) finished_bytes)

finished_parses : parse (length finished_bytes) finished_bytes ≡ ok finished_index
unfolding parse from_le_bytes bytes_eq next_offset_of
finished_parses = refl

parse-Tiles_example :
    (read_u64 16 (drop (length finished_bytes - 32) finished_bytes)
        + length finished_index.blocks * 48
        + 32
      ≡ length finished_bytes)
    × Tiles 8 (read_u64 16 (drop (length finished_bytes - 32) finished_bytes)) finished_index.blocks
parse-Tiles_example =
    parse-Tiles (length finished_bytes) finished_bytes finished_index finished_parses

-- A block that stops inside a value.
abbrev cut_block : List ℕ
cut_block = 0 ∷ 0 ∷ 0 ∷ 0 ∷ 0 ∷ 0 ∷ 0 ∷ 5 ∷ 19 ∷ 1 ∷ 128 ∷ []

for_each_entry-IsEnded_example : for_each_entry push_entry cut_block [] ≢ err stuck
for_each_entry-IsEnded_example =
    for_each_entry-IsEnded push_entry (λ e es p. ok-ne-err p) cut_block []
