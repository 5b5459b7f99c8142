-- ===== src/SparseTable/Index.antt =====
-- SparseTableIndex of crates/index/src/sparse_table.rs: the index and the footer, parsed from the last
-- bytes of the table, and the block that may hold a hash.
use holys.Common.{ℕ, zero, suc, ◌+◌, ◌-◌, ltb, leb, ◌==◌, Bool, true, false, ◌&&◌, not}
use holys.Common.{List, [], ◌∷◌, length, take, drop, Option, none, some, if◌then◌else◌}
use holys.Common.{Result, ok, ensure, context, ◌>>=◌, ◌>>◌}
use holys.Common.Word32.{checked_add, checked_mul, checked_sub}
use holys.Common.Bytes.{from_le_bytes}
use holys.Grams.{bytes_eq}
use holys.SparseTable.Errors.{
  Error, truncated, magic_mismatch, index_overflows, index_not_abutting, index_outside_tail,
}
use holys.SparseTable.Errors.{
  index_len_mismatch, blocks_not_contiguous, block_len_underflows, block_len_invalid,
}
use holys.SparseTable.Errors.{index_not_sorted, count_mismatch}
use holys.SparseTable.Writer.{SparseBlockRef, sparse_table_magic, block_bytes}

abbrev pub index_entry_bytes : ℕ
index_entry_bytes = 8 + 8 + 32

abbrev pub footer_bytes : ℕ
footer_bytes = 8 + 8 + 8 + 8

pub record SparseTableIndex : Type 0 where
  pub entry_count : ℕ
  pub blocks : List SparseBlockRef

-- `read_u64(&bytes[at..at + 8])`
abbrev pub read_u64 : ℕ → List ℕ → ℕ
read_u64 at bytes = from_le_bytes (take 8 (drop at bytes))

-- The offset behind a block: the next entry's, or the index's for the last one.
unfoldable pub next_offset_of : ℕ → ℕ → List ℕ → ℕ
next_offset_of remaining index_offset following =
    if ltb 0 remaining then read_u64 8 following else index_offset

-- The loop over the entries of the index; `remaining` counts them.
unfoldable pub parse_blocks : ℕ → ℕ → ℕ → List ℕ → Result Error (List SparseBlockRef)
unfolding next_offset_of
parse_blocks zero expected_offset index_offset entries = ok []
parse_blocks (suc remaining) expected_offset index_offset entries = do
  let offset = read_u64 8 entries
  let following = drop index_entry_bytes entries
  ensure (offset == expected_offset) blocks_not_contiguous
  let next_offset = next_offset_of remaining index_offset following
  len ← context (checked_sub next_offset offset) block_len_underflows
  ensure (ltb 8 len && leb len (block_bytes + 32)) block_len_invalid
  rest ← parse_blocks remaining next_offset index_offset following
  ok (
      record {
        first_hash = read_u64 0 entries;
        offset = offset;
        len = len;
        hash = take 32 (drop 16 entries);
      }
      ∷ rest)

-- `blocks.windows(2)`, each pair ascending.
unfoldable pub hashes_ascend : List SparseBlockRef → Bool
hashes_ascend [] = true
hashes_ascend (r ∷ []) = true
hashes_ascend (r ∷ s ∷ refs) = ltb r.first_hash s.first_hash && hashes_ascend (s ∷ refs)

abbrev pub is_empty : List SparseBlockRef → Bool
is_empty [] = true
is_empty (r ∷ refs) = false

abbrev pub bool_eq : Bool → Bool → Bool
bool_eq true b = b
bool_eq false b = not b

unfoldable pub abuts : ℕ → ℕ → ℕ → Bool
abuts index_offset index_len table_len = elim (checked_add 64 index_offset index_len) [
  | none ↦ false
  | some end ↦ elim (checked_add 64 end footer_bytes) [
    | none ↦ false
    | some whole ↦ whole == table_len
  ]
]

unfoldable pub parse : ℕ → List ℕ → Result Error SparseTableIndex
unfolding parse_blocks hashes_ascend abuts
parse table_len tail = do
  ensure
      (leb (8 + footer_bytes) table_len
        && (leb footer_bytes (length tail) && leb (length tail) table_len))
      truncated
  let footer = drop (length tail - footer_bytes) tail
  ensure (bytes_eq (take 8 (drop 24 footer)) sparse_table_magic) magic_mismatch
  let entry_count = read_u64 0 footer
  let block_count = read_u64 8 footer
  let index_offset = read_u64 16 footer
  index_len ← context (checked_mul 64 block_count index_entry_bytes) index_overflows
  ensure (abuts index_offset index_len table_len) index_not_abutting
  let tail_start = table_len - length tail
  ensure (leb tail_start index_offset) index_outside_tail
  let index_in_tail = index_offset - tail_start
  ensure (leb index_in_tail (length tail - footer_bytes)) index_outside_tail
  let index = take (length tail - footer_bytes - index_in_tail) (drop index_in_tail tail)
  ensure (length index == index_len) index_len_mismatch
  blocks ← parse_blocks block_count 8 index_offset index
  ensure (hashes_ascend blocks) index_not_sorted
  ensure (bool_eq (entry_count == 0) (is_empty blocks)) count_mismatch
  ok (record { entry_count = entry_count; blocks = blocks })

-- `partition_point(|block| block.first_hash <= hash)`: the hashes ascend, so this is the length of the
-- prefix that satisfies the test.
unfoldable pub blocks_up_to : ℕ → List SparseBlockRef → ℕ
blocks_up_to hash [] = 0
blocks_up_to hash (r ∷ refs) =
    let rest = blocks_up_to hash refs in if leb r.first_hash hash then suc rest else 0

-- `position.checked_sub(1)`
unfoldable pub block_for : List SparseBlockRef → ℕ → Option ℕ
unfolding blocks_up_to
block_for refs hash = elim (blocks_up_to hash refs) [ zero ↦ none | suc n ↦ some n ]
