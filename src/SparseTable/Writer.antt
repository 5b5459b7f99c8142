-- ===== src/SparseTable/Writer.antt =====
-- SparseTableWriter of crates/index/src/sparse_table.rs. What the inner writer was given is the list
-- `out`; SHA-256 is not of this repository: it is a parameter, and a failing write is left out.
use holys.Common.{ℕ, ◌+◌, ◌*◌, ◌/◌, ◌%◌, ltb, leb}
use holys.Common.{List, [], ◌∷◌, ◌++◌, length, take, drop, Option, none, some, if◌then◌else◌}
use holys.Common.{Result, ok, ensure, context, ◌>>=◌, ◌>>◌}
use holys.Common.Bytes.{to_le_bytes}
use holys.SparseTable.Errors.{Error, not_ascending, truncated}
use holys.SparseTable.Entry.{Entry, write_hash, write_value, after_last, for_each_entry, push_entry}

-- `b"SGSPARSE"`
abbrev pub sparse_table_magic : List ℕ
sparse_table_magic = 83 ∷ 71 ∷ 83 ∷ 80 ∷ 65 ∷ 82 ∷ 83 ∷ 69 ∷ []

abbrev pub block_bytes : ℕ
block_bytes = 128 * 1024

-- A digit of `{byte:02x}`.
abbrev pub hex_digit : ℕ → ℕ
hex_digit n = if ltb n 10 then 48 + n else 87 + n

unfoldable pub hex : List ℕ → List ℕ
hex [] = []
hex (byte ∷ bytes) = hex_digit (byte / 16) ∷ hex_digit (byte % 16) ∷ hex bytes

pub record SparseBlockRef : Type 0 where
  pub first_hash : ℕ
  pub offset : ℕ
  pub len : ℕ
  pub hash : List ℕ

pub record SparseTableWriter : Type 0 where
  pub out : List ℕ
  pub block : List ℕ
  pub block_first_hash : ℕ
  pub last_hash : Option ℕ
  pub entry_count : ℕ
  pub written : ℕ
  pub index : List SparseBlockRef

unfoldable pub new : SparseTableWriter
new = record {
  out = sparse_table_magic;
  block = [];
  block_first_hash = 0;
  last_hash = none;
  entry_count = 0;
  written = 8;
  index = [];
}

-- `if self.block.is_empty() { self.block_first_hash = hash; .. }`
abbrev pub first_hash_of : List ℕ → ℕ → ℕ → ℕ
first_hash_of [] hash current = hash
first_hash_of (b ∷ block) hash current = current

module _ (sha256 : List ℕ → List ℕ) where
  abbrev pub block_ref : SparseTableWriter → SparseBlockRef
  block_ref w = record {
    first_hash = w.block_first_hash;
    offset = w.written;
    len = length w.block;
    hash = sha256 w.block;
  }

  abbrev pub flushed : SparseTableWriter → SparseTableWriter
  flushed w = record w {
    out = w.out ++ w.block;
    block = [];
    written = w.written + length w.block;
    index = w.index ++ (block_ref w ∷ []);
  }

  unfoldable pub flush_block : SparseTableWriter → SparseTableWriter
  flush_block w = elim w.block [ [] ↦ w | b ∷ bs ↦ flushed w ]

  -- The entry is in the block; a full block is flushed.
  unfoldable pub flush_full : SparseTableWriter → SparseTableWriter
  unfolding flush_block
  flush_full w = if leb block_bytes (length w.block) then flush_block w else w

  unfoldable pub insert : Entry → SparseTableWriter → Result Error SparseTableWriter
  unfolding write_hash write_value after_last flush_full
  insert e w = do
    ensure (after_last w.last_hash e.hash) not_ascending
    hashed ← write_hash w.block w.last_hash e.hash
    stored ← write_value hashed e.value e.len
    ok (
        flush_full (record w {
          block = stored;
          block_first_hash = first_hash_of w.block e.hash w.block_first_hash;
          last_hash = some e.hash;
          entry_count = w.entry_count + 1;
        }))

  -- The calls of `insert` that a dictionary makes, in order.
  unfoldable pub insert_all : List Entry → SparseTableWriter → Result Error SparseTableWriter
  unfolding insert
  insert_all [] w = ok w
  insert_all (e ∷ es) w = insert e w >>= λ w'. insert_all es w'

  abbrev pub index_bytes : List SparseBlockRef → List ℕ
  index_bytes [] = []
  index_bytes (r ∷ rs) =
      to_le_bytes 8 r.first_hash ++ (to_le_bytes 8 r.offset ++ (r.hash ++ index_bytes rs))

  -- `emit` of the block index, then of the footer.
  unfoldable pub tail_bytes : SparseTableWriter → List ℕ
  unfolding to_le_bytes
  tail_bytes w =
      index_bytes w.index
      ++ (to_le_bytes 8 w.entry_count
          ++ (to_le_bytes 8 (length w.index) ++ (to_le_bytes 8 w.written ++ sparse_table_magic)))

  -- The table, and the hash of its tail in hexadecimal.
  unfoldable pub finish : SparseTableWriter → List ℕ × List ℕ
  unfolding tail_bytes flush_block hex
  finish w =
      let closed = flush_block w in
      (closed.out ++ tail_bytes closed, hex (sha256 (tail_bytes closed)))

-- `bytes.get(start..end)`
abbrev pub byte_range : List ℕ → ℕ → ℕ → Option (List ℕ)
byte_range bytes start len =
    if leb (start + len) (length bytes) then some (take len (drop start bytes)) else none

-- The `Sparse` arm of `TermMap::visit` in crates/index/src/terms.rs, collecting.
unfoldable pub visit_table : List ℕ → List SparseBlockRef → List Entry → Result Error (List Entry)
visit_table bytes [] acc = ok acc
visit_table bytes (r ∷ refs) acc = do
  raw ← context (byte_range bytes r.offset r.len) truncated
  acc' ← for_each_entry push_entry raw acc
  visit_table bytes refs acc'
