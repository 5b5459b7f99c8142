-- ===== src/PostingsTable/Index.antt =====
-- PostingsTableIndex of crates/index/src/postings_table.rs.
use holys.Common.{ℕ, zero, suc, ◌+◌, ◌-◌, ◌*◌, ◌/◌, ltb, leb, ◌==◌, min, Bool, false, ◌&&◌}
use holys.Common.{List, [], ◌∷◌, length, take, drop, get_elem?, none, some}
use holys.Common.{Result, ok, ensure, context, ◌>>=◌, ◌>>◌}
use holys.Common.Word32.{checked_add, checked_mul, checked_sub}
use holys.Common.Bytes.{from_le_bytes}
use holys.Grams.{bytes_eq}
use holys.PostingsTable.Writer.{postings_magic, verify_block_bytes, footer_bytes}

pub data Error : Type 0 where
  truncated magic_mismatch count_mismatch table_overflows not_abutting table_missing : Error
  range_overflows range_outside panicked verification_failed : Error

pub record PostingsTableIndex : Type 0 where
  pub data_len : ℕ
  pub hashes : List (List ℕ)

abbrev pub read_u64 : List ℕ → ℕ
read_u64 bytes = from_le_bytes (take 8 bytes)

-- `n.div_ceil(VERIFY_BLOCK_BYTES)`
abbrev pub blocks_of : ℕ → ℕ
blocks_of n = (n + (verify_block_bytes - 1)) / verify_block_bytes

-- `chunks_exact(32)` of `n` chunks.
unfoldable pub chunks : ℕ → List ℕ → List (List ℕ)
chunks zero bytes = []
chunks (suc n) bytes = take 32 bytes ∷ chunks n (drop 32 bytes)

unfoldable pub abuts : ℕ → ℕ → ℕ → Bool
abuts data_len table_len blob_len = elim (checked_add 64 data_len table_len) [
  | none ↦ false
  | some end ↦ elim (checked_add 64 end footer_bytes) [
    | none ↦ false
    | some whole ↦ whole == blob_len
  ]
]

unfoldable pub parse : ℕ → List ℕ → Result Error PostingsTableIndex
unfolding abuts chunks
parse blob_len tail = do
  ensure (leb footer_bytes (length tail) && leb (length tail) blob_len) truncated
  let footer = drop (length tail - footer_bytes) tail
  ensure (bytes_eq (take 8 (drop 16 footer)) postings_magic) magic_mismatch
  let data_len = read_u64 footer
  let block_count = read_u64 (drop 8 footer)
  ensure (block_count == blocks_of data_len) count_mismatch
  table_len ← context (checked_mul 64 block_count 32) table_overflows
  ensure (abuts data_len table_len blob_len) not_abutting
  table_in_tail ← context (checked_sub (length tail) (footer_bytes + table_len)) table_missing
  let table = take (length tail - footer_bytes - table_in_tail) (drop table_in_tail tail)
  ok (record { data_len = data_len; hashes = chunks (length table / 32) table })

-- The offset and the length of a block; the subtraction panics behind the data.
unfoldable pub block_range : PostingsTableIndex → ℕ → Result Error (ℕ × ℕ)
block_range table index =
    let offset = index * verify_block_bytes in
    context (checked_sub table.data_len offset) panicked >>= λ left.
    ok (offset, min verify_block_bytes left)

-- The blocks that cover a range, by the ends of their range.
unfoldable pub blocks_covering : PostingsTableIndex → ℕ → ℕ → Result Error (ℕ × ℕ)
blocks_covering table offset len = do
  end ← context (checked_add 64 offset len) range_overflows
  ensure (leb end table.data_len && ltb 0 len) range_outside
  ok (offset / verify_block_bytes, blocks_of end)

module _ (sha256 : List ℕ → List ℕ) where
  unfoldable pub verify : PostingsTableIndex → ℕ → List ℕ → Result Error (Unit {0})
  unfolding block_range
  verify table index payload = do
    (offset, len) ← block_range table index
    ensure (length payload == len) verification_failed
    hash ← context (get_elem? table.hashes index) panicked
    ensure (bytes_eq (sha256 payload) hash) verification_failed
    ok tt
