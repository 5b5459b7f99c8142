-- ===== src/PostingsTable/Covered.antt =====
-- The blocks that a read rounds to cover it, and each has a hash.
use holys.Common.{
  ℕ, zero, suc, ◌+◌, ◌-◌, ◌*◌, ◌/◌, ◌<◌, ◌≤◌, min, ◌≡◌, refl, ap, subst, ◌∙◌, arith, ltb, leb,
  ge→ltb, leb→le, ==→eq, &&→and, ◌==◌, ◌&&◌,
}
use holys.Common.{List, length, length-take, length-drop, take, drop}
use holys.Common.{ok, context, >>=-eq-ok, ensure-eq-ok, ok-injective}
use holys.Common.Checked.{sub_ok, add_ok, mul_ok}
use holys.Common.Word32.{checked_add, checked_mul, checked_sub}
use holys.Grams.{bytes_eq}
use holys.PostingsTable.Writer.{postings_magic, verify_block_bytes, footer_bytes}
use holys.PostingsTable.Index.{
  truncated, magic_mismatch, count_mismatch, table_overflows, not_abutting, table_missing,
  range_overflows, range_outside,
}
use holys.PostingsTable.Index.{
  PostingsTableIndex, read_u64, blocks_of, chunks, abuts, parse, block_range, blocks_covering,
}

length-chunks : (n : ℕ) (bytes : List ℕ) → length (chunks n bytes) ≡ n
unfolding chunks
length-chunks zero bytes = refl
length-chunks (suc n) bytes = ap suc (length-chunks n (drop 32 bytes))

-- A table that parses has a hash for each block of the data.
pub parse-hashes :
    (blob_len : ℕ) (tail : List ℕ) (table : PostingsTableIndex)
    → parse blob_len tail ≡ ok table
    → length table.hashes ≡ blocks_of table.data_len
unfolding parse
parse-hashes blob_len tail table h =
    let footer = drop (length tail - footer_bytes) tail in
    let (_, h1) =
      ensure-eq-ok (leb footer_bytes (length tail) && leb (length tail) blob_len) truncated _ h in
    let (_, h2) =
      ensure-eq-ok (bytes_eq (take 8 (drop 16 footer)) postings_magic) magic_mismatch _ h1 in
    let (count, h3) =
      ensure-eq-ok (read_u64 (drop 8 footer) == blocks_of (read_u64 footer)) count_mismatch _ h2 in
    let (table_len, hm, h4) =
      >>=-eq-ok (context (checked_mul 64 (read_u64 (drop 8 footer)) 32) table_overflows) _ h3 in
    let (_, h5) = ensure-eq-ok (abuts (read_u64 footer) table_len blob_len) not_abutting _ h4 in
    let (start, hs, e) =
      >>=-eq-ok (context (checked_sub (length tail) (footer_bytes + table_len)) table_missing) _
        h5 in
    let (fits, at, _) = sub_ok table_missing (length tail) (footer_bytes + table_len) hs in
    let bytes = take (length tail - footer_bytes - start) (drop start tail) in
    let size : length bytes / 32 ≡ blocks_of (read_u64 footer) = omega (
      arith,
      length-take (length tail - footer_bytes - start) (drop start tail),
      length-drop start tail,
      fits,
      at,
      mul_ok table_overflows (read_u64 (drop 8 footer)) 32 hm,
      ==→eq (read_u64 (drop 8 footer)) (blocks_of (read_u64 footer)) count,
    ) in
    subst (λ (t : PostingsTableIndex). length t.hashes ≡ blocks_of t.data_len) (ok-injective e)
      (length-chunks (length bytes / 32) bytes ∙ size)

-- What a read of `offset..offset + len` is rounded to.
abbrev pub IsRounded : PostingsTableIndex → ℕ → ℕ → ℕ × ℕ → Type 0
IsRounded table offset len blocks =
    (blocks.0 * verify_block_bytes ≤ offset)
    × (offset + len ≤ blocks.1 * verify_block_bytes)
    × (offset < blocks.0 * verify_block_bytes + verify_block_bytes)
    × (blocks.1 ≤ length table.hashes)
    × ((i : ℕ)
        → i < blocks.1
        → (n : ℕ) × (block_range table i ≡ ok (i * verify_block_bytes, n))
          × (0 < n)
          × (i * verify_block_bytes + n ≤ table.data_len))

-- The blocks that a read is rounded to cover it, start with the one that it starts in, and each has a hash
-- in the table and bytes in the data, whatever bytes the table was parsed from.
pub blocks_covering-IsRounded :
    (blob_len : ℕ) (tail : List ℕ) (table : PostingsTableIndex) (offset len : ℕ) (blocks : ℕ × ℕ)
    → parse blob_len tail ≡ ok table
    → blocks_covering table offset len ≡ ok blocks
    → IsRounded table offset len blocks
unfolding blocks_covering block_range
blocks_covering-IsRounded blob_len tail table offset len blocks p h =
    let (end, he, h1) = >>=-eq-ok (context (checked_add 64 offset len) range_overflows) _ h in
    let (t, e) = ensure-eq-ok (leb end table.data_len && ltb 0 len) range_outside _ h1 in
    let (inside, some_bytes) = &&→and (leb end table.data_len) (ltb 0 len) t in
    let ends = add_ok range_overflows offset len he in
    let within = leb→le end table.data_len inside in
    subst (IsRounded table offset len) (ok-injective e) (
      omega arith,
      omega (arith, ends),
      omega arith,
      omega (arith, parse-hashes blob_len tail table p, within),
      λ i l. (
        min verify_block_bytes (table.data_len - i * verify_block_bytes),
        rw (ge→ltb table.data_len (i * verify_block_bytes) (before i end l within)) refl,
        has_bytes i end l within,
        omega (arith, before i end l within),
      ),
    )
  where
    before :
        (i end : ℕ)
        → i < blocks_of end
        → end ≤ table.data_len
        → i * verify_block_bytes ≤ table.data_len
    before i end l w = omega (arith, l, w)

    has_bytes :
        (i end : ℕ)
        → i < blocks_of end
        → end ≤ table.data_len
        → 0 < min verify_block_bytes (table.data_len - i * verify_block_bytes)
    has_bytes i end l w = omega (arith, l, w)
