-- ===== src/SparseTable/IndexTiles.antt =====
-- Where the blocks lie that a parsed index of crates/index/src/sparse_table.rs names: against the bytes
-- of the table, its index and its footer included.
use holys.Common.{
  ℕ, zero, suc, ◌∙◌, ◌^◌, ◌+◌, ◌-◌, ◌*◌, ◌<◌, ◌≤◌, ◌≡◌, refl, sym, ap, subst, arith, ltb, leb,
  ltb→lt, ltb→ge, leb→le, ==→eq, &&→and,
}
use holys.Common.{List, [], ◌∷◌, length, take, drop, true, false, ◌&&◌, Bool-cases, inl, inr, ◌==◌}
use holys.Common.{ok, context, >>=-eq-ok, ensure-eq-ok, ok-injective, ok-ne-err}
use holys.Common.Checked.{mul_ok}
use holys.Common.Word32.{checked_sub, checked_mul}
use holys.SparseTable.Errors.{
  blocks_not_contiguous, block_len_underflows, block_len_invalid, truncated, magic_mismatch,
  index_overflows,
}
use holys.SparseTable.Errors.{
  index_not_abutting, index_outside_tail, index_len_mismatch, index_not_sorted, count_mismatch,
}
use holys.Grams.{bytes_eq}
use holys.SparseTable.Writer.{SparseBlockRef, block_bytes, sparse_table_magic}
use holys.SparseTable.Index.{
  parse, abuts, footer_bytes, hashes_ascend, bool_eq, is_empty, SparseTableIndex, read_u64,
  next_offset_of, index_entry_bytes, parse_blocks,
}

-- From `offset` to `end` the blocks lie end to end, each longer than its first hash and no longer than
-- a flushed block can be.
abbrev pub Tiles : ℕ → ℕ → List SparseBlockRef → Type 0
Tiles offset end [] = Unit
Tiles offset end (r ∷ []) =
    (r.offset ≡ offset) × (8 < r.len) × (r.len ≤ block_bytes + 32) × (offset + r.len ≡ end)
Tiles offset end (r ∷ s ∷ refs) =
    (r.offset ≡ offset)
    × (8 < r.len)
    × (r.len ≤ block_bytes + 32)
    × Tiles (offset + r.len) end (s ∷ refs)

sub_exact : (a b len : ℕ) → context (checked_sub a b) block_len_underflows ≡ ok len → b + len ≡ a
sub_exact a b len h = elim (Bool-cases (ltb a b)) [
  | inl t ↦ absurd (ok-ne-err (sym (rw t at h)))
  | inr f ↦ omega (arith, ltb→ge a b f, ok-injective (rw f at h))
]

nonempty :
    (n offset index_offset : ℕ) (entries : List ℕ)
    → parse_blocks (suc n) offset index_offset entries ≡ ok []
    → ⊥
unfolding parse_blocks
nonempty n offset index_offset entries h =
    let following = drop index_entry_bytes entries in
    let next = next_offset_of n index_offset following in
    let (_, h1) = ensure-eq-ok (read_u64 8 entries == offset) blocks_not_contiguous _ h in
    let (len, _, h2) =
      >>=-eq-ok (context (checked_sub next (read_u64 8 entries)) block_len_underflows) _ h1 in
    let (_, h3) = ensure-eq-ok (ltb 8 len && leb len (block_bytes + 32)) block_len_invalid _ h2 in
    let (rest, _, e) = >>=-eq-ok (parse_blocks n next index_offset following) _ h3 in
    cons_nil (ok-injective e)
  where
    cons_nil : {r : SparseBlockRef} {rest : List SparseBlockRef} → (r ∷ rest) ≡ [] → ⊥
    cons_nil p = cc

pub parse_blocks-Tiles :
    (remaining offset index_offset : ℕ) (entries : List ℕ) (refs : List SparseBlockRef)
    → parse_blocks remaining offset index_offset entries ≡ ok refs
    → Tiles offset index_offset refs
unfolding parse_blocks
parse_blocks-Tiles zero offset index_offset entries refs h =
    subst (Tiles offset index_offset) (ok-injective h) tt
parse_blocks-Tiles (suc remaining) offset index_offset entries refs h =
    let following = drop index_entry_bytes entries in
    let next = next_offset_of remaining index_offset following in
    let at = read_u64 8 entries in
    let (t, h1) = ensure-eq-ok (at == offset) blocks_not_contiguous _ h in
    let (len, hl, h2) = >>=-eq-ok (context (checked_sub next at) block_len_underflows) _ h1 in
    let (bounds, h3) =
      ensure-eq-ok (ltb 8 len && leb len (block_bytes + 32)) block_len_invalid _ h2 in
    let (rest, hr, e) = >>=-eq-ok (parse_blocks remaining next index_offset following) _ h3 in
    let (lower, upper) = &&→and (ltb 8 len) (leb len (block_bytes + 32)) bounds in
    let here = ==→eq at offset t in
    let r : SparseBlockRef = record {
      first_hash = read_u64 0 entries;
      offset = at;
      len = len;
      hash = take 32 (drop 16 entries);
    } in
    let behind : offset + len ≡ next = omega (arith, here, sub_exact next at len hl) in
    subst (Tiles offset index_offset) (ok-injective e) (
      tiled r rest remaining here (ltb→lt 8 len lower) (leb→le len (block_bytes + 32) upper) behind
        hr (parse_blocks-Tiles remaining next index_offset following rest hr))
  where
    tiled :
        (r : SparseBlockRef) (rest : List SparseBlockRef) (remaining : ℕ)
        → r.offset ≡ offset
        → 8 < r.len
        → r.len ≤ block_bytes + 32
        → offset + r.len ≡ next_offset_of remaining index_offset (drop index_entry_bytes entries)
        → parse_blocks remaining
            (next_offset_of remaining index_offset (drop index_entry_bytes entries))
            index_offset
            (drop index_entry_bytes entries)
          ≡ ok rest
        → Tiles
            (next_offset_of remaining index_offset (drop index_entry_bytes entries))
            index_offset
            rest
        → Tiles offset index_offset (r ∷ rest)
    tiled r [] zero o l u b p k = (o, l, u, b ∙ unfold next_offset_of in refl)
    tiled r [] (suc n) o l u b p k = absurd (
        nonempty n (next_offset_of (suc n) index_offset (drop index_entry_bytes entries))
          index_offset (drop index_entry_bytes entries) p)
    tiled r (s ∷ rest) n o l u b p k =
        (o, l, u, subst (λ t. Tiles t index_offset (s ∷ rest)) (sym b) k)

false-true : false ≡ true → ⊥
false-true p = cc

abuts-eq :
    (index_offset index_len table_len : ℕ)
    → abuts index_offset index_len table_len ≡ true
    → index_offset + index_len + footer_bytes ≡ table_len
unfolding abuts
abuts-eq o l t h = elim (Bool-cases (ltb (o + l) (2 ^ 64))) [
  | inr f ↦ absurd (false-true (rw (f, abuts) at h))
  | inl y ↦ elim (Bool-cases (ltb (o + l + footer_bytes) (2 ^ 64))) [
    | inr f ↦ absurd (false-true (rw (y, f, abuts) at h))
    | inl z ↦ ==→eq (o + l + footer_bytes) t (rw (y, z, abuts) at h)
  ]
]

-- The index has an entry for each block.
length-parse_blocks :
    (remaining offset index_offset : ℕ) (entries : List ℕ) (refs : List SparseBlockRef)
    → parse_blocks remaining offset index_offset entries ≡ ok refs
    → length refs ≡ remaining
unfolding parse_blocks
length-parse_blocks zero offset index_offset entries refs h =
    sym (ap (length {A = SparseBlockRef}) (ok-injective h))
length-parse_blocks (suc remaining) offset index_offset entries refs h =
    let following = drop index_entry_bytes entries in
    let next = next_offset_of remaining index_offset following in
    let (_, h1) = ensure-eq-ok (read_u64 8 entries == offset) blocks_not_contiguous _ h in
    let (len, _, h2) =
      >>=-eq-ok (context (checked_sub next (read_u64 8 entries)) block_len_underflows) _ h1 in
    let (_, h3) = ensure-eq-ok (ltb 8 len && leb len (block_bytes + 32)) block_len_invalid _ h2 in
    let (rest, hr, e) = >>=-eq-ok (parse_blocks remaining next index_offset following) _ h3 in
    sym (ap (length {A = SparseBlockRef}) (ok-injective e))
    ∙ ap suc (length-parse_blocks remaining next index_offset following rest hr)

index_spans :
    (block_count index_offset index_len table_len : ℕ) (entries : List ℕ)
    (blocks : List SparseBlockRef)
    → context (checked_mul 64 block_count index_entry_bytes) index_overflows ≡ ok index_len
    → abuts index_offset index_len table_len ≡ true
    → parse_blocks block_count 8 index_offset entries ≡ ok blocks
    → index_offset + length blocks * 48 + 32 ≡ table_len
index_spans n o l t entries blocks hl whole hb = omega (
  arith,
  abuts-eq o l t whole,
  mul_ok index_overflows n index_entry_bytes hl,
  length-parse_blocks n 8 o entries blocks hb,
)

-- The blocks of an index that parses lie end to end from the magic up to the offset that the footer, the
-- last 32 bytes, gives for the index; from there the entries, 48 bytes for each block, and the footer
-- take up what is left of the table.
pub parse-Tiles :
    (table_len : ℕ) (tail : List ℕ) (index : SparseTableIndex)
    → parse table_len tail ≡ ok index
    → (read_u64 16 (drop (length tail - 32) tail) + length index.blocks * 48 + 32 ≡ table_len)
      × Tiles 8 (read_u64 16 (drop (length tail - 32) tail)) index.blocks
unfolding parse abuts
parse-Tiles table_len tail index h =
    let footer = drop (length tail - footer_bytes) tail in
    let (_, h1) =
      ensure-eq-ok
        (leb (8 + footer_bytes) table_len
          && (leb footer_bytes (length tail) && leb (length tail) table_len))
        truncated _ h in
    let (_, h2) =
      ensure-eq-ok (bytes_eq (take 8 (drop 24 footer)) sparse_table_magic) magic_mismatch _ h1 in
    let (index_len, hl, h3) =
      >>=-eq-ok (context (checked_mul 64 (read_u64 8 footer) index_entry_bytes) index_overflows) _
        h2 in
    let (whole, h4) =
      ensure-eq-ok (abuts (read_u64 16 footer) index_len table_len) index_not_abutting _ h3 in
    let (_, h5) =
      ensure-eq-ok (leb (table_len - length tail) (read_u64 16 footer)) index_outside_tail _ h4 in
    let (_, h6) =
      ensure-eq-ok
        (leb (read_u64 16 footer - (table_len - length tail)) (length tail - footer_bytes))
        index_outside_tail _ h5 in
    let (_, h7) = ensure-eq-ok _ index_len_mismatch _ h6 in
    let (blocks, hb, h8) =
      >>=-eq-ok (parse_blocks (read_u64 8 footer) 8 (read_u64 16 footer) _) _ h7 in
    let (_, h9) = ensure-eq-ok (hashes_ascend blocks) index_not_sorted _ h8 in
    let (_, e) =
      ensure-eq-ok (bool_eq (read_u64 0 footer == 0) (is_empty blocks)) count_mismatch _ h9 in
    subst
      (λ (t : SparseTableIndex).
        (read_u64 16 footer + length t.blocks * 48 + 32 ≡ table_len)
        × Tiles 8 (read_u64 16 footer) t.blocks)
      (ok-injective e)
      (
        index_spans (read_u64 8 footer) (read_u64 16 footer) index_len table_len _ blocks hl whole
            hb,
        parse_blocks-Tiles (read_u64 8 footer) 8 (read_u64 16 footer) _ blocks hb,
      )
