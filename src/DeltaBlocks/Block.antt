-- ===== src/DeltaBlocks/Block.antt =====
-- One block: the bytes that the encoder appends for a chunk, and the decoder on them.
use holys.Common.{ℕ, ◌+◌, ◌*◌, ◌/◌, ◌%◌, ◌^◌, ◌≤◌, ◌≡◌, ap, ap₂, ◌∙◌, arith}
use holys.Common.{List, [], ◌∷◌, ◌++◌, length, All-map, append_assoc, Option, some, sym}
use holys.Common.{take-append, drop-append, length-append}
use holys.Common.{ok, le→leb}
use holys.Common.Word32.{bit_width_bounds, bit_width-fits}
use holys.Common.Ascending.{AscendsFrom, IsBelow}
use holys.BitPack.{pack_fixed, unpack_fixed}
use holys.BitPack.Digits.{fields, fields-field_value, Fits}
use holys.BitPack.PackBytes.{pack_fixed-append, pack_fixed_lem, pack_fixed-IsByte}
use holys.BitPack.Unpack.{visit_all, unpack_fixed_lem}
use holys.DeltaBlocks.{bits_for, chunk_deltas, encode_chunk}
use holys.DeltaBlocks.{truncated, next_bytes, visit_delta, decode_block}
use holys.DeltaBlocks.Chunk.{floor, last_id, chunk_deltas_lem, visit_deltas_lem}
use native.Mathlib.Nat.{mod-eq_of_lt}

-- The bytes of one block.
pub block_bytes : Option ℕ → List ℕ → List ℕ
block_bytes previous chunk =
    let width = bits_for (chunk_deltas previous 0 chunk).1 in
    width ∷ pack_fixed (chunk_deltas previous 0 chunk).0 width []

bits_for_bounds : (value : ℕ) → (1 ≤ bits_for value) × (bits_for value ≤ 32)
unfolding bits_for
bits_for_bounds = bit_width_bounds

next_bytes-append :
    (n : ℕ) (xs ys : List ℕ) → length xs ≡ n → next_bytes n (xs ++ ys) ≡ some (xs, ys)
next_bytes-append n xs ys e = rw (← e) (
    rw (le→leb (length xs) (length (xs ++ ys)) (omega (arith, length-append xs ys)))
      (ap₂ (λ (a b : List ℕ). some (a, b)) (take-append xs ys) (drop-append xs ys)))

module _ (bound : ℕ) (u32 : bound ≤ 2 ^ 32) where
  pub encode_chunk_lem :
      (previous : Option ℕ) (chunk out : List ℕ)
      → AscendsFrom (floor previous) chunk
      → IsBelow bound chunk
      → encode_chunk previous chunk out
        ≡ (last_id previous chunk, out ++ block_bytes previous chunk)
  unfolding encode_chunk block_bytes
  encode_chunk_lem previous chunk out a b =
      let w : ℕ = bits_for (chunk_deltas previous 0 chunk).1 in
      let (l, bounded, grows, fits, last) =
        chunk_deltas_lem bound u32 previous 0 chunk a b (omega arith) in
      let (lo, hi) = bits_for_bounds (chunk_deltas previous 0 chunk).1 in
      ap₂ (λ (p : Option ℕ) (bytes : List ℕ). (p, bytes)) last
        (pack_fixed-append (chunk_deltas previous 0 chunk).0 w (out ++ ((w % 256) ∷ []))
          ∙ append_assoc out ((w % 256) ∷ []) _
          ∙ ap (λ (h : ℕ). out ++ (h ∷ pack_fixed (chunk_deltas previous 0 chunk).0 w []))
              (mod-eq_of_lt (omega (arith, hi))))

  deltas_fit :
      (previous : Option ℕ) (chunk : List ℕ)
      → AscendsFrom (floor previous) chunk
      → IsBelow bound chunk
      → Fits (bits_for (chunk_deltas previous 0 chunk).1) (chunk_deltas previous 0 chunk).0
  unfolding bits_for
  deltas_fit previous chunk a b =
      let (l, bounded, grows, fits, last) =
        chunk_deltas_lem bound u32 previous 0 chunk a b (omega arith) in
      let top = bit_width-fits (chunk_deltas previous 0 chunk).1 fits in
      All-map (λ (d : ℕ). d ≤ (chunk_deltas previous 0 chunk).1) _ (λ d h. omega (arith, top)) _
        bounded

  -- The visitor sees the deltas of the chunk.
  unpack_block :
      (previous : Option ℕ) (chunk ids : List ℕ)
      → AscendsFrom (floor previous) chunk
      → IsBelow bound chunk
      → unpack_fixed truncated
          (pack_fixed
            (chunk_deltas previous 0 chunk).0
            (bits_for (chunk_deltas previous 0 chunk).1)
            [])
          (length chunk)
          (bits_for (chunk_deltas previous 0 chunk).1)
          (visit_delta bound)
          (previous, ids)
        ≡ ok (last_id previous chunk, ids ++ chunk)
  unpack_block previous chunk ids a b =
      let deltas : List ℕ = (chunk_deltas previous 0 chunk).0 in
      let w : ℕ = bits_for (chunk_deltas previous 0 chunk).1 in
      let hi = (bits_for_bounds (chunk_deltas previous 0 chunk).1).1 in
      let l = (chunk_deltas_lem bound u32 previous 0 chunk a b (omega arith)).0 in
      let fit = deltas_fit previous chunk a b in
      let (number, size) = pack_fixed_lem deltas w fit hi in
      unpack_fixed_lem truncated (pack_fixed deltas w []) (length chunk) w (visit_delta bound)
        (previous, ids) (pack_fixed-IsByte deltas w) hi
        (omega (arith, size, ap (λ (t : ℕ). t * w) l))
      ∙ ap (λ (vs : List ℕ). visit_all (visit_delta bound) vs (previous, ids))
          (ap₂ (fields w) (sym l) number ∙ fields-field_value w deltas fit)
      ∙ visit_deltas_lem bound u32 previous 0 chunk ids a b

  pub decode_block_lem :
      (previous : Option ℕ) (chunk rest ids : List ℕ)
      → AscendsFrom (floor previous) chunk
      → IsBelow bound chunk
      → decode_block bound (length chunk) (block_bytes previous chunk ++ rest) (previous, ids)
        ≡ ok (rest, (last_id previous chunk, ids ++ chunk))
  unfolding decode_block block_bytes
  decode_block_lem previous chunk rest ids a b =
      let deltas : List ℕ = (chunk_deltas previous 0 chunk).0 in
      let w : ℕ = bits_for (chunk_deltas previous 0 chunk).1 in
      let (lo, hi) = bits_for_bounds (chunk_deltas previous 0 chunk).1 in
      let l = (chunk_deltas_lem bound u32 previous 0 chunk a b (omega arith)).0 in
      let size = (pack_fixed_lem deltas w (deltas_fit previous chunk a b) hi).1 in
      rw (
        le→leb 1 w lo,
        le→leb w 32 hi,
        next_bytes-append ((length chunk * w + 7) / 8) (pack_fixed deltas w []) rest
            (size ∙ ap (λ (t : ℕ). (t * w + 7) / 8) l),
        unpack_block previous chunk ids a b,
      )
