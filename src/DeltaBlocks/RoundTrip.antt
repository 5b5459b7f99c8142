-- ===== src/DeltaBlocks/RoundTrip.antt =====
-- Decoding an encoded posting list gives the list back.
use holys.Common.{ℕ, zero, suc, ◌-◌, ◌^◌, ◌<◌, ◌≤◌, ◌≡◌, ap, ◌∙◌, arith, min}
use holys.Common.{List, [], ◌∷◌, ◌++◌, length, append_assoc, Option, none, some, sym}
use holys.Common.{take, drop, take-append-drop, length-take, length-drop}
use holys.Common.{ok, le→leb, subst, All-split, append-nil}
use holys.Common.Ascending.{AscendsFrom, IsAscending, IsBelow, length-AscendsFrom}
use holys.DeltaBlocks.{encode_chunks, encode_delta_blocks, block_ids}
use holys.DeltaBlocks.{decode_block, decode_blocks, decode_delta_blocks}
use holys.DeltaBlocks.Chunk.{floor, last_id}
use holys.DeltaBlocks.Block.{block_bytes, encode_chunk_lem, decode_block_lem}

ascends-take : (n lo : ℕ) (ids : List ℕ) → AscendsFrom lo ids → AscendsFrom lo (take n ids)
ascends-take zero lo ids a = tt
ascends-take (suc n) lo [] a = tt
ascends-take (suc n) lo (id ∷ ids) (h, a) = (h, ascends-take n (suc id) ids a)

ascends-drop :
    (n : ℕ) (previous : Option ℕ) (ids : List ℕ)
    → AscendsFrom (floor previous) ids
    → AscendsFrom (floor (last_id previous (take n ids))) (drop n ids)
unfolding last_id
ascends-drop zero previous ids a = a
ascends-drop (suc n) previous [] a = tt
ascends-drop (suc n) previous (id ∷ ids) (h, a) = ascends-drop n (some id) ids a

IsBelow-parts :
    (bound n : ℕ) (ids : List ℕ)
    → IsBelow bound ids
    → IsBelow bound (take n ids) × IsBelow bound (drop n ids)
IsBelow-parts bound n ids b =
    All-split (λ x. x < bound) (take n ids) (drop n ids)
      (subst (IsBelow bound) (sym (take-append-drop n ids)) b)

module _ (bound : ℕ) (u32 : bound ≤ 2 ^ 32) where
  -- A round of the encoder on what is left, and a round of the decoder on its bytes.
  encode_step :
      (fuel : ℕ) (previous : Option ℕ) (id : ℕ) (ids out : List ℕ)
      → AscendsFrom (floor previous) (id ∷ ids)
      → IsBelow bound (id ∷ ids)
      → encode_chunks (suc fuel) previous (id ∷ ids) out
        ≡ encode_chunks fuel
            (last_id previous (take block_ids (id ∷ ids)))
            (drop block_ids (id ∷ ids))
            (out ++ block_bytes previous (take block_ids (id ∷ ids)))
  unfolding encode_chunks
  encode_step fuel previous id ids out a b =
      ap (λ (p : Option ℕ × List ℕ). encode_chunks fuel p.0 (drop block_ids (id ∷ ids)) p.1)
        (encode_chunk_lem bound u32 previous (take block_ids (id ∷ ids)) out
          (ascends-take block_ids (floor previous) (id ∷ ids) a)
          (IsBelow-parts bound block_ids (id ∷ ids) b).0)

  -- The bytes of the blocks, appended to what is there.
  encode_chunks-append :
      (fuel : ℕ) (previous : Option ℕ) (ids out : List ℕ)
      → AscendsFrom (floor previous) ids
      → IsBelow bound ids
      → encode_chunks fuel previous ids out ≡ out ++ encode_chunks fuel previous ids []
  encode_chunks-append fuel previous [] out a b = unfold encode_chunks in sym (append-nil out)
  encode_chunks-append zero previous (id ∷ ids) out a b =
      unfold encode_chunks in sym (append-nil out)
  encode_chunks-append (suc fuel) previous (id ∷ ids) out a b =
      let last = last_id previous (take block_ids (id ∷ ids)) in
      let later = drop block_ids (id ∷ ids) in
      let bytes = block_bytes previous (take block_ids (id ∷ ids)) in
      let ad = ascends-drop block_ids previous (id ∷ ids) a in
      let bd = (IsBelow-parts bound block_ids (id ∷ ids) b).1 in
      encode_step fuel previous id ids out a b
      ∙ encode_chunks-append fuel last later (out ++ bytes) ad bd
      ∙ append_assoc out bytes (encode_chunks fuel last later [])
      ∙ ap (◌++◌ out) (sym (encode_chunks-append fuel last later bytes ad bd))
      ∙ ap (◌++◌ out) (sym (encode_step fuel previous id ids [] a b))

  decode_step :
      (f n doc : ℕ) (bytes rest : List ℕ) (state state' : Option ℕ × List ℕ)
      → decode_block doc (min (suc n) block_ids) bytes state ≡ ok (rest, state')
      → decode_blocks (suc f) doc (suc n) bytes state
        ≡ decode_blocks f doc (suc n - min (suc n) block_ids) rest state'
  unfolding decode_blocks
  decode_step f n doc bytes rest state state' e = rw e

  decode_blocks_lem :
      (fuel fuel' : ℕ) (previous : Option ℕ) (ids acc : List ℕ)
      → AscendsFrom (floor previous) ids
      → IsBelow bound ids
      → length ids ≤ fuel
      → length ids ≤ fuel'
      → decode_blocks fuel' bound (length ids) (encode_chunks fuel previous ids []) (previous, acc)
        ≡ ok (acc ++ ids)
  decode_blocks_lem fuel zero previous [] acc a b h h' =
      unfold encode_chunks decode_blocks in ap ok (sym (append-nil acc))
  decode_blocks_lem fuel (suc fuel') previous [] acc a b h h' =
      unfold encode_chunks decode_blocks in ap ok (sym (append-nil acc))
  decode_blocks_lem zero fuel' previous (id ∷ ids) acc a b h h' = absurd (omega arith)
  decode_blocks_lem (suc fuel) zero previous (id ∷ ids) acc a b h h' = absurd (omega arith)
  decode_blocks_lem (suc fuel) (suc fuel') previous (id ∷ ids) acc a b h h' =
      let chunk : List ℕ = take block_ids (id ∷ ids) in
      let later : List ℕ = drop block_ids (id ∷ ids) in
      let last = last_id previous chunk in
      let bytes = block_bytes previous chunk in
      let ac = ascends-take block_ids (floor previous) (id ∷ ids) a in
      let ad = ascends-drop block_ids previous (id ∷ ids) a in
      let (bc, bd) = IsBelow-parts bound block_ids (id ∷ ids) b in
      let size : length chunk ≡ min (suc (length ids)) block_ids =
        length-take block_ids (id ∷ ids) ∙ omega arith in
      let left : suc (length ids) - min (suc (length ids)) block_ids ≡ length later =
        omega (arith, length-drop block_ids (id ∷ ids)) in
      ap (λ (bs : List ℕ). decode_blocks (suc fuel') bound (suc (length ids)) bs (previous, acc))
        (encode_step fuel previous id ids [] a b ∙ encode_chunks-append fuel last later bytes ad bd)
      ∙ decode_step fuel' (length ids) bound _ _ _ _ (
          ap
            (λ (n : ℕ).
              decode_block bound n (bytes ++ encode_chunks fuel last later []) (previous, acc))
            (sym size)
          ∙ decode_block_lem bound u32 previous chunk (encode_chunks fuel last later []) acc ac bc)
      ∙ ap
          (λ (n : ℕ).
            decode_blocks fuel' bound n (encode_chunks fuel last later []) (last, acc ++ chunk))
          left
      ∙ decode_blocks_lem fuel fuel' last later (acc ++ chunk) ad bd
          (omega (arith, length-drop block_ids (id ∷ ids)))
          (omega (arith, length-drop block_ids (id ∷ ids)))
      ∙ ap ok (append_assoc acc chunk later ∙ ap (◌++◌ acc) (take-append-drop block_ids (id ∷ ids)))

-- Decoding what was encoded gives back every ascending list of ids below the document count, a u32.
pub decode-encode :
    (ids : List ℕ) (doc_count : ℕ)
    → IsAscending ids
    → IsBelow doc_count ids
    → doc_count ≤ 2 ^ 32
    → decode_delta_blocks (encode_delta_blocks ids []) (length ids) doc_count ≡ ok ids
unfolding decode_delta_blocks encode_delta_blocks
decode-encode ids doc_count a b u32 =
    rw
      (le→leb (length ids) doc_count
        (omega (arith, length-AscendsFrom 0 doc_count ids a b (omega arith))))
      (decode_blocks_lem doc_count u32 (length ids) (length ids) none ids [] a b (omega arith)
        (omega arith))
