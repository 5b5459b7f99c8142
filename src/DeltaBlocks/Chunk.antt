-- ===== src/DeltaBlocks/Chunk.antt =====
-- One chunk: the deltas of an ascending chunk, and what visiting them gives back.
use holys.Common.{ℕ, suc, ◌-◌, ◌^◌, ◌<◌, ◌≤◌, ◌≡◌, refl, ap, ◌∙◌, arith, max}
use holys.Common.{
  List, [], ◌∷◌, ◌++◌, length, All, append-nil, append_assoc, Option, none, some, sym,
}
use holys.Common.{ok, lt→ltb}
use holys.Common.Word32.{IsU32}
use holys.Common.Ascending.{AscendsFrom, IsBelow}
use holys.BitPack.Unpack.{visit_all}
use holys.DeltaBlocks.{delta_of, chunk_deltas, visit_delta}

-- The least id that may follow `previous`.
abbrev pub floor : Option ℕ → ℕ
floor none = 0
floor (some previous) = suc previous

-- The last id of a chunk.
unfoldable pub last_id : Option ℕ → List ℕ → Option ℕ
last_id previous [] = previous
last_id previous (id ∷ ids) = last_id (some id) ids

-- On an ascending list of u32s the subtractions do not wrap.
pub delta_of_lem :
    (previous : Option ℕ) (id : ℕ)
    → floor previous ≤ id
    → IsU32 id
    → delta_of previous id ≡ id - floor previous
unfolding delta_of
delta_of_lem none id h u = omega arith
delta_of_lem (some previous) id h u = omega arith

module _ (bound : ℕ) (u32 : bound ≤ 2 ^ 32) where
  -- `chunk_deltas` keeps the length, and its maximum bounds every delta.
  pub chunk_deltas_lem :
      (previous : Option ℕ) (m : ℕ) (ids : List ℕ)
      → AscendsFrom (floor previous) ids
      → IsBelow bound ids
      → m < 2 ^ 32
      → (length (chunk_deltas previous m ids).0 ≡ length ids)
        × All (λ d. d ≤ (chunk_deltas previous m ids).1) (chunk_deltas previous m ids).0
        × (m ≤ (chunk_deltas previous m ids).1)
        × ((chunk_deltas previous m ids).1 < 2 ^ 32)
        × ((chunk_deltas previous m ids).2 ≡ last_id previous ids)
  unfolding chunk_deltas last_id
  chunk_deltas_lem previous m [] a b h = (refl, tt, omega arith, h, refl)
  chunk_deltas_lem previous m (id ∷ ids) (lo, a) (hb, b) h =
      let d : ℕ = delta_of previous id in
      let e = delta_of_lem previous id lo (omega (arith, u32)) in
      let (l, bounded, grows, fits, last) =
        chunk_deltas_lem (some id) (max m d) ids a b (omega (arith, e, u32)) in
      (ap suc l, (omega (arith, grows), bounded), omega (arith, grows), fits, last)

  visit_delta_lem :
      (previous : Option ℕ) (id : ℕ) (ids : List ℕ)
      → floor previous ≤ id
      → id < bound
      → visit_delta bound (delta_of previous id) (previous, ids) ≡ ok (some id, ids ++ (id ∷ []))
  unfolding visit_delta
  visit_delta_lem none id ids lo hb = unfold delta_of in rw (lt→ltb id bound hb)
  visit_delta_lem (some previous) id ids lo hb =
      rw (delta_of_lem (some previous) id lo (omega (arith, u32))) (ground (arith, u32))

  -- Visiting the deltas of a chunk pushes the chunk.
  pub visit_deltas_lem :
      (previous : Option ℕ) (m : ℕ) (chunk ids : List ℕ)
      → AscendsFrom (floor previous) chunk
      → IsBelow bound chunk
      → visit_all (visit_delta bound) (chunk_deltas previous m chunk).0 (previous, ids)
        ≡ ok (last_id previous chunk, ids ++ chunk)
  unfolding visit_all chunk_deltas last_id
  visit_deltas_lem previous m [] ids a b =
      ap (λ (l : List ℕ). ok (previous, l)) (sym (append-nil ids))
  visit_deltas_lem previous m (id ∷ chunk) ids (lo, a) (hb, b) =
      rw (visit_delta_lem previous id ids lo hb) (
        visit_deltas_lem (some id) (max m (delta_of previous id)) chunk (ids ++ (id ∷ [])) a b
        ∙ ap (λ (l : List ℕ). ok (last_id (some id) chunk, l)) (append_assoc ids (id ∷ []) chunk))
