-- ===== src/DeltaBlocks/Valid.antt =====
-- What the decoder promises on any bytes: a list that it returns is a valid posting list, and it
-- always comes to an end.
use holys.Common.{ℕ, zero, suc, ◌+◌, ◌-◌, ◌*◌, ◌/◌, ◌≤◌, ◌≡◌, refl, ap, arith, min}
use holys.Common.{
  List, [], ◌∷◌, ◌++◌, length, length-append, All-append, All-map, Option, none, some,
}
use holys.Common.{ok, >>=-eq-ok, ensure-eq-ok, context, leb, ltb, ltb→lt, ◌&&◌}
use holys.Common.{subst, sym, ok-injective, ok-ne-err}
use holys.Common.Ascending.{AscendsFrom, IsAscending, IsBelow}
use holys.BitPack.{unpack_fixed}
use holys.DeltaBlocks.{truncated, add_delta, visit_delta, next_byte, next_bytes, block_ids}
use holys.DeltaBlocks.{
  decode_block, decode_blocks, decode_delta_blocks, delta_overflows, out_of_bounds,
}
use holys.DeltaBlocks.{no_width_header, invalid_width, ends_inside_ids}
use holys.DeltaBlocks.Chunk.{floor}
use holys.BitPack.Visits.{unpack_fixed_inv}

-- The decoder's state after `k` ids: they ascend below the count, and end below `previous`.
record IsPartial (doc_count k : ℕ) (s : Option ℕ × List ℕ) : Type 0 where
  counted : length s.1 ≡ k
  ascends : IsAscending s.1
  bounded : IsBelow doc_count s.1
  passed : IsBelow (floor s.0) s.1

AscendsFrom-snoc :
    (lo hi x : ℕ) (xs : List ℕ)
    → AscendsFrom lo xs
    → IsBelow hi xs
    → hi ≤ x
    → lo ≤ x
    → AscendsFrom lo (xs ++ (x ∷ []))
AscendsFrom-snoc lo hi x [] a b h l = (l, tt)
AscendsFrom-snoc lo hi x (y ∷ ys) (hy, a) (by, b) h l =
    (hy, AscendsFrom-snoc (suc y) hi x ys a b h (omega arith))

-- An id that is pushed is new: it is not below the floor.
add_delta-floor :
    (previous : Option ℕ) (delta id : ℕ) → add_delta previous delta ≡ some id → floor previous ≤ id
unfolding add_delta
add_delta-floor none delta id h = omega arith
add_delta-floor (some previous) delta id h = ground arith

visit_delta-IsPartial :
    (doc_count k delta : ℕ) (s s' : Option ℕ × List ℕ)
    → IsPartial doc_count k s
    → visit_delta doc_count delta s ≡ ok s'
    → IsPartial doc_count (suc k) s'
unfolding visit_delta
visit_delta-IsPartial doc_count k delta s s' p h =
    let (id, hid, h') = >>=-eq-ok (context (add_delta s.0 delta) delta_overflows) _ h in
    let (hb, e) = ensure-eq-ok (ltb id doc_count) out_of_bounds _ h' in
    let new = add_delta-floor s.0 delta id (of_context (add_delta s.0 delta) id hid) in
    subst (IsPartial doc_count (suc k)) (ok-injective e) (record {
      counted = omega (arith, length-append s.1 (id ∷ []), p.counted);
      ascends = AscendsFrom-snoc 0 (floor s.0) id s.1 p.ascends p.passed new (omega arith);
      bounded = All-append _ s.1 (id ∷ []) p.bounded (ltb→lt id doc_count hb, tt);
      passed =
          All-append _ s.1 (id ∷ []) (All-map _ _ (λ x l. omega (arith, new)) s.1 p.passed)
            (omega arith, tt);
    })
  where
    of_context : (o : Option ℕ) (id : ℕ) → context o delta_overflows ≡ ok id → o ≡ some id
    of_context none id e = cc
    of_context (some x) id e = cc

decode_block-IsPartial :
    (doc_count k block : ℕ) (rest : List ℕ) (s : Option ℕ × List ℕ)
    (r : List ℕ × (Option ℕ × List ℕ))
    → IsPartial doc_count k s
    → decode_block doc_count block rest s ≡ ok r
    → IsPartial doc_count (block + k) r.1
unfolding decode_block
decode_block-IsPartial doc_count k block rest s r p h =
    let (header, _, h1) = >>=-eq-ok (context (next_byte rest) no_width_header) _ h in
    let (_, h2) = ensure-eq-ok (leb 1 header.0 && leb header.0 32) invalid_width _ h1 in
    let (body, _, h3) =
      >>=-eq-ok (context (next_bytes ((block * header.0 + 7) / 8) header.1) ends_inside_ids) _ h2 in
    let (s', hu, h4) =
      >>=-eq-ok (unpack_fixed truncated body.0 block header.0 (visit_delta doc_count) s) _ h3 in
    subst (λ (q : List ℕ × (Option ℕ × List ℕ)). IsPartial doc_count (block + k) q.1)
      (ok-injective h4)
      (unpack_fixed_inv (IsPartial doc_count) truncated header.0 (visit_delta doc_count)
        (λ j v t t'. visit_delta-IsPartial doc_count j v t t') body.0 block k s s' p hu)

decode_blocks-IsPartial :
    (fuel doc_count k remaining : ℕ) (rest : List ℕ) (s : Option ℕ × List ℕ) (ids : List ℕ)
    → IsPartial doc_count k s
    → decode_blocks fuel doc_count remaining rest s ≡ ok ids
    → (length ids ≡ remaining + k) × IsAscending ids × IsBelow doc_count ids
unfolding decode_blocks
decode_blocks-IsPartial fuel doc_count k zero [] s ids p h =
    let e = ok-injective h in
    (
      omega (arith, p.counted, ap length e),
      subst IsAscending e p.ascends,
      subst (IsBelow doc_count) e p.bounded,
    )
decode_blocks-IsPartial fuel doc_count k zero (b ∷ rest) s ids p h = absurd (ok-ne-err (sym h))
decode_blocks-IsPartial zero doc_count k (suc remaining) rest s ids p h = absurd (ok-ne-err (sym h))
decode_blocks-IsPartial (suc fuel) doc_count k (suc remaining) rest s ids p h =
    let block : ℕ = min (suc remaining) block_ids in
    let (r, hr, h') = >>=-eq-ok (decode_block doc_count block rest s) _ h in
    let (l, a, b) =
      decode_blocks-IsPartial fuel doc_count (block + k) (suc remaining - block) r.0 r.1 ids
        (decode_block-IsPartial doc_count k block rest s r p hr) h' in
    (omega (arith, l), a, b)

-- A list that the decoder returns, of whatever bytes, is ascending, below the document count, and as
-- long as the dictionary said.
pub decode_valid :
    (bytes : List ℕ) (count doc_count : ℕ) (ids : List ℕ)
    → decode_delta_blocks bytes count doc_count ≡ ok ids
    → (length ids ≡ count) × IsAscending ids × IsBelow doc_count ids
unfolding decode_delta_blocks
decode_valid bytes count doc_count ids h =
    let (_, h') = ensure-eq-ok (leb count doc_count) _ _ h in
    let (l, a, b) =
      decode_blocks-IsPartial count doc_count 0 count bytes (none, []) ids
        (record { counted = refl; ascends = tt; bounded = tt; passed = tt }) h' in
    (omega (arith, l), a, b)
