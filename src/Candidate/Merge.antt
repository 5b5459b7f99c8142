-- ===== src/Candidate/Merge.antt =====
-- Merging candidate ranges keeps exactly the blocks that the two lists cover, in ranges that neither
-- overlap nor go back.
use holys.Common.{ℕ, ◌<◌, ◌≤◌, ◌≡◌, refl, subst, arith, true, false, ◌||◌, ◌⊎◌}
use holys.Common.{
  List, [], ◌∷◌, ◌++◌, Has, Has-append, Has-append_left, Has-append_right, Bool-cases, inl, inr,
}
use holys.Common.{◌↔◌}
use holys.Common.Sorting.{sort_by, insert_by, sort_by-Has, Has-sort_by}
use native.Mathlib.Decide.{dec_lt}
use holys.Candidate.{
  CandidateRange, range_le, overlaps, joins, join, merge_after, merge_sorted,
  merge_candidate_ranges,
}

-- The block `b` is in the range.
abbrev pub Inside : ℕ → CandidateRange → Type 0
Inside b r = (r.start ≤ b) × (b < r.end)

abbrev pub Covers : ℕ → List CandidateRange → Type 0
Covers b rs = (r : CandidateRange) × Has r rs × Inside b r

-- Every range starts at `lo` or behind it, and no later one starts before it.
abbrev pub StartsRise : ℕ → List CandidateRange → Type 0
StartsRise lo [] = Unit
StartsRise lo (r ∷ rs) = (lo ≤ r.start) × StartsRise r.start rs

-- Every range starts at the end of those before it, or behind.
abbrev pub IsApart : ℕ → List CandidateRange → Type 0
IsApart lo [] = Unit
IsApart lo (r ∷ rs) = (lo ≤ r.start) × IsApart r.end rs

range_le→le : (a b : CandidateRange) → range_le a b ≡ true → a.start ≤ b.start
unfolding range_le
range_le→le a b h = ground arith

range_le→ge : (a b : CandidateRange) → range_le a b ≡ false → b.start ≤ a.start
unfolding range_le
range_le→ge a b h = ground arith

insert_by-StartsRise :
    (lo : ℕ) (x : CandidateRange) (ys : List CandidateRange)
    → lo ≤ x.start
    → StartsRise lo ys
    → StartsRise lo (insert_by range_le x ys)
unfolding insert_by
insert_by-StartsRise lo x [] h r = (h, tt)
insert_by-StartsRise lo x (y ∷ ys) h (hy, r) = elim (Bool-cases (range_le x y)) [
  | inl t ↦ rw (t, insert_by) (h, (range_le→le x y t, r))
  | inr f ↦ rw (f, insert_by) (hy, insert_by-StartsRise y.start x ys (range_le→ge x y f) r)
]

sort_by-StartsRise : (xs : List CandidateRange) → StartsRise 0 (sort_by range_le xs)
unfolding sort_by
sort_by-StartsRise [] = tt
sort_by-StartsRise (x ∷ xs) =
    insert_by-StartsRise 0 x (sort_by range_le xs) (omega arith) (sort_by-StartsRise xs)

-- Two ranges that are joined cover what each of them covers.
joined_Inside :
    (b : ℕ) (p r : CandidateRange)
    → p.start ≤ r.start
    → r.start ≤ p.end
    → Inside b (join p r) ↔ (Inside b p ⊎ Inside b r)
unfolding join
joined_Inside b p r s e = (into, back)
  where
    into : Inside b (join p r) → Inside b p ⊎ Inside b r
    into (lo, hi) = elim (dec_lt b p.end) [
      | yes below ↦ inl (lo, below)
      | no beyond ↦ inr (omega (arith, beyond), omega (arith, hi, beyond))
    ]

    back : Inside b p ⊎ Inside b r → Inside b (join p r)
    back (inl (lo, hi)) = (lo, omega (arith, hi))
    back (inr (lo, hi)) = (omega (arith, lo, s), omega (arith, hi))

touches : (p r : CandidateRange) → (overlaps p r || joins p r) ≡ true → r.start ≤ p.end
unfolding joins
touches p r h = ground arith

apart_from : (p r : CandidateRange) → (overlaps p r || joins p r) ≡ false → p.end ≤ r.start
apart_from p r h = ground arith

-- Behind the range `p`: the blocks, and the order.
merge_after-Covers :
    (b : ℕ) (p : CandidateRange) (rs : List CandidateRange)
    → StartsRise p.start rs
    → Covers b (merge_after p rs) ↔ Covers b (p ∷ rs)
unfolding merge_after
merge_after-Covers b p [] h = (λ c. c, λ c. c)
merge_after-Covers b p (r ∷ rs) (h, rise) = elim (Bool-cases (overlaps p r || joins p r)) [
  | inl t ↦
      let (into, back) = merge_after-Covers b (join p r) rs (lower rs rise) in
      let (apart, joint) = joined_Inside b p r h (touches p r t) in
      rw (t, merge_after) ((λ c. split apart (into c)), λ c. back (gather joint c))
  | inr f ↦
      let (into, back) = merge_after-Covers b r rs rise in
      rw (f, merge_after)
        (
          (λ c. onto (merge_after r rs) (r ∷ rs) into c),
          λ c. onto (r ∷ rs) (merge_after r rs) back c,
        )
]
  where
    join_start : (join p r).start ≡ p.start
    join_start = unfold join in refl

    lower : (ts : List CandidateRange) → StartsRise r.start ts → StartsRise (join p r).start ts
    lower [] k = tt
    lower (t ∷ ts) (k, ks) = (omega (arith, h, k, join_start), ks)

    split :
        (Inside b (join p r) → Inside b p ⊎ Inside b r)
        → Covers b (join p r ∷ rs)
        → Covers b (p ∷ r ∷ rs)
    split apart (x, inl e, i) = elim (apart (subst (Inside b) e i)) [
      | inl j ↦ (p, inl refl, j)
      | inr j ↦ (r, inr (inl refl), j)
    ]
    split apart (x, inr m, i) = (x, inr (inr m), i)

    gather :
        (Inside b p ⊎ Inside b r → Inside b (join p r))
        → Covers b (p ∷ r ∷ rs)
        → Covers b (join p r ∷ rs)
    gather joint (x, inl e, i) = (join p r, inl refl, joint (inl (subst (Inside b) e i)))
    gather joint (x, inr (inl e), i) = (join p r, inl refl, joint (inr (subst (Inside b) e i)))
    gather joint (x, inr (inr m), i) = (x, inr m, i)

    onto :
        (xs ys : List CandidateRange)
        → (Covers b xs → Covers b ys)
        → Covers b (p ∷ xs)
        → Covers b (p ∷ ys)
    onto xs ys k (x, inl e, i) = (x, inl e, i)
    onto xs ys k (x, inr m, i) = let (y, m', i') = k (x, m, i) in (y, inr m', i')

merge_after-IsApart :
    (lo : ℕ) (p : CandidateRange) (rs : List CandidateRange)
    → lo ≤ p.start
    → StartsRise p.start rs
    → IsApart lo (merge_after p rs)
unfolding merge_after
merge_after-IsApart lo p [] h rise = (h, tt)
merge_after-IsApart lo p (r ∷ rs) h (k, rise) = elim (Bool-cases (overlaps p r || joins p r)) [
  | inl t ↦
      rw (t, merge_after)
        (merge_after-IsApart lo (join p r) rs (omega (arith, h, join_start)) (lower rs rise))
  | inr f ↦ rw (f, merge_after) (h, merge_after-IsApart p.end r rs (apart_from p r f) rise)
]
  where
    join_start : (join p r).start ≡ p.start
    join_start = unfold join in refl

    lower : (ts : List CandidateRange) → StartsRise r.start ts → StartsRise (join p r).start ts
    lower [] j = tt
    lower (t ∷ ts) (j, js) = (omega (arith, k, j, join_start), js)

merge_sorted-Covers :
    (b : ℕ) (rs : List CandidateRange) → StartsRise 0 rs → Covers b (merge_sorted rs) ↔ Covers b rs
unfolding merge_sorted
merge_sorted-Covers b [] h = (λ c. c, λ c. c)
merge_sorted-Covers b (r ∷ rs) (h, rise) = merge_after-Covers b r rs rise

-- Merging keeps exactly the blocks that are in one of the two lists.
pub merge-Covers :
    (b : ℕ) (current incoming : List CandidateRange)
    → Covers b (merge_candidate_ranges current incoming) ↔ (Covers b current ⊎ Covers b incoming)
unfolding merge_candidate_ranges
merge-Covers b current incoming =
    let sorted = sort_by range_le (current ++ incoming) in
    let (into, back) = merge_sorted-Covers b sorted (sort_by-StartsRise (current ++ incoming)) in
    (λ c. unsort (into c), λ c. back (sort c))
  where
    unsort :
        Covers b (sort_by range_le (current ++ incoming)) → Covers b current ⊎ Covers b incoming
    unsort (x, m, i) =
        elim (Has-append current incoming x (Has-sort_by range_le x (current ++ incoming) m)) [
          | inl l ↦ inl (x, l, i)
          | inr r ↦ inr (x, r, i)
        ]

    sort : Covers b current ⊎ Covers b incoming → Covers b (sort_by range_le (current ++ incoming))
    sort (inl (x, m, i)) = (x, sort_by-Has range_le x _ (Has-append_left current incoming x m), i)
    sort (inr (x, m, i)) = (x, sort_by-Has range_le x _ (Has-append_right current incoming x m), i)

-- The merged ranges are in order and do not overlap.
pub merge-IsApart :
    (current incoming : List CandidateRange) → IsApart 0 (merge_candidate_ranges current incoming)
unfolding merge_candidate_ranges merge_sorted
merge-IsApart current incoming =
    in_order (sort_by range_le (current ++ incoming)) (sort_by-StartsRise (current ++ incoming))
  where
    in_order : (rs : List CandidateRange) → StartsRise 0 rs → IsApart 0 (merge_sorted rs)
    in_order [] h = tt
    in_order (r ∷ rs) (h, rise) = merge_after-IsApart 0 r rs h rise
