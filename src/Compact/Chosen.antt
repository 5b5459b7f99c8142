-- ===== src/Compact/Chosen.antt =====
-- What maybe_compact of crates/index/src/segment/compact.rs picks: two neighbours that pass its filter, with
-- the least key of all that do.
use holys.Common.{
  ℕ, zero, suc, ◌-◌, ◌<◌, ◌≤◌, ◌≡◌, refl, sym, ap, subst, ◌∙◌, ◌⊎◌, inl, inr, arith, leb, leb→le,
  leb→gt,
}
use holys.Common.{List, [], ◌∷◌, ◌++◌, length, Bool, true, false, Bool-cases, Option, none, some}
use holys.Common.{Result, ok, err, ◌>>=◌}
use holys.Compact.Victim.{
  Segment, SegmentMeta, no_dead, live_both, mergeable, min_of, victim_from, merge_at, maybe_compact,
  segment_count_target,
}

-- Every two neighbours that may be merged have as many live documents as `least`, or more.
abbrev pub IsLeast : ℕ → List Segment → Type 0
IsLeast least [] = Unit
IsLeast least (s ∷ []) = Unit
IsLeast least (s ∷ t ∷ segments) =
    (mergeable s t ≡ true → least ≤ live_both s t) × IsLeast least (t ∷ segments)

IsLeast-le : (m n : ℕ) (segments : List Segment) → m ≤ n → IsLeast n segments → IsLeast m segments
IsLeast-le m n [] h l = tt
IsLeast-le m n (s ∷ []) h l = tt
IsLeast-le m n (s ∷ t ∷ segments) h (here, l) =
    ((λ f. omega (arith, h, here f)), IsLeast-le m n (t ∷ segments) h l)

-- `segments` with two neighbours at `i` that may be merged and have `key` live documents.
abbrev pub Pair : ℕ → ℕ → List Segment → Type 0
Pair i key [] = ⊥
Pair i key (s ∷ []) = ⊥
Pair zero key (s ∷ t ∷ segments) = (mergeable s t ≡ true) × (key ≡ live_both s t)
Pair (suc i) key (s ∷ t ∷ segments) = Pair i key (t ∷ segments)

no_victim :
    (i : ℕ) (segments : List Segment)
    → victim_from i segments ≡ none
    → (least : ℕ) → IsLeast least segments
unfolding victim_from
no_victim i [] h least = tt
no_victim i (s ∷ []) h least = tt
no_victim i (s ∷ t ∷ segments) h least = elim (Bool-cases (mergeable s t)) [
  | inl y ↦ absurd (some_none (rw (y, victim_from) at h))
  | inr n ↦ (
    (λ y. absurd (false-true (sym n ∙ y))),
    no_victim (suc i) (t ∷ segments) (rw (n, victim_from) at h) least,
  )
]
  where
    some_none : {v : ℕ × ℕ} → ◌≡◌ {A = Option (ℕ × ℕ)} (some v) none → ⊥
    some_none p = cc

    false-true : false ≡ true → ⊥
    false-true p = cc

-- What a victim is: its neighbours may be merged, and have the least live documents of those that may.
abbrev Victim : ℕ → List Segment → ℕ → ℕ → Type 0
Victim i segments j key = (i ≤ j) × Pair (j - i) key segments × IsLeast key segments

-- The first two are the victim, or that of the rest is.
Victim-here :
    (i : ℕ) (s t : Segment) (segments : List Segment)
    → mergeable s t ≡ true
    → IsLeast (live_both s t) (t ∷ segments)
    → Victim i (s ∷ t ∷ segments) i (live_both s t)
Victim-here i s t segments y l = (
  omega arith,
  subst (λ (k : ℕ). Pair k (live_both s t) (s ∷ t ∷ segments)) none_between (y, refl),
  ((λ _. omega arith), l),
)
  where
    none_between : 0 ≡ i - i
    none_between = omega arith

Victim-there :
    (i : ℕ) (s t : Segment) (segments : List Segment) (j key : ℕ)
    → (mergeable s t ≡ true → key ≤ live_both s t)
    → Victim (suc i) (t ∷ segments) j key
    → Victim i (s ∷ t ∷ segments) j key
Victim-there i s t segments j key f (lo, pair, l) =
    (omega (arith, lo), subst (λ (k : ℕ). Pair k key (s ∷ t ∷ segments)) one_more pair, (f, l))
  where
    one_more : suc (j - suc i) ≡ j - i
    one_more = omega (arith, lo)

victim_from-Pair :
    (i : ℕ) (segments : List Segment) (j key : ℕ)
    → victim_from i segments ≡ some (j, key)
    → Victim i segments j key
unfolding victim_from
victim_from-Pair i [] j key h = absurd (none_some h)
  where
    none_some : ◌≡◌ {A = Option (ℕ × ℕ)} none (some (j, key)) → ⊥
    none_some p = cc
victim_from-Pair i (s ∷ []) j key h = absurd (none_some h)
  where
    none_some : ◌≡◌ {A = Option (ℕ × ℕ)} none (some (j, key)) → ⊥
    none_some p = cc
victim_from-Pair i (s ∷ t ∷ segments) j key h = elim (Bool-cases (mergeable s t)) [
  | inr n ↦
      Victim-there i s t segments j key (λ y. absurd (false-true (sym n ∙ y)))
        (victim_from-Pair (suc i) (t ∷ segments) j key (rw (n, victim_from) at h))
  | inl y ↦
      by_later y (victim_from (suc i) (t ∷ segments)) refl (rw (y, victim_from) at h)
        (victim_from-Pair (suc i) (t ∷ segments))
]
  where
    false-true : false ≡ true → ⊥
    false-true p = cc

    chosen : {a b : ℕ × ℕ} → ◌≡◌ {A = Option (ℕ × ℕ)} (some a) (some b) → a ≡ b
    chosen p = cc

    by_later :
        mergeable s t ≡ true
        → (o : Option (ℕ × ℕ)) → victim_from (suc i) (t ∷ segments) ≡ o
        → ◌≡◌ {A = Option (ℕ × ℕ)} (some (min_of (i, live_both s t) o)) (some (j, key))
        → ((j' key' : ℕ)
            → victim_from (suc i) (t ∷ segments) ≡ some (j', key')
            → Victim (suc i) (t ∷ segments) j' key')
        → Victim i (s ∷ t ∷ segments) j key
    by_later y none e p ih =
        subst (λ (v : ℕ × ℕ). Victim i (s ∷ t ∷ segments) v.0 v.1) (chosen p)
          (Victim-here i s t segments y (no_victim (suc i) (t ∷ segments) e (live_both s t)))
    by_later y (some (j', key')) e p ih = elim (Bool-cases (leb (live_both s t) key')) [
      | inl l ↦
          subst (λ (v : ℕ × ℕ). Victim i (s ∷ t ∷ segments) v.0 v.1) (chosen (rw l at p))
            (Victim-here i s t segments y (
              IsLeast-le (live_both s t) key' (t ∷ segments) (leb→le (live_both s t) key' l)
                (ih j' key' e).2))
      | inr g ↦
          subst (λ (v : ℕ × ℕ). Victim i (s ∷ t ∷ segments) v.0 v.1) (chosen (rw g at p))
            (Victim-there i s t segments j' key' (λ _. omega (arith, leb→gt (live_both s t) key' g))
              (ih j' key' e))
    ]

-- What follows two steps in turn follows the first.
pub bind_twice :
    {E A B C : Type 0} (r : Result E A) (f : A → B) (g : B → C)
    → ((r >>= λ x. ok (f x)) >>= λ y. ok (g y)) ≡ (r >>= λ x. ok (g (f x)))
bind_twice (ok x) f g = refl
bind_twice (err e) f g = refl

module _ {E : Type 0} (merge : Segment → Segment → Result E SegmentMeta) where
  -- The segments with `s` and `t` replaced by what they are merged to, or the error of the merge.
  abbrev pub spliced : List Segment → Segment → Segment → List Segment → Result E (List Segment)
  spliced before s t after =
      merge s t >>= λ meta. ok (before ++ (record { meta = meta; dead = no_dead } ∷ after))

  -- Two neighbours that `mergeable` lets pass, of the least key, are replaced.
  abbrev pub Picked : List Segment → Result E (Bool × List Segment) → Type 0
  Picked segments result =
      (before after : List Segment) × (s t : Segment) × (segments ≡ before ++ (s ∷ t ∷ after))
      × (result ≡ (spliced before s t after >>= λ merged. ok (true, merged)))
      × (mergeable s t ≡ true)
      × IsLeast (live_both s t) segments

  merge_at-Pair :
      (i key : ℕ) (segments : List Segment)
      → Pair i key segments
      → (before after : List Segment) × (s t : Segment) × (segments ≡ before ++ (s ∷ t ∷ after))
        × (merge_at merge i segments ≡ spliced before s t after)
        × (mergeable s t ≡ true)
        × (key ≡ live_both s t)
  unfolding merge_at
  merge_at-Pair i key [] p = absurd p
  merge_at-Pair i key (s ∷ []) p = absurd p
  merge_at-Pair zero key (s ∷ t ∷ segments) (y, k) = ([], segments, s, t, refl, refl, y, k)
  merge_at-Pair (suc i) key (s ∷ t ∷ segments) p =
      let (before, after, a, b, split, joined, y, k) = merge_at-Pair i key (t ∷ segments) p in
      (
        s ∷ before,
        after,
        a,
        b,
        ap (◌∷◌ s) split,
        ap (λ (r : Result E (List Segment)). r >>= λ rest. ok (s ∷ rest)) joined
            ∙ bind_twice (merge a b)
                (λ meta. before ++ (record { meta = meta; dead = no_dead } ∷ after)) (◌∷◌ s),
        y,
        k,
      )

  pub maybe_compact-Picked :
      (segments : List Segment)
      → ((maybe_compact merge segments ≡ ok (false, segments))
          × ((length segments ≤ segment_count_target) ⊎ ((least : ℕ) → IsLeast least segments)))
        ⊎ ((segment_count_target < length segments)
            × Picked segments (maybe_compact merge segments))
  unfolding maybe_compact
  maybe_compact-Picked segments = elim (Bool-cases (leb (length segments) segment_count_target)) [
    | inl few ↦
        inl (rw (few, maybe_compact) refl, inl (leb→le (length segments) segment_count_target few))
    | inr many ↦ by_victim many (victim_from 0 segments) refl
  ]
    where
      from_none : (j : ℕ) → j - 0 ≡ j
      from_none j = omega arith

      by_victim :
          leb (length segments) segment_count_target ≡ false
          → (o : Option (ℕ × ℕ)) → victim_from 0 segments ≡ o
          → ((maybe_compact merge segments ≡ ok (false, segments))
              × ((length segments ≤ segment_count_target) ⊎ ((least : ℕ) → IsLeast least segments)))
            ⊎ ((segment_count_target < length segments)
                × Picked segments (maybe_compact merge segments))
      by_victim many none e = inl (rw (many, e, maybe_compact) refl, inr (no_victim 0 segments e))
      by_victim many (some (j, key)) e =
          let (_, pair, least) = victim_from-Pair 0 segments j key e in
          let (before, after, s, t, split, joined, y, k) =
            merge_at-Pair j key segments
              (subst (λ (n : ℕ). Pair n key segments) (from_none j) pair) in
          inr (
            leb→gt (length segments) segment_count_target many,
            (
              before,
              after,
              s,
              t,
              split,
              rw (many, e, joined, maybe_compact) refl,
              y,
              subst (λ (n : ℕ). IsLeast n segments) k least,
            ),
          )
