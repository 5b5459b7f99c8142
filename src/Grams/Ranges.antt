-- ===== src/Grams/Ranges.antt =====
-- The range iterator run to its end, as a plain recursion: from every start the pair, then each
-- longer range whose inner weights stay below both its ends.
use holys.Common.{
  ℕ, zero, suc, ◌+◌, ◌-◌, ◌*◌, ◌≤◌, ◌<◌, ◌≡◌, refl, ap, ◌∙◌, sym, arith, max, Bool, true, false,
}
use holys.Common.{List, [], ◌∷◌, ◌++◌, length, length-append, Option, none, some, if◌then◌else◌}
use holys.Common.{ltb, leb, Bool-cases, ◌⊎◌, inl, inr, le→leb, gt→leb}
use holys.Grams.{
  SparseGramRanges, Range, start_sparse_gram_ranges, weight_at, raise_interior, scan_pairs,
}
use holys.Grams.{next_loop, next_after, next_with, collect_ranges, iterate_sparse_gram_ranges}

abbrev state : ℕ → ℕ → ℕ → ℕ → ℕ → Bool → SparseGramRanges
state pc a e m wa b = record {
  pair_count = pc;
  start = a;
  end = e;
  interior_max = m;
  start_weight = wa;
  emit_pair = b;
}

module _ (rapidhash_v3 : List ℕ → ℕ) (byte : ℕ → ℕ) where
  abbrev pub w : ℕ → ℕ
  w = weight_at rapidhash_v3 byte

  -- The interior maximum when the loop looks at pair `e`.
  unfoldable pub interior : ℕ → ℕ → ℕ → ℕ
  interior a e m = if ltb (a + 1) e then max m (w (e - 1)) else m

  -- The longer ranges from start `a`, `n` pairs being left from pair `e` on.
  unfoldable pub longer : ℕ → ℕ → ℕ → ℕ → List Range
  longer zero a e m = []
  longer (suc n) a e m =
      let m1 = interior a e m in
      let rest = longer n a (e + 1) m1 in
      if leb (w a) m1 then [] else if ltb m1 (w e) then (a, e + 2) ∷ rest else rest

  -- All ranges from start `a` on, `n` starts being left.
  unfoldable pub ranges : ℕ → ℕ → List Range
  ranges zero a = []
  ranges (suc n) a = (a, a + 2) ∷ (longer n a (a + 1) 0 ++ ranges n (a + 1))

  raise_lem :
      (pc a e m : ℕ)
      → raise_interior rapidhash_v3 byte (state pc a e m (w a) false)
        ≡ state pc a e (interior a e m) (w a) false
  unfolding raise_interior interior
  raise_lem pc a e m = elim (Bool-cases (ltb (a + 1) e)) [ inl t ↦ rw t | inr f ↦ rw f ]

  -- What the inner loop gives back: the next longer range, or none when there is none.
  abbrev Scanned : ℕ → ℕ → ℕ → ℕ → ℕ → SparseGramRanges × Option Range → Type 0
  Scanned pc n a e m r =
      ((n' : ℕ) × (e' : ℕ) × (m' : ℕ) × (x : Range) × (e' + n' ≡ pc)
        × (r ≡ (state pc a e' m' (w a) false, some x))
        × (longer n a e m ≡ x ∷ longer n' a e' m'))
      ⊎ ((e' : ℕ) × (m' : ℕ) × (r ≡ (state pc a e' m' (w a) false, none)) × (longer n a e m ≡ []))

  scan_pairs_lem :
      (pc n a e m : ℕ)
      → e + n ≡ pc
      → Scanned pc n a e m (scan_pairs rapidhash_v3 byte n (state pc a e m (w a) false))
  unfolding scan_pairs longer
  scan_pairs_lem pc zero a e m h = inr (e, m, refl, refl)
  scan_pairs_lem pc (suc n) a e m h =
      let m1 : ℕ = interior a e m in
      rw (raise_lem pc a e m) (elim (Bool-cases (leb (w a) m1)) [
        | inl stop ↦ rw stop (inr (e, m1, refl, refl))
        | inr go ↦ elim (Bool-cases (ltb m1 (w e))) [
          | inl hit ↦ rw (go, hit) (inl (n, e + 1, m1, (a, e + 2), omega arith, refl, refl))
          | inr miss ↦ rw (go, miss) (scan_pairs_lem pc n a (e + 1) m1 (omega arith))
        ]
      ])

  -- A step from a start that is still to be emitted.
  next_emit :
      (rounds pc a e m wa : ℕ)
      → a < pc
      → next_loop rapidhash_v3 byte (suc rounds) (state pc a e m wa true)
        ≡ (state pc a (a + 1) 0 (w a) false, some (a, a + 2))
  unfolding next_loop
  next_emit rounds pc a e m wa h = rw (gt→leb pc a h)

  next_end :
      (rounds pc a e m wa : ℕ)
      → pc ≤ a
      → next_loop rapidhash_v3 byte (suc rounds) (state pc a e m wa true)
        ≡ (state pc a e m wa true, none)
  unfolding next_loop
  next_end rounds pc a e m wa h = rw (le→leb pc a h)

  next_scan_found :
      (rounds pc n a e m : ℕ) (s' : SparseGramRanges) (x : Range)
      → a < pc
      → e + n ≡ pc
      → scan_pairs rapidhash_v3 byte n (state pc a e m (w a) false) ≡ (s', some x)
      → next_loop rapidhash_v3 byte (suc rounds) (state pc a e m (w a) false) ≡ (s', some x)
  unfolding next_loop next_after
  next_scan_found rounds pc n a e m s' x h hn r =
      let left : pc - e ≡ n = omega arith in
      rw (gt→leb pc a h) (
        ap (next_after rapidhash_v3 byte (λ t. next_loop rapidhash_v3 byte rounds t))
          (ap (λ (k : ℕ). scan_pairs rapidhash_v3 byte k (state pc a e m (w a) false)) left ∙ r))

  next_scan_done :
      (rounds pc n a e m : ℕ) (s' : SparseGramRanges)
      → a < pc
      → e + n ≡ pc
      → scan_pairs rapidhash_v3 byte n (state pc a e m (w a) false) ≡ (s', none)
      → next_loop rapidhash_v3 byte (suc rounds) (state pc a e m (w a) false)
        ≡ next_loop rapidhash_v3 byte rounds (record s' { start = s'.start + 1; emit_pair = true })
  unfolding next_loop next_after
  next_scan_done rounds pc n a e m s' h hn r =
      let left : pc - e ≡ n = omega arith in
      rw (gt→leb pc a h) (
        ap (next_after rapidhash_v3 byte (λ t. next_loop rapidhash_v3 byte rounds t))
          (ap (λ (k : ℕ). scan_pairs rapidhash_v3 byte k (state pc a e m (w a) false)) left ∙ r))

  collect_some :
      (fuel : ℕ) (s s' : SparseGramRanges) (x : Range)
      → next_loop rapidhash_v3 byte 2 s ≡ (s', some x)
      → collect_ranges rapidhash_v3 byte (suc fuel) s ≡ x ∷ collect_ranges rapidhash_v3 byte fuel s'
  unfolding collect_ranges next_with
  collect_some fuel s s' x e =
      ap {B = List Range}
        (λ (p : SparseGramRanges × Option Range). elim (p.1) [
          | none ↦ []
          | some r ↦ r ∷ collect_ranges rapidhash_v3 byte fuel (p.0)
        ])
        e

  collect_none :
      (fuel : ℕ) (s s' : SparseGramRanges)
      → next_loop rapidhash_v3 byte 2 s ≡ (s', none)
      → collect_ranges rapidhash_v3 byte (suc fuel) s ≡ []
  unfolding collect_ranges next_with
  collect_none fuel s s' e = rw (e, collect_ranges)

  -- The ranges that are left inside start `a` and at the `k` starts after it.
  abbrev left_over : ℕ → ℕ → ℕ → ℕ → ℕ → List Range
  left_over n k a e m = longer n a e m ++ ranges k (a + 1)

  -- The iterator from inside a start, with fuel for every range that is left.
  collect_lem :
      (fuel pc n k a e m : ℕ)
      → a + suc k ≡ pc
      → e + n ≡ pc
      → length (left_over n k a e m) < fuel
      → collect_ranges rapidhash_v3 byte fuel (state pc a e m (w a) false) ≡ left_over n k a e m
  collect_lem zero pc n k a e m ha he hf = absurd (omega arith)
  collect_lem (suc fuel) pc n zero a e m ha he hf = elim (scan_pairs_lem pc n a e m he) [
    | inl (n', e', m', x, he', r, l) ↦
        let l' = ap (λ (t : List Range). t ++ ranges zero (a + 1)) l in
        collect_some fuel _ _ x (next_scan_found 1 pc n a e m _ x (omega arith) he r)
        ∙ ap (◌∷◌ x) (collect_lem fuel pc n' zero a e' m' ha he' (omega (arith, ap length l')))
        ∙ sym l'
    | inr (e', m', r, l) ↦
        collect_none fuel _ _ (
          next_scan_done 1 pc n a e m _ (omega arith) he r
          ∙ next_end 0 pc (a + 1) e' m' (w a) (omega arith))
        ∙ sym (ap (λ (t : List Range). t ++ ranges zero (a + 1)) l ∙ unfold ranges in refl)
  ]
  collect_lem (suc fuel) pc n (suc k) a e m ha he hf = elim (scan_pairs_lem pc n a e m he) [
    | inl (n', e', m', x, he', r, l) ↦
        let l' = ap (λ (t : List Range). t ++ ranges (suc k) (a + 1)) l in
        collect_some fuel _ _ x (next_scan_found 1 pc n a e m _ x (omega arith) he r)
        ∙ ap (◌∷◌ x) (collect_lem fuel pc n' (suc k) a e' m' ha he' (omega (arith, ap length l')))
        ∙ sym l'
    | inr (e', m', r, l) ↦
        let l' : left_over n (suc k) a e m
            ≡ (a + 1, a + 1 + 2) ∷ left_over k k (a + 1) (a + 1 + 1) 0 =
          ap (λ (t : List Range). t ++ ranges (suc k) (a + 1)) l ∙ unfold ranges in refl in
        collect_some fuel _ _ (a + 1, a + 1 + 2)
          (next_scan_done 1 pc n a e m _ (omega arith) he r
            ∙ next_emit 0 pc (a + 1) e' m' (w a) (omega arith))
        ∙ ap (◌∷◌ (a + 1, a + 1 + 2)) (
            collect_lem fuel pc k k (a + 1) (a + 1 + 1) 0 (omega arith) (omega arith)
              (omega (arith, ap length l')))
        ∙ sym l'
  ]

  length-longer : (n a e m : ℕ) → length (longer n a e m) ≤ n
  unfolding longer
  length-longer zero a e m = omega arith
  length-longer (suc n) a e m = ground (arith, length-longer n a (e + 1) (interior a e m))

  length-ranges : (n a : ℕ) → length (ranges n a) ≤ n * n
  unfolding ranges
  length-ranges zero a = omega arith
  length-ranges (suc n) a = omega (
    arith,
    length-append (longer n a (a + 1) 0) (ranges n (a + 1)),
    length-longer n a (a + 1) 0,
    length-ranges n (a + 1),
  )

  collect_start :
      (pc fuel : ℕ)
      → length (ranges pc 0) < fuel
      → collect_ranges rapidhash_v3 byte fuel (state pc 0 0 0 0 true) ≡ ranges pc 0
  unfolding ranges
  collect_start zero zero h = absurd (omega arith)
  collect_start (suc pc) zero h = absurd (omega arith)
  collect_start zero (suc fuel) h = collect_none fuel _ _ (next_end 1 0 0 0 0 0 (omega arith))
  collect_start (suc pc) (suc fuel) h =
      collect_some fuel _ _ (0, 2) (next_emit 1 (suc pc) 0 0 0 0 (omega arith))
      ∙ ap (◌∷◌ (0, 2))
          (collect_lem fuel (suc pc) pc pc 0 1 0 (omega arith) (omega arith) (omega arith))

  -- The iterator, run to its end, yields every range once and in order.
  pub iterate_ranges :
      (len : ℕ) → iterate_sparse_gram_ranges rapidhash_v3 len byte ≡ ranges (len - 1) 0
  iterate_ranges len =
      unfold iterate_sparse_gram_ranges start_sparse_gram_ranges in
      collect_start (len - 1) (len * len + 1)
        (omega (arith, length-ranges (len - 1) 0, squares len))
    where
      squares : (n : ℕ) → (n - 1) * (n - 1) ≤ n * n
      squares zero = omega arith
      squares (suc n) = grind arith
