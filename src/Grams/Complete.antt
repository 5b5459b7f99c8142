-- ===== src/Grams/Complete.antt =====
-- Which ranges the iterator yields: a long one wherever the inner weights stay below both ends.
use holys.Common.{ℕ, zero, suc, ◌+◌, ◌-◌, ◌≤◌, ◌<◌, ◌≡◌, ap, sym, arith, Bool-cases, inl, inr}
use holys.Common.{List, Has, Has-append_left, Has-append_right, ltb, gt→leb, lt→ltb, ltb→lt}
use holys.Common.{subst}
use native.Mathlib.Decide.{dec_lt}
use holys.Grams.Ranges.{w, interior, longer, ranges}

module _ (rapidhash_v3 : List ℕ → ℕ) (byte : ℕ → ℕ) where
  abbrev weight : ℕ → ℕ
  weight = w rapidhash_v3 byte

  interior_bound :
      (a e m top last : ℕ)
      → m ≤ top
      → ((j : ℕ) → a < j → j < last → weight j ≤ top)
      → suc a ≤ e
      → e ≤ last
      → interior rapidhash_v3 byte a e m ≤ top
  unfolding interior
  interior_bound a e m top last hm below hae hel = elim (Bool-cases (ltb (a + 1) e)) [
    | inl t ↦ rw t (
        omega (
          arith,
          hm,
          below (e - 1) (omega (arith, ltb→lt (a + 1) e t)) (omega (arith, ltb→lt (a + 1) e t)),
        ))
    | inr f ↦ rw f hm
  ]

  longer-Has :
      (n a e m top last : ℕ)
      → m ≤ top
      → ((j : ℕ) → a < j → j < last → weight j ≤ top)
      → top < weight a
      → top < weight last
      → suc a ≤ e
      → e ≤ last
      → last < e + n
      → Has (a, last + 2) (longer rapidhash_v3 byte n a e m)
  unfolding longer
  longer-Has zero a e m top last hm below ha hl hae hel hn = absurd (omega arith)
  longer-Has (suc n) a e m top last hm below ha hl hae hel hn =
      let m1 : ℕ = interior rapidhash_v3 byte a e m in
      let hm1 = interior_bound a e m top last hm below hae hel in
      rw (gt→leb (weight a) m1 (omega (arith, hm1))) (elim (dec_lt e last) [
        | yes later ↦
            let ih =
              longer-Has n a (e + 1) m1 top last hm1 below ha hl (omega arith) (omega arith)
                (omega arith) in
            elim (Bool-cases (ltb m1 (weight e))) [ inl t ↦ rw t (inr ih) | inr f ↦ rw f ih ]
        | no here ↦
            let e≡last : last ≡ e = omega arith in
            rw (lt→ltb m1 (weight e) (omega (arith, hm1, ap weight e≡last)))
              (inl (ap (λ (t : ℕ). (a, t + 2)) e≡last))
      ])

  -- Every pair from a start in range is there.
  pub pair-Has : (n a k : ℕ) → k < n → Has (a + k, a + k + 2) (ranges rapidhash_v3 byte n a)
  unfolding ranges
  pair-Has zero a k h = absurd (omega arith)
  pair-Has (suc n) a zero h = inl (ap (λ (t : ℕ). (t, t + 2)) (omega arith))
  pair-Has (suc n) a (suc k) h = inr (
      Has-append_right _ _ _ (
        subst (λ (t : ℕ). Has (t, t + 2) (ranges rapidhash_v3 byte n (a + 1))) (omega arith)
          (pair-Has n (a + 1) k (omega arith))))

  -- And so is every longer range whose inner weights are below both its ends.
  pub long-Has :
      (n a k top last : ℕ)
      → k < n
      → a + k < last
      → last < a + n
      → ((j : ℕ) → a + k < j → j < last → weight j ≤ top)
      → top < weight (a + k)
      → top < weight last
      → Has (a + k, last + 2) (ranges rapidhash_v3 byte n a)
  unfolding ranges
  long-Has zero a k top last h hl hn below ha hw = absurd (omega arith)
  long-Has (suc n) a zero top last h hl hn below ha hw =
      let e : a + 0 ≡ a = omega arith in
      subst (λ (t : ℕ). Has (t, last + 2) (ranges rapidhash_v3 byte (suc n) a)) (sym e)
        (inr (
          Has-append_left _ _ _ (
            longer-Has n a (a + 1) 0 top last (omega arith) (λ j p q. below j (omega arith) q)
              (omega (arith, ap weight e)) hw (omega arith) (omega arith) (omega arith))))
  long-Has (suc n) a (suc k) top last h hl hn below ha hw =
      let e : a + 1 + k ≡ a + suc k = omega arith in
      inr (
        Has-append_right _ _ _ (
          subst (λ (t : ℕ). Has (t, last + 2) (ranges rapidhash_v3 byte n (a + 1))) e
            (long-Has n (a + 1) k top last (omega arith) (omega arith) (omega arith)
              (λ j p q. below j (omega arith) q) (omega (arith, ap weight e)) hw)))
