-- ===== src/Pack/Planned.antt =====
-- A plan serves what was asked for, and keeps its bounds.
use holys.Common.{
  ℕ, ◌+◌, ◌-◌, ◌<◌, ◌≤◌, ◌^◌, min, ◌≡◌, refl, sym, subst, ◌⊎◌, inl, inr, arith, ltb, leb, ltb→lt,
  ltb→ge, leb→le, &&→and, ◌&&◌, ◌||◌,
}
use holys.Common.{List, [], ◌∷◌, length, Has, All, Bool, false, Bool-cases, Option, none, some}
use holys.Common.{Result, ok, context, >>=-eq-ok, ensure-eq-ok, ok-injective}
use holys.Common.Checked.{sub_ok}
use holys.Common.Word32.{checked_sub, saturating_mul}
use holys.Pack.Types.{Error, outside_document, span_zero, region_gap_bytes, region_max_ranges}
use holys.Pack.Plan.{PackRange, regional, full_lines, range_start, range_end, read_full_lines}
use holys.Pack.Plan.{PlannedRange, merge_planned_ranges}
use holys.Pack.Plan.{planned_range, planned_ranges, covered_bytes, plan_pack_ranges}
use holys.Pack.PlannedMerge.{
  Reads, Serves, Reads-trans, merge_planned_ranges-Served, IsSpaced, Ends,
  merge_planned_ranges-IsSpaced,
}

-- A planned range has the bytes of a range of the request: with those that a match may span on either
-- side, as far as the document goes, or in full lines with the context asked for.
abbrev pub Answers : ℕ → PackRange → PlannedRange → Type 0
Answers size (regional start end span) y =
    (y.start + (span - 1) ≤ start ⊎ y.start ≡ 0) × (min (end + (span - 1)) size ≤ y.end)
Answers size (full_lines start end before after) y =
    (y.start ≤ start) × (end ≤ y.end) × Reads y.read (read_full_lines before after)

Answers-Serves :
    (size : ℕ) (r : PackRange) (x y : PlannedRange)
    → Answers size r x
    → Serves y x
    → Answers size r y
Answers-Serves size (regional start end span) x y (s, e) (s', e', r) = (
  elim s [ inl l ↦ inl (omega (arith, l, s')) | inr z ↦ inr (omega (arith, z, s')) ],
  omega (arith, e, e'),
)
Answers-Serves size (full_lines start end before after) x y (s, e, r) (s', e', r') = (
  omega (arith, s, s'),
  omega (arith, e, e'),
  Reads-trans y.read x.read (read_full_lines before after) r' r,
)

planned_range-Answers :
    (size : ℕ) (r : PackRange) (x : PlannedRange)
    → size < 2 ^ 64
    → range_end r ≤ size
    → planned_range size r ≡ ok x
    → Answers size r x × (x.end ≤ size)
unfolding planned_range
planned_range-Answers size (regional start end span) x w e h =
    let (overlap, ho, h') = >>=-eq-ok (context (checked_sub span 1) span_zero) _ h in
    let (_, o, _) = sub_ok span_zero span 1 ho in
    subst (λ (t : PlannedRange). Answers size (regional start end span) t × (t.end ≤ size))
      (ok-injective h')
      (
        (
          elim (Bool-cases (ltb start overlap)) [
            | inl t ↦ inr (omega (arith, ltb→lt start overlap t))
            | inr f ↦ inl (omega (arith, o, ltb→ge start overlap f))
          ],
          omega (arith, o, w),
        ),
        omega arith,
      )
planned_range-Answers size (full_lines start end before after) x w e h =
    subst
      (λ (t : PlannedRange). Answers size (full_lines start end before after) t × (t.end ≤ size))
      (ok-injective h) ((omega arith, omega arith, (omega arith, omega arith)), e)

planned_ranges-Answers :
    (size : ℕ) (rs : List PackRange) (xs : List PlannedRange)
    → size < 2 ^ 64
    → planned_ranges size rs ≡ ok xs
    → All (Ends size) xs
      × ((r : PackRange) → Has r rs → (x : PlannedRange) × Has x xs × Answers size r x)
unfolding planned_ranges
planned_ranges-Answers size [] xs w h =
    (subst (All (Ends size)) (ok-injective h) tt, λ r m. elim m [ ])
planned_ranges-Answers size (r ∷ rs) xs w h =
    let (t, h1) =
      ensure-eq-ok (ltb (range_start r) (range_end r) && leb (range_end r) size) outside_document _
        h in
    let (x, hx, h2) = >>=-eq-ok (planned_range size r) _ h1 in
    let (ys, hs, e) = >>=-eq-ok (planned_ranges size rs) _ h2 in
    let (answers, ends) =
      planned_range-Answers size r x w
        (leb→le (range_end r) size
          (&&→and (ltb (range_start r) (range_end r)) (leb (range_end r) size) t).1)
        hx in
    let (all, each) = planned_ranges-Answers size rs ys w hs in
    (
      subst (All (Ends size)) (ok-injective e) (ends, all),
      λ q m.
          subst (λ (zs : List PlannedRange). (z : PlannedRange) × Has z zs × Answers size q z)
            (ok-injective e) (of_both x ys answers each q m),
    )
  where
    of_both :
        (x : PlannedRange) (ys : List PlannedRange)
        → Answers size r x
        → ((q : PackRange) → Has q rs → (z : PlannedRange) × Has z ys × Answers size q z)
        → (q : PackRange) → Has q (r ∷ rs)
        → (z : PlannedRange) × Has z (x ∷ ys) × Answers size q z
    of_both x ys a each q (inl e) =
        (x, inl refl, subst (λ (p : PackRange). Answers size p x) (sym e) a)
    of_both x ys a each q (inr m) = let (z, at, b) = each q m in (z, inr at, b)

-- A plan that reads parts of a document answers every range of the request by one of its own. These have
-- more than 1 MiB between them, end in the document, and are 512 at most.
pub plan_pack_ranges-Answers :
    (size : ℕ) (request : List PackRange) (plan : List PlannedRange)
    → size < 2 ^ 64
    → plan_pack_ranges size request ≡ ok (some plan)
    → ((r : PackRange) → Has r request → (y : PlannedRange) × Has y plan × Answers size r y)
      × IsSpaced region_gap_bytes size 0 plan
      × (length plan ≤ region_max_ranges)
unfolding plan_pack_ranges
plan_pack_ranges-Answers size request plan w h =
    let (xs, hs, h1) = >>=-eq-ok (planned_ranges size request) _ h in
    let merged = merge_planned_ranges xs region_gap_bytes in
    let (covered, _, h2) = >>=-eq-ok (covered_bytes 0 merged) _ h1 in
    let (ends, each) = planned_ranges-Answers size request xs w hs in
    elim (Bool-cases
      (ltb region_max_ranges (length merged) || ltb size (saturating_mul covered 2))) [
        | inl t ↦ absurd (none_some (rw t at h2))
        | inr f ↦ subst Planned (some_injective (rw f at h2)) (
          (λ r m. answered xs r (each r m)),
          merge_planned_ranges-IsSpaced xs region_gap_bytes size ends,
          ltb→ge region_max_ranges (length merged) (
              ||-false (ltb region_max_ranges (length merged)) (ltb size (saturating_mul covered 2))
                f),
        )
      ]
  where
    Planned : List PlannedRange → Type 0
    Planned plan =
        ((r : PackRange) → Has r request → (y : PlannedRange) × Has y plan × Answers size r y)
        × IsSpaced region_gap_bytes size 0 plan
        × (length plan ≤ region_max_ranges)

    none_some : ◌≡◌ {A = Result Error (Option (List PlannedRange))} (ok none) (ok (some plan)) → ⊥
    none_some p = cc

    some_injective :
        {xs : List PlannedRange}
        → ◌≡◌ {A = Result Error (Option (List PlannedRange))} (ok (some xs)) (ok (some plan))
        → xs ≡ plan
    some_injective p = cc

    ||-false : (a b : Bool) → (a || b) ≡ false → a ≡ false
    ||-false a b p = ground arith

    answered :
        (xs : List PlannedRange) (r : PackRange)
        → ((x : PlannedRange) × Has x xs × Answers size r x)
        → (y : PlannedRange) × Has y (merge_planned_ranges xs region_gap_bytes) × Answers size r y
    answered xs r (x, m, a) =
        let (y, at, s) = merge_planned_ranges-Served xs region_gap_bytes x m in
        (y, at, Answers-Serves size r x y a s)
