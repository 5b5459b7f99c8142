-- ===== src/Pack/PlannedMerge.antt =====
-- Merged ranges serve those that they came from, and keep apart.
use holys.Common.{
  ℕ, suc, ◌+◌, ◌-◌, ◌≤◌, ◌≡◌, refl, sym, subst, inl, inr, arith, leb, leb→le, leb→gt,
}
use holys.Common.{List, [], ◌∷◌, Has, All, All-Has, All-of_Has, Bool-cases}
use holys.Common.Sorting.{sort_by, insert_by, sort_by-Has, Has-sort_by}
use holys.Pack.Plan.{PlannedRead, read_regional, read_full_lines}
use holys.Pack.Plan.{
  PlannedRange, starts_le, joined_read, joined_range, merge_next, merge_in_order,
  merge_planned_ranges,
}

-- A read gives what another asks for: full lines with as much context at least.
abbrev pub Reads : PlannedRead → PlannedRead → Type 0
Reads r read_regional = Unit
Reads read_regional (read_full_lines before after) = ⊥
Reads (read_full_lines b a) (read_full_lines before after) = (before ≤ b) × (after ≤ a)

abbrev pub Serves : PlannedRange → PlannedRange → Type 0
Serves y x = (y.start ≤ x.start) × (x.end ≤ y.end) × Reads y.read x.read

Reads-refl : (r : PlannedRead) → Reads r r
Reads-refl read_regional = tt
Reads-refl (read_full_lines b a) = (omega arith, omega arith)

pub Reads-trans : (r s t : PlannedRead) → Reads r s → Reads s t → Reads r t
Reads-trans r s read_regional p q = tt
Reads-trans r read_regional (read_full_lines b a) p q = absurd q
Reads-trans read_regional (read_full_lines b' a') (read_full_lines b a) p q = absurd p
Reads-trans (read_full_lines b'' a'') (read_full_lines b' a') (read_full_lines b a) (p, p')
      (q, q') =
    (omega (arith, p, q), omega (arith, p', q'))

joined_read-left : (r s : PlannedRead) → Reads (joined_read r s) r
unfolding joined_read
joined_read-left read_regional s = tt
joined_read-left (read_full_lines b a) read_regional = (omega arith, omega arith)
joined_read-left (read_full_lines b a) (read_full_lines b' a') = (omega arith, omega arith)

joined_read-right : (r s : PlannedRead) → Reads (joined_read r s) s
unfolding joined_read
joined_read-right r read_regional = tt
joined_read-right read_regional (read_full_lines b a) = (omega arith, omega arith)
joined_read-right (read_full_lines b a) (read_full_lines b' a') = (omega arith, omega arith)

Serves-trans : (x y z : PlannedRange) → Serves x y → Serves y z → Serves x z
Serves-trans x y z (s, e, r) (s', e', r') =
    (omega (arith, s, s'), omega (arith, e, e'), Reads-trans x.read y.read z.read r r')

-- From `lo` on the ranges start in order.
abbrev Rise : ℕ → List PlannedRange → Type 0
Rise lo [] = Unit
Rise lo (r ∷ rs) = (lo ≤ r.start) × Rise r.start rs

insert_by-Rise :
    (lo : ℕ) (x : PlannedRange) (ys : List PlannedRange)
    → lo ≤ x.start
    → Rise lo ys
    → Rise lo (insert_by starts_le x ys)
unfolding insert_by
insert_by-Rise lo x [] h r = (h, tt)
insert_by-Rise lo x (y ∷ ys) h (hy, r) = elim (Bool-cases (leb x.start y.start)) [
  | inl t ↦ rw (t, insert_by) (h, (leb→le x.start y.start t, r))
  | inr f ↦
      rw (f, insert_by)
        (hy, insert_by-Rise y.start x ys (omega (arith, leb→gt x.start y.start f)) r)
]

sort_by-Rise : (xs : List PlannedRange) → Rise 0 (sort_by starts_le xs)
unfolding sort_by
sort_by-Rise [] = tt
sort_by-Rise (x ∷ xs) = insert_by-Rise 0 x (sort_by starts_le xs) (omega arith) (sort_by-Rise xs)

-- One of the ranges serves it.
abbrev pub Served : List PlannedRange → PlannedRange → Type 0
Served ys x = (y : PlannedRange) × Has y ys × Serves y x

joined_range-left : (p r : PlannedRange) → Serves (joined_range p r) p
unfolding joined_range
joined_range-left p r = (omega arith, omega arith, joined_read-left p.read r.read)

joined_range-right : (p r : PlannedRange) → p.start ≤ r.start → Serves (joined_range p r) r
unfolding joined_range
joined_range-right p r h = (h, omega arith, joined_read-right p.read r.read)

Served-Serves :
    (ys : List PlannedRange) (x y : PlannedRange) → Served ys y → Serves y x → Served ys x
Served-Serves ys x y (z, m, s) t = (z, m, Serves-trans z y x s t)

merge_next-Served :
    (gap_bytes : ℕ) (p : PlannedRange) (rs : List PlannedRange)
    → Rise p.start rs
    → (x : PlannedRange) → Has x (p ∷ rs)
    → Served (merge_next gap_bytes p rs) x
unfolding merge_next
merge_next-Served gap_bytes p [] h x (inl e) =
    (p, inl refl, subst (Serves p) (sym e) (omega arith, omega arith, Reads-refl p.read))
merge_next-Served gap_bytes p [] h x (inr m) = elim m [ ]
merge_next-Served gap_bytes p (r ∷ rs) (h, rise) x m =
    elim (Bool-cases (leb (r.start - p.end) gap_bytes)) [
      | inl t ↦
          rw (t, merge_next)
            (through (merge_next-Served gap_bytes (joined_range p r) rs (lower rs rise)) m)
      | inr f ↦ rw (f, merge_next) (past (merge_next-Served gap_bytes r rs rise x) m)
    ]
  where
    joined_start : (joined_range p r).start ≡ p.start
    joined_start = unfold joined_range in refl

    lower : (ts : List PlannedRange) → Rise r.start ts → Rise (joined_range p r).start ts
    lower [] k = tt
    lower (t ∷ ts) (k, ks) = (omega (arith, h, k, joined_start), ks)

    through :
        ((z : PlannedRange)
          → Has z (joined_range p r ∷ rs)
          → Served (merge_next gap_bytes (joined_range p r) rs) z)
        → Has x (p ∷ r ∷ rs)
        → Served (merge_next gap_bytes (joined_range p r) rs) x
    through ih (inl e) =
        Served-Serves _ x (joined_range p r) (ih (joined_range p r) (inl refl))
          (subst (Serves (joined_range p r)) (sym e) (joined_range-left p r))
    through ih (inr (inl e)) =
        Served-Serves _ x (joined_range p r) (ih (joined_range p r) (inl refl))
          (subst (Serves (joined_range p r)) (sym e) (joined_range-right p r h))
    through ih (inr (inr m)) = ih x (inr m)

    past :
        (Has x (r ∷ rs) → Served (merge_next gap_bytes r rs) x)
        → Has x (p ∷ r ∷ rs)
        → Served (p ∷ merge_next gap_bytes r rs) x
    past ih (inl e) =
        (p, inl refl, subst (Serves p) (sym e) (omega arith, omega arith, Reads-refl p.read))
    past ih (inr m) = let (y, at, s) = ih m in (y, inr at, s)

-- Whatever is merged, and however wide the gaps that are bridged, every range is served.
pub merge_planned_ranges-Served :
    (rs : List PlannedRange) (gap_bytes : ℕ) (x : PlannedRange)
    → Has x rs
    → Served (merge_planned_ranges rs gap_bytes) x
unfolding merge_planned_ranges merge_in_order
merge_planned_ranges-Served rs gap_bytes x m =
    of_sorted (sort_by starts_le rs) (sort_by-Rise rs) (sort_by-Has starts_le x rs m)
  where
    of_sorted :
        (ts : List PlannedRange) → Rise 0 ts → Has x ts → Served (merge_in_order gap_bytes ts) x
    of_sorted [] h m = elim m [ ]
    of_sorted (t ∷ ts) (h, rise) m = merge_next-Served gap_bytes t ts rise x m

-- From `lo` on, more than `gap_bytes` lie between two ranges, and the ranges end in the document.
abbrev pub IsSpaced : ℕ → ℕ → ℕ → List PlannedRange → Type 0
IsSpaced gap_bytes size lo [] = Unit
IsSpaced gap_bytes size lo (r ∷ rs) =
    (lo ≤ r.start) × (r.end ≤ size) × IsSpaced gap_bytes size (suc (r.end + gap_bytes)) rs

merge_next-IsSpaced :
    (gap_bytes size lo : ℕ) (p : PlannedRange) (rs : List PlannedRange)
    → lo ≤ p.start
    → All (λ (t : PlannedRange). t.end ≤ size) (p ∷ rs)
    → IsSpaced gap_bytes size lo (merge_next gap_bytes p rs)
unfolding merge_next
merge_next-IsSpaced gap_bytes size lo p [] l (e, a) = (l, e, tt)
merge_next-IsSpaced gap_bytes size lo p (r ∷ rs) l (e, (e', a)) =
    elim (Bool-cases (leb (r.start - p.end) gap_bytes)) [
      | inl t ↦
          rw (t, merge_next)
            (merge_next-IsSpaced gap_bytes size lo (joined_range p r) rs (unfold joined_range in l)
              (unfold joined_range in omega (arith, e, e'), a))
      | inr f ↦
          rw (f, merge_next)
            (
              l,
              e,
              merge_next-IsSpaced gap_bytes size (suc (p.end + gap_bytes)) r rs
                  (omega (arith, leb→gt (r.start - p.end) gap_bytes f)) (e', a),
            )
    ]

abbrev pub Ends : ℕ → PlannedRange → Type 0
Ends size t = t.end ≤ size

pub merge_planned_ranges-IsSpaced :
    (rs : List PlannedRange) (gap_bytes size : ℕ)
    → All (λ (t : PlannedRange). t.end ≤ size) rs
    → IsSpaced gap_bytes size 0 (merge_planned_ranges rs gap_bytes)
unfolding merge_planned_ranges merge_in_order
merge_planned_ranges-IsSpaced rs gap_bytes size a = of_sorted (sort_by starts_le rs) (
    All-of_Has (Ends size) (sort_by starts_le rs)
      (λ t m. All-Has (Ends size) rs t a (Has-sort_by starts_le t rs m)))
  where
    of_sorted :
        (ts : List PlannedRange)
        → All (Ends size) ts
        → IsSpaced gap_bytes size 0 (merge_in_order gap_bytes ts)
    of_sorted [] a = tt
    of_sorted (t ∷ ts) a = merge_next-IsSpaced gap_bytes size 0 t ts (omega arith) a
