-- ===== src/Eval/Sets.antt =====
-- The set operations of the evaluator on ascending lists.
use holys.Common.{
  ℕ, zero, suc, ◌+◌, ◌≤◌, ◌<◌, ◌≡◌, refl, ◌∙◌, sym, arith, Option, none, some, leb, subst, inl, inr,
}
use holys.Common.{
  List, [], ◌∷◌, length, Has, Has-append_left, Has-append_right, All, All-Has, All-of_Has,
}
use holys.Common.Ascending.{AscendsFrom, AscendsFrom-weaken, IsAscending, Has-AscendsFrom}
use holys.Common.Sorting.{sort_by, Has-sort_by, sort_ids-Has, sort_ids-IsAscending}
use holys.Eval.Select.{
  Selection, intersect, flatten, union_many, inclusive, range_ids, expand_all, expand_ids,
}
use holys.Eval.Select.{intersect_all, close_sets, close_and_sets}
use Prim.Native.Nat.{compare, Ordering}
use native.Mathlib.Decide.{dec_lt}
use holys.Common.{Bool}

data Compared (x y : ℕ) : Type 0 where
  less : compare x y ≡ Ordering.lt → x < y → Compared x y
  more : compare x y ≡ Ordering.gt → y < x → Compared x y
  same : compare x y ≡ Ordering.eq → x ≡ y → Compared x y

compared : (x y : ℕ) → Compared x y
compared x y = cases (compare x y) refl
  where
    cases : (o : Ordering) → compare x y ≡ o → Compared x y
    cases Ordering.lt e = less e (ground arith)
    cases Ordering.gt e = more e (ground arith)
    cases Ordering.eq e = same e (ground arith)

-- What is in both lists is in their intersection.
pub intersect-Has :
    (xs ys : List ℕ) (lo lo' d : ℕ)
    → AscendsFrom lo xs
    → AscendsFrom lo' ys
    → Has d xs
    → Has d ys
    → Has d (intersect xs ys)
unfolding intersect
intersect-Has [] ys lo lo' d a b m m' = m
intersect-Has (x ∷ xs) [] lo lo' d a b m m' = elim m' [ ]
intersect-Has (x ∷ xs) (y ∷ ys) lo lo' d (hx, a) (hy, b) m m' = elim (compared x y) [
  | less e l ↦
      rw (e, intersect)
        (intersect-Has xs (y ∷ ys) (suc x) lo' d a (hy, b)
          (tail_of d x xs (omega (arith, least d y ys b m')) m) m')
  | more e l ↦
      rw (e, intersect)
        (intersect-Has (x ∷ xs) ys lo (suc y) d (hx, a) b m
          (tail_of d y ys (omega (arith, least d x xs a m)) m'))
  | same e p ↦
      rw (e, intersect) (both d x y xs ys p b a m m' (intersect-Has xs ys (suc x) (suc y) d a b))
]
  where
    least : (d z : ℕ) (zs : List ℕ) → AscendsFrom (suc z) zs → Has d (z ∷ zs) → z ≤ d
    least d z zs h (inl e) = omega arith
    least d z zs h (inr n) = omega (arith, Has-AscendsFrom (suc z) zs d h n)

    tail_of : (d z : ℕ) (zs : List ℕ) → z < d → Has d (z ∷ zs) → Has d zs
    tail_of d z zs h (inl e) = absurd (omega arith)
    tail_of d z zs h (inr n) = n

    both :
        (d x y : ℕ) (xs ys : List ℕ)
        → x ≡ y
        → AscendsFrom (suc y) ys
        → AscendsFrom (suc x) xs
        → Has d (x ∷ xs)
        → Has d (y ∷ ys)
        → (Has d xs → Has d ys → Has d (intersect xs ys))
        → Has d (x ∷ intersect xs ys)
    both d x y xs ys p b a (inl e) m' ih = inl e
    both d x y xs ys p b a (inr n) (inl e) ih =
        absurd (omega (arith, Has-AscendsFrom (suc x) xs d a n))
    both d x y xs ys p b a (inr n) (inr n') ih = inr (ih n n')

-- What is in the intersection is in both lists.
pub Has-intersect : (xs ys : List ℕ) (d : ℕ) → Has d (intersect xs ys) → Has d xs × Has d ys
unfolding intersect
Has-intersect [] ys d m = elim m [ ]
Has-intersect (x ∷ xs) [] d m = elim m [ ]
Has-intersect (x ∷ xs) (y ∷ ys) d m = elim (compared x y) [
  | less e l ↦ let (p, q) = Has-intersect xs (y ∷ ys) d (rw (e, intersect) at m) in (inr p, q)
  | more e l ↦ let (p, q) = Has-intersect (x ∷ xs) ys d (rw (e, intersect) at m) in (p, inr q)
  | same e p ↦ elim (rw (e, intersect) at m) [
    | inl h ↦ (inl h, inl (h ∙ p))
    | inr n ↦ let (q, r) = Has-intersect xs ys d n in (inr q, inr r)
  ]
]

pub intersect-AscendsFrom :
    (xs ys : List ℕ) (lo : ℕ) → AscendsFrom lo xs → AscendsFrom lo (intersect xs ys)
unfolding intersect
intersect-AscendsFrom [] ys lo a = tt
intersect-AscendsFrom (x ∷ xs) [] lo a = tt
intersect-AscendsFrom (x ∷ xs) (y ∷ ys) lo (h, a) = elim (compared x y) [
  | less e l ↦
      rw (e, intersect)
        (intersect-AscendsFrom xs (y ∷ ys) lo (AscendsFrom-weaken lo (suc x) xs (omega arith) a))
  | more e l ↦ rw (e, intersect) (intersect-AscendsFrom (x ∷ xs) ys lo (h, a))
  | same e p ↦ rw (e, intersect) (h, intersect-AscendsFrom xs ys (suc x) a)
]

-- The posting list of a gram at `b` speaks for `d`.
abbrev pub Reaches : Option (ℕ → ℕ × ℕ) → ℕ → ℕ → Type 0
Reaches none b d = d ≡ b
Reaches (some expand) b d = ((expand b).0 ≤ d) × (d ≤ (expand b).1)

inclusive-Has : (n lo d : ℕ) → lo ≤ d → d < lo + n → Has d (inclusive n lo)
unfolding inclusive
inclusive-Has zero lo d h l = absurd (omega arith)
inclusive-Has (suc n) lo d h l = elim (dec_lt lo d) [
  | yes above ↦ inr (inclusive-Has n (suc lo) d above (omega arith))
  | no here ↦ inl (omega arith)
]

expand_all-Has :
    (expand : ℕ → ℕ × ℕ) (xs : List ℕ) (b d : ℕ)
    → Has b xs
    → Reaches (some expand) b d
    → Has d (expand_all expand xs)
unfolding expand_all
expand_all-Has expand [] b d m r = m
expand_all-Has expand (x ∷ xs) b d (inl e) (lo, hi) = Has-append_left _ _ d (
    inclusive-Has _ (expand x).0 d (subst (λ (t : ℕ). (expand t).0 ≤ d) e lo) (
      omega (
        arith,
        subst (λ (t : ℕ). (expand t).0 ≤ d) e lo,
        subst (λ (t : ℕ). d ≤ (expand t).1) e hi,
      )))
expand_all-Has expand (x ∷ xs) b d (inr m) r =
    Has-append_right (range_ids (expand x)) _ d (expand_all-Has expand xs b d m r)

pub expand_ids-Has :
    (expand : Option (ℕ → ℕ × ℕ)) (xs : List ℕ) (b d : ℕ)
    → Has b xs
    → Reaches expand b d
    → Has d (expand_ids xs expand)
unfolding expand_ids
expand_ids-Has none xs b d m e = subst (λ (t : ℕ). Has t xs) (sym e) m
expand_ids-Has (some expand) xs b d m r = sort_ids-Has d _ (expand_all-Has expand xs b d m r)

pub expand_ids-IsAscending :
    (expand : Option (ℕ → ℕ × ℕ)) (xs : List ℕ)
    → IsAscending xs
    → IsAscending (expand_ids xs expand)
unfolding expand_ids
expand_ids-IsAscending none xs a = a
expand_ids-IsAscending (some expand) xs a = sort_ids-IsAscending _

flatten-Has :
    (lists : List (List ℕ)) (xs : List ℕ) (d : ℕ) → Has xs lists → Has d xs → Has d (flatten lists)
flatten-Has [] xs d m h = elim m [ ]
flatten-Has (ys ∷ lists) xs d (inl e) h = Has-append_left ys _ d (subst (Has d) e h)
flatten-Has (ys ∷ lists) xs d (inr m) h = Has-append_right ys _ d (flatten-Has lists xs d m h)

pub union_many-Has :
    (lists : List (List ℕ)) (xs : List ℕ) (d : ℕ)
    → Has xs lists
    → Has d xs
    → Has d (union_many lists)
unfolding union_many
union_many-Has lists xs d m h = sort_ids-Has d (flatten lists) (flatten-Has lists xs d m h)

pub union_many-IsAscending : (lists : List (List ℕ)) → IsAscending (union_many lists)
unfolding union_many
union_many-IsAscending lists = sort_ids-IsAscending (flatten lists)

abbrev pub Selected : ℕ → Selection → Type 0
Selected d Selection.all = Unit
Selected d (Selection.ids xs) = Has d xs

abbrev pub SelectionAscends : Selection → Type 0
SelectionAscends Selection.all = Unit
SelectionAscends (Selection.ids xs) = IsAscending xs

-- The intersection of the sets of an AND, in whatever order and with the early exit.
intersect_all-Has :
    (sets : List (List ℕ)) (acc : List ℕ) (d : ℕ)
    → IsAscending acc
    → All IsAscending sets
    → Has d acc
    → All (Has d) sets
    → Has d (intersect_all acc sets)
unfolding intersect_all
intersect_all-Has [] acc d a asc m ms = m
intersect_all-Has (s ∷ sets) [] d a asc m ms = m
intersect_all-Has (s ∷ sets) (x ∷ acc) d a (sa, asc) m (sm, ms) =
    intersect_all-Has sets (intersect (x ∷ acc) s) d (intersect-AscendsFrom (x ∷ acc) s 0 a) asc
      (intersect-Has (x ∷ acc) s 0 0 d a sa m sm) ms

intersect_all-IsAscending :
    (sets : List (List ℕ)) (acc : List ℕ) → IsAscending acc → IsAscending (intersect_all acc sets)
unfolding intersect_all
intersect_all-IsAscending [] acc a = a
intersect_all-IsAscending (s ∷ sets) [] a = a
intersect_all-IsAscending (s ∷ sets) (x ∷ acc) a =
    intersect_all-IsAscending sets (intersect (x ∷ acc) s) (intersect-AscendsFrom (x ∷ acc) s 0 a)

abbrev by_len : List ℕ → List ℕ → Bool
by_len a b = leb (length a) (length b)

sorted_All : (P : List ℕ → Type 0) (sets : List (List ℕ)) → All P sets → All P (sort_by by_len sets)
sorted_All P sets h =
    All-of_Has P (sort_by by_len sets) (λ s m. All-Has P sets s h (Has-sort_by by_len s sets m))

close_sets_lem :
    (sets : List (List ℕ)) (d : ℕ)
    → All IsAscending sets
    → All (Has d) sets
    → Selected d (close_sets sets)
unfolding close_sets
close_sets_lem [] d asc ms = tt
close_sets_lem (s ∷ sets) d (a, asc) (m, ms) = intersect_all-Has sets s d a asc m ms

close_sets-Ascends :
    (sets : List (List ℕ)) → All IsAscending sets → SelectionAscends (close_sets sets)
unfolding close_sets
close_sets-Ascends [] asc = tt
close_sets-Ascends (s ∷ sets) (a, asc) = intersect_all-IsAscending sets s a

pub close_and_sets_lem :
    (sets : List (List ℕ)) (d : ℕ)
    → All IsAscending sets
    → All (Has d) sets
    → Selected d (close_and_sets (some sets))
unfolding close_and_sets
close_and_sets_lem sets d asc ms =
    close_sets_lem (sort_by by_len sets) d (sorted_All IsAscending sets asc)
      (sorted_All (Has d) sets ms)

pub close_and_sets-Ascends :
    (found : Option (List (List ℕ)))
    → ((sets : List (List ℕ)) → found ≡ some sets → All IsAscending sets)
    → SelectionAscends (close_and_sets found)
unfolding close_and_sets
close_and_sets-Ascends none h = tt
close_and_sets-Ascends (some sets) h =
    close_sets-Ascends (sort_by by_len sets) (sorted_All IsAscending sets (h sets refl))
