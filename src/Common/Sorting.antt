-- ===== src/Common/Sorting.antt =====
-- `sort_unstable` and `dedup` over a total order given by its Boolean test: the elements stay.
use holys.Common.{ℕ, suc, ◌≤◌, ◌≡◌, ◌∙◌, sym, arith, Bool, true, false, inl, inr}
use holys.Common.{List, [], ◌∷◌, Has, Bool-cases, leb, ◌==◌, leb→le, leb→gt, ==→eq, subst}
use holys.Common.Ascending.{AscendsFrom}

module _ {A : Type 0} (le : A → A → Bool) where
  unfoldable pub insert_by : A → List A → List A
  insert_by x [] = x ∷ []
  insert_by x (y ∷ ys) = elim (le x y) [ true ↦ x ∷ y ∷ ys | false ↦ y ∷ insert_by x ys ]

  unfoldable pub sort_by : List A → List A
  unfolding insert_by
  sort_by [] = []
  sort_by (x ∷ xs) = insert_by x (sort_by xs)

  insert_by-Has : (a x : A) (ys : List A) → Has a (x ∷ ys) → Has a (insert_by x ys)
  unfolding insert_by
  insert_by-Has a x [] m = m
  insert_by-Has a x (y ∷ ys) m = elim (Bool-cases (le x y)) [
    | inl t ↦ rw (t, insert_by) m
    | inr f ↦ rw (f, insert_by) (later (insert_by-Has a x ys) m)
  ]
    where
      later :
          (Has a (x ∷ ys) → Has a (insert_by x ys))
          → Has a (x ∷ y ∷ ys)
          → Has a (y ∷ insert_by x ys)
      later ih (inl e) = inr (ih (inl e))
      later ih (inr (inl e)) = inl e
      later ih (inr (inr m')) = inr (ih (inr m'))

  Has-insert_by : (a x : A) (ys : List A) → Has a (insert_by x ys) → Has a (x ∷ ys)
  unfolding insert_by
  Has-insert_by a x [] m = m
  Has-insert_by a x (y ∷ ys) m = elim (Bool-cases (le x y)) [
    | inl t ↦ rw (t, insert_by) at m
    | inr f ↦ later (Has-insert_by a x ys) (rw (f, insert_by) at m)
  ]
    where
      later :
          (Has a (insert_by x ys) → Has a (x ∷ ys))
          → Has a (y ∷ insert_by x ys)
          → Has a (x ∷ y ∷ ys)
      later ih (inl e) = inr (inl e)
      later ih (inr m') = elim (ih m') [ inl e ↦ inl e | inr r ↦ inr (inr r) ]

  pub sort_by-Has : (a : A) (xs : List A) → Has a xs → Has a (sort_by xs)
  unfolding sort_by
  sort_by-Has a [] m = m
  sort_by-Has a (x ∷ xs) (inl e) = insert_by-Has a x (sort_by xs) (inl e)
  sort_by-Has a (x ∷ xs) (inr m) = insert_by-Has a x (sort_by xs) (inr (sort_by-Has a xs m))

  pub Has-sort_by : (a : A) (xs : List A) → Has a (sort_by xs) → Has a xs
  unfolding sort_by
  Has-sort_by a [] m = m
  Has-sort_by a (x ∷ xs) m = elim (Has-insert_by a x (sort_by xs) m) [
    | inl e ↦ inl e
    | inr r ↦ inr (Has-sort_by a xs r)
  ]

module _ {A : Type 0} (eq : A → A → Bool) where
  -- `dedup` behind an element that is kept: repetitions of it go.
  pub dedup_after : A → List A → List A
  dedup_after x [] = x ∷ []
  dedup_after x (y ∷ ys) = elim (eq x y) [ true ↦ dedup_after x ys | false ↦ x ∷ dedup_after y ys ]

  unfoldable pub dedup_by : List A → List A
  unfolding dedup_after
  dedup_by [] = []
  dedup_by (x ∷ xs) = dedup_after x xs

  Has-dedup_after : (a x : A) (xs : List A) → Has a (dedup_after x xs) → Has a (x ∷ xs)
  unfolding dedup_after
  Has-dedup_after a x [] m = m
  Has-dedup_after a x (y ∷ ys) m = elim (Bool-cases (eq x y)) [
    | inl t ↦ skip (Has-dedup_after a x ys (rw (t, dedup_after) at m))
    | inr f ↦ elim (rw (f, dedup_after) at m) [
      | inl e ↦ inl e
      | inr m' ↦ inr (Has-dedup_after a y ys m')
    ]
  ]
    where
      skip : Has a (x ∷ ys) → Has a (x ∷ y ∷ ys)
      skip (inl e) = inl e
      skip (inr r) = inr (inr r)

  module _ (sound : (x y : A) → eq x y ≡ true → x ≡ y) where
    dedup_after-Has : (a x : A) (xs : List A) → Has a (x ∷ xs) → Has a (dedup_after x xs)
    unfolding dedup_after
    dedup_after-Has a x [] m = m
    dedup_after-Has a x (y ∷ ys) m = elim (Bool-cases (eq x y)) [
      | inl t ↦ rw (t, dedup_after) (dedup_after-Has a x ys (merged (sound x y t) m))
      | inr f ↦ rw (f, dedup_after) (kept (dedup_after-Has a y ys) m)
    ]
      where
        merged : x ≡ y → Has a (x ∷ y ∷ ys) → Has a (x ∷ ys)
        merged e (inl p) = inl p
        merged e (inr (inl p)) = inl (p ∙ sym e)
        merged e (inr (inr r)) = inr r

        kept :
            (Has a (y ∷ ys) → Has a (dedup_after y ys))
            → Has a (x ∷ y ∷ ys)
            → Has a (x ∷ dedup_after y ys)
        kept ih (inl p) = inl p
        kept ih (inr r) = inr (ih r)

module _ {A : Type 0} (le eq : A → A → Bool) where
  -- `xs.sort_unstable(); xs.dedup();`
  unfoldable pub sort_dedup : List A → List A
  sort_dedup xs = dedup_by eq (sort_by le xs)

  pub Has-sort_dedup : (a : A) (xs : List A) → Has a (sort_dedup xs) → Has a xs
  unfolding sort_dedup dedup_by
  Has-sort_dedup a xs m = Has-sort_by le a xs (of_dedup (sort_by le xs) m)
    where
      of_dedup : (ys : List A) → Has a (dedup_by eq ys) → Has a ys
      of_dedup [] m = m
      of_dedup (y ∷ ys) m = Has-dedup_after eq a y ys m

  pub sort_dedup-Has :
      ((x y : A) → eq x y ≡ true → x ≡ y) → (a : A) (xs : List A) → Has a xs → Has a (sort_dedup xs)
  unfolding sort_dedup dedup_by
  sort_dedup-Has sound a xs m = to_dedup (sort_by le xs) (sort_by-Has le a xs m)
    where
      to_dedup : (ys : List A) → Has a ys → Has a (dedup_by eq ys)
      to_dedup [] m = m
      to_dedup (y ∷ ys) m = dedup_after-Has eq sound a y ys m

-- On ids: the list comes out strictly ascending.
unfoldable pub sort_ids : List ℕ → List ℕ
unfolding sort_dedup sort_by dedup_by
sort_ids xs = sort_dedup leb ◌==◌ xs

abbrev Rising : ℕ → List ℕ → Type 0
Rising lo [] = Unit
Rising lo (x ∷ xs) = (lo ≤ x) × Rising x xs

insert_by-Rising : (lo x : ℕ) (ys : List ℕ) → lo ≤ x → Rising lo ys → Rising lo (insert_by leb x ys)
unfolding insert_by
insert_by-Rising lo x [] h r = (h, tt)
insert_by-Rising lo x (y ∷ ys) h (hy, r) = elim (Bool-cases (leb x y)) [
  | inl t ↦ rw (t, insert_by) (h, (leb→le x y t, r))
  | inr f ↦ rw (f, insert_by) (hy, insert_by-Rising y x ys (omega (arith, leb→gt x y f)) r)
]

sort_by-Rising : (xs : List ℕ) → Rising 0 (sort_by leb xs)
unfolding sort_by
sort_by-Rising [] = tt
sort_by-Rising (x ∷ xs) = insert_by-Rising 0 x (sort_by leb xs) (omega arith) (sort_by-Rising xs)

dedup_after-AscendsFrom :
    (lo x : ℕ) (xs : List ℕ) → lo ≤ x → Rising x xs → AscendsFrom lo (dedup_after ◌==◌ x xs)
unfolding dedup_after
dedup_after-AscendsFrom lo x [] h r = (h, tt)
dedup_after-AscendsFrom lo x (y ∷ ys) h (hy, r) = elim (Bool-cases (x == y)) [
  | inl t ↦
      rw (t, dedup_after)
        (dedup_after-AscendsFrom lo x ys h (subst (λ z. Rising z ys) (sym (==→eq x y t)) r))
  | inr f ↦ rw (f, dedup_after) (h, dedup_after-AscendsFrom (suc x) y ys (ground arith) r)
]

pub sort_ids-IsAscending : (xs : List ℕ) → AscendsFrom 0 (sort_ids xs)
unfolding sort_ids
sort_ids-IsAscending xs = of_sorted (sort_by leb xs) (sort_by-Rising xs)
  where
    of_sorted : (ys : List ℕ) → Rising 0 ys → AscendsFrom 0 (dedup_by ◌==◌ ys)
    of_sorted [] r = tt
    of_sorted (y ∷ ys) (h, r) = dedup_after-AscendsFrom 0 y ys h r

pub Has-sort_ids : (a : ℕ) (xs : List ℕ) → Has a (sort_ids xs) → Has a xs
Has-sort_ids a xs m = unfold sort_ids in Has-sort_dedup leb ◌==◌ a xs m

pub sort_ids-Has : (a : ℕ) (xs : List ℕ) → Has a xs → Has a (sort_ids xs)
sort_ids-Has a xs m = unfold sort_ids in sort_dedup-Has leb ◌==◌ ==→eq a xs m
