-- ===== src/Posting/Complement.antt =====
-- The complement of an ascending list in a range of ids is ascending, and its own inverse.
use holys.Common.{ℕ, zero, suc, ◌+◌, ◌≤◌, ◌≡◌, refl, ap, ◌∙◌, arith, true, false, sym}
use holys.Common.{List, [], ◌∷◌, length, Bool-cases, inl, inr, ==→eq, lt→ltb, ◌==◌, ==_refl, ap₂}
use holys.Common.Ascending.{AscendsFrom, AscendsFrom-weaken, IsBelow, length-AscendsFrom}
use holys.Posting.{complement, id_range, windows_ascend, last_below}

-- Where the head is larger than the id at hand, it is not met.
later : (x id : ℕ) → (x == id) ≡ false → id ≤ x → suc id ≤ x
later x id e h = ground arith

IsBelow-suc : (i m : ℕ) (ys : List ℕ) → IsBelow (i + suc m) ys → IsBelow (suc i + m) ys
IsBelow-suc i m [] c = tt
IsBelow-suc i m (y ∷ ys) (c, cs) = (omega arith, IsBelow-suc i m ys cs)

suc-IsBelow : (i m : ℕ) (ys : List ℕ) → IsBelow (suc i + m) ys → IsBelow (i + suc m) ys
suc-IsBelow i m [] c = tt
suc-IsBelow i m (y ∷ ys) (c, cs) = (omega arith, suc-IsBelow i m ys cs)

pub length-complement :
    (n id : ℕ) (xs : List ℕ)
    → AscendsFrom id xs
    → IsBelow (id + n) xs
    → length (complement n id xs) + length xs ≡ n
unfolding complement
length-complement zero id [] a b = omega arith
length-complement zero id (x ∷ xs) (h, a) (hb, b) = absurd (omega arith)
length-complement (suc n) id [] a b = omega (arith, length-complement n (suc id) [] tt tt)
length-complement (suc n) id (x ∷ xs) (h, a) (hb, b) = elim (Bool-cases (x == id)) [
  | inl e ↦
      rw (e, complement)
        (omega (
          arith,
          length-complement n (suc id) xs
              (AscendsFrom-weaken _ _ xs (omega (arith, ==→eq x id e)) a) (IsBelow-suc id n xs b),
        ))
  | inr d ↦
      rw (d, complement)
        (omega (
          arith,
          length-complement n (suc id) (x ∷ xs) (later x id d h, a)
              (IsBelow-suc id n (x ∷ xs) (hb, b)),
        ))
]

pub complement-AscendsFrom :
    (n id : ℕ) (xs : List ℕ)
    → AscendsFrom id (complement n id xs) × IsBelow (id + n) (complement n id xs)
unfolding complement
complement-AscendsFrom zero id [] = (tt, tt)
complement-AscendsFrom zero id (x ∷ xs) = (tt, tt)
complement-AscendsFrom (suc n) id [] =
    let (a, b) = complement-AscendsFrom n (suc id) [] in
    ((omega arith, a), (omega arith, suc-IsBelow id n _ b))
complement-AscendsFrom (suc n) id (x ∷ xs) = elim (Bool-cases (x == id)) [
  | inl e ↦
      let (a, b) = complement-AscendsFrom n (suc id) xs in
      rw (e, complement) (AscendsFrom-weaken id (suc id) _ (omega arith) a, suc-IsBelow id n _ b)
  | inr d ↦
      let (a, b) = complement-AscendsFrom n (suc id) (x ∷ xs) in
      rw (d, complement) ((omega arith, a), (omega arith, suc-IsBelow id n _ b))
]

-- An id that is not in the list is put first.
complement-skip :
    (n id : ℕ) (ys : List ℕ)
    → AscendsFrom (suc id) ys
    → complement (suc n) id ys ≡ id ∷ complement n (suc id) ys
unfolding complement
complement-skip n id [] a = refl
complement-skip n id (y ∷ ys) (h, a) = rw (differs y id h, complement)
  where
    differs : (y id : ℕ) → suc id ≤ y → (y == id) ≡ false
    differs y id h = ground arith

complement-meet :
    (n id : ℕ) (ys : List ℕ) → complement (suc n) id (id ∷ ys) ≡ complement n (suc id) ys
unfolding complement
complement-meet n id ys = rw (==_refl id, complement)

pub complement-complement :
    (n id : ℕ) (xs : List ℕ)
    → AscendsFrom id xs
    → IsBelow (id + n) xs
    → complement n id (complement n id xs) ≡ xs
complement-complement zero id [] a b = unfold complement in refl
complement-complement zero id (x ∷ xs) (h, a) (hb, b) = absurd (omega arith)
complement-complement (suc n) id [] a b =
    ap (complement (suc n) id) (complement-skip n id [] tt)
    ∙ complement-meet n id _
    ∙ complement-complement n (suc id) [] tt tt
complement-complement (suc n) id (x ∷ xs) (h, a) (hb, b) = elim (Bool-cases (x == id)) [
  | inl e ↦
      let x≡id = ==→eq x id e in
      let from_id = AscendsFrom-weaken (suc id) (suc x) xs (omega (arith, x≡id)) a in
      ap (complement (suc n) id)
        (ap (λ (t : ℕ). complement (suc n) id (t ∷ xs)) x≡id ∙ complement-meet n id xs)
      ∙ complement-skip n id _ (complement-AscendsFrom n (suc id) xs).0
      ∙ ap₂ ◌∷◌ (sym x≡id) (complement-complement n (suc id) xs from_id (IsBelow-suc id n xs b))
  | inr d ↦
      let above = later x id d h in
      ap (complement (suc n) id) (complement-skip n id (x ∷ xs) (above, a))
      ∙ complement-meet n id _
      ∙ complement-complement n (suc id) (x ∷ xs) (above, a) (IsBelow-suc id n (x ∷ xs) (hb, b))
]

-- A list with an element for every id of the range is the range.
pub id_range-full :
    (n id : ℕ) (xs : List ℕ)
    → AscendsFrom id xs
    → IsBelow (id + n) xs
    → length xs ≡ n
    → id_range n id ≡ xs
unfolding id_range
id_range-full zero id [] a b l = refl
id_range-full zero id (x ∷ xs) a b l = absurd (omega arith)
id_range-full (suc n) id [] a b l = absurd (omega arith)
id_range-full (suc n) id (x ∷ xs) (h, a) (hb, b) l =
    let x≡id : id ≡ x =
      omega (arith, length-AscendsFrom (suc x) (id + suc n) xs a b (omega arith)) in
    ap₂ ◌∷◌ x≡id (
      id_range-full n (suc id) xs (AscendsFrom-weaken (suc id) (suc x) xs (omega arith) a)
        (IsBelow-suc id n xs b) (omega arith))

-- The decoder's checks hold of an ascending list below the bound.
pub windows_ascend-AscendsFrom :
    (lo : ℕ) (xs : List ℕ) → AscendsFrom lo xs → windows_ascend xs ≡ true
unfolding windows_ascend
windows_ascend-AscendsFrom lo [] a = refl
windows_ascend-AscendsFrom lo (x ∷ []) a = refl
windows_ascend-AscendsFrom lo (x ∷ y ∷ rest) (h, (h', a)) =
    rw (lt→ltb x y h', windows_ascend-AscendsFrom (suc x) (y ∷ rest) (h', a))

pub last_below-IsBelow : (n : ℕ) (xs : List ℕ) → IsBelow n xs → last_below n xs ≡ true
unfolding last_below
last_below-IsBelow n [] b = refl
last_below-IsBelow n (x ∷ []) (h, b) = lt→ltb x n h
last_below-IsBelow n (x ∷ y ∷ rest) (h, b) = last_below-IsBelow n (y ∷ rest) b
