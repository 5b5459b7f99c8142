-- ===== src/Common/Ascending.antt =====
-- Strictly ascending id lists, as posting lists are kept, and what they determine.
use holys.Common.{ℕ, suc, ◌+◌, ◌<◌, ◌≤◌, ◌≡◌, refl, ap₂, arith, inl, inr}
use holys.Common.{List, [], ◌∷◌, length, All, Has}

-- Every element is at least `lo` and below the elements that follow it.
abbrev pub AscendsFrom : ℕ → List ℕ → Type 0
AscendsFrom lo [] = Unit
AscendsFrom lo (x ∷ xs) = (lo ≤ x) × AscendsFrom (suc x) xs

abbrev pub IsAscending : List ℕ → Type 0
IsAscending = AscendsFrom 0

abbrev pub IsBelow : ℕ → List ℕ → Type 0
IsBelow n = All (λ x. x < n)

pub AscendsFrom-weaken :
    (lo lo' : ℕ) (xs : List ℕ) → lo ≤ lo' → AscendsFrom lo' xs → AscendsFrom lo xs
AscendsFrom-weaken lo lo' [] h a = tt
AscendsFrom-weaken lo lo' (x ∷ xs) h (hx, hxs) = (omega arith, hxs)

pub Has-AscendsFrom : (lo : ℕ) (xs : List ℕ) (a : ℕ) → AscendsFrom lo xs → Has a xs → lo ≤ a
Has-AscendsFrom lo [] a h m = elim m [ ]
Has-AscendsFrom lo (x ∷ xs) a (hx, hxs) (inl e) = omega arith
Has-AscendsFrom lo (x ∷ xs) a (hx, hxs) (inr m) = omega (arith, Has-AscendsFrom (suc x) xs a hxs m)

-- An ascending list below `n` is no longer than the room it has.
pub length-AscendsFrom :
    (lo n : ℕ) (xs : List ℕ) → AscendsFrom lo xs → IsBelow n xs → lo ≤ n → length xs + lo ≤ n
length-AscendsFrom lo n [] h b l = omega arith
length-AscendsFrom lo n (x ∷ xs) (hx, hxs) (bx, bxs) l =
    omega (arith, length-AscendsFrom (suc x) n xs hxs bxs bx)

-- Two ascending lists with the same elements are one list.
pub AscendsFrom-ext :
    (lo lo' : ℕ) (xs ys : List ℕ)
    → AscendsFrom lo xs
    → AscendsFrom lo' ys
    → ((a : ℕ) → Has a xs → Has a ys)
    → ((a : ℕ) → Has a ys → Has a xs)
    → xs ≡ ys
AscendsFrom-ext lo lo' [] [] hx hy f g = refl
AscendsFrom-ext lo lo' [] (y ∷ ys) hx hy f g = elim (g y (inl refl)) [ ]
AscendsFrom-ext lo lo' (x ∷ xs) [] hx hy f g = elim (f x (inl refl)) [ ]
AscendsFrom-ext lo lo' (x ∷ xs) (y ∷ ys) (hx, hxs) (hy, hys) f g = ap₂ ◌∷◌ heads (
    AscendsFrom-ext (suc x) (suc y) xs ys hxs hys
      (λ a m.
        tail_of a y ys (omega (arith, Has-AscendsFrom (suc x) xs a hxs m, heads)) (f a (inr m)))
      (λ a m.
        tail_of a x xs (omega (arith, Has-AscendsFrom (suc y) ys a hys m, heads)) (g a (inr m))))
  where
    least : (a b : ℕ) (bs : List ℕ) → AscendsFrom (suc b) bs → Has a (b ∷ bs) → b ≤ a
    least a b bs h (inl e) = omega arith
    least a b bs h (inr m) = omega (arith, Has-AscendsFrom (suc b) bs a h m)

    heads : x ≡ y
    heads = omega (arith, least x y ys hys (f x (inl refl)), least y x xs hxs (g y (inl refl)))

    tail_of : (a b : ℕ) (bs : List ℕ) → b < a → Has a (b ∷ bs) → Has a bs
    tail_of a b bs h (inl e) = absurd (omega arith)
    tail_of a b bs h (inr m) = m
