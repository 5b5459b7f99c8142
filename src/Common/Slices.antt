-- ===== src/Common/Slices.antt =====
-- Parts of lists: `take` and `drop` of a concatenation, and the range of a list.
use Prim.Native.Nat.{ℕ, zero, suc, ◌+◌, ◌-◌, ◌≤◌, min}
use mathlib.Core.Path.{◌≡◌, refl, sym, ap, ◌∙◌}
use mathlib.Core.List.{List, [], ◌∷◌, ◌++◌}
use native.Mathlib.Omega.{arith}
use holys.Common.Lists.{length, take, drop, take_all, length-take}
use holys.Common.Tests.{Bool-cases, leb, leb→le, leb→gt}
use mathlib.Core.Bool.{true, false}
use mathlib.Core.Logic.{inl, inr}

none_left : (n : ℕ) → 0 ≡ 0 - suc n
none_left n = omega arith

less_none : (n : ℕ) → n ≡ n - 0
less_none n = omega arith

suc-add : (n m : ℕ) → suc (n + m) ≡ suc n + m
suc-add n m = omega arith

suc_less : (n m : ℕ) → n - m ≡ suc n - suc m
suc_less n m = omega arith

module _ {ℓ} {A : Type ℓ} where
  pub take_append :
      (n : ℕ) (xs ys : List A) → take n (xs ++ ys) ≡ take n xs ++ take (n - length xs) ys
  take_append zero [] ys = refl
  take_append zero (x ∷ xs) ys = ap (λ (t : ℕ). take t ys) (none_left (length xs))
  take_append (suc n) [] ys = ap (λ (t : ℕ). take t ys) (less_none (suc n))
  take_append (suc n) (x ∷ xs) ys =
      ap (◌∷◌ x)
        (take_append n xs ys ∙ ap (λ (t : ℕ). take n xs ++ take t ys) (suc_less n (length xs)))

  pub drop_append :
      (n : ℕ) (xs ys : List A) → drop n (xs ++ ys) ≡ drop n xs ++ drop (n - length xs) ys
  drop_append zero [] ys = refl
  drop_append zero (x ∷ xs) ys = ap (λ (t : ℕ). (x ∷ xs) ++ drop t ys) (none_left (length xs))
  drop_append (suc n) [] ys = ap (λ (t : ℕ). drop t ys) (less_none (suc n))
  drop_append (suc n) (x ∷ xs) ys =
      drop_append n xs ys ∙ ap (λ (t : ℕ). drop n xs ++ drop t ys) (suc_less n (length xs))

  pub drop_nil : (n : ℕ) → drop {A = A} n [] ≡ []
  drop_nil zero = refl
  drop_nil (suc n) = refl

  pub drop-drop : (m n : ℕ) (xs : List A) → drop m (drop n xs) ≡ drop (n + m) xs
  drop-drop m zero xs = ap (λ (t : ℕ). drop t xs) (omega arith)
  drop-drop m (suc n) [] = drop_nil m ∙ sym (drop_nil (suc n + m))
  drop-drop m (suc n) (x ∷ xs) = drop-drop m n xs ∙ ap (λ (t : ℕ). drop t (x ∷ xs)) (suc-add n m)

  pub take-take : (m n : ℕ) (xs : List A) → m ≤ n → take m (take n xs) ≡ take m xs
  take-take zero n xs h = refl
  take-take (suc m) zero xs h = absurd (omega arith)
  take-take (suc m) (suc n) [] h = refl
  take-take (suc m) (suc n) (x ∷ xs) h = ap (◌∷◌ x) (take-take m n xs (omega arith))

  pub take_nil : (n : ℕ) → take {A = A} n [] ≡ []
  take_nil zero = refl
  take_nil (suc n) = refl

  pub drop-take : (m n : ℕ) (xs : List A) → drop m (take n xs) ≡ take (n - m) (drop m xs)
  drop-take zero n xs = ap (λ (t : ℕ). take t xs) (omega arith)
  drop-take (suc m) zero xs = ap (λ (t : ℕ). take t (drop (suc m) xs)) (none_left m)
  drop-take (suc m) (suc n) [] = sym (take_nil (suc n - suc m))
  drop-take (suc m) (suc n) (x ∷ xs) =
      drop-take m n xs ∙ ap (λ (t : ℕ). take t (drop m xs)) (suc_less n m)

  pub take-min : (m n : ℕ) (xs : List A) → take m (take n xs) ≡ take (min m n) xs
  take-min m n xs = elim (Bool-cases (leb m n)) [
    | inl t ↦ take-take m n xs (leb→le m n t) ∙ ap (λ (t : ℕ). take t xs) (lesser t)
    | inr f ↦
        take_all m (take n xs) (omega (arith, length-take n xs, leb→gt m n f))
        ∙ ap (λ (t : ℕ). take t xs) (greater f)
  ]
    where
      lesser : leb m n ≡ true → m ≡ min m n
      lesser t = omega (arith, leb→le m n t)

      greater : leb m n ≡ false → n ≡ min m n
      greater f = omega (arith, leb→gt m n f)
