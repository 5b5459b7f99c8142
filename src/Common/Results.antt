-- ===== src/Common/Results.antt =====
-- `anyhow::Result`, with the error as data: every component names its own errors.
use mathlib.Core.Path.{◌≡◌, refl}
use mathlib.Core.Logic.{◌⊎◌, inl, inr}
use mathlib.Core.Bool.{Bool, true, false}
use mathlib.Core.Option.{Option, none, some}

pub data Result {ℓ κ} (E : Type κ) (A : Type ℓ) : Type (ℓ ⊔ κ) where
  ok : A → Result E A
  err : E → Result E A

infixl 5 ◌>>=◌ ◌>>◌
abbrev pub ◌>>=◌ {ℓ κ μ} :
    {E : Type κ} {A : Type ℓ} {B : Type μ} → Result E A → (A → Result E B) → Result E B
ok a >>= f = f a
err e >>= f = err e

abbrev pub ◌>>◌ {ℓ κ} : {E : Type κ} {B : Type ℓ} → Result E (Unit {0}) → Result E B → Result E B
m >> k = m >>= λ _. k

-- `anyhow::ensure!`
abbrev pub ensure {κ} : {E : Type κ} → Bool → E → Result E (Unit {0})
ensure true e = ok tt
ensure false e = err e

-- `.context(..)?` on an `Option`
abbrev pub context {ℓ κ} : {E : Type κ} {A : Type ℓ} → Option A → E → Result E A
context none e = err e
context (some a) e = ok a

module _ {ℓ κ} {E : Type κ} {A : Type ℓ} where
  pub Result-cases : (r : Result E A) → ((a : A) × (r ≡ ok a)) ⊎ ((e : E) × (r ≡ err e))
  Result-cases (ok a) = inl (a, refl)
  Result-cases (err e) = inr (e, refl)

  pub ok-injective : {a b : A} → ◌≡◌ {A = Result E A} (ok a) (ok b) → a ≡ b
  ok-injective p = cc

  pub err-injective : {x y : E} → ◌≡◌ {A = Result E A} (err x) (err y) → x ≡ y
  err-injective p = cc

  pub ok-ne-err : {a : A} {x : E} → ◌≡◌ {A = Result E A} (ok a) (err x) → ⊥
  ok-ne-err p = cc

  -- Inversion of a successful bind.
  pub >>=-eq-ok {μ} :
      {B : Type μ} (first : Result E A) (next : A → Result E B) {last : B}
      → ◌≡◌ {A = Result E B} (first >>= next) (ok last)
      → (step : A) × (first ≡ ok step) × (next step ≡ ok last)
  >>=-eq-ok (err failure) next whole = cc
  >>=-eq-ok (ok step) next whole = (step, refl, whole)

  -- A bind fails where one of its parts does.
  pub >>=-eq-err {μ} :
      {B : Type μ} (first : Result E A) (next : A → Result E B) {failure : E}
      → ◌≡◌ {A = Result E B} (first >>= next) (err failure)
      → (first ≡ err failure) ⊎ ((step : A) × (first ≡ ok step) × (next step ≡ err failure))
  >>=-eq-err (err failure) next whole = inl cc
  >>=-eq-err (ok step) next whole = inr (step, refl, whole)

module _ {ℓ κ} {E : Type κ} {B : Type ℓ} where
  -- A chain that succeeded passed its test.
  pub ensure-eq-ok :
      (t : Bool) (e : E) (k : Result E B) {b : B}
      → (ensure t e >> k) ≡ ok b
      → (t ≡ true) × (k ≡ ok b)
  ensure-eq-ok true e k h = (refl, h)
  ensure-eq-ok false e k h = cc
