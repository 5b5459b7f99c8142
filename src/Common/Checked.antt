-- ===== src/Common/Checked.antt =====
-- What it tells that a checked operation on u64 did not fail.
use holys.Common.{ℕ, ◌+◌, ◌-◌, ◌*◌, ◌^◌, ◌≤◌, ◌≡◌, sym, ap, inl, inr, ltb, ltb→ge}
use holys.Common.{Bool-cases, some, ok, context, ok-injective, ok-ne-err}
use holys.Common.Word32.{checked_add, checked_mul, checked_sub}

module _ {κ} {E : Type κ} (e : E) where
  pub sub_ok :
      (a b : ℕ) {d : ℕ}
      → context (checked_sub a b) e ≡ ok d
      → (b ≤ a) × (d ≡ a - b) × (checked_sub a b ≡ some d)
  sub_ok a b h = elim (Bool-cases (ltb a b)) [
    | inl t ↦ absurd (ok-ne-err (sym (rw t at h)))
    | inr f ↦
        (ltb→ge a b f, sym (ok-injective (rw f at h)), rw f (ap some (ok-injective (rw f at h))))
  ]

  pub mul_ok : (a b : ℕ) {d : ℕ} → context (checked_mul 64 a b) e ≡ ok d → d ≡ a * b
  mul_ok a b h = elim (Bool-cases (ltb (a * b) (2 ^ 64))) [
    | inl t ↦ sym (ok-injective (rw t at h))
    | inr f ↦ absurd (ok-ne-err (sym (rw f at h)))
  ]

  pub add_ok : (a b : ℕ) {d : ℕ} → context (checked_add 64 a b) e ≡ ok d → d ≡ a + b
  add_ok a b h = elim (Bool-cases (ltb (a + b) (2 ^ 64))) [
    | inl t ↦ sym (ok-injective (rw t at h))
    | inr f ↦ absurd (ok-ne-err (sym (rw f at h)))
  ]
