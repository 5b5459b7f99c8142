-- ===== src/Common/Word32.antt =====
-- u32 arithmetic: wrap-around written out, `leading_zeros`, and the width of a value in bits.
use holys.Common.{
  ℕ, zero, suc, ◌+◌, ◌-◌, ◌*◌, ◌%◌, ◌^◌, ◌<◌, ◌≤◌, ◌≡◌, ap, arith, max, min, if◌then◌else◌, ltb,
}
use holys.Common.{Bool-cases, inl, inr, ltb→lt, Option, none, some}
use holys.Common.Bits.{two_pow-le}

abbrev pub IsU32 : ℕ → Type 0
IsU32 n = n < 2 ^ 32

-- `a - b` on u32.
abbrev pub sub_u32 : ℕ → ℕ → ℕ
sub_u32 a b = (a + 2 ^ 32 - b) % 2 ^ 32

-- `a.checked_add(b)` on a word of `w` bits.
abbrev pub checked_add : ℕ → ℕ → ℕ → Option ℕ
checked_add w a b = if ltb (a + b) (2 ^ w) then some (a + b) else none

-- The number of zero bits above the highest one bit of a value of `n` bits.
unfoldable pub zeros_above : ℕ → ℕ → ℕ
zeros_above zero value = 0
zeros_above (suc n) value = if ltb value (2 ^ n) then suc (zeros_above n value) else 0

-- `value.leading_zeros()`
abbrev pub leading_zeros : ℕ → ℕ
leading_zeros = zeros_above 32

pub zeros_above-le : (n value : ℕ) → zeros_above n value ≤ n
unfolding zeros_above
zeros_above-le zero value = omega arith
zeros_above-le (suc n) value = ground (arith, zeros_above-le n value)

pub zeros_above-fits : (n value : ℕ) → value < 2 ^ n → value < 2 ^ (n - zeros_above n value)
unfolding zeros_above
zeros_above-fits zero value h = h
zeros_above-fits (suc n) value h = elim (Bool-cases (ltb value (2 ^ n))) [
  | inl small ↦ rw small (
      omega (
        arith,
        zeros_above-fits n value (ltb→lt value (2 ^ n) small),
        ap (λ (t : ℕ). 2 ^ t) (drop_suc (zeros_above n value)),
      ))
  | inr large ↦ rw large (omega (arith, ap (λ (t : ℕ). 2 ^ t) whole))
]
  where
    whole : suc n - 0 ≡ suc n
    whole = omega arith

    drop_suc : (z : ℕ) → suc n - suc z ≡ n - z
    drop_suc z = omega arith

-- `(32 - value.leading_zeros()).max(1)`
abbrev pub bit_width : ℕ → ℕ
bit_width value = max (32 - leading_zeros value) 1

pub bit_width_bounds : (value : ℕ) → (1 ≤ bit_width value) × (bit_width value ≤ 32)
bit_width_bounds value = (omega arith, omega arith)

pub bit_width-fits : (value : ℕ) → IsU32 value → value < 2 ^ bit_width value
bit_width-fits value h = omega (
  arith,
  zeros_above-fits 32 value h,
  two_pow-le (32 - leading_zeros value) (bit_width value) (omega arith),
)

-- `a.checked_mul(b)` and `a.checked_sub(b)` on a word of `w` bits.
abbrev pub checked_mul : ℕ → ℕ → ℕ → Option ℕ
checked_mul w a b = if ltb (a * b) (2 ^ w) then some (a * b) else none

abbrev pub checked_sub : ℕ → ℕ → Option ℕ
checked_sub a b = if ltb a b then none else some (a - b)

-- `a.saturating_add(b)` and `a.saturating_mul(b)` on u64.
abbrev pub saturating_add : ℕ → ℕ → ℕ
saturating_add a b = min (a + b) (2 ^ 64 - 1)

abbrev pub saturating_mul : ℕ → ℕ → ℕ
saturating_mul a b = min (a * b) (2 ^ 64 - 1)
