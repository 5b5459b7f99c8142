-- ===== src/Common/Bits.antt =====
-- `|` of disjoint fields and `&` with a low mask as arithmetic, at every width, and the
-- laws of `2 ^ k` that the bit packers need.
mod Digit
use Digit.{zero-bit_or, bit_or_digit, bit_and_digit}
use Prim.Native.Nat.add
use holys.Common.{
  ℕ, zero, suc, ◌+◌, ◌-◌, ◌*◌, ◌/◌, ◌%◌, ◌^◌, ◌≤◌, ◌<◌, bit_and, bit_or, ◌≡◌, refl, arith,
}
use holys.Common.{ap, ◌∙◌}
use native.Mathlib.Nat.{pow-suc, one-le-pow, mul-le-mul_right, mul-le-mul_left, mod-eq_of_lt}
use native.Mathlib.Nat.{pow-le-pow_right}

-- `2 ^ k - 1`, the mask of the `k` lowest bits.
abbrev pub mask : ℕ → ℕ
mask k = 2 ^ k - 1

pub two_pow-pos : (k : ℕ) → 1 ≤ 2 ^ k
two_pow-pos k = one-le-pow k 2 (omega arith)

pub two_pow-suc : (k : ℕ) → 2 ^ suc k ≡ 2 * 2 ^ k
two_pow-suc k = omega (arith, pow-suc 2 k)

pub two_pow-add : (k j : ℕ) → 2 ^ (k + j) ≡ 2 ^ k * 2 ^ j
two_pow-add zero j = omega (arith, ap (λ (t : ℕ). 2 ^ t) (add.zero j))
two_pow-add (suc k) j = omega (
  arith,
  ap (λ (t : ℕ). 2 ^ t) (add.suc k j),
  two_pow-suc (k + j),
  two_pow-suc k,
  two_pow-add k j,
  ap (λ (t : ℕ). t * 2 ^ j) (two_pow-suc k),
)

pub two_pow-le : (k j : ℕ) → k ≤ j → 2 ^ k ≤ 2 ^ j
two_pow-le k j h = pow-le-pow_right (omega arith) h

bit_or-zero_below : (n a : ℕ) → a ≤ n → bit_or a 0 ≡ a
bit_or-zero_below n zero h = refl
bit_or-zero_below zero (suc a) h = absurd (omega arith)
bit_or-zero_below (suc n) (suc a) h =
    omega (arith, bit_or_digit (suc a) 0, bit_or-zero_below n (suc a / 2) (omega arith))

bit_and-zero_below : (n a : ℕ) → a ≤ n → bit_and a 0 ≡ 0
bit_and-zero_below n zero h = refl
bit_and-zero_below zero (suc a) h = absurd (omega arith)
bit_and-zero_below (suc n) (suc a) h =
    omega (arith, bit_and_digit (suc a) 0, bit_and-zero_below n (suc a / 2) (omega arith))

shift_suc : (q k : ℕ) → q * 2 ^ suc k ≡ 2 * (q * 2 ^ k)
shift_suc q k = omega (arith, ap (λ (t : ℕ). q * t) (two_pow-suc k))

-- `low | (high << k)` is a sum when `low` fits `k` bits.
pub bit_or-shift : (k low high : ℕ) → low < 2 ^ k → bit_or low (high * 2 ^ k) ≡ low + high * 2 ^ k
bit_or-shift zero zero high fits = zero-bit_or (high * 2 ^ 0) ∙ omega arith
bit_or-shift zero (suc low) high fits = absurd (omega arith)
bit_or-shift (suc k) low high fits = ground (
  arith,
  bit_or_digit low (high * 2 ^ suc k),
  shift_suc high k,
  two_pow-suc k,
  bit_or-shift k (low / 2) high (omega (arith, two_pow-suc k)),
)

bit_and-mask_sum : (k q r : ℕ) → r < 2 ^ k → bit_and (q * 2 ^ k + r) (mask k) ≡ r
bit_and-mask_sum zero q r fits = ground (arith, bit_and-zero_below (q * 1 + r) (q * 1 + r))
bit_and-mask_sum (suc k) q r fits = ground (
  arith,
  bit_and_digit (q * 2 ^ suc k + r) (mask (suc k)),
  shift_suc q k,
  two_pow-suc k,
  two_pow-pos k,
  bit_and-mask_sum k q (r / 2) (omega (arith, two_pow-suc k)),
)

-- `a & ((1 << k) - 1)` is the remainder by `2 ^ k`.
pub bit_and-mask : (k a : ℕ) → bit_and a (mask k) ≡ a % 2 ^ k
bit_and-mask k a = ground (arith, two_pow-pos k, bit_and-mask_sum k (a / 2 ^ k) (a % 2 ^ k))
