-- ===== src/BitPack/Digits.antt =====
-- Numbers behind packed bytes: a byte list read little-endian, and a list of fields of `width` bits.
use holys.Common.{ℕ, zero, suc, ◌+◌, ◌*◌, ◌/◌, ◌%◌, ◌^◌, ◌<◌, ◌≡◌, refl, ap, arith}
use holys.Common.{List, [], ◌∷◌, ◌++◌, length, All}
use holys.Common.Bits.{two_pow-pos, two_pow-add}
use native.Mathlib.Nat.{mul_assoc, add-mul-mod_self_left, add-mul-div_left}

abbrev pub IsByte : ℕ → Type 0
IsByte b = b < 256

-- Every element fits `width` bits.
abbrev pub Fits : ℕ → List ℕ → Type 0
Fits width = All (λ v. v < 2 ^ width)

-- The bytes as one number, lowest byte first.
unfoldable pub le_value : List ℕ → ℕ
le_value [] = 0
le_value (b ∷ bs) = b + 256 * le_value bs

-- The fields as one number, first field lowest.
unfoldable pub field_value : ℕ → List ℕ → ℕ
field_value width [] = 0
field_value width (v ∷ vs) = v + 2 ^ width * field_value width vs

-- The `n` lowest fields of a number.
unfoldable pub fields : ℕ → ℕ → ℕ → List ℕ
fields width zero v = []
fields width (suc n) v = (v % 2 ^ width) ∷ fields width n (v / 2 ^ width)

pub pow_256 : (n : ℕ) → 2 ^ (8 * suc n) ≡ 256 * 2 ^ (8 * n)
pow_256 n = let e : 8 * suc n ≡ 8 + 8 * n = omega arith in rw e (two_pow-add 8 (8 * n))

pub le_value-append :
    (xs ys : List ℕ) → le_value (xs ++ ys) ≡ le_value xs + 2 ^ (8 * length xs) * le_value ys
unfolding le_value
le_value-append [] ys = omega arith
le_value-append (x ∷ xs) ys = omega (
  arith,
  le_value-append xs ys,
  pow_256 (length xs),
  ap (λ (t : ℕ). t * le_value ys) (pow_256 (length xs)),
)

split_low : (w v r : ℕ) → v < 2 ^ w → (v + 2 ^ w * r) % 2 ^ w ≡ v
split_low w v r h = grind (arith, two_pow-pos w)

split_high : (w v r : ℕ) → v < 2 ^ w → (v + 2 ^ w * r) / 2 ^ w ≡ r
split_high w v r h = grind (arith, two_pow-pos w)

-- Reading back the fields of a packed number gives the fields.
pub fields-field_value :
    (w : ℕ) (vs : List ℕ) → Fits w vs → fields w (length vs) (field_value w vs) ≡ vs
unfolding fields field_value
fields-field_value w [] h = refl
fields-field_value w (v ∷ vs) (hv, hvs) =
    rw (split_low w v (field_value w vs) hv, split_high w v (field_value w vs) hv)
      (ap (◌∷◌ v) (fields-field_value w vs hvs))

pub length-fields : (w n v : ℕ) → length (fields w n v) ≡ n
unfolding fields
length-fields w zero v = refl
length-fields w (suc n) v = ap suc (length-fields w n (v / 2 ^ w))

-- The low field of an accumulator whose upper end is at `filled`, with the bytes that follow.
pub low_field :
    (w k acc rest : ℕ)
    → ((acc + 2 ^ (w + k) * rest) % 2 ^ w ≡ acc % 2 ^ w)
      × ((acc + 2 ^ (w + k) * rest) / 2 ^ w ≡ acc / 2 ^ w + 2 ^ k * rest)
low_field w k acc rest =
    let e : 2 ^ (w + k) * rest ≡ 2 ^ w * (2 ^ k * rest) =
      rw (two_pow-add w k) (mul_assoc (2 ^ w) (2 ^ k) rest) in
    rw e (
      add-mul-mod_self_left acc (2 ^ w) (2 ^ k * rest),
      add-mul-div_left acc (2 ^ k * rest) (two_pow-pos w),
    )
