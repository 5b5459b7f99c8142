-- ===== src/BitPack/Pack.antt =====
-- The packer writes the number behind its fields: its state is a number of known width.
use holys.Common.{ℕ, zero, suc, ◌+◌, ◌-◌, ◌*◌, ◌/◌, ◌%◌, ◌^◌, ◌<◌, ◌≤◌, ◌≡◌, refl, ap, ◌∙◌, arith}
use holys.Common.{List, [], ◌∷◌, ◌++◌, length, length-append}
use holys.Common.{Bool-cases, leb, leb→le, leb→gt, inl, inr, bit_or}
use holys.Common.Bits.{two_pow-add, two_pow-le, bit_or-shift}
use holys.BitPack.{Packer, drain, pack_value, pack_loop}
use holys.BitPack.Digits.{Fits, le_value, le_value-append, field_value, pow_256}
use native.Mathlib.Nat.{mod-eq_of_lt, mul-le-mul_right, mul_assoc}

-- The number that the packer stands for, and its width in bits.
abbrev pub total : Packer → ℕ
total p = le_value p.out + 2 ^ (8 * length p.out) * p.acc

abbrev pub bits : Packer → ℕ
bits p = 8 * length p.out + p.filled

-- The bytes waiting in the accumulator fit `filled` bits.
abbrev pub IsTight : Packer → Type 0
IsTight p = p.acc < 2 ^ p.filled

-- One round of the drain.
abbrev emit : Packer → Packer
emit p = record { acc = p.acc / 256; filled = p.filled - 8; out = p.out ++ ((p.acc % 256) ∷ []) }

total-emit : (p : Packer) → total (emit p) ≡ total p
unfolding le_value
total-emit p =
    let n : ℕ = length p.out in
    let r : ℕ = p.acc % 256 in
    rw (le_value-append p.out (r ∷ []), length-append p.out (r ∷ []))
      (omega (
        arith,
        ap (λ (t : ℕ). 2 ^ t * (p.acc / 256)) next,
        ap (λ (t : ℕ). t * (p.acc / 256)) (pow_256 n),
        pieces (2 ^ (8 * n)) p.acc,
      ))
  where
    next : 8 * (length p.out + length (p.acc % 256 ∷ [])) ≡ 8 * suc (length p.out)
    next = omega arith

    pieces : (m a : ℕ) → m * (a % 256) + 256 * m * (a / 256) ≡ m * a
    pieces m a = omega (arith, ap (λ (t : ℕ). m * t) (div_mod a))
      where
        div_mod : (x : ℕ) → x ≡ x % 256 + 256 * (x / 256)
        div_mod x = omega arith

emit-IsTight : (p : Packer) → IsTight p → 8 ≤ p.filled → IsTight (emit p)
emit-IsTight p t h = omega (arith, two_pow-add 8 (p.filled - 8), ap (λ (t : ℕ). 2 ^ t) whole)
  where
    whole : 8 + (p.filled - 8) ≡ p.filled
    whole = omega arith

bits-emit : (p : Packer) → 8 ≤ p.filled → bits (emit p) ≡ bits p
bits-emit p h = omega (arith, length-append p.out ((p.acc % 256) ∷ []))

-- The drain keeps the number and leaves less than a byte.
drain_lem :
    (fuel : ℕ) (p : Packer)
    → IsTight p
    → p.filled ≤ fuel
    → (total (drain fuel p) ≡ total p)
      × (bits (drain fuel p) ≡ bits p)
      × IsTight (drain fuel p)
      × ((drain fuel p).filled < 8)
unfolding drain
drain_lem zero p t h = (refl, refl, t, omega arith)
drain_lem (suc fuel) p t h = elim (Bool-cases (leb 8 p.filled)) [
  | inl more ↦
      let enough = leb→le 8 p.filled more in
      let (e, b, t', l) = drain_lem fuel (emit p) (emit-IsTight p t enough) (omega arith) in
      rw more (e ∙ total-emit p, b ∙ bits-emit p enough, t', l)
  | inr done ↦ rw done (refl, refl, t, leb→gt 8 p.filled done)
]

-- What `pack_value` loads into the accumulator before the drain.
load_acc :
    (width acc filled v : ℕ)
    → acc < 2 ^ filled
    → v < 2 ^ width
    → filled + width ≤ 64
    → (bit_or acc (v * 2 ^ filled % 2 ^ 64) ≡ acc + v * 2 ^ filled)
      × (acc + v * 2 ^ filled < 2 ^ (filled + width))
load_acc width acc filled v ha hv hw =
    (rw (mod-eq_of_lt small) (bit_or-shift filled acc v ha), fits)
  where
    room : suc v * 2 ^ filled ≤ 2 ^ width * 2 ^ filled
    room = mul-le-mul_right (2 ^ filled) hv

    fits : acc + v * 2 ^ filled < 2 ^ (filled + width)
    fits = omega (arith, room, two_pow-add filled width)

    small : v * 2 ^ filled < 2 ^ 64
    small = omega (arith, fits, two_pow-le (filled + width) 64 hw)

-- One value: it is added above the bits that are there.
pack_value_lem :
    (width : ℕ) (p : Packer) (v : ℕ)
    → IsTight p
    → p.filled < 8
    → v < 2 ^ width
    → width ≤ 32
    → (total (pack_value width p v) ≡ total p + 2 ^ bits p * v)
      × (bits (pack_value width p v) ≡ bits p + width)
      × IsTight (pack_value width p v)
      × ((pack_value width p v).filled < 8)
unfolding pack_value
pack_value_lem width p v t l hv hw =
    let (e, fits) = load_acc width p.acc p.filled v t hv (omega arith) in
    let (dt, db, dtight, dl) =
      drain_lem (p.filled + width)
        (record {
          acc = bit_or p.acc (v * 2 ^ p.filled % 2 ^ 64);
          filled = p.filled + width;
          out = p.out;
        })
        (rw e fits) (omega arith) in
    (dt ∙ rw e (grown (8 * length p.out)), db ∙ omega arith, dtight, dl)
  where
    grown :
        (n : ℕ)
        → le_value p.out + 2 ^ n * (p.acc + v * 2 ^ p.filled)
          ≡ le_value p.out + 2 ^ n * p.acc + 2 ^ (n + p.filled) * v
    grown n = omega (arith, ap (λ (t : ℕ). t * v) (two_pow-add n p.filled))

pub pack_loop_lem :
    (width : ℕ) (p : Packer) (vs : List ℕ)
    → IsTight p
    → p.filled < 8
    → Fits width vs
    → width ≤ 32
    → (total (pack_loop width p vs) ≡ total p + 2 ^ bits p * field_value width vs)
      × (bits (pack_loop width p vs) ≡ bits p + length vs * width)
      × IsTight (pack_loop width p vs)
      × ((pack_loop width p vs).filled < 8)
unfolding pack_loop field_value
pack_loop_lem width p [] t l h hw = (omega arith, omega arith, t, l)
pack_loop_lem width p (v ∷ vs) t l (hv, hvs) hw =
    let (e, b, t', l') = pack_value_lem width p v t l hv hw in
    let (e', b', t'', l'') = pack_loop_lem width (pack_value width p v) vs t' l' hvs hw in
    (
      omega (arith, e, e', ap (λ (t : ℕ). 2 ^ t * field_value width vs) b, shifted),
      omega (arith, b, b'),
      t'',
      l'',
    )
  where
    shifted :
        2 ^ (bits p + width) * field_value width vs
        ≡ 2 ^ bits p * (2 ^ width * field_value width vs)
    shifted =
        rw (two_pow-add (bits p) width) (mul_assoc (2 ^ bits p) (2 ^ width) (field_value width vs))
