-- ===== src/BitPack/PackBytes.antt =====
-- What `pack_fixed` appends to its buffer: bytes that hold the number behind the values.
use holys.Common.{
  ℕ, zero, suc, ◌+◌, ◌-◌, ◌*◌, ◌/◌, ◌%◌, ◌^◌, ◌<◌, ◌≤◌, ◌≡◌, refl, ap, ◌∙◌, sym, arith,
}
use holys.Common.{
  List, [], ◌∷◌, ◌++◌, length, length-append, All, All-append, append_assoc, Bool, true, false,
}
use holys.Common.{append-nil}
use holys.Common.Bits.{two_pow-le}
use holys.Common.{Bool-cases, leb, ltb, if◌then◌else◌, ltb→lt, ltb→ge, inl, inr}
use holys.BitPack.{Packer, drain, pack_value, pack_loop, finish, pack_fixed, new_packer}
use holys.BitPack.Digits.{IsByte, Fits, le_value, le_value-append, field_value}
use holys.BitPack.Pack.{total, bits, IsTight, pack_loop_lem}
use native.Mathlib.Nat.{mod-eq_of_lt}

abbrev prepend : List ℕ → Packer → Packer
prepend pre p = record { acc = p.acc; filled = p.filled; out = pre ++ p.out }

if-prepend :
    (pre : List ℕ) (t : Bool) (p q : Packer)
    → (if t then prepend pre p else prepend pre q) ≡ prepend pre (if t then p else q)
if-prepend pre true p q = refl
if-prepend pre false p q = refl

drain-prepend :
    (fuel : ℕ) (pre : List ℕ) (p : Packer) → drain fuel (prepend pre p) ≡ prepend pre (drain fuel p)
unfolding drain
drain-prepend zero pre p = refl
drain-prepend (suc fuel) pre p =
    ap (λ (q : Packer). if leb 8 p.filled then q else prepend pre p)
      (ap
          (λ (o : List ℕ).
            drain fuel (record { acc = p.acc / 256; filled = p.filled - 8; out = o }))
          (append_assoc pre p.out ((p.acc % 256) ∷ []))
        ∙ drain-prepend fuel pre _)
    ∙ if-prepend pre (leb 8 p.filled) _ p

pack_loop-prepend :
    (width : ℕ) (pre : List ℕ) (p : Packer) (vs : List ℕ)
    → pack_loop width (prepend pre p) vs ≡ prepend pre (pack_loop width p vs)
unfolding pack_loop pack_value
pack_loop-prepend width pre p [] = refl
pack_loop-prepend width pre p (v ∷ vs) =
    ap (λ (q : Packer). pack_loop width q vs) (drain-prepend (p.filled + width) pre _)
    ∙ pack_loop-prepend width pre (pack_value width p v) vs

finish-prepend : (pre : List ℕ) (p : Packer) → finish (prepend pre p) ≡ pre ++ finish p
unfolding finish
finish-prepend pre p = elim (Bool-cases (ltb 0 p.filled)) [
  | inl t ↦ rw t (append_assoc pre p.out ((p.acc % 256) ∷ []))
  | inr f ↦ rw f
]

-- The buffer stays in front of what is packed.
pub pack_fixed-append :
    (values : List ℕ) (width : ℕ) (out : List ℕ)
    → pack_fixed values width out ≡ out ++ pack_fixed values width []
unfolding pack_fixed
pack_fixed-append values width out =
    ap (λ (o : List ℕ). finish (pack_loop width (new_packer o) values)) (sym (append-nil out))
    ∙ ap finish (pack_loop-prepend width out (new_packer []) values)
    ∙ finish-prepend out (pack_loop width (new_packer []) values)

finish-total :
    (p : Packer)
    → IsTight p
    → p.filled < 8
    → (le_value (finish p) ≡ total p) × (length (finish p) ≡ (bits p + 7) / 8)
unfolding finish le_value
finish-total p t l = elim (Bool-cases (ltb 0 p.filled)) [
  | inl more ↦ rw more (
    le_value-append p.out ((p.acc % 256) ∷ [])
        ∙ ap (λ (a : ℕ). le_value p.out + 2 ^ (8 * length p.out) * (a + 0)) (mod-eq_of_lt small)
        ∙ omega arith,
    omega (arith, length-append p.out ((p.acc % 256) ∷ []), ltb→lt 0 p.filled more),
  )
  | inr none_left ↦ rw none_left (
    omega (arith, ap (λ (a : ℕ). 2 ^ (8 * length p.out) * a) (empty (ltb→ge 0 p.filled none_left))),
    omega (arith, ltb→ge 0 p.filled none_left),
  )
]
  where
    small : p.acc < 256
    small = omega (arith, t, two_pow-le p.filled 8 (omega arith))

    empty : p.filled ≤ 0 → p.acc ≡ 0
    empty h = omega (arith, t, two_pow-le p.filled 0 h)

-- Packing writes the number behind the fields, in just enough bytes.
pub pack_fixed_lem :
    (values : List ℕ) (width : ℕ)
    → Fits width values
    → width ≤ 32
    → (le_value (pack_fixed values width []) ≡ field_value width values)
      × (length (pack_fixed values width []) ≡ (length values * width + 7) / 8)
unfolding pack_fixed
pack_fixed_lem values width h hw =
    let (e, b, t, l) =
      pack_loop_lem width (new_packer []) values (omega arith) (omega arith) h hw in
    let (e', b') = finish-total (pack_loop width (new_packer []) values) t l in
    (omega (arith, e, e', start), omega (arith, b, b', ap (λ (n : ℕ). (n + 7) / 8) b))
  where
    start : le_value [] ≡ 0
    start = unfold le_value in refl

drain-IsByte : (fuel : ℕ) (p : Packer) → All IsByte p.out → All IsByte (drain fuel p).out
unfolding drain
drain-IsByte zero p h = h
drain-IsByte (suc fuel) p h = elim (Bool-cases (leb 8 p.filled)) [
  | inl t ↦ rw t (drain-IsByte fuel _ (All-append IsByte p.out _ h (omega arith, tt)))
  | inr f ↦ rw f h
]

pack_loop-IsByte :
    (width : ℕ) (p : Packer) (vs : List ℕ)
    → All IsByte p.out
    → All IsByte (pack_loop width p vs).out
unfolding pack_loop pack_value
pack_loop-IsByte width p [] h = h
pack_loop-IsByte width p (v ∷ vs) h =
    pack_loop-IsByte width (pack_value width p v) vs (drain-IsByte (p.filled + width) _ h)

pub pack_fixed-IsByte : (values : List ℕ) (width : ℕ) → All IsByte (pack_fixed values width [])
unfolding pack_fixed finish
pack_fixed-IsByte values width =
    let p = pack_loop width (new_packer []) values in
    elim (Bool-cases (ltb 0 p.filled)) [
      | inl t ↦ rw t (All-append IsByte p.out _ (loop_bytes values) (omega arith, tt))
      | inr f ↦ rw f (loop_bytes values)
    ]
  where
    loop_bytes : (vs : List ℕ) → All IsByte (pack_loop width (new_packer []) vs).out
    loop_bytes vs = pack_loop-IsByte width (new_packer []) vs tt
