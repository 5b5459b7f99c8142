-- ===== src/SparseTable/Varint.antt =====
-- write_varint and read_varint of crates/index/src/sparse_table.rs: LEB128, seven bits a byte.
use holys.Common.{
  ℕ, zero, suc, ◌+◌, ◌-◌, ◌*◌, ◌/◌, ◌%◌, ◌^◌, ◌<◌, ◌≤◌, ◌≡◌, refl, sym, ap, ◌∙◌, arith, bit_or, ltb,
  leb, ◌==◌, ◌||◌,
}
use holys.Common.{
  List, [], ◌∷◌, ◌++◌, append_assoc, true, false, Bool-cases, inl, inr, if◌then◌else◌, lt→ltb,
  le→leb, ltb→ge, ltb→lt, leb→le, ==→eq,
}
use holys.Common.{Result, ok, err, ensure, ◌>>◌}
use holys.Common.Bits.{bit_or-shift, two_pow-add, two_pow-le, two_pow-pos}
use holys.SparseTable.Errors.{Error, ends_inside, varint_overflows}
use native.Mathlib.Nat.{mod-eq_of_lt, mul-le-mul_right}

-- The loop of `write_varint`, for a value below `128 ^ suc fuel`.
unfoldable pub write_loop : ℕ → List ℕ → ℕ → List ℕ
write_loop zero out value = out ++ ((value % 128) ∷ [])
write_loop (suc fuel) out value =
    let rest = write_loop fuel (out ++ ((128 + value % 128) ∷ [])) (value / 128) in
    if value / 128 == 0 then out ++ ((value % 128) ∷ []) else rest

-- A u64 takes ten bytes at most.
unfoldable pub write_varint : List ℕ → ℕ → List ℕ
unfolding write_loop
write_varint out value = write_loop 9 out value

-- The cursor is the suffix of the block that is left, and every round takes a byte of it.
unfoldable pub read_loop : ℕ → ℕ → List ℕ → Result Error (ℕ × List ℕ)
read_loop value shift [] = err ends_inside
read_loop value shift (byte ∷ rest) =
    let value' = bit_or value (byte % 128 * 2 ^ shift % 2 ^ 64) in
    let further = read_loop value' (shift + 7) rest in
    do
      ensure (ltb shift 64) varint_overflows
      ensure (ltb shift 63 || leb (byte % 128) 1) varint_overflows
      if byte / 128 % 2 == 0 then ok (value', rest) else further

unfoldable pub read_varint : List ℕ → Result Error (ℕ × List ℕ)
unfolding read_loop
read_varint block = read_loop 0 0 block

field_fits : (b shift v : ℕ) → b + shift ≡ 64 → v < 2 ^ b → v * 2 ^ shift < 2 ^ 64
field_fits b shift v e h = omega (
  arith,
  mul-le-mul_right (2 ^ shift) h,
  sym (two_pow-add b shift),
  ap (λ (t : ℕ). 2 ^ t) e,
  two_pow-pos shift,
)

read_last :
    (acc shift byte : ℕ) (rest : List ℕ)
    → shift < 64
    → (ltb shift 63 || leb byte 1) ≡ true
    → byte < 128
    → acc < 2 ^ shift
    → byte * 2 ^ shift < 2 ^ 64
    → read_loop acc shift (byte ∷ rest) ≡ ok (acc + byte * 2 ^ shift, rest)
unfolding read_loop
read_last acc shift byte rest s t l a f =
    let low : byte % 128 ≡ byte = omega arith in
    let top : (byte / 128 % 2 == 0) ≡ true = ground arith in
    let word = ap (bit_or acc) (mod-eq_of_lt f) ∙ bit_or-shift shift acc byte a in
    rw (low, lt→ltb shift 64 s, t, top, word) refl

read_more :
    (acc shift low : ℕ) (rest : List ℕ)
    → shift < 63
    → low < 128
    → acc < 2 ^ shift
    → low * 2 ^ shift < 2 ^ 64
    → read_loop acc shift ((128 + low) ∷ rest) ≡ read_loop (acc + low * 2 ^ shift) (shift + 7) rest
unfolding read_loop
read_more acc shift low rest s l a f =
    let bits : (128 + low) % 128 ≡ low = omega arith in
    let top : ((128 + low) / 128 % 2 == 0) ≡ false = ground arith in
    let word = ap (bit_or acc) (mod-eq_of_lt f) ∙ bit_or-shift shift acc low a in
    rw (bits, lt→ltb shift 64 (omega arith), lt→ltb shift 63 s, top, word) refl

write_loop-append :
    (fuel v : ℕ) (out : List ℕ) → write_loop fuel out v ≡ out ++ write_loop fuel [] v
unfolding write_loop
write_loop-append zero v out = refl
write_loop-append (suc fuel) v out = elim (Bool-cases (v / 128 == 0)) [
  | inl t ↦ rw t refl
  | inr f ↦ rw f (
      write_loop-append fuel (v / 128) (out ++ ((128 + v % 128) ∷ []))
      ∙ append_assoc out ((128 + v % 128) ∷ []) (write_loop fuel [] (v / 128))
      ∙ ap (◌++◌ out) (sym (write_loop-append fuel (v / 128) ((128 + v % 128) ∷ []))))
]

-- The check of the tenth byte passes where the value fits the bits that are left.
last_bits : (b shift v : ℕ) → b + shift ≡ 64 → 1 ≤ b → v < 2 ^ b → (ltb shift 63 || leb v 1) ≡ true
last_bits b shift v e pos h = elim (Bool-cases (ltb shift 63)) [
  | inl t ↦ rw t refl
  | inr f ↦
      rw (f, le→leb v 1 (omega (arith, h, two_pow-le b 1 (omega (arith, ltb→ge shift 63 f))))) refl
]

wide_of : (b v : ℕ) → 128 ≤ v → v < 2 ^ b → 8 ≤ b
wide_of b v large h = elim (Bool-cases (ltb b 8)) [
  | inl t ↦ absurd (omega (arith, h, two_pow-le b 7 (omega (arith, ltb→lt b 8 t))))
  | inr f ↦ ltb→ge b 8 f
]

split_seven : (b : ℕ) → 8 ≤ b → 2 ^ b ≡ 128 * 2 ^ (b - 7)
split_seven b wide = omega (arith, two_pow-add 7 (b - 7), ap (λ (t : ℕ). 2 ^ t) (whole b wide))
  where
    whole : (b : ℕ) → 8 ≤ b → b ≡ 7 + (b - 7)
    whole b wide = omega arith

-- Writing a value of `b` bits at the shift that is left for them, and reading it.
read-write_loop :
    (fuel shift b acc v : ℕ) (rest : List ℕ)
    → b + shift ≡ 64
    → 1 ≤ b
    → b ≤ 7 * suc fuel
    → acc < 2 ^ shift
    → v < 2 ^ b
    → read_loop acc shift (write_loop fuel [] v ++ rest) ≡ ok (acc + v * 2 ^ shift, rest)
unfolding write_loop
read-write_loop zero shift b acc v rest e pos room a h =
    let small = two_pow-le b 7 (omega arith) in
    let low : v % 128 ≡ v = mod-eq_of_lt (omega (arith, small)) in
    rw low (
      read_last acc shift v rest (omega arith) (last_bits b shift v e pos h) (omega (arith, small))
        a (field_fits b shift v e h))
read-write_loop (suc fuel) shift b acc v rest e pos room a h = elim (Bool-cases (v / 128 == 0)) [
  | inl done ↦
      let small : v < 128 = omega (arith, ==→eq (v / 128) 0 done) in
      let low : v % 128 ≡ v = mod-eq_of_lt small in
      rw (done, low)
        (read_last acc shift v rest (omega arith) (last_bits b shift v e pos h) small a
          (field_fits b shift v e h))
  | inr more ↦ rw more (
      further (ground arith)
        (read-write_loop fuel (shift + 7) (b - 7) (acc + v % 128 * 2 ^ shift) (v / 128) rest))
]
  where
    further :
        128 ≤ v
        → (b - 7 + (shift + 7) ≡ 64
            → 1 ≤ b - 7
            → b - 7 ≤ 7 * suc fuel
            → acc + v % 128 * 2 ^ shift < 2 ^ (shift + 7)
            → v / 128 < 2 ^ (b - 7)
            → read_loop
                (acc + v % 128 * 2 ^ shift)
                (shift + 7)
                (write_loop fuel [] (v / 128) ++ rest)
              ≡ ok (acc + v % 128 * 2 ^ shift + v / 128 * 2 ^ (shift + 7), rest))
        → read_loop acc shift (write_loop fuel ((128 + v % 128) ∷ []) (v / 128) ++ rest)
          ≡ ok (acc + v * 2 ^ shift, rest)
    further large ih =
        let wide = wide_of b v large h in
        let whole : v ≡ v / 128 * 128 + v % 128 = omega arith in
        let shifted = two_pow-add shift 7 in
        let low : suc (v % 128) ≤ 128 = omega arith in
        ap (λ t. read_loop acc shift (t ++ rest))
          (write_loop-append fuel (v / 128) ((128 + v % 128) ∷ []))
        ∙ read_more acc shift (v % 128) (write_loop fuel [] (v / 128) ++ rest) (omega arith)
            (omega arith) a (field_fits b shift (v % 128) e (omega (arith, h)))
        ∙ ih (omega arith) (omega arith) (omega arith)
            (omega (arith, a, shifted, mul-le-mul_right (2 ^ shift) low))
            (omega (arith, h, split_seven b wide))
        ∙ ap (λ (t : ℕ). ok (t, rest))
            (omega
              (arith, ap (λ (t : ℕ). v / 128 * t) shifted, ap (λ (t : ℕ). t * 2 ^ shift) whole))

-- Reading a varint that was written gives the value, a u64, and leaves what follows it.
pub read-write_varint :
    (v : ℕ) (rest : List ℕ) → v < 2 ^ 64 → read_varint (write_varint [] v ++ rest) ≡ ok (v, rest)
unfolding read_varint write_varint
read-write_varint v rest h =
    read-write_loop 9 0 64 0 v rest refl (omega arith) (omega arith) (omega arith) h
    ∙ ap (λ (t : ℕ). ok (t, rest)) (omega arith)

pub write_varint-append : (out : List ℕ) (v : ℕ) → write_varint out v ≡ out ++ write_varint [] v
unfolding write_varint
write_varint-append out v = write_loop-append 9 v out

-- What a read says of its accumulator: the byte of this round fits above it, and is added to it.
pub read_word :
    (k acc shift byte : ℕ)
    → shift ≡ 7 * k
    → acc < 2 ^ shift
    → ltb shift 64 ≡ true
    → (ltb shift 63 || leb (byte % 128) 1) ≡ true
    → (bit_or acc (byte % 128 * 2 ^ shift % 2 ^ 64) ≡ acc + byte % 128 * 2 ^ shift)
      × (bit_or acc (byte % 128 * 2 ^ shift % 2 ^ 64) < 2 ^ 64)
      × (bit_or acc (byte % 128 * 2 ^ shift % 2 ^ 64) < 2 ^ (shift + 7))
read_word k acc shift byte e a t64 t63 =
    let word = ap (bit_or acc) (mod-eq_of_lt fits) ∙ bit_or-shift shift acc (byte % 128) a in
    let low : suc (byte % 128) ≤ 128 = omega arith in
    (
      word,
      omega (arith, word, a, room, shifted_room, mul-le-mul_right (2 ^ shift) fewer),
      omega (arith, word, a, two_pow-add shift 7, mul-le-mul_right (2 ^ shift) low),
    )
  where
    s64 : shift < 64
    s64 = ltb→lt shift 64 t64

    fewer : suc (byte % 128) ≤ 2 ^ (64 - shift)
    fewer = elim (Bool-cases (ltb shift 63)) [
      | inl t ↦ omega (arith, two_pow-le 7 (64 - shift) (omega (arith, e, ltb→lt shift 63 t)))
      | inr f ↦ at_last f (rw f at t63)
    ]
      where
        at_last :
            ltb shift 63 ≡ false → leb (byte % 128) 1 ≡ true → suc (byte % 128) ≤ 2 ^ (64 - shift)
        at_last f t =
            omega (arith, leb→le (byte % 128) 1 t, two_pow-le 1 (64 - shift) (omega (arith, s64)))

    room : 2 ^ 64 ≡ 2 ^ (64 - shift + shift)
    room = ap (λ (t : ℕ). 2 ^ t) whole
      where
        whole : 64 ≡ 64 - shift + shift
        whole = omega (arith, s64)

    shifted_room : 2 ^ (64 - shift + shift) ≡ 2 ^ (64 - shift) * 2 ^ shift
    shifted_room = two_pow-add (64 - shift) shift

    fits : byte % 128 * 2 ^ shift < 2 ^ 64
    fits = omega (arith, room, shifted_room, mul-le-mul_right (2 ^ shift) fewer, two_pow-pos shift)
