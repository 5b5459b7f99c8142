-- ===== src/SparseTable/VarintExact.antt =====
-- What read_varint accepts and what it makes of it, against LEB128 written apart from the loop: its bytes
-- are the digits of a number to the base 128, with no bound on it.
use holys.Common.{
  ℕ, suc, ◌+◌, ◌*◌, ◌/◌, ◌%◌, ◌^◌, ◌<◌, ◌≤◌, ◌≡◌, ◌↔◌, ◌⊎◌, refl, sym, ap, ◌∙◌, arith, ltb, leb,
  ◌==◌, ◌||◌,
}
use holys.Common.{
  List, [], ◌∷◌, ◌++◌, length, length-append, true, false, Bool-cases, inl, inr, lt→ltb, ltb→lt,
  ltb→ge, if◌then◌else◌, leb→gt, ==→eq, subst,
}
use holys.Common.{ok, ensure-eq-ok, ok-injective, ok-ne-err}
use holys.Common.Bits.{two_pow-add, two_pow-le}
use holys.SparseTable.Errors.{varint_overflows}
use holys.SparseTable.Varint.{read_loop, read_varint, read_word}
use native.Mathlib.Nat.{mul-le-mul_right}

-- Seven bits a byte, the lowest first.
abbrev pub leb_value : List ℕ → ℕ
leb_value [] = 0
leb_value (byte ∷ bytes) = byte % 128 + 128 * leb_value bytes

-- Every byte but the last has its high bit set.
abbrev pub IsLeb : List ℕ → Type 0
IsLeb [] = ⊥
IsLeb (byte ∷ []) = byte / 128 % 2 ≡ 0
IsLeb (byte ∷ next ∷ bytes) = (byte / 128 % 2 ≡ 1) × IsLeb (next ∷ bytes)

-- The block starts with the bytes of a varint, ten at most, that stand for `v`, a u64, before `rest`.
abbrev pub Starts : List ℕ → ℕ → List ℕ → Type 0
Starts block v rest =
    (bytes : List ℕ) × (block ≡ bytes ++ rest)
    × IsLeb bytes
    × (length bytes ≤ 10)
    × (v ≡ leb_value bytes)
    × (v < 2 ^ 64)

IsLeb-more : (byte : ℕ) (bytes : List ℕ) → byte / 128 % 2 ≡ 1 → IsLeb bytes → IsLeb (byte ∷ bytes)
IsLeb-more byte [] h l = absurd l
IsLeb-more byte (next ∷ bytes) h l = (h, l)

-- The digits from a shift on.
more_digits :
    (acc shift low value : ℕ)
    → acc + low * 2 ^ shift + value * 2 ^ (shift + 7) ≡ acc + (low + 128 * value) * 2 ^ shift
more_digits acc shift low value = omega (arith, ap (λ (t : ℕ). value * t) (two_pow-add shift 7))

read_loop-Starts :
    (k acc shift : ℕ) (block : List ℕ) (v : ℕ) (rest : List ℕ)
    → shift ≡ 7 * k
    → acc < 2 ^ shift
    → read_loop acc shift block ≡ ok (v, rest)
    → (bytes : List ℕ) × (block ≡ bytes ++ rest)
      × IsLeb bytes
      × (k + length bytes ≤ 10)
      × (v ≡ acc + leb_value bytes * 2 ^ shift)
      × (v < 2 ^ 64)
unfolding read_loop
read_loop-Starts k acc shift [] v rest e a h = absurd (ok-ne-err (sym h))
read_loop-Starts k acc shift (byte ∷ block) v rest e a h =
    let (t64, h1) = ensure-eq-ok (ltb shift 64) varint_overflows _ h in
    let (t63, h2) = ensure-eq-ok (ltb shift 63 || leb (byte % 128) 1) varint_overflows _ h1 in
    let (word, small, shifted) = read_word k acc shift byte e a t64 t63 in
    let below : k ≤ 9 = omega (arith, e, ltb→lt shift 64 t64) in
    elim (Bool-cases (byte / 128 % 2 == 0)) [
      | inl done ↦
          let same = ok-injective (rw done at h2) in
          (
            byte ∷ [],
            ap (◌∷◌ byte) (ap (λ (r : ℕ × List ℕ). r.1) same),
            ==→eq (byte / 128 % 2) 0 done,
            omega (arith, below),
            omega (arith, ap (λ (r : ℕ × List ℕ). r.0) same, word),
            omega (arith, ap (λ (r : ℕ × List ℕ). r.0) same, small),
          )
      | inr more ↦
          let (bytes, split, leb, few, value, fits) =
            read_loop-Starts (suc k) _ (shift + 7) block v rest (omega (arith, e)) shifted
              (rw more at h2) in
          (
            byte ∷ bytes,
            ap (◌∷◌ byte) split,
            IsLeb-more byte bytes (ground (arith, more)) leb,
            omega (arith, few),
            omega (arith, value, word) ∙ more_digits acc shift (byte % 128) (leb_value bytes),
            fits,
          )
    ]

-- The checks of a round pass where the number that is left fits a u64.
checks_pass :
    (k shift low value : ℕ)
    → shift ≡ 7 * k
    → k ≤ 9
    → low ≤ value
    → value * 2 ^ shift < 2 ^ 64
    → (ltb shift 64 ≡ true) × ((ltb shift 63 || leb low 1) ≡ true)
checks_pass k shift low value e few small fits =
    (lt→ltb shift 64 (omega (arith, e, few)), by_shift (Bool-cases (ltb shift 63)))
  where
    by_shift : (ltb shift 63 ≡ true) ⊎ (ltb shift 63 ≡ false) → (ltb shift 63 || leb low 1) ≡ true
    by_shift (inl t) = rw t refl
    by_shift (inr f) = rw f (by_low (Bool-cases (leb low 1)))
      where
        by_low : (leb low 1 ≡ true) ⊎ (leb low 1 ≡ false) → leb low 1 ≡ true
        by_low (inl t) = t
        by_low (inr g) =
            let two : 2 ≤ value = omega (arith, small, leb→gt low 1 g) in
            absurd (
              omega (
                arith,
                fits,
                mul-le-mul_right (2 ^ shift) two,
                two_pow-le 63 shift (ltb→ge shift 63 f),
              ))

-- A round, where the number from its byte on fits a u64.
read_step :
    (k acc shift byte higher : ℕ) (block : List ℕ)
    → shift ≡ 7 * k
    → k ≤ 9
    → acc < 2 ^ shift
    → (byte % 128 + 128 * higher) * 2 ^ shift < 2 ^ 64
    → (read_loop acc shift (byte ∷ block) ≡ (
        if byte / 128 % 2 == 0
        then ok (acc + byte % 128 * 2 ^ shift, block)
        else read_loop (acc + byte % 128 * 2 ^ shift) (shift + 7) block))
      × (acc + byte % 128 * 2 ^ shift < 2 ^ (shift + 7))
unfolding read_loop
read_step k acc shift byte higher block e few a fits =
    let (t64, t63) =
      checks_pass k shift (byte % 128) (byte % 128 + 128 * higher) e few (omega arith) fits in
    let (word, _, shifted) = read_word k acc shift byte e a t64 t63 in
    (rw (t64, t63, word) refl, subst (λ (n : ℕ). n < 2 ^ (shift + 7)) word shifted)

read_loop-reads :
    (k acc shift : ℕ) (bytes rest : List ℕ)
    → shift ≡ 7 * k
    → acc < 2 ^ shift
    → IsLeb bytes
    → k + length bytes ≤ 10
    → leb_value bytes * 2 ^ shift < 2 ^ 64
    → read_loop acc shift (bytes ++ rest) ≡ ok (acc + leb_value bytes * 2 ^ shift, rest)
read_loop-reads k acc shift [] rest e a l few fits = absurd l
read_loop-reads k acc shift (byte ∷ []) rest e a l few fits =
    let top : (byte / 128 % 2 == 0) ≡ true = rw l refl in
    (read_step k acc shift byte 0 rest e (omega (arith, few)) a fits).0
    ∙ rw top (ap (λ (t : ℕ). ok (acc + t * 2 ^ shift, rest)) (omega arith))
read_loop-reads k acc shift (byte ∷ next ∷ bytes) rest e a (high, l) few fits =
    let top : (byte / 128 % 2 == 0) ≡ false = rw high refl in
    let (step, below) =
      read_step k acc shift byte (leb_value (next ∷ bytes)) ((next ∷ bytes) ++ rest) e
        (omega (arith, few)) a fits in
    step
    ∙ rw top (
        read_loop-reads (suc k) (acc + byte % 128 * 2 ^ shift) (shift + 7) (next ∷ bytes) rest
          (omega (arith, e)) below l (omega (arith, few))
          (omega (arith, fits, more_digits 0 shift (byte % 128) (leb_value (next ∷ bytes)))))
    ∙ ap (λ (t : ℕ). ok (t, rest)) (more_digits acc shift (byte % 128) (leb_value (next ∷ bytes)))

-- read_varint gives a value exactly where the block starts with a varint of ten bytes at most that stands
-- for it, a u64 without wrap-around, and leaves what is behind.
pub read_varint-Starts :
    (block : List ℕ) (v : ℕ) (rest : List ℕ)
    → (read_varint block ≡ ok (v, rest)) ↔ Starts block v rest
unfolding read_varint
read_varint-Starts block v rest = (into, back)
  where
    into : read_loop 0 0 block ≡ ok (v, rest) → Starts block v rest
    into h =
        let (bytes, split, leb, few, value, fits) =
          read_loop-Starts 0 0 0 block v rest refl (omega arith) h in
        (bytes, split, leb, omega (arith, few), omega (arith, value), fits)

    back : Starts block v rest → read_loop 0 0 block ≡ ok (v, rest)
    back (bytes, split, leb, few, value, fits) =
        ap (read_loop 0 0) split
        ∙ read_loop-reads 0 0 0 bytes rest refl (omega arith) leb (omega (arith, few))
            (omega (arith, value, fits))
        ∙ ap (λ (t : ℕ). ok (t, rest)) (omega (arith, value))

-- The form in which the readers of entries use a read: the value is a u64, and a byte was taken.
pub read_varint_bounds :
    (block : List ℕ) (v : ℕ) (rest : List ℕ)
    → read_varint block ≡ ok (v, rest)
    → (v < 2 ^ 64) × (length rest < length block)
unfolding read_varint
read_varint_bounds block v rest h =
    let (bytes, split, leb, few, value, fits) =
      read_loop-Starts 0 0 0 block v rest refl (omega arith) h in
    (fits, subst (λ (b : List ℕ). length rest < length b) (sym split) (shorter bytes leb))
  where
    shorter : (bytes : List ℕ) → IsLeb bytes → length rest < length (bytes ++ rest)
    shorter [] l = absurd l
    shorter (byte ∷ bytes) l = omega (arith, length-append bytes rest)
