-- ===== src/BitPack/Unpack.antt =====
-- The unpacker visits the fields of the number that its accumulator and its input stand for.
use holys.Common.{
  ℕ, zero, suc, ◌+◌, ◌-◌, ◌*◌, ◌/◌, ◌%◌, ◌^◌, ◌<◌, ◌≤◌, ◌≡◌, refl, ap, ◌∙◌, sym, arith,
}
use holys.Common.{List, [], ◌∷◌, ◌++◌, length, All, append_assoc, bit_and, bit_or}
use holys.Common.{Bool-cases, ltb, ltb→lt, ltb→ge, ge→ltb, inl, inr, Result, ok, ◌>>=◌}
use holys.Common.Bits.{two_pow-pos, two_pow-add, two_pow-le, bit_or-shift, bit_and-mask, mask}
use holys.BitPack.{refill, unpack_loop, unpack_fixed, unpack_ids, push_id, length_not_validated}
use holys.BitPack.Digits.{IsByte, le_value, fields, low_field}
use holys.Common.{subst, append-nil}
use mathlib.Core.Path.{fun_ext}
use native.Mathlib.Nat.{mod-eq_of_lt, mul-le-mul_right, mod-lt, mul_comm, div-lt_iff_lt-mul}

-- The visitor run over a list of values.
unfoldable pub visit_all : {E S : Type 0} → (ℕ → S → Result E S) → List ℕ → S → Result E S
visit_all visit [] s = ok s
visit_all visit (v ∷ vs) s = do s' ← visit v s; visit_all visit vs s'

-- The number behind the accumulator and the unread bytes.
abbrev pending : ℕ → ℕ → List ℕ → ℕ
pending acc filled input = acc + 2 ^ filled * le_value input

abbrev room : ℕ → List ℕ → ℕ
room filled input = filled + 8 * length input

push_byte :
    (acc filled b : ℕ) (input : List ℕ)
    → acc < 2 ^ filled
    → b < 256
    → filled ≤ 32
    → (bit_or acc (b * 2 ^ filled % 2 ^ 64) < 2 ^ (filled + 8))
      × (pending (bit_or acc (b * 2 ^ filled % 2 ^ 64)) (filled + 8) input
          ≡ pending acc filled (b ∷ input))
unfolding le_value
push_byte acc filled b input ha hb hf =
    rw (mod-eq_of_lt small, bit_or-shift filled acc b ha)
      (
        omega (arith, wide, two_pow-add filled 8),
        omega (arith, ap (λ (t : ℕ). t * le_value input) (two_pow-add filled 8)),
      )
  where
    wide : suc b * 2 ^ filled ≤ 256 * 2 ^ filled
    wide = mul-le-mul_right (2 ^ filled) hb

    small : b * 2 ^ filled < 2 ^ 64
    small = omega (arith, wide, two_pow-pos filled, two_pow-le filled 32 hf)

-- What a refill that has bytes enough gives back.
record Refilled {E : Type 0} (width acc filled : ℕ) (input : List ℕ) (r : Result E (ℕ × ℕ × List ℕ))
    : Type 0 where
  acc' : ℕ
  filled' : ℕ
  input' : List ℕ
  result : r ≡ ok (acc', filled', input')
  enough : width ≤ filled'
  tight : acc' < 2 ^ filled'
  same_number : pending acc' filled' input' ≡ pending acc filled input
  same_room : room filled' input' ≡ room filled input
  bytes : All IsByte input'

refill_lem :
    {E : Type 0} (e : E) (width acc filled : ℕ) (input : List ℕ)
    → acc < 2 ^ filled
    → All IsByte input
    → width ≤ 32
    → width ≤ room filled input
    → Refilled width acc filled input (refill e width acc filled input)
unfolding refill
refill_lem e width acc filled [] ha hb hw hr = record {
  acc' = acc;
  filled' = filled;
  input' = [];
  result = rw (ge→ltb filled width (omega arith));
  enough = omega arith;
  tight = ha;
  same_number = refl;
  same_room = refl;
  bytes = tt;
}
refill_lem e width acc filled (b ∷ input) ha (hb, hbs) hw hr =
    elim (Bool-cases (ltb filled width)) [
      | inl short ↦
          let (fits, number) =
            push_byte acc filled b input ha hb (omega (arith, ltb→lt filled width short)) in
          let r =
            refill_lem e width (bit_or acc (b * 2 ^ filled % 2 ^ 64)) (filled + 8) input fits hbs hw
              (omega arith) in
          record {
            acc' = r.acc';
            filled' = r.filled';
            input' = r.input';
            result = rw short r.result;
            enough = r.enough;
            tight = r.tight;
            same_number = r.same_number ∙ number;
            same_room = r.same_room ∙ omega arith;
            bytes = r.bytes;
          }
      | inr full ↦ record {
        acc' = acc;
        filled' = filled;
        input' = b ∷ input;
        result = rw full;
        enough = ltb→ge filled width full;
        tight = ha;
        same_number = refl;
        same_room = refl;
        bytes = (hb, hbs);
      }
    ]

-- With bytes enough the unpacker visits the lowest fields, in order, and never lacks a byte.
unpack_loop_lem :
    {E S : Type 0} (e : E) (n width : ℕ) (visit : ℕ → S → Result E S) (acc filled : ℕ)
    (input : List ℕ) (s : S)
    → acc < 2 ^ filled
    → All IsByte input
    → width ≤ 32
    → n * width ≤ room filled input
    → unpack_loop e n width visit acc filled input s
      ≡ visit_all visit (fields width n (pending acc filled input)) s
unfolding unpack_loop visit_all fields
unpack_loop_lem e zero width visit acc filled input s ha hb hw hr = refl
unpack_loop_lem e (suc n) width visit acc filled input s ha hb hw hr =
    let r = refill_lem e width acc filled input ha hb hw (omega arith) in
    let k : ℕ = r.filled' - width in
    let e1 : width + k ≡ r.filled' = omega (arith, r.enough) in
    let (low, high) = low_field width k r.acc' (le_value r.input') in
    let low' : bit_and r.acc' (mask width) % 2 ^ 32 ≡ pending acc filled input % 2 ^ width =
      rw (bit_and-mask width r.acc') (
        mod-eq_of_lt (field_u32 r.acc')
        ∙ sym low
        ∙ ap (λ (t : ℕ). (r.acc' + 2 ^ t * le_value r.input') % 2 ^ width) e1
        ∙ ap (λ (t : ℕ). t % 2 ^ width) r.same_number) in
    let high' : pending (r.acc' / 2 ^ width) k r.input' ≡ pending acc filled input / 2 ^ width =
      sym high
      ∙ ap (λ (t : ℕ). (r.acc' + 2 ^ t * le_value r.input') / 2 ^ width) e1
      ∙ ap (λ (t : ℕ). t / 2 ^ width) r.same_number in
    rw (r.result, low')
      (ap (◌>>=◌ (visit (pending acc filled input % 2 ^ width) s)) (
        fun_ext λ s'.
          unpack_loop_lem e n width visit (r.acc' / 2 ^ width) k r.input' s'
            (shrunk r.acc' k (subst (λ (t : ℕ). r.acc' < 2 ^ t) (sym e1) r.tight)) r.bytes hw
            (omega (arith, r.same_room, e1))
          ∙ ap (λ (t : ℕ). visit_all visit (fields width n t) s') high'))
  where
    field_u32 : (a : ℕ) → a % 2 ^ width < 2 ^ 32
    field_u32 a = omega (arith, mod-lt a (two_pow-pos width), two_pow-le width 32 hw)

    shrunk : (a k : ℕ) → a < 2 ^ (width + k) → a / 2 ^ width < 2 ^ k
    shrunk a k h =
        (div-lt_iff_lt-mul (two_pow-pos width)).1
          (omega (arith, h, two_pow-add width k, mul_comm (2 ^ width) (2 ^ k)))

pub unpack_fixed_lem :
    {E S : Type 0} (e : E) (bytes : List ℕ) (n width : ℕ) (visit : ℕ → S → Result E S) (s : S)
    → All IsByte bytes
    → width ≤ 32
    → n * width ≤ 8 * length bytes
    → unpack_fixed e bytes n width visit s ≡ visit_all visit (fields width n (le_value bytes)) s
unfolding unpack_fixed
unpack_fixed_lem e bytes n width visit s hb hw hr =
    unpack_loop_lem e n width visit 0 0 bytes s (omega arith) hb hw (omega arith)
    ∙ ap (λ (t : ℕ). visit_all visit (fields width n t) s) (omega arith)

visit_all-push_id : (vs out : List ℕ) → visit_all push_id vs out ≡ ok (out ++ vs)
unfolding visit_all
visit_all-push_id [] out = ap ok (sym (append-nil out))
visit_all-push_id (v ∷ vs) out =
    visit_all-push_id vs (out ++ (v ∷ [])) ∙ ap ok (append_assoc out (v ∷ []) vs)

-- The validated length is enough: no missing byte, so no panic.
pub unpack_ids_lem :
    (bytes : List ℕ) (n width : ℕ)
    → All IsByte bytes
    → width ≤ 32
    → n * width ≤ 8 * length bytes
    → unpack_ids bytes n width ≡ ok (fields width n (le_value bytes))
unfolding unpack_ids
unpack_ids_lem bytes n width hb hw hr =
    unpack_fixed_lem length_not_validated bytes n width push_id [] hb hw hr
    ∙ visit_all-push_id (fields width n (le_value bytes)) []
