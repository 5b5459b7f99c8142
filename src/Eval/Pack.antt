-- ===== src/Eval/Pack.antt =====
-- The packed term value gives its parts back.
use holys.Common.{ℕ, ◌+◌, ◌*◌, ◌^◌, ◌<◌, ◌≡◌, ap₂, ◌∙◌, arith, lt→ltb, ok, ltb, bit_or}
use holys.Common.{ltb→lt, ensure-eq-ok, ok-injective, sym, ap}
use holys.Common.Bits.{bit_or-shift, bit_and-mask}
use holys.Eval.Resolve.{pack_posting, unpack_posting, offset_too_large, count_too_large}
use native.Mathlib.Nat.{mod-eq_of_lt}

-- Whatever pair `pack_posting` accepts, `unpack_posting` gives back.
pub unpack-pack :
    (offset count value : ℕ)
    → pack_posting offset count ≡ ok value
    → unpack_posting value ≡ (offset, count)
unfolding pack_posting unpack_posting
unpack-pack offset count value h =
    let (ho, h') = ensure-eq-ok (ltb offset (2 ^ 40)) offset_too_large _ h in
    let (hc, e) = ensure-eq-ok (ltb count (2 ^ 24)) count_too_large _ h' in
    let o = ltb→lt offset (2 ^ 40) ho in
    let c = ltb→lt count (2 ^ 24) hc in
    let word : value ≡ offset + count * 2 ^ 40 =
      sym (ok-injective e)
      ∙ ap (bit_or offset) (mod-eq_of_lt (omega arith))
      ∙ bit_or-shift 40 offset count o in
    ap₂ (λ (x y : ℕ). (x, y)) (bit_and-mask 40 value ∙ omega arith) (omega arith)

-- Exactly the pairs within the format's limits are accepted.
pub pack_accepts :
    (offset count : ℕ)
    → offset < 2 ^ 40
    → count < 2 ^ 24
    → pack_posting offset count ≡ ok (offset + count * 2 ^ 40)
unfolding pack_posting
pack_accepts offset count o c =
    rw (lt→ltb offset (2 ^ 40) o, lt→ltb count (2 ^ 24) c)
      (ap ok (ap (bit_or offset) (mod-eq_of_lt (omega arith)) ∙ bit_or-shift 40 offset count o))
