-- ===== src/BitPack/Visits.antt =====
-- The unpacker on any bytes: what its visitor keeps holds of the result, and its errors are the
-- visitor's or the missing byte.
use holys.Common.{
  ℕ, zero, suc, ◌+◌, ◌*◌, ◌-◌, ◌/◌, ◌%◌, ◌^◌, ◌≡◌, subst, bit_and, bit_or, arith, ltb,
}
use holys.Common.{
  List, [], ◌∷◌, Result, ok, err, >>=-eq-ok, ok-injective, err-injective, ok-ne-err, Result-cases,
  inl, inr, Bool-cases,
}
use holys.Common.Bits.{mask}
use holys.BitPack.{refill, unpack_loop, unpack_fixed}

unpack_loop_inv :
    {E S : Type 0} (P : ℕ → S → Type 0) (e : E) (width : ℕ) (visit : ℕ → S → Result E S)
    → ((k v : ℕ) (s s' : S) → P k s → visit v s ≡ ok s' → P (suc k) s')
    → (n : ℕ) (acc filled : ℕ) (input : List ℕ) (k : ℕ) (s s' : S) → P k s
    → unpack_loop e n width visit acc filled input s ≡ ok s'
    → P (n + k) s'
unfolding unpack_loop
unpack_loop_inv P e width visit keep zero acc filled input k s s' p h =
    subst (λ (t : ℕ). P t s') (omega arith) (subst (P k) (ok-injective h) p)
unpack_loop_inv P e width visit keep (suc n) acc filled input k s s' p h =
    let (r, _, h') = >>=-eq-ok (refill e width acc filled input) _ h in
    let (s1, hv, h'') = >>=-eq-ok (visit (bit_and r.0 (mask width) % 2 ^ 32) s) _ h' in
    subst (λ (t : ℕ). P t s') (omega arith)
      (unpack_loop_inv P e width visit keep n (r.0 / 2 ^ width) (r.1 - width) r.2 (suc k) s1 s'
        (keep k (bit_and r.0 (mask width) % 2 ^ 32) s s1 p hv) h'')

-- A property of states, indexed by the number of visits, that every visit carries on.
pub unpack_fixed_inv :
    {E S : Type 0} (P : ℕ → S → Type 0) (e : E) (width : ℕ) (visit : ℕ → S → Result E S)
    → ((k v : ℕ) (s s' : S) → P k s → visit v s ≡ ok s' → P (suc k) s')
    → (bytes : List ℕ) (n k : ℕ) (s s' : S) → P k s
    → unpack_fixed e bytes n width visit s ≡ ok s'
    → P (n + k) s'
unfolding unpack_fixed
unpack_fixed_inv P e width visit keep bytes n k s s' p h =
    unpack_loop_inv P e width visit keep n 0 0 bytes k s s' p h

refill_err :
    {E : Type 0} (Q : E → Type 0) (e : E) (width acc filled : ℕ) (input : List ℕ) (x : E)
    → Q e
    → refill e width acc filled input ≡ err x
    → Q x
unfolding refill
refill_err Q e width acc filled [] x q h = elim (Bool-cases (ltb filled width)) [
  | inl t ↦ subst Q (err-injective (rw t at h)) q
  | inr f ↦ absurd (ok-ne-err (rw f at h))
]
refill_err Q e width acc filled (b ∷ input) x q h = elim (Bool-cases (ltb filled width)) [
  | inl t ↦
      refill_err Q e width (bit_or acc (b * 2 ^ filled % 2 ^ 64)) (filled + 8) input x q (rw t at h)
  | inr f ↦ absurd (ok-ne-err (rw f at h))
]

unpack_loop_err :
    {E S : Type 0} (Q : E → Type 0) (e : E) (width : ℕ) (visit : ℕ → S → Result E S)
    → Q e
    → ((v : ℕ) (s : S) (x : E) → visit v s ≡ err x → Q x)
    → (n : ℕ) (acc filled : ℕ) (input : List ℕ) (s : S) (x : E)
    → unpack_loop e n width visit acc filled input s ≡ err x
    → Q x
unfolding unpack_loop
unpack_loop_err Q e width visit q qs zero acc filled input s x h = absurd (ok-ne-err h)
unpack_loop_err Q e width visit q qs (suc n) acc filled input s x h =
    elim (Result-cases (refill e width acc filled input)) [
      | inl (r, hr) ↦ elim (Result-cases (visit (bit_and r.0 (mask width) % 2 ^ 32) s)) [
        | inl (s1, hs) ↦
            unpack_loop_err Q e width visit q qs n (r.0 / 2 ^ width) (r.1 - width) r.2 s1 x
              (rw (hr, hs) at h)
        | inr (y, hs) ↦ subst Q (err-injective (rw (hr, hs) at h)) (qs _ s y hs)
      ]
      | inr (y, hr) ↦
          subst Q (err-injective (rw hr at h)) (refill_err Q e width acc filled input y q hr)
    ]

pub unpack_fixed_err :
    {E S : Type 0} (Q : E → Type 0) (e : E) (width : ℕ) (visit : ℕ → S → Result E S)
    → Q e
    → ((v : ℕ) (s : S) (x : E) → visit v s ≡ err x → Q x)
    → (bytes : List ℕ) (n : ℕ) (s : S) (x : E) → unpack_fixed e bytes n width visit s ≡ err x
    → Q x
unfolding unpack_fixed
unpack_fixed_err Q e width visit q qs bytes n s x h =
    unpack_loop_err Q e width visit q qs n 0 0 bytes s x h
