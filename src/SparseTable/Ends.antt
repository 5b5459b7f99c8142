-- ===== src/SparseTable/Ends.antt =====
-- Reading the entries of a block ends: the rounds that the model gives it are enough for any bytes.
use holys.Common.{
  ℕ, bit_or, zero, suc, ◌+◌, ◌*◌, ◌/◌, ◌%◌, ◌<◌, ◌≤◌, ◌^◌, ◌≡◌, ◌≢◌, refl, ap, subst, inl, inr,
  arith, ltb, leb, ◌==◌, not, ◌||◌,
}
use holys.Common.{
  List, [], ◌∷◌, length, take, drop, Bool, true, false, Bool-cases, Option, none, some,
}
use holys.Common.{
  Result, ok, err, ensure, context, ◌>>=◌, >>=-eq-ok, ensure-eq-ok, ok-injective, ok-ne-err,
  err-injective,
}
use holys.Common.Word32.{checked_add}
use holys.Common.Bytes.{from_be_bytes}
use holys.Eval.Resolve.{Error as PostingError, pack_posting}
use holys.SparseTable.Errors.{
  Error, stuck, ends_inside, too_short, not_canonical, zero_length, not_ascending, hash_overflows,
  posting_refused, varint_overflows,
}
use holys.SparseTable.Varint.{read_loop, read_varint}
use holys.SparseTable.VarintExact.{read_varint_bounds}
use holys.SparseTable.Entry.{Entry, packed, value_of_tag, read_value, entries_loop, for_each_entry}

-- The rounds did not run out.
abbrev pub IsEnded : {A : Type 0} → Result Error A → Type 0
IsEnded r = r ≢ err stuck

module _ {A B : Type 0} where
  >>=-IsEnded :
      (r : Result Error A) (k : A → Result Error B)
      → IsEnded r
      → ((a : A) → r ≡ ok a → IsEnded (k a))
      → IsEnded (r >>= k)
  >>=-IsEnded (ok a) k h f = f a refl
  >>=-IsEnded (err e) k h f = λ p. h (ap err (err-injective p))

ok-IsEnded : {A : Type 0} (a : A) → IsEnded {A = A} (ok a)
ok-IsEnded a p = ok-ne-err p

ensure-IsEnded : (t : Bool) (e : Error) → e ≢ stuck → IsEnded (ensure t e)
ensure-IsEnded true e h p = ok-ne-err p
ensure-IsEnded false e h p = h (err-injective p)

context-IsEnded : {A : Type 0} (o : Option A) (e : Error) → e ≢ stuck → IsEnded (context o e)
context-IsEnded none e h p = h (err-injective p)
context-IsEnded (some a) e h p = ok-ne-err p

read_loop-IsEnded : (acc shift : ℕ) (bytes : List ℕ) → IsEnded (read_loop acc shift bytes)
unfolding read_loop
read_loop-IsEnded acc shift [] = λ p. ends_stuck (err-injective p)
  where
    ends_stuck : ends_inside ≡ stuck → ⊥
    ends_stuck p = cc
read_loop-IsEnded acc shift (b ∷ bytes) =
    let further = read_loop-IsEnded (bit_or acc (b % 128 * 2 ^ shift % 2 ^ 64)) (shift + 7) bytes in
    >>=-IsEnded (ensure (ltb shift 64) varint_overflows) _
      (ensure-IsEnded (ltb shift 64) varint_overflows (λ p. cc))
      (λ _ _.
        >>=-IsEnded (ensure (ltb shift 63 || leb (b % 128) 1) varint_overflows) _
          (ensure-IsEnded (ltb shift 63 || leb (b % 128) 1) varint_overflows (λ p. cc))
          (λ _ _. elim (Bool-cases (b / 128 % 2 == 0)) [
            | inl t ↦ rw t (ok-IsEnded _)
            | inr f ↦ rw f further
          ]))

read_varint-IsEnded : (block : List ℕ) → IsEnded (read_varint block)
unfolding read_varint
read_varint-IsEnded block = read_loop-IsEnded 0 0 block

packed-IsEnded : (r : Result PostingError ℕ) → IsEnded (packed r)
unfolding packed
packed-IsEnded (ok v) = ok-IsEnded v
packed-IsEnded (err e) = λ p. refused_stuck (err-injective p)
  where
    refused_stuck : posting_refused e ≡ stuck → ⊥
    refused_stuck p = cc

value_of_tag-IsEnded : (tag : ℕ) (rest : List ℕ) → IsEnded (value_of_tag tag rest)
unfolding value_of_tag
value_of_tag-IsEnded tag rest = elim (Bool-cases (tag % 2 == 1)) [
  | inl t ↦ rw t (
      >>=-IsEnded (packed (pack_posting (tag / 2) 1)) _ (packed-IsEnded (pack_posting (tag / 2) 1))
        (λ v _. ok-IsEnded ((v, none), rest)))
  | inr f ↦ rw f (
      >>=-IsEnded (ensure (not (tag / 2 == 1)) not_canonical) _
        (ensure-IsEnded (not (tag / 2 == 1)) not_canonical (λ p. cc))
        (λ _ _. >>=-IsEnded (read_varint rest) _ (read_varint-IsEnded rest) (λ offset _.
          >>=-IsEnded (read_varint offset.1) _ (read_varint-IsEnded offset.1) (λ len _.
            >>=-IsEnded (ensure (ltb 0 len.0) zero_length) _
              (ensure-IsEnded (ltb 0 len.0) zero_length (λ p. cc))
              (λ _ _.
                >>=-IsEnded (packed (pack_posting offset.0 (tag / 2))) _
                  (packed-IsEnded (pack_posting offset.0 (tag / 2)))
                  (λ v _. ok-IsEnded ((v, some len.0), len.1)))))))
]

read_value-IsEnded : (block : List ℕ) → IsEnded (read_value block)
unfolding read_value
read_value-IsEnded block =
    >>=-IsEnded (read_varint block) _ (read_varint-IsEnded block)
      (λ t _. value_of_tag-IsEnded t.0 t.1)

value_of_tag_shorter :
    (tag : ℕ) (rest : List ℕ) (r : (ℕ × Option ℕ) × List ℕ)
    → value_of_tag tag rest ≡ ok r
    → length r.1 ≤ length rest
unfolding value_of_tag
value_of_tag_shorter tag rest r h = elim (Bool-cases (tag % 2 == 1)) [
  | inl t ↦
      let (v, _, e) = >>=-eq-ok (packed (pack_posting (tag / 2) 1)) _ (rw (t, value_of_tag) at h) in
      subst (λ (q : (ℕ × Option ℕ) × List ℕ). length q.1 ≤ length rest) (ok-injective e)
        (omega arith)
  | inr f ↦
      let (_, h1) = ensure-eq-ok (not (tag / 2 == 1)) not_canonical _ (rw (f, value_of_tag) at h) in
      let (offset, ho, h2) = >>=-eq-ok (read_varint rest) _ h1 in
      let (len, hl, h3) = >>=-eq-ok (read_varint offset.1) _ h2 in
      let (_, h4) = ensure-eq-ok (ltb 0 len.0) zero_length _ h3 in
      let (v, _, e) = >>=-eq-ok (packed (pack_posting offset.0 (tag / 2))) _ h4 in
      subst (λ (q : (ℕ × Option ℕ) × List ℕ). length q.1 ≤ length rest) (ok-injective e)
        (omega (
          arith,
          (read_varint_bounds rest offset.0 offset.1 ho).1,
          (read_varint_bounds offset.1 len.0 len.1 hl).1,
        ))
]

read_value_shorter :
    (block : List ℕ) (r : (ℕ × Option ℕ) × List ℕ)
    → read_value block ≡ ok r
    → length r.1 < length block
unfolding read_value
read_value_shorter block r h =
    let (t, ht, h1) = >>=-eq-ok (read_varint block) _ h in
    omega (arith, (read_varint_bounds block t.0 t.1 ht).1, value_of_tag_shorter t.0 t.1 r h1)

module _ {S : Type 0} (visit : Entry → S → Result Error S)
    (visits : (e : Entry) (s : S) → IsEnded (visit e s)) where
  entries_loop-IsEnded :
      (fuel hash : ℕ) (rest : List ℕ) (s : S)
      → length rest ≤ fuel
      → IsEnded (entries_loop visit fuel hash rest s)
  unfolding entries_loop
  entries_loop-IsEnded fuel hash [] s l = ok-IsEnded s
  entries_loop-IsEnded zero hash (b ∷ rest) s l = absurd (omega arith)
  entries_loop-IsEnded (suc fuel) hash (b ∷ rest) s l =
      >>=-IsEnded (read_varint (b ∷ rest)) _ (read_varint-IsEnded (b ∷ rest)) (λ delta hd.
        >>=-IsEnded (ensure (ltb 0 delta.0) not_ascending) _
          (ensure-IsEnded (ltb 0 delta.0) not_ascending (λ p. cc))
          (λ _ _.
            >>=-IsEnded (context (checked_add 64 hash delta.0) hash_overflows) _
              (context-IsEnded (checked_add 64 hash delta.0) hash_overflows (λ p. cc))
              (λ hash' _.
                >>=-IsEnded (read_value delta.1) _ (read_value-IsEnded delta.1) (λ value hv.
                  >>=-IsEnded
                    (visit (record { hash = hash'; value = value.0.0; len = value.0.1 }) s) _
                    (visits (record { hash = hash'; value = value.0.0; len = value.0.1 }) s)
                    (λ s' _. entries_loop-IsEnded fuel hash' value.1 s' (
                      omega (
                        arith,
                        l,
                        (read_varint_bounds (b ∷ rest) delta.0 delta.1 hd).1,
                        read_value_shorter delta.1 value hv,
                      )))))))

  -- Reading the entries of a block, of whatever bytes, ends within the rounds given, whatever is done with
  -- the entries.
  pub for_each_entry-IsEnded : (block : List ℕ) (s : S) → IsEnded (for_each_entry visit block s)
  unfolding for_each_entry
  for_each_entry-IsEnded block s =
      >>=-IsEnded (ensure (ltb 8 (length block)) too_short) _
        (ensure-IsEnded (ltb 8 (length block)) too_short (λ p. cc))
        (λ _ _.
          >>=-IsEnded (read_value (drop 8 block)) _ (read_value-IsEnded (drop 8 block)) (λ value _.
            >>=-IsEnded
              (visit
                (record {
                  hash = from_be_bytes 0 (take 8 block);
                  value = value.0.0;
                  len = value.0.1;
                })
                s)
              _
              (visits
                (record {
                  hash = from_be_bytes 0 (take 8 block);
                  value = value.0.0;
                  len = value.0.1;
                })
                s)
              (λ s' _.
                entries_loop-IsEnded (length value.1) (from_be_bytes 0 (take 8 block)) value.1 s'
                  (omega arith))))
