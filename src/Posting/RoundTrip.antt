-- ===== src/Posting/RoundTrip.antt =====
-- Decoding an encoded posting block gives the posting list back, in each of its three forms.
use holys.Common.{ℕ, ◌+◌, ◌-◌, ◌*◌, ◌/◌, ◌%◌, ◌^◌, ◌≤◌, ◌<◌, ◌≡◌, refl, ap, ◌∙◌, arith, true}
use holys.Common.{
  List, [], length, All-map, Bool-cases, inl, inr, ==→eq, ltb, ◌==◌, ==_refl, le→leb,
}
use holys.Common.{ok}
use holys.Common.Word32.{IsU32, bit_width_bounds, bit_width-fits}
use holys.Common.Ascending.{IsAscending, IsBelow, length-AscendsFrom}
use holys.BitPack.{pack_ids, unpack_ids, pack_fixed}
use holys.BitPack.Digits.{fields, fields-field_value, Fits}
use holys.BitPack.PackBytes.{pack_fixed_lem, pack_fixed-IsByte}
use holys.BitPack.Unpack.{unpack_ids_lem}
use holys.Posting.{posting_id_bits, stored_id_count, posting_block_len, complement, unpacked}
use holys.Posting.{encode_posting_block, decode_posting_block}
use holys.Posting.Complement.{
  length-complement, complement-AscendsFrom, complement-complement, id_range-full,
}
use holys.Posting.Complement.{windows_ascend-AscendsFrom, last_below-IsBelow}
use native.Mathlib.Nat.{mod-eq_of_lt, zero-mul}

module _ (doc_count : ℕ) (u32 : IsU32 doc_count) where
  bits_bound : posting_id_bits doc_count ≤ 32
  unfolding posting_id_bits
  bits_bound = (bit_width_bounds (doc_count - 1)).1

  ids_fit : (ids : List ℕ) → IsBelow doc_count ids → Fits (posting_id_bits doc_count) ids
  unfolding posting_id_bits
  ids_fit ids b =
      All-map (λ x. x < doc_count) _
        (λ x h. omega (arith, bit_width-fits (doc_count - 1) (omega arith))) ids b

  -- What is stored is read back, and has the length that the dictionary's counts give.
  stored_lem :
      (ids : List ℕ)
      → IsBelow doc_count ids
      → (unpack_ids
            (pack_ids [] ids (posting_id_bits doc_count))
            (length ids)
            (posting_id_bits doc_count)
          ≡ ok ids)
        × (length (pack_ids [] ids (posting_id_bits doc_count))
            ≡ (length ids * posting_id_bits doc_count + 7) / 8)
  stored_lem ids b =
      let width : ℕ = posting_id_bits doc_count in
      let fit = ids_fit ids b in
      let same : pack_ids [] ids width ≡ pack_fixed ids width [] =
        unfold pack_ids pack_fixed in refl in
      let (number, size) = pack_fixed_lem ids width fit bits_bound in
      (
        ap (λ (bs : List ℕ). unpack_ids bs (length ids) width) same
            ∙ unpack_ids_lem (pack_fixed ids width []) (length ids) width
                (pack_fixed-IsByte ids width) bits_bound (omega (arith, size))
            ∙ ap ok (ap (fields width (length ids)) number ∙ fields-field_value width ids fit),
        ap length same ∙ size,
      )

no_bytes : (w : ℕ) → (0 == (0 * w + 7) / 8) ≡ true
no_bytes w = ground (arith, zero-mul w)

IsBelow-zero_add : (n : ℕ) (ids : List ℕ) → IsBelow n ids → IsBelow (0 + n) ids
IsBelow-zero_add n ids b = All-map (λ x. x < n) (λ x. x < 0 + n) (λ x h. omega arith) ids b

zero_add-IsBelow : (n : ℕ) (ids : List ℕ) → IsBelow (0 + n) ids → IsBelow n ids
zero_add-IsBelow n ids b = All-map (λ x. x < 0 + n) (λ x. x < n) (λ x h. omega arith) ids b

-- Decoding gives back every ascending list of ids below the document count, a u32: a full list, a
-- list in at most half the documents, and one that is stored by its absent ids.
pub decode-encode_block :
    (ids : List ℕ) (doc_count : ℕ)
    → IsAscending ids
    → IsBelow doc_count ids
    → IsU32 doc_count
    → decode_posting_block (encode_posting_block [] ids doc_count) (length ids) doc_count ≡ ok ids
unfolding encode_posting_block decode_posting_block posting_block_len stored_id_count unpacked
decode-encode_block ids doc_count a b u32 =
    let room = length-AscendsFrom 0 doc_count ids a b (omega arith) in
    let small : length ids % 2 ^ 32 ≡ length ids = mod-eq_of_lt (omega arith) in
    elim (Bool-cases (length ids == doc_count)) [
      | inl full ↦
          rw (small, full, le→leb (length ids) doc_count (omega arith))
            (rw (no_bytes (posting_id_bits doc_count)) (
              ap ok (
                id_range-full doc_count 0 ids a (IsBelow-zero_add doc_count ids b)
                  (==→eq (length ids) doc_count full))))
      | inr part ↦ elim (Bool-cases (ltb doc_count (length ids * 2))) [
        | inl dense ↦
            let absent : List ℕ = complement doc_count 0 ids in
            let (ca, cb) = complement-AscendsFrom doc_count 0 ids in
            let cb' = zero_add-IsBelow doc_count absent cb in
            let (r, l) = stored_lem doc_count u32 absent cb' in
            let stored : doc_count - length ids ≡ length absent =
              omega
                (arith, length-complement doc_count 0 ids a (IsBelow-zero_add doc_count ids b)) in
            rw (small, part, dense, le→leb (length ids) doc_count (omega arith), stored, l, ==_refl)
              (rw
                (r, windows_ascend-AscendsFrom 0 absent ca, last_below-IsBelow doc_count absent cb')
                (ap ok
                  (complement-complement doc_count 0 ids a (IsBelow-zero_add doc_count ids b))))
        | inr thin ↦
            let (r, l) = stored_lem doc_count u32 ids b in
            rw (small, part, thin, le→leb (length ids) doc_count (omega arith), l, ==_refl)
              (rw (r, windows_ascend-AscendsFrom 0 ids a, last_below-IsBelow doc_count ids b))
      ]
    ]
