-- ===== src/PostingsTable/Verified.antt =====
-- Every block of the data that was written verifies against the hashes of the table.
use holys.Common.{
  ℕ, zero, suc, ◌+◌, ◌-◌, ◌*◌, ◌<◌, min, ◌≡◌, refl, sym, ap, ◌∙◌, inl, inr, arith, ltb, ge→ltb,
  ltb→ge, ==_refl,
}
use holys.Common.{
  List, [], ◌∷◌, ◌++◌, append-nil, append_assoc, map, length, length-append, length-take,
  length-drop, take, drop, take_all, take-append, drop-append, drop-drop, All, true, Bool-cases,
  get_elem?, some,
}
use holys.Common.{ok}
use holys.Grams.{bytes_eq}
use holys.PostingsTable.Writer.{
  PostingsTableWriter, new, verify_block_bytes, table_bytes, close_block, write_all, close_last,
}
use holys.PostingsTable.Index.{PostingsTableIndex, block_range, verify}
use holys.PostingsTable.Written.{IsHashed, new-IsHashed, write_all-IsHashed}

bytes_eq_refl : (xs : List ℕ) → bytes_eq xs xs ≡ true
unfolding bytes_eq
bytes_eq_refl [] = refl
bytes_eq_refl (x ∷ xs) = rw (==_refl x) (bytes_eq_refl xs)

module _ (sha256 : List ℕ → List ℕ) where
  -- The hash of a block, be it full or the last.
  hash_at :
      (done : List (List ℕ)) (pending : List ℕ) (hashes : List (List ℕ)) (i : ℕ)
      → All (λ (b : List ℕ). length b ≡ verify_block_bytes) done
      → length pending < verify_block_bytes
      → (0 < length pending → get_elem? hashes 0 ≡ some (sha256 pending))
      → i * verify_block_bytes < length (table_bytes done ++ pending)
      → get_elem? (map sha256 done ++ hashes) i
        ≡ some (
            sha256 (
              take verify_block_bytes
                (drop (i * verify_block_bytes) (table_bytes done ++ pending))))
  hash_at [] pending hashes zero f r h l =
      h (omega arith)
      ∙ ap (λ (b : List ℕ). some (sha256 b))
          (sym (take_all verify_block_bytes pending (omega (arith, r))))
  hash_at [] pending hashes (suc i) f r h l = absurd (omega (arith, r, l))
  hash_at (d ∷ done) pending hashes zero (e, f) r h l =
      ap (λ (b : List ℕ). some (sha256 b))
        (sym (
          ap (take verify_block_bytes) (append_assoc d (table_bytes done) pending)
          ∙ ap (λ (n : ℕ). take n (d ++ (table_bytes done ++ pending))) (sym e)
          ∙ take-append d (table_bytes done ++ pending)))
  hash_at (d ∷ done) pending hashes (suc i) (e, f) r h l =
      hash_at done pending hashes i f r h (
        omega (
          arith,
          l,
          e,
          ap length (append_assoc d (table_bytes done) pending),
          length-append d (table_bytes done ++ pending),
        ))
      ∙ ap (λ (x : List ℕ). some (sha256 (take verify_block_bytes x))) (sym (behind i))
    where
      behind :
          (i : ℕ)
          → drop (suc i * verify_block_bytes) ((d ++ table_bytes done) ++ pending)
            ≡ drop (i * verify_block_bytes) (table_bytes done ++ pending)
      behind i =
          ap (drop (suc i * verify_block_bytes)) (append_assoc d (table_bytes done) pending)
          ∙ ap (λ (n : ℕ). drop n (d ++ (table_bytes done ++ pending))) (next_block i)
          ∙ sym (drop-drop (i * verify_block_bytes) (length d) (d ++ (table_bytes done ++ pending)))
          ∙ ap (drop (i * verify_block_bytes)) (drop-append d (table_bytes done ++ pending))
        where
          next_block : (i : ℕ) → suc i * verify_block_bytes ≡ length d + i * verify_block_bytes
          next_block i = omega (arith, e)

  -- The table that a writer leaves.
  abbrev pub table_of : PostingsTableWriter → PostingsTableIndex
  table_of w = record { data_len = w.data_len; hashes = w.hashes }

  close_last-hash :
      (w : PostingsTableWriter) (fed : List ℕ) (i : ℕ)
      → IsHashed sha256 w fed
      → i * verify_block_bytes < length fed
      → get_elem? (close_last sha256 w).hashes i
        ≡ some (sha256 (take verify_block_bytes (drop (i * verify_block_bytes) fed)))
  unfolding close_last close_block
  close_last-hash w fed i k l = elim (Bool-cases (ltb 0 w.block_fill)) [
    | inl t ↦
        rw (t, close_last)
          (ap (λ (h : List (List ℕ)). get_elem? (h ++ (sha256 w.hasher ∷ [])) i) k.hashed
            ∙ hash_at k.done w.hasher (sha256 w.hasher ∷ []) i k.full k.room (λ _. refl)
                (omega (arith, l, ap length k.whole))
            ∙ ap
                (λ (x : List ℕ).
                  some (sha256 (take verify_block_bytes (drop (i * verify_block_bytes) x))))
                (sym k.whole))
    | inr f ↦
        rw (f, close_last)
          (ap (λ (h : List (List ℕ)). get_elem? h i)
              (k.hashed ∙ sym (append-nil (map sha256 k.done)))
            ∙ hash_at k.done w.hasher [] i k.full k.room
                (λ p. absurd (omega (arith, p, k.filled, ltb→ge 0 w.block_fill f)))
                (omega (arith, l, ap length k.whole))
            ∙ ap
                (λ (x : List ℕ).
                  some (sha256 (take verify_block_bytes (drop (i * verify_block_bytes) x))))
                (sym k.whole))
  ]

  close_last-data_len : (w : PostingsTableWriter) → (close_last sha256 w).data_len ≡ w.data_len
  unfolding close_last close_block
  close_last-data_len w = elim (Bool-cases (ltb 0 w.block_fill)) [
    | inl t ↦ rw (t, close_last) refl
    | inr f ↦ rw (f, close_last) refl
  ]

  -- However data is cut into writes, every block of it of 64 KiB, the last one as long as the data goes,
  -- verifies against the table that the writer leaves.
  pub verify-write_all :
      (parts : List (List ℕ)) (i : ℕ)
      → i * verify_block_bytes < length (table_bytes parts)
      → verify sha256
          (table_of (close_last sha256 (write_all sha256 parts new)))
          i
          (take verify_block_bytes (drop (i * verify_block_bytes) (table_bytes parts)))
        ≡ ok tt
  unfolding verify block_range
  verify-write_all parts i l =
      let w = write_all sha256 parts new in
      let (k, size) =
        write_all-IsHashed sha256 parts [] new (new-IsHashed sha256) (unfold new in refl) in
      let len = close_last-data_len w ∙ size in
      let block = take verify_block_bytes (drop (i * verify_block_bytes) (table_bytes parts)) in
      rw
        (
          len,
          ge→ltb (length (table_bytes parts)) (i * verify_block_bytes) (omega (arith, l)),
          block_len,
          ==_refl (min verify_block_bytes (length (table_bytes parts) - i * verify_block_bytes)),
          close_last-hash w (table_bytes parts) i k l,
          bytes_eq_refl (sha256 block),
        )
        refl
    where
      block_len :
          length (take verify_block_bytes (drop (i * verify_block_bytes) (table_bytes parts)))
          ≡ min verify_block_bytes (length (table_bytes parts) - i * verify_block_bytes)
      block_len = omega (
        arith,
        length-take verify_block_bytes (drop (i * verify_block_bytes) (table_bytes parts)),
        length-drop (i * verify_block_bytes) (table_bytes parts),
      )
