-- ===== src/PostingsTable/Written.antt =====
-- What PostingsTableWriter has hashed: the data in blocks of 64 KiB, however it was cut into writes.
use holys.Common.{
  ℕ, zero, suc, ◌+◌, ◌-◌, ◌<◌, ◌≤◌, min, ◌≡◌, refl, sym, ap, subst, ◌∙◌, inl, inr, arith, ◌==◌,
  ==→eq,
}
use holys.Common.{
  List, [], ◌∷◌, ◌++◌, append-nil, append_assoc, map, length, length-append, length-take,
  length-drop, take, drop, take-append-drop, All, All-append, false, Bool-cases,
}
use holys.PostingsTable.Writer.{
  PostingsTableWriter, new, verify_block_bytes, table_bytes, close_block, feed, write_loop, write,
  write_all,
}

-- A writer that was fed: the full blocks that it hashed, and what waits.
pub record IsHashed (sha256 : List ℕ → List ℕ) (w : PostingsTableWriter) (fed : List ℕ)
    : Type 0 where
  pub done : List (List ℕ)
  pub whole : fed ≡ table_bytes done ++ w.hasher
  pub full : All (λ (b : List ℕ). length b ≡ verify_block_bytes) done
  pub hashed : w.hashes ≡ map sha256 done
  pub filled : w.block_fill ≡ length w.hasher
  pub room : length w.hasher < verify_block_bytes

table_bytes-append :
    (xs ys : List (List ℕ)) → table_bytes (xs ++ ys) ≡ table_bytes xs ++ table_bytes ys
table_bytes-append [] ys = refl
table_bytes-append (x ∷ xs) ys =
    ap (◌++◌ x) (table_bytes-append xs ys) ∙ sym (append_assoc x (table_bytes xs) (table_bytes ys))

map-append : (f : List ℕ → List ℕ) (xs ys : List (List ℕ)) → map f (xs ++ ys) ≡ map f xs ++ map f ys
map-append f [] ys = refl
map-append f (x ∷ xs) ys = ap (◌∷◌ (f x)) (map-append f xs ys)

not_full :
    (n : ℕ) {m : ℕ}
    → (n == verify_block_bytes) ≡ false
    → n ≤ verify_block_bytes
    → m ≡ n
    → m < verify_block_bytes
not_full n f l e = ground (arith, e)

module _ (sha256 : List ℕ → List ℕ) where
  pub new-IsHashed : IsHashed sha256 new []
  unfolding new
  new-IsHashed = record {
    done = [];
    whole = refl;
    full = tt;
    hashed = refl;
    filled = refl;
    room = omega arith;
  }

  feed-IsHashed :
      (taken fed : List ℕ) (w : PostingsTableWriter)
      → IsHashed sha256 w fed
      → length taken ≤ verify_block_bytes - w.block_fill
      → IsHashed sha256 (feed sha256 taken w) (fed ++ taken)
  unfolding feed close_block
  feed-IsHashed taken fed w i l =
      elim (Bool-cases (w.block_fill + length taken == verify_block_bytes)) [
        | inl t ↦
            rw (t, feed)
              record {
                done = i.done ++ ((w.hasher ++ taken) ∷ []);
                whole =
                    ap (λ (d : List ℕ). d ++ taken) i.whole
                    ∙ append_assoc (table_bytes i.done) w.hasher taken
                    ∙ sym (
                        append-nil (table_bytes (i.done ++ ((w.hasher ++ taken) ∷ [])))
                        ∙ table_bytes-append i.done ((w.hasher ++ taken) ∷ [])
                        ∙ ap (◌++◌ (table_bytes i.done)) (append-nil (w.hasher ++ taken)));
                full =
                    All-append (λ (b : List ℕ). length b ≡ verify_block_bytes) i.done
                      ((w.hasher ++ taken) ∷ []) i.full
                      (
                        omega (
                          arith,
                          length-append w.hasher taken,
                          i.filled,
                          ==→eq (w.block_fill + length taken) verify_block_bytes t,
                        ),
                        tt,
                      );
                hashed =
                    ap (λ (h : List (List ℕ)). h ++ (sha256 (w.hasher ++ taken) ∷ [])) i.hashed
                    ∙ sym (map-append sha256 i.done ((w.hasher ++ taken) ∷ []));
                filled = refl;
                room = omega arith;
              }
        | inr f ↦
            rw (f, feed)
              record {
                done = i.done;
                whole =
                    ap (λ (d : List ℕ). d ++ taken) i.whole
                    ∙ append_assoc (table_bytes i.done) w.hasher taken;
                full = i.full;
                hashed = i.hashed;
                filled = omega (arith, i.filled, length-append w.hasher taken);
                room =
                    not_full (w.block_fill + length taken) f (omega (arith, l, i.filled, i.room))
                      (length-append w.hasher taken ∙ omega (arith, i.filled));
              }
      ]

  write_loop-IsHashed :
      (fuel : ℕ) (bytes fed : List ℕ) (w : PostingsTableWriter)
      → length bytes ≤ fuel
      → IsHashed sha256 w fed
      → IsHashed sha256 (write_loop sha256 fuel bytes w) (fed ++ bytes)
  unfolding write_loop
  write_loop-IsHashed fuel [] fed w l i = subst (IsHashed sha256 w) (sym (append-nil fed)) i
  write_loop-IsHashed zero (b ∷ rest) fed w l i = absurd (omega arith)
  write_loop-IsHashed (suc fuel) (b ∷ rest) fed w l i =
      let n = min (length (b ∷ rest)) (verify_block_bytes - w.block_fill) in
      let taken = take n (b ∷ rest) in
      subst (IsHashed sha256 (write_loop sha256 fuel (drop n (b ∷ rest)) (feed sha256 taken w)))
        (append_assoc fed taken (drop n (b ∷ rest)) ∙ ap (◌++◌ fed) (take-append-drop n (b ∷ rest)))
        (write_loop-IsHashed fuel (drop n (b ∷ rest)) (fed ++ taken) (feed sha256 taken w)
          (omega (arith, l, length-drop n (b ∷ rest), i.filled, i.room))
          (feed-IsHashed taken fed w i (omega (arith, length-take n (b ∷ rest)))))

  -- The loop hashes: it leaves what was counted and written.
  write_loop-data_len :
      (fuel : ℕ) (bytes : List ℕ) (w : PostingsTableWriter)
      → (write_loop sha256 fuel bytes w).data_len ≡ w.data_len
  unfolding write_loop feed close_block
  write_loop-data_len fuel [] w = refl
  write_loop-data_len zero (b ∷ rest) w = refl
  write_loop-data_len (suc fuel) (b ∷ rest) w =
      let n = min (length (b ∷ rest)) (verify_block_bytes - w.block_fill) in
      write_loop-data_len fuel (drop n (b ∷ rest)) (feed sha256 (take n (b ∷ rest)) w)
      ∙ fed_len (take n (b ∷ rest))
    where
      fed_len : (taken : List ℕ) → (feed sha256 taken w).data_len ≡ w.data_len
      fed_len taken = elim (Bool-cases (w.block_fill + length taken == verify_block_bytes)) [
        | inl t ↦ rw (t, feed) refl
        | inr f ↦ rw (f, feed) refl
      ]

  pub write_all-IsHashed :
      (parts : List (List ℕ)) (fed : List ℕ) (w : PostingsTableWriter)
      → IsHashed sha256 w fed
      → w.data_len ≡ length fed
      → IsHashed sha256 (write_all sha256 parts w) (fed ++ table_bytes parts)
        × ((write_all sha256 parts w).data_len ≡ length (fed ++ table_bytes parts))
  unfolding write_all write
  write_all-IsHashed [] fed w i e =
      (subst (IsHashed sha256 w) (sym (append-nil fed)) i, e ∙ ap length (sym (append-nil fed)))
  write_all-IsHashed (bytes ∷ parts) fed w i e =
      let given : PostingsTableWriter = record w { out = w.out ++ bytes } in
      let same : IsHashed sha256 given fed = record {
        done = i.done;
        whole = i.whole;
        full = i.full;
        hashed = i.hashed;
        filled = i.filled;
        room = i.room;
      } in
      let j = write_loop-IsHashed (length bytes) bytes fed given (omega arith) same in
      let (k, l) =
        write_all-IsHashed parts (fed ++ bytes) (write sha256 bytes w)
          (record {
            done = j.done;
            whole = j.whole;
            full = j.full;
            hashed = j.hashed;
            filled = j.filled;
            room = j.room;
          })
          (omega
            (arith, write_loop-data_len (length bytes) bytes given, e, length-append fed bytes)) in
      (
        subst (IsHashed sha256 (write_all sha256 parts (write sha256 bytes w)))
            (append_assoc fed bytes (table_bytes parts)) k,
        l ∙ ap length (append_assoc fed bytes (table_bytes parts)),
      )
