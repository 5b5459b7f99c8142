-- ===== src/Pack/LineStarts.antt =====
-- Where the line of an offset starts, from reads of the blocks that have newlines.
use holys.Common.{
  ℕ, zero, suc, ◌+◌, ◌-◌, ◌*◌, ◌/◌, ◌<◌, ◌≤◌, ◌^◌, min, ◌≡◌, refl, sym, ap, ap₂, ◌∙◌, inl, inr,
  arith, ltb, lt→ltb, le→leb, ltb→ge, ltb→lt, ==→eq, ◌==◌,
}
use holys.Common.{
  List, [], ◌++◌, length, length-take, length-drop, take, drop, drop_all, false, Bool-cases,
  Option-cases, none, some, if◌then◌else◌,
}
use holys.Common.{take_nil}
use holys.Common.{Result, ok}
use holys.Common.Word32.{saturating_add}
use holys.Candidate.{candidate_block_bytes}
use holys.Format.{PackBlock}
use holys.Pack.Types.{Error}
use holys.Pack.Parts.{Tiled, whole}
use holys.Pack.Lines.{count_newlines, last_newline, has_newlines, line_start_before, locate_in}
use holys.Pack.Newlines.{
  count_newlines-append, count_newlines-le, no_newline, a_newline, last_newline-append,
  last_newline-append_none,
}
use holys.Pack.Newlines.{
  start_of, line_start, Counts, take-add, take_clamp, take_blocks, Counts-length, Counts-block,
  count_before-Counts,
}

-- The end of the block from `a` on, in a document of `n` bytes.
block_end :
    (a b n : ℕ)
    → a ≤ n
    → n < 2 ^ 63
    → (a ≤ min (saturating_add a b) n)
      × (min (min (saturating_add a b) n - a) (n - a) ≡ min b (n - a))
block_end a b n l s = (omega arith, omega arith)

module _ (read : ℕ → ℕ → Result Error (List ℕ)) (content counts : List ℕ)
    (reads : (lo hi : ℕ)
      → lo ≤ hi
      → hi ≤ length content
      → read lo hi ≡ ok (take (hi - lo) (drop lo content)))
    (counted : Counts counts content) (small : length content < 2 ^ 63) where
  line_start_before-line_start :
      (k : ℕ)
      → k ≤ length counts
      → line_start_before read (length content) counts k
        ≡ ok (line_start (take (k * candidate_block_bytes) content))
  unfolding line_start_before
  line_start_before-line_start zero h = unfold last_newline in refl
  line_start_before-line_start (suc p) h =
      let (c, at, e) = Counts-block counts content p counted h in
      let chunk = take candidate_block_bytes (drop (p * candidate_block_bytes) content) in
      let ih = line_start_before-line_start p (omega arith) in
      elim (Bool-cases (c == 0)) [
        | inl z ↦
            rw (at, z)
              (ih ∙ ap ok (sym (skipped (no_newline chunk (omega (arith, e, ==→eq c 0 z))))))
        | inr n ↦
            let (q, last) =
              a_newline chunk (λ (o : count_newlines chunk ≡ 0). ground (arith, n, e, o)) in
            let below : p * candidate_block_bytes ≤ length content = omega (
              arith,
              nonzero c n,
              e,
              count_newlines-le chunk,
              length-take candidate_block_bytes (drop (p * candidate_block_bytes) content),
              length-drop (p * candidate_block_bytes) content,
            ) in
            rw (at, n, read_chunk below, last) (ap ok (sym (found q below last)))
      ]
    where
      skipped :
          last_newline (take candidate_block_bytes (drop (p * candidate_block_bytes) content))
            ≡ none
          → line_start (take (suc p * candidate_block_bytes) content)
            ≡ line_start (take (p * candidate_block_bytes) content)
      skipped e = ap start_of (
          ap last_newline (take_blocks p content)
          ∙ last_newline-append_none (take (p * candidate_block_bytes) content)
              (take candidate_block_bytes (drop (p * candidate_block_bytes) content)) e)

      read_chunk :
          p * candidate_block_bytes ≤ length content
          → read (p * candidate_block_bytes) (
              min
                (saturating_add (p * candidate_block_bytes) candidate_block_bytes)
                (length content))
            ≡ ok (take candidate_block_bytes (drop (p * candidate_block_bytes) content))
      read_chunk l =
          reads (p * candidate_block_bytes)
            (min (saturating_add (p * candidate_block_bytes) candidate_block_bytes)
              (length content))
            (block_end (p * candidate_block_bytes) candidate_block_bytes (length content) l small).0
            (omega arith)
          ∙ ap ok (
              take_clamp _ candidate_block_bytes (drop (p * candidate_block_bytes) content) (
                rw (length-drop (p * candidate_block_bytes) content)
                  (block_end (p * candidate_block_bytes) candidate_block_bytes (length content) l
                    small).1))

      found :
          (q : ℕ)
          → p * candidate_block_bytes ≤ length content
          → last_newline (take candidate_block_bytes (drop (p * candidate_block_bytes) content))
            ≡ some q
          → line_start (take (suc p * candidate_block_bytes) content)
            ≡ p * candidate_block_bytes + suc q
      found q l e =
          ap start_of (
            ap last_newline (take_blocks p content)
            ∙ last_newline-append (take (p * candidate_block_bytes) content)
                (take candidate_block_bytes (drop (p * candidate_block_bytes) content)) q e)
          ∙ omega (arith, length-take (p * candidate_block_bytes) content, l)

      nonzero : (c : ℕ) → (c == 0) ≡ false → 0 < c
      nonzero c n = ground arith

  -- A block whose count is 0, or that is not there, has no newline.
  quiet :
      (block m : ℕ)
      → m ≤ candidate_block_bytes
      → has_newlines counts block ≡ false
      → count_newlines (take m (drop (block * candidate_block_bytes) content)) ≡ 0
  unfolding has_newlines
  quiet block m h f = elim (Bool-cases (ltb block (length counts))) [
    | inl t ↦
        let (c, at, e) =
          Counts-block counts content block counted (ltb→lt block (length counts) t) in
        let rest = drop (block * candidate_block_bytes) content in
        omega (
          arith,
          e,
          ltb→ge 0 c (rw (at, has_newlines) at f),
          count_newlines-append (take m rest) (take (candidate_block_bytes - m) (drop m rest)),
          ap count_newlines (
              sym (ap (λ (t : ℕ). take t rest) (filled m h))
              ∙ take-add m (candidate_block_bytes - m) rest),
        )
    | inr g ↦ none_there (
        drop_all (block * candidate_block_bytes) content
          (omega (arith, Counts-length counts content counted, ltb→ge block (length counts) g)))
  ]
    where
      filled :
          (m : ℕ)
          → m ≤ candidate_block_bytes
          → m + (candidate_block_bytes - m) ≡ candidate_block_bytes
      filled m h = omega (arith, h)

      none_there :
          drop (block * candidate_block_bytes) content ≡ []
          → count_newlines (take m (drop (block * candidate_block_bytes) content)) ≡ 0
      none_there e =
          ap (λ (t : List ℕ). count_newlines (take m t)) e
          ∙ ap count_newlines (take_nil m)
          ∙ unfold count_newlines in refl

  -- What is read of the block of the offset says of its newlines what the block's bytes up to there do.
  read_within :
      (block offset : ℕ)
      → block * candidate_block_bytes ≤ offset
      → offset ≤ block * candidate_block_bytes + candidate_block_bytes
      → offset ≤ length content
      → (within : List ℕ) × ((if has_newlines counts block
            then read (block * candidate_block_bytes) offset
            else ok [])
          ≡ ok within)
        × (count_newlines within
            ≡ count_newlines (
                take
                  (offset - block * candidate_block_bytes)
                  (drop (block * candidate_block_bytes) content)))
        × (last_newline within
            ≡ last_newline (
                take
                  (offset - block * candidate_block_bytes)
                  (drop (block * candidate_block_bytes) content)))
  read_within block offset lo hi inside = elim (Bool-cases (has_newlines counts block)) [
    | inl t ↦ (_, rw t (reads (block * candidate_block_bytes) offset lo inside), refl, refl)
    | inr f ↦
        let none_here =
          quiet block (offset - block * candidate_block_bytes) (omega (arith, hi)) f in
        (
          [],
          rw f refl,
          (unfold count_newlines in sym none_here),
          (unfold last_newline in
              sym (
                no_newline
                  (take (offset - block * candidate_block_bytes)
                    (drop (block * candidate_block_bytes) content))
                  none_here)),
        )
  ]

  -- The line of an offset, whatever blocks without newlines are skipped: its number counts the newlines
  -- before the offset, and it starts behind the last of them.
  pub locate_in-line_start :
      (offset : ℕ)
      → offset ≤ length content
      → locate_in read (length content) counts offset
        ≡ ok (1 + count_newlines (take offset content), line_start (take offset content))
  unfolding locate_in
  locate_in-line_start zero h = unfold count_newlines last_newline in refl
  locate_in-line_start (suc n) h =
      let offset = suc n in
      let block = offset / candidate_block_bytes in
      let lo : block * candidate_block_bytes ≤ offset = omega arith in
      let hi : offset ≤ block * candidate_block_bytes + candidate_block_bytes = omega arith in
      let block_in : block ≤ length counts =
        omega (arith, Counts-length counts content counted, h) in
      let front = take (block * candidate_block_bytes) content in
      let here =
        take (offset - block * candidate_block_bytes)
          (drop (block * candidate_block_bytes) content) in
      let (within, got, same_count, same_last) = read_within block offset lo hi h in
      let split : take offset content ≡ front ++ here =
        ap (λ (t : ℕ). take t content) (rejoined block lo)
        ∙ take-add (block * candidate_block_bytes) (offset - block * candidate_block_bytes)
            content in
      let number : count_newlines front + count_newlines within
          ≡ count_newlines (take offset content) =
        omega (arith, same_count, count_newlines-append front here, ap count_newlines split) in
      let few : count_newlines (take offset content) < 2 ^ 63 =
        omega (arith, count_newlines-le (take offset content), length-take offset content, small) in
      rw
        (
          le→leb offset (length content) h,
          le→leb block (length counts) block_in,
          count_before-Counts block 0 counts content counted (omega (arith, small)),
          got,
          lt→ltb (0 + count_newlines front + count_newlines within) (2 ^ 64)
              (omega (arith, number, few)),
          lt→ltb (0 + count_newlines front + count_newlines within + 1) (2 ^ 64)
              (omega (arith, number, few)),
        )
        (elim (Option-cases (last_newline here)) [
          | inl e ↦
              rw (same_last ∙ e, line_start_before-line_start block block_in)
                (ap₂ (λ (l s : ℕ). ok (l, s)) (omega (arith, number))
                  (sym
                    (ap start_of (ap last_newline split ∙ last_newline-append_none front here e))))
          | inr (at, e) ↦ rw (same_last ∙ e) (
              ap₂ (λ (l s : ℕ). ok (l, s)) (omega (arith, number))
                (omega (arith, length-take (block * candidate_block_bytes) content, h, lo)
                  ∙ sym
                      (ap start_of (ap last_newline split ∙ last_newline-append front here at e))))
        ])
    where
      rejoined :
          (block : ℕ)
          → block * candidate_block_bytes ≤ suc n
          → suc n ≡ block * candidate_block_bytes + (suc n - block * candidate_block_bytes)
      rejoined block l = omega (arith, l)

pub nothing_left :
    (i start rest : ℕ) (blocks : List PackBlock) → Tiled i 0 start rest blocks [] → rest ≡ 0
nothing_left i start _ blocks (whole _ _ _ _) = refl
