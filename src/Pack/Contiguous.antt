-- ===== src/Pack/Contiguous.antt =====
-- Runs of blocks: the blocks of a run lie end to end in one pack, and every block asked for is in one run.
use holys.Common.{
  ℕ, zero, suc, ◌+◌, ◌<◌, ◌≤◌, ◌^◌, ◌≡◌, refl, sym, ap, subst, ◌∙◌, ◌⊎◌, inl, inr, arith, leb,
  lt→ltb, leb→le, ==→eq, &&→and, ◌&&◌, ◌==◌,
}
use holys.Common.{
  List, [], ◌∷◌, ◌++◌, append-nil, append_assoc, length, get_elem?, get_elem?-lt, All, true,
  Bool-cases, Option, none, some,
}
use holys.Common.{ok}
use holys.Common.Word32.{saturating_add}
use holys.Format.{PackBlock}
use holys.Pack.Types.{range_bytes}
use holys.Pack.Batches.{PackRun, contiguous, single_run, add_to_runs, runs_loop, block_runs}

-- The blocks lie end to end in the pack, from `offset` to `end`.
abbrev pub Chained : List PackBlock → ℕ → ℕ → List ℕ → ℕ → Type 0
Chained blocks pack offset [] end = offset ≡ end
Chained blocks pack offset (id ∷ ids) end =
    (b : PackBlock) × (get_elem? blocks id ≡ some b)
    × (b.pack ≡ pack)
    × (b.offset ≡ offset)
    × Chained blocks pack (offset + b.compressed_len) ids end

-- A run is the bytes of its blocks; it has 8 MiB at most, or is one block.
abbrev pub IsRun : List PackBlock → PackRun → Type 0
IsRun blocks run =
    ((length run.blocks ≡ 1) ⊎ (run.len ≤ range_bytes))
    × (run.offset + run.len < 2 ^ 64)
    × Chained blocks run.pack run.offset run.blocks (run.offset + run.len)

abbrev pub run_ids : List PackRun → List ℕ
run_ids [] = []
run_ids (run ∷ runs) = run.blocks ++ run_ids runs

Chained-snoc :
    (blocks : List PackBlock) (pack offset : ℕ) (ids : List ℕ) (end id : ℕ) (b : PackBlock)
    → Chained blocks pack offset ids end
    → get_elem? blocks id ≡ some b
    → b.pack ≡ pack
    → b.offset ≡ end
    → Chained blocks pack offset (ids ++ (id ∷ [])) (end + b.compressed_len)
Chained-snoc blocks pack offset [] end id b c at p o =
    (b, at, p, omega (arith, o, c), omega (arith, c))
Chained-snoc blocks pack offset (i ∷ ids) end id b (d, at', p', o', c) at p o =
    (d, at', p', o', Chained-snoc blocks pack (offset + d.compressed_len) ids end id b c at p o)

-- What the test of contiguity tells, where the end of the run is a u64.
contiguous-parts :
    (run : PackRun) (b : PackBlock)
    → run.offset + run.len < 2 ^ 64
    → contiguous run b ≡ true
    → (run.pack ≡ b.pack)
      × (run.offset + run.len ≡ b.offset)
      × (run.len + b.compressed_len ≤ range_bytes)
unfolding contiguous
contiguous-parts run b word t =
    let (p, t') =
      &&→and (run.pack == b.pack)
        (saturating_add run.offset run.len == b.offset
          && leb (saturating_add run.len b.compressed_len) range_bytes)
        t in
    let (o, l) =
      &&→and (saturating_add run.offset run.len == b.offset)
        (leb (saturating_add run.len b.compressed_len) range_bytes) t' in
    (
      ==→eq run.pack b.pack p,
      omega (arith, word, ==→eq (saturating_add run.offset run.len) b.offset o),
      omega (arith, leb→le (saturating_add run.len b.compressed_len) range_bytes l),
    )

module _ (blocks : List PackBlock) (id : ℕ) (b : PackBlock) (at : get_elem? blocks id ≡ some b)
    (fits : b.offset + b.compressed_len < 2 ^ 64) where
  single_run-IsRun : IsRun blocks (single_run id b)
  single_run-IsRun = (inl refl, fits, (b, at, refl, refl, refl))

  add_to_runs-IsRun :
      (runs : List PackRun)
      → All (IsRun blocks) runs
      → (runs' : List PackRun) × (add_to_runs id b runs ≡ ok runs')
        × (run_ids runs' ≡ run_ids runs ++ (id ∷ []))
        × All (IsRun blocks) runs'
  unfolding add_to_runs
  add_to_runs-IsRun [] a = (single_run id b ∷ [], refl, refl, (single_run-IsRun, tt))
  add_to_runs-IsRun (run ∷ []) ((small, word, chain), a) = elim (Bool-cases (contiguous run b)) [
    | inr f ↦ (
      run ∷ single_run id b ∷ [],
      rw f refl,
      sym (append_assoc run.blocks [] (id ∷ [])),
      ((small, word, chain), (single_run-IsRun, tt)),
    )
    | inl t ↦
        let (pack, offset, len) = contiguous-parts run b word t in
        (
          record run { len = run.len + b.compressed_len; blocks = run.blocks ++ (id ∷ []) } ∷ [],
          rw (t, lt→ltb (run.len + b.compressed_len) (2 ^ 64) (omega (arith, len))) refl,
          append_assoc run.blocks (id ∷ []) [] ∙ sym (append_assoc run.blocks [] (id ∷ [])),
          (
            (
              inr len,
              omega (arith, offset, fits),
              subst (Chained blocks run.pack run.offset (run.blocks ++ (id ∷ []))) (omega arith) (
                  Chained-snoc blocks run.pack run.offset run.blocks (run.offset + run.len) id b
                    chain at (sym pack) (sym offset)),
            ),
            tt,
          ),
        )
  ]
  add_to_runs-IsRun (run ∷ next ∷ runs) (r, a) =
      let (runs', made, ids, all) = add_to_runs-IsRun (next ∷ runs) a in
      (
        run ∷ runs',
        rw made refl,
        ap (◌++◌ run.blocks) ids ∙ sym (append_assoc run.blocks (run_ids (next ∷ runs)) (id ∷ [])),
        (r, all),
      )

All-get_elem? :
    (P : PackBlock → Type 0) (bs : List PackBlock) (i : ℕ) (c : PackBlock)
    → All P bs
    → get_elem? bs i ≡ some c
    → P c
All-get_elem? P [] i c a e = absurd (none_some e)
  where
    none_some : ◌≡◌ {A = Option PackBlock} none (some c) → ⊥
    none_some p = cc
All-get_elem? P (x ∷ bs) zero c (here, a) e = subst P (same e) here
  where
    same : ◌≡◌ {A = Option PackBlock} (some x) (some c) → x ≡ c
    same p = cc
All-get_elem? P (x ∷ bs) (suc i) c (here, a) e = All-get_elem? P bs i c a e

runs_loop-IsRun :
    (blocks : List PackBlock)
    → All (λ (b : PackBlock). b.offset + b.compressed_len < 2 ^ 64) blocks
    → (ids : List ℕ) (runs : List PackRun) → All (λ (id : ℕ). id < length blocks) ids
    → All (IsRun blocks) runs
    → (runs' : List PackRun) × (runs_loop blocks ids runs ≡ ok runs')
      × (run_ids runs' ≡ run_ids runs ++ ids)
      × All (IsRun blocks) runs'
unfolding runs_loop
runs_loop-IsRun blocks w [] runs h a = (runs, refl, sym (append-nil (run_ids runs)), a)
runs_loop-IsRun blocks w (id ∷ ids) runs (lt, h) a =
    let (b, at) = get_elem?-lt blocks id lt in
    let (runs₁, made, grown, all) =
      add_to_runs-IsRun blocks id b at
        (All-get_elem? (λ (c : PackBlock). c.offset + c.compressed_len < 2 ^ 64) blocks id b w at)
        runs a in
    let (runs₂, made', grown', all') = runs_loop-IsRun blocks w ids runs₁ h all in
    (
      runs₂,
      rw (at, made) made',
      grown' ∙ ap (λ (t : List ℕ). t ++ ids) grown ∙ append_assoc (run_ids runs) (id ∷ []) ids,
      all',
    )

-- Blocks of the table, asked for in any order, are put into runs, in that order and each in one run. The
-- blocks of a run lie end to end in its pack and are all of its bytes, and a run of several blocks has
-- 8 MiB at most.
pub block_runs-IsRun :
    (ids : List ℕ) (blocks : List PackBlock)
    → All (λ (b : PackBlock). b.offset + b.compressed_len < 2 ^ 64) blocks
    → All (λ (id : ℕ). id < length blocks) ids
    → (runs : List PackRun) × (block_runs ids blocks ≡ ok runs)
      × (run_ids runs ≡ ids)
      × All (IsRun blocks) runs
unfolding block_runs
block_runs-IsRun ids blocks w h = runs_loop-IsRun blocks w ids [] h tt
