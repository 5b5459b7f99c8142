-- ===== src/Pack/Windows.antt =====
-- Windows of requests and batches of runs: every request is in one window, in order, and what a window
-- holds is bounded.
use holys.Common.{
  ℕ, zero, suc, ◌+◌, ◌-◌, ◌<◌, ◌≤◌, ◌^◌, ◌≡◌, refl, sym, ap, subst, ◌∙◌, ◌⊎◌, inl, inr, arith, ltb,
  ltb→lt, ltb→ge, leb→gt, ◌&&◌, ◌||◌,
}
use holys.Common.{
  List, [], ◌∷◌, ◌++◌, length, length-append, All, All-split, Bool, true, false, Bool-cases,
}
use holys.Common.Word32.{saturating_add}
use holys.Pack.Types.{PackRequest, large_document_bytes, window_bytes, window_documents}
use holys.Pack.Batches.{
  PackRun, take_batch, batches_loop, run_batches, is_large_request, take_window, windows_loop,
  request_windows,
}

abbrev pub joined_windows : List (List PackRequest) → List PackRequest
joined_windows [] = []
joined_windows (w ∷ ws) = w ++ joined_windows ws

abbrev pub total_size : List PackRequest → ℕ
total_size [] = 0
total_size (r ∷ rs) = r.decoded_size + total_size rs

-- What a window holds behind its first request.
abbrev Behind : ℕ → ℕ → List PackRequest → Type 0
Behind room bytes rs =
    (length rs ≤ room)
    × (bytes + total_size rs ≤ window_bytes)
    × All (λ (r : PackRequest). is_large_request r ≡ false) rs

-- A window is one large request, or from 1 to 1,024 that are not large and have 32 MiB in all at most.
abbrev pub IsWindow : List PackRequest → Type 0
IsWindow w =
    ((r : PackRequest) × (w ≡ r ∷ []) × (is_large_request r ≡ true))
    ⊎ ((0 < length w)
        × (length w ≤ window_documents)
        × (total_size w ≤ window_bytes)
        × All (λ (r : PackRequest). is_large_request r ≡ false) w)

take_window-append :
    (room : ℕ) (started : Bool) (bytes : ℕ) (rs : List PackRequest)
    → (take_window room started bytes rs).0 ++ (take_window room started bytes rs).1 ≡ rs
unfolding take_window
take_window-append room started bytes [] = refl
take_window-append zero started bytes (r ∷ rs) = refl
take_window-append (suc room) started bytes (r ∷ rs) =
    let ih = take_window-append room true (saturating_add bytes r.decoded_size) rs in
    elim (Bool-cases
      (started && (is_large_request r || ltb (window_bytes - bytes) r.decoded_size))) [
        | inl t ↦ rw t refl
        | inr f ↦ elim (Bool-cases (is_large_request r)) [
          | inl large ↦ rw (f, large) refl
          | inr small ↦ rw (f, small) (ap (◌∷◌ r) ih)
        ]
      ]

take_window-Behind :
    (room bytes : ℕ) (rs : List PackRequest)
    → bytes ≤ window_bytes
    → Behind room bytes (take_window room true bytes rs).0
unfolding take_window
take_window-Behind room bytes [] h = (omega arith, omega arith, tt)
take_window-Behind zero bytes (r ∷ rs) h = (omega arith, omega arith, tt)
take_window-Behind (suc room) bytes (r ∷ rs) h = elim (Bool-cases (is_large_request r)) [
  | inl large ↦ rw large (omega arith, omega arith, tt)
  | inr small ↦ elim (Bool-cases (ltb (window_bytes - bytes) r.decoded_size)) [
    | inl full ↦ rw (small, full) (omega arith, omega arith, tt)
    | inr fits ↦
        let (few, total, rest) =
          take_window-Behind room (saturating_add bytes r.decoded_size) rs
            (omega (arith, h, ltb→ge (window_bytes - bytes) r.decoded_size fits)) in
        rw (small, fits)
          (
            omega (arith, few),
            omega (arith, total, h, ltb→ge (window_bytes - bytes) r.decoded_size fits),
            (small, rest),
          )
  ]
]

-- The first window of requests, and that it takes one at least.
first-IsWindow :
    (r : PackRequest) (rs : List PackRequest)
    → IsWindow (take_window window_documents false 0 (r ∷ rs)).0
      × (length (take_window window_documents false 0 (r ∷ rs)).1 ≤ length rs)
unfolding take_window
first-IsWindow r rs = elim (Bool-cases (is_large_request r)) [
  | inl large ↦ rw large (inl (r, refl, large), omega arith)
  | inr small ↦
      let size : r.decoded_size < large_document_bytes =
        unfold is_large_request in leb→gt large_document_bytes r.decoded_size small in
      let (few, total, rest) =
        take_window-Behind 1023 (saturating_add 0 r.decoded_size) rs (omega (arith, size)) in
      rw small (
        inr (omega arith, omega (arith, few), omega (arith, total, size), (small, rest)),
        omega (
          arith,
          ap length (take_window-append 1023 true (saturating_add 0 r.decoded_size) rs),
          length-append (take_window 1023 true (saturating_add 0 r.decoded_size) rs).0
              (take_window 1023 true (saturating_add 0 r.decoded_size) rs).1,
        ),
      )
]

windows_loop-whole :
    (fuel : ℕ) (rs : List PackRequest)
    → length rs ≤ fuel
    → (joined_windows (windows_loop fuel rs) ≡ rs) × All IsWindow (windows_loop fuel rs)
unfolding windows_loop
windows_loop-whole fuel [] h = (refl, tt)
windows_loop-whole zero (r ∷ rs) h = absurd (omega arith)
windows_loop-whole (suc fuel) (r ∷ rs) h =
    let (is, fewer) = first-IsWindow r rs in
    let (whole, all) =
      windows_loop-whole fuel (take_window window_documents false 0 (r ∷ rs)).1
        (omega (arith, fewer, h)) in
    (
      ap (◌++◌ (take_window window_documents false 0 (r ∷ rs)).0) whole
          ∙ take_window-append window_documents false 0 (r ∷ rs),
      (is, all),
    )

-- Every request is in one window, in order. A window is one large request alone, or up to 1,024 that are
-- not large and have 32 MiB in all at most.
pub request_windows-IsWindow :
    (rs : List PackRequest)
    → (joined_windows (request_windows rs) ≡ rs) × All IsWindow (request_windows rs)
unfolding request_windows
request_windows-IsWindow rs = windows_loop-whole (length rs) rs (omega arith)

abbrev pub joined_batches : List (List PackRun) → List PackRun
joined_batches [] = []
joined_batches (b ∷ bs) = b ++ joined_batches bs

abbrev pub total_len : List PackRun → ℕ
total_len [] = 0
total_len (r ∷ rs) = r.len + total_len rs

-- A batch has a run, and `max_bytes` in all at most unless the runs behind its first have no bytes.
abbrev pub IsBatch : ℕ → List PackRun → Type 0
IsBatch max_bytes [] = ⊥
IsBatch max_bytes (r ∷ rs) = (total_len rs ≡ 0) ⊎ (r.len + total_len rs ≤ max_bytes)

take_batch-append :
    (max_bytes : ℕ) (started : Bool) (bytes : ℕ) (rs : List PackRun)
    → (take_batch max_bytes started bytes rs).0 ++ (take_batch max_bytes started bytes rs).1 ≡ rs
unfolding take_batch
take_batch-append max_bytes started bytes [] = refl
take_batch-append max_bytes started bytes (r ∷ rs) =
    let ih = take_batch-append max_bytes true (saturating_add bytes r.len) rs in
    elim (Bool-cases (started && ltb (max_bytes - bytes) r.len)) [
      | inl t ↦ rw t refl
      | inr f ↦ rw f (ap (◌∷◌ r) ih)
    ]

take_batch-fits :
    (max_bytes bytes : ℕ) (rs : List PackRun)
    → bytes < 2 ^ 64
    → max_bytes < 2 ^ 64
    → (total_len (take_batch max_bytes true bytes rs).0 ≡ 0)
      ⊎ (bytes + total_len (take_batch max_bytes true bytes rs).0 ≤ max_bytes)
unfolding take_batch
take_batch-fits max_bytes bytes [] h w = inl refl
take_batch-fits max_bytes bytes (r ∷ rs) h w = elim (Bool-cases (ltb (max_bytes - bytes) r.len)) [
  | inl full ↦ rw full (inl refl)
  | inr fits ↦ rw fits (
      by_rest (ltb→ge (max_bytes - bytes) r.len fits)
        (take_batch-fits max_bytes (saturating_add bytes r.len) rs (omega arith) w))
]
  where
    by_rest :
        {n : ℕ}
        → r.len ≤ max_bytes - bytes
        → (n ≡ 0) ⊎ (saturating_add bytes r.len + n ≤ max_bytes)
        → (r.len + n ≡ 0) ⊎ (bytes + (r.len + n) ≤ max_bytes)
    by_rest f (inr few) = inr (omega (arith, f, few, h, w))
    by_rest f (inl none_behind) = elim (Bool-cases (ltb max_bytes bytes)) [
      | inl over ↦ inl (omega (arith, f, none_behind, ltb→lt max_bytes bytes over))
      | inr under ↦ inr (omega (arith, f, none_behind, ltb→ge max_bytes bytes under))
    ]

first-IsBatch :
    (max_bytes : ℕ) (r : PackRun) (rs : List PackRun)
    → max_bytes < 2 ^ 64
    → r.len < 2 ^ 64
    → IsBatch max_bytes (take_batch max_bytes false 0 (r ∷ rs)).0
unfolding take_batch
first-IsBatch max_bytes r rs w l =
    elim (take_batch-fits max_bytes (saturating_add 0 r.len) rs (omega arith) w) [
      | inl z ↦ inl z
      | inr few ↦ inr (omega (arith, few, l))
    ]

batches_loop-whole :
    (fuel max_bytes : ℕ) (rs : List PackRun)
    → max_bytes < 2 ^ 64
    → All (λ (r : PackRun). r.len < 2 ^ 64) rs
    → length rs ≤ fuel
    → (joined_batches (batches_loop fuel max_bytes rs) ≡ rs)
      × All (IsBatch max_bytes) (batches_loop fuel max_bytes rs)
unfolding batches_loop take_batch
batches_loop-whole fuel max_bytes [] w a h = (refl, tt)
batches_loop-whole zero max_bytes (r ∷ rs) w a h = absurd (omega arith)
batches_loop-whole (suc fuel) max_bytes (r ∷ rs) w (l, a) h =
    let taken = take_batch max_bytes true (saturating_add 0 r.len) rs in
    let split = take_batch-append max_bytes true (saturating_add 0 r.len) rs in
    let (whole, all) =
      batches_loop-whole fuel max_bytes taken.1 w
        (All-split (λ (q : PackRun). q.len < 2 ^ 64) taken.0 taken.1
          (subst (All (λ (q : PackRun). q.len < 2 ^ 64)) (sym split) a)).1
        (omega (arith, h, ap length split, length-append taken.0 taken.1)) in
    (
      ap (λ (t : List PackRun). r ∷ taken.0 ++ t) whole ∙ ap (◌∷◌ r) split,
      (first-IsBatch max_bytes r rs w l, all),
    )

-- Every run is in one batch, in order. A batch has a run, and `max_bytes` in all at most unless the runs
-- behind its first have no bytes.
pub run_batches-IsBatch :
    (rs : List PackRun) (max_bytes : ℕ)
    → max_bytes < 2 ^ 64
    → All (λ (r : PackRun). r.len < 2 ^ 64) rs
    → (joined_batches (run_batches rs max_bytes) ≡ rs)
      × All (IsBatch max_bytes) (run_batches rs max_bytes)
unfolding run_batches
run_batches-IsBatch rs max_bytes w a = batches_loop-whole (length rs) max_bytes rs w a (omega arith)
