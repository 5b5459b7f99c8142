-- ===== src/Pack/Batches.antt =====
-- block_runs, run_batches and request_windows of crates/index/src/pack.rs: how reads are grouped. A
-- range of indices that the source gives is the slice of the list that its caller takes by it.
use holys.Common.{ℕ, zero, suc, ◌-◌, ltb, leb, ◌==◌, Bool, true, false, ◌&&◌, ◌||◌}
use holys.Common.{List, [], ◌∷◌, ◌++◌, length, get_elem?, if◌then◌else◌}
use holys.Common.{Result, ok, context, ◌>>=◌}
use holys.Common.Word32.{saturating_add, checked_add}
use holys.Format.{PackBlock}
use holys.Pack.Types.{
  Error, missing_block, run_overflows, range_bytes, large_document_bytes, window_bytes,
  window_documents,
}
use holys.Pack.Types.{PackRequest}

pub record PackRun : Type 0 where
  pub pack : ℕ
  pub offset : ℕ
  pub len : ℕ
  pub blocks : List ℕ

unfoldable pub contiguous : PackRun → PackBlock → Bool
contiguous run block =
    run.pack == block.pack
    && (saturating_add run.offset run.len == block.offset
        && leb (saturating_add run.len block.compressed_len) range_bytes)

-- The run of one block.
abbrev pub single_run : ℕ → PackBlock → PackRun
single_run block_id block = record {
  pack = block.pack;
  offset = block.offset;
  len = block.compressed_len;
  blocks = block_id ∷ [];
}

-- The last run takes the block, or a new run does.
unfoldable pub add_to_runs : ℕ → PackBlock → List PackRun → Result Error (List PackRun)
unfolding contiguous
add_to_runs block_id block [] = ok (single_run block_id block ∷ [])
add_to_runs block_id block (run ∷ []) =
    if contiguous run block
    then (do
      len ← context (checked_add 64 run.len block.compressed_len) run_overflows
      ok (record run { len = len; blocks = run.blocks ++ (block_id ∷ []) } ∷ []))
    else ok (run ∷ single_run block_id block ∷ [])
add_to_runs block_id block (run ∷ next ∷ runs) = do
  runs' ← add_to_runs block_id block (next ∷ runs)
  ok (run ∷ runs')

unfoldable pub runs_loop : List PackBlock → List ℕ → List PackRun → Result Error (List PackRun)
unfolding add_to_runs
runs_loop blocks [] runs = ok runs
runs_loop blocks (block_id ∷ ids) runs = do
  block ← context (get_elem? blocks block_id) missing_block
  runs' ← add_to_runs block_id block runs
  runs_loop blocks ids runs'

unfoldable pub block_runs : List ℕ → List PackBlock → Result Error (List PackRun)
unfolding runs_loop
block_runs block_ids blocks = runs_loop blocks block_ids []

-- `while end < runs.len()`; `started` is `end > start`.
unfoldable pub take_batch : ℕ → Bool → ℕ → List PackRun → List PackRun × List PackRun
take_batch max_bytes started bytes [] = ([], [])
take_batch max_bytes started bytes (run ∷ runs) =
    let more = take_batch max_bytes true (saturating_add bytes run.len) runs in
    if started && ltb (max_bytes - bytes) run.len then ([], run ∷ runs) else (run ∷ more.0, more.1)

-- A batch takes a run at least, so as many rounds as there are runs are enough.
unfoldable pub batches_loop : ℕ → ℕ → List PackRun → List (List PackRun)
unfolding take_batch
batches_loop fuel max_bytes [] = []
batches_loop zero max_bytes (run ∷ runs) = []
batches_loop (suc fuel) max_bytes (run ∷ runs) =
    let batch = take_batch max_bytes false 0 (run ∷ runs) in
    batch.0 ∷ batches_loop fuel max_bytes batch.1

unfoldable pub run_batches : List PackRun → ℕ → List (List PackRun)
unfolding batches_loop
run_batches runs max_bytes = batches_loop (length runs) max_bytes runs

unfoldable pub is_large_request : PackRequest → Bool
is_large_request request = leb large_document_bytes request.decoded_size

-- `while end < requests.len() && end - start < WINDOW_DOCUMENTS`; `room` documents may still be taken.
unfoldable pub take_window : ℕ → Bool → ℕ → List PackRequest → List PackRequest × List PackRequest
unfolding is_large_request
take_window room started bytes [] = ([], [])
take_window zero started bytes (request ∷ requests) = ([], request ∷ requests)
take_window (suc room) started bytes (request ∷ requests) =
    let more = take_window room true (saturating_add bytes request.decoded_size) requests in
    if started && (is_large_request request || ltb (window_bytes - bytes) request.decoded_size)
    then ([], request ∷ requests)
    else (if is_large_request request then (request ∷ [], requests) else (request ∷ more.0, more.1))

unfoldable pub windows_loop : ℕ → List PackRequest → List (List PackRequest)
unfolding take_window
windows_loop fuel [] = []
windows_loop zero (request ∷ requests) = []
windows_loop (suc fuel) (request ∷ requests) =
    let window = take_window window_documents false 0 (request ∷ requests) in
    window.0 ∷ windows_loop fuel window.1

unfoldable pub request_windows : List PackRequest → List (List PackRequest)
unfolding windows_loop
request_windows requests = windows_loop (length requests) requests
