-- ===== src/Pack/Runs.antt =====
-- The theorems on packs at three blocks, the last one short, and a document that crosses them.
use holys.Common.{ℕ, ◌*◌, ◌≤◌, ◌≡◌, refl, inl, inr, arith}
use holys.Common.{List, [], ◌∷◌, length, get_elem?, Has, All, Option, ok}
use holys.Common.Sorting.{sort_by}
use holys.Format.{PackBlock}
use holys.Pack.Types.{PackSlice, PackRequest, DocumentBlock, region_gap_bytes, region_max_ranges}
use holys.Pack.Spans.{block_span, document_blocks}
use holys.Pack.Parts.{Tiled, whole, part, document_blocks-Tiled}
use holys.Pack.Reads.{read_range}
use holys.Pack.ReadsWhole.{read_range-Tiled}
use holys.Pack.Batches.{PackRun, block_runs, run_batches, request_windows}
use holys.Pack.Windows.{
  IsWindow, joined_windows, request_windows-IsWindow, IsBatch, joined_batches, run_batches-IsBatch,
}
use holys.Pack.Contiguous.{IsRun, run_ids, block_runs-IsRun}
use holys.Pack.Plan.{
  PackRange, regional, full_lines, PlannedRange, read_full_lines, plan_pack_ranges,
}
use holys.Pack.Lines.{count_newlines, last_newline, locate_line}
use holys.Pack.LinesFound.{locate_line-line_start}
use holys.Pack.PlannedMerge.{IsSpaced}
use holys.Pack.Planned.{Answers, plan_pack_ranges-Answers}

abbrev block_of : ℕ → ℕ → ℕ → PackBlock
block_of offset compressed_len decoded_len = record {
  pack = 0;
  offset = offset;
  compressed_len = compressed_len;
  decoded_len = decoded_len;
  hash = [];
}

abbrev three_blocks : List PackBlock
three_blocks = block_of 0 3 3 ∷ block_of 3 3 3 ∷ block_of 6 2 2 ∷ []

abbrev crossing : PackSlice
crossing = record { first_block = 0; block_offset = 1 }

document_blocks-Tiled_example :
    (parts : List DocumentBlock) × (document_blocks crossing 6 three_blocks ≡ ok parts)
    × Tiled 0 1 0 6 three_blocks parts
document_blocks-Tiled_example =
    document_blocks-Tiled crossing 6 three_blocks 0 3
      (unfold block_span holys.Pack.Spans.span_loop in refl)

abbrev crossing_parts : List DocumentBlock
crossing_parts =
    record { block_id = 0; start = 0; offset = 1; len = 2 }
    ∷ record { block_id = 1; start = 2; offset = 0; len = 3 }
    ∷ record { block_id = 2; start = 5; offset = 0; len = 1 }
    ∷ []

abbrev three_bodies : ℕ → Option (List ℕ)
three_bodies = get_elem? ((1 ∷ 2 ∷ 3 ∷ []) ∷ (4 ∷ 5 ∷ 6 ∷ []) ∷ (7 ∷ 8 ∷ []) ∷ [])

read_range-Tiled_example : read_range three_bodies crossing_parts 1 6 ≡ ok (3 ∷ 4 ∷ 5 ∷ 6 ∷ 7 ∷ [])
read_range-Tiled_example =
    read_range-Tiled three_bodies 0 1 6 1 6 three_blocks crossing_parts
      ((1 ∷ 2 ∷ 3 ∷ []) ∷ (4 ∷ 5 ∷ 6 ∷ []) ∷ (7 ∷ 8 ∷ []) ∷ []) crossing_Tiled
      (refl, refl, omega arith, (refl, refl, omega arith, (refl, refl, omega arith, tt)))
      (omega arith) (omega arith)
  where
    crossing_Tiled : Tiled 0 1 0 6 three_blocks crossing_parts
    crossing_Tiled =
        part 0 1 0 6 2 4 (block_of 0 3 3) (block_of 3 3 3 ∷ block_of 6 2 2 ∷ []) _ (omega arith)
          (omega arith) (omega arith) (inr refl)
          (part 1 0 2 4 3 1 (block_of 3 3 3) (block_of 6 2 2 ∷ []) _ (omega arith) (omega arith)
            (omega arith) (inr refl)
            (part 2 0 5 1 1 0 (block_of 6 2 2) [] _ (omega arith) (omega arith) (omega arith)
              (inl refl) (whole 3 0 6 [])))

abbrev request_of : ℕ → ℕ → PackRequest
request_of index size = record { index = index; slice = crossing; decoded_size = size }

abbrev three_requests : List PackRequest
three_requests = request_of 0 5 ∷ request_of 1 (32 * 1024 * 1024) ∷ request_of 2 7 ∷ []

request_windows-IsWindow_example :
    (joined_windows (request_windows three_requests) ≡ three_requests)
    × All IsWindow (request_windows three_requests)
request_windows-IsWindow_example = request_windows-IsWindow three_requests

abbrev run_of : ℕ → ℕ → PackRun
run_of offset len = record { pack = 0; offset = offset; len = len; blocks = [] }

abbrev three_runs : List PackRun
three_runs = run_of 0 5 ∷ run_of 9 6 ∷ run_of 20 3 ∷ []

run_batches-IsBatch_example :
    (joined_batches (run_batches three_runs 9) ≡ three_runs)
    × All (IsBatch 9) (run_batches three_runs 9)
run_batches-IsBatch_example =
    run_batches-IsBatch three_runs 9 (omega arith) (omega arith, (omega arith, (omega arith, tt)))

block_runs-IsRun_example :
    (runs : List PackRun) × (block_runs (0 ∷ 1 ∷ []) three_blocks ≡ ok runs)
    × (run_ids runs ≡ 0 ∷ 1 ∷ [])
    × All (IsRun three_blocks) runs
block_runs-IsRun_example =
    block_runs-IsRun (0 ∷ 1 ∷ []) three_blocks (omega arith, (omega arith, (omega arith, tt)))
      (omega arith, (omega arith, tt))

abbrev two_ranges : List PackRange
two_ranges = full_lines 50 60 1 2 ∷ regional 10 20 5 ∷ []

abbrev one_planned : List PlannedRange
one_planned = record { start = 6; end = 60; read = read_full_lines 1 2 } ∷ []

plan_pack_ranges-Answers_example :
    ((r : PackRange) → Has r two_ranges → (y : PlannedRange) × Has y one_planned × Answers 1000 r y)
    × IsSpaced region_gap_bytes 1000 0 one_planned
    × (length one_planned ≤ region_max_ranges)
unfolding sort_by
plan_pack_ranges-Answers_example =
    plan_pack_ranges-Answers 1000 two_ranges one_planned (omega arith)
      (unfold plan_pack_ranges in refl)

-- Two lines and the start of a third, in blocks of three bytes: "a\nb", "c\nd".
abbrev line_bodies : ℕ → Option (List ℕ)
line_bodies = get_elem? ((97 ∷ 10 ∷ 98 ∷ []) ∷ (99 ∷ 10 ∷ 100 ∷ []) ∷ [])

abbrev line_parts : List DocumentBlock
line_parts =
    record { block_id = 0; start = 0; offset = 0; len = 3 }
    ∷ record { block_id = 1; start = 3; offset = 0; len = 3 }
    ∷ []

locate_line-line_start_example : locate_line line_bodies line_parts (2 ∷ []) 4 ≡ ok (2, 2)
unfolding count_newlines last_newline
locate_line-line_start_example =
    locate_line-line_start line_bodies 0 0 6 two_blocks line_parts
      ((97 ∷ 10 ∷ 98 ∷ []) ∷ (99 ∷ 10 ∷ 100 ∷ []) ∷ []) (2 ∷ []) 4 tiles
      (refl, refl, omega arith, (refl, refl, omega arith, tt)) (refl, refl) (omega arith)
      (omega arith)
  where
    two_blocks : List PackBlock
    two_blocks = block_of 0 3 3 ∷ block_of 3 3 3 ∷ []

    tiles : Tiled 0 0 0 6 two_blocks line_parts
    tiles =
        part 0 0 0 6 3 3 (block_of 0 3 3) (block_of 3 3 3 ∷ []) _ (omega arith) (omega arith)
          (omega arith) (inr refl)
          (part 1 0 3 3 3 0 (block_of 3 3 3) [] _ (omega arith) (omega arith) (omega arith)
            (inl refl) (whole 2 0 6 []))
