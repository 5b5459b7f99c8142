-- ===== src/Candidate/Runs.antt =====
-- The theorems on candidate blocks at one segment of two documents, of three blocks and of one.
use holys.Common.{ℕ, ◌+◌, ◌*◌, ◌≡◌, refl, ◌⊎◌, ◌↔◌, [], ◌∷◌, none, ok, arith, ◌<◌}
use holys.Format.{DocEntry, SegmentTables}
use holys.Candidate.{
  SearchExtent, CandidateRange, build_block_bases, total_blocks, expand_candidate_block,
}
use holys.Candidate.{merge_candidate_ranges, candidate_block_bytes}
use holys.Candidate.Bases.{Around, IsPlanned, expand-Around}
use holys.Candidate.Merge.{Covers, IsApart, merge-Covers, merge-IsApart}

abbrev doc_of : ℕ → ℕ → DocEntry
doc_of size line = record {
  display_key = 97 ∷ [];
  source_id = 0;
  member_path = none;
  decoded_size = size;
  first_block = 0;
  block_offset = 0;
  max_line_len = line;
  block_newlines = [];
}

abbrev two_documents : SegmentTables
two_documents = record {
  sources = [];
  documents = doc_of (2 * candidate_block_bytes + 5) 80 ∷ doc_of 7 7 ∷ [];
  blocks = [];
}

two_documents_bases : build_block_bases two_documents ≡ ok (0 ∷ 3 ∷ 4 ∷ [])
unfolding build_block_bases
two_documents_bases = refl

lines-IsPlanned : IsPlanned SearchExtent.lines
lines-IsPlanned p = cc

expand-Around_example :
    (range : ℕ × ℕ) × (expand_candidate_block 1 (0 ∷ 3 ∷ 4 ∷ []) two_documents SearchExtent.lines
      ≡ ok range)
    × Around 1 (0 ∷ 3 ∷ 4 ∷ []) range
expand-Around_example =
    expand-Around two_documents (0 ∷ 3 ∷ 4 ∷ []) SearchExtent.lines 1 two_documents_bases below
      (omega arith) lines-IsPlanned
  where
    below : 1 < total_blocks (0 ∷ 3 ∷ 4 ∷ [])
    below = unfold total_blocks in omega arith

abbrev range_of : ℕ → ℕ → CandidateRange
range_of start end = record { start = start; end = end; extent = SearchExtent.lines }

merge-Covers_example :
    Covers 4 (merge_candidate_ranges (range_of 0 2 ∷ range_of 6 7 ∷ []) (range_of 1 5 ∷ []))
    ↔ (Covers 4 (range_of 0 2 ∷ range_of 6 7 ∷ []) ⊎ Covers 4 (range_of 1 5 ∷ []))
merge-Covers_example = merge-Covers 4 (range_of 0 2 ∷ range_of 6 7 ∷ []) (range_of 1 5 ∷ [])

merge-IsApart_example :
    IsApart 0 (merge_candidate_ranges (range_of 0 2 ∷ range_of 6 7 ∷ []) (range_of 1 5 ∷ []))
merge-IsApart_example = merge-IsApart (range_of 0 2 ∷ range_of 6 7 ∷ []) (range_of 1 5 ∷ [])
