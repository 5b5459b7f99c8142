-- ===== src/Candidate.antt =====
-- crates/index/src/candidate.rs: the candidate blocks of 128 KiB that trigram postings name, their
-- documents, and the ranges of blocks that a search verifies.
pub mod Runs
pub mod Merge
pub mod Bases
use holys.Common.{
  ℕ, zero, suc, ◌+◌, ◌-◌, ◌*◌, ◌/◌, ◌%◌, ◌^◌, max, min, Bool, true, false, ◌&&◌, ◌||◌, not,
}
use holys.Common.{
  List, [], ◌∷◌, ◌++◌, map, get_elem?, get_or, last?, Option, none, some, if◌then◌else◌, ltb, leb,
  ◌==◌,
}
use holys.Common.{Result, ok, err, ◌>>=◌, ◌>>◌, ensure, context}
use holys.Common.Word32.{sub_u32, checked_add}
use holys.Common.Sorting.{sort_by, dedup_by}
use holys.Grams.{Strategy, trigram, sparse}
use holys.Posting.{id_range}
use holys.Format.{DocEntry, SegmentTables}
use holys.Eval.Select.{Selection}

abbrev pub candidate_block_bytes : ℕ
candidate_block_bytes = 128 * 1024

-- `panicked` stands for an index out of range and for a subtraction that overflows.
pub data Error : Type 0 where
  too_many_blocks block_count_overflows document_extent outside_blocks outside_documents : Error
  bases_missing too_many_documents panicked : Error

pub data SearchExtent : Type 0 where
  bytes : ℕ → SearchExtent
  lines document : SearchExtent

unfoldable pub extent_eq : SearchExtent → SearchExtent → Bool
extent_eq (SearchExtent.bytes span) (SearchExtent.bytes span') = span == span'
extent_eq SearchExtent.lines SearchExtent.lines = true
extent_eq SearchExtent.document SearchExtent.document = true
extent_eq _ _ = false

pub record CandidateRange : Type 0 where
  pub start : ℕ
  pub end : ℕ
  pub extent : SearchExtent

-- A list built by pushes has its last element first here; this puts it in order.
unfoldable pub rev_append {ℓ} : {A : Type ℓ} → List A → List A → List A
rev_append [] ys = ys
rev_append (x ∷ xs) ys = rev_append xs (x ∷ ys)

-- `u32::try_from(n)?`
abbrev pub try_u32 : ℕ → Error → Result Error ℕ
try_u32 n e = if ltb n (2 ^ 32) then ok n else err e

-- The loop of `build_block_bases`: what it pushes behind the base `next`.
unfoldable pub bases_after : ℕ → List DocEntry → Result Error (List ℕ)
bases_after next [] = ok []
bases_after next (doc ∷ docs) = do
  blocks ←
      try_u32 ((doc.decoded_size + (candidate_block_bytes - 1)) / candidate_block_bytes)
        too_many_blocks
  next' ← context (checked_add 32 next blocks) block_count_overflows
  rest ← bases_after next' docs
  ok (next' ∷ rest)

unfoldable pub build_block_bases : SegmentTables → Result Error (List ℕ)
unfolding bases_after
build_block_bases tables = do rest ← bases_after 0 tables.documents; ok (0 ∷ rest)

-- `bases.partition_point(|base| *base <= id)`: the bases ascend, so this is the length of the prefix
-- that satisfies the test.
unfoldable pub partition_point : ℕ → List ℕ → ℕ
partition_point id [] = 0
partition_point id (base ∷ bases) =
    let rest = partition_point id bases in if leb base id then suc rest else 0

unfoldable pub get_block_document : ℕ → List ℕ → Result Error ℕ
unfolding partition_point
get_block_document id bases = elim (partition_point id bases) [ zero ↦ err panicked | suc n ↦ ok n ]

-- How many blocks beside the candidate's an extent may reach, in a document of the blocks `start..=end`.
unfoldable pub slack_of : SearchExtent → Option DocEntry → ℕ → ℕ → Result Error ℕ
slack_of (SearchExtent.bytes zero) doc start end = err panicked
slack_of (SearchExtent.bytes (suc n)) doc start end =
    ok (min (1 + n / candidate_block_bytes) (2 ^ 32 - 1))
slack_of SearchExtent.lines none start end = err panicked
slack_of SearchExtent.lines (some doc) start end =
    if doc.max_line_len == 2 ^ 32 - 1
    then ok ((sub_u32 end start + 1) % 2 ^ 32)
    else ok (1 + doc.max_line_len / candidate_block_bytes)
slack_of SearchExtent.document doc start end = ok 0

-- `id.saturating_sub(slack).max(start)..=id.saturating_add(slack).min(end)`; a document extent
-- returned before the slack is computed.
unfoldable pub clamp_range : SearchExtent → ℕ → ℕ → ℕ → ℕ → ℕ × ℕ
clamp_range SearchExtent.document id slack start end = (start, end)
clamp_range extent id slack start end =
    (max (id - slack) start, min (min (id + slack) (2 ^ 32 - 1)) end)

unfoldable pub expand_candidate_block :
    ℕ → List ℕ → SegmentTables → SearchExtent → Result Error (ℕ × ℕ)
unfolding get_block_document slack_of clamp_range
expand_candidate_block id bases tables extent = do
  index ← get_block_document id bases
  start ← context (get_elem? bases index) panicked
  next ← context (get_elem? bases (suc index)) panicked
  ensure (ltb 0 next) panicked
  slack ← slack_of extent (get_elem? tables.documents index) start (next - 1)
  ok (clamp_range extent id slack start (next - 1))

-- `bases.last().copied().unwrap_or(0)`
unfoldable pub total_blocks : List ℕ → ℕ
total_blocks [] = 0
total_blocks (base ∷ []) = base
total_blocks (base ∷ next ∷ bases) = total_blocks (next ∷ bases)

-- The last range of a document, which comes first here, takes the block that follows it.
unfoldable pub extend_last : CandidateRange → List CandidateRange → List CandidateRange
extend_last range [] = range ∷ []
extend_last range (last ∷ ranges) =
    if last.end == range.start
    then record last { end = last.end + 1 } ∷ ranges
    else range ∷ last ∷ ranges

-- One round of the loop of `group_candidate_blocks`: the documents have their last first too.
unfoldable pub add_block :
    CandidateRange → ℕ → List (ℕ × List CandidateRange) → List (ℕ × List CandidateRange)
unfolding extend_last
add_block range id [] = (id, range ∷ []) ∷ []
add_block range id ((current, ranges) ∷ rest) =
    if current == id
    then (current, extend_last range ranges) ∷ rest
    else (id, range ∷ []) ∷ (current, ranges) ∷ rest

abbrev pub single_block : SearchExtent → ℕ → CandidateRange
single_block extent local = record { start = local; end = local + 1; extent = extent }

unfoldable pub group_loop :
    SearchExtent
    → List ℕ
    → List ℕ
    → List (ℕ × List CandidateRange)
    → Result Error (List (ℕ × List CandidateRange))
unfolding add_block total_blocks
group_loop extent bases [] grouped = ok grouped
group_loop extent bases (id ∷ ids) grouped = do
  ensure (ltb id (total_blocks bases)) outside_blocks
  index ← get_block_document id bases
  id32 ← try_u32 index too_many_documents
  base ← context (get_elem? bases index) panicked
  group_loop extent bases ids (add_block (single_block extent (id - base)) id32 grouped)

unfoldable pub in_order : List (ℕ × List CandidateRange) → List (ℕ × List CandidateRange)
in_order grouped = rev_append (map (λ d. (d.0, rev_append d.1 [])) grouped) []

unfoldable pub group_candidate_blocks :
    List ℕ → List ℕ → SearchExtent → Result Error (List (ℕ × List CandidateRange))
unfolding group_loop in_order extent_eq
group_candidate_blocks ids bases extent = do
  ensure (not (extent_eq extent SearchExtent.document)) document_extent
  grouped ← group_loop extent bases ids []
  ok (in_order grouped)

unfoldable pub pick_broader_extent : SearchExtent → SearchExtent → SearchExtent
pick_broader_extent (SearchExtent.bytes left) (SearchExtent.bytes right) =
    SearchExtent.bytes (max left right)
pick_broader_extent SearchExtent.document right = SearchExtent.document
pick_broader_extent left SearchExtent.document = SearchExtent.document
pick_broader_extent _ _ = SearchExtent.lines

-- `sort_unstable_by_key(|range| (range.blocks.start, range.blocks.end))`
unfoldable pub range_le : CandidateRange → CandidateRange → Bool
range_le a b = ltb a.start b.start || (a.start == b.start && leb a.end b.end)

abbrev pub overlaps : CandidateRange → CandidateRange → Bool
overlaps previous range = ltb range.start previous.end

unfoldable pub joins : CandidateRange → CandidateRange → Bool
unfolding extent_eq
joins previous range = range.start == previous.end && extent_eq range.extent previous.extent

unfoldable pub join : CandidateRange → CandidateRange → CandidateRange
unfolding pick_broader_extent
join previous range = record {
  start = previous.start;
  end = max previous.end range.end;
  extent =
      if overlaps previous range
      then pick_broader_extent previous.extent range.extent
      else previous.extent;
}

-- The loop behind `merged.last_mut()`, the range `previous`.
unfoldable pub merge_after : CandidateRange → List CandidateRange → List CandidateRange
unfolding joins join
merge_after previous [] = previous ∷ []
merge_after previous (range ∷ ranges) =
    let joined = merge_after (join previous range) ranges in
    let apart = previous ∷ merge_after range ranges in
    if overlaps previous range || joins previous range then joined else apart

unfoldable pub merge_sorted : List CandidateRange → List CandidateRange
unfolding merge_after
merge_sorted [] = []
merge_sorted (range ∷ ranges) = merge_after range ranges

unfoldable pub merge_candidate_ranges :
    List CandidateRange → List CandidateRange → List CandidateRange
unfolding merge_sorted range_le
merge_candidate_ranges current incoming = merge_sorted (sort_by range_le (current ++ incoming))

-- The documents of a sparse selection: its ids, each below the document count.
unfoldable pub whole_documents : ℕ → List ℕ → Result Error (List (ℕ × Option (List CandidateRange)))
whole_documents document_count [] = ok []
whole_documents document_count (id ∷ ids) = do
  ensure (ltb id document_count) outside_documents
  rest ← whole_documents document_count ids
  ok ((id, none) ∷ rest)

-- The documents of blocks, before repetitions go.
unfoldable pub block_documents : List ℕ → List ℕ → Result Error (List ℕ)
unfolding get_block_document total_blocks
block_documents bases [] = ok []
block_documents bases (id ∷ ids) = do
  ensure (ltb id (total_blocks bases)) outside_blocks
  index ← get_block_document id bases
  id32 ← try_u32 index too_many_documents
  rest ← block_documents bases ids
  ok (id32 ∷ rest)

-- The three shapes behind a list of ids: a sparse strategy, a document extent, and ranges.
unfoldable pub documents_of_ids :
    List ℕ
    → SearchExtent
    → Strategy
    → ℕ
    → Option (List ℕ)
    → Result Error (List (ℕ × Option (List CandidateRange)))
unfolding whole_documents block_documents group_candidate_blocks
documents_of_ids ids extent sparse document_count block_bases = whole_documents document_count ids
documents_of_ids ids SearchExtent.document trigram document_count block_bases = do
  bases ← context block_bases bases_missing
  found ← block_documents bases ids
  ok (map (λ index. (index, none)) (dedup_by ◌==◌ found))
documents_of_ids ids extent trigram document_count block_bases = do
  bases ← context block_bases bases_missing
  grouped ← group_candidate_blocks ids bases extent
  ok (map (λ d. (d.0, some d.1)) grouped)

unfoldable pub candidate_documents :
    Selection
    → SearchExtent
    → Strategy
    → ℕ
    → Option (List ℕ)
    → Result Error (List (ℕ × Option (List CandidateRange)))
unfolding documents_of_ids
candidate_documents Selection.all extent strategy document_count block_bases =
    ok (map (λ index. (index, none)) (id_range document_count 0))
candidate_documents (Selection.ids ids) extent strategy document_count block_bases =
    documents_of_ids ids extent strategy document_count block_bases
