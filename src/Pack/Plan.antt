-- ===== src/Pack/Plan.antt =====
-- plan_pack_ranges and merge_planned_ranges of crates/index/src/pack.rs: the byte ranges of a document
-- that are read for the candidate ranges of a request.
use holys.Common.{ℕ, ◌-◌, min, max, ltb, leb, Bool, ◌&&◌, ◌||◌}
use holys.Common.{List, [], ◌∷◌, length, Option, none, some, if◌then◌else◌}
use holys.Common.{Result, ok, ensure, context, ◌>>=◌, ◌>>◌}
use holys.Common.Sorting.{sort_by}
use holys.Common.Word32.{checked_add, checked_sub, saturating_add, saturating_mul}
use holys.Pack.Types.{
  Error, outside_document, span_zero, coverage_overflows, region_gap_bytes, region_max_ranges,
}

pub data PackRange : Type 0 where
  regional : ℕ → ℕ → ℕ → PackRange
  full_lines : ℕ → ℕ → ℕ → ℕ → PackRange

abbrev pub range_start : PackRange → ℕ
range_start (regional start end span) = start
range_start (full_lines start end before_context after_context) = start

abbrev pub range_end : PackRange → ℕ
range_end (regional start end span) = end
range_end (full_lines start end before_context after_context) = end

-- PlannedRead: `Regional` and `FullLines`.
pub data PlannedRead : Type 0 where
  read_regional : PlannedRead
  read_full_lines : ℕ → ℕ → PlannedRead

pub record PlannedRange : Type 0 where
  pub start : ℕ
  pub end : ℕ
  pub read : PlannedRead

abbrev pub starts_le : PlannedRange → PlannedRange → Bool
starts_le a b = leb a.start b.start

-- What the previous range reads when it takes the next.
unfoldable pub joined_read : PlannedRead → PlannedRead → PlannedRead
joined_read (read_full_lines before after) (read_full_lines next_before next_after) =
    read_full_lines (max before next_before) (max after next_after)
joined_read read_regional (read_full_lines before after) = read_full_lines before after
joined_read current read_regional = current

unfoldable pub joined_range : PlannedRange → PlannedRange → PlannedRange
unfolding joined_read
joined_range previous range = record {
  start = previous.start;
  end = max previous.end range.end;
  read = joined_read previous.read range.read;
}

-- The loop over the sorted ranges, `previous` the last of those merged.
unfoldable pub merge_next : ℕ → PlannedRange → List PlannedRange → List PlannedRange
unfolding joined_range
merge_next gap_bytes previous [] = previous ∷ []
merge_next gap_bytes previous (range ∷ ranges) =
    let joined = merge_next gap_bytes (joined_range previous range) ranges in
    let apart = previous ∷ merge_next gap_bytes range ranges in
    if leb (range.start - previous.end) gap_bytes then joined else apart

unfoldable pub merge_in_order : ℕ → List PlannedRange → List PlannedRange
unfolding merge_next
merge_in_order gap_bytes [] = []
merge_in_order gap_bytes (range ∷ ranges) = merge_next gap_bytes range ranges

unfoldable pub merge_planned_ranges : List PlannedRange → ℕ → List PlannedRange
unfolding merge_in_order
merge_planned_ranges ranges gap_bytes = merge_in_order gap_bytes (sort_by starts_le ranges)

-- A regional range is read with the bytes that a match may span on either side.
unfoldable pub planned_range : ℕ → PackRange → Result Error PlannedRange
planned_range decoded_size (regional start end span) = do
  overlap ← context (checked_sub span 1) span_zero
  ok (record {
    start = start - overlap;
    end = min (saturating_add end overlap) decoded_size;
    read = read_regional;
  })
planned_range decoded_size (full_lines start end before after) =
    ok (record { start = start; end = end; read = read_full_lines before after })

unfoldable pub planned_ranges : ℕ → List PackRange → Result Error (List PlannedRange)
unfolding planned_range
planned_ranges decoded_size [] = ok []
planned_ranges decoded_size (range ∷ ranges) = do
  ensure (ltb (range_start range) (range_end range) && leb (range_end range) decoded_size)
      outside_document
  planned ← planned_range decoded_size range
  rest ← planned_ranges decoded_size ranges
  ok (planned ∷ rest)

-- `try_fold` of the lengths.
unfoldable pub covered_bytes : ℕ → List PlannedRange → Result Error ℕ
covered_bytes covered [] = ok covered
covered_bytes covered (range ∷ ranges) = do
  more ← context (checked_add 64 covered (range.end - range.start)) coverage_overflows
  covered_bytes more ranges

unfoldable pub plan_pack_ranges : ℕ → List PackRange → Result Error (Option (List PlannedRange))
unfolding planned_ranges merge_planned_ranges covered_bytes
plan_pack_ranges decoded_size request = do
  planned ← planned_ranges decoded_size request
  let ranges = merge_planned_ranges planned region_gap_bytes
  covered ← covered_bytes 0 ranges
  if ltb region_max_ranges (length ranges) || ltb decoded_size (saturating_mul covered 2)
      then ok none
      else ok (some ranges)
