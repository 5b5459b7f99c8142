-- ===== src/Pack/Lines.antt =====
-- PackBatch::locate_line of crates/index/src/pack.rs: the number and the start of the line that an offset
-- of a document is in. `read` is `read_range` of the document's parts.
use holys.Common.{ℕ, zero, suc, ◌+◌, ◌*◌, ◌/◌, min, ltb, leb, ◌==◌, Bool, false}
use holys.Common.{List, [], ◌∷◌, length, take, get_elem?, last?, Option, none, some, if◌then◌else◌}
use holys.Common.{Result, ok, ensure, context, ◌>>=◌, ◌>>◌}
use holys.Common.Word32.{checked_add, saturating_add}
use holys.Candidate.{candidate_block_bytes}
use holys.Pack.Reads.{read_range}
use holys.Pack.Types.{
  DocumentBlock, Error, panics, line_outside, newlines_missing, line_overflows,
  newlines_inconsistent,
}

-- `b'\n'`
abbrev pub newline : ℕ
newline = 10

-- The newlines of bytes, and the place of the last one.
unfoldable pub count_newlines : List ℕ → ℕ
count_newlines [] = 0
count_newlines (b ∷ bytes) =
    let rest = count_newlines bytes in if b == newline then suc rest else rest

unfoldable pub last_newline : List ℕ → Option ℕ
last_newline [] = none
last_newline (b ∷ bytes) = elim (last_newline bytes) [
  | some at ↦ some (suc at)
  | none ↦ if b == newline then some 0 else none
]

-- `try_fold` of the counts of the blocks before.
unfoldable pub count_before : ℕ → List ℕ → Result Error ℕ
count_before total [] = ok total
count_before total (count ∷ counts) = do
  more ← context (checked_add 64 total count) line_overflows
  count_before more counts

-- `block < block_newlines.len() && block_newlines[block] > 0`
unfoldable pub has_newlines : List ℕ → ℕ → Bool
has_newlines counts block = elim (get_elem? counts block) [
  | none ↦ false
  | some count ↦ ltb 0 count
]

module _ (read : ℕ → ℕ → Result Error (List ℕ)) (decoded_size : ℕ) (block_newlines : List ℕ) where
  -- `for previous in (0..block).rev()`: the start of the line behind the last newline before the block.
  unfoldable pub line_start_before : ℕ → Result Error ℕ
  unfolding last_newline
  line_start_before zero = ok 0
  line_start_before (suc previous) =
      let earlier = line_start_before previous in
      let previous_start = previous * candidate_block_bytes in
      let previous_end = min (saturating_add previous_start candidate_block_bytes) decoded_size in
      context (get_elem? block_newlines previous) panics >>= λ count.
      if count == 0 then earlier else (do
        bytes ← read previous_start previous_end
        at ← context (last_newline bytes) newlines_inconsistent
        ok (previous_start + suc at))

  unfoldable pub locate_in : ℕ → Result Error (ℕ × ℕ)
  unfolding line_start_before has_newlines count_before count_newlines
  locate_in zero = ok (1, 0)
  locate_in (suc n) = do
    let offset = suc n
    ensure (leb offset decoded_size) line_outside
    let block = offset / candidate_block_bytes
    ensure (leb block (length block_newlines)) newlines_missing
    before ← count_before 0 (take block block_newlines)
    let block_start = block * candidate_block_bytes
    within ← (if has_newlines block_newlines block then read block_start offset else ok [])
    counted ← context (checked_add 64 before (count_newlines within)) line_overflows
    line ← context (checked_add 64 counted 1) line_overflows
    elim (last_newline within) [
      | some at ↦ ok (line, block_start + suc at)
      | none ↦ line_start_before block >>= λ line_offset. ok (line, line_offset)
    ]

-- `parts.last().map_or(0, ..)`
unfoldable pub size_of : List DocumentBlock → ℕ
size_of parts = elim (last? parts) [ none ↦ 0 | some part ↦ saturating_add part.start part.len ]

unfoldable pub locate_line :
    (ℕ → Option (List ℕ)) → List DocumentBlock → List ℕ → ℕ → Result Error (ℕ × ℕ)
unfolding locate_in size_of
locate_line loaded parts block_newlines offset =
    locate_in (read_range loaded parts) (size_of parts) block_newlines offset
