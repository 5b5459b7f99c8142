-- ===== src/Pack/Reads.antt =====
-- PackBatch::read_range of crates/index/src/pack.rs, behind load_blocks: what is loaded is a function
-- from block ids to the decoded bytes.
use holys.Common.{ℕ, ◌+◌, ◌-◌, min, max, ltb, leb, ◌==◌, Bool, ◌&&◌}
use holys.Common.{List, [], ◌∷◌, ◌++◌, length, take, drop, keep, Option, if◌then◌else◌}
use holys.Common.{Result, ok, err, ensure, context, ◌>>=◌, ◌>>◌}
use holys.Common.Word32.{checked_sub, checked_add}
use holys.Pack.Types.{
  Error, range_invalid, block_missing, range_overflows, block_range_outside, range_incomplete,
}
use holys.Pack.Types.{DocumentBlock}

-- `bytes.get(start..end)` of a block in memory.
unfoldable pub read : List ℕ → ℕ → ℕ → Result Error (List ℕ)
read bytes start end =
    if leb start end && leb end (length bytes)
    then ok (take (end - start) (drop start bytes))
    else err block_range_outside

-- The test that selects the parts that meet `lo..hi`.
unfoldable pub part_meets : ℕ → ℕ → DocumentBlock → Bool
part_meets lo hi part = ltb lo (part.start + part.len) && ltb part.start hi

module _ (loaded : ℕ → Option (List ℕ)) (lo hi : ℕ) where
  -- The bytes of `lo..hi` that a part has.
  unfoldable pub read_part : DocumentBlock → Result Error (List ℕ)
  unfolding read
  read_part part = do
    let from = max lo part.start - part.start
    let to = min hi (part.start + part.len) - part.start
    decoded ← context (loaded part.block_id) block_missing
    start ← context (checked_add 64 part.offset from) range_overflows
    end ← context (checked_add 64 part.offset to) range_overflows
    read decoded start end

  unfoldable pub read_parts : List DocumentBlock → Result Error (List ℕ)
  unfolding read_part
  read_parts [] = ok []
  read_parts (part ∷ parts) = do bytes ← read_part part; rest ← read_parts parts; ok (bytes ++ rest)

  -- One part is sliced, more are copied together.
  unfoldable pub read_matching : List DocumentBlock → Result Error (List ℕ)
  unfolding read_parts
  read_matching (part ∷ []) = read_part part
  read_matching parts = read_parts parts

unfoldable pub read_range :
    (ℕ → Option (List ℕ)) → List DocumentBlock → ℕ → ℕ → Result Error (List ℕ)
unfolding part_meets read_matching
read_range loaded parts lo hi = do
  len ← context (checked_sub hi lo) range_invalid
  if len == 0 then ok [] else (do
    output ← read_matching loaded lo hi (keep (part_meets lo hi) parts)
    ensure (length output == len) range_incomplete
    ok output)
