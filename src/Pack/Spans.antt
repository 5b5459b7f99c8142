-- ===== src/Pack/Spans.antt =====
-- block_span and document_blocks of crates/index/src/pack.rs: which part of which block a document is in.
use holys.Common.{ℕ, zero, suc, ◌+◌, ◌-◌, min, ltb, ◌==◌, ◌&&◌}
use holys.Common.{List, [], ◌∷◌, drop}
use holys.Common.{Result, ok, err, ensure, context, ◌>>=◌, ◌>>◌}
use holys.Common.Word32.{checked_sub}
use holys.Format.{PackBlock}
use holys.Pack.Types.{
  Error, empty_with_coordinates, outside_blocks, offset_out_of_bounds, no_available_bytes,
}
use holys.Pack.Types.{blocks_ended, panics, PackSlice, DocumentBlock}

-- `while remaining > 0`: the blocks from `block_id` on.
unfoldable pub span_loop : ℕ → ℕ → ℕ → List PackBlock → Result Error ℕ
span_loop block_id offset zero blocks = ok block_id
span_loop block_id offset (suc rest) [] = err outside_blocks
span_loop block_id offset (suc rest) (b ∷ blocks) = do
  available ← context (checked_sub b.decoded_len offset) offset_out_of_bounds
  ensure (ltb 0 available) no_available_bytes
  span_loop (suc block_id) 0 (suc rest - min (suc rest) available) blocks

-- The range of blocks, by its two ends.
unfoldable pub block_span : PackSlice → ℕ → List PackBlock → Result Error (ℕ × ℕ)
unfolding span_loop
block_span slice zero blocks = do
  ensure (slice.first_block == 0 && slice.block_offset == 0) empty_with_coordinates
  ok (0, 0)
block_span slice (suc n) blocks = do
  end ← span_loop slice.first_block slice.block_offset (suc n) (drop slice.first_block blocks)
  ok (slice.first_block, end)

-- `for block_id in span`, `count` of them left; what is left of the document and the parts are the result.
unfoldable pub parts_loop :
    ℕ → ℕ → ℕ → ℕ → ℕ → List PackBlock → Result Error (ℕ × List DocumentBlock)
parts_loop zero block_id start offset remaining blocks = ok (remaining, [])
parts_loop (suc count) block_id start offset remaining [] = err panics
parts_loop (suc count) block_id start offset remaining (b ∷ blocks) = do
  available ← context (checked_sub b.decoded_len offset) panics
  let len = min remaining available
  (left, parts) ← parts_loop count (suc block_id) (start + len) 0 (remaining - len) blocks
  ok (left, record { block_id = block_id; start = start; offset = offset; len = len } ∷ parts)

unfoldable pub document_blocks : PackSlice → ℕ → List PackBlock → Result Error (List DocumentBlock)
unfolding block_span parts_loop
document_blocks slice decoded_size blocks = do
  (first, end) ← block_span slice decoded_size blocks
  (left, parts) ←
      parts_loop (end - first) first 0 slice.block_offset decoded_size (drop first blocks)
  ensure (left == 0) blocks_ended
  ok parts
