-- ===== src/DeltaBlocks.antt =====
-- crates/index/src/delta_blocks.rs: posting lists as blocks of 128 bit-packed deltas.
pub mod Chunk
pub mod Block
pub mod RoundTrip
pub mod Valid
pub mod Ends
use holys.Common.{ℕ, zero, suc, ◌+◌, ◌-◌, ◌*◌, ◌/◌, ◌%◌, ◌≤◌, max, min, Bool, true, false, ◌&&◌}
use holys.Common.{List, [], ◌∷◌, ◌++◌, length, take, drop, Option, none, some, if◌then◌else◌}
use holys.Common.{ltb, leb, Result, ok, err, ◌>>=◌, ◌>>◌, ensure, context}
use holys.Common.Word32.{sub_u32, checked_add, bit_width}
use holys.BitPack.{pack_fixed, unpack_fixed}

abbrev pub block_ids : ℕ
block_ids = 128

-- The errors of `decode_delta_blocks`; `stuck` is no Rust value: the model's fuel ran out.
pub data Error : Type 0 where
  count_exceeds_docs no_width_header invalid_width ends_inside_ids truncated : Error
  delta_overflows out_of_bounds trailing_bytes stuck : Error

unfoldable pub bits_for : ℕ → ℕ
bits_for value = bit_width value

-- `match previous { None => id, Some(previous) => id - previous - 1 }`
unfoldable pub delta_of : Option ℕ → ℕ → ℕ
delta_of none id = id
delta_of (some previous) id = sub_u32 (sub_u32 id previous) 1

-- The inner loop over a chunk: its deltas, their maximum and the last id.
unfoldable pub chunk_deltas : Option ℕ → ℕ → List ℕ → List ℕ × ℕ × Option ℕ
unfolding delta_of
chunk_deltas previous max_delta [] = ([], max_delta, previous)
chunk_deltas previous max_delta (id ∷ ids) =
    let delta = delta_of previous id in
    let (deltas, max_delta', previous') = chunk_deltas (some id) (max max_delta delta) ids in
    (delta ∷ deltas, max_delta', previous')

-- One chunk: the width header and the packed deltas, and the last id for the next chunk.
unfoldable pub encode_chunk : Option ℕ → List ℕ → List ℕ → Option ℕ × List ℕ
unfolding chunk_deltas bits_for
encode_chunk previous chunk out =
    let (deltas, max_delta, previous') = chunk_deltas previous 0 chunk in
    let width = bits_for max_delta in
    (previous', pack_fixed deltas width (out ++ ((width % 256) ∷ [])))

-- `for chunk in ids.chunks(BLOCK_IDS)`: a chunk takes an id at least, so `ids.len()` rounds do.
unfoldable pub encode_chunks : ℕ → Option ℕ → List ℕ → List ℕ → List ℕ
encode_chunks fuel previous [] out = out
encode_chunks zero previous (id ∷ ids) out = out
encode_chunks (suc fuel) previous (id ∷ ids) out =
    let (previous', out') = encode_chunk previous (take block_ids (id ∷ ids)) out in
    encode_chunks fuel previous' (drop block_ids (id ∷ ids)) out'

unfoldable pub encode_delta_blocks : List ℕ → List ℕ → List ℕ
unfolding encode_chunks
encode_delta_blocks ids out = encode_chunks (length ids) none ids out

-- `bytes.get(cursor)` and `bytes.get(cursor..cursor + n)`, the cursor being the suffix left.
abbrev pub next_byte : List ℕ → Option (ℕ × List ℕ)
next_byte [] = none
next_byte (b ∷ rest) = some (b, rest)

abbrev pub next_bytes : ℕ → List ℕ → Option (List ℕ × List ℕ)
next_bytes n rest = if leb n (length rest) then some (take n rest, drop n rest) else none

-- `previous.checked_add(delta).and_then(|sum| sum.checked_add(1))`
unfoldable pub add_delta : Option ℕ → ℕ → Option ℕ
add_delta none delta = some delta
add_delta (some previous) delta = elim (checked_add 32 previous delta) [
  | none ↦ none
  | some sum ↦ checked_add 32 sum 1
]

-- The closure of `decode_delta_blocks`: `previous` and `ids` are what it captures.
unfoldable pub visit_delta : ℕ → ℕ → Option ℕ × List ℕ → Result Error (Option ℕ × List ℕ)
unfolding add_delta
visit_delta doc_count delta (previous, ids) = do
  id ← context (add_delta previous delta) delta_overflows
  ensure (ltb id doc_count) out_of_bounds
  ok (some id, ids ++ (id ∷ []))

-- A block: its header, its packed ids, and what follows it.
unfoldable pub decode_block :
    ℕ → ℕ → List ℕ → Option ℕ × List ℕ → Result Error (List ℕ × (Option ℕ × List ℕ))
unfolding visit_delta
decode_block doc_count block rest state = do
  (width, rest') ← context (next_byte rest) no_width_header
  ensure (leb 1 width && leb width 32) invalid_width
  (packed, rest'') ← context (next_bytes ((block * width + 7) / 8) rest') ends_inside_ids
  state' ← unpack_fixed truncated packed block width (visit_delta doc_count) state
  ok (rest'', state')

-- `while remaining > 0`, and the check for trailing bytes behind it.
unfoldable pub decode_blocks : ℕ → ℕ → ℕ → List ℕ → Option ℕ × List ℕ → Result Error (List ℕ)
decode_blocks fuel doc_count zero [] (previous, ids) = ok ids
decode_blocks fuel doc_count zero (b ∷ rest) (previous, ids) = err trailing_bytes
decode_blocks zero doc_count (suc remaining) rest state = err stuck
decode_blocks (suc fuel) doc_count (suc remaining) rest state = do
  let block = min (suc remaining) block_ids
  (rest', state') ← decode_block doc_count block rest state
  decode_blocks fuel doc_count (suc remaining - block) rest' state'

unfoldable pub decode_delta_blocks : List ℕ → ℕ → ℕ → Result Error (List ℕ)
unfolding decode_blocks
decode_delta_blocks bytes count doc_count = do
  ensure (leb count doc_count) count_exceeds_docs
  decode_blocks count doc_count count bytes (none, [])
