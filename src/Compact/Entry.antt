-- ===== src/Compact/Entry.antt =====
-- write_live_entry and remap_posting_id of crates/index/src/segment/compact.rs, and write_posting_record of
-- crates/index/src/build/runs.rs. What the writer was given is the result.
use holys.Common.{ℕ, zero, suc, ◌+◌, ◌-◌, ◌%◌, ◌^◌, ltb, leb, ◌==◌}
use holys.Common.{
  List, [], ◌∷◌, ◌++◌, length, take, drop, get_elem?, Option, none, some, if◌then◌else◌,
}
use holys.Common.{Result, ok, err, ensure, context, ◌>>=◌, ◌>>◌}
use holys.Common.Word32.{checked_add, sub_u32}
use holys.Common.Bytes.{to_be_bytes, from_be_bytes}
use holys.Common.Sorting.{sort_ids}
use holys.Grams.{Strategy, trigram, sparse}
use holys.DeltaBlocks.{Error as DeltaError, decode_delta_blocks}
use holys.Posting.{Error as BlockError, decode_posting_block, posting_block_len}
use holys.Candidate.{get_block_document}
use holys.Eval.Resolve.{unpack_posting}

pub data Error : Type 0 where
  empty_list : Error
  gram_width : Error
  singleton_overflows : Error
  count_exceeds_space : Error
  missing_len : Error
  len_of_trigram : Error
  len_overflows : Error
  beyond_postings : Error
  truncated : Error
  outside_segment : Error
  remap_out_of_bounds : Error
  panicked : Error
  delta_refused : DeltaError → Error
  block_refused : BlockError → Error

unfoldable pub key_bytes : Strategy → ℕ
key_bytes trigram = 3
key_bytes sparse = 8

-- The low bytes of the key, then the id in four.
unfoldable pub posting_record : Strategy → ℕ → ℕ → List ℕ
unfolding key_bytes
posting_record strategy key id =
    drop (8 - key_bytes strategy) (to_be_bytes key) ++ drop 4 (to_be_bytes id)

unfoldable pub old_document_of : Strategy → ℕ → List ℕ → Result Error ℕ
old_document_of sparse id old_bases = ok id
old_document_of trigram id old_bases = elim (get_block_document id old_bases) [
  | ok d ↦ ok d
  | err e ↦ err panicked
]

-- `new_base + id - old_bases[old_document]` wraps as u32 does.
unfoldable pub new_id_of : Strategy → ℕ → ℕ → ℕ → List ℕ → List ℕ → Result Error ℕ
new_id_of sparse id old_document new_document old_bases new_bases = ok new_document
new_id_of trigram id old_document new_document old_bases new_bases = do
  new_base ← context (get_elem? new_bases new_document) remap_out_of_bounds
  old_base ← context (get_elem? old_bases old_document) panicked
  ok (sub_u32 ((new_base + id) % 2 ^ 32) old_base)

module _ (strategy : Strategy) (remap : List (Option ℕ)) (old_bases new_bases : List ℕ) where
  unfoldable pub remap_posting_id : ℕ → Result Error (Option ℕ)
  unfolding old_document_of new_id_of
  remap_posting_id id = do
    old_document ← old_document_of strategy id old_bases
    new_document ← context (get_elem? remap old_document) outside_segment
    elim new_document [
      | none ↦ ok none
      | some n ↦
          new_id_of strategy id old_document n old_bases new_bases >>= λ new_id. ok (some new_id)
    ]

  -- `for id in decoded`: the ids that are still there, in the order of the old ones.
  unfoldable pub remap_all : List ℕ → Result Error (List ℕ)
  unfolding remap_posting_id
  remap_all [] = ok []
  remap_all (id ∷ ids) = do
    new_id ← remap_posting_id id
    rest ← remap_all ids
    ok (elim new_id [ none ↦ rest | some n ↦ n ∷ rest ])

abbrev pub posting_records : Strategy → ℕ → List ℕ → List ℕ
posting_records strategy key [] = []
posting_records strategy key (id ∷ ids) =
    posting_record strategy key id ++ posting_records strategy key ids

abbrev pub zeros : ℕ → List ℕ
zeros zero = []
zeros (suc n) = 0 ∷ zeros n

unfoldable pub posting_len : Strategy → Option ℕ → ℕ → ℕ → Result Error ℕ
posting_len sparse len count id_space = context len missing_len
posting_len trigram none count id_space = ok (posting_block_len count id_space)
posting_len trigram (some len) count id_space = err len_of_trigram

unfoldable pub decoded_ids : Strategy → List ℕ → ℕ → ℕ → Result Error (List ℕ)
decoded_ids sparse block count id_space = elim (decode_delta_blocks block count id_space) [
  | ok ids ↦ ok ids
  | err e ↦ err (delta_refused e)
]
decoded_ids trigram block count id_space = elim (decode_posting_block block count id_space) [
  | ok ids ↦ ok ids
  | err e ↦ err (block_refused e)
]

-- The ids of a list that is stored in a block.
unfoldable pub stored_ids : Strategy → ℕ → ℕ → List ℕ → ℕ → ℕ → Option ℕ → Result Error (List ℕ)
unfolding posting_len decoded_ids
stored_ids strategy id_space postings_len postings offset count len = do
  ensure (leb count id_space) count_exceeds_space
  n ← posting_len strategy len count id_space
  end ← context (checked_add 64 offset n) len_overflows
  ensure (leb end postings_len) beyond_postings
  block ←
      (if leb end (length postings)
        then ok (take (end - offset) (drop offset postings))
        else err truncated)
  decoded_ids strategy block count id_space

module _ (strategy : Strategy) (id_space postings_len : ℕ) (postings : List ℕ)
    (remap : List (Option ℕ)) (old_bases new_bases : List ℕ) where
  -- The ids that an entry is written with.
  unfoldable pub live_ids : ℕ → ℕ → Option ℕ → Result Error (List ℕ)
  unfolding remap_all stored_ids
  live_ids offset count len =
      if count == 1
      then (do
        ensure (ltb offset (2 ^ 32)) singleton_overflows
        new_id ← remap_posting_id strategy remap old_bases new_bases offset
        ok (elim new_id [ none ↦ [] | some n ↦ n ∷ [] ]))
      else (do
        decoded ← stored_ids strategy id_space postings_len postings offset count len
        ids ← remap_all strategy remap old_bases new_bases decoded
        ok (sort_ids ids))

  unfoldable pub write_live_entry : List ℕ → ℕ → Option ℕ → Result Error (List ℕ)
  unfolding live_ids posting_record
  write_live_entry gram packed len = do
    let (offset, count) = unpack_posting packed
    ensure (ltb 0 count) empty_list
    ensure (length gram == key_bytes strategy) gram_width
    let key = from_be_bytes 0 (zeros (8 - length gram) ++ gram)
    ids ← live_ids offset count len
    ok (posting_records strategy key ids)
