-- ===== src/Format/Validate.antt =====
-- `SegmentTables::validate`, loop by loop, in the order of the source.
use holys.Common.{ℕ, suc, ◌+◌, ◌-◌, ◌*◌, ◌%◌, ◌^◌, min, Bool, true, false, ◌&&◌, ◌||◌, not}
use holys.Common.{
  List, [], ◌∷◌, ◌++◌, length, take, drop, get_elem?, any, Option, none, some, ltb, leb, ◌==◌,
}
use holys.Common.{if◌then◌else◌, Result, ok, err, ◌>>=◌, ◌>>◌, ensure, context}
use holys.Common.Word32.{checked_add}
use holys.Grams.{bytes_le, bytes_eq}
use holys.Format.{SourceEntry, DocEntry, PackBlock, SegmentTables}

pub data Error : Type 0 where
  sources_not_sorted range_overflows ranges_not_contiguous range_out_of_bounds : Error
  failed_with_documents retry_not_failed wrong_source wrong_member_key wrong_source_key : Error
  duplicate_key documents_not_sorted unowned_documents outside_source : Error
  no_compressed_bytes invalid_decoded_len packs_not_contiguous blocks_not_contiguous
        offsets_overflow :
      Error
  empty_with_coordinates coordinates_not_contiguous outside_blocks offset_out_of_bounds
        unowned_bytes :
      Error

abbrev pub pack_block_bytes : ℕ
pack_block_bytes = 128 * 1024

-- `a < b` on strings.
unfoldable pub bytes_lt : List ℕ → List ℕ → Bool
unfolding bytes_le bytes_eq
bytes_lt a b = bytes_le a b && not (bytes_eq a b)

-- `previous < source.key`, where there is a previous key.
unfoldable pub key_after : Option (List ℕ) → List ℕ → Bool
unfolding bytes_lt
key_after none key = true
key_after (some previous) key = bytes_lt previous key

-- `format!("{}!/{member_path}", source.key)`
abbrev pub member_key : List ℕ → List ℕ → List ℕ
member_key key member = key ++ (33 ∷ 47 ∷ member)

abbrev pub is_empty : List ℕ → Bool
is_empty [] = true
is_empty (b ∷ bs) = false

unfoldable pub check_display_key :
    SourceEntry → DocEntry → Option (List ℕ) → Result Error (Unit {0})
check_display_key source doc (some member) =
    ensure (not (is_empty member) && bytes_eq doc.display_key (member_key source.key member))
      wrong_member_key
check_display_key source doc none = ensure (bytes_eq doc.display_key source.key) wrong_source_key

-- The loop over the documents of a source; the set of keys that were seen is a list.
unfoldable pub check_documents :
    ℕ → SourceEntry → List DocEntry → List (List ℕ) → Result Error (List (List ℕ))
unfolding check_display_key
check_documents source_id source [] seen = ok seen
check_documents source_id source (doc ∷ docs) seen = do
  ensure (doc.source_id == source_id) wrong_source
  _ ← check_display_key source doc doc.member_path
  ensure (not (any (λ key. bytes_eq doc.display_key key) seen)) duplicate_key
  check_documents source_id source docs (doc.display_key ∷ seen)

unfoldable pub keys_ascend : List DocEntry → Bool
unfolding bytes_lt
keys_ascend [] = true
keys_ascend (doc ∷ []) = true
keys_ascend (doc ∷ next ∷ docs) =
    bytes_lt doc.display_key next.display_key && keys_ascend (next ∷ docs)

-- What the loop over the sources carries.
pub record SourceScan : Type 0 where
  pub previous_source : Option (List ℕ)
  pub seen_documents : List (List ℕ)
  pub expected_first_doc : ℕ

unfoldable pub check_source : List DocEntry → ℕ → SourceEntry → SourceScan → Result Error SourceScan
unfolding key_after check_documents keys_ascend
check_source documents source_id source scan = do
  ensure (key_after scan.previous_source source.key) sources_not_sorted
  end ← context (checked_add 64 source.first_doc source.doc_count) range_overflows
  ensure (source.first_doc == scan.expected_first_doc) ranges_not_contiguous
  ensure (leb end (length documents)) range_out_of_bounds
  ensure (not source.failed || source.doc_count == 0) failed_with_documents
  ensure (not source.retry || source.failed) retry_not_failed
  let own = take source.doc_count (drop source.first_doc documents)
  seen ← check_documents source_id source own scan.seen_documents
  ensure (keys_ascend own) documents_not_sorted
  ok (record { previous_source = some source.key; seen_documents = seen; expected_first_doc = end })

unfoldable pub check_sources :
    List DocEntry → ℕ → List SourceEntry → SourceScan → Result Error SourceScan
unfolding check_source
check_sources documents source_id [] scan = ok scan
check_sources documents source_id (source ∷ sources) scan = do
  scan' ← check_source documents source_id source scan
  check_sources documents (suc source_id) sources scan'

-- `id >= start && id < start + source.doc_count`, for the source that the document names.
unfoldable pub in_source : Option SourceEntry → ℕ → Bool
in_source none id = false
in_source (some source) id = leb source.first_doc id && ltb id (source.first_doc + source.doc_count)

unfoldable pub all_in_sources : List SourceEntry → ℕ → List DocEntry → Bool
unfolding in_source
all_in_sources sources id [] = true
all_in_sources sources id (doc ∷ docs) =
    in_source (get_elem? sources doc.source_id) id && all_in_sources sources (suc id) docs

-- What the loop over the blocks carries.
pub record BlockScan : Type 0 where
  pub previous_pack : Option ℕ
  pub expected_offset : ℕ

-- `if previous_pack != Some(block.pack)`: the pack is a new one, and offsets start again.
unfoldable pub enter_pack : ℕ → Option ℕ → ℕ → Result Error BlockScan
enter_pack pack none offset = ok (record { previous_pack = some pack; expected_offset = 0 })
enter_pack pack (some previous) offset =
    if previous == pack
    then ok (record { previous_pack = some previous; expected_offset = offset })
    else (ensure (pack == (previous + 1) % 2 ^ 32) packs_not_contiguous
        >> ok (record { previous_pack = some pack; expected_offset = 0 }))

unfoldable pub check_blocks : List PackBlock → BlockScan → Result Error (Unit {0})
unfolding enter_pack
check_blocks [] scan = ok tt
check_blocks (block ∷ blocks) scan = do
  ensure (ltb 0 block.compressed_len) no_compressed_bytes
  ensure (ltb 0 block.decoded_len && leb block.decoded_len pack_block_bytes) invalid_decoded_len
  entered ← enter_pack block.pack scan.previous_pack scan.expected_offset
  ensure (block.offset == entered.expected_offset) blocks_not_contiguous
  offset ← context (checked_add 64 entered.expected_offset block.compressed_len) offsets_overflow
  check_blocks blocks (record { previous_pack = entered.previous_pack; expected_offset = offset })

-- Where the walk over the packed bytes stands: `rest` is the blocks from `next_block` on.
pub record PackWalk : Type 0 where
  pub next_block : ℕ
  pub next_offset : ℕ
  pub rest : List PackBlock

-- `while remaining > 0`: a round that stops inside its block has consumed all that remained, so the
-- recursion is on the blocks.
unfoldable pub consume : ℕ → ℕ → List PackBlock → ℕ → Result Error PackWalk
consume next_block next_offset [] remaining =
    if ltb 0 remaining
    then err outside_blocks
    else ok (record { next_block = next_block; next_offset = next_offset; rest = [] })
consume next_block next_offset (block ∷ rest) remaining =
    let consumed = min remaining (block.decoded_len - next_offset) in
    let further = consume (next_block + 1) 0 rest (remaining - consumed) in
    if ltb 0 remaining
    then (if ltb block.decoded_len next_offset
        then err offset_out_of_bounds
        else (if next_offset + consumed == block.decoded_len
            then further
            else ok (record {
              next_block = next_block;
              next_offset = next_offset + consumed;
              rest = block ∷ rest;
            })))
    else ok (record { next_block = next_block; next_offset = next_offset; rest = block ∷ rest })

unfoldable pub place_document : DocEntry → PackWalk → Result Error PackWalk
unfolding consume
place_document doc walk =
    if doc.decoded_size == 0
    then (ensure (doc.first_block == 0 && doc.block_offset == 0) empty_with_coordinates >> ok walk)
    else (ensure (doc.first_block == walk.next_block && doc.block_offset == walk.next_offset)
          coordinates_not_contiguous
        >> consume walk.next_block walk.next_offset walk.rest doc.decoded_size)

unfoldable pub place_documents : List DocEntry → PackWalk → Result Error PackWalk
unfolding place_document
place_documents [] walk = ok walk
place_documents (doc ∷ docs) walk = do walk' ← place_document doc walk; place_documents docs walk'

-- Both loops over the packed bytes, and the check that no decoded byte is left.
unfoldable pub check_packing : SegmentTables → Result Error (Unit {0})
unfolding place_documents
check_packing tables = do
  walk ←
      place_documents tables.documents
        (record { next_block = 0; next_offset = 0; rest = tables.blocks })
  ensure (walk.next_block == length tables.blocks && walk.next_offset == 0) unowned_bytes

unfoldable pub validate : SegmentTables → Result Error (Unit {0})
unfolding check_sources all_in_sources check_blocks check_packing
validate tables = do
  scan ←
      check_sources tables.documents 0 tables.sources
        (record { previous_source = none; seen_documents = []; expected_first_doc = 0 })
  ensure (scan.expected_first_doc == length tables.documents) unowned_documents
  ensure (all_in_sources tables.sources 0 tables.documents) outside_source
  _ ← check_blocks tables.blocks (record { previous_pack = none; expected_offset = 0 })
  check_packing tables
