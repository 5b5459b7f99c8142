-- ===== src/Format/Runs.antt =====
-- Validation of one segment: one source, of one document in one block.
use holys.Common.{◌≡◌, refl, [], ◌∷◌, none, ok, false}
use holys.Format.{SourceEntry, DocEntry, PackBlock, SegmentTables}
use holys.Format.Validate.{validate}
use holys.Format.Packing.{document_bytes, block_bytes, validate-bytes}

abbrev one_source : SourceEntry
one_source = record {
  key = 97 ∷ [];
  version = [];
  encoded_size = 9;
  first_doc = 0;
  doc_count = 1;
  failed = false;
  retry = false;
}

abbrev one_document : DocEntry
one_document = record {
  display_key = 97 ∷ [];
  source_id = 0;
  member_path = none;
  decoded_size = 10;
  first_block = 0;
  block_offset = 0;
  max_line_len = 4;
  block_newlines = [];
}

abbrev one_block : PackBlock
one_block = record { pack = 0; offset = 0; compressed_len = 6; decoded_len = 10; hash = [] }

abbrev one_segment : SegmentTables
one_segment = record {
  sources = one_source ∷ [];
  documents = one_document ∷ [];
  blocks = one_block ∷ [];
}

one_segment_validates : validate one_segment ≡ ok tt
unfolding validate
one_segment_validates = refl

validate-bytes_example : document_bytes (one_document ∷ []) ≡ block_bytes (one_block ∷ [])
validate-bytes_example = validate-bytes one_segment one_segment_validates
