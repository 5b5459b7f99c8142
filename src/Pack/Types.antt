-- ===== src/Pack/Types.antt =====
-- The data of crates/index/src/pack.rs that its planning and its builder share.
use holys.Common.{ℕ, ◌*◌}

abbrev pub range_bytes : ℕ
range_bytes = 8 * 1024 * 1024

abbrev pub large_document_bytes : ℕ
large_document_bytes = 16 * 1024 * 1024

abbrev pub window_bytes : ℕ
window_bytes = 32 * 1024 * 1024

abbrev pub window_documents : ℕ
window_documents = 1024

abbrev pub region_gap_bytes : ℕ
region_gap_bytes = 1024 * 1024

abbrev pub region_max_ranges : ℕ
region_max_ranges = 512

pub data Error : Type 0 where
  empty_with_coordinates : Error
  outside_blocks : Error
  offset_out_of_bounds : Error
  no_available_bytes : Error
  blocks_ended : Error
  panics : Error
  missing_block : Error
  run_overflows : Error
  outside_document : Error
  span_zero : Error
  coverage_overflows : Error
  range_invalid : Error
  block_missing : Error
  range_overflows : Error
  block_range_outside : Error
  range_incomplete : Error
  line_outside : Error
  newlines_missing : Error
  line_overflows : Error
  newlines_inconsistent : Error

pub record PackSlice : Type 0 where
  pub first_block : ℕ
  pub block_offset : ℕ

pub record PackRequest : Type 0 where
  pub index : ℕ
  pub slice : PackSlice
  pub decoded_size : ℕ

pub record DocumentBlock : Type 0 where
  pub block_id : ℕ
  pub start : ℕ
  pub offset : ℕ
  pub len : ℕ
