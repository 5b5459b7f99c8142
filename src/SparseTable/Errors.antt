-- ===== src/SparseTable/Errors.antt =====
-- The errors of crates/index/src/sparse_table.rs; `stuck` is no Rust value: the model's fuel ran out.
use holys.Eval.Resolve.{Error as PostingError}

pub data Error : Type 0 where
  ends_inside varint_overflows too_short not_canonical zero_length not_ascending hash_overflows :
      Error
  first_delta singleton_with_len missing_len stuck : Error
  posting_refused : PostingError → Error
  truncated magic_mismatch index_overflows index_not_abutting index_outside_tail
        index_len_mismatch :
      Error
  blocks_not_contiguous block_len_underflows block_len_invalid index_not_sorted count_mismatch :
      Error
