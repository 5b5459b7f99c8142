-- ===== src/Format.antt =====
-- crates/index/src/format.rs: the tables of a segment. A string is the list of its bytes, whose order
-- is the order of `str`; the source encoding and the hash of a block are not read here and left out.
pub mod Validate
pub mod Packing
pub mod Runs
use holys.Common.{ℕ, Bool, List, Option}

pub record SourceEntry : Type 0 where
  pub key : List ℕ
  pub version : List ℕ
  pub encoded_size : ℕ
  pub first_doc : ℕ
  pub doc_count : ℕ
  pub failed : Bool
  pub retry : Bool

pub record DocEntry : Type 0 where
  pub display_key : List ℕ
  pub source_id : ℕ
  pub member_path : Option (List ℕ)
  pub decoded_size : ℕ
  pub first_block : ℕ
  pub block_offset : ℕ
  pub max_line_len : ℕ
  pub block_newlines : List ℕ

pub record PackBlock : Type 0 where
  pub pack : ℕ
  pub offset : ℕ
  pub compressed_len : ℕ
  pub decoded_len : ℕ
  pub hash : List ℕ

pub record SegmentTables : Type 0 where
  pub sources : List SourceEntry
  pub documents : List DocEntry
  pub blocks : List PackBlock
