-- ===== src/PostingsTable.antt =====
-- crates/index/src/postings_table.rs: the SHA-256 of every 64 KiB of the postings, behind them in the same
-- file, and the reads that it verifies.
pub mod Writer
pub mod Index
pub mod Covered
pub mod Written
pub mod Verified
mod Runs
