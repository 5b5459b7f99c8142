-- ===== src/SparseTable.antt =====
-- crates/index/src/sparse_table.rs: the sorted table of the hashes of sparse grams, in blocks of
-- delta-coded varints behind an index of their first hashes.
pub mod Errors
pub mod Varint
pub mod VarintExact
pub mod Entry
pub mod EntryTrip
pub mod Writer
pub mod WriterBlocks
pub mod WriterTrip
pub mod Index
pub mod IndexTiles
pub mod IndexValid
pub mod Ends
mod Runs
