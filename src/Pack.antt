-- ===== src/Pack.antt =====
-- crates/index/src/pack.rs: documents in compressed blocks of 128 KiB, the blocks end to end in packs,
-- and the plan by which a search reads parts of them.
pub mod Types
pub mod Spans
pub mod Parts
pub mod Reads
pub mod ReadsWhole
pub mod Batches
pub mod Windows
pub mod Contiguous
pub mod Plan
pub mod PlannedMerge
pub mod Planned
pub mod Lines
pub mod Newlines
pub mod LineStarts
pub mod LinesFound
mod Runs
