-- ===== src/Compact.antt =====
-- crates/index/src/segment/compact.rs: the choice of two segments to merge, and the posting lists of the
-- merged segment.
pub mod Entry
pub mod Live
pub mod Victim
pub mod Chosen
pub mod Fits
mod Runs
