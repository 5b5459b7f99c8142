-- ===== src/Eval.antt =====
-- crates/index/src/eval.rs: gram queries bound to the term dictionary, and their evaluation over
-- posting lists by set algebra on ascending ids.
pub mod Resolve
pub mod Select
pub mod Pack
pub mod Sets
pub mod Prune
pub mod Superset
pub mod Runs
pub mod Returns
pub mod Binds
pub mod Collect
