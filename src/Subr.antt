-- ===== src/Subr.antt =====
-- src/flashcache_subr.c: the per-set lists of invalid blocks and hash chains of valid ones.
pub mod Blocks
pub mod Frame
pub mod Results
pub mod Chains
mod Tests
