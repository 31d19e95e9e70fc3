-- ===== src/Pfd.antt =====
-- The prefetcher: the access patterns of src/pfd_stat.c and the blocks of src/pfd_cache.c.
pub mod Stat
pub mod Runs
pub mod Pattern
pub mod Queue
pub mod Search
pub mod Update
pub mod Dbns
pub mod Fits
pub mod Init
pub mod Cache
pub mod Sections
pub mod World
pub mod Readers
mod Tests
