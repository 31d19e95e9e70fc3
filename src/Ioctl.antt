-- ===== src/Ioctl.antt =====
-- src/flashcache_ioctl.c: which requests bypass the cache.
pub mod Sequential
pub mod Flows
pub mod Skip
pub mod Pids
mod Tests
