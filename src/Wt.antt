-- ===== src/Wt.antt =====
-- The write-through module, of flashcache-wt/src/flashcache_wt.c.
pub mod Cache
pub mod Io
mod Sweep
mod Lookup
mod Stale
mod Served
mod Writes
mod Mapped
mod Ends
mod Tests
