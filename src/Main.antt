-- ===== src/Main.antt =====
-- src/flashcache_main.c: the lookup of a block and the marks of blocks that lie fallow.
pub mod Lookup
pub mod Fallow
mod Tests
