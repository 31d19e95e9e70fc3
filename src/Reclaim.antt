-- ===== src/Reclaim.antt =====
-- src/flashcache_reclaim.c: the LRU and FIFO replacement of a cache set.
pub mod Lists
pub mod Shape
pub mod Frame
pub mod Unlink
pub mod Link
pub mod Remove
pub mod Add
pub mod Policy
pub mod Moves
pub mod Exchange
pub mod Promote
pub mod Accessed
pub mod Oldest
pub mod Balance
pub mod Shift
mod Tests
