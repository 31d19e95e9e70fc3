-- ===== src/Conf.antt =====
-- The metadata on the cache device, and its life across removals and crashes: src/flashcache_conf.c.
pub mod Machine
pub mod Writer
pub mod Store
pub mod Load
pub mod Create
mod Exits
mod Filling
mod Turns
mod Written
mod Trusted
mod Loading
mod Reading
mod Marking
mod Reload
mod Recovery
mod Reboot
mod Created
mod Sizes
mod Existing
mod Durable
mod Tests
