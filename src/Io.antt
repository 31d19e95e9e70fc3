-- ===== src/Io.antt =====
-- The life of an I/O: src/flashcache_main.c with the job queues of src/flashcache_subr.c.
pub mod Jobs
pub mod Queue
pub mod Waiting
pub mod Failing
pub mod Metadata
pub mod Image
pub mod Updates
pub mod Addresses
pub mod Inval
pub mod Coherence
pub mod Copies
pub mod Cleaning
pub mod Limits
pub mod Choice
pub mod Merging
pub mod Finish
pub mod Complete
pub mod Dirty
pub mod Syncing
pub mod Giving
pub mod Relaunching
pub mod MdErrors
pub mod Request
pub mod Held
pub mod Hits
pub mod Map
pub mod Samples
mod Tests
mod BlockTests
