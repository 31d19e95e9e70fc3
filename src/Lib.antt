-- ===== src/Lib.antt =====
-- The flashcache kernel module with its prefetcher: a block cache on a fast device in front of a slow
-- one, under the device mapper. Paths are from the repository's root.
--
-- The cache is an array of blocks in sets of `assoc` blocks. flashcache_map looks a request's sector
-- up in its set; a hit touches the block's place in the replacement lists, and a miss takes an invalid
-- block or else an old one. The prefetcher watches each process's requests, guesses the blocks to come
-- and reads them into memory.
--
--   - Device: the state, `struct cache_c` with its blocks and sets, of src/flashcache.h.
--   - Reclaim: src/flashcache_reclaim.c. Reclaim.Lists takes blocks out of the LRU lists of a set and
--     puts them in (flashcache_reclaim_remove_block_from_list and its kin); Reclaim.Policy promotes,
--     demotes, and chooses the block to give up (flashcache_lru_accessed,
--     flashcache_reclaim_lru_get_old_block, flashcache_reclaim_fifo_get_old_block). Reclaim.Shape says
--     what the links stand for, and the other modules are about the operations one by one.
--   - Subr: src/flashcache_subr.c. Subr.Blocks has the lists of invalid blocks and the hash chains
--     (flashcache_invalid_get, flashcache_hash_lookup and their kin).
--   - Main: src/flashcache_main.c. Main.Lookup has flashcache_lookup with its parts, and the marks of
--     fallow blocks.
--   - Io: the life of an I/O, of src/flashcache_main.c with the job queues of src/flashcache_subr.c.
--     Io.Jobs has the driver's state around the cache (pending jobs, job queues, what is asked of the
--     kernel), with flashcache_enq_pending, flashcache_deq_pending and flashcache_free_pending_jobs;
--     Io.Map flashcache_map; Io.Request flashcache_read and flashcache_write with their hits and misses;
--     Io.Inval flashcache_inval_blocks and flashcache_dirty_writeback; Io.Finish flashcache_io_callback
--     and flashcache_do_pending; Io.Metadata and Io.Complete the updates of the metadata on the device
--     (flashcache_md_write, flashcache_md_write_kickoff, flashcache_md_write_done), the other
--     callbacks and do_work; Io.Cleaning and Io.Merging flashcache_clean_set and
--     flashcache_merge_writes; Io.Syncing flashcache_sync_blocks; Io.Addresses the addresses of blocks on
--     the cache device. The other modules are about these.
--   - Ioctl: src/flashcache_ioctl.c. Ioctl.Sequential has skip_sequential_io, and Ioctl.Pids the lists of
--     processes and flashcache_uncacheable.
--   - Conf: src/flashcache_conf.c, the metadata on the cache device. Conf.Machine has the superblock, the
--     slots and the I/O that reaches them (flashcache_dm_io_sync_vm); Conf.Writer the loop that writes the
--     slots, Conf.Store flashcache_writeback_md_store, Conf.Load flashcache_writeback_load, and Conf.Create
--     flashcache_writeback_create and flashcache_writethrough_create. Conf.Durable joins Io.Metadata and
--     Conf.Load, and Conf.Existing says what is taken for a cache. The other modules are about these.
--   - Wt: the older write-through module, flashcache-wt/src/flashcache_wt.c. Wt.Cache has its lookup and its
--     invalidation (cache_lookup, cache_invalidate_blocks), and Wt.Io its requests and the ends of their I/O
--     (flashcache_wt_map, flashcache_wt_io_callback and their kin). The other modules are about these.
--   - Pfd: the prefetcher. Pfd.Stat has the access patterns of src/pfd_stat.c, and Pfd.Dbns the choice
--     of blocks; Pfd.Cache has the entries of src/pfd_cache.c, and Pfd.World runs of readers,
--     prefetches, dispatches, completions and resets in any order. The other modules are about these.
--   - Links: doubly linked lists over any store of links, which all of these use.
--   - Samples: a small cache, on which the theorems are applied in the modules named Tests and in
--     Io.BlockTests; Io.Samples has a driver around it.
--
-- How the code is read. Arrays are functions of the index, and pointers into an array are indices; a
-- NULL pointer is a number past the array. A failed VERIFY is `none`. A field of w bits that is
-- incremented or decremented wraps round at 2 ^ w. A link is below `assoc`, which is at most
-- FLASHCACHE_MAX_ASSOC = 8192, so it is never cut to its 16 bits. A `long` of src/pfd_stat.c is an
-- exact integer, for sectors are far below 2 ^ 63. Sections under a lock are atomic.
--
-- How I/O is read. A call that starts an I/O, ends a request, or starts a cleaning
-- (flashcache_clean_set, flashcache_sync_blocks) is an entry of the driver's `log`, and the end of an
-- I/O is a call of its callback, so an interleaving is a sequence of such calls. An allocation succeeds or fails as `allocs`
-- says, by its number. A bucket of pending jobs and a job queue are lists. FLASHCACHE_DO_CHECKSUMS is
-- off; flashcache_read is what follows its hooks under PREFETCHD_ON. A dereference of a null request is
-- `none`, too.
--
-- How the device is read. A slot of the metadata has an address, 32 to a sector, and the superblock is in
-- the first sector. Any I/O and any allocation may fail, and a failed write changes any part of what it was
-- to write. A call of src/flashcache_conf.c goes on, returns 1, or panics.
--
-- Fuel. A walk along the blocks of a set has `assoc` + 1 steps, one along the 64 entries of
-- pfd_stat.c 65, and one along the 32 flows 33: each node takes one step and the end one more. A
-- walk along a list of processes has as many steps as the list's count, which is enough for a list
-- that the count is true of. The loops of pfd_stat_get_prefetch_dbns have 2 * 256 + 3 steps, for at
-- most one turn of the outer loop stands between two of at most 256 steps of the inner one. An inner
-- loop of flashcache_merge_writes has `assoc` + 1 turns, for each but the last marks another block of
-- the set, and the loop of flashcache_sync_blocks one for each block. The loops of do_work have the
-- fuel that they are given, for a job can queue another one. The outer loop of
-- flashcache_writeback_load has a turn for each block, for each turn loads one at least.
--
-- Not modelled: the kernel's services. jhash_1word and sort are parameters. The statistics, the error
-- counts, the error injection and the time stamps of src/flashcache_main.c are left out;
-- src/flashcache_kcopy.c, the arguments and the registration of a device and the texts of its status
-- (src/flashcache_conf.c), the adding and expiry of processes, the ioctls, the statistics
-- (src/flashcache_procfs.c), scripts and tools are left out, and so are src/prefetchd_cache.c and
-- src/prefetchd_stat.c, which the Makefile does not build. Of flashcache-wt/src/flashcache_wt.c, the
-- construction of a device, the sysctl entries, the status, the checksums and the loop of do_work are
-- left out.
pub mod Prelude
pub mod Links
pub mod Device
pub mod Samples
pub mod Reclaim
pub mod Subr
pub mod Main
pub mod Io
pub mod Ioctl
pub mod Conf
pub mod Wt
pub mod Pfd
