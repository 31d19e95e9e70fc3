-- ===== src/Io/Jobs.antt =====
-- The jobs of the driver and its queues (src/flashcache.h, src/flashcache_subr.c).
-- A call of the kernel that starts an I/O, ends a request or schedules work is an entry of `log`, the
-- newest first; the I/O ends later by a call of its callback. An allocation succeeds as `allocs` says,
-- by the number of the allocation. Statistics, error counts, error injection and locks are left out.
-- Each queue of struct list_head and each bucket of pending jobs is a list, its head first.
-- `none` is a failed VERIFY.
use flashcache_ubuntu_xenial.Prelude.{
  ℕ, ◌+◌, ◌-◌, ◌%◌, ◌^◌, Bool, true, false, ◌&&◌, Option, some, ltb, leb, ◌==◌, if◌then◌else◌,
  guard, ◌>>=◌, ◌>>◌, update, List, [], ◌∷◌, length, sub_word,
}
use flashcache_ubuntu_xenial.Device.{CacheC, CacheBlock, CacheState, u16, u32, u64, set_block}
use flashcache_ubuntu_xenial.Main.Lookup.{put_state}
use flashcache_ubuntu_xenial.Ioctl.Sequential.{SeqState}
use flashcache_ubuntu_xenial.Ioctl.Pids.{PidState}

-- bio_data_dir
pub data Direction : Type 0 where
  read write : Direction

-- A request: `sectors` is to_sector(bi_size), `barrier` is bio_barrier, and `id` tells requests apart.
pub record Bio : Type 0 where
  pub id : ℕ
  pub sector : ℕ
  pub sectors : ℕ
  pub dir : Direction
  pub barrier : Bool

-- bi_sector + (to_sector(bi_size) - 1)
abbrev pub last_sector : Bio → ℕ
last_sector bio = (bio.sector + sub_word u64 bio.sectors 1) % u64

-- READCACHE .. WRITEDISK_SYNC
pub data Action : Type 0 where
  read_cache write_cache read_disk write_disk read_fill invalidate write_disk_sync : Action

pub record PendingJob : Type 0 where
  pub bio : Bio
  pub action : Action
  pub index : ℕ

pub record KcachedJob : Type 0 where
  pub bio : Option Bio
  pub index : ℕ
  pub action : Action
  pub error : Bool

-- A job of an uncached I/O, whose index is -1 in the source.
pub record UncachedJob : Type 0 where
  pub bio : Bio
  pub error : Bool

-- A slot of the metadata on the device: struct flash_cacheblock.
pub record MdSlot : Type 0 where
  pub dbn : ℕ
  pub valid : Bool
  pub invalid : Bool
  pub dirty : Bool

pub record MdBlockHead : Type 0 where
  pub nr_in_prog : Bool
  pub queued_updates : List KcachedJob
  pub md_io_inprog : List KcachedJob

-- The job_io_regions that an I/O goes to: the cache's, the disk's, or both in one I/O.
pub data Region : Type 0 where
  cache disk both : Region

-- What is asked of the kernel: the end of a request with or without an error, the I/O of a job in a
-- direction (dm_io_async_bvec), the copy of a dirty block to the disk, an I/O to the disk alone, the
-- write of a metadata block for a job, and the cleaning of a set.
pub data Effect : Type 0 where
  end_io : Bio → Bool → Effect
  start_io : Region → Direction → KcachedJob → Effect
  start_copy : KcachedJob → Effect
  start_uncached : Bio → Effect
  write_md : ℕ → (ℕ → MdSlot) → KcachedJob → Effect
  clean_set : ℕ → ℕ → Effect
  sync_blocks : Effect

pub record Driver : Type 0 where
  pub dmc : CacheC
  pub seq : SeqState
  pub pids : PidState
  pub pending_job_hashbuckets : ℕ → List PendingJob
  pub md_blocks_buf : ℕ → MdBlockHead
  pub pending_jobs : List KcachedJob
  pub io_jobs : List KcachedJob
  pub md_io_jobs : List KcachedJob
  pub md_complete_jobs : List KcachedJob
  pub uncached_io_complete_jobs : List UncachedJob
  pub allocs : ℕ → Bool
  pub nr_allocs : ℕ
  pub log : List Effect

abbrev pub emit : Driver → Effect → Driver
emit x e = record x { log = e ∷ x.log }

abbrev pub with_dmc : Driver → CacheC → Driver
with_dmc x d = record x { dmc = d }

abbrev pub block : Driver → ℕ → CacheBlock
block x index = x.dmc.cache index

abbrev pub state_of : Driver → ℕ → CacheState
state_of x index = (block x index).cache_state

abbrev pub set_state : Driver → ℕ → CacheState → Driver
set_state x index s = with_dmc x (put_state x.dmc index s)

-- cache_state & ~BLOCK_IO_INPROG
abbrev pub idle : CacheState → CacheState
idle s = record s {
  disk_read_in_prog = false;
  disk_write_in_prog = false;
  cache_read_in_prog = false;
  cache_write_in_prog = false;
}

-- An allocation: whether it succeeds, and the state after it.
abbrev pub can_alloc : Driver → Bool
can_alloc x = x.allocs x.nr_allocs

abbrev pub after_alloc : Driver → Driver
after_alloc x = record x { nr_allocs = x.nr_allocs + 1 }

abbrev pub put_nr_queued : Driver → ℕ → ℕ → Driver
put_nr_queued x index v =
    with_dmc x (set_block x.dmc index (record (block x index) { nr_queued = v }))

-- `nr_queued` is an int16_t.
abbrev pub has_queued : Driver → ℕ → Bool
has_queued x index = ltb 0 (block x index).nr_queued && ltb (block x index).nr_queued (2 ^ 15)

abbrev pub inc_jobs : Driver → Driver
inc_jobs x = with_dmc x (record x.dmc { nr_jobs = (x.dmc.nr_jobs + 1) % u32 })

-- The job is freed and counted out.
abbrev pub dec_jobs : Driver → Driver
dec_jobs x = with_dmc x (record x.dmc { nr_jobs = sub_word u32 x.dmc.nr_jobs 1 })

-- FLASHCACHE_PENDING_JOB_HASH
abbrev pub pending_job_hash : ℕ → ℕ
pending_job_hash index = index % 32

-- flashcache_enq_pending, with the job that it is given.
unfoldable pub enq_pending : Driver → Bio → ℕ → Action → Driver
enq_pending x bio index action =
    let h = pending_job_hash index in
    let x' = put_nr_queued x index (((block x index).nr_queued + 1) % u16) in
    record x' {
      pending_job_hashbuckets =
          update x.pending_job_hashbuckets h
            (record { bio = bio; action = action; index = index } ∷ x.pending_job_hashbuckets h);
      dmc = record x'.dmc { pending_jobs_count = (x.dmc.pending_jobs_count + 1) % u32 };
    }

-- The loop of flashcache_deq_pending: the jobs of the block are moved to the head of `movelist`.
unfoldable pub split_jobs :
    ℕ → List PendingJob → List PendingJob → List PendingJob × List PendingJob
split_jobs index [] movelist = (movelist, [])
split_jobs index (node ∷ jobs) movelist =
    let taken = split_jobs index jobs (node ∷ movelist) in
    let (moved, kept) = split_jobs index jobs movelist in
    if node.index == index then taken else (moved, node ∷ kept)

-- atomic_read(&pending_jobs_count) >= moved, as ints: the count is a 32-bit pattern.
abbrev pub at_least : ℕ → ℕ → Bool
at_least count moved = leb moved count && ltb count (2 ^ 31)

-- flashcache_deq_pending
unfoldable pub deq_pending : Driver → ℕ → Option (Driver × List PendingJob)
deq_pending x index =
    let h = pending_job_hash index in
    let (moved, kept) = split_jobs index (x.pending_job_hashbuckets h) [] in
    guard (at_least x.dmc.pending_jobs_count (length moved))
    >> some (
      record x {
        pending_job_hashbuckets = update x.pending_job_hashbuckets h kept;
        dmc = record x.dmc { pending_jobs_count = x.dmc.pending_jobs_count - length moved };
      },
      moved,
    )

-- One turn of each loop over dequeued jobs.
abbrev pub count_out : Driver → ℕ → Option Driver
count_out x index =
    guard (has_queued x index) >> some (put_nr_queued x index ((block x index).nr_queued - 1))

-- The loop of flashcache_free_pending_jobs.
unfoldable pub fail_jobs : Driver → ℕ → Bool → List PendingJob → Option Driver
fail_jobs x index error [] = some x
fail_jobs x index error (job ∷ jobs) =
    count_out x index >>= λ x'. fail_jobs (emit x' (Effect.end_io job.bio error)) index error jobs

-- flashcache_free_pending_jobs
unfoldable pub free_pending_jobs : Driver → ℕ → Bool → Option Driver
free_pending_jobs x index error = do
  (x1, jobs) ← deq_pending x index
  x2 ← fail_jobs x1 index error jobs
  guard ((block x2 index).nr_queued == 0)
  some x2

-- flashcache_start_uncached_io
unfoldable pub start_uncached_io : Driver → Bio → Driver
start_uncached_io x bio =
    if can_alloc x
    then emit (inc_jobs (after_alloc x)) (Effect.start_uncached bio)
    else emit (after_alloc x) (Effect.end_io bio true)
