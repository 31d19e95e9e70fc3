-- ===== src/Io/Finish.antt =====
-- The ends of I/Os (src/flashcache_main.c): the callbacks of the kernel, and what they do for the
-- requests that wait for the block. `none` is a failed VERIFY or a null request.
-- FLASHCACHE_DO_CHECKSUMS is off.
use flashcache_ubuntu_xenial.Prelude.{
  ℕ, Bool, true, false, not, ◌&&◌, ◌||◌, Option, some, none, ◌==◌, if◌then◌else◌, guard, ◌>>=◌,
  ◌>>◌, List, [], ◌∷◌, ◌++◌, sub_word,
}
use flashcache_ubuntu_xenial.Device.{CacheC, CacheMode, CacheState, u32}
use flashcache_ubuntu_xenial.Subr.Blocks.{hash_remove, invalid_insert}
use flashcache_ubuntu_xenial.Main.Lookup.{clear_fallow, put_state, is_write_back}
use flashcache_ubuntu_xenial.Io.Jobs.{
  Driver, Bio, Direction, Region, Action, PendingJob, KcachedJob, Effect, emit, with_dmc, block,
  state_of, set_state, idle, dec_jobs, has_queued, count_out, deq_pending, free_pending_jobs,
  start_uncached_io,
}
use flashcache_ubuntu_xenial.Io.Metadata.{md_write}
use flashcache_ubuntu_xenial.Io.Inval.{Queued, inval_blocks, dirty_writeback}

abbrev pub is_write_through : CacheMode → Bool
is_write_through CacheMode.write_back = false
is_write_through CacheMode.write_through = true
is_write_through CacheMode.write_around = false

abbrev pub push_pending : Driver → KcachedJob → Driver
push_pending x job = record x { pending_jobs = x.pending_jobs ++ job ∷ [] }

abbrev pub push_io : Driver → KcachedJob → Driver
push_io x job = record x { io_jobs = x.io_jobs ++ job ∷ [] }

-- The block is free again, and the job is gone.
abbrev pub free_block : Driver → ℕ → Driver
free_block x index = dec_jobs (set_state x index (idle (state_of x index)))

-- The end of flashcache_io_callback: the request ends, unless the disk will be tried for it, and the
-- job waits in the queue if there is an error or if requests wait for the block.
unfoldable pub finish_io : Driver → Bio → KcachedJob → Bool → Driver
finish_io x bio job disk_error =
    let ends = not job.error || is_write_back x.dmc.cache_mode || disk_error in
    let y = if ends then emit x (Effect.end_io bio job.error) else x in
    let job' : KcachedJob = if ends then record job { bio = none } else job in
    if job.error || has_queued y job.index then push_pending y job' else free_block y job.index

-- An error outside write back mode makes the device bypass the cache.
abbrev pub note_error : Driver → Bool → Driver
note_error x error =
    if error && not x.dmc.bypass_cache && not (is_write_back x.dmc.cache_mode)
    then with_dmc x (record x.dmc { bypass_cache = true })
    else x

-- The switch of flashcache_io_callback on the action.
unfoldable pub end_action : Action → Driver → Bio → KcachedJob → Option Driver
end_action Action.read_disk x bio job =
    guard (state_of x job.index).disk_read_in_prog
    >> some (
        if job.error
        then finish_io x bio job true
        else push_io x (record job { action = Action.read_fill }))
end_action Action.read_cache x bio job =
    guard (state_of x job.index).cache_read_in_prog >> some (finish_io x bio job false)
end_action Action.read_fill x bio job =
    guard (state_of x job.index).disk_read_in_prog >> some (finish_io x bio job false)
end_action Action.write_cache x bio job =
    guard (state_of x job.index).cache_write_in_prog
    >> (if job.error
        then some (finish_io x bio job (is_write_through x.dmc.cache_mode))
        else if is_write_back x.dmc.cache_mode
        then (if (state_of x job.index).dirty
            then some (finish_io x bio job false)
            else md_write x job)
        else (guard (is_write_through x.dmc.cache_mode) >> some (finish_io x bio job false)))
end_action Action.write_disk x bio job = some (finish_io x bio job false)
end_action Action.invalidate x bio job = some (finish_io x bio job false)
end_action Action.write_disk_sync x bio job = some (finish_io x bio job false)

-- flashcache_io_callback
unfoldable pub io_callback : Driver → Bool → KcachedJob → Option Driver
io_callback x error job = elim job.bio [
  | none ↦ none
  | some bio ↦ end_action job.action (note_error x error) bio (record job { error = error })
]

-- flashcache_do_io
unfoldable pub do_io : Driver → KcachedJob → Option Driver
do_io x job = elim job.action [
  | Action.read_fill ↦ some (emit x (Effect.start_io Region.cache Direction.write job))
  | Action.read_cache ↦ none
  | Action.write_cache ↦ none
  | Action.read_disk ↦ none
  | Action.write_disk ↦ none
  | Action.invalidate ↦ none
  | Action.write_disk_sync ↦ none
]

-- The loop of flashcache_do_pending_error that counts out the dequeued jobs.
unfoldable pub count_jobs : Driver → ℕ → List PendingJob → Option Driver
count_jobs x index [] = some x
count_jobs x index (job ∷ jobs) = count_out x index >>= λ y. count_jobs y index jobs

-- The loop that sends the dequeued requests to the disk.
unfoldable pub relaunch : Driver → List PendingJob → Driver
relaunch x [] = x
relaunch x (job ∷ jobs) = relaunch (start_uncached_io x job.bio) jobs

-- What flashcache_do_pending_error does with the pending jobs of a block.
unfoldable pub answer_pending : Driver → KcachedJob → Option Driver
answer_pending x job = elim job.bio [
  | none ↦ free_pending_jobs x job.index job.error
  | some bio ↦ do
    guard (not (is_write_back x.dmc.cache_mode))
    (y, jobs) ← deq_pending x job.index
    z ← count_jobs y job.index jobs
    guard ((block z job.index).nr_queued == 0)
    some (relaunch (start_uncached_io z bio) jobs)
]

-- cache_state &= ~VALID, and |= INVALID
abbrev pub unvalid : CacheState → CacheState
unvalid s = record s { valid = false; invalid = true }

-- What flashcache_do_pending_noerror does after flashcache_inval_blocks.
abbrev pub after_inval : Bio → Driver × Queued → Driver
after_inval bio (x, Queued.no_memory) = emit x (Effect.end_io bio true)
after_inval bio (x, Queued.queued) = x
after_inval bio (x, Queued.not_queued) = start_uncached_io x bio

-- flashcache_do_pending_noerror for a dirty block.
unfoldable pub write_back_dirty : Driver → ℕ → Option Driver
write_back_dirty x index =
    let s = idle (state_of x index) in
    do
      guard (is_write_back x.dmc.cache_mode)
      d ← clear_fallow (put_state x.dmc index (record s { disk_write_in_prog = true })) index
      dirty_writeback (with_dmc x d) index

module _ (jhash_1word : ℕ → ℕ → ℕ) where
  -- A valid block leaves its hash chain, and is counted out.
  unfoldable pub unhash : CacheC → ℕ → Option CacheC
  unhash d index =
      hash_remove jhash_1word (record d { cached_blocks = sub_word u32 d.cached_blocks 1 }) index
      >>= λ d1. some (put_state d1 index (unvalid (d1.cache index).cache_state))

  -- A block that is not dirty becomes invalid, and one that is dirty stays.
  unfoldable pub give_up : CacheC → ℕ → Option CacheC
  give_up d index =
      let s = (d.cache index).cache_state in
      guard s.valid
      >> (if s.dirty
          then (guard (is_write_back d.cache_mode) >> some (put_state d index (idle s)))
          else (unhash d index >>= λ d1.
              invalid_insert (put_state d1 index (idle (d1.cache index).cache_state)) index))

  -- flashcache_do_pending_error
  unfoldable pub do_pending_error : Driver → KcachedJob → Option Driver
  do_pending_error x job = do
    d ← give_up x.dmc job.index
    y ← answer_pending (with_dmc x d) job
    some (dec_jobs y)

  -- One dequeued job of flashcache_do_pending_noerror.
  unfoldable pub rerun : Driver → PendingJob → Option Driver
  rerun x job = elim job.action [
    | Action.invalidate ↦ inval_blocks jhash_1word x job.bio >>= λ r. some (after_inval job.bio r)
    | Action.read_cache ↦ some (start_uncached_io x job.bio)
    | Action.write_cache ↦ some (start_uncached_io x job.bio)
    | Action.read_disk ↦ some (start_uncached_io x job.bio)
    | Action.write_disk ↦ some (start_uncached_io x job.bio)
    | Action.read_fill ↦ some (start_uncached_io x job.bio)
    | Action.write_disk_sync ↦ some (start_uncached_io x job.bio)
  ]

  -- The loop of flashcache_do_pending_noerror.
  unfoldable pub rerun_jobs : Driver → ℕ → List PendingJob → Option Driver
  rerun_jobs x index [] = some x
  rerun_jobs x index (job ∷ jobs) = do
    guard (not (state_of x index).dirty)
    y ← count_out x index
    z ← rerun y job
    rerun_jobs z index jobs

  -- The same for a block that is not: it is in limbo until the pending requests are done.
  unfoldable pub drain : Driver → ℕ → Option Driver
  drain x index = do
    guard (state_of x index).valid
    d ← unhash x.dmc index
    (y, jobs) ← deq_pending (with_dmc x d) index
    z ← rerun_jobs y index jobs
    guard ((block z index).nr_queued == 0)
    d' ← invalid_insert (put_state z.dmc index (idle (state_of z index))) index
    some (with_dmc z d')

  -- flashcache_do_pending_noerror
  unfoldable pub do_pending_noerror : Driver → KcachedJob → Option Driver
  do_pending_noerror x job =
      (if (state_of x job.index).dirty then write_back_dirty x job.index else drain x job.index)
      >>= λ y. some (dec_jobs y)

  -- flashcache_do_pending
  abbrev pub do_pending : Driver → KcachedJob → Option Driver
  do_pending x job = if job.error then do_pending_error x job else do_pending_noerror x job
