-- ===== src/Io/Complete.antt =====
-- The ends of metadata writes, of copies to the disk and of uncached I/Os (src/flashcache_main.c), and
-- the work queue (src/flashcache_subr.c). `none` is a failed VERIFY, a null request, or a loop out of
-- fuel.
use flashcache_ubuntu_xenial.Prelude.{
  ℕ, zero, suc, ◌+◌, ◌-◌, ◌/◌, ◌%◌, ◌^◌, Bool, true, false, not, ◌&&◌, ◌||◌, Option, some, none,
  ltb, if◌then◌else◌, guard, ◌>>=◌, ◌>>◌, List, [], ◌∷◌, ◌++◌,
}
use flashcache_ubuntu_xenial.Device.{CacheC, u16, u32, set_set}
use flashcache_ubuntu_xenial.Io.Jobs.{
  Driver, Action, KcachedJob, UncachedJob, Effect, emit, with_dmc, state_of, set_state, dec_jobs,
  has_queued, MdSlot,
}
use flashcache_ubuntu_xenial.Io.Metadata.{
  updates_md, is_write_cache, head_of, put_md_head, md_write, md_write_kickoff, next_update,
}
use flashcache_ubuntu_xenial.Io.Inval.{Queued, inval_blocks, dec_clean}
use flashcache_ubuntu_xenial.Io.Finish.{free_block, do_pending, do_io}

-- `nr_dirty` of the set and of the cache.
abbrev pub inc_dirty : CacheC → ℕ → CacheC
inc_dirty d set =
    set_set (record d { nr_dirty = (d.nr_dirty + 1) % u32 }) set
      (record (d.cache_sets set) { nr_dirty = ((d.cache_sets set).nr_dirty + 1) % u16 })

abbrev pub dec_dirty : CacheC → ℕ → CacheC
dec_dirty d set =
    set_set (record d { nr_dirty = d.nr_dirty - 1 }) set
      (record (d.cache_sets set) { nr_dirty = (d.cache_sets set).nr_dirty - 1 })

-- atomic_read of a counter, as an int, is more than 0.
abbrev pub positive : ℕ → Bool
positive v = ltb 0 v && ltb v (2 ^ 31)

-- A cleaning of the set is counted out.
unfoldable pub end_clean : Driver → ℕ → Option Driver
end_clean x set =
    guard (ltb 0 (x.dmc.cache_sets set).clean_inprog)
    >> (guard (positive x.dmc.clean_inprog) >> some (with_dmc x (dec_clean x.dmc set)))

-- The dirty bit of the block of a job whose metadata is written.
unfoldable pub mark_dirty : Driver → ℕ → Driver
mark_dirty x index =
    let s = state_of x index in
    let d = if s.dirty then x.dmc else inc_dirty x.dmc (index / x.dmc.assoc) in
    set_state (with_dmc x d) index (record s { dirty = true })

unfoldable pub mark_not_dirty : Driver → ℕ → Option Driver
mark_not_dirty x index =
    let set = index / x.dmc.assoc in
    let y = set_state x index (record (state_of x index) { dirty = false }) in
    guard (ltb 0 (x.dmc.cache_sets set).nr_dirty)
    >> (guard (positive x.dmc.nr_dirty) >> some (with_dmc y (dec_dirty y.dmc set)))

-- What a cleaning leads to: more of the set, or more of the whole cache.
abbrev pub more_cleaning : Action → ℕ → Effect
more_cleaning Action.write_disk set = Effect.clean_set set 0
more_cleaning Action.write_disk_sync set = Effect.sync_blocks
more_cleaning Action.read_cache set = Effect.sync_blocks
more_cleaning Action.write_cache set = Effect.sync_blocks
more_cleaning Action.read_disk set = Effect.sync_blocks
more_cleaning Action.read_fill set = Effect.sync_blocks
more_cleaning Action.invalidate set = Effect.sync_blocks

module _ (jhash_1word : ℕ → ℕ → ℕ) where
  -- The requests that wait for the block are looked at, or the block is free again.
  unfoldable pub release : Driver → KcachedJob → Option Driver
  release x job =
      if job.error || has_queued x job.index
      then do_pending jhash_1word x job
      else some (free_block x job.index)

  -- One WRITECACHE job of flashcache_md_write_done.
  unfoldable pub write_done : Driver → KcachedJob → Option Driver
  write_done x job = elim job.bio [
    | none ↦ none
    | some bio ↦
        let y = if job.error then x else mark_dirty x job.index in
        release (emit y (Effect.end_io bio job.error)) job
  ]

  -- One WRITEDISK or WRITEDISK_SYNC job of flashcache_md_write_done.
  unfoldable pub clean_done : Driver → KcachedJob → Option Driver
  clean_done x job =
      let set = job.index / x.dmc.assoc in
      do
        y ← (if job.error then some x else mark_not_dirty x job.index)
        z ← end_clean y set
        r ← release z job
        some (emit r (more_cleaning job.action set))

  -- The loop of flashcache_md_write_done, with the error of the write.
  unfoldable pub jobs_done : Driver → Bool → List KcachedJob → Option Driver
  jobs_done x error [] = some x
  jobs_done x error (job ∷ jobs) =
      let job' : KcachedJob = record job { error = error } in
      (if is_write_cache job.action then write_done x job' else clean_done x job') >>= λ y.
      jobs_done y error jobs

  -- flashcache_md_write_done; `old` is what the next page to be written holds.
  unfoldable pub md_write_done : (ℕ → MdSlot) → Driver → KcachedJob → Option Driver
  md_write_done old x job =
      let h = head_of x job.index in
      let x' = put_md_head x job.index (record h { md_io_inprog = [] }) in
      do
        guard (updates_md job.action)
        y ← jobs_done x' job.error (job ∷ h.md_io_inprog)
        next_update old y job.index (head_of y job.index)

  -- flashcache_kcopyd_callback
  unfoldable pub kcopyd_callback : Driver → Bool → Bool → KcachedJob → Option Driver
  kcopyd_callback x read_err write_err job =
      let s = state_of x job.index in
      let set = job.index / x.dmc.assoc in
      elim job.bio [
        | some bio ↦ none
        | none ↦
            guard (s.disk_write_in_prog || s.valid || s.dirty)
            >> (if not read_err && not write_err then md_write x job else (do
              y ← end_clean x set
              z ← do_pending jhash_1word y (record job { error = true })
              some (emit z (Effect.clean_set set 0))))
      ]

  -- flashcache_uncached_io_complete
  unfoldable pub uncached_io_complete : Driver → UncachedJob → Option Driver
  uncached_io_complete x job = inval_blocks jhash_1word x job.bio >>= λ (y, q). some (
      dec_jobs (elim q [
        | Queued.no_memory ↦ emit y (Effect.end_io job.bio true)
        | Queued.queued ↦ y
        | Queued.not_queued ↦ emit y (Effect.end_io job.bio job.error)
      ]))

-- flashcache_uncached_io_callback
unfoldable pub uncached_io_callback : Driver → Bool → UncachedJob → Driver
uncached_io_callback x error job = record x {
  uncached_io_complete_jobs = x.uncached_io_complete_jobs ++ record job { error = error } ∷ [];
}

-- process_jobs: a queue is popped from its head and each job is given to `fn`, until it is empty.
unfoldable pub process_jobs {ℓ} :
    {A : Type ℓ}
    → (Driver → List A)
    → (Driver → List A → Driver)
    → (Driver → A → Option Driver)
    → ℕ
    → Driver
    → Option Driver
process_jobs queue put fn zero x = elim (queue x) [ [] ↦ some x | job ∷ jobs ↦ none ]
process_jobs queue put fn (suc fuel) x = elim (queue x) [
  | [] ↦ some x
  | job ∷ jobs ↦ fn (put x jobs) job >>= process_jobs queue put fn fuel
]

-- do_work, without the queues of flashcache_kcopy.c; `fuel` bounds each loop.
unfoldable pub do_work : (ℕ → ℕ → ℕ) → (ℕ → MdSlot) → ℕ → Driver → Option Driver
do_work jhash_1word old fuel x = do
  x1 ←
      process_jobs (λ y. y.md_complete_jobs) (λ y jobs. record y { md_complete_jobs = jobs })
        (md_write_done jhash_1word old) fuel x
  x2 ←
      process_jobs (λ y. y.pending_jobs) (λ y jobs. record y { pending_jobs = jobs })
        (do_pending jhash_1word) fuel x1
  x3 ←
      process_jobs (λ y. y.md_io_jobs) (λ y jobs. record y { md_io_jobs = jobs })
        (λ y job. some (md_write_kickoff old y job)) fuel x2
  x4 ← process_jobs (λ y. y.io_jobs) (λ y jobs. record y { io_jobs = jobs }) do_io fuel x3
  process_jobs (λ y. y.uncached_io_complete_jobs)
      (λ y jobs. record y { uncached_io_complete_jobs = jobs }) (uncached_io_complete jhash_1word)
      fuel x4
