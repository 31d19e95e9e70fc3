-- ===== src/Io/Syncing.antt =====
-- The synchronization of the whole cache (src/flashcache_main.c): flashcache_sync_blocks, the write of a
-- block for it, and the end of that write. `sort` is the kernel's. `none` is a failed VERIFY, or a walk out
-- of fuel.
use flashcache_ubuntu_xenial.Prelude.{
  ℕ, zero, suc, ◌+◌, ◌/◌, ◌%◌, Bool, true, false, not, ◌&&◌, ◌||◌, Option, some, none, ltb, leb,
  ◌==◌, if◌then◌else◌, guard, ◌>>=◌, ◌>>◌, List, [], ◌∷◌, length,
}
use flashcache_ubuntu_xenial.Device.{fallow_do_clean}
use flashcache_ubuntu_xenial.Main.Lookup.{is_write_back}
use flashcache_ubuntu_xenial.Io.Jobs.{
  Driver, Action, KcachedJob, Effect, emit, with_dmc, state_of, set_state, idle, inc_jobs,
  can_alloc, after_alloc, free_pending_jobs,
}
use flashcache_ubuntu_xenial.Io.Metadata.{md_write}
use flashcache_ubuntu_xenial.Io.Inval.{only_disk_write, inc_clean, dec_clean}
use flashcache_ubuntu_xenial.Io.Finish.{do_pending}
use flashcache_ubuntu_xenial.Io.Complete.{end_clean}
use flashcache_ubuntu_xenial.Io.Cleaning.{DbnIndexPair, choose_dirty}
use flashcache_ubuntu_xenial.Io.Merging.{merge_writes}

-- flashcache_dirty_writeback_sync
unfoldable pub dirty_writeback_sync : Driver → ℕ → Option Driver
dirty_writeback_sync x index =
    let set = index / x.dmc.assoc in
    let y = after_alloc (with_dmc x (inc_clean x.dmc set)) in
    let job : KcachedJob = record {
      bio = none;
      index = index;
      action = Action.write_disk_sync;
      error = false;
    } in
    guard (not (fallow_do_clean (state_of x index)))
    >> (guard (only_disk_write (state_of x index))
        >> (guard (state_of x index).dirty
            >> (if can_alloc x && not x.dmc.fast_remove
                then some (emit (inc_jobs y) (Effect.start_copy job))
                else (free_pending_jobs (with_dmc y (dec_clean y.dmc set)) index true >>= λ z.
                    some (set_state z index (idle (state_of z index)))))))

-- The writes of a list.
unfoldable pub sync_all_of : List DbnIndexPair → Driver → Option Driver
sync_all_of [] x = some x
sync_all_of (p ∷ ps) x = dirty_writeback_sync x p.index >>= sync_all_of ps

module _ (jhash_1word : ℕ → ℕ → ℕ) where
  -- flashcache_kcopyd_callback_sync
  unfoldable pub kcopyd_callback_sync : Driver → Bool → Bool → KcachedJob → Option Driver
  kcopyd_callback_sync x read_err write_err job =
      let s = state_of x job.index in
      elim job.bio [
        | some bio ↦ none
        | none ↦
            guard (s.disk_write_in_prog || s.valid || s.dirty)
            >> (if not read_err && not write_err then md_write x job else (do
              y ← end_clean x (job.index / x.dmc.assoc)
              z ← do_pending jhash_1word y (record job { error = true })
              some (emit z Effect.sync_blocks)))
      ]

  module _ (sort : List DbnIndexPair → List DbnIndexPair) where
    -- The writes collected in a set are merged and issued, if there are any.
    unfoldable pub issue : Driver → ℕ → List DbnIndexPair → Option Driver
    issue x set [] = some x
    issue x set (p ∷ ps) =
        merge_writes jhash_1word sort set (record { dmc = x.dmc; writes_list = p ∷ ps }) >>= λ c.
        sync_all_of c.writes_list (with_dmc x c.dmc)

    -- The loop over the blocks from `index` on, for `left` blocks at most; `set` is the set of the writes
    -- collected.
    unfoldable pub sync_from :
        ℕ → Driver → ℕ → List DbnIndexPair → ℕ → Option (Driver × ℕ × List DbnIndexPair × ℕ)
    sync_from zero x set writes index = some (x, set, writes, index)
    sync_from (suc left) x set writes index =
        let crossing = index % x.dmc.assoc == 0 in
        if not (ltb index x.dmc.size)
          || not (ltb (length writes + x.dmc.clean_inprog) x.dmc.max_clean_ios_total)
        then some (x, set, writes, index)
        else (do
          guard (leb (length writes) x.dmc.assoc)
          y ← (if crossing then issue x set writes else some x)
          c ←
              choose_dirty (record { dmc = y.dmc; writes_list = if crossing then [] else writes })
                index
          sync_from left (with_dmc y c.dmc) (if crossing then index / x.dmc.assoc else set)
              c.writes_list (index + 1))

    -- flashcache_sync_blocks
    unfoldable pub sync_blocks : Driver → Option Driver
    sync_blocks x =
        let y = after_alloc x in
        let index = x.dmc.sync_index in
        if x.dmc.fast_remove || x.dmc.sysctl_stop_sync
        then some x
        else if x.dmc.nr_dirty == 0 || not (ltb index x.dmc.size)
        then some x
        else if not (can_alloc x)
        then some y
        else (do
          (z, set, writes, i) ← sync_from x.dmc.size y (index / x.dmc.assoc) [] index
          issue (with_dmc z (record z.dmc { sync_index = i })) set writes)

    -- flashcache_sync_all
    unfoldable pub sync_all : Driver → Option Driver
    sync_all x =
        if is_write_back x.dmc.cache_mode
        then sync_blocks (with_dmc x (record x.dmc { sysctl_stop_sync = false; sync_index = 0 }))
        else some x
