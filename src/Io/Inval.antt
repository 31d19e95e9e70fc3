-- ===== src/Io/Inval.antt =====
-- Requests that invalidate blocks (src/flashcache_main.c): flashcache_inval_blocks and its parts, and
-- the write back of a dirty block. `none` is a failed VERIFY.
use flashcache_ubuntu_xenial.Prelude.{
  ℕ, zero, suc, ◌+◌, ◌*◌, ◌/◌, ◌%◌, ◌^◌, Bool, true, false, not, ◌&&◌, ◌||◌, Option, some, none,
  ltb, leb, ◌==◌, if◌then◌else◌, guard, ◌>>=◌, ◌>>◌, sub_word,
}
use flashcache_ubuntu_xenial.Device.{CacheC, CacheState, u16, u32, u64, set_set, block_io_in_prog}
use flashcache_ubuntu_xenial.Subr.Blocks.{hash_remove, hash_lookup, invalid_insert}
use flashcache_ubuntu_xenial.Main.Lookup.{clear_fallow, hash_block, put_state}
use flashcache_ubuntu_xenial.Io.Jobs.{
  Driver, Bio, Action, KcachedJob, Effect, emit, with_dmc, block, state_of, set_state, idle,
  can_alloc, after_alloc, inc_jobs, enq_pending, free_pending_jobs, last_sector,
}

-- `clean_inprog` of the set and of the cache.
abbrev pub inc_clean : CacheC → ℕ → CacheC
inc_clean d set =
    set_set (record d { clean_inprog = (d.clean_inprog + 1) % u32 }) set
      (record (d.cache_sets set) { clean_inprog = ((d.cache_sets set).clean_inprog + 1) % u16 })

abbrev pub dec_clean : CacheC → ℕ → CacheC
dec_clean d set =
    set_set (record d { clean_inprog = sub_word u32 d.clean_inprog 1 }) set
      (record (d.cache_sets set) { clean_inprog = sub_word u16 (d.cache_sets set).clean_inprog 1 })

-- (cache_state & BLOCK_IO_INPROG) == DISKWRITEINPROG
abbrev pub only_disk_write : CacheState → Bool
only_disk_write s =
    s.disk_write_in_prog
    && not (s.disk_read_in_prog || s.cache_read_in_prog || s.cache_write_in_prog)

-- flashcache_dirty_writeback
unfoldable pub dirty_writeback : Driver → ℕ → Option Driver
dirty_writeback x index =
    let set = index / x.dmc.assoc in
    let y = after_alloc (with_dmc x (inc_clean x.dmc set)) in
    let job : KcachedJob = record {
      bio = none;
      index = index;
      action = Action.write_disk;
      error = false;
    } in
    guard (only_disk_write (state_of x index))
    >> (guard (state_of x index).dirty
        >> (if can_alloc x && not x.dmc.remove_in_prog
            then some (emit (inc_jobs y) (Effect.start_copy job))
            else (free_pending_jobs (with_dmc y (dec_clean y.dmc set)) index true >>= λ z.
                some (set_state z index (idle (state_of z index))))))

-- (cache_state & (DIRTY | BLOCK_IO_INPROG)) == DIRTY
abbrev pub needs_clean : CacheState → Bool
needs_clean s = s.dirty && not (block_io_in_prog s)

-- cache_state |= DISKWRITEINPROG, and the fallow marks are cleared.
unfoldable pub mark_clean : Driver → ℕ → Option Driver
mark_clean x index =
    let x' = set_state x index (record (state_of x index) { disk_write_in_prog = true }) in
    clear_fallow x'.dmc index >>= λ d. some (with_dmc x' d)

-- A block that is neither busy nor dirty.
abbrev pub can_invalidate : Driver → ℕ → Bool
can_invalidate x index =
    not (block_io_in_prog (state_of x index) || (state_of x index).dirty)
    && (block x index).nr_queued == 0

abbrev pub invalid_state : CacheState
invalid_state = record {
  invalid = true;
  valid = false;
  disk_read_in_prog = false;
  disk_write_in_prog = false;
  cache_read_in_prog = false;
  cache_write_in_prog = false;
  dirty = false;
  dirty_fallow_1 = false;
  dirty_fallow_2 = false;
}

-- What a call of flashcache_inval_blocks returns: -ENOMEM, 0 or 1.
pub data Queued : Type 0 where
  no_memory not_queued queued : Queued

-- A block that starts at `start_dbn` holds the first or the last sector of the request.
abbrev pub overlaps : ℕ → Bio → ℕ → Bool
overlaps block_size bio start_dbn =
    let io_end = last_sector bio in
    let end_dbn = (start_dbn + block_size) % u64 in
    leb start_dbn bio.sector && ltb bio.sector end_dbn || leb start_dbn io_end && ltb io_end end_dbn

-- The request waits for the block, and a dirty block that is not busy is written back.
unfoldable pub wait_for : Driver → Bio → ℕ → Option Driver
wait_for x bio index =
    let x' = enq_pending x bio index Action.invalidate in
    if needs_clean (state_of x' index)
    then (mark_clean x' index >>= λ y. dirty_writeback y index)
    else some x'

-- bi_sector & ~((1 << block_shift) - 1)
abbrev pub aligned : CacheC → ℕ → ℕ
aligned d sector = sector / 2 ^ d.block_shift * 2 ^ d.block_shift

abbrev pub queued_if : Driver × Bool → Driver × Queued
queued_if (x, true) = (x, Queued.queued)
queued_if (x, false) = (x, Queued.not_queued)

module _ (jhash_1word : ℕ → ℕ → ℕ) where
  -- The block is invalidated at once.
  unfoldable pub drop_block : Driver → ℕ → Option Driver
  drop_block x index = do
    d1 ←
        hash_remove jhash_1word
          (record x.dmc { cached_blocks = sub_word u32 x.dmc.cached_blocks 1 }) index
    d2 ← invalid_insert (put_state d1 index invalid_state) index
    some (with_dmc x d2)

  -- The loop of flashcache_inval_block_set over `left` blocks from `i` on.
  unfoldable pub inval_from : Driver → Bio → ℕ → ℕ → Option (Driver × Bool)
  inval_from x bio zero i = some (x, false)
  inval_from x bio (suc left) i =
      let rest = λ (y : Driver). inval_from y bio left (i + 1) in
      if (state_of x i).invalid || not (overlaps x.dmc.block_size bio (block x i).dbn)
      then rest x
      else if can_invalidate x i
      then (drop_block x i >>= rest)
      else (wait_for x bio i >>= λ y. some (y, true))

  -- flashcache_inval_block_set
  abbrev pub inval_block_set : Driver → ℕ → Bio → Option (Driver × Bool)
  inval_block_set x set bio = inval_from x bio x.dmc.assoc (x.dmc.assoc * set)

  -- The rest of flashcache_inval_block_set_v3 after the lookup.
  unfoldable pub inval_found : Driver → Bio → Option ℕ → Option (Driver × Bool)
  inval_found x bio none = some (x, false)
  inval_found x bio (some index) =
      guard (state_of x index).valid
      >> (if can_invalidate x index
          then (drop_block x index >>= λ y. some (y, false))
          else (wait_for x bio index >>= λ y. some (y, true)))

  -- flashcache_inval_block_set_v3
  abbrev pub inval_block_set_v3 : Driver → ℕ → Bio → Option (Driver × Bool)
  inval_block_set_v3 x set bio =
      hash_lookup jhash_1word x.dmc set (aligned x.dmc bio.sector) >>= inval_found x bio

  -- The old style, with a second pending job allocated; a second set is looked at if the first has
  -- nothing to wait for.
  unfoldable pub inval_old : Driver → Bio → Option (Driver × Queued)
  inval_old x bio =
      let start_set = hash_block jhash_1word x.dmc bio.sector in
      let end_set = hash_block jhash_1word x.dmc (last_sector bio) in
      let y = after_alloc x in
      if not (can_alloc x) then some (y, Queued.no_memory) else do
        (z, first) ← inval_block_set y start_set bio
        r ←
            (if first || start_set == end_set
              then some (z, first)
              else inval_block_set z end_set bio)
        some (queued_if r)

  -- flashcache_inval_blocks
  unfoldable pub inval_blocks : Driver → Bio → Option (Driver × Queued)
  inval_blocks x bio =
      let y = after_alloc x in
      let set = hash_block jhash_1word x.dmc (aligned x.dmc bio.sector) in
      if not (can_alloc x)
      then some (y, Queued.no_memory)
      else if ltb x.dmc.on_ssd_version 3
      then inval_old y bio
      else (inval_block_set_v3 y set bio >>= λ r. some (queued_if r))
