-- ===== src/Io/Request.antt =====
-- A request from the block layer (src/flashcache_main.c): flashcache_map, reads and writes, hits and
-- misses. The hooks under PREFETCHD_ON, the statistics and the expiry of processes are left out.
-- `none` is a failed VERIFY.
use flashcache_ubuntu_xenial.Prelude.{
  ℕ, ◌+◌, ◌/◌, ◌%◌, Bool, true, false, not, ◌&&◌, ◌||◌, Option, some, ◌==◌, if◌then◌else◌, guard,
  ◌>>=◌, ◌>>◌,
}
use flashcache_ubuntu_xenial.Device.{
  CacheC, CacheState, u32, set_block, block_io_in_prog, is_invalid,
}
use flashcache_ubuntu_xenial.Subr.Blocks.{hash_remove, hash_insert, invalid_insert}
use flashcache_ubuntu_xenial.Main.Lookup.{LookupResult, lookup, hash_block, is_write_back}
use flashcache_ubuntu_xenial.Ioctl.Pids.{Task, uncacheable}
use flashcache_ubuntu_xenial.Io.Jobs.{
  Driver, Bio, Direction, Region, Action, KcachedJob, Effect, emit, with_dmc, block, state_of,
  set_state, idle, can_alloc, after_alloc, inc_jobs, enq_pending, free_pending_jobs,
  start_uncached_io,
}
use flashcache_ubuntu_xenial.Io.Inval.{Queued, inval_blocks, invalid_state}
use flashcache_ubuntu_xenial.Io.Finish.{is_write_through, unhash}

-- A block that no I/O and no waiting request holds.
abbrev pub is_quiet : Driver → ℕ → Bool
is_quiet x index = not (block_io_in_prog (state_of x index)) && (block x index).nr_queued == 0

abbrev pub job_for : Bio → ℕ → Action → KcachedJob
job_for bio index action = record { bio = some bio; index = index; action = action; error = false }

-- A hit on a busy block waits for it, if a pending job can be allocated.
unfoldable pub wait_or_fail : Driver → Bio → ℕ → Action → Driver
wait_or_fail x bio index action =
    let y = after_alloc x in
    if can_alloc x then enq_pending y bio index action else emit y (Effect.end_io bio true)

-- A hit for which no job can be allocated fails, with the requests that wait for the block.
unfoldable pub fail_hit : Driver → Bio → ℕ → Option Driver
fail_hit x bio index = free_pending_jobs (emit x (Effect.end_io bio true)) index true >>= λ y.
    some (set_state y index (idle (state_of y index)))

-- flashcache_read_hit
unfoldable pub read_hit : Driver → Bio → ℕ → Option Driver
read_hit x bio index =
    let y =
      set_state (after_alloc x) index (record (state_of x index) { cache_read_in_prog = true }) in
    if is_quiet x index
    then (if can_alloc x
        then some (
            emit (inc_jobs y)
              (Effect.start_io Region.cache Direction.read (job_for bio index Action.read_cache)))
        else fail_hit y bio index)
    else some (wait_or_fail x bio index Action.read_cache)

-- The I/O of a write to the cache, and to the disk in write through mode.
unfoldable pub start_write : Driver → Bio → ℕ → Option Driver
start_write x bio index =
    guard (is_write_back x.dmc.cache_mode || is_write_through x.dmc.cache_mode)
    >> some (
        emit (inc_jobs x) (
          Effect.start_io (if is_write_back x.dmc.cache_mode then Region.cache else Region.both)
            Direction.write (job_for bio index Action.write_cache)))

-- flashcache_write_hit
unfoldable pub write_hit : Driver → Bio → ℕ → Option Driver
write_hit x bio index =
    let y =
      set_state (after_alloc x) index (record (state_of x index) { cache_write_in_prog = true }) in
    let cleaned = λ (z : Driver).
      if is_write_back z.dmc.cache_mode
      then emit z (Effect.clean_set (index / z.dmc.assoc) 0)
      else z in
    if is_quiet x index
    then (if can_alloc x
        then (start_write y bio index >>= λ z. some (cleaned z))
        else fail_hit y bio index)
    else some (wait_or_fail x bio index Action.write_cache)

-- An invalid block that a lookup took out goes back.
unfoldable pub put_back : Driver → ℕ → Option Driver
put_back x index =
    if is_invalid (state_of x index)
    then (invalid_insert x.dmc index >>= λ d. some (with_dmc x d))
    else some x

-- VALID with the bit of the I/O that fills the block.
abbrev pub filling : Bool → CacheState
filling writes = record invalid_state {
  invalid = false;
  valid = true;
  disk_read_in_prog = not writes;
  cache_write_in_prog = writes;
}

abbrev pub is_no_room : LookupResult → Bool
is_no_room LookupResult.no_room = true
is_no_room LookupResult.hit = false
is_no_room LookupResult.miss = false

abbrev pub is_read : Direction → Bool
is_read Direction.read = true
is_read Direction.write = false

-- flashcache_uncacheable, and the state after it.
unfoldable pub ask_uncacheable : Driver → Task → Bio → Option (Driver × Bool)
ask_uncacheable x task bio =
    uncacheable (record x.pids { bypass_cache = x.dmc.bypass_cache }) x.seq task bio.sector
      (is_read bio.dir)
    >>= λ (q, answer). some (record x { seq = q }, answer)

-- The block that a lookup gave holds the request.
abbrev pub holds : CacheC → Bio → LookupResult → ℕ → Bool
holds d bio res index =
    not (is_no_room res) && (d.cache index).cache_state.valid && (d.cache index).dbn == bio.sector

module _ (jhash_1word : ℕ → ℕ → ℕ) where
  -- A block gets a new identity and joins the hash chain for it.
  unfoldable pub claim_block : Driver → Bio → ℕ → CacheState → Option Driver
  claim_block x bio index s = do
    d ←
        (if (state_of x index).valid
          then hash_remove jhash_1word x.dmc index
          else some (record x.dmc { cached_blocks = (x.dmc.cached_blocks + 1) % u32 }))
    d' ←
        hash_insert jhash_1word
          (set_block d index (record (d.cache index) { cache_state = s; dbn = bio.sector })) index
    some (with_dmc x d')

  -- A miss for which no job can be allocated: the block becomes invalid again.
  unfoldable pub abandon : Driver → Bio → ℕ → Option Driver
  abandon x bio index = do
    d ← unhash jhash_1word x.dmc index
    y ← free_pending_jobs (with_dmc (emit x (Effect.end_io bio true)) d) index true
    let z = set_state y index (idle (state_of y index))
    d' ← invalid_insert z.dmc index
    some (with_dmc z d')

  -- flashcache_read_miss
  unfoldable pub read_miss : Driver → Bio → ℕ → Option Driver
  read_miss x bio index =
      let y =
        emit (inc_jobs (after_alloc x))
          (Effect.start_io Region.disk Direction.read (job_for bio index Action.read_disk)) in
      if can_alloc x
      then some (emit y (Effect.clean_set (index / x.dmc.assoc) x.dmc.sysctl_clean_on_read_miss))
      else abandon (after_alloc x) bio index

  -- The end of flashcache_write_miss, with the block claimed.
  unfoldable pub write_claimed : Driver → Bio → ℕ → Option Driver
  write_claimed x bio index =
      if can_alloc x
      then (start_write (after_alloc x) bio index >>= λ y.
          some (emit y (Effect.clean_set (index / x.dmc.assoc) x.dmc.sysctl_clean_on_write_miss)))
      else abandon (after_alloc x) bio index

  -- flashcache_write_miss
  unfoldable pub write_miss : Driver → Bio → ℕ → Option Driver
  write_miss x bio index = inval_blocks jhash_1word x bio >>= λ (y, q). elim q [
    | Queued.no_memory ↦ put_back y index >>= λ z. some (emit z (Effect.end_io bio true))
    | Queued.queued ↦ put_back y index
    | Queued.not_queued ↦ claim_block y bio index (filling true) >>= λ z. write_claimed z bio index
  ]

  -- A request that the cache will not hold goes to the disk.
  unfoldable pub read_uncached : Driver → Bio → LookupResult → ℕ → Option Driver
  read_uncached x bio res index = elim res [
    | LookupResult.no_room ↦ some (
        start_uncached_io (emit x (Effect.clean_set (hash_block jhash_1word x.dmc bio.sector) 0))
          bio)
    | LookupResult.hit ↦ put_back x index >>= λ y. some (start_uncached_io y bio)
    | LookupResult.miss ↦ put_back x index >>= λ y. some (start_uncached_io y bio)
  ]

  -- flashcache_read once no invalidation is needed.
  unfoldable pub read_placed : Driver → Task → Bio → LookupResult → ℕ → Option Driver
  read_placed x task bio res index = do
    (y, unwanted) ←
        (if is_no_room res || x.dmc.write_only_cache
          then some (x, true)
          else ask_uncacheable x task bio)
    (if unwanted
        then read_uncached y bio res index
        else (claim_block y bio index (filling false) >>= λ z. read_miss z bio index))

  -- flashcache_read after its lookup has missed.
  unfoldable pub read_absent : Driver → Task → Bio → LookupResult → ℕ → Option Driver
  read_absent x task bio res index =
      let back = λ (y : Driver). if is_no_room res then some y else put_back y index in
      inval_blocks jhash_1word x bio >>= λ (y, q). elim q [
        | Queued.no_memory ↦ back (emit y (Effect.end_io bio true))
        | Queued.queued ↦ back y
        | Queued.not_queued ↦ read_placed y task bio res index
      ]

  -- flashcache_read
  unfoldable pub read : Driver → Task → Bio → Option Driver
  read x task bio = lookup jhash_1word x.dmc bio.sector >>= λ (d, res, index).
      if holds d bio res index
      then read_hit (with_dmc x d) bio index
      else read_absent (with_dmc x d) task bio res index

  -- A write for which the set has no room.
  unfoldable pub write_no_room : Driver → Bio → Option Driver
  write_no_room x bio = inval_blocks jhash_1word x bio >>= λ (y, q). elim q [
    | Queued.no_memory ↦ some (emit y (Effect.end_io bio true))
    | Queued.queued ↦ some y
    | Queued.not_queued ↦
        let z = start_uncached_io y bio in
        some (emit z (Effect.clean_set (hash_block jhash_1word z.dmc bio.sector) 0))
  ]

  -- flashcache_write
  unfoldable pub write : Driver → Bio → Option Driver
  write x bio = lookup jhash_1word x.dmc bio.sector >>= λ (d, res, index).
      if holds d bio res index
      then write_hit (with_dmc x d) bio index
      else if is_no_room res
      then write_no_room (with_dmc x d) bio
      else write_miss (with_dmc x d) bio index
