-- ===== src/Io/Map.antt =====
-- flashcache_map (src/flashcache_main.c): the entry of every request. `none` is a failed VERIFY.
use flashcache_ubuntu_xenial.Prelude.{
  ℕ, Bool, true, false, not, ◌&&◌, ◌||◌, Option, some, leb, ◌==◌, if◌then◌else◌, guard, ◌>>=◌, ◌>>◌,
}
use flashcache_ubuntu_xenial.Device.{CacheC, CacheMode}
use flashcache_ubuntu_xenial.Ioctl.Pids.{Task}
use flashcache_ubuntu_xenial.Io.Jobs.{Driver, Bio, Effect, emit, start_uncached_io, last_sector}
use flashcache_ubuntu_xenial.Io.Inval.{Queued, inval_blocks, aligned}
use flashcache_ubuntu_xenial.Io.Request.{read, write, is_read, ask_uncacheable}

-- What flashcache_map returns: -EOPNOTSUPP or DM_MAPIO_SUBMITTED.
pub data MapResult : Type 0 where
  not_supported submitted : MapResult

-- flashcache_do_block_checks
abbrev pub do_block_checks : CacheC → Bio → Bool
do_block_checks d bio =
    leb bio.sectors d.block_size && aligned d bio.sector == aligned d (last_sector bio)

abbrev pub is_write_around : CacheMode → Bool
is_write_around CacheMode.write_back = false
is_write_around CacheMode.write_through = false
is_write_around CacheMode.write_around = true

module _ (jhash_1word : ℕ → ℕ → ℕ) where
  -- Whether a request goes around the cache. The processes are asked only for a write.
  unfoldable pub goes_around : Driver → Task → Bio → Option (Driver × Bool)
  goes_around x task bio =
      if x.dmc.bypass_cache || not (bio.sectors == x.dmc.block_size)
      then some (x, true)
      else if is_read bio.dir
      then some (x, false)
      else if is_write_around x.dmc.cache_mode
      then some (x, true)
      else ask_uncacheable x task bio

  -- A request that goes around the cache invalidates the blocks it meets, and then is sent.
  unfoldable pub send_around : Driver → Bio → Option Driver
  send_around x bio = inval_blocks jhash_1word x bio >>= λ (y, q). some (elim q [
    | Queued.no_memory ↦ emit y (Effect.end_io bio true)
    | Queued.queued ↦ y
    | Queued.not_queued ↦ start_uncached_io y bio
  ])

  -- flashcache_map
  unfoldable pub map : Driver → Task → Bio → Option (Driver × MapResult)
  map x task bio = if bio.barrier then some (x, MapResult.not_supported) else (do
    guard (do_block_checks x.dmc bio)
    (y, around) ← goes_around x task bio
    z ←
        (if around
          then send_around y bio
          else if is_read bio.dir
          then read jhash_1word y task bio
          else write jhash_1word y bio)
    some (z, MapResult.submitted))
