-- ===== src/Wt/Io.antt =====
-- Requests and their I/O in the write-through module (flashcache-wt/src/flashcache_wt.c). An I/O that is
-- started is a job of `in_flight`, and its end is a call of the callback; `ended` has the requests
-- that are answered, the last one first, with whether in error. The checksums are off.
use flashcache_ubuntu_xenial.Prelude.{
  ℕ, suc, ◌+◌, ◌%◌, Bool, true, false, not, ◌&&◌, ◌||◌, Option, none, some, ltb, leb, ◌==◌,
  if◌then◌else◌, guard, ◌>>◌, ◌>>=◌, List, [], ◌∷◌, ◌++◌, sub_word,
}
use flashcache_ubuntu_xenial.Device.{u32, u64}
use flashcache_ubuntu_xenial.Wt.Cache.{
  State, is_valid, is_in_prog, is_cache_read, is_in_prog_invalid, WtCache, WtBio, set_state,
  less_cached, cache_lookup, LookupResult, cache_invalidate_blocks,
}

-- READCACHE, WRITECACHE, READSOURCE, WRITESOURCE and READCACHE_DONE; `uncached` is a job with index -1.
pub data Rw : Type 0 where
  read_cache write_cache read_source write_source read_cache_done uncached : Rw

abbrev pub is_write_cache : Rw → Bool
is_write_cache Rw.write_cache = true
is_write_cache _ = false

abbrev pub is_read_cache_done : Rw → Bool
is_read_cache_done Rw.read_cache_done = true
is_read_cache_done _ = false

pub record WtJob : Type 0 where
  pub bio : WtBio
  pub index : ℕ
  pub rw : Rw

-- `nr_jobs` is the 32-bit pattern of the atomic, and `allocs` says which allocations succeed.
pub record WtDriver : Type 0 where
  pub dmc : WtCache
  pub in_flight : List WtJob
  pub io_jobs : List WtJob
  pub complete_jobs : List WtJob
  pub ended : List (WtBio × Bool)
  pub nr_jobs : ℕ
  pub allocs : ℕ → Bool
  pub nr_allocs : ℕ

abbrev pub put_dmc : WtDriver → WtCache → WtDriver
put_dmc x d = record x { dmc = d }

-- flashcache_bio_endio
abbrev pub bio_endio : WtDriver → WtBio → Bool → WtDriver
bio_endio x bio error = record x { ended = (bio, error) ∷ x.ended }

-- new_kcached_job: whether there is a job, and the next allocation.
abbrev pub can_alloc : WtDriver → Bool
can_alloc x = x.allocs x.nr_allocs

abbrev pub after_alloc : WtDriver → WtDriver
after_alloc x = record x { nr_allocs = suc x.nr_allocs }

-- atomic_inc(&dmc->nr_jobs) and dm_io_async_bvec
abbrev pub start_io : WtDriver → WtJob → WtDriver
start_io x job = record x { nr_jobs = (x.nr_jobs + 1) % u32; in_flight = x.in_flight ++ job ∷ [] }

-- The end of a job: atomic_dec_and_test(&dmc->nr_jobs).
abbrev pub free_job : WtDriver → WtDriver
free_job x = record x { nr_jobs = sub_word u32 x.nr_jobs 1 }

-- A job is started, or else what the failure leaves.
abbrev pub start_or : WtDriver → WtJob → WtDriver → WtDriver
start_or x job failed = if can_alloc x then start_io (after_alloc x) job else failed

-- flashcache_wt_start_uncached_io
unfoldable pub start_uncached_io : WtDriver → WtBio → WtDriver
start_uncached_io x bio =
    start_or x (record { bio = bio; index = 0; rw = Rw.uncached })
      (bio_endio (after_alloc x) bio true)

-- A block is claimed for a request.
abbrev pub claim : WtCache → ℕ → WtBio → WtCache
claim d i bio =
    let d' = if is_valid (d.cache_state i) then less_cached d else d in
    record (set_state d' i State.in_prog) { dbn = λ k. if i == k then bio.sector else d'.dbn k }

-- cache_read_miss, and the end of cache_write: the source is read or written, or the block is given up.
unfoldable pub start_fill : Rw → WtDriver → WtBio → ℕ → WtDriver
start_fill rw x bio i =
    let y = after_alloc x in
    start_or x (record { bio = bio; index = i; rw = rw })
      (bio_endio (put_dmc y (set_state y.dmc i State.invalid)) bio true)

-- The hit of cache_read.
abbrev pub read_hit : WtDriver → WtBio → ℕ → WtDriver
read_hit x bio i =
    let y = put_dmc x (set_state x.dmc i State.cache_read_in_prog) in
    let z = after_alloc y in
    start_or y (record { bio = bio; index = i; rw = Rw.read_cache })
      (bio_endio (put_dmc z (set_state z.dmc i State.valid)) bio true)

-- cache_read after its lookup
abbrev pub after_read_lookup : WtDriver → WtBio → LookupResult → WtDriver
after_read_lookup x bio r =
    let (d, inprog) = cache_invalidate_blocks x.dmc bio in
    let y = put_dmc x d in
    let uncached = start_uncached_io y bio in
    let fill : ℕ → WtDriver = λ i. start_fill Rw.read_source (put_dmc y (claim d i bio)) bio i in
    elim r [
      | LookupResult.found i ↦
          if is_valid (x.dmc.cache_state i) && x.dmc.dbn i == bio.sector
          then read_hit x bio i
          else if ltb 0 inprog || not (is_valid (x.dmc.cache_state i))
          then uncached
          else fill i
      | LookupResult.free i ↦ if ltb 0 inprog then uncached else fill i
      | LookupResult.no_room ↦ uncached
    ]

-- cache_read
unfoldable pub cache_read : WtDriver → WtBio → Option WtDriver
cache_read x bio = cache_lookup x.dmc bio >>= λ (d, r). some (after_read_lookup (put_dmc x d) bio r)

-- cache_write after its lookup, which must find no block.
abbrev pub after_write_lookup : WtDriver → WtBio → LookupResult → Option WtDriver
after_write_lookup x bio (LookupResult.found i) = none
after_write_lookup x bio (LookupResult.free i) =
    some (start_fill Rw.write_source (put_dmc x (claim x.dmc i bio)) bio i)
after_write_lookup x bio LookupResult.no_room = some (start_uncached_io x bio)

-- cache_write
unfoldable pub cache_write : WtDriver → WtBio → Option WtDriver
cache_write x bio =
    let (d, inprog) = cache_invalidate_blocks x.dmc bio in
    let y = put_dmc x d in
    let lookup = cache_lookup d bio >>= λ (d', r). after_write_lookup (put_dmc y d') bio r in
    if ltb 0 inprog then some (start_uncached_io y bio) else lookup

-- flashcache_wt_map, for a request that is no barrier.
unfoldable pub wt_map : WtDriver → WtBio → Option WtDriver
wt_map x bio =
    let y = put_dmc x (cache_invalidate_blocks x.dmc bio).0 in
    let cached = if bio.writes then cache_write x bio else cache_read x bio in
    guard (leb bio.sectors x.dmc.block_size)
    >> (if not (bio.sectors == x.dmc.block_size) || (x.dmc.write_around_mode && bio.writes)
        then some (start_uncached_io y bio)
        else cached)

-- flashcache_wt_uncached_io_callback
unfoldable pub uncached_io_callback : WtDriver → Bool → WtJob → WtDriver
uncached_io_callback x error job =
    free_job (bio_endio (put_dmc x (cache_invalidate_blocks x.dmc job.bio).0) job.bio error)

-- The job of a callback is not in `in_flight` any more.
-- flashcache_wt_io_callback for a read or a write of the source: the block is filled next, or given up.
abbrev pub source_callback : WtDriver → Bool → WtJob → Option WtDriver
source_callback x error job =
    let s = x.dmc.cache_state job.index in
    let given_up = bio_endio (put_dmc x (set_state x.dmc job.index State.invalid)) job.bio error in
    guard (is_in_prog s || is_in_prog_invalid s)
    >> some (
        if error || is_in_prog_invalid s
        then free_job given_up
        else record x { io_jobs = x.io_jobs ++ record job { rw = Rw.write_cache } ∷ [] })

-- flashcache_wt_io_callback for a read of the cache: it is done, or goes back to the source.
abbrev pub read_callback : WtDriver → Bool → WtJob → Option WtDriver
read_callback x error job =
    let s = x.dmc.cache_state job.index in
    let done = bio_endio (put_dmc x (set_state x.dmc job.index State.valid)) job.bio false in
    guard (is_in_prog_invalid s || is_cache_read s)
    >> some (
        if not (is_in_prog_invalid s) && not error then free_job done else record x {
          complete_jobs = x.complete_jobs ++ record job { rw = Rw.read_cache_done } ∷ [];
        })

-- flashcache_wt_io_callback for a write of the cache: the block is valid, or given up.
abbrev pub write_callback : WtDriver → Bool → WtJob → Option WtDriver
write_callback x error job =
    let s = x.dmc.cache_state job.index in
    let d =
      if error || is_in_prog_invalid s
      then set_state x.dmc job.index State.invalid
      else record (set_state x.dmc job.index State.valid) {
        cached_blocks = (x.dmc.cached_blocks + 1) % u64;
      } in
    guard (is_in_prog s || is_in_prog_invalid s)
    >> some (free_job (put_dmc (bio_endio x job.bio false) d))

-- flashcache_wt_io_callback
unfoldable pub io_callback : WtDriver → Bool → WtJob → Option WtDriver
io_callback x error job = elim job.rw [
  | Rw.read_source ↦ source_callback x error job
  | Rw.write_source ↦ source_callback x error job
  | Rw.read_cache ↦ read_callback x error job
  | Rw.write_cache ↦ write_callback x error job
  | Rw.read_cache_done ↦ none
  | Rw.uncached ↦ none
]

-- do_io
abbrev pub do_io : WtDriver → WtJob → Option WtDriver
do_io x job =
    guard (is_write_cache job.rw) >> some (record x { in_flight = x.in_flight ++ job ∷ [] })

-- flashcache_wt_do_complete
abbrev pub do_complete : WtDriver → WtJob → Option WtDriver
do_complete x job =
    guard (is_read_cache_done job.rw)
    >> some
        (start_uncached_io (free_job (put_dmc x (set_state x.dmc job.index State.invalid))) job.bio)
