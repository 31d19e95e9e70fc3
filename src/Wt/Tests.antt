-- ===== src/Wt/Tests.antt =====
-- The theorems about the write-through module at a cache of two sets of four blocks. In set 0 block 0 is
-- valid, block 1 is being filled, block 2 is read, and block 3 is valid.
use flashcache_ubuntu_xenial.Prelude.{
  ℕ, ◌+◌, ◌*◌, ◌≡◌, refl, ◌⊎◌, true, false, Option, none, some, ◌==◌, if◌then◌else◌, arith, [], ◌∷◌,
}
use flashcache_ubuntu_xenial.Wt.Cache.{
  State, is_live, WtCache, WtBio, hash_block, overlaps, io_end_of, cache_lookup, LookupResult,
  invalidate_from, cache_invalidate_blocks,
}
use flashcache_ubuntu_xenial.Wt.Io.{
  Rw, WtJob, WtDriver, io_callback, uncached_io_callback, do_complete, start_uncached_io, wt_map,
}
use flashcache_ubuntu_xenial.Wt.Lookup.{IsLookup, IsAdvanced, IsSwept, cache_lookup-IsLookup}
use flashcache_ubuntu_xenial.Wt.Stale.{InSet, IsThinned, uncached_io_callback-ended}
use flashcache_ubuntu_xenial.Wt.Writes.{IsMapped}
use flashcache_ubuntu_xenial.Wt.Mapped.{wt_map-IsMapped}
use flashcache_ubuntu_xenial.Wt.Ends.{IsReadEnd, io_callback-IsEnd}

abbrev cache : WtCache
cache = record {
  dbn = λ k. k * 8;
  cache_state = λ k.
      if k == 1
      then State.in_prog
      else if k == 2
      then State.cache_read_in_prog
      else if k == 4
      then State.invalid
      else State.valid;
  set_lru_next = λ s. s * 4 + 2;
  write_around_mode = false;
  size = 8;
  assoc = 4;
  block_size = 8;
  block_shift = 3;
  consecutive_shift = 2;
  cached_blocks = 6;
}

abbrev driver : WtDriver
driver = record {
  dmc = cache;
  in_flight = [];
  io_jobs = [];
  complete_jobs = [];
  ended = [];
  nr_jobs = 2;
  allocs = λ n. true;
  nr_allocs = 0;
}

-- A write of block 2, and a read of a block that is not cached.
abbrev write_2 : WtBio
write_2 = record { sector = 16; sectors = 8; writes = true }

abbrev read_8 : WtBio
read_8 = record { sector = 64; sectors = 8; writes = false }

swept : IsSwept cache 0
swept = (omega arith, omega arith)

-- The first valid block from block 2 on is block 3.
cache_lookup-IsLookup_example :
    (d' : WtCache) × (r : LookupResult) × (cache_lookup cache read_8 ≡ some (d', r))
    × IsLookup cache (4 * hash_block cache 64) 64 r
    × IsAdvanced cache (4 * hash_block cache 64) r d'
    × IsSwept d' (4 * hash_block cache 64)
cache_lookup-IsLookup_example = cache_lookup-IsLookup cache read_8 swept

wt_map-IsMapped_example : IsMapped driver write_2 (wt_map driver write_2)
wt_map-IsMapped_example = wt_map-IsMapped driver write_2 (omega arith) (omega arith) swept

abbrev uncached_write : WtJob
uncached_write = record { bio = write_2; index = 0; rw = Rw.uncached }

uncached_io_callback-ended_example :
    ((uncached_io_callback driver false uncached_write).ended ≡ (write_2, false) ∷ [])
    × IsThinned cache (uncached_io_callback driver false uncached_write).dmc
    × ((set k : ℕ)
        → (set ≡ hash_block cache 16) ⊎ (set ≡ hash_block cache (io_end_of write_2))
        → InSet cache set k
        → overlaps cache 16 (io_end_of write_2) (k * 8) ≡ true
        → is_live ((uncached_io_callback driver false uncached_write).dmc.cache_state k) ≡ false)
uncached_io_callback-ended_example = uncached_io_callback-ended driver false uncached_write

io_callback-IsEnd_example :
    (y : WtDriver) × (io_callback driver true
        (record { bio = write_2; index = 2; rw = Rw.read_cache })
      ≡ some y)
    × IsReadEnd driver true (record { bio = write_2; index = 2; rw = Rw.read_cache }) y
io_callback-IsEnd_example = io_callback-IsEnd driver true write_2 2 Rw.read_cache refl

-- A block that is invalidated while it is read is not taken off cached_blocks.
abbrev read_done : WtJob
read_done = record { bio = write_2; index = 2; rw = Rw.read_cache_done }

abbrev count_after : Option WtDriver → ℕ
count_after none = 0
count_after (some x) = x.dmc.cached_blocks

invalidated_read_stays_counted :
    count_after
      (do_complete (record driver { dmc = (cache_invalidate_blocks cache write_2).0 }) read_done)
    ≡ 6
unfolding cache_invalidate_blocks invalidate_from start_uncached_io
invalidated_read_stays_counted = refl
