-- ===== src/Wt/Served.antt =====
-- Every request to the write-through module is answered or in flight
-- (flashcache-wt/src/flashcache_wt.c).
use flashcache_ubuntu_xenial.Prelude.{
  ℕ, ◌+◌, ◌%◌, ◌≡◌, refl, sym, subst, ◌⊎◌, inl, inr, true, false, not, ◌&&◌, ◌||◌, ltb, ◌==◌,
  if◌then◌else◌, if-true, if-false, if-eq, arith, Bool-cases, [], ◌∷◌, ◌++◌,
}
use flashcache_ubuntu_xenial.Device.{u32}
use flashcache_ubuntu_xenial.Wt.Cache.{
  State, is_valid, is_cache_read, WtCache, WtBio, set_state, hash_block, overlaps, io_end_of,
  LookupResult, cache_invalidate_blocks,
}
use flashcache_ubuntu_xenial.Wt.Io.{
  Rw, WtJob, WtDriver, put_dmc, bio_endio, can_alloc, after_alloc, start_io, start_or,
  start_uncached_io, claim, start_fill, read_hit, after_read_lookup,
}
use flashcache_ubuntu_xenial.Wt.Sweep.{is_hit}
use flashcache_ubuntu_xenial.Wt.Lookup.{IsLookup}
use flashcache_ubuntu_xenial.Wt.Stale.{InSet}

-- A job that is started holds its block: the block is marked for it, and has the request's sector.
abbrev pub Fits : WtCache → WtBio → ℕ → Rw → Type 0
Fits d bio i Rw.read_source = (d.cache_state i ≡ State.in_prog) × (d.dbn i ≡ bio.sector)
Fits d bio i Rw.write_source = (d.cache_state i ≡ State.in_prog) × (d.dbn i ≡ bio.sector)
Fits d bio i Rw.read_cache = (d.cache_state i ≡ State.cache_read_in_prog) × (d.dbn i ≡ bio.sector)
Fits d bio i Rw.uncached = Unit
Fits d bio i Rw.write_cache = ⊥
Fits d bio i Rw.read_cache_done = ⊥

-- The request is answered with an error, or one job more is in flight, of this request.
abbrev pub IsServed : WtDriver → WtDriver → WtBio → Type 0
IsServed x y bio =
    ((y.ended ≡ (bio, true) ∷ x.ended) × (y.in_flight ≡ x.in_flight) × (y.nr_jobs ≡ x.nr_jobs))
    ⊎ ((i : ℕ) × (rw : Rw) × (y.in_flight
          ≡ x.in_flight ++ record { bio = bio; index = i; rw = rw } ∷ [])
        × (y.ended ≡ x.ended)
        × (y.nr_jobs ≡ (x.nr_jobs + 1) % u32)
        × Fits y.dmc bio i rw)

start_or-IsServed :
    (x : WtDriver) (bio : WtBio) (i : ℕ) (rw : Rw) (d : WtCache)
    → Fits x.dmc bio i rw
    → IsServed x
        (start_or x
          (record { bio = bio; index = i; rw = rw })
          (bio_endio (put_dmc (after_alloc x) d) bio true))
        bio
start_or-IsServed x bio i rw d f =
    let job : WtJob = record { bio = bio; index = i; rw = rw } in
    let good : WtDriver = start_io (after_alloc x) job in
    let bad : WtDriver = bio_endio (put_dmc (after_alloc x) d) bio true in
    let P : WtDriver → Type 0 = λ y. IsServed x y bio in
    elim (Bool-cases (can_alloc x)) [
      | inl a ↦ subst P (sym (if-true (can_alloc x) good bad a)) (inr (i, rw, refl, refl, refl, f))
      | inr a ↦ subst P (sym (if-false (can_alloc x) good bad a)) (inl (refl, refl, refl))
    ]

pub start_uncached_io-IsServed :
    (x : WtDriver) (bio : WtBio) → IsServed x (start_uncached_io x bio) bio
unfolding start_uncached_io
start_uncached_io-IsServed x bio = start_or-IsServed x bio 0 Rw.uncached x.dmc tt

pub start_fill-IsServed :
    (rw : Rw) (x : WtDriver) (bio : WtBio) (i : ℕ) (d : WtCache)
    → Fits (claim d i bio) bio i rw
    → IsServed x (start_fill rw (put_dmc x (claim d i bio)) bio i) bio
unfolding start_fill
start_fill-IsServed rw x bio i d f =
    start_or-IsServed (put_dmc x (claim d i bio)) bio i rw
      (set_state (claim d i bio) i State.invalid) f

pub claimed :
    (d : WtCache) (i : ℕ) (bio : WtBio)
    → ((claim d i bio).cache_state i ≡ State.in_prog) × ((claim d i bio).dbn i ≡ bio.sector)
claimed d i bio = (if-eq i i State.in_prog _ refl, if-eq i i bio.sector _ refl)

-- A block that a lookup finds has the sector's data, wherever the next search starts.
abbrev pub Hits : WtCache → ℕ → LookupResult → Type 0
Hits d dbn (LookupResult.found i) = is_hit d dbn i ≡ true
Hits d dbn (LookupResult.free i) = Unit
Hits d dbn LookupResult.no_room = Unit

pub IsLookup-Hits :
    (d : WtCache) (next : ℕ → ℕ) (start dbn : ℕ) (r : LookupResult)
    → IsLookup d start dbn r
    → Hits (record d { set_lru_next = next }) dbn r
IsLookup-Hits d next start dbn (LookupResult.found i) h = h.1
IsLookup-Hits d next start dbn (LookupResult.free i) h = tt
IsLookup-Hits d next start dbn LookupResult.no_room h = tt

pub after_read_lookup-IsServed :
    (x : WtDriver) (bio : WtBio) (r : LookupResult)
    → Hits x.dmc bio.sector r
    → IsServed x (after_read_lookup x bio r) bio
after_read_lookup-IsServed x bio (LookupResult.found i) h =
    let d = (cache_invalidate_blocks x.dmc bio).0 in
    let inprog = (cache_invalidate_blocks x.dmc bio).1 in
    let y : WtDriver = put_dmc x d in
    let v = is_valid (x.dmc.cache_state i) in
    let uncached = start_uncached_io y bio in
    let fill = start_fill Rw.read_source (put_dmc y (claim d i bio)) bio i in
    let miss = if ltb 0 inprog || not v then uncached else fill in
    let sector : x.dmc.dbn i ≡ bio.sector = ground (arith, h) in
    let P : WtDriver → Type 0 = λ z. IsServed x z bio in
    elim (Bool-cases v) [
      | inl t ↦
          let z : WtDriver = put_dmc x (set_state x.dmc i State.cache_read_in_prog) in
          subst P
            (sym (
              if-true (v && x.dmc.dbn i == bio.sector) (read_hit x bio i) miss
                (ground (arith, t, sector))))
            (start_or-IsServed z bio i Rw.read_cache (set_state z.dmc i State.valid)
              (if-eq i i State.cache_read_in_prog _ refl, sector))
      | inr t ↦
          subst P
            (sym (
              if-false (v && x.dmc.dbn i == bio.sector) (read_hit x bio i) miss
                (ground (arith, t))))
            (subst P (sym (if-true (ltb 0 inprog || not v) uncached fill (ground (arith, t))))
              (start_uncached_io-IsServed y bio))
    ]
after_read_lookup-IsServed x bio (LookupResult.free i) h =
    let d = (cache_invalidate_blocks x.dmc bio).0 in
    let inprog = (cache_invalidate_blocks x.dmc bio).1 in
    let y : WtDriver = put_dmc x d in
    let uncached = start_uncached_io y bio in
    let fill = start_fill Rw.read_source (put_dmc y (claim d i bio)) bio i in
    let P : WtDriver → Type 0 = λ z. IsServed x z bio in
    elim (Bool-cases (ltb 0 inprog)) [
      | inl t ↦
          subst P (sym (if-true (ltb 0 inprog) uncached fill t)) (start_uncached_io-IsServed y bio)
      | inr t ↦
          subst P (sym (if-false (ltb 0 inprog) uncached fill t))
            (start_fill-IsServed Rw.read_source y bio i d (claimed d i bio))
    ]
after_read_lookup-IsServed x bio LookupResult.no_room h =
    start_uncached_io-IsServed (put_dmc x (cache_invalidate_blocks x.dmc bio).0) bio

-- No block that overlaps the request can be read from the cache.
abbrev pub IsUnreadable : WtCache → WtCache → WtBio → Type 0
IsUnreadable d e bio =
    (set k : ℕ)
    → (set ≡ hash_block d bio.sector) ⊎ (set ≡ hash_block d (io_end_of bio))
    → InSet d set k
    → overlaps d bio.sector (io_end_of bio) (d.dbn k) ≡ true
    → (is_valid (e.cache_state k) || is_cache_read (e.cache_state k)) ≡ false
