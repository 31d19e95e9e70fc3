-- ===== src/Wt/Writes.antt =====
-- What flashcache_wt_map does with a request, reads and writes alike
-- (flashcache-wt/src/flashcache_wt.c).
use flashcache_ubuntu_xenial.Prelude.{
  ℕ, ◌*◌, ◌<◌, ◌≡◌, refl, sym, ap, subst, ◌∙◌, inl, inr, Bool, true, false, ◌||◌, Option, some,
  if◌then◌else◌, if-true, if-false, if-eq, if-ne, arith, eq-cases, Bool-cases,
}
use flashcache_ubuntu_xenial.Wt.Cache.{
  State, is_valid, is_cache_read, is_live, WtCache, WtBio, set_state, less_cached, hash_block,
  overlaps, io_end_of, LookupResult, cache_invalidate_blocks,
}
use flashcache_ubuntu_xenial.Wt.Io.{
  Rw, WtJob, WtDriver, put_dmc, bio_endio, can_alloc, after_alloc, start_io, start_uncached_io,
  claim, start_fill, after_write_lookup,
}
use flashcache_ubuntu_xenial.Wt.Lookup.{IsLookup}
use flashcache_ubuntu_xenial.Wt.Stale.{cache_invalidate_blocks-IsThinned}
use flashcache_ubuntu_xenial.Wt.Served.{
  IsServed, IsUnreadable, start_uncached_io-IsServed, start_fill-IsServed, claimed,
}

abbrev is_readable : State → Bool
is_readable s = is_valid s || is_cache_read s

live-readable : (s : State) → is_live s ≡ false → is_readable s ≡ false
live-readable s e = ground (arith, e)

start_uncached_io-dmc : (x : WtDriver) (bio : WtBio) → (start_uncached_io x bio).dmc ≡ x.dmc
unfolding start_uncached_io
start_uncached_io-dmc x bio =
    let job : WtJob = record { bio = bio; index = 0; rw = Rw.uncached } in
    let good : WtDriver = start_io (after_alloc x) job in
    let bad : WtDriver = bio_endio (after_alloc x) bio true in
    elim (Bool-cases (can_alloc x)) [
      | inl a ↦ ap (λ (y : WtDriver). y.dmc) (if-true (can_alloc x) good bad a)
      | inr a ↦ ap (λ (y : WtDriver). y.dmc) (if-false (can_alloc x) good bad a)
    ]

set_state-readable :
    (d : WtCache) (i k : ℕ) (s : State)
    → is_readable s ≡ false
    → is_readable (d.cache_state k) ≡ false
    → is_readable ((set_state d i s).cache_state k) ≡ false
set_state-readable d i k s e f = elim (eq-cases i k) [
  | inl q ↦ ap is_readable (if-eq i k s (d.cache_state k) q) ∙ e
  | inr n ↦ ap is_readable (if-ne i k s (d.cache_state k) n) ∙ f
]

claim-readable :
    (d : WtCache) (i k : ℕ) (bio : WtBio)
    → is_readable (d.cache_state k) ≡ false
    → is_readable ((claim d i bio).cache_state k) ≡ false
claim-readable d i k bio f =
    let v = is_valid (d.cache_state i) in
    let d' : WtCache = if v then less_cached d else d in
    let same : d'.cache_state k ≡ d.cache_state k = elim (Bool-cases v) [
      | inl t ↦ ap (λ (c : WtCache). c.cache_state k) (if-true v (less_cached d) d t)
      | inr t ↦ ap (λ (c : WtCache). c.cache_state k) (if-false v (less_cached d) d t)
    ] in
    set_state-readable d' i k State.in_prog refl (ap is_readable same ∙ f)

start_fill-readable :
    (rw : Rw) (x : WtDriver) (bio : WtBio) (i k : ℕ) (d : WtCache)
    → is_readable (d.cache_state k) ≡ false
    → is_readable ((start_fill rw (put_dmc x (claim d i bio)) bio i).dmc.cache_state k) ≡ false
unfolding start_fill
start_fill-readable rw x bio i k d f =
    let c = claim d i bio in
    let y : WtDriver = after_alloc (put_dmc x c) in
    let job : WtJob = record { bio = bio; index = i; rw = rw } in
    let good : WtDriver = start_io y job in
    let bad : WtDriver = bio_endio (put_dmc y (set_state c i State.invalid)) bio true in
    let P : WtDriver → Type 0 = λ z. is_readable (z.dmc.cache_state k) ≡ false in
    let held = claim-readable d i k bio f in
    elim (Bool-cases (can_alloc x)) [
      | inl a ↦ subst P (sym (if-true (can_alloc x) good bad a)) held
      | inr a ↦
          subst P (sym (if-false (can_alloc x) good bad a))
            (set_state-readable c i k State.invalid refl held)
    ]

-- What the map does with a request.
abbrev pub IsMapped : WtDriver → WtBio → Option WtDriver → Type 0
IsMapped x bio m =
    (y : WtDriver) × (m ≡ some y)
    × IsServed x y bio
    × (bio.writes ≡ true → IsUnreadable x.dmc y.dmc bio)

pub uncached-IsMapped :
    (x : WtDriver) (bio : WtBio)
    → IsMapped x bio
        (some (start_uncached_io (put_dmc x (cache_invalidate_blocks x.dmc bio).0) bio))
uncached-IsMapped x bio =
    let (thin, gone) = cache_invalidate_blocks-IsThinned x.dmc bio in
    let z : WtDriver = put_dmc x (cache_invalidate_blocks x.dmc bio).0 in
    (
      start_uncached_io z bio,
      refl,
      start_uncached_io-IsServed z bio,
      λ w set k c i o.
          ap (λ (d : WtCache). is_readable (d.cache_state k)) (start_uncached_io-dmc z bio)
          ∙ live-readable (z.dmc.cache_state k) (gone set k c i o),
    )

pub after_write_lookup-IsMapped :
    (x : WtDriver) (bio : WtBio) (next : ℕ → ℕ) (start : ℕ) (r : LookupResult)
    → start ≡ x.dmc.assoc * hash_block x.dmc bio.sector
    → 0 < x.dmc.block_size
    → IsLookup (cache_invalidate_blocks x.dmc bio).0 start bio.sector r
    → IsMapped x bio (
        after_write_lookup
          (put_dmc x (record (cache_invalidate_blocks x.dmc bio).0 { set_lru_next = next }))
          bio
          r)
after_write_lookup-IsMapped x bio next start (LookupResult.found i) at p (w, h) =
    let (thin, gone) = cache_invalidate_blocks-IsThinned x.dmc bio in
    let d = (cache_invalidate_blocks x.dmc bio).0 in
    let size : d.assoc ≡ x.dmc.assoc = ap (λ (c : WtCache). c.assoc) thin.same in
    let sector : x.dmc.dbn i ≡ bio.sector =
      ap (λ (c : WtCache). c.dbn i) (sym thin.same) ∙ ground (arith, h) in
    let over : overlaps x.dmc bio.sector (io_end_of bio) (x.dmc.dbn i) ≡ true =
      ground (arith, sector, p) in
    let dead =
      gone (hash_block x.dmc bio.sector) i (inl refl)
        (omega (arith, at, w.0), omega (arith, at, size, w.1)) over in
    absurd (ground (arith, dead, h))
after_write_lookup-IsMapped x bio next start (LookupResult.free i) at p h =
    let (thin, gone) = cache_invalidate_blocks-IsThinned x.dmc bio in
    let d : WtCache = record (cache_invalidate_blocks x.dmc bio).0 { set_lru_next = next } in
    (
      start_fill Rw.write_source (put_dmc x (claim d i bio)) bio i,
      refl,
      start_fill-IsServed Rw.write_source x bio i d (claimed d i bio),
      λ w set k c j o.
          start_fill-readable Rw.write_source x bio i k d
            (live-readable (d.cache_state k) (gone set k c j o)),
    )
after_write_lookup-IsMapped x bio next start LookupResult.no_room at p h =
    let (thin, gone) = cache_invalidate_blocks-IsThinned x.dmc bio in
    let d : WtCache = record (cache_invalidate_blocks x.dmc bio).0 { set_lru_next = next } in
    let z : WtDriver = put_dmc x d in
    (
      start_uncached_io z bio,
      refl,
      start_uncached_io-IsServed z bio,
      λ w set k c j o.
          ap (λ (e : WtCache). is_readable (e.cache_state k)) (start_uncached_io-dmc z bio)
          ∙ live-readable (d.cache_state k) (gone set k c j o),
    )
