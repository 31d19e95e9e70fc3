-- ===== src/Wt/Mapped.antt =====
-- flashcache_wt_map as a whole (flashcache-wt/src/flashcache_wt.c).
use flashcache_ubuntu_xenial.Prelude.{
  ◌*◌, ◌<◌, ◌≤◌, ◌≡◌, refl, sym, ap, subst, ◌∙◌, inl, inr, false, not, ◌&&◌, ◌||◌, Option, some,
  ltb, leb, ◌==◌, if◌then◌else◌, if-true, if-false, guard-true, arith, Bool-cases, ◌>>=◌,
}
use flashcache_ubuntu_xenial.Wt.Cache.{
  WtCache, WtBio, hash_block, cache_lookup, cache_invalidate_blocks,
}
use flashcache_ubuntu_xenial.Wt.Io.{
  WtDriver, put_dmc, start_uncached_io, after_read_lookup, cache_read, after_write_lookup,
  cache_write, wt_map,
}
use flashcache_ubuntu_xenial.Wt.Lookup.{IsSwept, cache_lookup-next}
use flashcache_ubuntu_xenial.Wt.Stale.{cache_invalidate_blocks-IsThinned}
use flashcache_ubuntu_xenial.Wt.Served.{IsLookup-Hits, after_read_lookup-IsServed}
use flashcache_ubuntu_xenial.Wt.Writes.{IsMapped, uncached-IsMapped, after_write_lookup-IsMapped}

module _ (x : WtDriver) (bio : WtBio) where
  cache_read-IsMapped :
      IsSwept x.dmc (x.dmc.assoc * hash_block x.dmc bio.sector)
      → bio.writes ≡ false
      → IsMapped x bio (cache_read x bio)
  unfolding cache_read
  cache_read-IsMapped w reads =
      let (next, r, e, w', h) = cache_lookup-next x.dmc bio w in
      let z : WtDriver = put_dmc x (record x.dmc { set_lru_next = next }) in
      (
        after_read_lookup z bio r,
        ap (λ m. m >>= λ (d, r). some (after_read_lookup (put_dmc x d) bio r)) e,
        after_read_lookup-IsServed z bio r
            (IsLookup-Hits x.dmc next (x.dmc.assoc * hash_block x.dmc bio.sector) bio.sector r h),
        λ t. absurd (cc (reads, t)),
      )

  cache_write-IsMapped :
      IsSwept x.dmc (x.dmc.assoc * hash_block x.dmc bio.sector)
      → 0 < x.dmc.block_size
      → IsMapped x bio (cache_write x bio)
  unfolding cache_write
  cache_write-IsMapped w p =
      let (thin, gone) = cache_invalidate_blocks-IsThinned x.dmc bio in
      let d = (cache_invalidate_blocks x.dmc bio).0 in
      let inprog = (cache_invalidate_blocks x.dmc bio).1 in
      let y : WtDriver = put_dmc x d in
      let look : Option WtDriver =
        cache_lookup d bio >>= λ (d', r). after_write_lookup (put_dmc y d') bio r in
      let uncached : Option WtDriver = some (start_uncached_io y bio) in
      let start = d.assoc * hash_block d bio.sector in
      let swept : IsSwept d start =
        subst (λ (c : WtCache). IsSwept c (c.assoc * hash_block c bio.sector)) (sym thin.same) w in
      let same : start ≡ x.dmc.assoc * hash_block x.dmc bio.sector =
        ap (λ (c : WtCache). c.assoc * hash_block c bio.sector) thin.same in
      let P = IsMapped x bio in
      elim (Bool-cases (ltb 0 inprog)) [
        | inl t ↦ subst P (sym (if-true (ltb 0 inprog) uncached look t)) (uncached-IsMapped x bio)
        | inr t ↦
            let (next, r, e, w', h) = cache_lookup-next d bio swept in
            let run = ap (λ m. m >>= λ (d', r). after_write_lookup (put_dmc y d') bio r) e in
            subst P (sym (if-false (ltb 0 inprog) uncached look t ∙ run))
              (after_write_lookup-IsMapped x bio next start r same p h)
      ]

  -- Every request is served: if a request is no larger than a block, which is not empty, and its set's
  -- next place to search from is in the set, then the map passes its assertions, and it either answers
  -- the request with an error or starts one I/O for it, of a block that is marked busy with the
  -- request's sector or of none; and after a write no block of its sets that it overlaps can be read
  -- from the cache.
  pub wt_map-IsMapped :
      bio.sectors ≤ x.dmc.block_size
      → 0 < x.dmc.block_size
      → IsSwept x.dmc (x.dmc.assoc * hash_block x.dmc bio.sector)
      → IsMapped x bio (wt_map x bio)
  unfolding wt_map
  wt_map-IsMapped l p w =
      let y : WtDriver = put_dmc x (cache_invalidate_blocks x.dmc bio).0 in
      let uncached : Option WtDriver = some (start_uncached_io y bio) in
      let cached : Option WtDriver = if bio.writes then cache_write x bio else cache_read x bio in
      let around =
        not (bio.sectors == x.dmc.block_size) || (x.dmc.write_around_mode && bio.writes) in
      let P = IsMapped x bio in
      let run : IsMapped x bio (if around then uncached else cached) = elim (Bool-cases around) [
        | inl t ↦ subst P (sym (if-true around uncached cached t)) (uncached-IsMapped x bio)
        | inr t ↦ subst P (sym (if-false around uncached cached t)) (elim (Bool-cases bio.writes) [
          | inl u ↦
              subst P (sym (if-true bio.writes (cache_write x bio) (cache_read x bio) u))
                (cache_write-IsMapped w p)
          | inr u ↦
              subst P (sym (if-false bio.writes (cache_write x bio) (cache_read x bio) u))
                (cache_read-IsMapped w u)
        ])
      ] in
      subst P (sym (guard-true (leb bio.sectors x.dmc.block_size) _ _ (ground (arith, l)) refl)) run
