-- ===== src/Conf/Reload.antt =====
-- What flashcache_writeback_load brings back (src/flashcache_conf.c).
use flashcache_ubuntu_xenial.Prelude.{
  ℕ, suc, ◌<◌, ◌≡◌, refl, sym, ap, subst, inl, inr, not, ltb, arith,
}
use flashcache_ubuntu_xenial.Conf.Machine.{
  Machine, Exit, ok, ◌>>=◌, unless_failed, Superblock, flashcache_version, next_io, vmalloc,
  is_dirty_sb, zero_block, read_io,
}
use flashcache_ubuntu_xenial.Conf.Load.{
  versioned, take_version, take_sizes, is_known_sb, alloc_cache, load_metadata, header_memory,
  dirty_header, put_superblock, read_header, writeback_load,
}
use flashcache_ubuntu_xenial.Conf.Exits.{
  Ends, Ends-bind, Ends-map, unless-then, vmalloc-then, read_io-then,
}
use flashcache_ubuntu_xenial.Conf.Filling.{md_slots_per_block_lem}
use flashcache_ubuntu_xenial.Conf.Loading.{IsLoaded}
use flashcache_ubuntu_xenial.Conf.Reading.{FailedIo, load_metadata-Ends}
use flashcache_ubuntu_xenial.Conf.Marking.{
  slot_on, was_clean, IsTaken, IsReloaded, IsLoadable, Failure, header_memory-IsReloaded,
}

-- The machine once the header is accepted.
abbrev accepted : Machine → Machine
accepted x =
    let h = versioned x.superblock in
    take_sizes h (take_version h (record x { vmallocs = suc x.vmallocs; ios = suc x.ios }))

read_header-Ends :
    (x : Machine)
    → IsLoadable x
    → Ends
        (Failure x)
        (λ (p : Machine × Superblock). (p.0 ≡ accepted x) × (p.1 ≡ versioned x.superblock))
        (read_header x)
unfolding read_header
read_header-Ends x l =
    let F = Failure x in
    let P : Machine × Superblock → Type 0 =
      λ p. (p.0 ≡ accepted x) × (p.1 ≡ versioned x.superblock) in
    let h = versioned x.superblock in
    let x1 : Machine = record x { vmallocs = suc x.vmallocs } in
    let x2 : Machine = next_io x1 in
    let known : Machine → Exit (Machine × Superblock) = λ z. ok (take_sizes h z, h) in
    let check : Machine → Exit (Machine × Superblock) = λ z.
      unless_failed (not (is_known_sb h.cache_sb_state)) (take_version h z) (take_version h z)
      >>= known in
    let test : Machine → Exit (Machine × Superblock) = λ z.
      let g = versioned z.superblock in
      unless_failed (ltb flashcache_version g.cache_version) z z >>= λ u.
      unless_failed (not (is_known_sb g.cache_sb_state)) (take_version g u) (take_version g u)
      >>= λ v. ok (take_sizes g v, g) in
    vmalloc-then F P x (λ z. read_io z >>= test) (λ e. inr (x.vmallocs, e))
      (read_io-then F P x1 test (λ e. inl (x.ios, e))
        (unless-then F P (ltb flashcache_version h.cache_version) x2 x2 check
          (λ e. absurd (ground (arith, e, l.version)))
          (λ e.
            unless-then F P (not (is_known_sb h.cache_sb_state)) (take_version h x2)
              (take_version h x2) known (λ u. absurd (cc (u, l.known))) (λ u. (refl, refl)))))

-- The machine once the memory is there, and what the loops make of it.
abbrev cleared : Machine → Machine
cleared x =
    let z = accepted x in
    record z { dmc = record z.dmc { cache = λ _. zero_block }; vmallocs = suc (suc z.vmallocs) }

loaded-IsTaken :
    (x y : Machine)
    → y ≡ record (cleared x) { ios = y.ios; dmc = record (cleared x).dmc { cache = y.dmc.cache } }
    → ((k : ℕ)
        → k < (versioned x.superblock).size
        → IsLoaded (was_clean x) (slot_on x k) (y.dmc.cache k))
    → IsTaken x y
loaded-IsTaken x y e h = record {
  size = ap (λ (z : Machine). z.dmc.size) e;
  block_size = ap (λ (z : Machine). z.dmc.block_size) e;
  assoc = ap (λ (z : Machine). z.dmc.assoc) e;
  md_block_size = ap (λ (z : Machine). z.dmc.md_block_size) e;
  version = ap (λ (z : Machine). z.dmc.on_ssd_version) e;
  slots = ap (λ (z : Machine). z.slots) e;
  io_error = ap (λ (z : Machine). z.io_error) e;
  can_vmalloc = ap (λ (z : Machine). z.can_vmalloc) e;
  blocks = h;
}

-- The load of a superblock that it accepts never panics, and it is complete unless an I/O or an
-- allocation fails.
pub writeback_load-IsReloaded :
    (x : Machine) → IsLoadable x → Ends (Failure x) (IsReloaded x) (writeback_load x)
unfolding writeback_load
writeback_load-IsReloaded x l =
    let F = Failure x in
    let R = IsReloaded x in
    let h = versioned x.superblock in
    let H : Machine × Superblock → Type 0 = λ p. (p.0 ≡ accepted x) × (p.1 ≡ h) in
    let last : Superblock → Machine → Exit Machine =
      λ g z. header_memory g z >>= λ (u, m). put_superblock (dirty_header u m) u in
    let loops : Superblock → Machine → Exit Machine =
      λ g z. load_metadata (not (is_dirty_sb g.cache_sb_state)) z >>= last g in
    let next : Superblock → Machine → Exit Machine =
      λ g z. alloc_cache z >>= λ u. vmalloc u >>= loops g in
    let z : Machine = accepted x in
    let z1 : Machine = record z {
      vmallocs = suc z.vmallocs;
      dmc = record z.dmc { cache = λ _. zero_block };
    } in
    let C : Machine → Type 0 = λ u. u ≡ z1 in
    let clear : Machine → Exit Machine =
      λ u. ok (record u { dmc = record u.dmc { cache = λ _. zero_block } }) in
    let L : Machine → Type 0 = λ y.
      (y ≡ record (cleared x) { ios = y.ios; dmc = record (cleared x).dmc { cache = y.dmc.cache } })
      × ((k : ℕ) → k < h.size → IsLoaded (was_clean x) (slot_on x k) (y.dmc.cache k)) in
    let slots = md_slots_per_block_lem h.md_block_size in
    let after : Ends F R (vmalloc z1 >>= loops h) =
      vmalloc-then F R z1 (loops h) (λ e. inr (z1.vmallocs, e))
        (Ends-bind F L R (load_metadata (was_clean x) (cleared x)) (last h)
          (Ends-map (FailedIo x) F L L (load_metadata (was_clean x) (cleared x)) (λ e. inl e)
            (λ y q. q)
            (load_metadata-Ends (was_clean x) (cleared x) l.proper (omega (arith, slots, l.some))
              l.room))
          (λ y q. header_memory-IsReloaded x y (loaded-IsTaken x y q.0 q.1))) in
    Ends-bind F H R (read_header x) (λ p. next p.1 p.0) (read_header-Ends x l)
      (λ p e.
        rw (e.0, e.1)
          (Ends-bind F C R (alloc_cache z) (λ u. vmalloc u >>= loops h)
            (vmalloc-then F C z clear (λ e. inr (z.vmallocs, e)) refl)
            (λ u e. subst (λ t. Ends F R (vmalloc t >>= loops h)) (sym e) after)))
