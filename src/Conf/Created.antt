-- ===== src/Conf/Created.antt =====
-- The cache that flashcache_writeback_create makes (src/flashcache_conf.c).
use flashcache_ubuntu_xenial.Prelude.{
  ℕ, suc, ◌+◌, ◌<◌, ◌≤◌, ◌≡◌, refl, sym, ap, subst, ◌∙◌, inl, Bool, true, false, not, ◌&&◌, ◌==◌,
  ltb, if-true, if-false, arith,
}
use flashcache_ubuntu_xenial.Device.{CacheC, is_invalid}
use flashcache_ubuntu_xenial.Io.Jobs.{MdSlot}
use flashcache_ubuntu_xenial.Conf.Machine.{
  Machine, Exit, ok, ◌>>=◌, unless_failed, read_io, next_io, SbState, Superblock,
  flashcache_version, is_dirty_sb, slot_of, invalid_state, zero_block, md_slots_per_block,
  metadata_io_num_blocks, lands, write_superblock,
}
use flashcache_ubuntu_xenial.Conf.Writer.{machine_of, write_metadata}
use flashcache_ubuntu_xenial.Conf.Store.{stored_header}
use flashcache_ubuntu_xenial.Conf.Load.{versioned, is_known_sb, writeback_load}
use flashcache_ubuntu_xenial.Conf.Create.{
  writeback_create, sized, cache_size, init_blocks, new_cache, take_size, put_new_superblock,
  write_new,
}
use flashcache_ubuntu_xenial.Conf.Exits.{
  Ends, Ends-map, Ends-at, Ends-bind, Ends-unless, unless-then, vmalloc-then, read_io-then,
}
use flashcache_ubuntu_xenial.Conf.Filling.{IsSaved}
use flashcache_ubuntu_xenial.Conf.Written.{IsWritten, write_metadata-IsWritten}
use flashcache_ubuntu_xenial.Conf.Loading.{IsProper}
use flashcache_ubuntu_xenial.Conf.Marking.{IsLoadable, slot_on, was_clean}
use flashcache_ubuntu_xenial.Conf.Recovery.{NeverFails, IsSameDevice}
use flashcache_ubuntu_xenial.Conf.Reboot.{writeback_load-ok, IsLoaded-invalid}

-- A created cache: the superblock says that it is in use, every block is INVALID, and so is its slot.
pub record IsCreated (x y : Machine) : Type 0 where
  pub header : y.superblock ≡ stored_header y SbState.dirty
  pub version : y.dmc.on_ssd_version ≡ flashcache_version
  pub size : y.dmc.size ≡ (sized x.dmc).size
  pub md_blocks : y.dmc.md_blocks ≡ (sized x.dmc).md_blocks
  pub md_block_size : y.dmc.md_block_size ≡ x.dmc.md_block_size
  pub block_size : y.dmc.block_size ≡ x.dmc.block_size
  pub fits : cache_size (sized x.dmc) ≤ x.cache_sectors
  pub slots :
      (k : ℕ)
      → k < (sized x.dmc).size
      → y.slots (md_slots_per_block x.dmc.md_block_size + k)
        ≡ slot_of ((init_blocks (sized x.dmc)).cache k)
  pub blocks : y.dmc.cache ≡ (init_blocks (sized x.dmc)).cache

module _ (x : Machine) (fits : cache_size (sized x.dmc) ≤ x.cache_sectors) where
  put_new_superblock-IsCreated :
      (y : Machine)
      → y.dmc ≡ init_blocks (sized x.dmc)
      → IsSaved (record x { dmc = init_blocks (sized x.dmc) }) (sized x.dmc).size y.slots
      → Ends Unit (IsCreated x) (put_new_superblock y)
  put_new_superblock-IsCreated y d saved =
      let y' : Machine = record y { dmc = record y.dmc { on_ssd_version = flashcache_version } } in
      let h = stored_header y' SbState.dirty in
      let z = (write_superblock y' h).0 in
      Ends-unless Unit (IsCreated x) (y.io_error y.ios) z z (λ e. tt)
        (λ e. record {
          header = if-true (lands y' 0) h y.superblock (ground (arith, e));
          version = refl;
          size = ap (λ (t : CacheC). t.size) d;
          md_blocks = ap (λ (t : CacheC). t.md_blocks) d;
          md_block_size = ap (λ (t : CacheC). t.md_block_size) d;
          block_size = ap (λ (t : CacheC). t.block_size) d;
          fits = fits;
          slots = saved;
          blocks = ap (λ (t : CacheC). t.cache) d;
        })

  write_new-IsCreated :
      (y : Machine)
      → 0 < x.dmc.md_block_size
      → 0 < metadata_io_num_blocks x.dmc.md_block_size
      → y.dmc ≡ init_blocks (sized x.dmc)
      → Ends Unit (IsCreated x) (write_new y)
  write_new-IsCreated y b n d =
      let y' : Machine = record y { vmallocs = suc y.vmallocs } in
      let buffer = y.fresh_slots y.vmallocs in
      let next : Machine → Exit Machine =
        λ z. write_metadata true z buffer >>= λ w. put_new_superblock (machine_of z w) in
      let D : CacheC → Type 0 =
        λ t. 0 < t.md_block_size × (0 < metadata_io_num_blocks t.md_block_size) in
      let good : D y.dmc = subst D (sym d) (b, n) in
      vmalloc-then Unit (IsCreated x) y next (λ e. tt)
        (Ends-bind Unit (IsWritten true y') (IsCreated x) (write_metadata true y' buffer)
          (λ w. put_new_superblock (machine_of y' w))
          (Ends-map (true ≡ true) Unit (IsWritten true y') (IsWritten true y')
            (write_metadata true y' buffer) (λ e. tt) (λ w h. h)
            (write_metadata-IsWritten true y' buffer good.0 good.1))
          (λ w h. put_new_superblock-IsCreated (machine_of y' w) d (
            subst (λ (t : CacheC). IsSaved (record x { dmc = t }) t.size w.slots) d
              (h.saved (h.sound (inl refl))))))

-- The creation never panics, and a cache that it returns is as IsCreated says.
pub writeback_create-IsCreated :
    (force : Bool) (x : Machine)
    → 0 < x.dmc.md_block_size
    → 0 < metadata_io_num_blocks x.dmc.md_block_size
    → Ends Unit (IsCreated x) (writeback_create force x)
unfolding writeback_create
writeback_create-IsCreated force x b n =
    let P = IsCreated x in
    let x1 : Machine = record x { vmallocs = suc x.vmallocs } in
    let x2 : Machine = next_io x1 in
    let x3 : Machine = record x2 { dmc = sized x2.dmc } in
    let x4 : Machine = record x3 { vmallocs = suc x3.vmallocs; dmc = init_blocks x3.dmc } in
    let fresh : Machine → Exit Machine = λ z. new_cache z >>= write_new in
    let sizes : Machine → Exit Machine = λ z. take_size z >>= fresh in
    let start : Machine → Exit Machine =
      λ z. unless_failed (not force && is_known_sb z.superblock.cache_sb_state) z z >>= sizes in
    let C : Machine → Type 0 = λ u. u ≡ x4 in
    let init : Machine → Exit Machine = λ u. ok (record u { dmc = init_blocks u.dmc }) in
    vmalloc-then Unit P x (λ z. read_io z >>= start) (λ e. tt)
      (read_io-then Unit P x1 start (λ e. tt)
        (unless-then Unit P (not force && is_known_sb x.superblock.cache_sb_state) x2 x2 sizes
          (λ e. tt)
          (λ e.
            unless-then Unit P (ltb x.cache_sectors (cache_size (sized x.dmc))) x3 x3 fresh
              (λ u. tt)
              (λ u.
                Ends-bind Unit C P (new_cache x3) write_new
                  (vmalloc-then Unit C x3 init (λ v. tt) refl)
                  (λ v q.
                    write_new-IsCreated x (ground (arith, u)) v b n
                      (ap (λ (t : Machine). t.dmc) q))))))

-- A new cache is empty, also after a reboot: if the creation returns a cache, then a load from that
-- device in which nothing fails ends well, with as many blocks, all of them INVALID.
pub create-load :
    (force : Bool) (x y z : Machine)
    → 0 < x.dmc.md_block_size
    → 0 < metadata_io_num_blocks x.dmc.md_block_size
    → writeback_create force x ≡ ok y
    → IsSameDevice y z
    → NeverFails z
    → (v : Machine) × (writeback_load z ≡ ok v)
      × (v.dmc.size ≡ y.dmc.size)
      × ((k : ℕ) → k < y.dmc.size → is_invalid (v.dmc.cache k).cache_state ≡ true)
create-load force x y z b n e (d, t) f =
    let c : IsCreated x y =
      Ends-at Unit (IsCreated x) (writeback_create force x) y e
        (writeback_create-IsCreated force x b n) in
    let h = stored_header y SbState.dirty in
    let four : versioned h ≡ h =
      if-false (y.dmc.on_ssd_version == 1) (record h { md_block_size = 1 }) h
        (ground (arith, c.version)) in
    let header : versioned z.superblock ≡ h = ap versioned (d ∙ c.header) ∙ four in
    let size : (versioned z.superblock).md_block_size ≡ x.dmc.md_block_size =
      ap (λ (s : Superblock). s.md_block_size) header ∙ c.md_block_size in
    let count : (versioned z.superblock).size ≡ y.dmc.size =
      ap (λ (s : Superblock). s.size) header in
    let empty : MdSlot = slot_of (record zero_block { cache_state = invalid_state }) in
    let here : (k : ℕ) → k < y.dmc.size → slot_on z k ≡ empty = λ k l.
      let l' : k < (sized x.dmc).size = subst (λ s. k < s) c.size l in
      ap (λ s. s (md_slots_per_block (versioned z.superblock).md_block_size + k)) t
      ∙ ap (λ s. y.slots (md_slots_per_block s + k)) size
      ∙ c.slots k l'
      ∙ ap slot_of (if-true (ltb k (sized x.dmc).size) _ zero_block (ground (arith, l'))) in
    let good : IsLoadable z = record {
      version = rw (header, c.version) (omega arith);
      known = rw header refl;
      some = rw size b;
      room = rw size n;
      proper = λ k l. subst IsProper (sym (here k (subst (λ s. k < s) count l))) refl;
    } in
    let (v, done, r) = writeback_load-ok z good f in
    let crashed : was_clean z ≡ false =
      ap (λ (s : Superblock). not (is_dirty_sb s.cache_sb_state)) header in
    (
      v,
      done,
      r.taken.size ∙ count,
      λ k l.
          let free : (slot_on z k).dirty ≡ false = ap (λ (s : MdSlot). s.dirty) (here k l) in
          IsLoaded-invalid (was_clean z) (slot_on z k) (v.dmc.cache k)
            (ground (arith, crashed, free)) (r.taken.blocks k (subst (λ s. k < s) (sym count) l)),
    )
