-- ===== src/Conf/Reboot.antt =====
-- The load after a removal, after a crash, and of a device that holds no cache
-- (src/flashcache_conf.c).
use flashcache_ubuntu_xenial.Prelude.{
  ℕ, suc, ◌<◌, ◌≡◌, refl, sym, ap, subst, ◌∙◌, inl, inr, Bool, true, false, not, ◌&&◌, ◌||◌, ltb,
  if-true, if-false, arith,
}
use flashcache_ubuntu_xenial.Device.{CacheState, CacheBlock, is_invalid}
use flashcache_ubuntu_xenial.Io.Jobs.{MdSlot}
use flashcache_ubuntu_xenial.Conf.Machine.{
  Machine, Exit, ok, failed, panic, ◌>>=◌, unless_failed, read_io, next_io, SbState, Superblock,
  flashcache_version, is_dirty_sb, slot_of, state_of_slot, invalid_state,
}
use flashcache_ubuntu_xenial.Conf.Store.{writeback_md_store}
use flashcache_ubuntu_xenial.Conf.Load.{
  versioned, take_version, take_sizes, is_known_sb, read_header, writeback_load,
}
use flashcache_ubuntu_xenial.Conf.Exits.{Ends-map, Ends-ok}
use flashcache_ubuntu_xenial.Conf.Trusted.{says_clean}
use flashcache_ubuntu_xenial.Conf.Loading.{IsLoaded}
use flashcache_ubuntu_xenial.Conf.Marking.{IsLoadable, IsReloaded, Failure, slot_on, was_clean}
use flashcache_ubuntu_xenial.Conf.Reload.{writeback_load-IsReloaded}
use flashcache_ubuntu_xenial.Conf.Recovery.{
  IsInUse, NeverFails, IsSameDevice, trusted_header, stored-IsLoadable, stored-slot,
}

-- A load that nothing hinders.
pub writeback_load-ok :
    (x : Machine)
    → IsLoadable x
    → NeverFails x
    → (y : Machine) × (writeback_load x ≡ ok y) × IsReloaded x y
writeback_load-ok x l n = Ends-ok (IsReloaded x) (writeback_load x) (
    Ends-map (Failure x) ⊥ (IsReloaded x) (IsReloaded x) (writeback_load x)
      (λ f. elim f [ inl (k, e) ↦ not_both (n.io k) e | inr (k, e) ↦ not_both e (n.memory k) ])
      (λ y h. h) (writeback_load-IsReloaded x l))
  where
    not_both : {b : Bool} → b ≡ false → b ≡ true → ⊥
    not_both e f = absurd (cc (e, f))

-- A block that is loaded from its slot has what the slot has.
pub IsLoaded-slot :
    (clean : Bool) (s : MdSlot) (b : CacheBlock)
    → (clean || s.dirty) ≡ true
    → IsLoaded clean s b
    → slot_of b ≡ s
IsLoaded-slot clean s b c (state, dbn, queued) =
    let made : CacheState → ℕ → MdSlot =
      λ t n. record { dbn = n; valid = t.valid; invalid = t.invalid; dirty = t.dirty } in
    let state' : b.cache_state ≡ state_of_slot s =
      state ∙ if-true (clean || s.dirty) _ invalid_state c in
    let dbn' : b.dbn ≡ s.dbn = dbn ∙ if-true (clean || s.dirty) _ 0 c in
    ap (λ t. made t b.dbn) state' ∙ ap (made (state_of_slot s)) dbn'

pub IsLoaded-invalid :
    (clean : Bool) (s : MdSlot) (b : CacheBlock)
    → (clean || s.dirty) ≡ false
    → IsLoaded clean s b
    → is_invalid b.cache_state ≡ true
IsLoaded-invalid clean s b c (state, dbn, queued) =
    ap is_invalid (state ∙ if-false (clean || s.dirty) (state_of_slot s) _ c)

-- What the store saves, the load brings back, whatever writes have failed: if the cache was in use,
-- the store has returned and the superblock says that it is clean, then a load from that device in
-- which nothing fails ends well, with as many blocks, each with the sector and the INVALID, VALID and
-- DIRTY bits that it had; the superblock is DIRTY then.
pub md_store-load :
    (x y z : Machine)
    → IsInUse x
    → writeback_md_store x ≡ ok y
    → says_clean y.superblock.cache_sb_state ≡ true
    → IsSameDevice y z
    → NeverFails z
    → (v : Machine) × (writeback_load z ≡ ok v)
      × (v.dmc.size ≡ x.dmc.size)
      × (v.superblock.cache_sb_state ≡ SbState.dirty)
      × ((k : ℕ) → k < x.dmc.size → slot_of (v.dmc.cache k) ≡ slot_of (x.dmc.cache k))
md_store-load x y z u e c d n =
    let (s, h, clean) = trusted_header x y u e c in
    let (l, header) = stored-IsLoadable x y z s u h clean d in
    let (v, done, r) = writeback_load-ok z l n in
    let size : (versioned z.superblock).size ≡ x.dmc.size = ap (λ t. t.size) header in
    let b : (versioned z.superblock).md_block_size ≡ x.dmc.md_block_size =
      ap (λ t. t.md_block_size) header in
    let all : (was_clean z) ≡ true =
      ap (λ t. not (is_dirty_sb t.cache_sb_state)) header ∙ not-dirty s clean in
    (
      v,
      done,
      r.taken.size ∙ size,
      r.state,
      λ k l.
          let here : slot_on z k ≡ slot_of (x.dmc.cache k) = stored-slot x y z s h clean d b k l in
          IsLoaded-slot (was_clean z) (slot_on z k) (v.dmc.cache k) (ground (arith, all))
            (r.taken.blocks k (subst (λ m. k < m) (sym size) l))
          ∙ here,
    )
  where
    not-dirty : (s : SbState) → says_clean s ≡ true → not (is_dirty_sb s) ≡ true
    not-dirty s c = ground (arith, c)

-- After a crash exactly the dirty blocks come back: if the superblock is one that the module accepts
-- and DIRTY, the metadata blocks have a size, and no slot is VALID and INVALID at once, then a load in
-- which nothing fails gives every block whose slot is dirty what its slot has, and makes every other
-- block INVALID.
pub crash-load :
    (x : Machine)
    → IsLoadable x
    → is_dirty_sb (versioned x.superblock).cache_sb_state ≡ true
    → NeverFails x
    → (y : Machine) × (writeback_load x ≡ ok y)
      × ((k : ℕ)
          → k < (versioned x.superblock).size
          → (slot_on x k).dirty ≡ true
          → slot_of (y.dmc.cache k) ≡ slot_on x k)
      × ((k : ℕ)
          → k < (versioned x.superblock).size
          → (slot_on x k).dirty ≡ false
          → is_invalid (y.dmc.cache k).cache_state ≡ true)
crash-load x l d n =
    let (y, done, r) = writeback_load-ok x l n in
    let crashed : was_clean x ≡ false = ap not d in
    (
      y,
      done,
      λ k u e.
          IsLoaded-slot (was_clean x) (slot_on x k) (y.dmc.cache k) (ground (arith, e))
            (r.taken.blocks k u),
      λ k u e.
          IsLoaded-invalid (was_clean x) (slot_on x k) (y.dmc.cache k) (ground (arith, crashed, e))
            (r.taken.blocks k u),
    )

-- A call returns 1, and the device is as it was.
abbrev pub IsRejected : {A : Type 0} → Machine → Exit A → Type 0
IsRejected x (ok a) = ⊥
IsRejected x (failed y) = (y.superblock ≡ x.superblock) × (y.slots ≡ x.slots)
IsRejected x panic = ⊥

pub IsRejected-unless :
    {A : Type 0} (x : Machine) (b : Bool) (y z : Machine) (f : Machine → Exit A)
    → (y.superblock ≡ x.superblock) × (y.slots ≡ x.slots)
    → (b ≡ false → IsRejected x (f z))
    → IsRejected x (unless_failed b y z >>= f)
IsRejected-unless x true y z f s h = s
IsRejected-unless x false y z f s h = h refl

IsRejected-bind :
    {A B : Type 0} (x : Machine) (m : Exit A) (f : A → Exit B)
    → IsRejected x m
    → IsRejected x (m >>= f)
IsRejected-bind x (ok a) f h = absurd h
IsRejected-bind x (failed y) f h = h
IsRejected-bind x panic f h = absurd h

pub IsRejected-failed :
    (x : Machine) (m : Exit Machine)
    → IsRejected x m
    → (y : Machine) × (m ≡ failed y) × (y.superblock ≡ x.superblock) × (y.slots ≡ x.slots)
IsRejected-failed x (ok a) h = absurd h
IsRejected-failed x (failed y) h = (y, refl, h.0, h.1)
IsRejected-failed x panic h = absurd h

-- A superblock of a version and a state that the load knows.
abbrev pub is_accepted : Superblock → Bool
is_accepted h = is_known_sb h.cache_sb_state && not (ltb flashcache_version h.cache_version)

read_header-IsRejected :
    (x : Machine) → is_accepted (versioned x.superblock) ≡ false → IsRejected x (read_header x)
unfolding read_header
read_header-IsRejected x e =
    let h = versioned x.superblock in
    let x1 : Machine = record x { vmallocs = suc x.vmallocs } in
    let x2 : Machine = next_io x1 in
    let x3 : Machine = take_version h x2 in
    let known : Machine → Exit (Machine × Superblock) = λ z. ok (take_sizes h z, h) in
    let check : Machine → Exit (Machine × Superblock) = λ z.
      unless_failed (not (is_known_sb h.cache_sb_state)) (take_version h z) (take_version h z)
      >>= known in
    let test : Machine → Exit (Machine × Superblock) = λ z.
      let g = versioned z.superblock in
      unless_failed (ltb flashcache_version g.cache_version) z z >>= λ u.
      unless_failed (not (is_known_sb g.cache_sb_state)) (take_version g u) (take_version g u)
      >>= λ v. ok (take_sizes g v, g) in
    IsRejected-unless x (not (x.can_vmalloc x.vmallocs)) x1 x1 (λ z. read_io z >>= test)
      (refl, refl)
      (λ a.
        IsRejected-unless x (x.io_error x.ios) x2 x2 test (refl, refl)
          (λ b.
            IsRejected-unless x (ltb flashcache_version h.cache_version) x2 x2 check (refl, refl)
              (λ c.
                IsRejected-unless x (not (is_known_sb h.cache_sb_state)) x3 x3 known (refl, refl)
                  (λ d. absurd (
                    not_all (is_known_sb h.cache_sb_state) (ltb flashcache_version h.cache_version)
                      e c d)))))
  where
    not_all : (a b : Bool) → (a && not b) ≡ false → b ≡ false → not a ≡ false → ⊥
    not_all a b e f g = ground (arith, e, f, g)

-- A load returns 1 and leaves the device alone, whatever fails, if the superblock is of a later
-- version, or if it is not DIRTY, CLEAN or FASTCLEAN: it is UNSTABLE after a failed store.
pub writeback_load-rejected :
    (x : Machine)
    → is_accepted (versioned x.superblock) ≡ false
    → (y : Machine) × (writeback_load x ≡ failed y)
      × (y.superblock ≡ x.superblock)
      × (y.slots ≡ x.slots)
unfolding writeback_load
writeback_load-rejected x e =
    IsRejected-failed x _ (IsRejected-bind x (read_header x) _ (read_header-IsRejected x e))
