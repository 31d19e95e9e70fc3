-- ===== src/Conf/Recovery.antt =====
-- The metadata across a removal, a reboot or a crash, and the load after it
-- (src/flashcache_conf.c).
use flashcache_ubuntu_xenial.Prelude.{
  ℕ, zero, suc, ◌+◌, tally, ◌<◌, ◌≤◌, ◌≡◌, sym, ap, subst, ◌∙◌, inl, inr, Bool, true, false, if-eq,
  if-ne, arith, eq-cases,
}
use flashcache_ubuntu_xenial.Conf.Machine.{
  Machine, ok, SbState, flashcache_version, md_slots_per_block, metadata_io_num_blocks, is_dirty_sb,
  is_clean_sb, slot_of,
}
use flashcache_ubuntu_xenial.Conf.Store.{writeback_md_store, stored_header}
use flashcache_ubuntu_xenial.Conf.Load.{versioned, is_known_sb}
use flashcache_ubuntu_xenial.Conf.Exits.{Ends-at}
use flashcache_ubuntu_xenial.Conf.Filling.{IsSaved}
use flashcache_ubuntu_xenial.Conf.Trusted.{
  says_clean, IsHonest, IsStored, writeback_md_store-IsStored,
}
use flashcache_ubuntu_xenial.Conf.Loading.{IsProper}
use flashcache_ubuntu_xenial.Conf.Marking.{IsLoadable, slot_on}

-- A cache that is in use: sizes that the module accepts, blocks in a state of their own, and a
-- superblock that says that it is in use.
pub record IsInUse (x : Machine) : Type 0 where
  pub some : 0 < x.dmc.md_block_size
  pub room : 0 < metadata_io_num_blocks x.dmc.md_block_size
  pub version : x.dmc.on_ssd_version ≤ flashcache_version
  pub first_version : x.dmc.on_ssd_version ≡ 1 → x.dmc.md_block_size ≡ 1
  pub proper : (k : ℕ) → k < x.dmc.size → IsProper (slot_of (x.dmc.cache k))
  pub dirty : is_dirty_sb x.superblock.cache_sb_state ≡ true

-- No read, no write and no allocation fails.
pub record NeverFails (x : Machine) : Type 0 where
  pub io : (n : ℕ) → x.io_error n ≡ false
  pub memory : (n : ℕ) → x.can_vmalloc n ≡ true

-- The device says that it is clean after a store only if the store wrote the header, and is honest.
cc_false : {A : Type 0} → false ≡ true → A
cc_false e = absurd (cc e)

-- A count of 0 counts nothing.
tally-none : (f : ℕ → Bool) (n : ℕ) → tally f n ≡ 0 → (k : ℕ) → k < n → f k ≡ false
tally-none f zero e k l = absurd (omega (arith, l))
tally-none f (suc n) e k l = elim (eq-cases k n) [
  | inl q ↦ ap f q ∙ ground (arith, e)
  | inr ne ↦ tally-none f n (ground (arith, e)) k (omega (arith, l, ne))
]

pub trusted_header :
    (x y : Machine)
    → IsInUse x
    → writeback_md_store x ≡ ok y
    → says_clean y.superblock.cache_sb_state ≡ true
    → (s : SbState) × IsHonest x y s × (says_clean s ≡ true)
trusted_header x y u e c =
    let stored : IsStored x y =
      Ends-at ((n : ℕ) × (x.can_vmalloc n ≡ false)) (IsStored x) (writeback_md_store x) y e
        (writeback_md_store-IsStored x u.some u.room) in
    elim stored.outcome [
      | inl (s, h) ↦ (s, h, ap (λ t. says_clean t.cache_sb_state) (sym h.header) ∙ c)
      | inr (same, n, f) ↦ absurd (
          dirty-ne-clean x.superblock.cache_sb_state u.dirty
            (ap (λ t. says_clean t.cache_sb_state) (sym same) ∙ c))
    ]
  where
    dirty-ne-clean : (s : SbState) → is_dirty_sb s ≡ true → says_clean s ≡ true → ⊥
    dirty-ne-clean SbState.dirty d c = cc_false c
    dirty-ne-clean SbState.clean d c = cc_false d
    dirty-ne-clean SbState.fast_clean d c = cc_false d
    dirty-ne-clean SbState.unstable d c = cc_false d
    dirty-ne-clean (SbState.other n) d c = cc_false d

-- A superblock of the store that says that it is clean can be trusted, whatever writes have failed:
-- if the cache was in use and the store has returned, then the slot of every block is on the device
-- as the block is, and CLEAN means that no block is dirty.
pub md_store-trusted :
    (x y : Machine)
    → IsInUse x
    → writeback_md_store x ≡ ok y
    → says_clean y.superblock.cache_sb_state ≡ true
    → IsSaved x x.dmc.size y.slots
      × (is_clean_sb y.superblock.cache_sb_state ≡ true
          → (k : ℕ) → k < x.dmc.size
          → (x.dmc.cache k).cache_state.dirty ≡ false)
md_store-trusted x y u e c =
    let (s, h, clean) = trusted_header x y u e c in
    (
      h.saved clean,
      λ d k l.
          let of_header : is_clean_sb s ≡ true =
            ap (λ t. is_clean_sb t.cache_sb_state) (sym h.header) ∙ d in
          tally-none (λ k. (x.dmc.cache k).cache_state.dirty) x.dmc.size (h.clean of_header) k l,
    )

-- A reboot: another machine finds what the store has left on the device.
abbrev pub IsSameDevice : Machine → Machine → Type 0
IsSameDevice y z = (z.superblock ≡ y.superblock) × (z.slots ≡ y.slots)

-- The slot of a block that the store has written, on the same device.
pub stored-slot :
    (x y z : Machine) (s : SbState)
    → IsHonest x y s
    → says_clean s ≡ true
    → IsSameDevice y z
    → (versioned z.superblock).md_block_size ≡ x.dmc.md_block_size
    → (j : ℕ) → j < x.dmc.size
    → slot_on z j ≡ slot_of (x.dmc.cache j)
stored-slot x y z s h c (d, t) size j l =
    ap (λ f. f (md_slots_per_block (versioned z.superblock).md_block_size + j)) t
    ∙ ap (λ n. y.slots (md_slots_per_block n + j)) size
    ∙ h.saved c j l

pub stored-IsLoadable :
    (x y z : Machine) (s : SbState)
    → IsInUse x
    → IsHonest x y s
    → says_clean s ≡ true
    → IsSameDevice y z
    → IsLoadable z × (versioned z.superblock ≡ stored_header x s)
stored-IsLoadable x y z s u h c (d, t) =
    let b = x.dmc.md_block_size in
    let k = md_slots_per_block b in
    let header : versioned z.superblock ≡ stored_header x s =
      ap versioned (d ∙ h.header) ∙ versioned-stored x s u.first_version in
    let size : (versioned z.superblock).md_block_size ≡ b = ap (λ t. t.md_block_size) header in
    (
      record {
        version = rw header u.version;
        known = rw header (known-clean s c);
        some = rw size u.some;
        room = rw size u.room;
        proper = λ j l.
            let l' : j < x.dmc.size = subst (λ n. j < n) (ap (λ t. t.size) header) l in
            let here = stored-slot x y z s h c (d, t) size j l' in
            subst IsProper (sym here) (u.proper j l');
      },
      header,
    )
  where
    known-clean : (s : SbState) → says_clean s ≡ true → is_known_sb s ≡ true
    known-clean s c = ground (arith, c)

    versioned-stored :
        (x : Machine) (s : SbState)
        → (x.dmc.on_ssd_version ≡ 1 → x.dmc.md_block_size ≡ 1)
        → versioned (stored_header x s) ≡ stored_header x s
    versioned-stored x s h = elim (eq-cases x.dmc.on_ssd_version 1) [
      | inl e ↦
          if-eq x.dmc.on_ssd_version 1 _ (stored_header x s) e
          ∙ ap (λ n. record (stored_header x s) { md_block_size = n }) (sym (h e))
      | inr n ↦ if-ne x.dmc.on_ssd_version 1 _ (stored_header x s) n
    ]
