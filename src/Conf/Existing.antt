-- ===== src/Conf/Existing.antt =====
-- What flashcache_writeback_load and flashcache_writeback_create take for a cache
-- (src/flashcache_conf.c).
use flashcache_ubuntu_xenial.Prelude.{
  ℕ, suc, ◌≤◌, ◌<◌, ◌≡◌, refl, ap, ◌⊎◌, inl, inr, Bool, true, false, not, ◌&&◌,
}
use flashcache_ubuntu_xenial.Conf.Machine.{
  Machine, Exit, failed, ◌>>=◌, unless_failed, read_io, next_io, SbState, Superblock,
  flashcache_version, metadata_io_num_blocks,
}
use flashcache_ubuntu_xenial.Conf.Load.{versioned, is_known_sb}
use flashcache_ubuntu_xenial.Conf.Create.{writeback_create, take_size, new_cache, write_new}
use flashcache_ubuntu_xenial.Conf.Loading.{IsProper}
use flashcache_ubuntu_xenial.Conf.Marking.{slot_on}
use flashcache_ubuntu_xenial.Conf.Sizes.{writeback_create-rejected}

-- The states of the superblock of a cache that was set up and stored: not UNSTABLE, which a failed
-- store leaves, nor anything else that the sector may hold.
abbrev pub HoldsCache : SbState → Type 0
HoldsCache SbState.dirty = Unit
HoldsCache SbState.clean = Unit
HoldsCache SbState.fast_clean = Unit
HoldsCache SbState.unstable = ⊥
HoldsCache (SbState.other n) = ⊥

holds_or_not :
    (s : SbState)
    → (HoldsCache s × (is_known_sb s ≡ true)) ⊎ ((HoldsCache s → ⊥) × (is_known_sb s ≡ false))
holds_or_not SbState.dirty = inl (tt, refl)
holds_or_not SbState.clean = inl (tt, refl)
holds_or_not SbState.fast_clean = inl (tt, refl)
holds_or_not SbState.unstable = inr (λ h. h, refl)
holds_or_not (SbState.other n) = inr (λ h. h, refl)

-- A superblock of a cache, by a version of the module up to this one.
abbrev pub IsUsable : Superblock → Type 0
IsUsable h = HoldsCache h.cache_sb_state × (h.cache_version ≤ flashcache_version)

-- The metadata blocks have a size, and no slot is VALID and INVALID.
pub record IsReadable (x : Machine) : Type 0 where
  pub some : 0 < (versioned x.superblock).md_block_size
  pub room : 0 < metadata_io_num_blocks (versioned x.superblock).md_block_size
  pub proper : (k : ℕ) → k < (versioned x.superblock).size → IsProper (slot_on x k)

-- A creation that is not forced keeps a cache, and nothing else: where the superblock is DIRTY, CLEAN
-- or FASTCLEAN it returns 1, whatever fails, and the device is as it was; any other device it treats
-- as a creation that is forced.
pub writeback_create-HoldsCache :
    (x : Machine)
    → (HoldsCache x.superblock.cache_sb_state
        × ((y : Machine) × (writeback_create false x ≡ failed y)
            × (y.superblock ≡ x.superblock)
            × (y.slots ≡ x.slots)))
      ⊎ ((HoldsCache x.superblock.cache_sb_state → ⊥)
          × (writeback_create false x ≡ writeback_create true x))
unfolding writeback_create
writeback_create-HoldsCache x = elim (holds_or_not x.superblock.cache_sb_state) [
  | inl (y, k) ↦ inl (y, writeback_create-rejected x k)
  | inr (n, k) ↦
      let x1 : Machine = record x { vmallocs = suc x.vmallocs } in
      let x2 : Machine = next_io x1 in
      let sizes : Machine → Exit Machine = λ z. take_size z >>= λ u. new_cache u >>= write_new in
      let start : Bool → Machine → Exit Machine = λ force z.
        unless_failed (not force && is_known_sb z.superblock.cache_sb_state) z z >>= sizes in
      inr (
        n,
        unless-same (not (x.can_vmalloc x.vmallocs)) x1 x1 (λ z. read_io z >>= start false)
            (λ z. read_io z >>= start true)
            (unless-same (x.io_error x.ios) x2 x2 (start false) (start true)
              (ap (λ b. unless_failed b x2 x2 >>= sizes) k)),
      )
]
  where
    unless-same :
        (b : Bool) (y z : Machine) (f g : Machine → Exit Machine)
        → f z ≡ g z
        → (unless_failed b y z >>= f) ≡ (unless_failed b y z >>= g)
    unless-same true y z f g e = refl
    unless-same false y z f g e = e
