-- ===== src/Conf/Trusted.antt =====
-- What flashcache_writeback_md_store leaves on the cache device (src/flashcache_conf.c).
use flashcache_ubuntu_xenial.Prelude.{
  ℕ, suc, ◌<◌, ◌≡◌, refl, sym, ap, ◌∙◌, ◌⊎◌, inl, inr, Bool, true, false, ◌||◌, if◌then◌else◌,
  if-true, arith, tally, Bool-cases,
}
use flashcache_ubuntu_xenial.Conf.Machine.{
  Machine, Exit, ok, ◌>>=◌, SbState, metadata_io_num_blocks, write_superblock, vmalloc, lands,
  is_clean_sb, is_fast_clean_sb,
}
use flashcache_ubuntu_xenial.Conf.Writer.{Writer, machine_of, write_metadata}
use flashcache_ubuntu_xenial.Conf.Store.{writeback_md_store, stored_header, stored_state}
use flashcache_ubuntu_xenial.Conf.Exits.{Ends, Ends-bind, Ends-map, vmalloc-then}
use flashcache_ubuntu_xenial.Conf.Filling.{IsSaved}
use flashcache_ubuntu_xenial.Conf.Written.{IsWritten, write_metadata-IsWritten}

-- CLEAN or FASTCLEAN.
abbrev pub says_clean : SbState → Bool
says_clean s = is_clean_sb s || is_fast_clean_sb s

abbrev pub nr_dirty_blocks : Machine → ℕ
nr_dirty_blocks x = tally (λ k. (x.dmc.cache k).cache_state.dirty) x.dmc.size

-- A superblock of the store: what its state says is true of the slots on the device.
pub record IsHonest (x y : Machine) (s : SbState) : Type 0 where
  pub header : y.superblock ≡ stored_header x s
  pub saved : says_clean s ≡ true → IsSaved x x.dmc.size y.slots
  pub clean : is_clean_sb s ≡ true → nr_dirty_blocks x ≡ 0
  pub fast_clean : is_fast_clean_sb s ≡ true → 0 < nr_dirty_blocks x
  pub sound : ((n : ℕ) → x.io_error n ≡ false) → says_clean s ≡ true

-- The superblock is the one of before, after a failed write, or a new and honest one.
pub record IsStored (x y : Machine) : Type 0 where
  pub outcome :
      (((s : SbState) × IsHonest x y s)
        ⊎ ((y.superblock ≡ x.superblock) × (n : ℕ) × (x.io_error n ≡ true)))

-- The state that the store chooses.
stored_state-IsHonest :
    (x y : Machine) (w : Writer)
    → IsWritten false x w
    → y.superblock ≡ stored_header x (stored_state w)
    → y.slots ≡ w.slots
    → IsHonest x y (stored_state w)
stored_state-IsHonest x y w h e q = record {
  header = e;
  saved = λ c. rw q (h.saved (ground (arith, c)));
  clean = λ c. ground (arith, c, h.dirty);
  fast_clean = λ c. ground (arith, c, h.dirty);
  sound = λ f. ground (arith, h.sound (inr f));
}

write_superblock-IsStored :
    (x y : Machine) (w : Writer)
    → IsWritten false x w
    → y.superblock ≡ x.superblock
    → y.slots ≡ w.slots
    → y.io_error ≡ x.io_error
    → stored_header y (stored_state w) ≡ stored_header x (stored_state w)
    → IsStored x (write_superblock y (stored_header y (stored_state w))).0
write_superblock-IsStored x y w h e q r t =
    let s = stored_state w in
    let header = stored_header y s in
    let z = (write_superblock y header).0 in
    elim (Bool-cases (lands y 0)) [
      | inl l ↦ record {
        outcome =
            inl
              (s, stored_state-IsHonest x z w h (if-true (lands y 0) header y.superblock l ∙ t) q);
      }
      | inr l ↦ record {
        outcome = inr (
          ap (λ b. if b then header else y.superblock) l ∙ e,
          y.ios,
          ap (λ f. f y.ios) (sym r) ∙ ground (arith, l),
        );
      }
    ]

-- The store never panics, it fails only where memory does, and what it says is true.
pub writeback_md_store-IsStored :
    (x : Machine)
    → 0 < x.dmc.md_block_size
    → 0 < metadata_io_num_blocks x.dmc.md_block_size
    → Ends ((n : ℕ) × (x.can_vmalloc n ≡ false)) (IsStored x) (writeback_md_store x)
unfolding writeback_md_store
writeback_md_store-IsStored x p n =
    let F : Type 0 = (n : ℕ) × (x.can_vmalloc n ≡ false) in
    let x' : Machine = record x { vmallocs = suc x.vmallocs } in
    let last : Writer → Machine → Exit Machine =
      λ w y. ok (write_superblock y (stored_header y (stored_state w))).0 in
    let rest : Machine → Exit Machine = λ y.
      write_metadata false y (x.fresh_slots x.vmallocs) >>= λ w.
      vmalloc (machine_of y w) >>= last w in
    vmalloc-then F (IsStored x) x rest (λ e. (x.vmallocs, e))
      (Ends-bind F (IsWritten false x) (IsStored x)
        (write_metadata false x' (x.fresh_slots x.vmallocs))
        (λ w. vmalloc (machine_of x' w) >>= last w)
        (Ends-map (false ≡ true) F (IsWritten false x') (IsWritten false x)
          (write_metadata false x' (x.fresh_slots x.vmallocs)) (λ e. absurd (cc e))
          (λ w h. record { count = h.count; dirty = h.dirty; saved = h.saved; sound = h.sound })
          (write_metadata-IsWritten false x' (x.fresh_slots x.vmallocs) p n))
        (λ w h.
          vmalloc-then F (IsStored x) (machine_of x' w) (last w) (λ e. (suc x.vmallocs, e))
            (write_superblock-IsStored x
              (record (machine_of x' w) { vmallocs = suc (suc x.vmallocs) }) w h refl refl refl
              refl)))
