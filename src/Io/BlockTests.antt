-- ===== src/Io/BlockTests.antt =====
-- The theorems about invalidation by the hash chains and about cleaning, at a sample driver.
use flashcache_ubuntu_xenial.Prelude.{
  ◌≢◌, ◌+◌, ℕ, ◌<◌, ◌==◌, if◌then◌else◌, sym, ap, ◌∙◌, Bool, ◌≡◌, refl, true, false, Option, some,
  none, [], ◌∷◌, arith, inl, inr,
}
use flashcache_ubuntu_xenial.Device.{CacheC, ReclaimPolicy}
use flashcache_ubuntu_xenial.Main.Lookup.{clear_fallow}
use flashcache_ubuntu_xenial.Io.Cleaning.{
  Fallow, Chosen, choose_blocks, fallow_from, thresholds, by_policy, clean_fifo, choose,
}
use flashcache_ubuntu_xenial.Io.Complete.{mark_dirty, mark_not_dirty}
use flashcache_ubuntu_xenial.Io.Dirty.{
  IsDirtyCounted, mark_not_dirty-IsDirtyCounted, mark_dirty-IsDirtyCounted,
}
use flashcache_ubuntu_xenial.Io.Jobs.{KcachedJob, Action, MdSlot, Effect}
use flashcache_ubuntu_xenial.Io.Metadata.{
  next_update, head_of, cached_slot, index_to_md_block, index_to_md_block_offset,
}
use flashcache_ubuntu_xenial.Io.Image.{final_slot}
use flashcache_ubuntu_xenial.Io.Updates.{written, next_update-final_slot}
use flashcache_ubuntu_xenial.Io.Limits.{IsLimited}
use flashcache_ubuntu_xenial.Io.Choice.{choose_blocks-IsLimited}
use flashcache_ubuntu_xenial.Samples.{device}
use flashcache_ubuntu_xenial.Subr.Blocks.{hash_remove, invalid_insert, link_first, unlink_successor}
use flashcache_ubuntu_xenial.Io.Jobs.{Driver, Direction}
use flashcache_ubuntu_xenial.Io.Inval.{drop_block}
use flashcache_ubuntu_xenial.Subr.Blocks.{hash_lookup, chain_lookup}
use flashcache_ubuntu_xenial.Subr.Chains.{IsChain}
use flashcache_ubuntu_xenial.Io.Jobs.{state_of}
use flashcache_ubuntu_xenial.Io.Inval.{inval_found, inval_block_set_v3}
use flashcache_ubuntu_xenial.Io.Copies.{IsUnique, inval_block_set_v3-invalid}
use flashcache_ubuntu_xenial.Io.Samples.{sum_hash, driver, request}

-- Set 1 with the FIFO policy and more dirty blocks than its threshold.
abbrev dirty_device : CacheC
dirty_device = record device {
  sysctl_reclaim_policy = ReclaimPolicy.fifo;
  cache_sets = λ s. record (device.cache_sets s) { nr_dirty = 3; set_clean_next = 4 };
}

abbrev no_fallow : Fallow
no_fallow = record { is_on = false; detect_due = false; clean_due = false }

abbrev chosen_of : Option Chosen → Chosen
chosen_of none = record { dmc = dirty_device; writes_list = [] }
chosen_of (some c) = c

-- Block 5 is chosen.
one_chosen :
    (chosen_of (choose_blocks no_fallow dirty_device 1 0)).writes_list
    ≡ record { dbn = 0; index = 5 } ∷ []
unfolding choose_blocks fallow_from thresholds by_policy clean_fifo choose clear_fallow
one_chosen = refl

choose_blocks-IsLimited_example :
    IsLimited dirty_device 1 (chosen_of (choose_blocks no_fallow dirty_device 1 0))
unfolding choose_blocks fallow_from thresholds by_policy clean_fifo choose clear_fallow
choose_blocks-IsLimited_example = choose_blocks-IsLimited no_fallow dirty_device 1 0 _ refl

-- The hash chain of set 1 with blocks 6 and 7, and a write that meets block 7.
set_one-IsChain : IsChain 4 device 1 2 (2 ∷ 3 ∷ [])
set_one-IsChain = record {
  links = (3, ground arith);
  members = ground arith;
  distinct = ground arith;
  assoc_is = refl;
}

sectors_differ : (device.cache 6).dbn ≢ (device.cache 7).dbn
sectors_differ h = omega (arith, h)

set_one-IsUnique : IsUnique 4 device 1 (2 ∷ 3 ∷ [])
set_one-IsUnique a b (inl p) (inl q) e = p ∙ sym q
set_one-IsUnique a b (inl p) (inr (inl q)) e = absurd (
    sectors_differ
      (sym (ap (λ k. (device.cache (4 + k)).dbn) p) ∙ e ∙ ap (λ k. (device.cache (4 + k)).dbn) q))
set_one-IsUnique a b (inr (inl p)) (inl q) e = absurd (
    sectors_differ (
      sym (ap (λ k. (device.cache (4 + k)).dbn) q)
      ∙ sym e
      ∙ ap (λ k. (device.cache (4 + k)).dbn) p))
set_one-IsUnique a b (inr (inl p)) (inr (inl q)) e = p ∙ sym q
set_one-IsUnique a b (inr (inr p)) m e = absurd p
set_one-IsUnique a b m (inr (inr q)) e = absurd q

abbrev driver_with : Option (Driver × Bool) → Driver
driver_with none = driver
driver_with (some (x, b)) = x

inval_block_set_v3-invalid_example :
    (state_of
      (driver_with (inval_block_set_v3 sum_hash driver 1 (request 4 8 Direction.write)))
      7).invalid
    ≡ true
unfolding hash_lookup chain_lookup inval_found drop_block hash_remove invalid_insert link_first
    unlink_successor
inval_block_set_v3-invalid_example =
    inval_block_set_v3-invalid sum_hash 4 1 driver
      (driver_with (inval_block_set_v3 sum_hash driver 1 (request 4 8 Direction.write)))
      (request 4 8 Direction.write) (2 ∷ 3 ∷ []) set_one-IsChain set_one-IsUnique refl 3
      (inr (inl refl)) refl

-- The counters for block 5, which is dirty.
abbrev counted : Driver
counted = record driver {
  dmc = record device {
    nr_dirty = 1;
    cache_sets = λ s. record (device.cache_sets s) { nr_dirty = if s == 1 then 1 else 0 };
  };
}

counted-IsDirtyCounted : IsDirtyCounted counted.dmc 1
counted-IsDirtyCounted = (omega arith, refl)

mark_dirty-IsDirtyCounted_example :
    ((state_of (mark_dirty counted 6) 6).dirty ≡ true) × IsDirtyCounted (mark_dirty counted 6).dmc 1
mark_dirty-IsDirtyCounted_example =
    mark_dirty-IsDirtyCounted counted 1 2 (omega arith) counted-IsDirtyCounted

mark_not_dirty-IsDirtyCounted_example :
    (y : Driver) × (mark_not_dirty counted 5 ≡ some y)
    × ((state_of y 5).dirty ≡ false)
    × IsDirtyCounted y.dmc 1
mark_not_dirty-IsDirtyCounted_example =
    mark_not_dirty-IsDirtyCounted counted 1 1 (omega arith) counted-IsDirtyCounted refl refl

abbrev dirtied : ℕ → KcachedJob
dirtied i = record { bio = none; index = i; action = Action.write_cache; error = false }

-- Updates of blocks 6 and 7 wait for their metadata block.
next_update-final_slot_example :
    (y : Driver) × (slots : ℕ → MdSlot) × (next_update
        (λ i. cached_slot driver i)
        driver
        5
        (written (dirtied 6 ∷ dirtied 7 ∷ []))
      ≡ some y)
    × (y.log ≡ Effect.write_md 1 slots (dirtied 6) ∷ [])
    × ((head_of y 6).md_io_inprog ≡ dirtied 7 ∷ [])
    × ((head_of y 6).queued_updates ≡ [])
    × ((i : ℕ)
        → i < 8
        → index_to_md_block device i ≡ 1
        → slots (index_to_md_block_offset device i)
          ≡ final_slot i (dirtied 6 ∷ dirtied 7 ∷ []) (cached_slot driver i))
next_update-final_slot_example =
    next_update-final_slot (λ i. cached_slot driver i) driver 5 (dirtied 6) (dirtied 7 ∷ [])
      (omega arith) refl refl (refl, (refl, tt))
