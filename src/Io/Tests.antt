-- ===== src/Io/Tests.antt =====
-- The theorems about the life of an I/O at a sample driver, for a hash that adds.
use flashcache_ubuntu_xenial.Prelude.{
  ℕ, ◌≡◌, ◌<◌, refl, true, false, Option, some, none, [], ◌∷◌, arith, inl, inr,
}
use flashcache_ubuntu_xenial.Device.{CacheMode}
use flashcache_ubuntu_xenial.Samples.{device, state}
use flashcache_ubuntu_xenial.Subr.Blocks.{hash_remove, invalid_insert, link_first, unlink_successor}
use flashcache_ubuntu_xenial.Main.Lookup.{hash_block}
use flashcache_ubuntu_xenial.Io.Jobs.{
  Driver, Bio, Direction, Action, KcachedJob, MdSlot, Effect, set_state, enq_pending, deq_pending,
  free_pending_jobs,
}
use flashcache_ubuntu_xenial.Io.Waiting.{
  waiting, push_last, take_all, enq_pending-push_last, deq_pending-take_all,
}
use flashcache_ubuntu_xenial.Io.Failing.{IsCounted, IsDrained, free_pending_jobs-IsDrained}
use flashcache_ubuntu_xenial.Io.Inval.{Queued, inval_old, inval_from, drop_block}
use flashcache_ubuntu_xenial.Io.Coherence.{NoStale, inval_old-NoStale}
use flashcache_ubuntu_xenial.Io.Metadata.{
  md_write_kickoff, head_of, cached_slot, index_to_md_block, index_to_md_block_offset,
}
use flashcache_ubuntu_xenial.Io.Image.{final_slot, md_write_kickoff-final_slot}
use flashcache_ubuntu_xenial.Io.Complete.{md_write_done}
use flashcache_ubuntu_xenial.Io.MdErrors.{failed_write, md_write_done-failed_write}
use flashcache_ubuntu_xenial.Io.Request.{read_hit, write_hit}
use flashcache_ubuntu_xenial.Io.Relaunching.{IsRelaunched, do_pending_error-IsRelaunched}
use flashcache_ubuntu_xenial.Io.Finish.{do_pending_error}
use flashcache_ubuntu_xenial.Io.Addresses.{
  index_to_cache_addr, cache_addr_to_index, cache_addr_to_index-index_to_cache_addr,
}
use flashcache_ubuntu_xenial.Io.Held.{IsHeld, Answered}
use flashcache_ubuntu_xenial.Io.Hits.{cleaning, read_hit-Answered, write_hit-Answered}
use flashcache_ubuntu_xenial.Io.Samples.{sum_hash, driver, request, busy}

busy-IsCounted : IsCounted busy 6
unfolding enq_pending
busy-IsCounted = record { nr_is = refl; is_small = omega arith; is_within = omega arith }

busy-IsHeld : IsHeld busy 6
unfolding enq_pending
busy-IsHeld = record { counted = busy-IsCounted; held = inr refl }

free_pending_jobs-IsDrained_example :
    (y : Driver) × (free_pending_jobs busy 6 true ≡ some y) × IsDrained true 6 busy y
free_pending_jobs-IsDrained_example = free_pending_jobs-IsDrained busy 6 true busy-IsCounted

enq_pending-push_last_example :
    waiting (enq_pending busy (request 2 520 Direction.write) 6 Action.write_cache) 38
    ≡ push_last
        (waiting busy)
        (record { bio = request 2 520 Direction.write; action = Action.write_cache; index = 6 })
        38
enq_pending-push_last_example =
    enq_pending-push_last busy (request 2 520 Direction.write) 6 Action.write_cache 38

deq_pending-take_all_example :
    (y : Driver) × (deq_pending busy 6 ≡ some (y, waiting busy 6))
    × ((k : ℕ) → waiting y k ≡ take_all (waiting busy) 6 k)
deq_pending-take_all_example = deq_pending-take_all busy 6 busy-IsCounted.is_within

read_hit-Answered_example :
    Answered [] busy
      (read_hit busy (request 2 520 Direction.read) 6)
      (request 2 520 Direction.read)
      6
      Action.read_cache
unfolding enq_pending
read_hit-Answered_example =
    read_hit-Answered busy (request 2 520 Direction.read) 6 busy-IsHeld (omega arith, omega arith)

driver-IsHeld : IsHeld driver 6
driver-IsHeld = record {
  counted = record { nr_is = refl; is_small = omega arith; is_within = omega arith };
  held = inl refl;
}

write_hit-Answered_example :
    Answered
      (cleaning driver 6)
      driver
      (write_hit driver (request 2 520 Direction.write) 6)
      (request 2 520 Direction.write)
      6
      Action.write_cache
write_hit-Answered_example =
    write_hit-Answered driver (request 2 520 Direction.write) 6 driver-IsHeld
      (omega arith, omega arith) refl

md_write_done-failed_write_example :
    md_write_done sum_hash
      (λ i. cached_slot driver i)
      driver
      (failed_write (request 2 520 Direction.write) 6)
    ≡ none
md_write_done-failed_write_example =
    md_write_done-failed_write sum_hash (λ i. cached_slot driver i) driver
      (request 2 520 Direction.write) 6 refl

abbrev update_of : ℕ → Action → KcachedJob
update_of index action = record { bio = none; index = index; action = action; error = false }

-- Updates of blocks 7 and 6 wait for the metadata block.
abbrev updating : Driver
updating = record driver {
  md_blocks_buf = λ b. record {
    nr_in_prog = true;
    queued_updates = update_of 7 Action.write_cache ∷ update_of 6 Action.write_disk ∷ [];
    md_io_inprog = [];
  };
}

md_write_kickoff-final_slot_example :
    (slots : ℕ → MdSlot) × ((md_write_kickoff
        (λ i. cached_slot driver i)
        updating
        (update_of 6 Action.write_cache)).log
      ≡ Effect.write_md 1 slots (update_of 6 Action.write_cache) ∷ [])
    × ((head_of
          (md_write_kickoff (λ i. cached_slot driver i) updating (update_of 6 Action.write_cache))
          6).md_io_inprog
        ≡ (head_of updating 6).queued_updates)
    × ((head_of
          (md_write_kickoff (λ i. cached_slot driver i) updating (update_of 6 Action.write_cache))
          6).queued_updates
        ≡ [])
    × ((i : ℕ)
        → i < 8
        → index_to_md_block device i ≡ 1
        → slots (index_to_md_block_offset device i)
          ≡ final_slot i
              (update_of 6 Action.write_cache ∷ (head_of updating 6).queued_updates)
              (cached_slot updating i))
md_write_kickoff-final_slot_example =
    md_write_kickoff-final_slot (λ i. cached_slot driver i) updating
      (update_of 6 Action.write_cache) (omega arith) refl (refl, (refl, tt))

-- A cache of an old version, and a request that meets all blocks of set 0.
abbrev old_driver : Driver
old_driver = record driver { dmc = record device { on_ssd_version = 2 } }

abbrev small_write : Bio
small_write = record { id = 3; sector = 4; sectors = 4; dir = Direction.write; barrier = false }

abbrev driver_of : Option (Driver × Queued) → Driver
driver_of none = driver
driver_of (some (x, q)) = x

abbrev dropped : Driver
dropped = driver_of (inval_old sum_hash old_driver small_write)

inval_old-NoStale_example :
    NoStale dropped small_write 4 (hash_block sum_hash old_driver.dmc 4)
    × NoStale dropped small_write 4 (hash_block sum_hash old_driver.dmc 7)
unfolding inval_old inval_from drop_block hash_remove invalid_insert link_first unlink_successor
    hash_block
inval_old-NoStale_example = inval_old-NoStale sum_hash old_driver dropped small_write refl

-- The same block in write through mode, with the read of its data from the cache in progress.
abbrev through : Driver
through =
    enq_pending
      (set_state (record driver { dmc = record device { cache_mode = CacheMode.write_through } }) 6
        (record (state true) { cache_read_in_prog = true }))
      (request 1 520 Direction.read) 6 Action.read_cache

through-IsCounted : IsCounted through 6
unfolding enq_pending
through-IsCounted = record { nr_is = refl; is_small = omega arith; is_within = omega arith }

do_pending_error-IsRelaunched_example :
    (y : Driver) × (do_pending_error sum_hash through (record {
      bio = some (request 2 520 Direction.read);
      index = 6;
      action = Action.read_cache;
      error = true;
    })
      ≡ some y)
    × IsRelaunched (request 2 520 Direction.read) 6 through y
unfolding enq_pending
do_pending_error-IsRelaunched_example =
    do_pending_error-IsRelaunched sum_hash through (request 2 520 Direction.read) 6
      Action.read_cache refl (omega arith) (refl, refl, refl, refl) through-IsCounted

cache_addr_to_index-index_to_cache_addr_example :
    cache_addr_to_index device (index_to_cache_addr device 6) ≡ 6
cache_addr_to_index-index_to_cache_addr_example =
    cache_addr_to_index-index_to_cache_addr device 6 (omega arith) (omega arith)
