-- ===== src/Conf/Tests.antt =====
-- The theorems about src/flashcache_conf.c at a cache of four blocks, two of them dirty, with metadata
-- blocks of one sector.
use flashcache_ubuntu_xenial.Prelude.{
  ℕ, ◌+◌, ◌*◌, ◌<◌, ◌≤◌, ◌≡◌, ◌⊎◌, refl, true, false, ◌==◌, ltb, [], ◌∷◌, arith, none, zero, suc,
}
use flashcache_ubuntu_xenial.Device.{CacheC, CacheBlock, is_invalid}
use flashcache_ubuntu_xenial.Samples
use flashcache_ubuntu_xenial.Io.Jobs.{MdSlot}
use flashcache_ubuntu_xenial.Conf.Machine.{
  Machine, Exit, ok, failed, panic, SbState, Superblock, md_slots_per_block, metadata_io_num_blocks,
  is_clean_sb, slot_of,
}
use flashcache_ubuntu_xenial.Conf.Writer.{write_blocks, write_metadata}
use flashcache_ubuntu_xenial.Conf.Store.{writeback_md_store}
use flashcache_ubuntu_xenial.Conf.Load.{
  writeback_load, load_slots, load_blocks, load_metadata, read_header, ffs_from,
}
use flashcache_ubuntu_xenial.Conf.Create.{writeback_create}
use flashcache_ubuntu_xenial.Conf.Filling.{IsSaved}
use flashcache_ubuntu_xenial.Conf.Loading.{IsProper}
use flashcache_ubuntu_xenial.Conf.Trusted.{says_clean}
use flashcache_ubuntu_xenial.Conf.Marking.{IsLoadable, slot_on}
use flashcache_ubuntu_xenial.Conf.Recovery.{IsInUse, NeverFails, md_store-trusted}
use flashcache_ubuntu_xenial.Conf.Reboot.{md_store-load, crash-load}
use flashcache_ubuntu_xenial.Conf.Created.{create-load}
use flashcache_ubuntu_xenial.Io.Samples as Io
use flashcache_ubuntu_xenial.Io.Jobs.{Driver, KcachedJob, Effect, Action}
use flashcache_ubuntu_xenial.Io.Metadata.{
  head_of, copied_slots, apply_update, apply_updates, md_write_kickoff,
}
use flashcache_ubuntu_xenial.Conf.Durable.{IsOnDevice, md_written, md_write_kickoff-writeback_load}
use flashcache_ubuntu_xenial.Conf.Sizes.{IsRoomy, create-fits}
use flashcache_ubuntu_xenial.Conf.Existing.{HoldsCache, writeback_create-HoldsCache}

abbrev header : SbState → Superblock
header s = record {
  size = 4;
  block_size = 8;
  assoc = 4;
  cache_sb_state = s;
  cache_devname = 99 ∷ [];
  cache_devsize = 1000;
  disk_devname = 100 ∷ [];
  disk_devsize = 9000;
  cache_version = 4;
  md_block_size = 1;
  disk_assoc = 0;
  write_only_cache = false;
}

abbrev blocks : ℕ → CacheBlock
blocks k = record (Samples.block true true 0 0 0) {
  cache_state = record (Samples.state true) { dirty = ltb k 2 };
  dbn = 8 * k;
}

abbrev device : CacheC
device = record Samples.device {
  size = 4;
  block_size = 8;
  md_block_size = 1;
  on_ssd_version = 4;
  cache = blocks;
}

-- The slot of another cache, on the device and in memory.
abbrev old_slot : MdSlot
old_slot = record { dbn = 7; valid = true; invalid = false; dirty = false }

abbrev machine : SbState → Machine
machine s = record {
  dmc = device;
  block_mask = 7;
  dm_vdevname = 99 ∷ [];
  disk_devname = 100 ∷ [];
  cache_sectors = 1000;
  disk_sectors = 9000;
  superblock = header s;
  slots = λ a. old_slot;
  ios = 0;
  io_error = λ n. false;
  reached = λ n a. false;
  vmallocs = 0;
  can_vmalloc = λ n. true;
  fresh_slots = λ n k. old_slot;
  fresh_header = λ n. header SbState.unstable;
}

abbrev result : Exit Machine → Machine
result (ok y) = y
result (failed y) = y
result panic = machine SbState.unstable

abbrev running : Machine
running = machine SbState.dirty

abbrev stored : Machine
stored = result (writeback_md_store running)

running-IsInUse : IsInUse running
unfolding metadata_io_num_blocks
running-IsInUse = record {
  some = omega arith;
  room = omega arith;
  version = omega arith;
  first_version = λ e. refl;
  proper = λ k l. refl;
  dirty = refl;
}

stored-ok : writeback_md_store running ≡ ok stored
unfolding writeback_md_store write_metadata write_blocks md_slots_per_block metadata_io_num_blocks
stored-ok = refl

stored_fast_clean : stored.superblock.cache_sb_state ≡ SbState.fast_clean
unfolding writeback_md_store write_metadata write_blocks md_slots_per_block metadata_io_num_blocks
stored_fast_clean = refl

stored_says : says_clean stored.superblock.cache_sb_state ≡ true
unfolding writeback_md_store write_metadata write_blocks md_slots_per_block metadata_io_num_blocks
stored_says = refl

stored-NeverFails : NeverFails stored
unfolding writeback_md_store write_metadata write_blocks md_slots_per_block metadata_io_num_blocks
stored-NeverFails = record { io = λ n. refl; memory = λ n. refl }

md_store-trusted_example :
    IsSaved running 4 stored.slots
    × (is_clean_sb stored.superblock.cache_sb_state ≡ true
        → (k : ℕ) → k < 4
        → (blocks k).cache_state.dirty ≡ false)
md_store-trusted_example = md_store-trusted running stored running-IsInUse stored-ok stored_says

md_store-load_example :
    (v : Machine) × (writeback_load stored ≡ ok v)
    × (v.dmc.size ≡ 4)
    × (v.superblock.cache_sb_state ≡ SbState.dirty)
    × ((k : ℕ) → k < 4 → slot_of (v.dmc.cache k) ≡ slot_of (blocks k))
md_store-load_example =
    md_store-load running stored stored running-IsInUse stored-ok stored_says (refl, refl)
      stored-NeverFails

-- Block 1 was dirty at the crash.
abbrev crashed : Machine
crashed = record running { slots = λ a. record old_slot { dirty = a == 33 } }

crashed-IsLoadable : IsLoadable crashed
unfolding metadata_io_num_blocks
crashed-IsLoadable = record {
  version = omega arith;
  known = refl;
  some = omega arith;
  room = omega arith;
  proper = λ k l. refl;
}

crash-load_example :
    (y : Machine) × (writeback_load crashed ≡ ok y)
    × ((k : ℕ)
        → k < 4
        → (slot_on crashed k).dirty ≡ true
        → slot_of (y.dmc.cache k) ≡ slot_on crashed k)
    × ((k : ℕ)
        → k < 4
        → (slot_on crashed k).dirty ≡ false
        → is_invalid (y.dmc.cache k).cache_state ≡ true)
crash-load_example =
    crash-load crashed crashed-IsLoadable refl (record { io = λ n. refl; memory = λ n. refl })

-- The flag of the superblock is lost where the metadata blocks have not the default size: the load
-- writes what its new memory holds.
abbrev littered : Machine
littered = record crashed {
  fresh_header = λ n. record (header SbState.unstable) { write_only_cache = true };
}

load_forgets_write_only : (result (writeback_load littered)).superblock.write_only_cache ≡ true
unfolding writeback_load read_header load_metadata load_blocks load_slots ffs_from
    md_slots_per_block metadata_io_num_blocks
load_forgets_write_only = refl

writeback_create-HoldsCache_example :
    (HoldsCache SbState.dirty
      × ((y : Machine) × (writeback_create false running ≡ failed y)
          × (y.superblock ≡ header SbState.dirty)
          × (y.slots ≡ running.slots)))
    ⊎ ((HoldsCache SbState.dirty → ⊥)
        × (writeback_create false running ≡ writeback_create true running))
writeback_create-HoldsCache_example = writeback_create-HoldsCache running

-- 100 sectors are asked for.
abbrev asked : Machine
asked = record (machine SbState.unstable) { dmc = record device { size = 100 } }

abbrev created : Machine
created = result (writeback_create false asked)

created-ok : writeback_create false asked ≡ ok created
unfolding writeback_create write_metadata write_blocks md_slots_per_block metadata_io_num_blocks
created-ok = refl

asked-IsRoomy : IsRoomy asked.dmc
unfolding md_slots_per_block metadata_io_num_blocks
asked-IsRoomy = record {
  some_md = omega arith;
  room = omega arith;
  block = omega arith;
  sectors = omega arith;
  small = omega arith;
  left = omega arith;
}

create-fits_example :
    (created.dmc.md_blocks * created.dmc.md_block_size + created.dmc.size * created.dmc.block_size
      ≤ 1000)
    × (created.dmc.md_blocks * created.dmc.md_block_size + created.dmc.size * created.dmc.block_size
        ≤ 100)
    × ((k : ℕ)
        → k < created.dmc.size
        → md_slots_per_block created.dmc.md_block_size + k
          < created.dmc.md_blocks * md_slots_per_block created.dmc.md_block_size)
create-fits_example = create-fits false asked created asked-IsRoomy created-ok

created-NeverFails : NeverFails created
unfolding writeback_create write_metadata write_blocks md_slots_per_block metadata_io_num_blocks
created-NeverFails = record { io = λ n. refl; memory = λ n. refl }

create-load_example :
    (v : Machine) × (writeback_load created ≡ ok v)
    × (v.dmc.size ≡ created.dmc.size)
    × ((k : ℕ) → k < created.dmc.size → is_invalid (v.dmc.cache k).cache_state ≡ true)
create-load_example =
    create-load false asked created created asked-IsRoomy.some_md asked-IsRoomy.room created-ok
      (refl, refl) created-NeverFails

-- The write of block 3 starts the write of the metadata block, where an update of block 1 waits.
abbrev job_of : ℕ → Action → KcachedJob
job_of index action = record { bio = none; index = index; action = action; error = false }

abbrev writing : Driver
writing = record Io.driver {
  dmc = record device { md_slots = 32 };
  md_blocks_buf = λ b. record {
    nr_in_prog = true;
    queued_updates = job_of 1 Action.write_disk ∷ [];
    md_io_inprog = [];
  };
}

abbrev written_block : ℕ → MdSlot
written_block = apply_updates writing.dmc (head_of writing 3).queued_updates (
    apply_update writing.dmc (job_of 3 Action.write_cache) (copied_slots writing 0 (λ k. old_slot)))

abbrev lost_power : Machine
lost_power = md_written crashed 0 written_block

writing-IsOnDevice : IsOnDevice writing crashed
unfolding md_slots_per_block
writing-IsOnDevice = record { md_slots = refl; some = omega arith; size = refl }

lost_power-IsProper : (k : ℕ) → k < 4 → IsProper (slot_on lost_power k)
unfolding md_slots_per_block apply_updates
lost_power-IsProper zero l = refl
lost_power-IsProper (suc zero) l = refl
lost_power-IsProper (suc (suc zero)) l = refl
lost_power-IsProper (suc (suc (suc zero))) l = refl
lost_power-IsProper (suc (suc (suc (suc k)))) l = ground arith

lost_power-IsLoadable : IsLoadable lost_power
unfolding metadata_io_num_blocks
lost_power-IsLoadable = record {
  version = omega arith;
  known = refl;
  some = omega arith;
  room = omega arith;
  proper = lost_power-IsProper;
}

kickoff-log :
    (md_write_kickoff (λ k. old_slot) writing (job_of 3 Action.write_cache)).log
    ≡ Effect.write_md 0 written_block (job_of 3 Action.write_cache) ∷ []
unfolding md_write_kickoff apply_updates
kickoff-log = refl

md_write_kickoff-writeback_load_example :
    (y : Machine) × (writeback_load lost_power ≡ ok y)
    × (slot_of (y.dmc.cache 3) ≡ record { dbn = 24; valid = true; invalid = false; dirty = true })
md_write_kickoff-writeback_load_example =
    md_write_kickoff-writeback_load (λ k. old_slot) writing (job_of 3 Action.write_cache) crashed
      lost_power written_block writing-IsOnDevice (omega arith) refl refl (refl, tt)
      (omega arith, tt) kickoff-log refl (refl, refl) lost_power-IsLoadable refl
      (record { io = λ n. refl; memory = λ n. refl })
