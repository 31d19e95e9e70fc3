-- ===== src/Conf/Load.antt =====
-- flashcache_writeback_load of src/flashcache_conf.c: the superblock is read and the blocks are
-- loaded, only the dirty ones after an unclean shutdown; then the superblock is marked DIRTY.
use flashcache_ubuntu_xenial.Prelude.{
  ℕ, zero, suc, ◌+◌, ◌-◌, ◌*◌, ◌/◌, ◌%◌, Bool, not, ◌&&◌, ◌||◌, ltb, ◌==◌, if◌then◌else◌, update,
  min,
}
use flashcache_ubuntu_xenial.Device.{CacheBlock, u32}
use flashcache_ubuntu_xenial.Io.Jobs.{MdSlot}
use flashcache_ubuntu_xenial.Conf.Machine.{
  Machine, Exit, ok, panic, ◌>>=◌, verify, unless_failed, SbState, Superblock,
  default_md_block_size, flashcache_version, dev_pathlen, strncpy, md_slots_per_block,
  metadata_io_num_blocks, read_io, read_slots, write_superblock, vmalloc, is_dirty_sb, is_clean_sb,
  is_fast_clean_sb, zero_block, state_of_slot, invalid_state,
}
use flashcache_ubuntu_xenial.Conf.Writer.{sectors_of}

-- ffs of a word of at most as many bits as the fuel: the place of the lowest bit, counted from 1.
unfoldable pub ffs_from : ℕ → ℕ → ℕ
ffs_from zero n = 0
ffs_from (suc bits) n = let rest = ffs_from bits (n / 2) in if n % 2 == 1 then 1 else rest + 1

abbrev pub ffs : ℕ → ℕ
ffs n = if n == 0 then 0 else ffs_from 32 n

-- The header as the checks of its version leave it.
abbrev pub versioned : Superblock → Superblock
versioned h = if h.cache_version == 1 then record h { md_block_size = 1 } else h

-- What the load takes over before it looks at the state of the superblock.
abbrev pub take_version : Superblock → Machine → Machine
take_version h x =
    let disk_assoc = if ltb h.cache_version 3 then 0 else h.disk_assoc in
    record x {
      dmc = record x.dmc {
        disk_assoc = disk_assoc;
        disk_assoc_shift = if disk_assoc == 0 then x.dmc.disk_assoc_shift else ffs disk_assoc - 1;
        write_only_cache = h.write_only_cache && not (ltb h.cache_version 4);
        on_ssd_version = h.cache_version;
      };
    }

-- What the load takes over from the superblock that it accepts.
abbrev pub take_sizes : Superblock → Machine → Machine
take_sizes h x = record x {
  dmc = record x.dmc {
    block_size = h.block_size;
    md_block_size = h.md_block_size;
    md_slots = md_slots_per_block h.md_block_size;
    block_shift = ffs h.block_size - 1;
    size = h.size;
    assoc = h.assoc;
    assoc_shift = ffs h.assoc - 1;
    md_blocks = (h.size / md_slots_per_block h.md_block_size + 1 + 1) % u32;
  };
  block_mask = (h.block_size + u32 - 1) % u32;
}

-- DIRTY, CLEAN or FASTCLEAN.
abbrev pub is_known_sb : SbState → Bool
is_known_sb s = is_dirty_sb s || is_clean_sb s || is_fast_clean_sb s

-- The cache is allocated, and cleared by memset.
abbrev pub alloc_cache : Machine → Exit Machine
alloc_cache x = vmalloc x >>= λ y. ok (record y { dmc = record y.dmc { cache = λ _. zero_block } })

-- What the inner loop changes: `dmc->cache`, and its index `i`.
pub record Loaded : Type 0 where
  pub cache : ℕ → CacheBlock
  pub dirty_loaded : ℕ
  pub num_valid : ℕ
  pub i : ℕ

-- The variables of the outer loop: `sector` is where.sector.
pub record Reader : Type 0 where
  pub loaded : Loaded
  pub ios : ℕ
  pub sector : ℕ
  pub sectors_read : ℕ

-- Block i is written, and the next one is up.
abbrev pub put_loaded : CacheBlock → Loaded → Loaded
put_loaded b l = record l { cache = update l.cache l.i b; i = suc l.i }

-- Block i takes the slot, or is INVALID.
abbrev pub load_slot : Bool → MdSlot → Loaded → Exit Loaded
load_slot clean_shutdown s l =
    let b : CacheBlock = record (l.cache l.i) { nr_queued = 0 } in
    if clean_shutdown || s.dirty
    then (verify (not (s.valid && s.invalid)) (
        put_loaded (record b { cache_state = state_of_slot s; dbn = s.dbn })
          (record l {
            dirty_loaded = if s.dirty then l.dirty_loaded + 1 else l.dirty_loaded;
            num_valid = if s.valid then l.num_valid + 1 else l.num_valid;
          })))
    else ok (put_loaded (record b { cache_state = invalid_state; dbn = 0 }) l)

-- The inner loop, over the slots of the buffer from j, of which n are left.
unfoldable pub load_slots : Bool → (ℕ → MdSlot) → ℕ → ℕ → Loaded → Exit Loaded
load_slots clean_shutdown buffer zero j l = ok l
load_slots clean_shutdown buffer (suc n) j l =
    load_slot clean_shutdown (buffer j) l >>= load_slots clean_shutdown buffer n (suc j)

-- The slots that one read brings in.
abbrev pub slots_read : ℕ → ℕ → ℕ
slots_read b size = min size (md_slots_per_block b * metadata_io_num_blocks b)

module _ (clean_shutdown : Bool) (x : Machine) where
  -- A turn of the outer loop: the read of a metadata I/O block, and its slots.
  abbrev pub load_block : ℕ → Reader → Exit Reader
  load_block size r =
      let n = slots_read x.dmc.md_block_size size in
      let count = sectors_of x.dmc.md_block_size n in
      read_io (record x { ios = r.ios }) >>= λ y.
      load_slots clean_shutdown (read_slots x r.sector) n 0 r.loaded >>= λ l. ok (record {
        loaded = l;
        ios = y.ios;
        sector = r.sector + count;
        sectors_read = r.sectors_read + count;
      })

  -- The outer loop, while blocks are left; it panics without fuel.
  unfoldable pub load_blocks : ℕ → ℕ → Reader → Exit Reader
  load_blocks fuel zero r = ok r
  load_blocks zero (suc size) r = panic
  load_blocks (suc fuel) (suc size) r =
      load_block (suc size) r
      >>= load_blocks fuel (suc size - slots_read x.dmc.md_block_size (suc size))

  -- The loops, with the panic on a sector mismatch.
  unfoldable pub load_metadata : Exit Machine
  load_metadata = do
    r ← load_blocks x.dmc.size x.dmc.size (record {
      loaded = record { cache = x.dmc.cache; dirty_loaded = 0; num_valid = 0; i = 0 };
      ios = x.ios;
      sector = x.dmc.md_block_size;
      sectors_read = 0;
    })
    verify (r.sectors_read == sectors_of x.dmc.md_block_size x.dmc.size)
        (record x { ios = r.ios; dmc = record x.dmc { cache = r.loaded.cache } })

-- The header that is written: the memory is the old header's, or new where the size differs.
abbrev pub header_memory : Superblock → Machine → Exit (Machine × Superblock)
header_memory h x =
    if default_md_block_size == x.dmc.md_block_size
    then ok (x, h)
    else vmalloc x >>= λ y. ok (y, x.fresh_header x.vmallocs)

-- The superblock is marked DIRTY. write_only_cache stays what the memory holds.
abbrev pub dirty_header : Machine → Superblock → Superblock
dirty_header x h = record h {
  size = x.dmc.size;
  block_size = x.dmc.block_size;
  md_block_size = x.dmc.md_block_size;
  assoc = x.dmc.assoc;
  disk_assoc = x.dmc.disk_assoc;
  cache_sb_state = SbState.dirty;
  disk_devname = strncpy dev_pathlen x.disk_devname;
  cache_devname = strncpy dev_pathlen x.dm_vdevname;
  cache_devsize = x.cache_sectors;
  disk_devsize = x.disk_sectors;
  cache_version = x.dmc.on_ssd_version;
}

-- A write of the superblock that returns 1 where it ends in an error.
abbrev pub put_superblock : Superblock → Machine → Exit Machine
put_superblock h x = let (y, error) = write_superblock x h in unless_failed error y y

-- The superblock is read, and its version and state are accepted.
unfoldable pub read_header : Machine → Exit (Machine × Superblock)
read_header x = do
  x1 ← vmalloc x
  x2 ← read_io x1
  let h = versioned x2.superblock
  x3 ← unless_failed (ltb flashcache_version h.cache_version) x2 x2
  x4 ← unless_failed (not (is_known_sb h.cache_sb_state)) (take_version h x3) (take_version h x3)
  ok (take_sizes h x4, h)

-- flashcache_writeback_load
unfoldable pub writeback_load : Machine → Exit Machine
writeback_load x = do
  (x1, h) ← read_header x
  x2 ← alloc_cache x1
  x3 ← vmalloc x2
  x4 ← load_metadata (not (is_dirty_sb h.cache_sb_state)) x3
  (x5, m) ← header_memory h x4
  put_superblock (dirty_header x5 m) x5
