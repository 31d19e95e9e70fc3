-- ===== src/Conf/Machine.antt =====
-- The state that src/flashcache_conf.c works on: the cache and the names of its devices, and the
-- metadata on the cache device, reached by flashcache_dm_io_sync_vm. Also the outcomes of its calls.
-- The superblock is in the first sector, and 32 slots of the metadata fill a sector: the slot at
-- place k of sector s has the address s * 32 + k. A field of `Superblock` that holds a flag is
-- whether it is not 0. dm_io ends the n-th I/O in an error where `io_error n`, and a failed write may
-- still have changed what `reached n` says (0 for the superblock). `can_vmalloc n` says whether the
-- n-th vmalloc succeeds, and `fresh_slots n` and `fresh_header n` what its memory holds.
use flashcache_ubuntu_xenial.Prelude.{
  ℕ, zero, suc, ◌+◌, ◌-◌, ◌*◌, ◌/◌, Bool, true, false, not, ◌&&◌, ◌||◌, leb, ltb, if◌then◌else◌,
  List, [], ◌∷◌,
}
use flashcache_ubuntu_xenial.Device.{CacheC, CacheState, CacheBlock}
use flashcache_ubuntu_xenial.Io.Jobs.{MdSlot}

-- cache_sb_state: CACHE_MD_STATE_DIRTY, _CLEAN, _FASTCLEAN, _UNSTABLE, or anything else.
pub data SbState : Type 0 where
  dirty clean fast_clean unstable : SbState
  other : ℕ → SbState

-- struct flash_superblock. A name is the bytes before its end.
pub record Superblock : Type 0 where
  pub size : ℕ
  pub block_size : ℕ
  pub assoc : ℕ
  pub cache_sb_state : SbState
  pub cache_devname : List ℕ
  pub cache_devsize : ℕ
  pub disk_devname : List ℕ
  pub disk_devsize : ℕ
  pub cache_version : ℕ
  pub md_block_size : ℕ
  pub disk_assoc : ℕ
  pub write_only_cache : Bool

-- `cache_sectors` and `disk_sectors` are to_sector(...->bd_inode->i_size).
pub record Machine : Type 0 where
  pub dmc : CacheC
  pub block_mask : ℕ
  pub dm_vdevname : List ℕ
  pub disk_devname : List ℕ
  pub cache_sectors : ℕ
  pub disk_sectors : ℕ
  pub superblock : Superblock
  pub slots : ℕ → MdSlot
  pub ios : ℕ
  pub io_error : ℕ → Bool
  pub reached : ℕ → ℕ → Bool
  pub vmallocs : ℕ
  pub can_vmalloc : ℕ → Bool
  pub fresh_slots : ℕ → ℕ → MdSlot
  pub fresh_header : ℕ → Superblock

-- A call goes on, returns 1, or panics.
pub data Exit {ℓ} (A : Type ℓ) : Type ℓ where
  ok : A → Exit A
  failed : Machine → Exit A
  panic : Exit A

infixl 5 ◌>>=◌
abbrev pub ◌>>=◌ {ℓ κ} : {A : Type ℓ} {B : Type κ} → Exit A → (A → Exit B) → Exit B
ok a >>= f = f a
failed x >>= f = failed x
panic >>= f = panic

-- VERIFY, and the tests that end in a panic.
abbrev pub verify {ℓ} : {A : Type ℓ} → Bool → A → Exit A
verify true a = ok a
verify false a = panic

-- A test whose failure returns 1.
abbrev pub unless_failed {ℓ} : {A : Type ℓ} → Bool → Machine → A → Exit A
unless_failed true x a = failed x
unless_failed false x a = ok a

-- DEFAULT_MD_BLOCK_SIZE, FLASHCACHE_VERSION and DEV_PATHLEN
abbrev pub default_md_block_size : ℕ
default_md_block_size = 8

abbrev pub flashcache_version : ℕ
flashcache_version = 4

abbrev pub dev_pathlen : ℕ
dev_pathlen = 128

-- How many slots of 16 bytes a sector has.
abbrev pub slots_per_sector : ℕ
slots_per_sector = 32

-- MD_BLOCK_BYTES, MD_SLOTS_PER_BLOCK and METADATA_IO_NUM_BLOCKS of a size of metadata blocks
abbrev pub md_block_bytes : ℕ → ℕ
md_block_bytes b = b * 512

unfoldable pub md_slots_per_block : ℕ → ℕ
md_slots_per_block b = md_block_bytes b / 16

unfoldable pub metadata_io_num_blocks : ℕ → ℕ
metadata_io_num_blocks b = 256 * 1024 / md_block_bytes b

-- strncpy
abbrev pub strncpy : ℕ → List ℕ → List ℕ
strncpy zero cs = []
strncpy (suc n) [] = []
strncpy (suc n) (c ∷ cs) = c ∷ strncpy n cs

-- What a failed or a successful write puts at an address.
abbrev pub lands : Machine → ℕ → Bool
lands x a = not (x.io_error x.ios) || x.reached x.ios a

abbrev pub next_io : Machine → Machine
next_io x = record x { ios = suc x.ios }

-- Whether a write of `count` sectors changes the slot at an address.
abbrev pub changes : Machine → ℕ → ℕ → ℕ → Bool
changes x sector count a =
    leb (sector * slots_per_sector) a && ltb a ((sector + count) * slots_per_sector) && lands x a

-- flashcache_dm_io_sync_vm, writing slots: the new state, and whether it ended in an error.
abbrev pub write_slots : Machine → ℕ → ℕ → (ℕ → MdSlot) → Machine × Bool
write_slots x sector count buffer = (
  record (next_io x) {
    slots =
        λ a. if changes x sector count a then buffer (a - sector * slots_per_sector) else x.slots a;
  },
  x.io_error x.ios,
)

-- flashcache_dm_io_sync_vm, reading slots
abbrev pub read_slots : Machine → ℕ → ℕ → MdSlot
read_slots x sector k = x.slots (sector * slots_per_sector + k)

-- flashcache_dm_io_sync_vm, writing the superblock
abbrev pub write_superblock : Machine → Superblock → Machine × Bool
write_superblock x header = (
  record (next_io x) { superblock = if lands x 0 then header else x.superblock },
  x.io_error x.ios,
)

-- vmalloc: the state after it, or the return of 1 where it fails.
abbrev pub vmalloc : Machine → Exit Machine
vmalloc x =
    let y : Machine = record x { vmallocs = suc x.vmallocs } in
    unless_failed (not (x.can_vmalloc x.vmallocs)) y y

-- A read that returns 1 where it ends in an error.
abbrev pub read_io : Machine → Exit Machine
read_io x = unless_failed (x.io_error x.ios) (next_io x) (next_io x)

abbrev pub is_dirty_sb : SbState → Bool
is_dirty_sb SbState.dirty = true
is_dirty_sb _ = false

abbrev pub is_clean_sb : SbState → Bool
is_clean_sb SbState.clean = true
is_clean_sb _ = false

abbrev pub is_fast_clean_sb : SbState → Bool
is_fast_clean_sb SbState.fast_clean = true
is_fast_clean_sb _ = false

-- A block after memset: all its bits are 0.
abbrev zero_state : CacheState
zero_state = record {
  invalid = false;
  valid = false;
  disk_read_in_prog = false;
  disk_write_in_prog = false;
  cache_read_in_prog = false;
  cache_write_in_prog = false;
  dirty = false;
  dirty_fallow_1 = false;
  dirty_fallow_2 = false;
}

abbrev pub zero_block : CacheBlock
zero_block = record {
  cache_state = zero_state;
  nr_queued = 0;
  lru_prev = 0;
  lru_next = 0;
  use_cnt = 0;
  lru_state = record { hot = false; warm = false };
  dbn = 0;
  hash_prev = 0;
  hash_next = 0;
}

-- cache_state & (INVALID | VALID | DIRTY), with the dbn
abbrev pub slot_of : CacheBlock → MdSlot
slot_of b = record {
  dbn = b.dbn;
  valid = b.cache_state.valid;
  invalid = b.cache_state.invalid;
  dirty = b.cache_state.dirty;
}

-- The state that the bits of a slot are.
abbrev pub state_of_slot : MdSlot → CacheState
state_of_slot s = record zero_state { invalid = s.invalid; valid = s.valid; dirty = s.dirty }

-- cache_state = INVALID
abbrev pub invalid_state : CacheState
invalid_state = record zero_state { invalid = true }
