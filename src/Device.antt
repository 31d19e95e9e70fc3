-- ===== src/Device.antt =====
-- The in-memory state of a cache device: `struct cacheblock`, `struct cache_set` and
-- `struct cache_c` of src/flashcache.h.
-- The arrays `dmc->cache` and `dmc->cache_sets` are functions of the index. The flag words
-- `cache_state` and `lru_state` are records of their bits. A u_int16_t link is a number, and
-- FLASHCACHE_NULL is its largest value. An int counter is kept as its 32-bit pattern.
-- `disk_sects` is disk_dev->bdev->bd_part->nr_sects, and a pointer to a target is a number.
-- `md_slots` is MD_SLOTS_PER_BLOCK, which depends on the size of a metadata block alone, and
-- `remove_in_prog` is whether the atomic of that name is not 0, and `fast_remove` whether it is
-- FAST_REMOVE. A counter of an atomic_t is its 32-bit pattern, too.
-- Fields that no modelled operation reads (locks, devices, timers, paths) are left out.
use flashcache_ubuntu_xenial.Prelude.{ℕ, Bool, not, ◌&&◌, ◌||◌, ◌^◌, update}

-- `cache_state`: INVALID, VALID, the four I/O bits, DIRTY, DIRTY_FALLOW_1, DIRTY_FALLOW_2.
pub record CacheState : Type 0 where
  pub invalid : Bool
  pub valid : Bool
  pub disk_read_in_prog : Bool
  pub disk_write_in_prog : Bool
  pub cache_read_in_prog : Bool
  pub cache_write_in_prog : Bool
  pub dirty : Bool
  pub dirty_fallow_1 : Bool
  pub dirty_fallow_2 : Bool

-- cache_state & BLOCK_IO_INPROG
abbrev pub block_io_in_prog : CacheState → Bool
block_io_in_prog c =
    c.disk_read_in_prog || c.disk_write_in_prog || c.cache_read_in_prog || c.cache_write_in_prog

-- cache_state & FALLOW_DOCLEAN
abbrev pub fallow_do_clean : CacheState → Bool
fallow_do_clean c = c.dirty_fallow_1 || c.dirty_fallow_2

-- Every bit but INVALID and VALID is clear.
abbrev no_other_bit : CacheState → Bool
no_other_bit c = not (block_io_in_prog c) && not c.dirty && not (fallow_do_clean c)

-- cache_state == VALID
abbrev pub is_valid : CacheState → Bool
is_valid c = c.valid && not c.invalid && no_other_bit c

-- cache_state == INVALID
abbrev pub is_invalid : CacheState → Bool
is_invalid c = c.invalid && not c.valid && no_other_bit c

-- `lru_state`: LRU_HOT and LRU_WARM.
pub record LruState : Type 0 where
  pub hot : Bool
  pub warm : Bool

pub record CacheBlock : Type 0 where
  pub cache_state : CacheState
  pub nr_queued : ℕ
  pub lru_prev : ℕ
  pub lru_next : ℕ
  pub use_cnt : ℕ
  pub lru_state : LruState
  pub dbn : ℕ
  pub hash_prev : ℕ
  pub hash_next : ℕ

pub record CacheSet : Type 0 where
  pub set_fifo_next : ℕ
  pub set_clean_next : ℕ
  pub clean_inprog : ℕ
  pub nr_dirty : ℕ
  pub dirty_fallow : ℕ
  pub hotlist_lru_head : ℕ
  pub hotlist_lru_tail : ℕ
  pub warmlist_lru_head : ℕ
  pub warmlist_lru_tail : ℕ
  pub lru_hot_blocks : ℕ
  pub lru_warm_blocks : ℕ
  pub hash_buckets : ℕ → ℕ
  pub invalid_head : ℕ

-- FLASHCACHE_FIFO and FLASHCACHE_LRU
pub data ReclaimPolicy : Type 0 where
  fifo lru : ReclaimPolicy

pub data CacheMode : Type 0 where
  write_back write_through write_around : CacheMode

pub record CacheC : Type 0 where
  pub tgt : ℕ
  pub disk_sects : ℕ
  pub cache : ℕ → CacheBlock
  pub cache_sets : ℕ → CacheSet
  pub size : ℕ
  pub assoc : ℕ
  pub block_size : ℕ
  pub block_shift : ℕ
  pub disk_assoc : ℕ
  pub disk_assoc_shift : ℕ
  pub assoc_shift : ℕ
  pub on_ssd_version : ℕ
  pub cache_mode : CacheMode
  pub hot_list_pct : ℕ
  pub lru_hot_blocks : ℕ
  pub lru_warm_blocks : ℕ
  pub sysctl_reclaim_policy : ReclaimPolicy
  pub sysctl_lru_promote_thresh : ℕ
  pub lru_promotions : ℕ
  pub lru_demotions : ℕ
  pub noroom : ℕ
  pub nr_jobs : ℕ
  pub remove_in_prog : Bool
  pub fast_remove : Bool
  pub sysctl_stop_sync : Bool
  pub sync_index : ℕ
  pub dirty_thresh_set : ℕ
  pub max_clean_ios_set : ℕ
  pub max_clean_ios_total : ℕ
  pub clean_inprog : ℕ
  pub nr_dirty : ℕ
  pub cached_blocks : ℕ
  pub pending_jobs_count : ℕ
  pub bypass_cache : Bool
  pub write_only_cache : Bool
  pub sysctl_clean_on_read_miss : ℕ
  pub sysctl_clean_on_write_miss : ℕ
  pub md_slots : ℕ
  pub md_blocks : ℕ
  pub md_block_size : ℕ

-- FLASHCACHE_NULL
abbrev pub null : ℕ
null = 0xFFFF

abbrev pub u8 : ℕ
u8 = 2 ^ 8

abbrev pub u16 : ℕ
u16 = 2 ^ 16

abbrev pub u32 : ℕ
u32 = 2 ^ 32

abbrev pub u64 : ℕ
u64 = 2 ^ 64

-- A write through `cacheblk` and through `cache_set`.
abbrev pub set_block : CacheC → ℕ → CacheBlock → CacheC
set_block d i b = record d { cache = update d.cache i b }

abbrev pub set_set : CacheC → ℕ → CacheSet → CacheC
set_set d s c = record d { cache_sets = update d.cache_sets s c }
