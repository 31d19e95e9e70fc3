-- ===== src/Samples.antt =====
-- Test data: a cache of two sets of four blocks. In set 1 the warm list is 0, 2 and the hot list is
-- 3; block 1 is on no list, and it is dirty and marked once; the hash chain of bucket 245 is 2, 3.
use flashcache_ubuntu_xenial.Prelude.{ℕ, Bool, true, false, not, ◌&&◌, ◌==◌, if◌then◌else◌}
use flashcache_ubuntu_xenial.Device.{
  CacheState, CacheBlock, CacheSet, ReclaimPolicy, CacheMode, CacheC, null,
}

abbrev pub state : Bool → CacheState
state v = record {
  invalid = not v;
  valid = v;
  disk_read_in_prog = false;
  disk_write_in_prog = false;
  cache_read_in_prog = false;
  cache_write_in_prog = false;
  dirty = false;
  dirty_fallow_1 = false;
  dirty_fallow_2 = false;
}

abbrev pub block : Bool → Bool → ℕ → ℕ → ℕ → CacheBlock
block v warm prev next used = record {
  cache_state = state v;
  nr_queued = 0;
  lru_prev = prev;
  lru_next = next;
  use_cnt = used;
  lru_state = record { hot = not warm; warm = warm };
  dbn = 0;
  hash_prev = null;
  hash_next = null;
}

abbrev pub blocks : ℕ → CacheBlock
blocks k =
    if k == 4
    then block false true null 2 0
    else if k == 5
    then record (block true true null null 0) {
      cache_state = record (state true) { dirty = true; dirty_fallow_1 = true };
    }
    else if k == 6
    then record (block true true 0 null 1) { dbn = 520; hash_next = 3 }
    else if k == 7
    then record (block true false null null 0) { dbn = 8; hash_prev = 2 }
    else block true true null null 0

abbrev pub sets : ℕ → CacheSet
sets s = record {
  set_fifo_next = 0;
  set_clean_next = 0;
  clean_inprog = 0;
  nr_dirty = 0;
  dirty_fallow = 0;
  hotlist_lru_head = if s == 1 then 3 else null;
  hotlist_lru_tail = if s == 1 then 3 else null;
  warmlist_lru_head = if s == 1 then 0 else null;
  warmlist_lru_tail = if s == 1 then 2 else null;
  lru_hot_blocks = 1;
  lru_warm_blocks = 2;
  hash_buckets = λ b. if s == 1 && b == 245 then 2 else null;
  invalid_head = null;
}

abbrev pub device : CacheC
device = record {
  tgt = 7;
  disk_sects = 1000;
  cache = blocks;
  cache_sets = sets;
  size = 8;
  assoc = 4;
  block_size = 8;
  block_shift = 3;
  disk_assoc = 512;
  disk_assoc_shift = 9;
  assoc_shift = 2;
  on_ssd_version = 3;
  cache_mode = CacheMode.write_back;
  hot_list_pct = 50;
  lru_hot_blocks = 2;
  lru_warm_blocks = 2;
  sysctl_reclaim_policy = ReclaimPolicy.lru;
  sysctl_lru_promote_thresh = 2;
  lru_promotions = 0;
  lru_demotions = 0;
  noroom = 0;
  nr_jobs = 0;
  remove_in_prog = false;
  fast_remove = false;
  sysctl_stop_sync = false;
  sync_index = 0;
  dirty_thresh_set = 1;
  max_clean_ios_set = 2;
  max_clean_ios_total = 4;
  clean_inprog = 0;
  nr_dirty = 0;
  cached_blocks = 6;
  pending_jobs_count = 0;
  bypass_cache = false;
  write_only_cache = false;
  sysctl_clean_on_read_miss = 2;
  sysctl_clean_on_write_miss = 2;
  md_slots = 4;
  md_blocks = 3;
  md_block_size = 8;
}
