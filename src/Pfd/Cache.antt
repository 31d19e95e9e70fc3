-- ===== src/Pfd/Cache.antt =====
-- The prefetched blocks (src/pfd_cache.c): one entry's critical sections, and the table of caches.
-- An atomic counter and a semaphore are numbers, and a pointer to a device is a number.
-- `ssd_index` is `none` where the source has -1. Data and devices are left out.
use flashcache_ubuntu_xenial.Prelude.{
  ℕ, zero, suc, ◌+◌, ◌-◌, ◌/◌, ◌%◌, ◌^◌, Bool, true, false, not, ◌&&◌, ◌||◌, Option, some, none,
  ltb, ◌==◌, if◌then◌else◌, update,
}

-- enum pfd_cache_meta_status
pub data MetaStatus : Type 0 where
  empty prepare valid : MetaStatus

abbrev pub is_empty : MetaStatus → Bool
is_empty MetaStatus.empty = true
is_empty MetaStatus.prepare = false
is_empty MetaStatus.valid = false

abbrev pub is_prepare : MetaStatus → Bool
is_prepare MetaStatus.empty = false
is_prepare MetaStatus.prepare = true
is_prepare MetaStatus.valid = false

abbrev pub is_ready : MetaStatus → Bool
is_ready MetaStatus.empty = false
is_ready MetaStatus.prepare = false
is_ready MetaStatus.valid = true

pub record PfdCacheMeta : Type 0 where
  pub prepare_lock : ℕ
  pub dbn : ℕ
  pub status : MetaStatus
  pub hold_count : ℕ
  pub ssd_index : Option ℕ

-- PFD_CACHE_BLOCK_COUNT and PFD_CACHE_COUNT_PER_SET
abbrev pub cache_block_count : ℕ
cache_block_count = 16384

abbrev pub count_per_set : ℕ
count_per_set = 4

-- For the device's block_shift.
abbrev pub dbn_to_cache_index : ℕ → ℕ → ℕ
dbn_to_cache_index block_shift dbn = dbn / 2 ^ block_shift % cache_block_count

-- The first critical section of pfd_cache_handle_bio: `none` is a miss.
unfoldable pub hold : PfdCacheMeta → ℕ → Option PfdCacheMeta
hold m dbn =
    if is_empty m.status || not (m.dbn == dbn)
    then none
    else some (record m { hold_count = m.hold_count + 1 })

abbrev pub release : PfdCacheMeta → PfdCacheMeta
release m = record m { hold_count = m.hold_count - 1 }

-- The critical section of pfd_cache_prefetch: `none` if the block is there or the entry is busy.
unfoldable pub claim : PfdCacheMeta → ℕ → Option PfdCacheMeta
claim m dbn =
    if not (is_empty m.status) && m.dbn == dbn
    then none
    else if is_prepare m.status || ltb 0 m.hold_count
    then none
    else some (record m { dbn = dbn; status = MetaStatus.prepare; prepare_lock = 0 })

-- io_callback, for the error that it is told: the entry's part.
unfoldable pub io_callback : PfdCacheMeta → ℕ → PfdCacheMeta
io_callback m error = record m {
  status = if error == 0 then MetaStatus.valid else MetaStatus.empty;
  prepare_lock = m.prepare_lock + 1;
}

-- dispatch_io_request, where dm_io refuses the request.
unfoldable pub refuse : PfdCacheMeta → PfdCacheMeta
refuse m = record m { status = MetaStatus.empty; prepare_lock = m.prepare_lock + 1 }

-- The body of the inner loop of pfd_cache_reset: `none` is its failure.
unfoldable pub reset_meta : PfdCacheMeta → Option PfdCacheMeta
reset_meta m =
    if is_prepare m.status || ltb 0 m.hold_count
    then none
    else some (record m { status = MetaStatus.empty })

-- enum cache_set_init_status
pub data SetStatus : Type 0 where
  set_empty set_prepare set_valid : SetStatus

abbrev pub is_set_empty : SetStatus → Bool
is_set_empty SetStatus.set_empty = true
is_set_empty SetStatus.set_prepare = false
is_set_empty SetStatus.set_valid = false

abbrev pub is_set_valid : SetStatus → Bool
is_set_valid SetStatus.set_empty = false
is_set_valid SetStatus.set_prepare = false
is_set_valid SetStatus.set_valid = true

-- The table: a cache is told by the number that its allocation gave it.
pub record PfdCacheSet : Type 0 where
  pub count : ℕ
  pub status_arr : ℕ → SetStatus
  pub dmc_arr : ℕ → Option ℕ
  pub caches : ℕ → Option ℕ

abbrev pub is_dmc : Option ℕ → ℕ → Bool
is_dmc none dmc = false
is_dmc (some a) dmc = a == dmc

-- The first of `left` slots from `i` on that passes the test.
unfoldable pub first_slot : (ℕ → Bool) → ℕ → ℕ → Option ℕ
first_slot test zero i = none
first_slot test (suc left) i =
    let rest = first_slot test left (i + 1) in if test i then some i else rest

abbrev pub slot_cache : PfdCacheSet → Option ℕ → Option ℕ
slot_cache t none = none
slot_cache t (some i) = t.caches i

unfoldable pub find_cache_in_cache_set : PfdCacheSet → ℕ → Option ℕ
find_cache_in_cache_set t dmc =
    slot_cache t
      (first_slot (λ i. is_set_valid (t.status_arr i) && is_dmc (t.dmc_arr i) dmc) count_per_set 0)

-- A slot is taken by a device, which is being prepared.
abbrev pub take_slot : PfdCacheSet → ℕ → Option ℕ → PfdCacheSet × Option ℕ
take_slot t dmc none = (t, none)
take_slot t dmc (some i) = (
  record t {
    status_arr = update t.status_arr i SetStatus.set_prepare;
    dmc_arr = update t.dmc_arr i (some dmc);
    count = t.count + 1;
  },
  some i,
)

abbrev pub is_taken : PfdCacheSet → ℕ → ℕ → Bool
is_taken t dmc i = not (is_set_empty (t.status_arr i)) && is_dmc (t.dmc_arr i) dmc

abbrev pub is_some : Option ℕ → Bool
is_some none = false
is_some (some a) = true

-- The first critical section of pfd_cache_add: the slot, unless the device has one or none is left.
unfoldable pub reserve : PfdCacheSet → ℕ → PfdCacheSet × Option ℕ
reserve t dmc =
    if is_some (first_slot (is_taken t dmc) count_per_set 0)
    then (t, none)
    else if t.count == count_per_set
    then (t, none)
    else take_slot t dmc (first_slot (λ i. is_set_empty (t.status_arr i)) count_per_set 0)

-- The second one, for what init_pfd_cache gave: `none` where an allocation failed.
unfoldable pub settle : PfdCacheSet → ℕ → Option ℕ → PfdCacheSet
settle t i none = record t {
  status_arr = update t.status_arr i SetStatus.set_empty;
  dmc_arr = update t.dmc_arr i none;
  count = t.count - 1;
}
settle t i (some cache) = record t {
  caches = update t.caches i (some cache);
  status_arr = update t.status_arr i SetStatus.set_valid;
}
