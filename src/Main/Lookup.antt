-- ===== src/Main/Lookup.antt =====
-- How a request finds its block (src/flashcache_main.c): flashcache_lookup and its parts, and the
-- marks of blocks that lie fallow.
use flashcache_ubuntu_xenial.Prelude.{
  ℕ, ◌+◌, ◌-◌, ◌*◌, ◌/◌, ◌%◌, ◌^◌, Bool, true, false, not, ◌&&◌, ◌||◌, Option, some, none, ltb,
  ◌==◌, if◌then◌else◌, guard, ◌>>=◌, ◌>>◌,
}
use flashcache_ubuntu_xenial.Device.{
  CacheC, CacheMode, CacheState, ReclaimPolicy, u16, u32, u64, set_block, set_set, block_io_in_prog,
  fallow_do_clean,
}
use flashcache_ubuntu_xenial.Subr.Blocks.{invalid_get, hash_lookup, num_sets}
use flashcache_ubuntu_xenial.Reclaim.Policy.{lru_accessed, lru_get_old_block, fifo_get_old_block}

abbrev pub is_write_back : CacheMode → Bool
is_write_back CacheMode.write_back = true
is_write_back CacheMode.write_through = false
is_write_back CacheMode.write_around = false

abbrev pub is_lru : ReclaimPolicy → Bool
is_lru ReclaimPolicy.lru = true
is_lru ReclaimPolicy.fifo = false

abbrev pub put_state : CacheC → ℕ → CacheState → CacheC
put_state d index s = set_block d index (record (d.cache index) { cache_state = s })

abbrev pub put_fallow : CacheC → ℕ → ℕ → CacheC
put_fallow d set v = set_set d set (record (d.cache_sets set) { dirty_fallow = v })

-- flashcache_detect_fallow
unfoldable pub detect_fallow : CacheC → ℕ → CacheC
detect_fallow d index =
    let s = (d.cache index).cache_state in
    let set = index / d.assoc in
    let counted = put_fallow d set (((d.cache_sets set).dirty_fallow + 1) % u16) in
    if is_write_back d.cache_mode && s.dirty && not (block_io_in_prog s)
    then (if not s.dirty_fallow_1
        then put_state d index (record s { dirty_fallow_1 = true })
        else if not s.dirty_fallow_2
        then put_state counted index (record s { dirty_fallow_2 = true })
        else d)
    else d

-- flashcache_clear_fallow
unfoldable pub clear_fallow : CacheC → ℕ → Option CacheC
clear_fallow d index =
    let s = (d.cache index).cache_state in
    let set = index / d.assoc in
    let n = (d.cache_sets set).dirty_fallow in
    let cleared = record s { dirty_fallow_1 = false; dirty_fallow_2 = false } in
    if is_write_back d.cache_mode && fallow_do_clean s
    then (if s.dirty_fallow_2
        then guard (ltb 0 n) >> some (put_state (put_fallow d set (n - 1)) index cleared)
        else some (put_state d index cleared))
    else some d

-- What a lookup tells its caller: VALID, INVALID or -1.
pub data LookupResult : Type 0 where
  hit miss no_room : LookupResult

-- find_reclaim_dbn
abbrev pub find_reclaim_dbn : CacheC → ℕ → Option (CacheC × Option ℕ)
find_reclaim_dbn d start =
    if is_lru d.sysctl_reclaim_policy then lru_get_old_block d start else fifo_get_old_block d start

-- What find_invalid_dbn does with the block it got.
unfoldable pub take_invalid : CacheC × Option ℕ → Option (CacheC × Option ℕ)
take_invalid (d, none) = some (d, none)
take_invalid (d, some index) = do
  d' ← (if is_lru d.sysctl_reclaim_policy then lru_accessed d index else some d)
  guard (not (fallow_do_clean (d'.cache index).cache_state))
  some (d', some index)

-- find_invalid_dbn
abbrev pub find_invalid_dbn : CacheC → ℕ → Option (CacheC × Option ℕ)
find_invalid_dbn d set = invalid_get d set >>= take_invalid

-- What find_valid_dbn does with the block it found.
unfoldable pub touch : CacheC → Option ℕ → Option (CacheC × Option ℕ)
touch d none = some (d, none)
touch d (some index) = do
  d' ←
      (if is_lru d.sysctl_reclaim_policy && not (block_io_in_prog (d.cache index).cache_state)
        then lru_accessed d index
        else some d)
  d'' ← clear_fallow d' index
  some (d'', some index)

-- The miss of flashcache_lookup for want of an invalid block.
unfoldable pub use_old : ℕ → CacheC × Option ℕ → CacheC × LookupResult × ℕ
use_old start (d, some index) =
    if ltb index (start + d.assoc)
    then (d, LookupResult.miss, index)
    else (record d { noroom = (d.noroom + 1) % u64 }, LookupResult.no_room, index)
use_old start (d, none) =
    (record d { noroom = (d.noroom + 1) % u64 }, LookupResult.no_room, start + d.assoc)

-- The rest of flashcache_lookup after an invalid block was looked for.
unfoldable pub after_invalid : ℕ → CacheC × Option ℕ → Option (CacheC × LookupResult × ℕ)
after_invalid start (d, some index) = some (use_old start (d, some index))
after_invalid start (d, none) = find_reclaim_dbn d start >>= λ r. some (use_old start r)

-- The rest of flashcache_lookup after find_valid_dbn.
unfoldable pub after_valid : ℕ → ℕ → CacheC × Option ℕ → Option (CacheC × LookupResult × ℕ)
after_valid set start (d, some index) = some (d, LookupResult.hit, index)
after_valid set start (d, none) = find_invalid_dbn d set >>= after_invalid start

module _ (jhash_1word : ℕ → ℕ → ℕ) where
  -- hash_block
  unfoldable pub hash_block : CacheC → ℕ → ℕ
  hash_block d dbn =
      let old = dbn / 2 ^ (d.block_shift + d.assoc_shift) in
      let placed = jhash_1word (dbn / 2 ^ d.disk_assoc_shift % u32) 0xbeef in
      (if ltb d.on_ssd_version 3 || d.disk_assoc == 0 then old else placed) % num_sets d

  -- find_valid_dbn
  abbrev pub find_valid_dbn : CacheC → ℕ → ℕ → Option (CacheC × Option ℕ)
  find_valid_dbn d dbn start = hash_lookup jhash_1word d (start / d.assoc) dbn >>= touch d

  -- flashcache_lookup, of the first sector of a request.
  unfoldable pub lookup : CacheC → ℕ → Option (CacheC × LookupResult × ℕ)
  lookup d dbn =
      let set = hash_block d dbn in
      let start = d.assoc * set in find_valid_dbn d dbn start >>= after_valid set start
