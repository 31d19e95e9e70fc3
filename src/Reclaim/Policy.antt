-- ===== src/Reclaim/Policy.antt =====
-- The replacement policies of src/flashcache_reclaim.c: which block a set gives up, and where an
-- accessed block goes. A function that returns int or through `*index` returns the value beside the
-- new state; `*index == -1` is `none`. A list walk takes fuel.
use flashcache_ubuntu_xenial.Prelude.{
  ℕ, zero, suc, ◌+◌, ◌*◌, ◌/◌, ◌%◌, Bool, true, false, not, ◌&&◌, Option, some, none, ltb, leb,
  ◌==◌, if◌then◌else◌, guard, ◌>>=◌, ◌>>◌,
}
use flashcache_ubuntu_xenial.Device.{
  CacheC, null, u8, u64, set_block, set_set, is_valid, is_invalid, fallow_do_clean,
}
use flashcache_ubuntu_xenial.Reclaim.Lists.{
  is_warm, remove_block_from_list, add_block_to_list_mru, add_block_to_list_lru, move_to_mru,
}

abbrev pub is_hot : CacheC → ℕ → Bool
is_hot d index = (d.cache index).lru_state.hot

-- The flag is exchanged for the other (`true` is LRU_WARM), and the use count is cleared.
abbrev pub retag : CacheC → ℕ → Bool → CacheC
retag d index w =
    set_block d index
      (record (d.cache index) { lru_state = record { hot = not w; warm = w }; use_cnt = 0 })

abbrev pub set_use : CacheC → ℕ → ℕ → CacheC
set_use d index v = set_block d index (record (d.cache index) { use_cnt = v })

-- The body of flashcache_reclaim_promote_block, with its locals `set` and `start_index`.
unfoldable pub promote_in_set : CacheC → ℕ → ℕ → ℕ → Option (CacheC × Bool)
promote_in_set d set start index =
    let head = (d.cache_sets set).hotlist_lru_head in
    let hot_block = start + head in
    guard (is_warm d index)
    >> (if head == null then some (d, false) else (do
      d1 ← remove_block_from_list d index
      d2 ← remove_block_from_list d1 hot_block
      d3 ← add_block_to_list_lru (retag d2 index false) index
      guard (is_hot d3 hot_block)
      d4 ← add_block_to_list_mru (retag d3 hot_block true) hot_block
      some (record d4 { lru_promotions = (d4.lru_promotions + 1) % u64 }, true)))

-- flashcache_reclaim_promote_block
unfoldable pub promote_block : CacheC → ℕ → Option (CacheC × Bool)
promote_block d index = promote_in_set d (index / d.assoc) (index / d.assoc * d.assoc) index

-- The body of flashcache_reclaim_demote_block, with its locals `set` and `start_index`.
unfoldable pub demote_in_set : CacheC → ℕ → ℕ → ℕ → Option (CacheC × Bool)
demote_in_set d set start index =
    let tail = (d.cache_sets set).warmlist_lru_tail in
    let warm_block = start + tail in
    guard (is_hot d index)
    >> (if tail == null then some (d, false) else (do
      d1 ← remove_block_from_list d index
      d2 ← remove_block_from_list d1 warm_block
      d3 ← add_block_to_list_mru (retag d2 index true) index
      guard (is_warm d3 warm_block)
      d4 ← add_block_to_list_lru (retag d3 warm_block false) warm_block
      some (record d4 { lru_demotions = (d4.lru_demotions + 1) % u64 }, true)))

-- flashcache_reclaim_demote_block
unfoldable pub demote_block : CacheC → ℕ → Option (CacheC × Bool)
demote_block d index = demote_in_set d (index / d.assoc) (index / d.assoc * d.assoc) index

-- The loops of flashcache_reclaim_lru_get_old_block: from `rel` on, the first block of the list
-- whose state is exactly VALID.
unfoldable pub find_valid : CacheC → ℕ → ℕ → ℕ → Option (Option ℕ)
find_valid d start zero rel = none
find_valid d start (suc fuel) rel =
    let rest = find_valid d start fuel (d.cache (start + rel)).lru_next in
    if rel == null
    then some none
    else if is_valid (d.cache (start + rel)).cache_state
    then some (some rel)
    else rest

-- A warm block is taken: it goes to the MRU end of its list.
unfoldable pub take_warm : CacheC → ℕ → Option (CacheC × Option ℕ)
take_warm d index = do
  guard (not (fallow_do_clean (d.cache index).cache_state))
  guard (is_warm d index)
  guard (not (is_hot d index))
  d' ← move_to_mru (set_use d index 0) index
  some (d', some index)

-- A hot block is taken: it is demoted, or goes to the MRU end of its list.
unfoldable pub take_hot : CacheC → ℕ → Option (CacheC × Option ℕ)
take_hot d index = do
  guard (not (fallow_do_clean (d.cache index).cache_state))
  guard (is_hot d index)
  guard (not (is_warm d index))
  guard ((d.cache index).use_cnt == 0)
  (d1, demoted) ← demote_block d index
  d2 ← (if demoted then some d1 else move_to_mru d1 index)
  some (d2, some index)

-- The hot walk of flashcache_reclaim_lru_get_old_block and what follows it.
unfoldable pub from_hot : CacheC → ℕ → Option ℕ → Option (CacheC × Option ℕ)
from_hot d start (some rel) = take_hot d (start + rel)
from_hot d start none = some (d, none)

-- What follows the warm walk; each walk has a step for each block of the set and one more as fuel.
unfoldable pub from_warm : CacheC → ℕ → ℕ → Option ℕ → Option (CacheC × Option ℕ)
from_warm d start hot_head (some rel) = take_warm d (start + rel)
from_warm d start hot_head none = find_valid d start (suc d.assoc) hot_head >>= from_hot d start

-- flashcache_reclaim_lru_get_old_block
unfoldable pub lru_get_old_block : CacheC → ℕ → Option (CacheC × Option ℕ)
lru_get_old_block d start =
    let c = d.cache_sets (start / d.assoc) in
    find_valid d start (suc d.assoc) c.warmlist_lru_head >>= from_warm d start c.hotlist_lru_head

-- The promotion branch of flashcache_lru_accessed.
unfoldable pub promote_or_move : CacheC → ℕ → Option CacheC
promote_or_move d index = do
  (d', promoted) ← promote_block d index
  if promoted then some d' else move_to_mru d' index

-- flashcache_lru_accessed; the increment of `use_cnt` happens only if the block is not INVALID.
unfoldable pub lru_accessed : CacheC → ℕ → Option CacheC
lru_accessed d index =
    let used = ((d.cache index).use_cnt + 1) % u8 in
    let d' = set_use d index used in
    if is_hot d index
    then move_to_mru d index
    else (guard (is_warm d index)
        >> (if is_invalid (d.cache index).cache_state
            then move_to_mru d index
            else if ltb used d.sysctl_lru_promote_thresh
            then move_to_mru d' index
            else promote_or_move d' index))

-- The search of flashcache_reclaim_fifo_get_old_block: at most `fuel` slots from `i` on, round the
-- set; the slot where it stopped and whether that is a find.
unfoldable pub fifo_search : CacheC → ℕ → ℕ → ℕ → Option (ℕ × Option ℕ)
fifo_search d start zero i = some (i, none)
fifo_search d start (suc fuel) i =
    let next = if i + 1 == start + d.assoc then start else i + 1 in
    let rest = fifo_search d start fuel next in
    guard (leb start i && ltb i (start + d.assoc))
    >> (if is_valid (d.cache i).cache_state
        then guard (not (fallow_do_clean (d.cache i).cache_state)) >> some (i, some i)
        else rest)

-- flashcache_reclaim_fifo_get_old_block; `none` as the block leaves the caller's `*index`.
unfoldable pub fifo_get_old_block : CacheC → ℕ → Option (CacheC × Option ℕ)
fifo_get_old_block d start =
    let set = start / d.assoc in
    let c = d.cache_sets set in
    do
      (i, found) ← fifo_search d start d.assoc c.set_fifo_next
      let next = if i + 1 == start + d.assoc then start else i + 1
      some (set_set d set (record c { set_fifo_next = next }), found)
