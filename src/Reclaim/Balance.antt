-- ===== src/Reclaim/Balance.antt =====
-- flashcache_reclaim_init_lru_lists and flashcache_reclaim_rebalance_lru (src/flashcache_reclaim.c).
-- A percentage is not negative here; the source returns at once for a negative one.
use flashcache_ubuntu_xenial.Prelude.{
  ℕ, zero, suc, ◌+◌, ◌-◌, ◌*◌, ◌/◌, ◌^◌, Bool, true, false, not, Option, some, ltb, ◌==◌,
  if◌then◌else◌, ◌>>=◌,
}
use flashcache_ubuntu_xenial.Device.{CacheC, null, set_block}
use flashcache_ubuntu_xenial.Reclaim.Lists.{lru_head, remove_block_from_list, add_block_to_list_lru}
use flashcache_ubuntu_xenial.Reclaim.Policy.{retag}

-- The loop over the sets, from `set` on.
abbrev pub for_sets : (CacheC → ℕ → Option CacheC) → ℕ → ℕ → CacheC → Option CacheC
for_sets body zero set d = some d
for_sets body (suc left) set d = body d set >>= for_sets body left (set + 1)

-- The first block of the list `w` goes to the LRU end of the other.
unfoldable pub shift_block : CacheC → ℕ → Bool → Option CacheC
shift_block d index w = do
  d' ← remove_block_from_list d index
  add_block_to_list_lru (retag d' index (not w)) index

-- At most `left` blocks of the list `w` of a set are moved, while it has one.
unfoldable pub shift_blocks : Bool → ℕ → ℕ → CacheC → Option CacheC
shift_blocks w set zero d = some d
shift_blocks w set (suc left) d =
    let head = lru_head w (d.cache_sets set) in
    let rest = shift_block d (head + set * d.assoc) w >>= shift_blocks w set left in
    if head == null then some d else rest

-- flashcache_reclaim_rebalance_lru
unfoldable pub rebalance_lru : CacheC → ℕ → Option CacheC
rebalance_lru d pct =
    let new_hot = d.assoc * pct / 100 in
    let old_hot = d.assoc * d.hot_list_pct / 100 in
    let sets = d.size / 2 ^ d.assoc_shift in
    let moved =
      if ltb old_hot new_hot
      then for_sets (λ e set. shift_blocks true set (new_hot - old_hot) e) sets 0 d
      else for_sets (λ e set. shift_blocks false set (old_hot - new_hot) e) sets 0 d in
    if ltb 100 pct then some d else moved >>= λ d'. some (record d' { hot_list_pct = pct })

-- A block is put on its first list.
abbrev pub first_list : CacheC → ℕ → Bool → Option CacheC
first_list d index w =
    add_block_to_list_lru
      (set_block d index (record (d.cache index) {
        lru_prev = null;
        lru_next = null;
        lru_state = record { hot = not w; warm = w };
      }))
      index

-- The loops over the blocks of a set, from `j` on.
unfoldable pub fill_set : ℕ → ℕ → ℕ → ℕ → CacheC → Option CacheC
fill_set hot start zero j d = some d
fill_set hot start (suc left) j d =
    first_list d (start + j) (not (ltb j hot)) >>= fill_set hot start left (j + 1)

-- flashcache_reclaim_init_lru_lists
unfoldable pub init_lru_lists : CacheC → Option CacheC
init_lru_lists d =
    let hot = d.assoc * d.hot_list_pct / 100 in
    for_sets (λ e set. fill_set hot (set * e.assoc) e.assoc 0 e) (d.size / 2 ^ d.assoc_shift) 0 d
