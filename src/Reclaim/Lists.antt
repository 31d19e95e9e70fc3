-- ===== src/Reclaim/Lists.antt =====
-- The two LRU lists of a set (src/flashcache_reclaim.c): taking a block out of its list and putting
-- it in at either end. `start` is the first index of the set, and links are relative to it.
use flashcache_ubuntu_xenial.Prelude.{
  ℕ, ◌+◌, ◌-◌, ◌*◌, ◌/◌, ◌%◌, Bool, true, false, not, ◌&&◌, ◌||◌, Option, some, ltb, ◌==◌,
  if◌then◌else◌, guard, ◌>>=◌, ◌>>◌, sub_word,
}
use flashcache_ubuntu_xenial.Device.{CacheSet, CacheC, null, u16, u32, set_block, set_set}

-- The fields of the warm list (`true`) or of the hot list.
abbrev pub lru_head : Bool → CacheSet → ℕ
lru_head true c = c.warmlist_lru_head
lru_head false c = c.hotlist_lru_head

abbrev pub lru_tail : Bool → CacheSet → ℕ
lru_tail true c = c.warmlist_lru_tail
lru_tail false c = c.hotlist_lru_tail

abbrev pub lru_blocks : Bool → CacheSet → ℕ
lru_blocks true c = c.lru_warm_blocks
lru_blocks false c = c.lru_hot_blocks

abbrev pub with_head : Bool → ℕ → CacheSet → CacheSet
with_head true v c = record c { warmlist_lru_head = v }
with_head false v c = record c { hotlist_lru_head = v }

abbrev pub with_tail : Bool → ℕ → CacheSet → CacheSet
with_tail true v c = record c { warmlist_lru_tail = v }
with_tail false v c = record c { hotlist_lru_tail = v }

-- The block's flag LRU_WARM, which chooses the list in every operation.
abbrev pub is_warm : CacheC → ℕ → Bool
is_warm d index = (d.cache index).lru_state.warm

-- The two assertions at the head of every operation: one flag is set, and not both.
abbrev pub one_flag : CacheC → ℕ → Bool
one_flag d index =
    ((d.cache index).lru_state.warm || (d.cache index).lru_state.hot)
    && not ((d.cache index).lru_state.warm && (d.cache index).lru_state.hot)

abbrev pub link_next : CacheC → ℕ → ℕ → CacheC
link_next d k v = set_block d k (record (d.cache k) { lru_next = v })

abbrev pub link_prev : CacheC → ℕ → ℕ → CacheC
link_prev d k v = set_block d k (record (d.cache k) { lru_prev = v })

abbrev pub put_head : CacheC → ℕ → Bool → ℕ → CacheC
put_head d set w v = set_set d set (with_head w v (d.cache_sets set))

abbrev pub put_tail : CacheC → ℕ → Bool → ℕ → CacheC
put_tail d set w v = set_set d set (with_tail w v (d.cache_sets set))

-- The block has no neighbour and its list is empty: it is on no list.
unfoldable pub on_no_list : CacheC → ℕ → ℕ → Bool
on_no_list d set index =
    (d.cache index).lru_prev == null
    && (d.cache index).lru_next == null
    && lru_head (is_warm d index) (d.cache_sets set) == null
    && lru_tail (is_warm d index) (d.cache_sets set) == null

-- The predecessor, or the head, is linked to the successor.
unfoldable pub unlink_prev : CacheC → ℕ → ℕ → ℕ → CacheC
unlink_prev d set start index =
    let b = d.cache index in
    if b.lru_prev == null
    then put_head d set (is_warm d index) b.lru_next
    else link_next d (start + b.lru_prev) b.lru_next

-- The successor, or the tail, is linked to the predecessor.
unfoldable pub unlink_next : CacheC → ℕ → ℕ → ℕ → CacheC
unlink_next d set start index =
    let b = d.cache index in
    if b.lru_next == null
    then put_tail d set (is_warm d index) b.lru_prev
    else link_prev d (start + b.lru_next) b.lru_prev

abbrev add_count : Bool → CacheSet → CacheSet
add_count true c = record c { lru_warm_blocks = (c.lru_warm_blocks + 1) % u16 }
add_count false c = record c { lru_hot_blocks = (c.lru_hot_blocks + 1) % u16 }

abbrev sub_count : Bool → CacheSet → CacheSet
sub_count true c = record c { lru_warm_blocks = sub_word u16 c.lru_warm_blocks 1 }
sub_count false c = record c { lru_hot_blocks = sub_word u16 c.lru_hot_blocks 1 }

abbrev add_total : Bool → CacheC → CacheC
add_total true d = record d { lru_warm_blocks = (d.lru_warm_blocks + 1) % u32 }
add_total false d = record d { lru_hot_blocks = (d.lru_hot_blocks + 1) % u32 }

abbrev sub_total : Bool → CacheC → CacheC
sub_total true d = record d { lru_warm_blocks = sub_word u32 d.lru_warm_blocks 1 }
sub_total false d = record d { lru_hot_blocks = sub_word u32 d.lru_hot_blocks 1 }

unfoldable pub count_add : CacheC → ℕ → Bool → CacheC
count_add d set w = set_set (add_total w d) set (add_count w (d.cache_sets set))

unfoldable pub count_sub : CacheC → ℕ → Bool → CacheC
count_sub d set w = set_set (sub_total w d) set (sub_count w (d.cache_sets set))

-- The assertions on the counter of the list that the block left.
unfoldable pub counts_ok : CacheSet → Bool → Bool
counts_ok c w =
    (not (lru_blocks w c == 0) || (lru_head w c == null && lru_tail w c == null))
    && (lru_head w c == null || ltb 0 (lru_blocks w c))
    && (lru_tail w c == null || ltb 0 (lru_blocks w c))

-- The state after a block that is on its list was taken out.
unfoldable pub unlinked : CacheC → ℕ → ℕ → ℕ → CacheC
unfolding unlink_prev unlink_next count_sub
unlinked d set start index =
    count_sub (unlink_next (unlink_prev d set start index) set start index) set (is_warm d index)

-- The body of flashcache_reclaim_remove_block_from_list, with its locals `set` and `start_index`.
unfoldable pub remove_in_set : CacheC → ℕ → ℕ → ℕ → Option CacheC
remove_in_set d set start index =
    let d' = unlinked d set start index in
    guard (one_flag d index)
    >> (if on_no_list d set index
        then some d
        else (guard (counts_ok (d'.cache_sets set) (is_warm d index)) >> some d'))

-- flashcache_reclaim_remove_block_from_list
unfoldable pub remove_block_from_list : CacheC → ℕ → Option CacheC
remove_block_from_list d index = remove_in_set d (index / d.assoc) (index / d.assoc * d.assoc) index

-- The state after the block was put in at the MRU end.
unfoldable pub linked_mru : CacheC → ℕ → ℕ → ℕ → CacheC
unfolding count_add
linked_mru d set start index =
    let w = is_warm d index in
    let mine = index - start in
    let tail = lru_tail w (d.cache_sets set) in
    let d1 = set_block d index (record (d.cache index) { lru_next = null; lru_prev = tail }) in
    let d2 = if tail == null then put_head d1 set w mine else link_next d1 (start + tail) mine in
    count_add (put_tail d2 set w mine) set w

-- flashcache_reclaim_add_block_to_list_mru
unfoldable pub add_block_to_list_mru : CacheC → ℕ → Option CacheC
add_block_to_list_mru d index =
    guard (one_flag d index)
    >> some (linked_mru d (index / d.assoc) (index / d.assoc * d.assoc) index)

-- The state after the block was put in at the LRU end.
unfoldable pub linked_lru : CacheC → ℕ → ℕ → ℕ → CacheC
unfolding count_add
linked_lru d set start index =
    let w = is_warm d index in
    let mine = index - start in
    let head = lru_head w (d.cache_sets set) in
    let d1 = set_block d index (record (d.cache index) { lru_prev = null; lru_next = head }) in
    let d2 = if head == null then put_tail d1 set w mine else link_prev d1 (start + head) mine in
    count_add (put_head d2 set w mine) set w

-- flashcache_reclaim_add_block_to_list_lru
unfoldable pub add_block_to_list_lru : CacheC → ℕ → Option CacheC
add_block_to_list_lru d index =
    guard (one_flag d index)
    >> some (linked_lru d (index / d.assoc) (index / d.assoc * d.assoc) index)

-- flashcache_reclaim_move_to_mru
unfoldable pub move_to_mru : CacheC → ℕ → Option CacheC
move_to_mru d index = do
  guard (one_flag d index)
  d' ← remove_block_from_list d index
  add_block_to_list_mru d' index
