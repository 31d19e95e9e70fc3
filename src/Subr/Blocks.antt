-- ===== src/Subr/Blocks.antt =====
-- The lists of invalid blocks and the hash chains of valid blocks of a set (src/flashcache_subr.c).
-- Both use the links `hash_next` and `hash_prev`, relative to the set. `jhash_1word` is the kernel's.
-- `none` is a failed VERIFY, and `*index == -1` is `none` inside a result.
use flashcache_ubuntu_xenial.Prelude.{
  ℕ, zero, suc, ◌+◌, ◌*◌, ◌/◌, ◌%◌, ◌^◌, not, Option, some, none, ltb, ◌==◌, if◌then◌else◌, guard,
  ◌>>=◌, ◌>>◌, update,
}
use flashcache_ubuntu_xenial.Device.{CacheC, null, u32, set_block, set_set, is_invalid}

-- NUM_BLOCK_HASH_BUCKETS
abbrev pub num_block_hash_buckets : ℕ
num_block_hash_buckets = 512

abbrev pub put_hash_next : CacheC → ℕ → ℕ → CacheC
put_hash_next d i v = set_block d i (record (d.cache i) { hash_next = v })

abbrev pub put_hash_prev : CacheC → ℕ → ℕ → CacheC
put_hash_prev d i v = set_block d i (record (d.cache i) { hash_prev = v })

abbrev pub put_invalid_head : CacheC → ℕ → ℕ → CacheC
put_invalid_head d set v = set_set d set (record (d.cache_sets set) { invalid_head = v })

abbrev pub put_bucket : CacheC → ℕ → ℕ → ℕ → CacheC
put_bucket d set bucket v =
    set_set d set
      (record (d.cache_sets set) { hash_buckets = update (d.cache_sets set).hash_buckets bucket v })

-- A block joins the chain that starts at `head`, whose head the caller then sets to `set_ix`.
unfoldable pub link_first : CacheC → ℕ → ℕ → ℕ → ℕ → CacheC
link_first d start index set_ix head =
    let d1 = put_hash_next d index head in
    if head == null then d1 else put_hash_prev d1 (start + head) set_ix

-- flashcache_invalid_insert
unfoldable pub invalid_insert : CacheC → ℕ → Option CacheC
invalid_insert d index =
    let set = index / d.assoc in
    let set_ix = index % d.assoc in
    let d' = link_first d (set * d.assoc) index set_ix (d.cache_sets set).invalid_head in
    do
      guard (ltb index d.size)
      guard (is_invalid (d.cache index).cache_state)
      guard ((d.cache index).hash_prev == null)
      guard ((d.cache index).hash_next == null)
      some (put_invalid_head d' set set_ix)

-- The successor is linked to the predecessor.
unfoldable pub unlink_successor : CacheC → ℕ → ℕ → CacheC
unlink_successor d start index =
    let b = d.cache index in
    if b.hash_next == null then d else put_hash_prev d (start + b.hash_next) b.hash_prev

-- The block's own links are cleared.
abbrev pub clear_links : CacheC → ℕ → CacheC
clear_links d index =
    set_block d index (record (d.cache index) { hash_prev = null; hash_next = null })

-- flashcache_invalid_remove
unfoldable pub invalid_remove : CacheC → ℕ → Option CacheC
invalid_remove d index =
    let set = index / d.assoc in
    let start = set * d.assoc in
    let b = d.cache index in
    let d1 =
      if b.hash_prev == null
      then put_invalid_head d set b.hash_next
      else put_hash_next d (start + b.hash_prev) b.hash_next in
    do
      guard (ltb index d.size)
      guard (is_invalid b.cache_state)
      some (clear_links (unlink_successor d1 start index) index)

-- flashcache_invalid_get
unfoldable pub invalid_get : CacheC → ℕ → Option (CacheC × Option ℕ)
invalid_get d set =
    let head = (d.cache_sets set).invalid_head in
    let index = head + set * d.assoc in
    if head == null then some (d, none) else (do
      guard (is_invalid (d.cache index).cache_state)
      d' ← invalid_remove d index
      some (d', some index))

-- The sets of flashcache_hash_init, from the first on.
abbrev pub num_sets : CacheC → ℕ
num_sets d = d.size / 2 ^ d.assoc_shift

-- flashcache_hash_init
unfoldable pub hash_init : CacheC → CacheC
hash_init d = record d {
  cache_sets = λ i.
      if ltb i (num_sets d)
      then record (d.cache_sets i) {
        invalid_head = null;
        hash_buckets =
            λ j. if ltb j num_block_hash_buckets then null else (d.cache_sets i).hash_buckets j;
      }
      else d.cache_sets i;
}

-- The walk of flashcache_hash_lookup from `set_ix` on.
unfoldable pub chain_lookup : ℕ → CacheC → ℕ → ℕ → ℕ → Option (Option ℕ)
chain_lookup zero d start dbn set_ix = none
chain_lookup (suc fuel) d start dbn set_ix =
    let b = d.cache (start + set_ix) in
    let rest = chain_lookup fuel d start dbn b.hash_next in
    if set_ix == null
    then some none
    else (guard b.cache_state.valid
        >> (guard (not b.cache_state.invalid)
            >> (if dbn == b.dbn then some (some (start + set_ix)) else rest)))

module _ (jhash_1word : ℕ → ℕ → ℕ) where
  -- flashcache_get_hash_bucket; the hash takes the low word of the sector number.
  abbrev pub hash_bucket : ℕ → ℕ
  hash_bucket dbn = jhash_1word (dbn % u32) 0xfeed % num_block_hash_buckets

  -- flashcache_hash_remove, of a block index that is not -1.
  unfoldable pub hash_remove : CacheC → ℕ → Option CacheC
  hash_remove d index =
      let set = index / d.assoc in
      let start = set * d.assoc in
      let b = d.cache index in
      let d1 =
        if b.hash_prev == null
        then put_bucket d set (hash_bucket b.dbn) b.hash_next
        else put_hash_next d (start + b.hash_prev) b.hash_next in
      guard b.cache_state.valid >> some (clear_links (unlink_successor d1 start index) index)

  -- flashcache_hash_lookup; a chain has a step for each block of the set and one for its end.
  unfoldable pub hash_lookup : CacheC → ℕ → ℕ → Option (Option ℕ)
  hash_lookup d set dbn =
      chain_lookup (suc d.assoc) d (set * d.assoc) dbn
        ((d.cache_sets set).hash_buckets (hash_bucket dbn))

  -- flashcache_hash_insert
  unfoldable pub hash_insert : CacheC → ℕ → Option CacheC
  hash_insert d index =
      let set = index / d.assoc in
      let bucket = hash_bucket (d.cache index).dbn in
      let set_ix = index % d.assoc in
      let first = (d.cache_sets set).hash_buckets bucket in
      let d' = link_first (put_hash_prev d index null) (set * d.assoc) index set_ix first in
      do
        guard (d.cache index).cache_state.valid
        guard ((d.cache index).hash_prev == null)
        guard ((d.cache index).hash_next == null)
        some (put_bucket d' set bucket set_ix)
