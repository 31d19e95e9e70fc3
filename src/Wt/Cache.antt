-- ===== src/Wt/Cache.antt =====
-- The cache of the write-through module with its lookup and its invalidation
-- (flashcache-wt/src/flashcache_wt.c and flashcache_wt.h). `none` is a failed VERIFY. The statistics
-- are left out, but for cached_blocks, an unsigned long.
use flashcache_ubuntu_xenial.Prelude.{
  ℕ, zero, suc, ◌+◌, ◌*◌, ◌/◌, ◌%◌, ◌^◌, Bool, true, false, ◌&&◌, ◌||◌, Option, none, some, ltb,
  leb, ◌==◌, if◌then◌else◌, guard, ◌>>◌, ◌>>=◌, update, sub_word,
}
use flashcache_ubuntu_xenial.Device.{u64}

-- INVALID, VALID, INPROG, CACHEREADINPROG and INPROG_INVALID
pub data State : Type 0 where
  invalid valid in_prog cache_read_in_prog in_prog_invalid : State

abbrev pub is_valid : State → Bool
is_valid State.valid = true
is_valid _ = false

abbrev pub is_invalid : State → Bool
is_invalid State.invalid = true
is_invalid _ = false

abbrev pub is_in_prog : State → Bool
is_in_prog State.in_prog = true
is_in_prog _ = false

abbrev pub is_cache_read : State → Bool
is_cache_read State.cache_read_in_prog = true
is_cache_read _ = false

abbrev pub is_in_prog_invalid : State → Bool
is_in_prog_invalid State.in_prog_invalid = true
is_in_prog_invalid _ = false

-- A block that holds a sector's data, or will.
abbrev pub is_live : State → Bool
is_live s = is_valid s || is_cache_read s || is_in_prog s

-- struct cache_c, with the states of the blocks and their sectors.
pub record WtCache : Type 0 where
  pub dbn : ℕ → ℕ
  pub cache_state : ℕ → State
  pub set_lru_next : ℕ → ℕ
  pub write_around_mode : Bool
  pub size : ℕ
  pub assoc : ℕ
  pub block_size : ℕ
  pub block_shift : ℕ
  pub consecutive_shift : ℕ
  pub cached_blocks : ℕ

-- A request: bi_sector, to_sector(bi_size), and whether it writes.
pub record WtBio : Type 0 where
  pub sector : ℕ
  pub sectors : ℕ
  pub writes : Bool

abbrev pub set_state : WtCache → ℕ → State → WtCache
set_state d i s = record d { cache_state = update d.cache_state i s }

abbrev pub less_cached : WtCache → WtCache
less_cached d = record d { cached_blocks = sub_word u64 d.cached_blocks 1 }

-- hash_block
abbrev pub hash_block : WtCache → ℕ → ℕ
hash_block d dbn =
    dbn / 2 ^ (d.block_shift + d.consecutive_shift) % (d.size / 2 ^ d.consecutive_shift)

-- find_valid_dbn, over n blocks from i.
unfoldable pub find_valid_dbn : WtCache → ℕ → ℕ → ℕ → Option ℕ
find_valid_dbn d dbn zero i = none
find_valid_dbn d dbn (suc n) i =
    let rest = find_valid_dbn d dbn n (suc i) in
    if dbn == d.dbn i && is_live (d.cache_state i) then some i else rest

-- find_invalid_dbn, over n blocks from i.
unfoldable pub find_invalid_dbn : WtCache → ℕ → ℕ → Option ℕ
find_invalid_dbn d zero i = none
find_invalid_dbn d (suc n) i =
    let rest = find_invalid_dbn d n (suc i) in if is_invalid (d.cache_state i) then some i else rest

-- The next block of the set that starts at `start`.
abbrev pub next_in_set : WtCache → ℕ → ℕ → ℕ
next_in_set d start i = if i + 1 == start + d.assoc then start else i + 1

-- What the search for an old block ends with: the block, if any, and where `i` stands then.
pub record Sweep : Type 0 where
  pub oldest : Option ℕ
  pub at : ℕ

-- The loop of find_reclaim_dbn, with n slots left to search.
unfoldable pub sweep : WtCache → ℕ → ℕ → ℕ → Option Sweep
sweep d start zero i = some (record { oldest = none; at = i })
sweep d start (suc n) i =
    let rest = sweep d start n (next_in_set d start i) in
    guard (leb start i && ltb i (start + d.assoc))
    >> (if is_valid (d.cache_state i) then some (record { oldest = some i; at = i }) else rest)

-- find_reclaim_dbn
unfoldable pub find_reclaim_dbn : WtCache → ℕ → Option (WtCache × Option ℕ)
find_reclaim_dbn d start =
    let set = start / d.assoc in
    sweep d start d.assoc (d.set_lru_next set) >>= λ s.
    some
      (record d { set_lru_next = update d.set_lru_next set (next_in_set d start s.at) }, s.oldest)

-- The results of cache_lookup: a block with its state, a block to take, or -1.
pub data LookupResult : Type 0 where
  found free : ℕ → LookupResult
  no_room : LookupResult

-- *index is the block to take, or past the set.
abbrev pub to_take : Option ℕ → LookupResult
to_take none = LookupResult.no_room
to_take (some i) = LookupResult.free i

-- The part of cache_lookup after a miss.
abbrev pub after_miss : WtCache → ℕ → Option ℕ → Option (WtCache × LookupResult)
after_miss d start none =
    find_reclaim_dbn d start >>= λ (d', oldest_clean). some (d', to_take oldest_clean)
after_miss d start (some i) = some (d, LookupResult.free i)

abbrev pub after_find : WtCache → ℕ → Option ℕ → Option (WtCache × LookupResult)
after_find d start (some i) = some (d, LookupResult.found i)
after_find d start none = after_miss d start (find_invalid_dbn d d.assoc start)

-- cache_lookup
unfoldable pub cache_lookup : WtCache → WtBio → Option (WtCache × LookupResult)
cache_lookup d bio =
    let start = d.assoc * hash_block d bio.sector in
    after_find d start (find_valid_dbn d bio.sector d.assoc start)

-- Whether the request from io_start to io_end overlaps the block at start_dbn.
abbrev pub overlaps : WtCache → ℕ → ℕ → ℕ → Bool
overlaps d io_start io_end start_dbn =
    (leb start_dbn io_start && ltb io_start (start_dbn + d.block_size))
    || (leb start_dbn io_end && ltb io_end (start_dbn + d.block_size))

-- A block that the request overlaps is invalidated, and one in progress is counted.
abbrev pub invalidate_as : State → WtCache → ℕ → ℕ → WtCache × ℕ
invalidate_as State.invalid d i inprog_inval = (d, inprog_inval)
invalidate_as State.in_prog_invalid d i inprog_inval = (d, inprog_inval)
invalidate_as State.valid d i inprog_inval =
    (set_state (less_cached d) i State.invalid, inprog_inval)
invalidate_as State.in_prog d i inprog_inval =
    (set_state d i State.in_prog_invalid, inprog_inval + 1)
invalidate_as State.cache_read_in_prog d i inprog_inval =
    (set_state d i State.in_prog_invalid, inprog_inval + 1)

abbrev pub invalidate_block : WtCache → ℕ → ℕ → WtCache × ℕ
invalidate_block d i inprog_inval = invalidate_as (d.cache_state i) d i inprog_inval

-- cache_invalidate_block_set, over n blocks from i.
unfoldable pub invalidate_from : ℕ → ℕ → ℕ → ℕ → WtCache → ℕ → WtCache × ℕ
invalidate_from io_start io_end zero i d inprog_inval = (d, inprog_inval)
invalidate_from io_start io_end (suc n) i d inprog_inval =
    let (d', c) =
      if overlaps d io_start io_end (d.dbn i)
      then invalidate_block d i inprog_inval
      else (d, inprog_inval) in
    invalidate_from io_start io_end n (suc i) d' c

abbrev pub cache_invalidate_block_set : WtCache → ℕ → ℕ → ℕ → ℕ → WtCache × ℕ
cache_invalidate_block_set d set io_start io_end inprog_inval =
    invalidate_from io_start io_end d.assoc (d.assoc * set) d inprog_inval

-- The last sector of a request.
abbrev pub io_end_of : WtBio → ℕ
io_end_of bio = (bio.sector + sub_word u64 bio.sectors 1) % u64

-- cache_invalidate_blocks
unfoldable pub cache_invalidate_blocks : WtCache → WtBio → WtCache × ℕ
cache_invalidate_blocks d bio =
    let io_end = io_end_of bio in
    let start_set = hash_block d bio.sector in
    let end_set = hash_block d io_end in
    let (d1, c1) = cache_invalidate_block_set d start_set bio.sector io_end 0 in
    let (d2, c2) = cache_invalidate_block_set d1 end_set bio.sector io_end 0 in
    if start_set == end_set then (d1, c1) else (d2, c1 + c2)
