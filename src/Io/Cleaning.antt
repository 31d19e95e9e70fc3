-- ===== src/Io/Cleaning.antt =====
-- The choice of the dirty blocks of a set to write to the disk (src/flashcache_main.c,
-- src/flashcache_subr.c): flashcache_clean_set and flashcache_merge_writes. `sort` is the kernel's, with
-- cmp_dbn. The clock is read through `Fallow`; the time stamps and statistics are left out.
-- `none` is a failed VERIFY, or a walk out of fuel.
use flashcache_ubuntu_xenial.Prelude.{
  ℕ, zero, suc, ◌+◌, ◌-◌, ◌*◌, Bool, true, false, not, ◌&&◌, ◌||◌, Option, some, none, ltb, ◌==◌,
  if◌then◌else◌, guard, ◌>>=◌, ◌>>◌, List, [], ◌∷◌, ◌++◌, length,
}
use flashcache_ubuntu_xenial.Device.{CacheC, null, set_set, block_io_in_prog}
use flashcache_ubuntu_xenial.Main.Lookup.{detect_fallow, clear_fallow, put_state, is_lru}
use flashcache_ubuntu_xenial.Io.Inval.{needs_clean}

-- struct dbn_index_pair
pub record DbnIndexPair : Type 0 where
  pub dbn : ℕ
  pub index : ℕ

-- sysctl_fallow_delay > 0, and whether fallow_tstamp and fallow_next_cleaning have passed.
pub record Fallow : Type 0 where
  pub is_on : Bool
  pub detect_due : Bool
  pub clean_due : Bool

-- The cache with the blocks that are chosen so far, `writes_list` up to `nr_writes`.
pub record Chosen : Type 0 where
  pub dmc : CacheC
  pub writes_list : List DbnIndexPair

abbrev pub nr_writes : Chosen → ℕ
nr_writes c = length c.writes_list

-- flashcache_can_clean
abbrev pub can_clean : CacheC → ℕ → ℕ → Bool
can_clean d set nr =
    ltb ((d.cache_sets set).clean_inprog + nr) d.max_clean_ios_set
    && ltb (nr + d.clean_inprog) d.max_clean_ios_total

-- A block is marked DISKWRITEINPROG and joins the list.
unfoldable pub choose : Chosen → ℕ → Option Chosen
choose c i =
    let b = c.dmc.cache i in
    let d = put_state c.dmc i (record b.cache_state { disk_write_in_prog = true }) in
    clear_fallow d i >>= λ d'.
    some
      (record { dmc = d'; writes_list = c.writes_list ++ record { dbn = b.dbn; index = i } ∷ [] })

-- A dirty block without I/O is chosen, and another one is passed over.
abbrev pub choose_dirty : Chosen → ℕ → Option Chosen
choose_dirty c i = if needs_clean (c.dmc.cache i).cache_state then choose c i else some c

-- The sweep of a set that marks fallow blocks, over `left` blocks from `i` on.
unfoldable pub sweep : ℕ → CacheC → ℕ → CacheC
sweep zero d i = d
sweep (suc left) d i = sweep left (detect_fallow d i) (i + 1)

-- The loop over the fallow blocks; the flag says that it was cut short by the limits.
unfoldable pub fallow_from : Bool → ℕ → ℕ → Chosen → ℕ → Option (Chosen × Bool)
fallow_from due zero set c i = some (c, false)
fallow_from due (suc left) set c i =
    let s = (c.dmc.cache i).cache_state in
    let next = fallow_from due left set in
    if not due || not (ltb 0 (c.dmc.cache_sets set).dirty_fallow)
    then some (c, false)
    else if not s.dirty_fallow_2
    then next c (i + 1)
    else if not (can_clean c.dmc set (nr_writes c))
    then some (c, true)
    else (guard s.dirty
        >> (guard (not (block_io_in_prog s)) >> (choose c i >>= λ c'. next c' (i + 1))))

-- How many blocks there should be in the list, and the number of blocks to look at if cleaning is
-- forced; `none` if there is nothing more to choose.
unfoldable pub thresholds : Chosen → ℕ → ℕ → Option (ℕ × ℕ)
thresholds c set force =
    let n = (c.dmc.cache_sets set).nr_dirty in
    let t = c.dmc.dirty_thresh_set in
    if force == 0
    then (if ltb n t || not (can_clean c.dmc set (nr_writes c)) then none else some (n - t, 0))
    else if n == 0
    then some (0, force)
    else if ltb t n
    then some (n - t, 0)
    else some ((if nr_writes c == 0 then force else 0), force)

-- The loop of the FIFO policy, over `left` blocks from `i` on; it ends with the place to go on from.
unfoldable pub clean_fifo : ℕ → ℕ → ℕ → Chosen → ℕ → Option (Chosen × ℕ)
clean_fifo zero set threshold c i = some (c, i)
clean_fifo (suc left) set threshold c i =
    let start = set * c.dmc.assoc in
    let i' = if i + 1 == start + c.dmc.assoc then start else i + 1 in
    if can_clean c.dmc set (nr_writes c) && ltb (nr_writes c) threshold
    then (choose_dirty c i >>= λ c'. clean_fifo left set threshold c' i')
    else some (c, i)

-- The loop of the LRU policy over one list; the flag says that enough blocks were looked at.
unfoldable pub clean_lru : ℕ → ℕ → ℕ → ℕ → Chosen → ℕ → ℕ → Option (Chosen × ℕ × Bool)
clean_lru zero set threshold force c scanned rel = none
clean_lru (suc fuel) set threshold force c scanned rel =
    let i = rel + set * c.dmc.assoc in
    if rel == null || not (can_clean c.dmc set (nr_writes c) && ltb (nr_writes c) threshold)
    then some (c, scanned, false)
    else (choose_dirty c i >>= λ c'.
        if ltb 0 force && scanned + 1 == force
        then some (c', scanned + 1, true)
        else clean_lru fuel set threshold force c' (scanned + 1) (c'.dmc.cache i).lru_next)

-- The warm list and then the hot list.
unfoldable pub clean_lists : ℕ → ℕ → ℕ → Chosen → Option Chosen
clean_lists set threshold force c = do
  (c1, scanned, stop) ←
      clean_lru (suc c.dmc.assoc) set threshold force c 0 (c.dmc.cache_sets set).warmlist_lru_head
  (if stop
      then some c1
      else (clean_lru (suc c1.dmc.assoc) set threshold force c1 scanned
            (c1.dmc.cache_sets set).hotlist_lru_head
          >>= λ (c2, n, b). some c2))

-- The choice by the policy.
unfoldable pub by_policy : ℕ → ℕ × ℕ → Chosen → Option Chosen
by_policy set (threshold, force) c =
    if is_lru c.dmc.sysctl_reclaim_policy
    then clean_lists set threshold force c
    else (clean_fifo c.dmc.assoc set threshold c (c.dmc.cache_sets set).set_clean_next
        >>= λ (c', i). some (record c' {
          dmc = set_set c'.dmc set (record (c'.dmc.cache_sets set) { set_clean_next = i });
        }))

-- flashcache_clean_set up to the label `out`.
unfoldable pub choose_blocks : Fallow → CacheC → ℕ → ℕ → Option Chosen
choose_blocks f d set force =
    let start = set * d.assoc in
    let d1 = if f.is_on && f.detect_due then sweep d.assoc d start else d in
    let force' = if is_lru d.sysctl_reclaim_policy then force else 0 in
    do
      (c, stop) ←
          fallow_from (f.is_on && f.clean_due) d.assoc set (record { dmc = d1; writes_list = [] })
            start
      (if stop
          then some c
          else elim (thresholds c set force') [ none ↦ some c | some t ↦ by_policy set t c ])
