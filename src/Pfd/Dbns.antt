-- ===== src/Pfd/Dbns.antt =====
-- pfd_stat_get_prefetch_dbns (src/pfd_stat.c): which blocks to prefetch for a pattern. The array
-- `arr` is the list of what is written to it from its start on, and the result is the list with the
-- returned count; a negative count asks for the blocks backwards. A `long` is an exact integer.
use flashcache_ubuntu_xenial.Prelude.{
  ℕ, zero, suc, ◌+◌, ◌-◌, ◌*◌, ◌/◌, ◌^◌, Bool, Option, some, none, ltb, leb, ◌==◌, if◌then◌else◌, ℤ,
  pos, negsuc, ◌⊖◌, ◌+ℤ◌, abs, List, [], ◌∷◌,
}
use flashcache_ubuntu_xenial.Device.{CacheC, u64}
use flashcache_ubuntu_xenial.Pfd.Stat.{PfdStatInfo}

-- PFD_CACHE_BLOCK_COUNT, PFD_CACHE_MAX_STEP and PFD_CACHE_THRESHOLD_STEP
abbrev pub block_count : ℕ
block_count = 16384

abbrev pub max_steps : ℕ
max_steps = 256

abbrev pub threshold_step : ℕ
threshold_step = 4

abbrev pub neg : ℕ → ℤ
neg n = 0 ⊖ n

-- dbn >= disk_sects, and dbn < 0
abbrev pub beyond : ℤ → ℕ → Bool
beyond (pos n) sects = leb sects n
beyond (negsuc n) sects = Bool.false

abbrev pub is_negative : ℤ → Bool
is_negative (pos n) = Bool.false
is_negative (negsuc n) = Bool.true

-- The conversion to sector_t.
abbrev pub to_sector : ℤ → ℕ
to_sector (pos n) = n
to_sector (negsuc n) = u64 - 1 - n

-- One more entry of the array, before those that follow.
abbrev pub write_entry : ℤ → ℤ × List ℕ → ℤ × List ℕ
write_entry dbn (count, arr) = (count, to_sector dbn ∷ arr)

-- The loop for a single run: `left` steps from the index `i` on.
unfoldable pub straight : CacheC → ℕ → ℕ → ℤ → ℤ × List ℕ
straight d zero i dbn = (pos i, [])
straight d (suc left) i dbn =
    let dbn' = dbn +ℤ pos d.block_size in
    let rest = straight d left (i + 1) dbn' in
    if beyond dbn' d.disk_sects then (pos i, []) else write_entry dbn' rest

-- Some result with one more entry.
abbrev pub add_entry : ℤ → Option (ℤ × List ℕ) → Option (ℤ × List ℕ)
add_entry dbn none = none
add_entry dbn (some r) = some (write_entry dbn r)

-- The two nested loops for a positive stride; a turn of either loop takes one of `fuel`.
unfoldable pub forward : ℕ → CacheC → PfdStatInfo → ℕ → ℕ → ℕ → ℤ → Option (ℤ × List ℕ)
forward zero d info max_step i j dbn = none
forward (suc fuel) d info max_step i j dbn =
    let dbn' = dbn +ℤ pos d.block_size in
    let inner = forward fuel d info max_step (i + 1) (j + 1) dbn' in
    let outer =
      forward fuel d info max_step i 0
        (dbn +ℤ (info.stride_distance_sect +ℤ neg (info.seq_total_count * 2 ^ d.block_shift))) in
    if ltb j info.seq_total_count
    then (if leb max_step i
        then some (pos max_step, [])
        else if beyond dbn' d.disk_sects
        then some (pos i, [])
        else add_entry dbn' inner)
    else outer

-- The two nested loops for a negative stride; `skip` is `tmp1` between the loops.
unfoldable pub backward : ℕ → CacheC → PfdStatInfo → ℕ → ℕ → ℕ → ℕ → ℤ → Option (ℤ × List ℕ)
backward zero d info max_step skip i j dbn = none
backward (suc fuel) d info max_step skip i j dbn =
    let dbn' = dbn +ℤ neg d.block_size in
    let inner = backward fuel d info max_step skip (i + 1) (j + 1) dbn' in
    let outer = backward fuel d info max_step 0 i 0 (
      dbn
      +ℤ info.stride_distance_sect
      +ℤ pos (info.seq_total_count * 2 ^ d.block_shift)
      +ℤ neg (skip * 2 ^ d.block_shift)) in
    if ltb j info.seq_total_count
    then (if leb max_step i
        then some (neg max_step, [])
        else if is_negative dbn'
        then some (neg (i - j), [])
        else add_entry dbn' inner)
    else outer

-- What the loops for a negative stride start from.
unfoldable pub start_backward : ℕ → CacheC → PfdStatInfo → ℕ → Option (ℤ × List ℕ)
start_backward fuel d info max_step =
    if info.seq_total_count == info.seq_count
    then backward fuel d info max_step 0 0 0
        (pos info.last_sect +ℤ (info.stride_distance_sect +ℤ pos d.block_size))
    else backward fuel d info max_step info.seq_count 0 info.seq_count (
        pos info.last_sect
        +ℤ (pos (info.seq_total_count * 2 ^ d.block_shift)
            +ℤ neg (info.seq_count * 2 ^ d.block_shift)
            +ℤ pos (2 ^ d.block_shift)))

-- The bounds on the number of steps.
abbrev pub bounded_steps : PfdStatInfo → ℕ → ℕ
bounded_steps info steps =
    let m = if ltb max_steps steps then max_steps else steps in
    let blocks = block_count / abs info.stride_distance_sect * info.seq_total_count in
    if abs info.stride_distance_sect == 0 then m else if ltb blocks m then blocks else m

-- At most one turn of the outer loop stands between two steps of the inner one.
abbrev pub enough_fuel : ℕ
enough_fuel = 2 * max_steps + 3

-- The choice of the loop by the sign of the stride.
unfoldable pub by_stride : CacheC → PfdStatInfo → ℕ → ℤ → Option (ℤ × List ℕ)
by_stride d info max_step (pos zero) = some (pos 0, [])
by_stride d info max_step (pos (suc n)) =
    forward enough_fuel d info max_step 0 info.seq_count (pos info.last_sect)
by_stride d info max_step (negsuc n) = start_backward enough_fuel d info max_step

unfoldable pub pfd_stat_get_prefetch_dbns : CacheC → PfdStatInfo → Option (ℤ × List ℕ)
pfd_stat_get_prefetch_dbns d info =
    let steps = info.stride_count * info.seq_total_count + info.seq_count in
    let max_step = bounded_steps info steps in
    if ltb steps threshold_step
    then some (pos 0, [])
    else if info.seq_total_count == 0
    then some (straight d max_step 0 (pos info.last_sect))
    else by_stride d info max_step info.stride_distance_sect
