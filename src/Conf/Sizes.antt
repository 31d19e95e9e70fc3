-- ===== src/Conf/Sizes.antt =====
-- The sizes of a new cache, and the caches that flashcache_writeback_create does not overwrite
-- (src/flashcache_conf.c).
use flashcache_ubuntu_xenial.Prelude.{
  ℕ, suc, ◌+◌, ◌-◌, ◌*◌, ◌/◌, ◌%◌, ◌<◌, ◌≤◌, ◌≡◌, refl, ap, ◌∙◌, Bool, true, false, not, ◌&&◌,
  arith, sub_word,
}
use native.Mathlib.Nat.{
  div-mul-le_self, div-lt_iff_lt-mul, div-add-mod', mod-lt, mul-le-mul_right, mul-le-mul_left,
}
use flashcache_ubuntu_xenial.Device.{CacheC, u32, u64}
use flashcache_ubuntu_xenial.Conf.Machine.{
  Machine, Exit, ok, failed, ◌>>=◌, unless_failed, read_io, next_io, md_slots_per_block,
  metadata_io_num_blocks,
}
use flashcache_ubuntu_xenial.Conf.Load.{is_known_sb}
use flashcache_ubuntu_xenial.Conf.Create.{
  writeback_create, sized, cache_size, new_cache, take_size, write_new, md_blocks_of, round_down,
}
use flashcache_ubuntu_xenial.Conf.Exits.{Ends-at}
use flashcache_ubuntu_xenial.Conf.Filling.{md_slots_per_block_lem}
use flashcache_ubuntu_xenial.Conf.Created.{IsCreated, writeback_create-IsCreated}
use flashcache_ubuntu_xenial.Conf.Reboot.{IsRejected-unless, IsRejected-failed}

-- A cache is not overwritten unasked: where the superblock is DIRTY, CLEAN or FASTCLEAN, a creation
-- that is not forced returns 1, and the device is as it was.
pub writeback_create-rejected :
    (x : Machine)
    → is_known_sb x.superblock.cache_sb_state ≡ true
    → (y : Machine) × (writeback_create false x ≡ failed y)
      × (y.superblock ≡ x.superblock)
      × (y.slots ≡ x.slots)
unfolding writeback_create
writeback_create-rejected x k =
    let x1 : Machine = record x { vmallocs = suc x.vmallocs } in
    let x2 : Machine = next_io x1 in
    let sizes : Machine → Exit Machine = λ z. take_size z >>= λ u. new_cache u >>= write_new in
    let start : Machine → Exit Machine =
      λ z. unless_failed (not false && is_known_sb z.superblock.cache_sb_state) z z >>= sizes in
    IsRejected-failed x (writeback_create false x) (
      IsRejected-unless x (not (x.can_vmalloc x.vmallocs)) x1 x1 (λ z. read_io z >>= start)
        (refl, refl)
        (λ a.
          IsRejected-unless x (x.io_error x.ios) x2 x2 start (refl, refl)
            (λ b.
              IsRejected-unless x (not false && is_known_sb x.superblock.cache_sb_state) x2 x2 sizes
                (refl, refl) (λ c. absurd (cc (c, k))))))

div_mono : (k m n : ℕ) → 0 < k → m ≤ n → m / k ≤ n / k
div_mono k m n p l =
    let at : n / k * k + n % k ≡ n = div-add-mod' n k in
    let rest : n % k < k = mod-lt n p in
    let next : m < (n / k + 1) * k = omega (arith, at, rest, l) in
    let one : m / k < n / k + 1 = (div-lt_iff_lt-mul p).1 next in omega (arith, one)

round_down_le : (a n : ℕ) → round_down a n ≤ n
round_down_le a n = div-mul-le_self n a

-- The metadata of a device of so many sectors stays below 2 ^ 32 sectors, and leaves room.
pub record IsRoomy (d : CacheC) : Type 0 where
  pub some_md : 0 < d.md_block_size
  pub room : 0 < metadata_io_num_blocks d.md_block_size
  pub block : 0 < d.block_size
  pub sectors : d.size < u64
  pub small :
      (d.size / d.block_size / md_slots_per_block d.md_block_size + 1 + 1) * d.md_block_size < u32
  pub left :
      (d.size / d.block_size / md_slots_per_block d.md_block_size + 1 + 1) * d.md_block_size
      ≤ d.size

-- The sizes do not wrap round, and the metadata blocks and the blocks are no more than was asked for.
sized-fits :
    (d : CacheC)
    → IsRoomy d
    → ((sized d).md_blocks ≡ (sized d).size / md_slots_per_block d.md_block_size + 1 + 1)
      × ((sized d).md_blocks * d.md_block_size < u32)
      × ((sized d).md_blocks * d.md_block_size + (sized d).size * d.block_size ≤ d.size)
sized-fits d r =
    let b = d.md_block_size in
    let k = md_slots_per_block b in
    let pos : 0 < k = omega (arith, md_slots_per_block_lem b, r.some_md) in
    let s = d.size in
    let m = s / d.block_size / k + 1 + 1 in
    let m_le : m * 1 ≤ m * b = mul-le-mul_left m r.some_md in
    let m_small : m < u32 = omega (arith, m_le, r.small) in
    let first : md_blocks_of b (s / d.block_size) ≡ m = omega (arith, m_small) in
    let md : md_blocks_of b (s / d.block_size) * b % u32 ≡ m * b =
      ap (λ t. t * b % u32) first ∙ omega (arith, r.small) in
    let left : sub_word u64 s (md_blocks_of b (s / d.block_size) * b % u32) ≡ s - m * b =
      ap (sub_word u64 s) md ∙ omega (arith, r.left, r.sectors) in
    let rest = sub_word u64 s (md_blocks_of b (s / d.block_size) * b % u32) in
    let n = round_down d.assoc (rest / d.block_size) in
    let n_le : n ≤ rest / d.block_size = round_down_le d.assoc (rest / d.block_size) in
    let part : n * d.block_size ≤ rest / d.block_size * d.block_size =
      mul-le-mul_right d.block_size n_le in
    let part' : rest / d.block_size * d.block_size ≤ rest = div-mul-le_self rest d.block_size in
    let fewer : rest / d.block_size ≤ s / d.block_size =
      div_mono d.block_size rest s r.block (omega (arith, left)) in
    let md_le : n / k ≤ s / d.block_size / k =
      div_mono k n (s / d.block_size) pos (omega (arith, n_le, fewer)) in
    let blocks : n / k + 1 + 1 ≤ m = omega (arith, md_le) in
    let second : md_blocks_of b n ≡ n / k + 1 + 1 = omega (arith, blocks, m_small) in
    let md2 : (n / k + 1 + 1) * b ≤ m * b = mul-le-mul_right b blocks in
    let second' : md_blocks_of b n * b ≡ (n / k + 1 + 1) * b = ap (λ t. t * b) second in
    (
      second,
      omega (arith, second', md2, r.small),
      omega (arith, second', md2, part, part', left, r.left),
    )

-- A new cache fits: if the metadata leaves room in the size that is asked for and takes less than 2 ^ 32
-- sectors, then the metadata and the blocks of a cache that the creation returns end within the
-- cache device and within that size, and the slot of every block is before the first block.
pub create-fits :
    (force : Bool) (x y : Machine)
    → IsRoomy x.dmc
    → writeback_create force x ≡ ok y
    → (y.dmc.md_blocks * y.dmc.md_block_size + y.dmc.size * y.dmc.block_size ≤ x.cache_sectors)
      × (y.dmc.md_blocks * y.dmc.md_block_size + y.dmc.size * y.dmc.block_size ≤ x.dmc.size)
      × ((k : ℕ)
          → k < y.dmc.size
          → md_slots_per_block y.dmc.md_block_size + k
            < y.dmc.md_blocks * md_slots_per_block y.dmc.md_block_size)
create-fits force x y r e =
    let c : IsCreated x y =
      Ends-at Unit (IsCreated x) (writeback_create force x) y e
        (writeback_create-IsCreated force x r.some_md r.room) in
    let d = sized x.dmc in
    let (blocks, small, fits) = sized-fits x.dmc r in
    let k = md_slots_per_block x.dmc.md_block_size in
    let pos : 0 < k = omega (arith, md_slots_per_block_lem x.dmc.md_block_size, r.some_md) in
    let exact : cache_size d ≡ d.md_blocks * d.md_block_size + d.size * d.block_size =
      omega (arith, small, fits, r.sectors) in
    let device : d.md_blocks * d.md_block_size + d.size * d.block_size ≤ x.cache_sectors =
      omega (arith, exact, c.fits) in
    rw (c.md_blocks, c.size, c.md_block_size, c.block_size)
      (
        device,
        fits,
        λ j l.
            let at : d.size / k * k + d.size % k ≡ d.size = div-add-mod' d.size k in
            let rest : d.size % k < k = mod-lt d.size pos in
            let all : d.md_blocks * k ≡ (d.size / k + 1 + 1) * k = ap (λ t. t * k) blocks in
            omega (arith, at, rest, all, l),
      )
