-- ===== src/Conf/Create.antt =====
-- flashcache_writeback_create and flashcache_writethrough_create of src/flashcache_conf.c: a new cache
-- is sized, and its metadata written.
use flashcache_ubuntu_xenial.Prelude.{
  ℕ, ◌+◌, ◌*◌, ◌/◌, ◌%◌, Bool, true, not, ◌&&◌, ltb, if◌then◌else◌, sub_word,
}
use flashcache_ubuntu_xenial.Device.{CacheC, CacheBlock, u32, u64}
use flashcache_ubuntu_xenial.Io.Addresses.{md_sectors}
use flashcache_ubuntu_xenial.Conf.Machine.{
  Machine, Exit, ok, ◌>>=◌, unless_failed, SbState, flashcache_version, md_slots_per_block, read_io,
  vmalloc, zero_block, invalid_state,
}
use flashcache_ubuntu_xenial.Conf.Writer.{machine_of, write_metadata}
use flashcache_ubuntu_xenial.Conf.Store.{stored_header}
use flashcache_ubuntu_xenial.Conf.Load.{is_known_sb, put_superblock}

-- Down to a multiple of the associativity.
abbrev pub round_down : ℕ → ℕ → ℕ
round_down assoc n = n / assoc * assoc

-- INDEX_TO_MD_BLOCK + 1 + 1, an int: the metadata blocks of so many blocks, with the superblock's.
abbrev pub md_blocks_of : ℕ → ℕ → ℕ
md_blocks_of b n = (n / md_slots_per_block b + 1 + 1) % u32

-- The size in blocks, from one in sectors.
abbrev pub sized : CacheC → CacheC
sized d =
    let b = d.md_block_size in
    let md = md_blocks_of b (d.size / d.block_size) * b % u32 in
    let blocks = round_down d.assoc (sub_word u64 d.size md / d.block_size) in
    record d { size = blocks; md_blocks = md_blocks_of b blocks }

-- The cache structures are initialized.
abbrev pub init_blocks : CacheC → CacheC
init_blocks d =
    let b : CacheBlock = record zero_block { cache_state = invalid_state } in
    record d { cache = λ i. if ltb i d.size then b else zero_block }

-- cache_size, in sectors
abbrev pub cache_size : CacheC → ℕ
cache_size d = (md_sectors d + d.size * d.block_size) % u64

-- The cache is allocated and initialized.
abbrev pub new_cache : Machine → Exit Machine
new_cache x = vmalloc x >>= λ y. ok (record y { dmc = init_blocks y.dmc })

-- The sizes, with the check against the device.
abbrev pub take_size : Machine → Exit Machine
take_size x =
    let y : Machine = record x { dmc = sized x.dmc } in
    unless_failed (ltb x.cache_sectors (cache_size y.dmc)) y y

-- The superblock of a new cache; all its fields are set.
abbrev pub put_new_superblock : Machine → Exit Machine
put_new_superblock x =
    let y : Machine = record x { dmc = record x.dmc { on_ssd_version = flashcache_version } } in
    put_superblock (stored_header y SbState.dirty) y

-- The metadata of the new cache is written.
abbrev pub write_new : Machine → Exit Machine
write_new x = do
  y ← vmalloc x
  w ← write_metadata true y (x.fresh_slots x.vmallocs)
  put_new_superblock (machine_of y w)

-- flashcache_writeback_create
unfoldable pub writeback_create : Bool → Machine → Exit Machine
writeback_create force x = do
  x1 ← vmalloc x
  x2 ← read_io x1
  x3 ← unless_failed (not force && is_known_sb x2.superblock.cache_sb_state) x2 x2
  x4 ← take_size x3
  x5 ← new_cache x4
  write_new x5

-- flashcache_writethrough_create
unfoldable pub writethrough_create : Machine → Exit Machine
writethrough_create x = do
  let blocks = round_down x.dmc.assoc (x.dmc.size / x.dmc.block_size)
  let y : Machine = record x { dmc = record x.dmc { size = blocks } }
  x1 ← unless_failed (ltb x.cache_sectors (blocks * x.dmc.block_size % u64)) y y
  x2 ← new_cache x1
  ok (record x2 { dmc = record x2.dmc { md_blocks = 0 } })
