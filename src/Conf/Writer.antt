-- ===== src/Conf/Writer.antt =====
-- The loop that writes the slots of all blocks to the cache device, METADATA_IO_BLOCKSIZE bytes at
-- a time (src/flashcache_conf.c: flashcache_writeback_md_store, and flashcache_writeback_create,
-- which returns at the first error).
use flashcache_ubuntu_xenial.Prelude.{
  ℕ, zero, suc, ◌+◌, ◌-◌, ◌*◌, ◌/◌, ◌%◌, Bool, ◌&&◌, ltb, ◌==◌, if◌then◌else◌, update,
}
use flashcache_ubuntu_xenial.Io.Jobs.{MdSlot}
use flashcache_ubuntu_xenial.Conf.Machine.{
  Machine, Exit, ok, ◌>>=◌, verify, unless_failed, md_slots_per_block, metadata_io_num_blocks,
  write_slots, slot_of,
}

-- The local variables of the loop: `sector` is where.sector, and `next_ptr` is counted in slots;
-- `slots` and `ios` are what has become of those of the machine.
pub record Writer : Type 0 where
  pub slots : ℕ → MdSlot
  pub ios : ℕ
  pub buffer : ℕ → MdSlot
  pub next_ptr : ℕ
  pub j : ℕ
  pub slots_written : ℕ
  pub sector : ℕ
  pub sectors_written : ℕ
  pub write_errors : ℕ
  pub num_dirty : ℕ

-- The sectors that the slots of `n` blocks take.
abbrev pub sectors_of : ℕ → ℕ → ℕ
sectors_of b n = let k = md_slots_per_block b in if n % k == 0 then n / k * b else n / k * b + b

module _ (x : Machine) where
  abbrev pub machine_of : Writer → Machine
  machine_of w = record x { slots = w.slots; ios = w.ios }

  abbrev pub begin : (ℕ → MdSlot) → Writer
  begin buffer = record {
    slots = x.slots;
    ios = x.ios;
    buffer = buffer;
    next_ptr = 0;
    j = md_slots_per_block x.dmc.md_block_size;
    slots_written = 0;
    sector = x.dmc.md_block_size;
    sectors_written = 0;
    write_errors = 0;
    num_dirty = 0;
  }

  -- The slot of block i goes into the buffer.
  abbrev pub put_slot : ℕ → Writer → Writer
  put_slot i w = record w {
    buffer = update w.buffer w.next_ptr (slot_of (x.dmc.cache i));
    next_ptr = w.next_ptr + 1;
    j = w.j - 1;
    slots_written = w.slots_written + 1;
    num_dirty = if (x.dmc.cache i).cache_state.dirty then w.num_dirty + 1 else w.num_dirty;
  }

  -- The next slot pointer moves into the next metadata block.
  abbrev pub next_block : Writer → Writer
  next_block w =
      let n = md_slots_per_block x.dmc.md_block_size in
      record w { next_ptr = w.slots_written / n * n; j = n }

module _ (stop : Bool) (x : Machine) where
  -- A write of `count` sectors; the error is counted, or returned where `stop`.
  abbrev pub write_out : ℕ → Writer → Exit Writer
  write_out count w =
      let (y, error) = write_slots (machine_of x w) w.sector count w.buffer in
      unless_failed (stop && error) y (record w {
        slots = y.slots;
        ios = y.ios;
        sectors_written = w.sectors_written + count;
        write_errors = if error then w.write_errors + 1 else w.write_errors;
      })

  -- An entire metadata I/O block is written.
  abbrev pub write_full : Writer → Exit Writer
  write_full w =
      let b = x.dmc.md_block_size in
      let count = w.slots_written / md_slots_per_block b * b in
      write_out count (record w { slots_written = 0 }) >>= λ w'.
      ok (record w' { sector = w'.sector + count })

  -- What follows when a metadata block is filled.
  abbrev pub fill_block : Writer → Exit Writer
  fill_block w =
      let b = x.dmc.md_block_size in
      (if w.slots_written == md_slots_per_block b * metadata_io_num_blocks b
        then write_full w
        else ok w)
      >>= λ w'. ok (next_block x w')

  abbrev pub write_block : ℕ → Writer → Exit Writer
  write_block i w = let w' = put_slot x i w in if w'.j == 0 then fill_block w' else ok w'

  -- The loop over the blocks from i, of which n are left.
  unfoldable pub write_blocks : ℕ → ℕ → Writer → Exit Writer
  write_blocks zero i w = ok w
  write_blocks (suc n) i w = write_block i w >>= write_blocks n (suc i)

  -- The remaining blocks are written.
  abbrev pub write_rest : Writer → Exit Writer
  write_rest w =
      if w.next_ptr == 0
      then ok w
      else verify (ltb 0 w.slots_written) w
        >>= write_out (sectors_of x.dmc.md_block_size w.slots_written)

  -- The whole loop, with the panic on a sector mismatch.
  unfoldable pub write_metadata : (ℕ → MdSlot) → Exit Writer
  write_metadata buffer = do
    w ← write_blocks x.dmc.size 0 (begin x buffer)
    w' ← write_rest w
    verify (w'.sectors_written == sectors_of x.dmc.md_block_size x.dmc.size) w'
