-- ===== src/Io/Metadata.antt =====
-- Updates of the metadata on the device (src/flashcache_main.c): the queue of updates of a metadata
-- block, and the block that is written. `none` is a failed VERIFY.
use flashcache_ubuntu_xenial.Prelude.{
  ℕ, ◌+◌, ◌*◌, ◌/◌, ◌%◌, Bool, true, false, ◌&&◌, Option, some, ltb, if◌then◌else◌, guard, ◌>>◌,
  update, List, [], ◌∷◌, ◌++◌,
}
use flashcache_ubuntu_xenial.Device.{CacheC}
use flashcache_ubuntu_xenial.Io.Jobs.{
  Driver, KcachedJob, Action, MdSlot, MdBlockHead, Effect, emit, can_alloc, after_alloc, state_of,
  block,
}

-- INDEX_TO_MD_BLOCK and INDEX_TO_MD_BLOCK_OFFSET
abbrev pub index_to_md_block : CacheC → ℕ → ℕ
index_to_md_block d index = index / d.md_slots

abbrev pub index_to_md_block_offset : CacheC → ℕ → ℕ
index_to_md_block_offset d index = index % d.md_slots

-- The actions that update metadata: WRITEDISK, WRITECACHE and WRITEDISK_SYNC.
abbrev pub updates_md : Action → Bool
updates_md Action.write_disk = true
updates_md Action.write_cache = true
updates_md Action.write_disk_sync = true
updates_md Action.read_cache = false
updates_md Action.read_disk = false
updates_md Action.read_fill = false
updates_md Action.invalidate = false

abbrev pub is_write_cache : Action → Bool
is_write_cache Action.write_cache = true
is_write_cache Action.write_disk = false
is_write_cache Action.write_disk_sync = false
is_write_cache Action.read_cache = false
is_write_cache Action.read_disk = false
is_write_cache Action.read_fill = false
is_write_cache Action.invalidate = false

abbrev pub head_of : Driver → ℕ → MdBlockHead
head_of x index = x.md_blocks_buf (index_to_md_block x.dmc index)

abbrev pub put_md_head : Driver → ℕ → MdBlockHead → Driver
put_md_head x index h = record x {
  md_blocks_buf = update x.md_blocks_buf (index_to_md_block x.dmc index) h;
}

abbrev pub push_md_io : Driver → KcachedJob → Driver
push_md_io x job = record x { md_io_jobs = x.md_io_jobs ++ job ∷ [] }

-- flashcache_md_write
unfoldable pub md_write : Driver → KcachedJob → Option Driver
md_write x job =
    let h = head_of x job.index in
    guard (updates_md job.action)
    >> some (
        if h.nr_in_prog
        then put_md_head x job.index (record h { queued_updates = h.queued_updates ++ job ∷ [] })
        else push_md_io (put_md_head x job.index (record h { nr_in_prog = true })) job)

-- flashcache_md_write_callback
unfoldable pub md_write_callback : Driver → Bool → KcachedJob → Driver
md_write_callback x error job = record x {
  md_complete_jobs = x.md_complete_jobs ++ record job { error = error } ∷ [];
}

-- A slot as the cache has it.
abbrev pub cached_slot : Driver → ℕ → MdSlot
cached_slot x index = record {
  dbn = (block x index).dbn;
  valid = (state_of x index).valid;
  invalid = (state_of x index).invalid;
  dirty = (state_of x index).dirty;
}

-- A slot as a job makes it: VALID | DIRTY for a write to the cache, and VALID for one to the disk.
abbrev pub updated_slot : KcachedJob → MdSlot → MdSlot
updated_slot job s = record s { valid = true; invalid = false; dirty = is_write_cache job.action }

-- The first loop of flashcache_md_write_kickoff: the slots that stand for blocks of the cache.
abbrev pub copied_slots : Driver → ℕ → (ℕ → MdSlot) → ℕ → MdSlot
copied_slots x md_block old i =
    if ltb i x.dmc.md_slots && ltb (md_block * x.dmc.md_slots + i) x.dmc.size
    then cached_slot x (md_block * x.dmc.md_slots + i)
    else old i

-- The update of its slot for one job, and for a list of jobs, the first before the others.
abbrev pub apply_update : CacheC → KcachedJob → (ℕ → MdSlot) → ℕ → MdSlot
apply_update d job slots =
    let o = index_to_md_block_offset d job.index in update slots o (updated_slot job (slots o))

unfoldable pub apply_updates : CacheC → List KcachedJob → (ℕ → MdSlot) → ℕ → MdSlot
apply_updates d [] slots = slots
apply_updates d (job ∷ jobs) slots = apply_updates d jobs (apply_update d job slots)

-- flashcache_md_write_kickoff; `old` is what the new page holds.
unfoldable pub md_write_kickoff : (ℕ → MdSlot) → Driver → KcachedJob → Driver
md_write_kickoff old x job =
    let y = after_alloc x in
    let b = index_to_md_block x.dmc job.index in
    let h = head_of x job.index in
    let slots =
      apply_updates x.dmc h.queued_updates (apply_update x.dmc job (copied_slots x b old)) in
    let y' =
      put_md_head y job.index (record h { md_io_inprog = h.queued_updates; queued_updates = [] }) in
    if can_alloc x then emit y' (Effect.write_md b slots job) else md_write_callback y true job

-- The end of flashcache_md_write_done: the next update is taken up, or none is in progress.
unfoldable pub next_update : (ℕ → MdSlot) → Driver → ℕ → MdBlockHead → Option Driver
next_update old x index h = elim h.queued_updates [
  | [] ↦ some (put_md_head x index (record h { nr_in_prog = false }))
  | job ∷ jobs ↦
      guard (updates_md job.action)
      >> some (md_write_kickoff old (put_md_head x index (record h { queued_updates = jobs })) job)
]
