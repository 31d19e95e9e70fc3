-- ===== src/Conf/Durable.antt =====
-- A write to the cache survives a crash: the metadata block that flashcache_md_write_kickoff writes
-- (src/flashcache_main.c), and the load after it (src/flashcache_conf.c).
use flashcache_ubuntu_xenial.Prelude.{
  ℕ, ◌+◌, ◌-◌, ◌*◌, ◌/◌, ◌%◌, ◌<◌, ◌≡◌, ◌≢◌, refl, sym, ap, subst, ◌∙◌, true, false, if-true, if-eq,
  if-ne, arith, List, [], ◌∷◌, All,
}
use native.Mathlib.Nat.{div-add-mod', mod-lt}
use flashcache_ubuntu_xenial.Io.Jobs.{Driver, KcachedJob, MdSlot, Effect, can_alloc, block}
use flashcache_ubuntu_xenial.Io.Metadata.{
  index_to_md_block, head_of, updated_slot, cached_slot, is_write_cache, md_write_kickoff,
}
use flashcache_ubuntu_xenial.Io.Image.{InBlock, final_slot, md_write_kickoff-final_slot}
use flashcache_ubuntu_xenial.Conf.Machine.{
  Machine, ok, md_slots_per_block, write_slots, changes, is_dirty_sb, slot_of, Superblock,
}
use flashcache_ubuntu_xenial.Conf.Load.{versioned, writeback_load}
use flashcache_ubuntu_xenial.Conf.Filling.{md_slots_per_block_lem, slots-sectors}
use flashcache_ubuntu_xenial.Conf.Marking.{slot_on, IsLoadable}
use flashcache_ubuntu_xenial.Conf.Recovery.{NeverFails, IsSameDevice}
use flashcache_ubuntu_xenial.Conf.Reboot.{crash-load}

-- The write of a metadata block of flashcache_md_write_kickoff, on the device of m.
abbrev pub md_written : Machine → ℕ → (ℕ → MdSlot) → Machine
md_written m md_block slots =
    let b = (versioned m.superblock).md_block_size in (write_slots m ((1 + md_block) * b) b slots).0

final_slot-others :
    (i : ℕ) (jobs : List KcachedJob) (s : MdSlot)
    → All (λ (j : KcachedJob). j.index ≢ i) jobs
    → final_slot i jobs s ≡ s
final_slot-others i [] s h = refl
final_slot-others i (j ∷ js) s (n, h) =
    ap (final_slot i js) (if-ne j.index i (updated_slot j s) s n) ∙ final_slot-others i js s h

-- The slot of a block after the write of its metadata block.
md_written-slot :
    (m : Machine) (i k : ℕ) (slots : ℕ → MdSlot)
    → k ≡ md_slots_per_block (versioned m.superblock).md_block_size
    → 0 < k
    → m.io_error m.ios ≡ false
    → (md_written m (i / k) slots).slots
        (md_slots_per_block (versioned m.superblock).md_block_size + i)
      ≡ slots (i % k)
md_written-slot m i k slots at p e =
    let b = (versioned m.superblock).md_block_size in
    let a = md_slots_per_block b + i in
    let q = i / k in
    let sector = (1 + q) * b in
    let whole : q * k + i % k ≡ i = div-add-mod' i k in
    let rest : i % k < k = mod-lt i p in
    let unit : md_slots_per_block b ≡ b * 32 = md_slots_per_block_lem b in
    let same : q * k ≡ q * md_slots_per_block b = ap (λ t. q * t) at in
    let start : sector * 32 ≡ md_slots_per_block b + q * k =
      omega (arith, same, slots-sectors q b, unit) in
    let c = changes m sector b a in
    let inside : c ≡ true = ground (arith, start, whole, rest, at, unit, e) in
    let place : a - sector * 32 ≡ i % k = omega (arith, start, whole) in
    if-true c (slots (a - sector * 32)) (m.slots a) inside ∙ ap slots place

-- The same cache, in memory and on the device.
pub record IsOnDevice (x : Driver) (m : Machine) : Type 0 where
  pub md_slots : x.dmc.md_slots ≡ md_slots_per_block (versioned m.superblock).md_block_size
  pub some : 0 < x.dmc.md_slots
  pub size : x.dmc.size ≡ (versioned m.superblock).size

-- A metadata write in the log has one set of slots.
write_md-slots :
    {b : ℕ} {slots slots' : ℕ → MdSlot} {job : KcachedJob} {l : List Effect}
    → Effect.write_md b slots job ∷ l ≡ Effect.write_md b slots' job ∷ l
    → slots ≡ slots'
write_md-slots e = cc

-- A write to the cache survives a crash once its metadata write has succeeded: if a job that wrote a
-- block of the cache starts the write of its metadata block with a page, the updates that wait are of
-- the same metadata block but of other blocks, that write with its slots takes place on a device with
-- the same sizes, and at the next load the device holds what the write left, with a DIRTY superblock
-- that the module accepts, metadata blocks with a size and no slot that is VALID and INVALID at once,
-- and nothing fails, then the load after the crash brings the block back VALID and DIRTY with its
-- sector.
pub md_write_kickoff-writeback_load :
    (old : ℕ → MdSlot) (x : Driver) (job : KcachedJob) (m z : Machine) (slots : ℕ → MdSlot)
    → IsOnDevice x m
    → job.index < x.dmc.size
    → is_write_cache job.action ≡ true
    → can_alloc x ≡ true
    → InBlock x.dmc (index_to_md_block x.dmc job.index) (head_of x job.index).queued_updates
    → All (λ (j : KcachedJob). j.index ≢ job.index) (head_of x job.index).queued_updates
    → (md_write_kickoff old x job).log
      ≡ Effect.write_md (index_to_md_block x.dmc job.index) slots job ∷ x.log
    → m.io_error m.ios ≡ false
    → IsSameDevice (md_written m (index_to_md_block x.dmc job.index) slots) z
    → IsLoadable z
    → is_dirty_sb (versioned z.superblock).cache_sb_state ≡ true
    → NeverFails z
    → (y : Machine) × (writeback_load z ≡ ok y)
      × (slot_of (y.dmc.cache job.index)
          ≡ record { dbn = (block x job.index).dbn; valid = true; invalid = false; dirty = true })
md_write_kickoff-writeback_load old x job m z slots on l w a block others logged e
      (same, same_slots) loadable crashed never =
    let i = job.index in
    let k = x.dmc.md_slots in
    let jobs = (head_of x i).queued_updates in
    let (slots', log, running, empty, final) =
      md_write_kickoff-final_slot old x job on.some a block in
    let mine = cached_slot x i in
    let updated : slots (i % k) ≡ updated_slot job mine =
      ap (λ f. f (i % k)) (write_md-slots (sym logged ∙ log))
      ∙ final i l refl
      ∙ ap (final_slot i jobs) (if-eq i i (updated_slot job mine) mine refl)
      ∙ final_slot-others i jobs (updated_slot job mine) others in
    let written : slots (i % k) ≡ record (updated_slot job mine) { dirty = true } =
      updated ∙ ap (λ t. record (updated_slot job mine) { dirty = t }) w in
    let (y, done, kept, lost) = crash-load z loadable crashed never in
    let header : versioned z.superblock ≡ versioned m.superblock = ap versioned same in
    let b = ap (λ (h : Superblock). md_slots_per_block h.md_block_size) header in
    let here : slot_on z i ≡ record (updated_slot job mine) { dirty = true } =
      ap (λ t. z.slots (t + i)) b
      ∙ ap (λ f. f (md_slots_per_block (versioned m.superblock).md_block_size + i)) same_slots
      ∙ md_written-slot m i k slots on.md_slots on.some e
      ∙ written in
    let inside : i < (versioned z.superblock).size =
      subst (λ n. i < n) (on.size ∙ sym (ap (λ (h : Superblock). h.size) header)) l in
    (y, done, kept i inside (ap (λ (s : MdSlot). s.dirty) here) ∙ here)
