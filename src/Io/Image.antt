-- ===== src/Io/Image.antt =====
-- The metadata block that flashcache_md_write_kickoff writes (src/flashcache_main.c).
use flashcache_ubuntu_xenial.Prelude.{
  ℕ, ◌+◌, ◌*◌, ◌/◌, ◌%◌, ◌<◌, ◌≡◌, refl, sym, ap, subst, ◌∙◌, inl, inr, true, ◌&&◌, arith, ◌==◌,
  if◌then◌else◌, if-true, if-eq, if-ne, eq-cases, ltb, List, [], ◌∷◌, All,
}
use native.Mathlib.Nat.{div-add-mod', mod-lt}
use flashcache_ubuntu_xenial.Device.{CacheC}
use flashcache_ubuntu_xenial.Io.Jobs.{Driver, KcachedJob, MdSlot, MdBlockHead, Effect, can_alloc}
use flashcache_ubuntu_xenial.Io.Metadata.{
  index_to_md_block, index_to_md_block_offset, updated_slot, cached_slot, copied_slots,
  apply_update, apply_updates, md_write_kickoff, head_of,
}

-- The slot of a block after the updates of a list of jobs, in their order.
abbrev pub final_slot : ℕ → List KcachedJob → MdSlot → MdSlot
final_slot index [] s = s
final_slot index (job ∷ jobs) s =
    final_slot index jobs (if job.index == index then updated_slot job s else s)

-- Two blocks in the same place of the same metadata block are the same.
same_index : (a b m : ℕ) → a / m ≡ b / m → a % m ≡ b % m → a ≡ b
same_index a b m q r =
    sym (div-add-mod' a m)
    ∙ ap (λ t. t * m + a % m) q
    ∙ ap (λ t. b / m * m + t) r
    ∙ div-add-mod' b m

-- The jobs of a list update one metadata block.
abbrev pub InBlock : CacheC → ℕ → List KcachedJob → Type 0
InBlock d b jobs = All (λ (j : KcachedJob). index_to_md_block d j.index ≡ b) jobs

apply_updates-final_slot :
    (d : CacheC) (i : ℕ) (jobs : List KcachedJob) (slots : ℕ → MdSlot)
    → InBlock d (index_to_md_block d i) jobs
    → apply_updates d jobs slots (index_to_md_block_offset d i)
      ≡ final_slot i jobs (slots (index_to_md_block_offset d i))
unfolding apply_updates
apply_updates-final_slot d i [] slots h = refl
apply_updates-final_slot d i (j ∷ js) slots (e, h) =
    let o = index_to_md_block_offset d i in
    apply_updates-final_slot d i js (apply_update d j slots) h
    ∙ ap (final_slot i js) (elim (eq-cases j.index i) [
      | inl q ↦
          if-eq (index_to_md_block_offset d j.index) o _ _ (ap (index_to_md_block_offset d) q)
          ∙ ap (λ k. updated_slot j (slots (index_to_md_block_offset d k))) q
          ∙ sym (if-eq j.index i _ (slots o) q)
      | inr n ↦
          if-ne (index_to_md_block_offset d j.index) o _ _
            (λ r. n (same_index j.index i d.md_slots e r))
          ∙ sym (if-ne j.index i _ (slots o) n)
    ])

-- The slot of a block of the cache, before the updates.
copied_slots-cached_slot :
    (x : Driver) (old : ℕ → MdSlot) (b i : ℕ)
    → 0 < x.dmc.md_slots
    → i < x.dmc.size
    → index_to_md_block x.dmc i ≡ b
    → copied_slots x b old (index_to_md_block_offset x.dmc i) ≡ cached_slot x i
copied_slots-cached_slot x old b i p l e =
    let m = x.dmc.md_slots in
    let at : b * m + i % m ≡ i = ap (λ t. t * m + i % m) (sym e) ∙ div-add-mod' i m in
    if-true (ltb (i % m) m && ltb (b * m + i % m) x.dmc.size) _ (old (i % m))
      (ground (arith, mod-lt i p, at, l))
    ∙ ap (cached_slot x) at

-- A metadata write that gets a page carries every queued update, if these are of the same metadata
-- block: the slot of each block of the metadata block is what the cache says of the block, changed
-- by the updates of that block in the order of the queue, the write's own job first; the queued jobs
-- are in progress with it, and the queue is empty.
pub md_write_kickoff-final_slot :
    (old : ℕ → MdSlot) (x : Driver) (job : KcachedJob)
    → 0 < x.dmc.md_slots
    → can_alloc x ≡ true
    → InBlock x.dmc (index_to_md_block x.dmc job.index) (head_of x job.index).queued_updates
    → (slots : ℕ → MdSlot) × ((md_write_kickoff old x job).log
        ≡ Effect.write_md (index_to_md_block x.dmc job.index) slots job ∷ x.log)
      × ((head_of (md_write_kickoff old x job) job.index).md_io_inprog
          ≡ (head_of x job.index).queued_updates)
      × ((head_of (md_write_kickoff old x job) job.index).queued_updates ≡ [])
      × ((i : ℕ)
          → i < x.dmc.size
          → index_to_md_block x.dmc i ≡ index_to_md_block x.dmc job.index
          → slots (index_to_md_block_offset x.dmc i)
            ≡ final_slot i (job ∷ (head_of x job.index).queued_updates) (cached_slot x i))
unfolding md_write_kickoff apply_updates
md_write_kickoff-final_slot old x job p a h =
    let d = x.dmc in
    let b = index_to_md_block d job.index in
    let js = (head_of x job.index).queued_updates in
    let slots : ℕ → MdSlot = apply_updates d (job ∷ js) (copied_slots x b old) in
    let running = if-true _ _ _ a in
    (
      slots,
      ap (λ (z : Driver). z.log) running,
      ap (λ (z : Driver). (head_of z job.index).md_io_inprog) running
          ∙ ap (λ (k : MdBlockHead). k.md_io_inprog) (if-eq b b _ _ refl),
      ap (λ (z : Driver). (head_of z job.index).queued_updates) running
          ∙ ap (λ (k : MdBlockHead). k.queued_updates) (if-eq b b _ _ refl),
      λ i l e.
          let in_block : InBlock d (index_to_md_block d i) (job ∷ js) =
            (sym e, subst (λ k. InBlock d k js) (sym e) h) in
          apply_updates-final_slot d i (job ∷ js) (copied_slots x b old) in_block
          ∙ ap (final_slot i (job ∷ js)) (copied_slots-cached_slot x old b i p l e),
    )
