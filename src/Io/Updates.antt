-- ===== src/Io/Updates.antt =====
-- The updates that wait for a metadata block (src/flashcache_main.c): the end of
-- flashcache_md_write_done takes them up.
use flashcache_ubuntu_xenial.Prelude.{
  ℕ, ◌<◌, ◌≡◌, refl, sym, ap, subst, ◌∙◌, true, some, if-eq, guard-true, List, [], ◌∷◌,
}
use flashcache_ubuntu_xenial.Io.Jobs.{Driver, KcachedJob, MdSlot, MdBlockHead, Effect, can_alloc}
use flashcache_ubuntu_xenial.Io.Metadata.{
  index_to_md_block, index_to_md_block_offset, cached_slot, head_of, put_md_head, updates_md,
  md_write_kickoff, next_update,
}
use flashcache_ubuntu_xenial.Io.Image.{InBlock, final_slot, md_write_kickoff-final_slot}

-- The head of a metadata block whose write is done, with updates that came in the meantime.
abbrev pub written : List KcachedJob → MdBlockHead
written jobs = record { nr_in_prog = true; queued_updates = jobs; md_io_inprog = [] }

-- No queued update is left behind: when a metadata write is done and updates of the same metadata block
-- wait, and a page can be allocated, one more write is started at once, for the first of them; it carries
-- all of them, in the order of the queue, so that the slot of each block is what the cache says of the
-- block, changed by them, and the queue is empty.
pub next_update-final_slot :
    (old : ℕ → MdSlot) (x : Driver) (index : ℕ) (job : KcachedJob) (jobs : List KcachedJob)
    → 0 < x.dmc.md_slots
    → can_alloc x ≡ true
    → updates_md job.action ≡ true
    → InBlock x.dmc (index_to_md_block x.dmc index) (job ∷ jobs)
    → (y : Driver) × (slots : ℕ → MdSlot) × (next_update old x index (written (job ∷ jobs))
        ≡ some y)
      × (y.log ≡ Effect.write_md (index_to_md_block x.dmc job.index) slots job ∷ x.log)
      × ((head_of y job.index).md_io_inprog ≡ jobs)
      × ((head_of y job.index).queued_updates ≡ [])
      × ((i : ℕ)
          → i < x.dmc.size
          → index_to_md_block x.dmc i ≡ index_to_md_block x.dmc index
          → slots (index_to_md_block_offset x.dmc i) ≡ final_slot i (job ∷ jobs) (cached_slot x i))
unfolding next_update
next_update-final_slot old x index job jobs p a u (e, h) =
    let d = x.dmc in
    let x1 : Driver = put_md_head x index (written jobs) in
    let q : (head_of x1 job.index).queued_updates ≡ jobs =
      ap (λ (k : MdBlockHead). k.queued_updates)
        (if-eq (index_to_md_block d index) (index_to_md_block d job.index) (written jobs)
          (head_of x job.index) (sym e)) in
    let same : InBlock d (index_to_md_block d job.index) (head_of x1 job.index).queued_updates =
      subst (InBlock d (index_to_md_block d job.index)) (sym q)
        (subst (λ b. InBlock d b jobs) (sym e) h) in
    let (slots, l, m, r, s) = md_write_kickoff-final_slot old x1 job p a same in
    (
      md_write_kickoff old x1 job,
      slots,
      guard-true _ _ _ u refl,
      l,
      m ∙ q,
      r,
      λ i k b. s i k (b ∙ sym e) ∙ ap (λ js. final_slot i (job ∷ js) (cached_slot x i)) q,
    )
