-- ===== src/Pfd/Runs.antt =====
-- Well-formed entries of src/pfd_stat.c, and the branches of a request one by one.
use flashcache_ubuntu_xenial.Prelude.{
  ℕ, ◌+◌, ◌/◌, ◌^◌, ◌≤◌, ◌<◌, ◌≡◌, ◌⊎◌, inl, inr, refl, sym, subst, ◌∙◌, if-true, if-false, ap,
  arith, ℤ, pos, ◌⊖◌, abs, Bool-cases, ◌==◌, leb, ◌||◌,
}
use flashcache_ubuntu_xenial.Device.{CacheC}
use flashcache_ubuntu_xenial.Pfd.Stat.{
  PfdSeqStat, PfdStat, curr_of, prev_of, continue_run, put_seq, reset_pfd_seq_stat,
  swap_pfd_stat_curr_prev, no_stride, restart, reset_prev,
}

-- `curr` and `prev` are the two different runs of the entry.
abbrev pub TwoRuns : PfdStat → Type 0
TwoRuns s =
    ((s.curr_seq_stat ≡ 0) × (s.prev_seq_stat ≡ 1))
    ⊎ ((s.curr_seq_stat ≡ 1) × (s.prev_seq_stat ≡ 0))

-- An empty current run has no previous run. Without a previous run there is no stride. With one, the current run is at most as long, the
-- stride leads from the start of the one to the start of the other, and it is not shorter than the
-- previous run.
pub record IsPattern (d : CacheC) (s : PfdStat) : Type 0 where
  pub runs : TwoRuns s
  pub fresh : (curr_of s).count ≡ 0 → (prev_of s).count ≡ 0
  pub no_previous : (prev_of s).count ≡ 0 → (s.stride ≡ pos 0) × (s.stride_count ≡ 0)
  pub previous :
      0 < (prev_of s).count
      → ((curr_of s).count ≤ (prev_of s).count)
        × (s.stride ≡ (curr_of s).start ⊖ (prev_of s).start)
        × ((prev_of s).count ≤ abs s.stride / 2 ^ d.block_shift)
        × (0 < s.stride_count)

-- An entry by its parts.
module _ (d : CacheC) where
  -- The two runs, the stride and its count of a well-formed entry whose current run is not empty.
  abbrev Runs : PfdSeqStat → PfdSeqStat → ℤ → ℕ → Type 0
  Runs c p stride n =
      (0 < c.count)
      × (p.count ≡ 0 → (stride ≡ pos 0) × (n ≡ 0))
      × (0 < p.count
          → (c.count ≤ p.count)
            × (stride ≡ c.start ⊖ p.start)
            × (p.count ≤ abs stride / 2 ^ d.block_shift)
            × (0 < n))

  -- Writing the current run, and the previous one.
  pub written :
      (s : PfdStat) (c : PfdSeqStat)
      → TwoRuns s
      → (curr_of (put_seq s s.curr_seq_stat c) ≡ c)
        × (prev_of (put_seq s s.curr_seq_stat c) ≡ prev_of s)
  written s c r = ground arith

  pub rewritten :
      (s : PfdStat) (p : PfdSeqStat)
      → TwoRuns s
      → (prev_of (put_seq s s.prev_seq_stat p) ≡ p)
        × (curr_of (put_seq s s.prev_seq_stat p) ≡ curr_of s)
  rewritten s p r = ground arith

  pub assembled :
      (s : PfdStat) (c p : PfdSeqStat) (stride : ℤ) (n : ℕ)
      → TwoRuns s
      → curr_of s ≡ c
      → prev_of s ≡ p
      → s.stride ≡ stride
      → s.stride_count ≡ n
      → Runs c p stride n
      → IsPattern d s × (0 < (curr_of s).count)
  assembled s c p stride n r ec ep es en h = (
    record {
      runs = r;
      fresh = λ e. absurd (omega (arith, h.0, e, ap (λ t. t.count) ec));
      no_previous = rw (ep, es, en) h.1;
      previous = rw (ec, ep, es, en) h.2;
    },
    rw ec h.0,
  )

  module _ (s : PfdStat) (sector : ℕ) (v : IsPattern d s) where
    -- Each branch of the request.
    pub started :
        (curr_of s).count ≡ 0
        → IsPattern d
            (put_seq s s.curr_seq_stat (record { start = sector; count = (curr_of s).count + 1 }))
          × (0
              < (curr_of (
                  put_seq s s.curr_seq_stat
                    (record { start = sector; count = (curr_of s).count + 1 }))).count)
    started e =
        let (a, b) = written s (record { start = sector; count = (curr_of s).count + 1 }) v.runs in
        assembled _ _ _ _ _ v.runs a b refl refl
          (omega arith, v.no_previous, λ h. absurd (omega (arith, h, v.fresh e)))

    pub swapped : TwoRuns (swap_pfd_stat_curr_prev s)
    swapped = ground (arith, v.runs)

    -- The request continues the run.
    module _ (some_run : 0 < (curr_of s).count) where
      abbrev longer : PfdSeqStat
      longer = record (curr_of s) { count = (curr_of s).count + 1 }

      abbrev grown : PfdStat
      grown = put_seq s s.curr_seq_stat longer

      kept :
          ((prev_of s).count ≡ 0) ⊎ ((curr_of s).count + 1 ≤ (prev_of s).count)
          → IsPattern d grown × (0 < (curr_of grown).count)
      kept h =
          let (a, b) = written s longer v.runs in
          assembled grown longer (prev_of s) s.stride s.stride_count v.runs a b refl refl (
            omega arith,
            v.no_previous,
            λ pos. let (x, y, z, w) = v.previous pos in (omega (arith, h, pos), y, z, w),
          )

      outgrown :
          IsPattern d (no_stride (reset_prev grown))
          × (0 < (curr_of (no_stride (reset_prev grown))).count)
      outgrown =
          let (a, b) = written s longer v.runs in
          let (x, y) = rewritten grown (reset_pfd_seq_stat (prev_of grown)) v.runs in
          assembled (no_stride (reset_prev grown)) longer (reset_pfd_seq_stat (prev_of grown))
            (pos 0) 0 v.runs (y ∙ a) x refl refl
            (omega arith, λ e. (refl, refl), λ h. absurd (omega (arith, h)))

      pub continued : IsPattern d (continue_run s) × (0 < (curr_of (continue_run s)).count)
      continued =
          elim (Bool-cases
            ((prev_of s).count == 0 || leb ((curr_of s).count + 1) (prev_of s).count)) [
              | inl t ↦
                  subst (λ u. IsPattern d u × (0 < (curr_of u).count)) (sym (if-true _ grown _ t))
                    (kept (ground (arith, t)))
              | inr f ↦
                  subst (λ u. IsPattern d u × (0 < (curr_of u).count)) (sym (if-false _ grown _ f))
                    outgrown
            ]

      -- The request starts another run.
      abbrev first_of : PfdSeqStat
      first_of = record { start = sector; count = 1 }

      pub restarted :
          (prev_of s).count ≡ 0
          → IsPattern d (no_stride (restart s sector))
            × (0 < (curr_of (no_stride (restart s sector))).count)
      restarted e =
          let (a, b) = written s first_of v.runs in
          assembled (no_stride (restart s sector)) first_of (prev_of s) (pos 0) 0 v.runs a b refl
            refl (omega arith, λ _. (refl, refl), λ h. absurd (omega (arith, h, e)))

      abbrev pub jumped : ℤ → ℕ → PfdStat
      jumped stride n = record (restart (swap_pfd_stat_curr_prev s) sector) {
        stride = stride;
        stride_count = n;
      }

      pub jumped-IsPattern :
          (n : ℕ)
          → 0 < n
          → (curr_of s).count ≤ abs (sector ⊖ (curr_of s).start) / 2 ^ d.block_shift
          → IsPattern d (jumped (sector ⊖ (curr_of s).start) n)
            × (0 < (curr_of (jumped (sector ⊖ (curr_of s).start) n)).count)
      jumped-IsPattern n p far =
          let (a, b) = written (swap_pfd_stat_curr_prev s) first_of swapped in
          assembled (jumped (sector ⊖ (curr_of s).start) n) first_of (curr_of s) _ n swapped a b
            refl refl
            (
              omega arith,
              λ e. absurd (omega (arith, e, some_run)),
              λ h. (omega (arith, some_run), refl, far, p),
            )

      abbrev pub forgot : PfdStat
      forgot = no_stride (restart (reset_prev (swap_pfd_stat_curr_prev s)) sector)

      pub forgot-IsPattern : IsPattern d forgot × (0 < (curr_of forgot).count)
      forgot-IsPattern =
          let other : PfdStat = swap_pfd_stat_curr_prev s in
          let (x, y) = rewritten other (reset_pfd_seq_stat (prev_of other)) swapped in
          let (a, b) = written (reset_prev other) first_of swapped in
          assembled forgot first_of (reset_pfd_seq_stat (prev_of other)) (pos 0) 0 swapped a (b ∙ x)
            refl refl (omega arith, λ e. (refl, refl), λ h. absurd (omega (arith, h)))
