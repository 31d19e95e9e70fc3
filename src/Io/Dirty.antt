-- ===== src/Io/Dirty.antt =====
-- The counter `nr_dirty` of a set (src/flashcache_main.c): flashcache_md_write_done keeps it in step with
-- the dirty blocks of the set.
use flashcache_ubuntu_xenial.Prelude.{
  ℕ, ◌+◌, ◌-◌, ◌*◌, ◌/◌, ◌%◌, ◌≤◌, ◌<◌, ◌≡◌, ◌≢◌, refl, sym, ap, subst, ◌∙◌, inl, inr, Bool, true,
  false, arith, some, ltb, if-true, if-false, if-eq, if-ne, guard-true, Bool-cases, eq-cases,
  div_index, tally, tally-same, tally-more, tally-le,
}
use flashcache_ubuntu_xenial.Device.{CacheC, CacheBlock, CacheSet, CacheState, u16}
use flashcache_ubuntu_xenial.Main.Lookup.{put_state}
use flashcache_ubuntu_xenial.Io.Jobs.{Driver, with_dmc, set_state, state_of}
use flashcache_ubuntu_xenial.Io.Complete.{
  mark_dirty, mark_not_dirty, inc_dirty, dec_dirty, positive,
}

abbrev pub is_dirty : CacheC → ℕ → ℕ → Bool
is_dirty d s j = (d.cache (s * d.assoc + j)).cache_state.dirty

-- The counter of set `s` is the number of its dirty blocks.
abbrev pub IsDirtyCounted : CacheC → ℕ → Type 0
IsDirtyCounted d s = (d.assoc ≤ 8192) × ((d.cache_sets s).nr_dirty ≡ tally (is_dirty d s) d.assoc)

-- The state of one block of the set is rewritten.
module _ (d : CacheC) (s j : ℕ) (st : CacheState) where
  abbrev i : ℕ
  i = s * d.assoc + j

  abbrev rewritten : CacheC
  rewritten = put_state d i st

  dirty_here : is_dirty rewritten s j ≡ st.dirty
  dirty_here = ap (λ (b : CacheBlock). b.cache_state.dirty) (if-eq i i _ _ refl)

  dirty_elsewhere : (k : ℕ) → k ≢ j → is_dirty rewritten s k ≡ is_dirty d s k
  dirty_elsewhere k ne =
      ap (λ (b : CacheBlock). b.cache_state.dirty)
        (if-ne i (s * d.assoc + k) _ (d.cache (s * d.assoc + k)) (λ e. ne (omega (arith, e))))

  same_dirty :
      st.dirty ≡ is_dirty d s j
      → tally (is_dirty rewritten s) d.assoc ≡ tally (is_dirty d s) d.assoc
  same_dirty e = tally-same (is_dirty d s) (is_dirty rewritten s) d.assoc λ k l.
      elim (eq-cases k j) [
        | inl h ↦ ap (is_dirty rewritten s) h ∙ dirty_here ∙ e ∙ ap (is_dirty d s) (sym h)
        | inr ne ↦ dirty_elsewhere k ne
      ]

  more_dirty :
      j < d.assoc
      → is_dirty d s j ≡ false
      → st.dirty ≡ true
      → tally (is_dirty rewritten s) d.assoc ≡ tally (is_dirty d s) d.assoc + 1
  more_dirty l a b =
      tally-more (is_dirty d s) (is_dirty rewritten s) j d.assoc l a (dirty_here ∙ b)
        dirty_elsewhere

  fewer_dirty :
      j < d.assoc
      → is_dirty d s j ≡ true
      → st.dirty ≡ false
      → tally (is_dirty d s) d.assoc ≡ tally (is_dirty rewritten s) d.assoc + 1
  fewer_dirty l a b =
      tally-more (is_dirty rewritten s) (is_dirty d s) j d.assoc l (dirty_here ∙ b) a
        (λ k ne. sym (dirty_elsewhere k ne))

-- When the metadata of a written block is on the device, the block becomes dirty, and the counter of
-- its set, of at most 8192 blocks, stays the number of its dirty blocks, whether or not the block
-- was dirty before.
pub mark_dirty-IsDirtyCounted :
    (x : Driver) (s j : ℕ)
    → j < x.dmc.assoc
    → IsDirtyCounted x.dmc s
    → ((state_of (mark_dirty x (s * x.dmc.assoc + j)) (s * x.dmc.assoc + j)).dirty ≡ true)
      × IsDirtyCounted (mark_dirty x (s * x.dmc.assoc + j)).dmc s
unfolding mark_dirty
mark_dirty-IsDirtyCounted x s j l (small, c) =
    let d = x.dmc in
    let n = d.assoc in
    let i = s * n + j in
    let st : CacheState = record (state_of x i) { dirty = true } in
    let set : i / n ≡ s = div_index s n j l in
    (
      ap (λ (b : CacheBlock). b.cache_state.dirty) (if-eq i i _ _ refl),
      elim (Bool-cases (state_of x i).dirty) [
        | inl t ↦
            subst (λ (k : CacheC). IsDirtyCounted (put_state k i st) s)
              (sym (if-true _ _ (inc_dirty d (i / n)) t))
              (small, c ∙ sym (same_dirty d s j st (sym t)))
        | inr f ↦
            let e : CacheC = inc_dirty d s in
            let m = more_dirty e s j st l f refl in
            let le = tally-le (is_dirty (put_state e i st) s) n in
            let now : (e.cache_sets s).nr_dirty ≡ ((d.cache_sets s).nr_dirty + 1) % u16 =
              ap (λ (k : CacheSet). k.nr_dirty) (if-eq s s _ (d.cache_sets s) refl) in
            subst (λ (k : CacheC). IsDirtyCounted (put_state k i st) s)
              (sym (if-false _ d _ f ∙ ap (inc_dirty d) set))
              (small, now ∙ omega (arith, m, le, c, small))
      ],
    )

-- When the metadata of a dirty block that was written to the disk is on the device, the assertions
-- on the counters hold if the counter of the whole cache is positive: the block is not dirty any
-- more, and the counter of its set, of at most 8192 blocks, stays the number of its dirty blocks.
pub mark_not_dirty-IsDirtyCounted :
    (x : Driver) (s j : ℕ)
    → j < x.dmc.assoc
    → IsDirtyCounted x.dmc s
    → (state_of x (s * x.dmc.assoc + j)).dirty ≡ true
    → positive x.dmc.nr_dirty ≡ true
    → (y : Driver) × (mark_not_dirty x (s * x.dmc.assoc + j) ≡ some y)
      × ((state_of y (s * x.dmc.assoc + j)).dirty ≡ false)
      × IsDirtyCounted y.dmc s
unfolding mark_not_dirty
mark_not_dirty-IsDirtyCounted x s j l (small, c) t p =
    let d = x.dmc in
    let n = d.assoc in
    let i = s * n + j in
    let st : CacheState = record (state_of x i) { dirty = false } in
    let set : i / n ≡ s = div_index s n j l in
    let y : Driver = set_state x i st in
    let m = fewer_dirty d s j st l t refl in
    let some_left : ltb 0 (d.cache_sets (i / n)).nr_dirty ≡ true =
      ap (λ k. ltb 0 (d.cache_sets k).nr_dirty) set ∙ ground (arith, m, c) in
    let now : ((dec_dirty y.dmc s).cache_sets s).nr_dirty ≡ (d.cache_sets s).nr_dirty - 1 =
      ap (λ (k : CacheSet). k.nr_dirty) (if-eq s s _ (d.cache_sets s) refl) in
    (
      with_dmc y (dec_dirty y.dmc s),
      guard-true _ _ _ some_left
          (guard-true _ _ _ p (ap (λ k. some (with_dmc y (dec_dirty y.dmc k))) set)),
      ap (λ (b : CacheBlock). b.cache_state.dirty) (if-eq i i _ _ refl),
      (small, now ∙ omega (arith, m, c)),
    )
