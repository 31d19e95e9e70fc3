-- ===== src/Main/Fallow.antt =====
-- The counter `dirty_fallow` of a set (src/flashcache_main.c): flashcache_detect_fallow and
-- flashcache_clear_fallow keep it in step with the marks of the set's blocks.
use flashcache_ubuntu_xenial.Prelude.{
  ℕ, ◌+◌, ◌-◌, ◌*◌, ◌/◌, ◌%◌, ◌≤◌, ◌<◌, ◌≡◌, ◌≢◌, refl, sym, ap, subst, ◌∙◌, inl, inr, Bool, true,
  false, not, ◌&&◌, arith, some, ltb, if-true, if-false, guard, ◌>>◌, guard-true, Bool-cases,
  eq-cases, div_index, tally, tally-same, tally-more, tally-le,
}
use flashcache_ubuntu_xenial.Device.{CacheC, CacheState, u16, block_io_in_prog, fallow_do_clean}
use flashcache_ubuntu_xenial.Main.Lookup.{
  detect_fallow, clear_fallow, is_write_back, put_state, put_fallow,
}

module _ (n : ℕ) where
  abbrev pub is_old : CacheC → ℕ → ℕ → Bool
  is_old d s j = (d.cache (s * n + j)).cache_state.dirty_fallow_2

  -- The counter of set `s` is the number of its blocks that are marked DIRTY_FALLOW_2.
  abbrev pub IsCounted : CacheC → ℕ → Type 0
  IsCounted d s =
      (d.assoc ≡ n) × (n ≤ 8192) × ((d.cache_sets s).dirty_fallow ≡ tally (is_old d s) n)

  -- A block's state is rewritten: the mark stays, is set, or is cleared.
  module _ (s j : ℕ) (d : CacheC) (st : CacheState) where
    abbrev marked : CacheC
    marked = put_state d (s * n + j) st

    marked_here : is_old marked s j ≡ st.dirty_fallow_2
    marked_here = ground arith

    marked_elsewhere : (k : ℕ) → k ≢ j → is_old marked s k ≡ is_old d s k
    marked_elsewhere k ne = ground (arith, ne)

    same_marks : st.dirty_fallow_2 ≡ is_old d s j → tally (is_old marked s) n ≡ tally (is_old d s) n
    same_marks e = tally-same (is_old d s) (is_old marked s) n λ k l. elim (eq-cases k j) [
      | inl ek ↦ ap (is_old marked s) ek ∙ marked_here ∙ e ∙ ap (is_old d s) (sym ek)
      | inr ne ↦ marked_elsewhere k ne
    ]

    more_marks :
        j < n
        → is_old d s j ≡ false
        → st.dirty_fallow_2 ≡ true
        → tally (is_old marked s) n ≡ tally (is_old d s) n + 1
    more_marks l a b =
        tally-more (is_old d s) (is_old marked s) j n l a (marked_here ∙ b) marked_elsewhere

    fewer_marks :
        j < n
        → is_old d s j ≡ true
        → st.dirty_fallow_2 ≡ false
        → tally (is_old d s) n ≡ tally (is_old marked s) n + 1
    fewer_marks l a b =
        tally-more (is_old marked s) (is_old d s) j n l (marked_here ∙ b) a
          (λ k ne. sym (marked_elsewhere k ne))

-- A detection keeps the counter of the set in step with the marks.
pub detect_fallow-IsCounted :
    (n s j : ℕ) (d : CacheC) → j < n → IsCounted n d s → IsCounted n (detect_fallow d (s * n + j)) s
unfolding detect_fallow
detect_fallow-IsCounted n s j d l (ea, small, c) =
    let i : ℕ = s * n + j in
    let st : CacheState = (d.cache i).cache_state in
    let set : i / d.assoc ≡ s = ap (λ a. i / a) ea ∙ div_index s n j l in
    let good = λ (x : CacheC). IsCounted n x s in
    elim (Bool-cases (is_write_back d.cache_mode && st.dirty && not (block_io_in_prog st))) [
      | inr f ↦ subst good (sym (if-false _ _ d f)) (ea, small, c)
      | inl t ↦ elim (Bool-cases (not st.dirty_fallow_1)) [
        | inl t1 ↦
            subst good (sym (if-true _ _ d t ∙ if-true _ _ _ t1))
              (ea, small, c ∙ sym (same_marks n s j d (record st { dirty_fallow_1 = true }) refl))
        | inr f1 ↦ elim (Bool-cases (not st.dirty_fallow_2)) [
          | inl t2 ↦
              let x : CacheC = put_fallow d s (((d.cache_sets s).dirty_fallow + 1) % u16) in
              let y : CacheState = record st { dirty_fallow_2 = true } in
              let m = more_marks n s j x y l (ground (arith, t2)) refl in
              let le = tally-le (is_old n (put_state x i y) s) n in
              let now : (x.cache_sets s).dirty_fallow ≡ ((d.cache_sets s).dirty_fallow + 1) % u16 =
                ground arith in
              subst good
                (sym (
                  if-true _ _ d t
                  ∙ if-false _ _ _ f1
                  ∙ if-true _ _ d t2
                  ∙ ap
                      (λ k.
                        put_state (put_fallow d k (((d.cache_sets k).dirty_fallow + 1) % u16)) i y)
                      set))
                (ea, small, now ∙ omega (arith, m, le, c, small))
          | inr f2 ↦
              subst good (sym (if-true _ _ d t ∙ if-false _ _ _ f1 ∙ if-false _ _ d f2))
                (ea, small, c)
        ]
      ]
    ]

-- A clearing succeeds: its assertion that the counter is positive holds, and the counter stays in step
-- with the marks.
pub clear_fallow-IsCounted :
    (n s j : ℕ) (d : CacheC)
    → j < n
    → IsCounted n d s
    → (d' : CacheC) × (clear_fallow d (s * n + j) ≡ some d') × IsCounted n d' s
unfolding clear_fallow
clear_fallow-IsCounted n s j d l (ea, small, c) =
    let i : ℕ = s * n + j in
    let st : CacheState = (d.cache i).cache_state in
    let y : CacheState = record st { dirty_fallow_1 = false; dirty_fallow_2 = false } in
    let set : i / d.assoc ≡ s = ap (λ a. i / a) ea ∙ div_index s n j l in
    elim (Bool-cases (is_write_back d.cache_mode && fallow_do_clean st)) [
      | inr f ↦ (d, if-false _ _ _ f, (ea, small, c))
      | inl t ↦ elim (Bool-cases st.dirty_fallow_2) [
        | inl t2 ↦
            let x : CacheC = put_fallow d s ((d.cache_sets s).dirty_fallow - 1) in
            let m = fewer_marks n s j x y l t2 refl in
            let now : (x.cache_sets s).dirty_fallow ≡ (d.cache_sets s).dirty_fallow - 1 =
              ground arith in
            let some_old : 0 < (d.cache_sets s).dirty_fallow = omega (arith, m, c) in
            (
              put_state x i y,
              if-true _ _ _ t
                  ∙ if-true _ _ _ t2
                  ∙ ap
                      (λ k.
                        guard (ltb 0 (d.cache_sets k).dirty_fallow)
                        >> some
                            (put_state (put_fallow d k ((d.cache_sets k).dirty_fallow - 1)) i y))
                      set
                  ∙ guard-true (ltb 0 (d.cache_sets s).dirty_fallow) _ _ (ground (arith, some_old))
                      refl,
              (ea, small, now ∙ omega (arith, m, c)),
            )
        | inr f2 ↦ (
          put_state d i y,
          if-true _ _ _ t ∙ if-false _ _ _ f2,
          (ea, small, c ∙ sym (same_marks n s j d y (sym f2))),
        )
      ]
    ]
