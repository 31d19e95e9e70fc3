-- ===== src/Io/Choice.antt =====
-- flashcache_clean_set keeps to the limits on writes in progress (src/flashcache_main.c): its loops.
use flashcache_ubuntu_xenial.Prelude.{
  ℕ, zero, suc, ◌+◌, ◌*◌, ◌≡◌, refl, sym, ap, subst, ◌∙◌, inl, inr, Bool, true, false, not, ◌&&◌,
  ◌||◌, arith, Option, some, none, ltb, ◌==◌, if◌then◌else◌, if-true, if-false, if-eq, Bool-cases,
  bind-inverse, guard-inverse, some-injective, [],
}
use flashcache_ubuntu_xenial.Device.{null, set_set, CacheC, CacheSet, block_io_in_prog}
use flashcache_ubuntu_xenial.Main.Lookup.{is_lru}
use flashcache_ubuntu_xenial.Io.Cleaning.{
  Chosen, Fallow, nr_writes, can_clean, choose, choose_dirty, sweep, fallow_from, thresholds,
  clean_fifo, clean_lru, clean_lists, by_policy, choose_blocks,
}
use flashcache_ubuntu_xenial.Io.Limits.{
  limits, limits_of, IsLimited, sweep-IsSteady, choose-IsLimited, choose_dirty-IsLimited,
}

module _ (d : CacheC) (set : ℕ) where
  fallow_from-IsLimited :
      (due : Bool) (left : ℕ) (c c' : Chosen) (i : ℕ) (stop : Bool)
      → IsLimited d set c
      → fallow_from due left set c i ≡ some (c', stop)
      → IsLimited d set c'
  unfolding fallow_from
  fallow_from-IsLimited due zero c c' i stop h e =
      subst (IsLimited d set) (ap (λ (r : Chosen × Bool). r.0) (some-injective _ _ e)) h
  fallow_from-IsLimited due (suc left) c c' i stop h e =
      let s = (c.dmc.cache i).cache_state in
      elim (Bool-cases (not due || not (ltb 0 (c.dmc.cache_sets set).dirty_fallow))) [
        | inl t ↦
            subst (IsLimited d set)
              (ap (λ (r : Chosen × Bool). r.0) (some-injective _ _ (sym (if-true _ _ _ t) ∙ e))) h
        | inr f ↦
            let e1 = sym (if-false _ _ _ f) ∙ e in
            elim (Bool-cases (not s.dirty_fallow_2)) [
              | inl t ↦
                  fallow_from-IsLimited due left c c' (i + 1) stop h (sym (if-true _ _ _ t) ∙ e1)
              | inr f2 ↦
                  let e2 = sym (if-false _ _ _ f2) ∙ e1 in
                  elim (Bool-cases (can_clean c.dmc set (nr_writes c))) [
                    | inr full ↦
                        subst (IsLimited d set)
                          (ap (λ (r : Chosen × Bool). r.0)
                            (some-injective _ _ (sym (if-true _ _ _ (ap not full)) ∙ e2)))
                          h
                    | inl can ↦
                        let e3 =
                          (guard-inverse s.dirty _ _ (sym (if-false _ _ _ (ap not can)) ∙ e2)).1 in
                        let e4 = (guard-inverse (not (block_io_in_prog s)) _ _ e3).1 in
                        let (c1, ec, r) = bind-inverse (choose c i) _ _ e4 in
                        fallow_from-IsLimited due left c1 c' (i + 1) stop
                          (choose-IsLimited d set c c1 i h can ec) r
                  ]
            ]
      ]

  clean_fifo-IsLimited :
      (left threshold : ℕ) (c c' : Chosen) (i j : ℕ)
      → IsLimited d set c
      → clean_fifo left set threshold c i ≡ some (c', j)
      → IsLimited d set c'
  unfolding clean_fifo
  clean_fifo-IsLimited zero threshold c c' i j h e =
      subst (IsLimited d set) (ap (λ (r : Chosen × ℕ). r.0) (some-injective _ _ e)) h
  clean_fifo-IsLimited (suc left) threshold c c' i j h e =
      elim (Bool-cases (can_clean c.dmc set (nr_writes c) && ltb (nr_writes c) threshold)) [
        | inr f ↦
            subst (IsLimited d set)
              (ap (λ (r : Chosen × ℕ). r.0) (some-injective _ _ (sym (if-false _ _ _ f) ∙ e))) h
        | inl t ↦
            let (c1, ec, r) = bind-inverse (choose_dirty c i) _ _ (sym (if-true _ _ _ t) ∙ e) in
            clean_fifo-IsLimited left threshold c1 c' _ j
              (choose_dirty-IsLimited d set c c1 i h (ground (arith, t)) ec) r
      ]

  clean_lru-IsLimited :
      (fuel threshold force : ℕ) (c c' : Chosen) (scanned rel m : ℕ) (stop : Bool)
      → IsLimited d set c
      → clean_lru fuel set threshold force c scanned rel ≡ some (c', m, stop)
      → IsLimited d set c'
  unfolding clean_lru
  clean_lru-IsLimited zero threshold force c c' scanned rel m stop h e = absurd (cc e)
  clean_lru-IsLimited (suc fuel) threshold force c c' scanned rel m stop h e =
      let i = rel + set * c.dmc.assoc in
      let first = λ (r : Chosen × ℕ × Bool). r.0 in
      elim (Bool-cases
        (rel == null || not (can_clean c.dmc set (nr_writes c) && ltb (nr_writes c) threshold))) [
          | inl t ↦
              subst (IsLimited d set) (ap first (some-injective _ _ (sym (if-true _ _ _ t) ∙ e))) h
          | inr f ↦
              let (c1, ec, r) = bind-inverse (choose_dirty c i) _ _ (sym (if-false _ _ _ f) ∙ e) in
              let h1 : IsLimited d set c1 =
                choose_dirty-IsLimited d set c c1 i h (ground (arith, f)) ec in
              elim (Bool-cases (ltb 0 force && scanned + 1 == force)) [
                | inl t ↦
                    subst (IsLimited d set)
                      (ap first (some-injective _ _ (sym (if-true _ _ _ t) ∙ r))) h1
                | inr g ↦
                    clean_lru-IsLimited fuel threshold force c1 c' (scanned + 1) _ m stop h1
                      (sym (if-false _ _ _ g) ∙ r)
              ]
        ]

  clean_lists-IsLimited :
      (threshold force : ℕ) (c c' : Chosen)
      → IsLimited d set c
      → clean_lists set threshold force c ≡ some c'
      → IsLimited d set c'
  unfolding clean_lists
  clean_lists-IsLimited threshold force c c' h e =
      let ((c1, n1, stop), e1, r1) =
        bind-inverse
          (clean_lru (suc c.dmc.assoc) set threshold force c 0
            (c.dmc.cache_sets set).warmlist_lru_head)
          _ _ e in
      let h1 : IsLimited d set c1 = clean_lru-IsLimited _ threshold force c c1 0 _ n1 stop h e1 in
      elim (Bool-cases stop) [
        | inl t ↦ subst (IsLimited d set) (some-injective _ _ (sym (if-true _ _ _ t) ∙ r1)) h1
        | inr f ↦
            let ((c2, n2, b), e2, r2) =
              bind-inverse
                (clean_lru (suc c1.dmc.assoc) set threshold force c1 n1
                  (c1.dmc.cache_sets set).hotlist_lru_head)
                _ _ (sym (if-false _ _ _ f) ∙ r1) in
            subst (IsLimited d set) (some-injective _ _ r2)
              (clean_lru-IsLimited _ threshold force c1 c2 n1 _ n2 b h1 e2)
      ]

  by_policy-IsLimited :
      (threshold force : ℕ) (c c' : Chosen)
      → IsLimited d set c
      → by_policy set (threshold, force) c ≡ some c'
      → IsLimited d set c'
  unfolding by_policy
  by_policy-IsLimited threshold force c c' h e =
      elim (Bool-cases (is_lru c.dmc.sysctl_reclaim_policy)) [
        | inl t ↦ clean_lists-IsLimited threshold force c c' h (sym (if-true _ _ _ t) ∙ e)
        | inr f ↦
            let ((c1, i), e1, r1) =
              bind-inverse
                (clean_fifo c.dmc.assoc set threshold c (c.dmc.cache_sets set).set_clean_next) _ _
                (sym (if-false _ _ _ f) ∙ e) in
            subst (IsLimited d set) (some-injective _ _ r1)
              (moved c1 i (clean_fifo-IsLimited _ threshold c c1 _ i h e1))
      ]
    where
      moved :
          (c1 : Chosen) (i : ℕ)
          → IsLimited d set c1
          → IsLimited d set (record c1 {
            dmc = set_set c1.dmc set (record (c1.dmc.cache_sets set) { set_clean_next = i });
          })
      moved c1 i (w, l) =
          let same =
            if-eq set set (record (c1.dmc.cache_sets set) { set_clean_next = i })
              (c1.dmc.cache_sets set) refl in
          let n = ap (λ (k : CacheSet). k.clean_inprog) same in
          (
            elim w [ inl z ↦ inl z | inr (a, b) ↦ inr (omega (arith, n, a), b) ],
            ap (limits_of c1.dmc) n ∙ l,
          )

-- The blocks that flashcache_clean_set chooses, before it looks for their neighbours, keep to the
-- limits: if there are any, they and the writes in progress are at most max_clean_ios_set for the set
-- and max_clean_ios_total for the cache, in every policy and whether or not cleaning is forced, and the
-- choice leaves these numbers alone.
pub choose_blocks-IsLimited :
    (f : Fallow) (d : CacheC) (set force : ℕ) (c : Chosen)
    → choose_blocks f d set force ≡ some c
    → IsLimited d set c
unfolding choose_blocks
choose_blocks-IsLimited f d set force c e =
    let start = set * d.assoc in
    let d1 : CacheC = if f.is_on && f.detect_due then sweep d.assoc d start else d in
    let force' : ℕ = if is_lru d.sysctl_reclaim_policy then force else 0 in
    let empty : Chosen = record { dmc = d1; writes_list = [] } in
    let swept : limits d1 set ≡ limits d set = swept_lem (f.is_on && f.detect_due) in
    let ((c1, stop), e1, r1) =
      bind-inverse (fallow_from (f.is_on && f.clean_due) d.assoc set empty start) _ _ e in
    let h1 : IsLimited d set c1 =
      fallow_from-IsLimited d set _ _ empty c1 start stop (inl refl, swept) e1 in
    elim (Bool-cases stop) [
      | inl t ↦ subst (IsLimited d set) (some-injective _ _ (sym (if-true _ _ _ t) ∙ r1)) h1
      | inr g ↦ by_thresholds (thresholds c1 set force') c1 h1 (sym (if-false _ _ _ g) ∙ r1)
    ]
  where
    swept_lem :
        (b : Bool) → limits (if b then sweep d.assoc d (set * d.assoc) else d) set ≡ limits d set
    swept_lem true = sweep-IsSteady d.assoc d (set * d.assoc) set
    swept_lem false = refl

    by_thresholds :
        (t : Option (ℕ × ℕ)) (c1 : Chosen)
        → IsLimited d set c1
        → elim t [ none ↦ some c1 | some t ↦ by_policy set t c1 ] ≡ some c
        → IsLimited d set c
    by_thresholds none c1 h r = subst (IsLimited d set) (some-injective _ _ r) h
    by_thresholds (some (t, k)) c1 h r = by_policy-IsLimited d set t k c1 c h r
