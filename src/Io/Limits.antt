-- ===== src/Io/Limits.antt =====
-- flashcache_clean_set keeps to the limits on writes in progress, and chooses blocks that can be written
-- (src/flashcache_main.c).
use flashcache_ubuntu_xenial.Prelude.{
  ℕ, zero, suc, ◌+◌, ◌/◌, ◌≤◌, ◌≡◌, ◌⊎◌, refl, sym, ap, subst, ◌∙◌, inl, inr, true, not, ◌&&◌,
  arith, some, ltb, if-true, if-false, if-eq, if-ne, Bool-cases, eq-cases, bind-inverse,
  guard-inverse, some-injective, [], ◌∷◌, ◌++◌, length, length-append,
}
use flashcache_ubuntu_xenial.Device.{CacheC, CacheSet, block_io_in_prog, fallow_do_clean}
use flashcache_ubuntu_xenial.Main.Lookup.{clear_fallow, detect_fallow, put_fallow, is_write_back}
use flashcache_ubuntu_xenial.Io.Inval.{needs_clean}
use flashcache_ubuntu_xenial.Io.Cleaning.{
  Chosen, DbnIndexPair, nr_writes, can_clean, choose, choose_dirty, sweep,
}

-- The limits of a cache and the writes in progress.
abbrev pub limits_of : CacheC → ℕ → ℕ × ℕ × ℕ × ℕ
limits_of d n = (n, d.clean_inprog, d.max_clean_ios_set, d.max_clean_ios_total)

abbrev pub limits : CacheC → ℕ → ℕ × ℕ × ℕ × ℕ
limits d set = limits_of d (d.cache_sets set).clean_inprog

-- The chosen blocks, if there are any, are within the limits.
abbrev pub IsWithin : ℕ → Chosen → Type 0
IsWithin set c =
    (nr_writes c ≡ 0)
    ⊎ (((c.dmc.cache_sets set).clean_inprog + nr_writes c ≤ c.dmc.max_clean_ios_set)
        × (c.dmc.clean_inprog + nr_writes c ≤ c.dmc.max_clean_ios_total))

-- A step that leaves the limits alone.
abbrev pub IsSteady : CacheC → CacheC → Type 0
IsSteady d d' = (set : ℕ) → limits d' set ≡ limits d set

put_fallow-IsSteady : (d : CacheC) (i v : ℕ) → IsSteady d (put_fallow d i v)
put_fallow-IsSteady d i v set = elim (eq-cases i set) [
  | inl e ↦
      ap (λ (c : CacheSet). limits_of d c.clean_inprog)
        (if-eq i set (record (d.cache_sets i) { dirty_fallow = v }) (d.cache_sets set) e)
      ∙ ap (λ k. limits_of d (d.cache_sets k).clean_inprog) e
  | inr n ↦ ap (λ (c : CacheSet). limits_of d c.clean_inprog) (if-ne i set _ (d.cache_sets set) n)
]

clear_fallow-IsSteady : (d d' : CacheC) (i : ℕ) → clear_fallow d i ≡ some d' → IsSteady d d'
unfolding clear_fallow
clear_fallow-IsSteady d d' i e set =
    let s = (d.cache i).cache_state in
    let good = λ (x : CacheC). limits x set ≡ limits d set in
    elim (Bool-cases (is_write_back d.cache_mode && fallow_do_clean s)) [
      | inr f ↦ subst good (some-injective _ _ (sym (if-false _ _ _ f) ∙ e)) refl
      | inl t ↦ elim (Bool-cases s.dirty_fallow_2) [
        | inl t2 ↦
            let k = sym (if-true _ _ _ t ∙ if-true _ _ _ t2) ∙ e in
            subst good
              (some-injective _ _
                (guard-inverse (ltb 0 (d.cache_sets (i / d.assoc)).dirty_fallow) _ _ k).1)
              (put_fallow-IsSteady d (i / d.assoc) _ set)
        | inr f2 ↦
            subst good (some-injective _ _ (sym (if-true _ _ _ t ∙ if-false _ _ _ f2) ∙ e)) refl
      ]
    ]

detect_fallow-IsSteady : (d : CacheC) (i : ℕ) → IsSteady d (detect_fallow d i)
unfolding detect_fallow
detect_fallow-IsSteady d i set =
    let s = (d.cache i).cache_state in
    let good = λ (x : CacheC). limits x set ≡ limits d set in
    elim (Bool-cases (is_write_back d.cache_mode && s.dirty && not (block_io_in_prog s))) [
      | inr f ↦ subst good (sym (if-false _ _ _ f)) refl
      | inl t ↦ subst good (sym (if-true _ _ _ t)) (elim (Bool-cases (not s.dirty_fallow_1)) [
        | inl t1 ↦ subst good (sym (if-true _ _ _ t1)) refl
        | inr f1 ↦ subst good (sym (if-false _ _ _ f1)) (elim (Bool-cases (not s.dirty_fallow_2)) [
          | inl t2 ↦ subst good (sym (if-true _ _ _ t2)) (put_fallow-IsSteady d (i / d.assoc) _ set)
          | inr f2 ↦ subst good (sym (if-false _ _ _ f2)) refl
        ])
      ])
    ]

pub sweep-IsSteady : (left : ℕ) (d : CacheC) (i : ℕ) → IsSteady d (sweep left d i)
unfolding sweep
sweep-IsSteady zero d i set = refl
sweep-IsSteady (suc left) d i set =
    sweep-IsSteady left (detect_fallow d i) (i + 1) set ∙ detect_fallow-IsSteady d i set

-- The choice so far, for the limits of a cache.
abbrev pub IsLimited : CacheC → ℕ → Chosen → Type 0
IsLimited d set c = IsWithin set c × (limits c.dmc set ≡ limits d set)

-- One more block, if the limits allow it.
pub choose-IsLimited :
    (d : CacheC) (set : ℕ) (c c' : Chosen) (i : ℕ)
    → IsLimited d set c
    → can_clean c.dmc set (nr_writes c) ≡ true
    → choose c i ≡ some c'
    → IsLimited d set c'
unfolding choose
choose-IsLimited d set c c' i (w, l) can e =
    let (d1, e1, r) = bind-inverse _ _ c' e in
    let same : limits d1 set ≡ limits c.dmc set = clear_fallow-IsSteady _ d1 i e1 set in
    let p : DbnIndexPair = record { dbn = (c.dmc.cache i).dbn; index = i } in
    let one : length (c.writes_list ++ p ∷ []) ≡ nr_writes c + 1 =
      length-append c.writes_list (p ∷ []) in
    subst (IsLimited d set) (some-injective _ _ r) (
      inr (
        ground (arith, ap (λ q. q.0) same, ap (λ q. q.2) same, one, can),
        ground (arith, ap (λ q. q.1) same, ap (λ q. q.3) same, one, can),
      ),
      same ∙ l,
    )

pub choose_dirty-IsLimited :
    (d : CacheC) (set : ℕ) (c c' : Chosen) (i : ℕ)
    → IsLimited d set c
    → can_clean c.dmc set (nr_writes c) ≡ true
    → choose_dirty c i ≡ some c'
    → IsLimited d set c'
choose_dirty-IsLimited d set c c' i h can e =
    elim (Bool-cases (needs_clean (c.dmc.cache i).cache_state)) [
      | inl t ↦ choose-IsLimited d set c c' i h can (sym (if-true _ _ _ t) ∙ e)
      | inr f ↦ subst (IsLimited d set) (some-injective _ _ (sym (if-false _ _ _ f) ∙ e)) h
    ]
