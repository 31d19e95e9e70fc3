-- ===== src/Wt/Stale.antt =====
-- No stale data in the write-through module: what cache_invalidate_blocks leaves
-- (flashcache-wt/src/flashcache_wt.c).
use flashcache_ubuntu_xenial.Prelude.{
  ℕ, zero, suc, ◌+◌, ◌*◌, ◌<◌, ◌≤◌, ◌≡◌, refl, sym, ap, subst, ◌∙◌, ◌⊎◌, inl, inr, Bool, true,
  false, if◌then◌else◌, if-true, if-false, if-eq, if-ne, arith, sub_word, eq-cases, Bool-cases, ◌∷◌,
}
use flashcache_ubuntu_xenial.Device.{u64}
use flashcache_ubuntu_xenial.Wt.Cache.{
  State, is_live, WtCache, WtBio, set_state, hash_block, overlaps, invalidate_as, invalidate_block,
  invalidate_from, cache_invalidate_block_set, io_end_of, cache_invalidate_blocks,
}
use flashcache_ubuntu_xenial.Wt.Io.{WtDriver, WtJob, uncached_io_callback}

-- Block j is in the set.
abbrev pub InSet : WtCache → ℕ → ℕ → Type 0
InSet d set j = (d.assoc * set ≤ j) × (j < d.assoc * set + d.assoc)

-- An invalidation changes states and the count alone, and no block gets live by it.
pub record IsThinned (d e : WtCache) : Type 0 where
  pub same : e ≡ record d { cache_state = e.cache_state; cached_blocks = e.cached_blocks }
  pub live : (k : ℕ) → is_live (d.cache_state k) ≡ false → is_live (e.cache_state k) ≡ false
  pub kept : (k : ℕ) → is_live (e.cache_state k) ≡ true → e.cache_state k ≡ d.cache_state k

IsThinned-refl : (d : WtCache) → IsThinned d d
IsThinned-refl d = record { same = refl; live = λ k l. l; kept = λ k l. refl }

IsThinned-trans : (d e f : WtCache) → IsThinned d e → IsThinned e f → IsThinned d f
IsThinned-trans d e f t u = record {
  same =
      u.same
      ∙ ap
          (λ (c : WtCache). record c {
            cache_state = f.cache_state;
            cached_blocks = f.cached_blocks;
          })
          t.same;
  live = λ k l. u.live k (t.live k l);
  kept = λ k l. u.kept k l ∙ t.kept k (ap is_live (sym (u.kept k l)) ∙ l);
}

-- One block loses its life.
set_state-IsThinned :
    (d : WtCache) (i n : ℕ) (s : State)
    → is_live s ≡ false
    → IsThinned d (record (set_state d i s) { cached_blocks = n })
set_state-IsThinned d i n s dead = record {
  same = refl;
  live = λ k l. elim (eq-cases i k) [
    | inl e ↦ ap is_live (if-eq i k s (d.cache_state k) e) ∙ dead
    | inr ne ↦ ap is_live (if-ne i k s (d.cache_state k) ne) ∙ l
  ];
  kept = λ k l. elim (eq-cases i k) [
    | inl e ↦ absurd (cc (sym (ap is_live (if-eq i k s (d.cache_state k) e) ∙ dead) ∙ l))
    | inr ne ↦ if-ne i k s (d.cache_state k) ne
  ];
}

-- A block that is invalidated is not live.
abbrev IsGone : WtCache → WtCache → ℕ → Type 0
IsGone d e i = IsThinned d e × (is_live (e.cache_state i) ≡ false)

invalidate_as-IsGone :
    (d : WtCache) (i c : ℕ) (s : State) → d.cache_state i ≡ s → IsGone d (invalidate_as s d i c).0 i
invalidate_as-IsGone d i c State.invalid e = (IsThinned-refl d, ap is_live e)
invalidate_as-IsGone d i c State.in_prog_invalid e = (IsThinned-refl d, ap is_live e)
invalidate_as-IsGone d i c State.valid e = (
  set_state-IsThinned d i (sub_word u64 d.cached_blocks 1) State.invalid refl,
  ap is_live (if-eq i i State.invalid (d.cache_state i) refl),
)
invalidate_as-IsGone d i c State.in_prog e = (
  set_state-IsThinned d i d.cached_blocks State.in_prog_invalid refl,
  ap is_live (if-eq i i State.in_prog_invalid (d.cache_state i) refl),
)
invalidate_as-IsGone d i c State.cache_read_in_prog e = (
  set_state-IsThinned d i d.cached_blocks State.in_prog_invalid refl,
  ap is_live (if-eq i i State.in_prog_invalid (d.cache_state i) refl),
)

-- The blocks from lo to hi that overlap are not live any more.
abbrev pub IsCleared : ℕ → ℕ → WtCache → WtCache → ℕ → ℕ → Type 0
IsCleared a b d e lo hi =
    IsThinned d e
    × ((k : ℕ)
        → lo ≤ k
        → k < hi
        → overlaps d a b (d.dbn k) ≡ true
        → is_live (e.cache_state k) ≡ false)

invalidate_from-IsCleared :
    (a b n i : ℕ) (d : WtCache) (c : ℕ) → IsCleared a b d (invalidate_from a b n i d c).0 i (i + n)
unfolding invalidate_from
invalidate_from-IsCleared a b zero i d c =
    (IsThinned-refl d, λ k l u o. absurd (omega (arith, l, u)))
invalidate_from-IsCleared a b (suc n) i d c =
    let o = overlaps d a b (d.dbn i) in
    let step : WtCache × ℕ = if o then invalidate_block d i c else (d, c) in
    let e = step.0 in
    let f = (invalidate_from a b n (suc i) e step.1).0 in
    let first : IsThinned d e × (o ≡ true → is_live (e.cache_state i) ≡ false) =
      elim (Bool-cases o) [
        | inl t ↦
            let gone : IsGone d (invalidate_block d i c).0 i =
              invalidate_as-IsGone d i c (d.cache_state i) refl in
            let eq : step ≡ invalidate_block d i c = if-true o _ (d, c) t in
            subst
              (λ (p : WtCache × ℕ).
                IsThinned d p.0 × (o ≡ true → is_live (p.0.cache_state i) ≡ false))
              (sym eq) (gone.0, λ u. gone.1)
        | inr t ↦
            let eq : step ≡ (d, c) = if-false o (invalidate_block d i c) _ t in
            subst
              (λ (p : WtCache × ℕ).
                IsThinned d p.0 × (o ≡ true → is_live (p.0.cache_state i) ≡ false))
              (sym eq) (IsThinned-refl d, λ u. absurd (cc (t, u)))
      ] in
    let (thin, clear) = invalidate_from-IsCleared a b n (suc i) e step.1 in
    (
      IsThinned-trans d e f first.0 thin,
      λ k l u v. elim (eq-cases i k) [
        | inl q ↦
            subst (λ j. is_live (f.cache_state j) ≡ false) q
              (thin.live i (first.1 (subst (λ j. overlaps d a b (d.dbn j) ≡ true) (sym q) v)))
        | inr ne ↦
            let same : overlaps e a b (e.dbn k) ≡ overlaps d a b (d.dbn k) =
              ap (λ (t : WtCache). overlaps t a b (t.dbn k)) first.0.same in
            clear k (omega (arith, l, ne)) (omega (arith, u)) (same ∙ v)
      ],
    )

-- After the invalidation no block of the two sets that the request overlaps is live.
pub cache_invalidate_blocks-IsThinned :
    (d : WtCache) (bio : WtBio)
    → IsThinned d (cache_invalidate_blocks d bio).0
      × ((set k : ℕ)
          → (set ≡ hash_block d bio.sector) ⊎ (set ≡ hash_block d (io_end_of bio))
          → InSet d set k
          → overlaps d bio.sector (io_end_of bio) (d.dbn k) ≡ true
          → is_live ((cache_invalidate_blocks d bio).0.cache_state k) ≡ false)
unfolding cache_invalidate_blocks
cache_invalidate_blocks-IsThinned d bio =
    let a = bio.sector in
    let b = io_end_of bio in
    let s = hash_block d a in
    let t = hash_block d b in
    let one : WtCache × ℕ = cache_invalidate_block_set d s a b 0 in
    let e : WtCache = one.0 in
    let two : WtCache × ℕ = cache_invalidate_block_set e t a b 0 in
    let f : WtCache = two.0 in
    let both : WtCache × ℕ = (f, one.1 + two.1) in
    let (thin1, clear1) = invalidate_from-IsCleared a b d.assoc (d.assoc * s) d 0 in
    let (thin2, clear2) = invalidate_from-IsCleared a b e.assoc (e.assoc * t) e 0 in
    let P : WtCache × ℕ → Type 0 = λ p.
      IsThinned d p.0
      × ((set k : ℕ)
          → (set ≡ s) ⊎ (set ≡ t)
          → InSet d set k
          → overlaps d a b (d.dbn k) ≡ true
          → is_live (p.0.cache_state k) ≡ false) in
    let in_first : (set k : ℕ)
        → set ≡ s
        → InSet d set k
        → overlaps d a b (d.dbn k) ≡ true
        → is_live (e.cache_state k) ≡ false =
      λ set k q (l, u) o.
        let at = ap (λ n. d.assoc * n) q in
        clear1 k (omega (arith, l, at)) (omega (arith, u, at)) o in
    elim (eq-cases s t) [
      | inl q ↦ subst P (sym (if-eq s t one both q)) (
        thin1,
        λ set k c i o. elim c [
          | inl h ↦ in_first set k h i o
          | inr h ↦ in_first set k (h ∙ sym q) i o
        ],
      )
      | inr n ↦ subst P (sym (if-ne s t one both n)) (
        IsThinned-trans d e f thin1 thin2,
        λ set k c i o. elim c [
          | inl h ↦ thin2.live k (in_first set k h i o)
          | inr h ↦
              let at = ap (λ n. d.assoc * n) h in
              let size : e.assoc ≡ d.assoc = ap (λ (c : WtCache). c.assoc) thin1.same in
              let start : e.assoc * t ≡ d.assoc * t = ap (λ n. n * t) size in
              let same : overlaps e a b (e.dbn k) ≡ overlaps d a b (d.dbn k) =
                ap (λ (t : WtCache). overlaps t a b (t.dbn k)) thin1.same in
              clear2 k (omega (arith, i.0, at, start)) (omega (arith, i.1, at, start, size))
                (same ∙ o)
        ],
      )
    ]

-- When an uncached request ends it is answered with its error, and no block of its sets that it
-- overlaps is valid, read or filled any more, whatever has become of these blocks while it ran; no
-- block gets live by it.
pub uncached_io_callback-ended :
    (x : WtDriver) (error : Bool) (job : WtJob)
    → ((uncached_io_callback x error job).ended ≡ (job.bio, error) ∷ x.ended)
      × IsThinned x.dmc (uncached_io_callback x error job).dmc
      × ((set k : ℕ)
          → (set ≡ hash_block x.dmc job.bio.sector) ⊎ (set ≡ hash_block x.dmc (io_end_of job.bio))
          → InSet x.dmc set k
          → overlaps x.dmc job.bio.sector (io_end_of job.bio) (x.dmc.dbn k) ≡ true
          → is_live ((uncached_io_callback x error job).dmc.cache_state k) ≡ false)
unfolding uncached_io_callback
uncached_io_callback-ended x error job =
    let (thin, gone) = cache_invalidate_blocks-IsThinned x.dmc job.bio in (refl, thin, gone)
