-- ===== src/Io/Coherence.antt =====
-- flashcache_inval_blocks (src/flashcache_main.c) when nothing waits: no stale copy is left.
use flashcache_ubuntu_xenial.Prelude.{
  ℕ, zero, suc, ◌+◌, ◌*◌, ◌≤◌, ◌<◌, ◌≡◌, ◌≢◌, ◌⊎◌, refl, sym, ap, subst, ◌∙◌, inl, inr, Bool, true,
  false, not, ◌||◌, arith, some, ◌==◌, if◌then◌else◌, if-true, if-false, if-eq, if-ne, Bool-cases,
  eq-cases, lt-cases, bind-inverse, some-injective, sub_word,
}
use flashcache_ubuntu_xenial.Device.{CacheC, CacheBlock, u32}
use flashcache_ubuntu_xenial.Main.Lookup.{put_state, hash_block}
use flashcache_ubuntu_xenial.Subr.Frame.{
  SameButHash, without_links, hash_remove-Same, invalid_insert-Same,
}
use flashcache_ubuntu_xenial.Io.Jobs.{
  Driver, Bio, block, state_of, last_sector, can_alloc, after_alloc,
}
use flashcache_ubuntu_xenial.Io.Inval.{
  overlaps, can_invalidate, invalid_state, drop_block, wait_for, inval_from, inval_block_set,
  inval_old, queued_if, Queued,
}

-- A block that is not invalid and overlaps a request.
abbrev pub stale_block : ℕ → Bio → CacheBlock → Bool
stale_block size bio b = not (b.cache_state.invalid || not (overlaps size bio b.dbn))

abbrev pub is_stale : Driver → Bio → ℕ → Bool
is_stale x bio i = stale_block x.dmc.block_size bio (block x i)

-- The hash links of a block do not matter for it.
is_stale-Same :
    (x y : Driver) (bio : Bio) (i : ℕ)
    → without_links (block y i) ≡ without_links (block x i)
    → y.dmc.block_size ≡ x.dmc.block_size
    → is_stale y bio i ≡ is_stale x bio i
is_stale-Same x y bio i b s =
    ap (λ n. stale_block n bio (block y i)) s ∙ ap (stale_block x.dmc.block_size bio) b

-- What a loop over some of the blocks leaves: the blocks at `P` are as before but for their links, and
-- the geometry is.
pub record IsKept (P : ℕ → Type 0) (x y : Driver) : Type 0 where
  pub blocks_kept : (k : ℕ) → P k → without_links (block y k) ≡ without_links (block x k)
  pub size_kept : y.dmc.block_size ≡ x.dmc.block_size
  pub assoc_kept : y.dmc.assoc ≡ x.dmc.assoc

Kept-trans :
    (P Q R : ℕ → Type 0) (x y z : Driver)
    → ((k : ℕ) → R k → P k × Q k)
    → IsKept P x y
    → IsKept Q y z
    → IsKept R x z
Kept-trans P Q R x y z f p q = record {
  blocks_kept = λ k r. q.blocks_kept k (f k r).1 ∙ p.blocks_kept k (f k r).0;
  size_kept = q.size_kept ∙ p.size_kept;
  assoc_kept = q.assoc_kept ∙ p.assoc_kept;
}

-- A block outside the range that starts at `i` and has `left` blocks.
abbrev pub Outside : ℕ → ℕ → ℕ → Type 0
Outside left i k = (k < i) ⊎ (i + left ≤ k)

-- What the loop shows of its range when nothing waits.
abbrev pub IsClear : ℕ → ℕ → Bio → Driver → Driver → Type 0
IsClear left i bio x y =
    ((k : ℕ) → i ≤ k → k < i + left → is_stale y bio k ≡ false) × IsKept (Outside left i) x y

-- One block that is not stale, and then the rest of the range.
IsClear-step :
    (left i : ℕ) (bio : Bio) (x y z : Driver)
    → is_stale y bio i ≡ false
    → IsKept (λ k. k ≢ i) x y
    → IsClear left (i + 1) bio y z
    → IsClear (suc left) i bio x z
IsClear-step left i bio x y z ns kept (clear, rest) = (
  λ k a b. elim (eq-cases k i) [
    | inl e ↦
        is_stale-Same y z bio k (rest.blocks_kept k (inl (omega (arith, e)))) rest.size_kept
        ∙ ap (is_stale y bio) e
        ∙ ns
    | inr ne ↦ clear k (omega (arith, a, ne)) (omega (arith, b))
  ],
  Kept-trans (λ k. k ≢ i) (Outside left (i + 1)) (Outside (suc left) i) x y z
      (λ k o. elim o [
        | inl a ↦ (λ e. absurd (omega (arith, a, e)), inl (omega (arith, a)))
        | inr a ↦ (λ e. absurd (omega (arith, a, e)), inr (omega (arith, a)))
      ])
      kept rest,
)

module _ (jhash_1word : ℕ → ℕ → ℕ) where
  pub drop_block-IsKept :
      (x y : Driver) (i : ℕ)
      → drop_block jhash_1word x i ≡ some y
      → ((state_of y i).invalid ≡ true) × IsKept (λ k. k ≢ i) x y
  unfolding drop_block
  drop_block-IsKept x y i e =
      let (d1, e1, r1) = bind-inverse _ _ _ e in
      let (d2, e2, r2) = bind-inverse _ _ _ r1 in
      let x0 : CacheC = record x.dmc { cached_blocks = sub_word u32 x.dmc.cached_blocks 1 } in
      let x1 : CacheC = put_state d1 i invalid_state in
      let s1 : SameButHash x0 d1 = hash_remove-Same jhash_1word _ d1 i e1 in
      let s2 : SameButHash x1 d2 = invalid_insert-Same _ d2 i e2 in
      let good = λ (z : Driver). ((state_of z i).invalid ≡ true) × IsKept (λ k. k ≢ i) x z in
      subst good (some-injective _ _ r2) (
        ap (λ (b : CacheBlock). b.cache_state.invalid) (s2.blocks_same i)
            ∙ ap (λ (b : CacheBlock). b.cache_state.invalid)
                (if-eq i i (record (d1.cache i) { cache_state = invalid_state }) (d1.cache i) refl),
        record {
          blocks_kept = λ k ne.
              s2.blocks_same k
              ∙ ap without_links (if-ne i k _ (d1.cache k) (λ h. ne (sym h)))
              ∙ s1.blocks_same k;
          size_kept =
              ap (λ (d : CacheC). d.block_size) s2.rest_same
              ∙ ap (λ (d : CacheC). d.block_size) s1.rest_same;
          assoc_kept =
              ap (λ (d : CacheC). d.assoc) s2.rest_same ∙ ap (λ (d : CacheC). d.assoc) s1.rest_same;
        },
      )

  pub inval_from-IsClear :
      (left i : ℕ) (bio : Bio) (x y : Driver)
      → inval_from jhash_1word x bio left i ≡ some (y, false)
      → IsClear left i bio x y
  unfolding inval_from
  inval_from-IsClear zero i bio x y e =
      subst (IsClear zero i bio x) (ap (λ (r : Driver × Bool). r.0) (some-injective _ _ e)) (
        λ k a b. absurd (omega (arith, a, b)),
        record { blocks_kept = λ k o. refl; size_kept = refl; assoc_kept = refl },
      )
  inval_from-IsClear (suc left) i bio x y e =
      elim (Bool-cases
        ((state_of x i).invalid || not (overlaps x.dmc.block_size bio (block x i).dbn))) [
          | inl t ↦
              IsClear-step left i bio x x y (ap not t)
                (record { blocks_kept = λ k o. refl; size_kept = refl; assoc_kept = refl })
                (inval_from-IsClear left (i + 1) bio x y (sym (if-true _ _ _ t) ∙ e))
          | inr f ↦ elim (Bool-cases (can_invalidate x i)) [
            | inl t ↦
                let (z, ez, r) =
                  bind-inverse (drop_block jhash_1word x i) _ _
                    (sym (if-false _ _ _ f ∙ if-true _ _ _ t) ∙ e) in
                let (gone, kept) = drop_block-IsKept x z i ez in
                IsClear-step left i bio x z y (rw gone refl) kept
                  (inval_from-IsClear left (i + 1) bio z y r)
            | inr g ↦
                let (z, ez, r) =
                  bind-inverse (wait_for x bio i) _ _
                    (sym (if-false _ _ _ f ∙ if-false _ _ _ g) ∙ e) in
                absurd (true_ne_false (ap (λ (r : Driver × Bool). r.1) (some-injective _ _ r)))
          ]
        ]
    where
      true_ne_false : true ≢ false
      true_ne_false h = cc h

-- A range of one set does not meet the other blocks.
set-Outside : (n s t k : ℕ) → t ≢ s → n * t ≤ k → k < n * t + n → Outside n (n * s) k
set-Outside n s t k ne a b = elim (lt-cases t s) [
  | inl l ↦ inl (omega (arith, a, b, below n t s l))
  | inr l ↦ inr (omega (arith, a, b, below n s t (omega (arith, l, ne))))
]
  where
    below : (n a b : ℕ) → a < b → n * a + n ≤ n * b
    below n a b l = grind arith

-- No block of the set is stale.
abbrev pub NoStale : Driver → Bio → ℕ → ℕ → Type 0
NoStale y bio n set = (k : ℕ) → n * set ≤ k → k < n * set + n → is_stale y bio k ≡ false

queued_if-inverse :
    (r : Driver × Bool) (y : Driver) → queued_if r ≡ (y, Queued.not_queued) → r ≡ (y, false)
queued_if-inverse (z, true) y e = absurd (cc (ap (λ (p : Driver × Queued). p.1) e))
queued_if-inverse (z, false) y e = ap (λ (p : Driver × Queued). (p.0, false)) e

-- The second set keeps the first clear.
second_set :
    (jhash_1word : ℕ → ℕ → ℕ) (n s t : ℕ) (bio : Bio) (x z y : Driver)
    → s ≢ t
    → IsClear n (n * s) bio x z
    → IsClear n (n * t) bio z y
    → NoStale y bio n s × NoStale y bio n t
second_set jhash n s t bio x z y ne (c1, k1) (c2, k2) = (
  λ k a b.
      is_stale-Same z y bio k (k2.blocks_kept k (set-Outside n t s k ne a b)) k2.size_kept
      ∙ c1 k a b,
  c2,
)

-- What follows the first set of the old style.
after_first :
    (jhash_1word : ℕ → ℕ → ℕ) (x z y : Driver) (bio : Bio) (first : Bool) (s t : ℕ)
    → inval_block_set jhash_1word x s bio ≡ some (z, first)
    → (if first || s == t then some (z, first) else inval_block_set jhash_1word z t bio)
      ≡ some (y, false)
    → NoStale y bio x.dmc.assoc s × NoStale y bio x.dmc.assoc t
after_first jhash x z y bio true s t e1 e2 =
    absurd (cc (ap (λ (r : Driver × Bool). r.1) (some-injective _ _ e2)))
after_first jhash x z y bio false s t e1 e2 =
    let n = x.dmc.assoc in
    let (c, k) = inval_from-IsClear jhash n (n * s) bio x z e1 in
    elim (eq-cases s t) [
      | inl h ↦
          let zy : z ≡ y =
            ap (λ (r : Driver × Bool). r.0) (some-injective _ _ (sym (if-eq s t _ _ h) ∙ e2)) in
          let here : NoStale y bio n s = subst (λ w. NoStale w bio n s) zy c in
          (here, subst (NoStale y bio n) h here)
      | inr ne ↦
          let e3 = sym (if-ne s t _ _ ne) ∙ e2 in
          second_set jhash n s t bio x z y ne (c, k)
            (inval_from-IsClear jhash n (n * t) bio z y
              (ap (λ m. inval_from jhash z bio m (m * t)) (sym k.assoc_kept) ∙ e3))
    ]

-- If flashcache_inval_blocks answers 0 on a cache of an old version, then in the sets of the first
-- and of the last sector of the request, every block is invalid or holds neither of these two
-- sectors.
pub inval_old-NoStale :
    (jhash_1word : ℕ → ℕ → ℕ) (x y : Driver) (bio : Bio)
    → inval_old jhash_1word x bio ≡ some (y, Queued.not_queued)
    → NoStale y bio x.dmc.assoc (hash_block jhash_1word x.dmc bio.sector)
      × NoStale y bio x.dmc.assoc (hash_block jhash_1word x.dmc (last_sector bio))
unfolding inval_old
inval_old-NoStale jhash x y bio e =
    let n = x.dmc.assoc in
    let s = hash_block jhash x.dmc bio.sector in
    let t = hash_block jhash x.dmc (last_sector bio) in
    elim (Bool-cases (not (can_alloc x))) [
      | inl none_left ↦ absurd (
          cc (
            ap (λ (r : Driver × Queued). r.1)
              (some-injective _ _ (sym (if-true _ _ _ none_left) ∙ e))))
      | inr got ↦
          let ((z, first), e1, r1) =
            bind-inverse (inval_from jhash (after_alloc x) bio n (n * s)) _ _
              (sym (if-false _ _ _ got) ∙ e) in
          let (r, e2, r2) = bind-inverse _ _ _ r1 in
          let done : r ≡ (y, false) = queued_if-inverse r y (some-injective _ _ r2) in
          after_first jhash (after_alloc x) z y bio first s t e1 (e2 ∙ ap some done)
    ]
