-- ===== src/Io/Copies.antt =====
-- flashcache_inval_block_set_v3 (src/flashcache_main.c) when nothing waits: the block that the hash chain
-- has for the request is gone.
use flashcache_ubuntu_xenial.Prelude.{
  ℕ, ◌+◌, ◌*◌, ◌≡◌, refl, sym, ap, subst, ◌∙◌, inl, inr, Bool, true, false, some, if-true, if-false,
  if-eq, if-ne, Bool-cases, eq-cases, bind-inverse, guard-inverse, some-injective, List, [], ◌∷◌,
  In,
}
use flashcache_ubuntu_xenial.Device.{CacheC}
use flashcache_ubuntu_xenial.Subr.Blocks.{hash_lookup, hash_bucket}
use flashcache_ubuntu_xenial.Subr.Chains.{IsChain, first_of, hash_lookup-first_of}
use flashcache_ubuntu_xenial.Io.Jobs.{Driver, Bio, block, state_of}
use flashcache_ubuntu_xenial.Io.Inval.{
  aligned, can_invalidate, drop_block, wait_for, inval_found, inval_block_set_v3,
}
use flashcache_ubuntu_xenial.Io.Coherence.{drop_block-IsKept}

-- No two blocks of a chain cache the same sector.
abbrev pub IsUnique : ℕ → CacheC → ℕ → List ℕ → Type 0
IsUnique n d s xs =
    (a b : ℕ) → In a xs → In b xs → (d.cache (s * n + a)).dbn ≡ (d.cache (s * n + b)).dbn → a ≡ b

-- In a chain with a block for the sector, the first such block is found.
first_of-In :
    (n : ℕ) (d : CacheC) (s dbn : ℕ) (xs : List ℕ) (k : ℕ)
    → In k xs
    → (d.cache (s * n + k)).dbn ≡ dbn
    → (j : ℕ) × (first_of n d s dbn xs ≡ some (s * n + j))
      × In j xs
      × ((d.cache (s * n + j)).dbn ≡ dbn)
first_of-In n d s dbn [] k m e = absurd m
first_of-In n d s dbn (x ∷ xs) k m e = elim (eq-cases dbn (d.cache (s * n + x)).dbn) [
  | inl h ↦ (x, if-eq dbn (d.cache (s * n + x)).dbn _ _ h, inl refl, sym h)
  | inr ne ↦ elim m [
    | inl h ↦ absurd (ne (sym e ∙ ap (λ t. (d.cache (s * n + t)).dbn) h))
    | inr i ↦
        let (j, f, p, q) = first_of-In n d s dbn xs k i e in
        (j, if-ne dbn (d.cache (s * n + x)).dbn _ _ ne ∙ f, inr p, q)
  ]
]

inval_found-invalid :
    (jhash_1word : ℕ → ℕ → ℕ) (x y : Driver) (bio : Bio) (i : ℕ)
    → inval_found jhash_1word x bio (some i) ≡ some (y, false)
    → (state_of y i).invalid ≡ true
unfolding inval_found
inval_found-invalid jhash x y bio i e =
    let e1 = (guard-inverse (state_of x i).valid _ _ e).1 in
    elim (Bool-cases (can_invalidate x i)) [
      | inl t ↦
          let (z, ez, r) = bind-inverse (drop_block jhash x i) _ _ (sym (if-true _ _ _ t) ∙ e1) in
          subst (λ (w : Driver). (state_of w i).invalid ≡ true)
            (ap (λ (p : Driver × Bool). p.0) (some-injective _ _ r))
            (drop_block-IsKept jhash x z i ez).0
      | inr f ↦
          let (z, ez, r) = bind-inverse (wait_for x bio i) _ _ (sym (if-false _ _ _ f) ∙ e1) in
          absurd (cc (ap (λ (p : Driver × Bool). p.1) (some-injective _ _ r)))
    ]

-- If the hash chain for the request's block is well formed and has no sector twice, and
-- flashcache_inval_block_set_v3 answers 0, every block of the chain that caches the block of the request
-- is invalid then.
pub inval_block_set_v3-invalid :
    (jhash_1word : ℕ → ℕ → ℕ) (n s : ℕ) (x y : Driver) (bio : Bio) (xs : List ℕ)
    → IsChain n x.dmc s
        ((x.dmc.cache_sets s).hash_buckets (hash_bucket jhash_1word (aligned x.dmc bio.sector)))
        xs
    → IsUnique n x.dmc s xs
    → inval_block_set_v3 jhash_1word x s bio ≡ some (y, false)
    → (k : ℕ) → In k xs
    → (block x (s * n + k)).dbn ≡ aligned x.dmc bio.sector
    → (state_of y (s * n + k)).invalid ≡ true
inval_block_set_v3-invalid jhash n s x y bio xs c u e k m d =
    let a = aligned x.dmc bio.sector in
    let (j, f, p, q) = first_of-In n x.dmc s a xs k m d in
    let same : j ≡ k = u j k p m (q ∙ sym d) in
    let (r, er, g) = bind-inverse (hash_lookup jhash x.dmc s a) _ _ e in
    let found : r ≡ some (s * n + k) =
      some-injective _ _ (sym er ∙ hash_lookup-first_of jhash n s a x.dmc xs c)
      ∙ f
      ∙ ap (λ t. some (s * n + t)) same in
    inval_found-invalid jhash x y bio (s * n + k) (ap (inval_found jhash x bio) (sym found) ∙ g)
