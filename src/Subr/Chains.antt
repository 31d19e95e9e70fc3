-- ===== src/Subr/Chains.antt =====
-- The links of invalid lists and hash chains form lists (src/flashcache_subr.c).
use flashcache_ubuntu_xenial.Prelude.{
  ℕ, zero, suc, ◌+◌, ◌*◌, ◌<◌, ◌≡◌, refl, ap, ◌∙◌, Bool, true, false, not, arith, Option, some,
  none, ◌==◌, if◌then◌else◌, guard, ◌>>◌, guard-true, if-eq, if-ne, List, [], ◌∷◌, All, Distinct,
  length, Distinct-length-le, All-map,
}
use flashcache_ubuntu_xenial.Device.{CacheC, null}
use flashcache_ubuntu_xenial.Links.Segments.{Seg, Dll}
use flashcache_ubuntu_xenial.Subr.Blocks.{chain_lookup, hash_lookup, hash_bucket}

module _ (n : ℕ) where
  abbrev pub next_of : CacheC → ℕ → ℕ → ℕ
  next_of d s j = (d.cache (s * n + j)).hash_next

  abbrev pub prev_of : CacheC → ℕ → ℕ → ℕ
  prev_of d s j = (d.cache (s * n + j)).hash_prev

  -- A block of a hash chain: in the set, and valid.
  abbrev pub IsChained : CacheC → ℕ → ℕ → Type 0
  IsChained d s j =
      (j < n)
      × ((d.cache (s * n + j)).cache_state.valid ≡ true)
      × ((d.cache (s * n + j)).cache_state.invalid ≡ false)

  -- The chain from `head` on.
  pub record IsChain (d : CacheC) (s head : ℕ) (xs : List ℕ) : Type 0 where
    pub links : (tail : ℕ) × Dll null (next_of d s) (prev_of d s) head xs tail
    pub members : All (IsChained d s) xs
    pub distinct : Distinct xs
    pub assoc_is : d.assoc ≡ n

  -- The first block of a list that caches the sector.
  abbrev pub first_of : CacheC → ℕ → ℕ → List ℕ → Option ℕ
  first_of d s dbn [] = none
  first_of d s dbn (x ∷ xs) =
      if dbn == (d.cache (s * n + x)).dbn then some (s * n + x) else first_of d s dbn xs

  chain_lookup-first_of :
      (fuel : ℕ) (d : CacheC) (s dbn p h : ℕ) (xs : List ℕ) (q : ℕ)
      → Seg null (next_of d s) (prev_of d s) p h xs q null
      → All (IsChained d s) xs
      → length xs < fuel
      → chain_lookup fuel d (s * n) dbn h ≡ some (first_of d s dbn xs)
  unfolding chain_lookup
  chain_lookup-first_of zero d s dbn p h xs q l a f = absurd (omega (arith, f))
  chain_lookup-first_of (suc fuel) d s dbn p h [] q l a f = if-eq h null _ _ l.0
  chain_lookup-first_of (suc fuel) d s dbn p h (x ∷ xs) q l a f =
      if-ne h null _ _ (rw (l.0) l.1)
      ∙ ap
          (λ k.
            guard (d.cache (s * n + k)).cache_state.valid
            >> (guard (not (d.cache (s * n + k)).cache_state.invalid)
                >> (if dbn == (d.cache (s * n + k)).dbn
                    then some (some (s * n + k))
                    else chain_lookup fuel d (s * n) dbn (d.cache (s * n + k)).hash_next)))
          (l.0)
      ∙ guard-true _ _ _ a.0.1 (
          guard-true _ _ _ (ap not a.0.2) (
            step (dbn == (d.cache (s * n + x)).dbn) (
              chain_lookup-first_of fuel d s dbn x (next_of d s x) xs q l.3 a.1
                (omega (arith, f)))))
    where
      step :
          (b : Bool)
          → chain_lookup fuel d (s * n) dbn (next_of d s x) ≡ some (first_of d s dbn xs)
          → (if b then some (some (s * n + x)) else chain_lookup fuel d (s * n) dbn (next_of d s x))
            ≡ some (if b then some (s * n + x) else first_of d s dbn xs)
      step true e = refl
      step false e = e

-- On a well-formed chain the lookup ends within its fuel and no assertion fails; it finds the first
-- block of the bucket's chain that caches the sector, or none if no block of the chain does.
pub hash_lookup-first_of :
    (jhash_1word : ℕ → ℕ → ℕ) (n s dbn : ℕ) (d : CacheC) (xs : List ℕ)
    → IsChain n d s ((d.cache_sets s).hash_buckets (hash_bucket jhash_1word dbn)) xs
    → hash_lookup jhash_1word d s dbn ≡ some (first_of n d s dbn xs)
unfolding hash_lookup
hash_lookup-first_of jhash n s dbn d xs c =
    ap
      (λ a.
        chain_lookup (suc a) d (s * a) dbn ((d.cache_sets s).hash_buckets (hash_bucket jhash dbn)))
      c.assoc_is
    ∙ chain_lookup-first_of n (suc n) d s dbn null _ xs c.links.0 c.links.1 c.members
        (omega (arith, Distinct-length-le n xs c.distinct (All-map xs (λ j u o. o.0) c.members)))
