-- ===== src/Subr/Tests.antt =====
-- The theorems about src/flashcache_subr.c at the sample cache, for a hash that adds.
use flashcache_ubuntu_xenial.Prelude.{ℕ, ◌+◌, ◌≡◌, refl, some, [], ◌∷◌, arith}
use flashcache_ubuntu_xenial.Samples.{device}
use flashcache_ubuntu_xenial.Subr.Blocks.{hash_lookup}
use flashcache_ubuntu_xenial.Subr.Chains.{IsChain, hash_lookup-first_of}

abbrev sum_hash : ℕ → ℕ → ℕ
sum_hash a b = a + b

-- Both blocks of the chain are in bucket 245.
device-IsChain : IsChain 4 device 1 2 (2 ∷ 3 ∷ [])
device-IsChain = record {
  links = (3, ground arith);
  members = ground arith;
  distinct = ground arith;
  assoc_is = refl;
}

hash_lookup-first_of_example : hash_lookup sum_hash device 1 8 ≡ some (some 7)
hash_lookup-first_of_example =
    hash_lookup-first_of sum_hash 4 1 8 device (2 ∷ 3 ∷ []) device-IsChain
