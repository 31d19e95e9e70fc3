-- ===== src/Subr/Results.antt =====
-- The lists of invalid blocks and the hash chains (src/flashcache_subr.c): when their assertions hold.
use flashcache_ubuntu_xenial.Prelude.{
  ℕ, ◌+◌, ◌*◌, ◌/◌, ◌<◌, ◌≡◌, refl, ap, true, some, ◌==◌, if◌then◌else◌, if-eq, guard-true, arith,
  ltb,
}
use flashcache_ubuntu_xenial.Device.{CacheC, CacheBlock, null, is_invalid}
use flashcache_ubuntu_xenial.Subr.Blocks.{
  invalid_insert, hash_remove, clear_links, unlink_successor, put_bucket, put_hash_next,
  hash_bucket,
}
use flashcache_ubuntu_xenial.Subr.Frame.{SameButHash, invalid_insert-Same, hash_remove-Same}

abbrev pub NoLinks : CacheC → ℕ → Type 0
NoLinks d i = ((d.cache i).hash_prev ≡ null) × ((d.cache i).hash_next ≡ null)

clear_links-NoLinks : (d : CacheC) (i : ℕ) → NoLinks (clear_links d i) i
clear_links-NoLinks d i =
    let e : (clear_links d i).cache i ≡ record (d.cache i) { hash_prev = null; hash_next = null } =
      if-eq i i _ _ refl in
    (ap (λ (b : CacheBlock). b.hash_prev) e, ap (λ (b : CacheBlock). b.hash_next) e)

-- A valid block is taken out of its chain, and it has no links then.
pub hash_remove-NoLinks :
    (jhash_1word : ℕ → ℕ → ℕ) (d : CacheC) (i : ℕ)
    → (d.cache i).cache_state.valid ≡ true
    → (d' : CacheC) × (hash_remove jhash_1word d i ≡ some d') × SameButHash d d' × NoLinks d' i
unfolding hash_remove
hash_remove-NoLinks jhash d i v =
    let set = i / d.assoc in
    let b : CacheBlock = d.cache i in
    let d1 : CacheC =
      if b.hash_prev == null
      then put_bucket d set (hash_bucket jhash b.dbn) b.hash_next
      else put_hash_next d (set * d.assoc + b.hash_prev) b.hash_next in
    let x : CacheC = unlink_successor d1 (set * d.assoc) i in
    let e : hash_remove jhash d i ≡ some (clear_links x i) =
      guard-true b.cache_state.valid _ _ v refl in
    (clear_links x i, e, hash_remove-Same jhash d _ i e, clear_links-NoLinks x i)

-- An invalid block of the cache that has no links is put in the list of its set.
pub invalid_insert-some :
    (d : CacheC) (i : ℕ)
    → i < d.size
    → is_invalid (d.cache i).cache_state ≡ true
    → NoLinks d i
    → (d' : CacheC) × (invalid_insert d i ≡ some d') × SameButHash d d'
unfolding invalid_insert
invalid_insert-some d i l v (p, n) =
    let e = guard-true (ltb i d.size) _ _ (ground (arith, l)) (
      guard-true (is_invalid (d.cache i).cache_state) _ _ v (
        guard-true ((d.cache i).hash_prev == null) _ _ (rw p refl)
          (guard-true ((d.cache i).hash_next == null) _ _ (rw n refl) refl))) in
    (_, e, invalid_insert-Same d _ i e)
