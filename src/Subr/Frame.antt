-- ===== src/Subr/Frame.antt =====
-- The lists of invalid blocks and the hash chains (src/flashcache_subr.c) touch the hash links, the
-- heads of the buckets and the heads of the invalid lists alone.
use flashcache_ubuntu_xenial.Prelude.{
  ℕ, ◌+◌, ◌*◌, ◌/◌, ◌%◌, ◌≡◌, refl, ap, ◌∙◌, subst, inl, inr, Bool, true, false, eq-cases, some,
  ◌==◌, if◌then◌else◌, if-eq, if-ne, guard-inverse, some-injective, ltb,
}
use flashcache_ubuntu_xenial.Device.{
  CacheC, CacheBlock, CacheSet, null, set_block, set_set, is_invalid,
}
use flashcache_ubuntu_xenial.Subr.Blocks.{
  put_hash_next, put_bucket, link_first, unlink_successor, invalid_insert, hash_remove, hash_bucket,
}

abbrev pub without_links : CacheBlock → CacheBlock
without_links b = record b { hash_prev = null; hash_next = null }

-- What a set has besides its hash chains and its invalid list.
abbrev pub without_heads : CacheSet → CacheSet
without_heads c = record c { hash_buckets = λ b. null; invalid_head = null }

-- Two states that differ in the hash links and the heads of these lists alone.
pub record SameButHash (a b : CacheC) : Type 0 where
  pub blocks_same : (k : ℕ) → without_links (b.cache k) ≡ without_links (a.cache k)
  pub sets_same : (s : ℕ) → without_heads (b.cache_sets s) ≡ without_heads (a.cache_sets s)
  pub rest_same : record b { cache = a.cache; cache_sets = a.cache_sets } ≡ a

pub Same-refl : (a : CacheC) → SameButHash a a
Same-refl a = record { blocks_same = λ k. refl; sets_same = λ s. refl; rest_same = refl }

pub Same-trans : (a b c : CacheC) → SameButHash a b → SameButHash b c → SameButHash a c
Same-trans a b c p q = record {
  blocks_same = λ k. q.blocks_same k ∙ p.blocks_same k;
  sets_same = λ s. q.sets_same s ∙ p.sets_same s;
  rest_same =
      ap (λ (x : CacheC). record x { cache = a.cache; cache_sets = a.cache_sets }) q.rest_same
      ∙ p.rest_same;
}

Same-if :
    (d a b : CacheC) (t : Bool)
    → SameButHash d a
    → SameButHash d b
    → SameButHash d (if t then a else b)
Same-if d a b true p q = p
Same-if d a b false p q = q

set_block-Same :
    (d : CacheC) (i : ℕ) (b : CacheBlock)
    → without_links b ≡ without_links (d.cache i)
    → SameButHash d (set_block d i b)
set_block-Same d i b e = record {
  blocks_same = λ k. elim (eq-cases i k) [
    | inl h ↦
        ap without_links (if-eq i k b (d.cache k) h) ∙ e ∙ ap (λ j. without_links (d.cache j)) h
    | inr n ↦ ap without_links (if-ne i k b (d.cache k) n)
  ];
  sets_same = λ s. refl;
  rest_same = refl;
}

set_set-Same :
    (d : CacheC) (i : ℕ) (c : CacheSet)
    → without_heads c ≡ without_heads (d.cache_sets i)
    → SameButHash d (set_set d i c)
set_set-Same d i c e = record {
  blocks_same = λ k. refl;
  sets_same = λ k. elim (eq-cases i k) [
    | inl h ↦
        ap without_heads (if-eq i k c (d.cache_sets k) h)
        ∙ e
        ∙ ap (λ j. without_heads (d.cache_sets j)) h
    | inr n ↦ ap without_heads (if-ne i k c (d.cache_sets k) n)
  ];
  rest_same = refl;
}

link_first-Same : (d : CacheC) (start i x head : ℕ) → SameButHash d (link_first d start i x head)
unfolding link_first
link_first-Same d start i x head =
    let d1 : CacheC = put_hash_next d i head in
    Same-if d _ _ (head == null) (set_block-Same d i _ refl)
      (Same-trans d d1 _ (set_block-Same d i _ refl) (set_block-Same d1 (start + head) _ refl))

unlink_successor-Same : (d : CacheC) (start i : ℕ) → SameButHash d (unlink_successor d start i)
unfolding unlink_successor
unlink_successor-Same d start i =
    Same-if d _ _ ((d.cache i).hash_next == null) (Same-refl d)
      (set_block-Same d (start + (d.cache i).hash_next) _ refl)

pub invalid_insert-Same : (d d' : CacheC) (i : ℕ) → invalid_insert d i ≡ some d' → SameButHash d d'
unfolding invalid_insert
invalid_insert-Same d d' i e =
    let b : CacheBlock = d.cache i in
    let e1 = (guard-inverse (ltb i d.size) _ _ e).1 in
    let e2 = (guard-inverse (is_invalid b.cache_state) _ _ e1).1 in
    let e3 = (guard-inverse (b.hash_prev == null) _ _ e2).1 in
    let e4 = (guard-inverse (b.hash_next == null) _ _ e3).1 in
    let head = (d.cache_sets (i / d.assoc)).invalid_head in
    let x : CacheC = link_first d (i / d.assoc * d.assoc) i (i % d.assoc) head in
    subst (SameButHash d) (some-injective _ _ e4) (
      Same-trans d x _ (link_first-Same d _ i _ head) (
        set_set-Same x (i / d.assoc)
          (record (x.cache_sets (i / d.assoc)) { invalid_head = i % d.assoc }) refl))

module _ (jhash_1word : ℕ → ℕ → ℕ) where
  pub hash_remove-Same :
      (d d' : CacheC) (i : ℕ) → hash_remove jhash_1word d i ≡ some d' → SameButHash d d'
  unfolding hash_remove
  hash_remove-Same d d' i e =
      let set = i / d.assoc in
      let b : CacheBlock = d.cache i in
      let d1 : CacheC =
        if b.hash_prev == null
        then put_bucket d set (hash_bucket jhash_1word b.dbn) b.hash_next
        else put_hash_next d (set * d.assoc + b.hash_prev) b.hash_next in
      let x : CacheC = unlink_successor d1 (set * d.assoc) i in
      subst (SameButHash d) (some-injective _ _ (guard-inverse b.cache_state.valid _ _ e).1) (
        Same-trans d d1 _
          (Same-if d _ _ (b.hash_prev == null) (set_set-Same d set _ refl)
            (set_block-Same d (set * d.assoc + b.hash_prev) _ refl))
          (Same-trans d1 x _ (unlink_successor-Same d1 (set * d.assoc) i)
            (set_block-Same x i _ refl)))
