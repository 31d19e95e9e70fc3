-- ===== src/Reclaim/Frame.antt =====
-- The elementary writes of src/flashcache_reclaim.c touch the LRU fields of one set alone.
use flashcache_ubuntu_xenial.Prelude.{
  ℕ, ◌+◌, ◌*◌, ◌<◌, refl, ◌∙◌, Bool, true, false, arith, if◌then◌else◌,
}
use flashcache_ubuntu_xenial.Device.{CacheC, set_block}
use flashcache_ubuntu_xenial.Reclaim.Lists.{
  link_next, link_prev, put_head, put_tail, count_add, count_sub,
}
use flashcache_ubuntu_xenial.Reclaim.Shape.{SameButLinks}

module _ (n s : ℕ) where
  pub Same-refl : (d : CacheC) → SameButLinks n s d d
  Same-refl d = record {
    assoc_same = refl;
    state_same = λ k. refl;
    lru_same = λ k. refl;
    use_same = λ k. refl;
    sets_same = λ t ne. refl;
    blocks_same = λ k out. refl;
  }

  pub Same-trans :
      (a b c : CacheC) → SameButLinks n s a b → SameButLinks n s b c → SameButLinks n s a c
  Same-trans a b c p q = record {
    assoc_same = q.assoc_same ∙ p.assoc_same;
    state_same = λ k. q.state_same k ∙ p.state_same k;
    lru_same = λ k. q.lru_same k ∙ p.lru_same k;
    use_same = λ k. q.use_same k ∙ p.use_same k;
    sets_same = λ t ne. q.sets_same t ne ∙ p.sets_same t ne;
    blocks_same = λ k out. q.blocks_same k out ∙ p.blocks_same k out;
  }

  pub Same-if :
      (d a b : CacheC) (t : Bool)
      → SameButLinks n s d a
      → SameButLinks n s d b
      → SameButLinks n s d (if t then a else b)
  Same-if d a b true p q = p
  Same-if d a b false p q = q

  pub put_head-Same : (d : CacheC) (w : Bool) (v : ℕ) → SameButLinks n s d (put_head d s w v)
  put_head-Same d w v = record {
    assoc_same = refl;
    state_same = λ k. refl;
    lru_same = λ k. refl;
    use_same = λ k. refl;
    sets_same = λ t ne. ground arith;
    blocks_same = λ k out. refl;
  }

  pub put_tail-Same : (d : CacheC) (w : Bool) (v : ℕ) → SameButLinks n s d (put_tail d s w v)
  put_tail-Same d w v = record {
    assoc_same = refl;
    state_same = λ k. refl;
    lru_same = λ k. refl;
    use_same = λ k. refl;
    sets_same = λ t ne. ground arith;
    blocks_same = λ k out. refl;
  }

  pub link_next-Same :
      (d : CacheC) (j v : ℕ) → j < n → SameButLinks n s d (link_next d (s * n + j) v)
  link_next-Same d j v h = record {
    assoc_same = refl;
    state_same = λ k. ground arith;
    lru_same = λ k. ground arith;
    use_same = λ k. ground arith;
    sets_same = λ t ne. refl;
    blocks_same = λ k out. ground arith;
  }

  pub link_prev-Same :
      (d : CacheC) (j v : ℕ) → j < n → SameButLinks n s d (link_prev d (s * n + j) v)
  link_prev-Same d j v h = record {
    assoc_same = refl;
    state_same = λ k. ground arith;
    lru_same = λ k. ground arith;
    use_same = λ k. ground arith;
    sets_same = λ t ne. refl;
    blocks_same = λ k out. ground arith;
  }

  pub count_sub-Same : (d : CacheC) (w : Bool) → SameButLinks n s d (count_sub d s w)
  unfolding count_sub
  count_sub-Same d true = record {
    assoc_same = refl;
    state_same = λ k. refl;
    lru_same = λ k. refl;
    use_same = λ k. refl;
    sets_same = λ t ne. ground arith;
    blocks_same = λ k out. refl;
  }
  count_sub-Same d false = record {
    assoc_same = refl;
    state_same = λ k. refl;
    lru_same = λ k. refl;
    use_same = λ k. refl;
    sets_same = λ t ne. ground arith;
    blocks_same = λ k out. refl;
  }

  pub count_add-Same : (d : CacheC) (w : Bool) → SameButLinks n s d (count_add d s w)
  unfolding count_add
  count_add-Same d true = record {
    assoc_same = refl;
    state_same = λ k. refl;
    lru_same = λ k. refl;
    use_same = λ k. refl;
    sets_same = λ t ne. ground arith;
    blocks_same = λ k out. refl;
  }
  count_add-Same d false = record {
    assoc_same = refl;
    state_same = λ k. refl;
    lru_same = λ k. refl;
    use_same = λ k. refl;
    sets_same = λ t ne. ground arith;
    blocks_same = λ k out. refl;
  }

  pub set_links-Same :
      (d : CacheC) (j p q : ℕ)
      → j < n
      → SameButLinks n s d
          (set_block d (s * n + j) (record (d.cache (s * n + j)) { lru_next = p; lru_prev = q }))
  set_links-Same d j p q h = record {
    assoc_same = refl;
    state_same = λ k. ground arith;
    lru_same = λ k. ground arith;
    use_same = λ k. ground arith;
    sets_same = λ t ne. refl;
    blocks_same = λ k out. ground arith;
  }
