-- ===== src/Reclaim/Unlink.antt =====
-- What taking a block out of its list writes, field by field (src/flashcache_reclaim.c).
use flashcache_ubuntu_xenial.Prelude.{
  ℕ, ◌+◌, ◌*◌, ◌<◌, ◌≡◌, ◌≢◌, Bool, true, false, not, arith, ◌==◌, if◌then◌else◌, sub_word, if-eq,
  ◌⊎◌, inl, inr,
}
use flashcache_ubuntu_xenial.Device.{CacheC, null, u16}
use flashcache_ubuntu_xenial.Reclaim.Lists.{
  lru_head, lru_tail, lru_blocks, is_warm, unlinked, unlink_prev, unlink_next, put_head, put_tail,
  link_next, link_prev,
}
use flashcache_ubuntu_xenial.Reclaim.Frame.{
  Same-trans, Same-if, put_head-Same, put_tail-Same, link_next-Same, link_prev-Same, count_sub-Same,
}
use flashcache_ubuntu_xenial.Reclaim.Shape.{next_of, prev_of, SameButLinks}

-- What `unlinked` does to each field, for a block whose links do not lead to itself.
module _ (n : ℕ) (d : CacheC) (s i : ℕ) where
  abbrev pub gone : CacheC
  gone = unlinked d s (s * n) (s * n + i)

  pub unlinked_next :
      (j : ℕ)
      → j ≢ null
      → prev_of n d s i ≢ i
      → next_of n gone s j ≡ (if j == prev_of n d s i then next_of n d s i else next_of n d s j)
  unfolding unlinked
  unlinked_next j nn ne = ground arith

  pub unlinked_prev :
      (j : ℕ)
      → j ≢ null
      → prev_of n d s i ≢ i
      → prev_of n gone s j ≡ (if j == next_of n d s i then prev_of n d s i else prev_of n d s j)
  unfolding unlinked
  unlinked_prev j nn ne = ground arith

  pub unlinked_head :
      (w : Bool)
      → is_warm d (s * n + i) ≡ w
      → lru_head w (gone.cache_sets s)
        ≡ (if prev_of n d s i == null then next_of n d s i else lru_head w (d.cache_sets s))
  unfolding unlinked
  unlinked_head true e = ground arith
  unlinked_head false e = ground arith

  pub unlinked_tail :
      (w : Bool)
      → is_warm d (s * n + i) ≡ w
      → prev_of n d s i ≢ i
      → lru_tail w (gone.cache_sets s)
        ≡ (if next_of n d s i == null then prev_of n d s i else lru_tail w (d.cache_sets s))
  unfolding unlinked
  unlinked_tail true e ne = ground arith
  unlinked_tail false e ne = ground arith

  pub unlinked_blocks :
      (w : Bool)
      → is_warm d (s * n + i) ≡ w
      → lru_blocks w (gone.cache_sets s) ≡ sub_word u16 (lru_blocks w (d.cache_sets s)) 1
  unfolding unlinked
  unlinked_blocks true e = ground arith
  unlinked_blocks false e = ground arith

  -- The other list's fields stay.
  pub unlinked_other :
      (w : Bool)
      → is_warm d (s * n + i) ≡ w
      → (lru_head (not w) (gone.cache_sets s) ≡ lru_head (not w) (d.cache_sets s))
        × (lru_tail (not w) (gone.cache_sets s) ≡ lru_tail (not w) (d.cache_sets s))
        × (lru_blocks (not w) (gone.cache_sets s) ≡ lru_blocks (not w) (d.cache_sets s))
  unfolding unlinked
  unlinked_other true e = ground arith
  unlinked_other false e = ground arith

  unlink_prev-Same :
      (prev_of n d s i ≡ null) ⊎ (prev_of n d s i < n)
      → SameButLinks n s d (unlink_prev d s (s * n) (s * n + i))
  unfolding unlink_prev
  unlink_prev-Same (inl e) =
      rw
        (if-eq (prev_of n d s i) null (put_head d s w v) (link_next d (s * n + prev_of n d s i) v)
          e)
        (put_head-Same n s d w v)
    where
      w : Bool
      w = is_warm d (s * n + i)

      v : ℕ
      v = next_of n d s i
  unlink_prev-Same (inr h) =
      Same-if n s d (put_head d s w v) (link_next d (s * n + prev_of n d s i) v)
        (prev_of n d s i == null) (put_head-Same n s d w v)
        (link_next-Same n s d (prev_of n d s i) v h)
    where
      w : Bool
      w = is_warm d (s * n + i)

      v : ℕ
      v = next_of n d s i

  unlink_next-Same :
      (next_of n d s i ≡ null) ⊎ (next_of n d s i < n)
      → SameButLinks n s d (unlink_next d s (s * n) (s * n + i))
  unfolding unlink_next
  unlink_next-Same (inl e) =
      rw
        (if-eq (next_of n d s i) null (put_tail d s w v) (link_prev d (s * n + next_of n d s i) v)
          e)
        (put_tail-Same n s d w v)
    where
      w : Bool
      w = is_warm d (s * n + i)

      v : ℕ
      v = prev_of n d s i
  unlink_next-Same (inr h) =
      Same-if n s d (put_tail d s w v) (link_prev d (s * n + next_of n d s i) v)
        (next_of n d s i == null) (put_tail-Same n s d w v)
        (link_prev-Same n s d (next_of n d s i) v h)
    where
      w : Bool
      w = is_warm d (s * n + i)

      v : ℕ
      v = prev_of n d s i

  unlink_prev_next :
      prev_of n d s i ≢ i → next_of n (unlink_prev d s (s * n) (s * n + i)) s i ≡ next_of n d s i
  unfolding unlink_prev
  unlink_prev_next ne = ground arith

module _ (n : ℕ) (d : CacheC) (s i : ℕ) where
  pub unlinked_same :
      prev_of n d s i ≢ i
      → (prev_of n d s i ≡ null) ⊎ (prev_of n d s i < n)
      → (next_of n d s i ≡ null) ⊎ (next_of n d s i < n)
      → SameButLinks n s d (gone n d s i)
  unfolding unlinked
  unlinked_same ne p q =
      Same-trans n s d d2 _
        (Same-trans n s d d1 d2 (unlink_prev-Same n d s i p)
          (unlink_next-Same n d1 s i (rw (unlink_prev_next n d s i ne) q)))
        (count_sub-Same n s d2 (is_warm d (s * n + i)))
    where
      d1 : CacheC
      d1 = unlink_prev d s (s * n) (s * n + i)

      d2 : CacheC
      d2 = unlink_next d1 s (s * n) (s * n + i)
