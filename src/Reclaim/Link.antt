-- ===== src/Reclaim/Link.antt =====
-- What putting a block in at an end of its list writes, field by field (src/flashcache_reclaim.c).
use flashcache_ubuntu_xenial.Prelude.{
  ℕ, ◌+◌, ◌-◌, ◌*◌, ◌%◌, ◌<◌, ◌≡◌, ◌≢◌, ◌⊎◌, inl, inr, Bool, true, false, not, arith, ◌==◌,
  if◌then◌else◌, if-eq, ap, ◌∙◌,
}
use flashcache_ubuntu_xenial.Device.{CacheC, null, u16, set_block}
use flashcache_ubuntu_xenial.Reclaim.Lists.{
  lru_head, lru_tail, lru_blocks, is_warm, put_head, put_tail, link_next, link_prev, linked_mru,
  linked_lru,
}
use flashcache_ubuntu_xenial.Reclaim.Shape.{next_of, prev_of, SameButLinks}
use flashcache_ubuntu_xenial.Reclaim.Frame.{
  Same-trans, Same-if, put_head-Same, put_tail-Same, link_next-Same, link_prev-Same, count_add-Same,
  set_links-Same,
}

-- The MRU end, the tail.
module _ (n : ℕ) (d : CacheC) (s i : ℕ) where
  abbrev pub mru_end : CacheC
  mru_end = linked_mru d s (s * n) (s * n + i)

  pub mru_end_next :
      (w : Bool)
      → is_warm d (s * n + i) ≡ w
      → i ≢ lru_tail w (d.cache_sets s)
      → (j : ℕ) → j ≢ null
      → next_of n mru_end s j
        ≡ (if j == i then null else if j == lru_tail w (d.cache_sets s) then i else next_of n d s j)
  unfolding linked_mru
  mru_end_next true e ne j nn = ground arith
  mru_end_next false e ne j nn = ground arith

  pub mru_end_prev :
      (w : Bool)
      → is_warm d (s * n + i) ≡ w
      → i ≢ lru_tail w (d.cache_sets s)
      → (j : ℕ)
      → prev_of n mru_end s j ≡ (if j == i then lru_tail w (d.cache_sets s) else prev_of n d s j)
  unfolding linked_mru
  mru_end_prev true e ne j = ground arith
  mru_end_prev false e ne j = ground arith

  pub mru_end_head :
      (w : Bool)
      → is_warm d (s * n + i) ≡ w
      → lru_head w (mru_end.cache_sets s)
        ≡ (if lru_tail w (d.cache_sets s) == null then i else lru_head w (d.cache_sets s))
  unfolding linked_mru
  mru_end_head true e = ground arith
  mru_end_head false e = ground arith

  pub mru_end_tail : (w : Bool) → is_warm d (s * n + i) ≡ w → lru_tail w (mru_end.cache_sets s) ≡ i
  unfolding linked_mru
  mru_end_tail true e = ground arith
  mru_end_tail false e = ground arith

  pub mru_end_blocks :
      (w : Bool)
      → is_warm d (s * n + i) ≡ w
      → lru_blocks w (mru_end.cache_sets s) ≡ (lru_blocks w (d.cache_sets s) + 1) % u16
  unfolding linked_mru
  mru_end_blocks true e = ground arith
  mru_end_blocks false e = ground arith

  pub mru_end_other :
      (w : Bool)
      → is_warm d (s * n + i) ≡ w
      → (lru_head (not w) (mru_end.cache_sets s) ≡ lru_head (not w) (d.cache_sets s))
        × (lru_tail (not w) (mru_end.cache_sets s) ≡ lru_tail (not w) (d.cache_sets s))
        × (lru_blocks (not w) (mru_end.cache_sets s) ≡ lru_blocks (not w) (d.cache_sets s))
  unfolding linked_mru
  mru_end_other true e = ground arith
  mru_end_other false e = ground arith

  pub mru_end_same :
      (w : Bool)
      → is_warm d (s * n + i) ≡ w
      → i < n
      → (lru_tail w (d.cache_sets s) ≡ null) ⊎ (lru_tail w (d.cache_sets s) < n)
      → SameButLinks n s d mru_end
  unfolding linked_mru
  mru_end_same w e h t =
      Same-trans n s d d2 _ (Same-trans n s d d1 d2 (set_links-Same n s d i null at_end h) second) (
        Same-trans n s d2 (put_tail d2 s w' mine) _ (put_tail-Same n s d2 w' mine)
          (count_add-Same n s (put_tail d2 s w' mine) w'))
    where
      w' : Bool
      w' = is_warm d (s * n + i)

      mine : ℕ
      mine = s * n + i - s * n

      at_end : ℕ
      at_end = lru_tail w' (d.cache_sets s)

      d1 : CacheC
      d1 =
          set_block d (s * n + i)
            (record (d.cache (s * n + i)) { lru_next = null; lru_prev = at_end })

      d2 : CacheC
      d2 = if at_end == null then put_head d1 s w' mine else link_next d1 (s * n + at_end) mine

      second : SameButLinks n s d1 d2
      second = elim t [
        | inl z ↦
            rw
              (if-eq at_end null (put_head d1 s w' mine) (link_next d1 (s * n + at_end) mine)
                (ap (λ b. lru_tail b (d.cache_sets s)) e ∙ z))
              (put_head-Same n s d1 w' mine)
        | inr z ↦
            Same-if n s d1 (put_head d1 s w' mine) (link_next d1 (s * n + at_end) mine)
              (at_end == null) (put_head-Same n s d1 w' mine)
              (link_next-Same n s d1 at_end mine (rw e z))
      ]

-- The LRU end, the head.
module _ (n : ℕ) (d : CacheC) (s i : ℕ) where
  abbrev pub lru_end : CacheC
  lru_end = linked_lru d s (s * n) (s * n + i)

  pub lru_end_prev :
      (w : Bool)
      → is_warm d (s * n + i) ≡ w
      → i ≢ lru_head w (d.cache_sets s)
      → (j : ℕ) → j ≢ null
      → prev_of n lru_end s j
        ≡ (if j == i then null else if j == lru_head w (d.cache_sets s) then i else prev_of n d s j)
  unfolding linked_lru
  lru_end_prev true e ne j nn = ground arith
  lru_end_prev false e ne j nn = ground arith

  pub lru_end_next :
      (w : Bool)
      → is_warm d (s * n + i) ≡ w
      → i ≢ lru_head w (d.cache_sets s)
      → (j : ℕ)
      → next_of n lru_end s j ≡ (if j == i then lru_head w (d.cache_sets s) else next_of n d s j)
  unfolding linked_lru
  lru_end_next true e ne j = ground arith
  lru_end_next false e ne j = ground arith

  pub lru_end_tail :
      (w : Bool)
      → is_warm d (s * n + i) ≡ w
      → lru_tail w (lru_end.cache_sets s)
        ≡ (if lru_head w (d.cache_sets s) == null then i else lru_tail w (d.cache_sets s))
  unfolding linked_lru
  lru_end_tail true e = ground arith
  lru_end_tail false e = ground arith

  pub lru_end_head : (w : Bool) → is_warm d (s * n + i) ≡ w → lru_head w (lru_end.cache_sets s) ≡ i
  unfolding linked_lru
  lru_end_head true e = ground arith
  lru_end_head false e = ground arith

  pub lru_end_blocks :
      (w : Bool)
      → is_warm d (s * n + i) ≡ w
      → lru_blocks w (lru_end.cache_sets s) ≡ (lru_blocks w (d.cache_sets s) + 1) % u16
  unfolding linked_lru
  lru_end_blocks true e = ground arith
  lru_end_blocks false e = ground arith

  pub lru_end_other :
      (w : Bool)
      → is_warm d (s * n + i) ≡ w
      → (lru_head (not w) (lru_end.cache_sets s) ≡ lru_head (not w) (d.cache_sets s))
        × (lru_tail (not w) (lru_end.cache_sets s) ≡ lru_tail (not w) (d.cache_sets s))
        × (lru_blocks (not w) (lru_end.cache_sets s) ≡ lru_blocks (not w) (d.cache_sets s))
  unfolding linked_lru
  lru_end_other true e = ground arith
  lru_end_other false e = ground arith

  pub lru_end_same :
      (w : Bool)
      → is_warm d (s * n + i) ≡ w
      → i < n
      → (lru_head w (d.cache_sets s) ≡ null) ⊎ (lru_head w (d.cache_sets s) < n)
      → SameButLinks n s d lru_end
  unfolding linked_lru
  lru_end_same w e h t =
      Same-trans n s d d2 _ (Same-trans n s d d1 d2 (set_links-Same n s d i at_end null h) second) (
        Same-trans n s d2 (put_head d2 s w' mine) _ (put_head-Same n s d2 w' mine)
          (count_add-Same n s (put_head d2 s w' mine) w'))
    where
      w' : Bool
      w' = is_warm d (s * n + i)

      mine : ℕ
      mine = s * n + i - s * n

      at_end : ℕ
      at_end = lru_head w' (d.cache_sets s)

      d1 : CacheC
      d1 =
          set_block d (s * n + i)
            (record (d.cache (s * n + i)) { lru_next = at_end; lru_prev = null })

      d2 : CacheC
      d2 = if at_end == null then put_tail d1 s w' mine else link_prev d1 (s * n + at_end) mine

      second : SameButLinks n s d1 d2
      second = elim t [
        | inl z ↦
            rw
              (if-eq at_end null (put_tail d1 s w' mine) (link_prev d1 (s * n + at_end) mine)
                (ap (λ b. lru_head b (d.cache_sets s)) e ∙ z))
              (put_tail-Same n s d1 w' mine)
        | inr z ↦
            Same-if n s d1 (put_tail d1 s w' mine) (link_prev d1 (s * n + at_end) mine)
              (at_end == null) (put_tail-Same n s d1 w' mine)
              (link_prev-Same n s d1 at_end mine (rw e z))
      ]
