-- ===== src/Reclaim/Promote.antt =====
-- What flashcache_reclaim_promote_block and flashcache_reclaim_demote_block do to the two lists
-- (src/flashcache_reclaim.c).
use mathlib.Core.Path.{ap₂, subst}
use mathlib.Core.List.{append-nil}
use flashcache_ubuntu_xenial.Links.Segments.{tail_of_append}
use flashcache_ubuntu_xenial.Prelude.{
  ℕ, ◌+◌, ◌*◌, ◌%◌, ◌≡◌, ◌≢◌, refl, ap, ◌∙◌, true, false, some, List, [], ◌∷◌, ◌++◌, bind-some,
  guard-true, if-ne, if-eq,
}
use flashcache_ubuntu_xenial.Device.{CacheC, null, u64}
use flashcache_ubuntu_xenial.Reclaim.Lists.{
  lru_head, lru_tail, is_warm, remove_block_from_list, add_block_to_list_mru, add_block_to_list_lru,
}
use flashcache_ubuntu_xenial.Reclaim.Policy.{
  is_hot, retag, promote_in_set, promote_block, demote_in_set, demote_block,
}
use flashcache_ubuntu_xenial.Reclaim.Shape.{next_of, prev_of, OnList, IsLru, SameOutside}
use flashcache_ubuntu_xenial.Reclaim.Remove.{index_locals}
use flashcache_ubuntu_xenial.Reclaim.Moves.{IsLru-true, IsLru-false, member_OnList}
use flashcache_ubuntu_xenial.Reclaim.Exchange.{
  both_removed, promoted-IsLru, demoted-IsLru, promoted-frame, demoted-frame, hot_in, warm_in,
  still_hot, up_frame, down_warm_in, down_hot_in, still_warm, down_frame, up2, up4, down2, down4,
}

-- The runs of the two bodies, step by step.
module _ (d d1 d2 d3 d4 : CacheC) (set start index : ℕ) where
  promote_run :
      (h : ℕ)
      → is_warm d index ≡ true
      → (d.cache_sets set).hotlist_lru_head ≡ h
      → h ≢ null
      → remove_block_from_list d index ≡ some d1
      → remove_block_from_list d1 (start + h) ≡ some d2
      → add_block_to_list_lru (retag d2 index false) index ≡ some d3
      → is_hot d3 (start + h) ≡ true
      → add_block_to_list_mru (retag d3 (start + h) true) (start + h) ≡ some d4
      → promote_in_set d set start index
        ≡ some (record d4 { lru_promotions = (d4.lru_promotions + 1) % u64 }, true)
  unfolding promote_in_set
  promote_run h ew eh ne e1 e2 e3 e4 e5 = guard-true (is_warm d index) _ _ ew (
      if-ne (d.cache_sets set).hotlist_lru_head null _ _ (rw eh ne)
      ∙ bind-some _ _ d1 _ e1 (
          bind-some _ _ d2 _ (ap (λ t. remove_block_from_list d1 (start + t)) eh ∙ e2) (
            bind-some _ _ d3 _ e3 (
              guard-true _ _ _ (ap (λ t. is_hot d3 (start + t)) eh ∙ e4) (
                bind-some _ _ d4 _
                  (ap (λ t. add_block_to_list_mru (retag d3 (start + t) true) (start + t)) eh ∙ e5)
                  refl)))))

  demote_run :
      (t : ℕ)
      → is_hot d index ≡ true
      → (d.cache_sets set).warmlist_lru_tail ≡ t
      → t ≢ null
      → remove_block_from_list d index ≡ some d1
      → remove_block_from_list d1 (start + t) ≡ some d2
      → add_block_to_list_mru (retag d2 index true) index ≡ some d3
      → is_warm d3 (start + t) ≡ true
      → add_block_to_list_lru (retag d3 (start + t) false) (start + t) ≡ some d4
      → demote_in_set d set start index
        ≡ some (record d4 { lru_demotions = (d4.lru_demotions + 1) % u64 }, true)
  unfolding demote_in_set
  demote_run t ew eh ne e1 e2 e3 e4 e5 = guard-true (is_hot d index) _ _ ew (
      if-ne (d.cache_sets set).warmlist_lru_tail null _ _ (rw eh ne)
      ∙ bind-some _ _ d1 _ e1 (
          bind-some _ _ d2 _ (ap (λ t. remove_block_from_list d1 (start + t)) eh ∙ e2) (
            bind-some _ _ d3 _ e3 (
              guard-true _ _ _ (ap (λ t. is_warm d3 (start + t)) eh ∙ e4) (
                bind-some _ _ d4 _
                  (ap (λ t. add_block_to_list_lru (retag d3 (start + t) false) (start + t)) eh ∙ e5)
                  refl)))))

-- A warm block is promoted: it becomes the first of the hot list, whose first block before becomes
-- the last of the warm list. No assertion fails, and no other set changes.
pub promote_block-IsLru :
    (n s i h : ℕ) (d : CacheC) (xs ys hs : List ℕ)
    → IsLru n d s true (xs ++ i ∷ ys) (h ∷ hs)
    → (d' : CacheC) × (promote_block d (s * n + i) ≡ some (d', true))
      × IsLru n d' s true ((xs ++ ys) ++ h ∷ []) (i ∷ hs)
      × SameOutside n s d d'
unfolding promote_block
promote_block-IsLru n s i h d xs ys hs v =
    let (d1, d2, e1, e2, m) = both_removed n s i h d true xs ys [] hs v in
    let o : OnList n d s true i = member_OnList n s i d true xs ys (h ∷ hs) v in
    let (es, ef) = index_locals n s i d o.0 v.assoc_is in
    let d3 : CacheC = up2 n s i h d d2 (xs ++ ys) hs m in
    let d4 : CacheC = up4 n s i h d d2 (xs ++ ys) hs m in
    (
      record d4 { lru_promotions = (d4.lru_promotions + 1) % u64 },
      ap₂ (λ a b. promote_in_set d a b (s * n + i)) es ef
          ∙ promote_run d d1 d2 d3 d4 s (s * n) (s * n + i) h o.1 v.other.links.0 v.other.links.1 e1
              e2 (hot_in n s i h d d2 (xs ++ ys) hs m).0 (still_hot n s i h d d2 (xs ++ ys) hs m)
              (warm_in n s i h d d2 (xs ++ ys) hs m).0,
      promoted-IsLru n s _ d4 true _ _ (warm_in n s i h d d2 (xs ++ ys) hs m).1,
      promoted-frame n s _ d d4 (up_frame n s i h d d2 (xs ++ ys) hs m),
    )

-- With an empty hot list nothing is promoted, and the state stays.
pub promote_block-none :
    (n s i : ℕ) (d : CacheC) (xs ys : List ℕ)
    → IsLru n d s true (xs ++ i ∷ ys) []
    → promote_block d (s * n + i) ≡ some (d, false)
unfolding promote_block promote_in_set
promote_block-none n s i d xs ys v =
    let o : OnList n d s true i = member_OnList n s i d true xs ys [] v in
    let (es, ef) = index_locals n s i d o.0 v.assoc_is in
    ap₂ (λ a b. promote_in_set d a b (s * n + i)) es ef
    ∙ guard-true _ _ _ o.1 (if-eq (d.cache_sets s).hotlist_lru_head null _ _ v.other.links.0)

-- A hot block is demoted: it becomes the last of the warm list, whose last block before becomes the
-- first of the hot list. No assertion fails, and no other set changes.
pub demote_block-IsLru :
    (n s i t : ℕ) (d : CacheC) (xs ys ws : List ℕ)
    → IsLru n d s true (ws ++ t ∷ []) (xs ++ i ∷ ys)
    → (d' : CacheC) × (demote_block d (s * n + i) ≡ some (d', true))
      × IsLru n d' s true (ws ++ i ∷ []) (t ∷ (xs ++ ys))
      × SameOutside n s d d'
unfolding demote_block
demote_block-IsLru n s i t d xs ys ws v =
    let f : IsLru n d s false (xs ++ i ∷ ys) (ws ++ t ∷ []) = IsLru-false n s d _ _ v in
    let (d1, d2, e1, e2, m) = both_removed n s i t d false xs ys ws [] f in
    let o : OnList n d s false i = member_OnList n s i d false xs ys (ws ++ t ∷ []) f in
    let (es, ef) = index_locals n s i d o.0 v.assoc_is in
    let ends : ((d.cache_sets s).warmlist_lru_tail ≡ t) × (t ≢ null) =
      tail_of_append null (next_of n d s) (prev_of n d s) null (lru_head true (d.cache_sets s)) ws t
        (lru_tail true (d.cache_sets s)) null v.mine.links in
    let d3 : CacheC = down2 n s i t d d2 (ws ++ []) (xs ++ ys) m in
    let d4 : CacheC = down4 n s i t d d2 (ws ++ []) (xs ++ ys) m in
    (
      record d4 { lru_demotions = (d4.lru_demotions + 1) % u64 },
      ap₂ (λ a b. demote_in_set d a b (s * n + i)) es ef
          ∙ demote_run d d1 d2 d3 d4 s (s * n) (s * n + i) t o.2 ends.0 ends.1 e1 e2
              (down_warm_in n s i t d d2 (ws ++ []) (xs ++ ys) m).0
              (still_warm n s i t d d2 (ws ++ []) (xs ++ ys) m)
              (down_hot_in n s i t d d2 (ws ++ []) (xs ++ ys) m).0,
      subst
          (λ l.
            IsLru n (record d4 { lru_demotions = (d4.lru_demotions + 1) % u64 }) s true
              (l ++ i ∷ []) (t ∷ (xs ++ ys)))
          (append-nil ws)
          (demoted-IsLru n s _ d4 true _ _
            (IsLru-true n s d4 _ _ (down_hot_in n s i t d d2 (ws ++ []) (xs ++ ys) m).1)),
      demoted-frame n s _ d d4 (down_frame n s i t d d2 (ws ++ []) (xs ++ ys) m),
    )

-- With an empty warm list nothing is demoted, and the state stays.
pub demote_block-none :
    (n s i : ℕ) (d : CacheC) (xs ys : List ℕ)
    → IsLru n d s true [] (xs ++ i ∷ ys)
    → demote_block d (s * n + i) ≡ some (d, false)
unfolding demote_block demote_in_set
demote_block-none n s i d xs ys v =
    let f : IsLru n d s false (xs ++ i ∷ ys) [] = IsLru-false n s d _ _ v in
    let o : OnList n d s false i = member_OnList n s i d false xs ys [] f in
    let (es, ef) = index_locals n s i d o.0 v.assoc_is in
    ap₂ (λ a b. demote_in_set d a b (s * n + i)) es ef
    ∙ guard-true _ _ _ o.2 (if-eq (d.cache_sets s).warmlist_lru_tail null _ _ v.mine.links.1)
