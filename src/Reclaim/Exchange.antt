-- ===== src/Reclaim/Exchange.antt =====
-- flashcache_reclaim_promote_block and flashcache_reclaim_demote_block (src/flashcache_reclaim.c):
-- a warm and a hot block change places.
use flashcache_ubuntu_xenial.Prelude.{
  ℕ, ◌+◌, ◌*◌, ◌<◌, ◌≡◌, ◌≢◌, refl, sym, ap, ◌∙◌, Bool, true, false, not, some, List, [], ◌∷◌, ◌++◌,
  arith, NotIn, NotIn-append, NotIn-split,
}
use flashcache_ubuntu_xenial.Device.{CacheC}
use flashcache_ubuntu_xenial.Reclaim.Lists.{
  is_warm, remove_block_from_list, add_block_to_list_mru, add_block_to_list_lru,
}
use flashcache_ubuntu_xenial.Reclaim.Policy.{is_hot, retag}
use flashcache_ubuntu_xenial.Reclaim.Shape.{OnList, IsLru, SameButLinks, SameOutside}
use flashcache_ubuntu_xenial.Reclaim.Link.{mru_end, lru_end}
use flashcache_ubuntu_xenial.Reclaim.Remove.{OnList-Same}
use flashcache_ubuntu_xenial.Reclaim.Add.{add_block_to_list_mru-IsLru, add_block_to_list_lru-IsLru}
use flashcache_ubuntu_xenial.Reclaim.Moves.{
  IsLru-true, IsLru-false, IsLru-flip, IsLru-unflip, member_OnList, removed-NotIn, remove_Becomes,
  changed-IsLru, changed-SameOutside, SameOutside-links, SameOutside-trans,
}

-- A block with its flag exchanged is on the list `w`, if it lies in the set.
pub retag-OnList :
    (n s i : ℕ) (d : CacheC) (w : Bool) → i < n → OnList n (retag d (s * n + i) w) s w i
retag-OnList n s i d w h = (h, ground arith, ground arith, λ e. ground arith)

-- A counter of the cache has no part in the lists.
pub promoted-IsLru :
    (n s k : ℕ) (d : CacheC) (w : Bool) (xs ys : List ℕ)
    → IsLru n d s w xs ys
    → IsLru n (record d { lru_promotions = k }) s w xs ys
promoted-IsLru n s k d w xs ys v = record {
  mine = record { links = v.mine.links; members = v.mine.members; counted = v.mine.counted };
  other = record { links = v.other.links; members = v.other.members; counted = v.other.counted };
  distinct = v.distinct;
  assoc_is = v.assoc_is;
  small = v.small;
}

pub demoted-IsLru :
    (n s k : ℕ) (d : CacheC) (w : Bool) (xs ys : List ℕ)
    → IsLru n d s w xs ys
    → IsLru n (record d { lru_demotions = k }) s w xs ys
demoted-IsLru n s k d w xs ys v = record {
  mine = record { links = v.mine.links; members = v.mine.members; counted = v.mine.counted };
  other = record { links = v.other.links; members = v.other.members; counted = v.other.counted };
  distinct = v.distinct;
  assoc_is = v.assoc_is;
  small = v.small;
}

-- The state between the steps of an exchange: block `a` has left the list `w` and block `b` the
-- other; `a` takes the other flag.
pub record Swapped (n s : ℕ) (d d2 : CacheC) (w : Bool) (a b : ℕ) (xs ys : List ℕ) : Type 0 where
  pub lists : IsLru n d2 s w xs ys
  pub free_a : NotIn a (xs ++ ys)
  pub free_b : NotIn b (xs ++ ys)
  pub differ : a ≢ b
  pub in_set_a : a < n
  pub in_set_b : b < n
  pub flag_b :
      ((d2.cache (s * n + b)).lru_state.warm ≡ not w)
      × ((d2.cache (s * n + b)).lru_state.hot ≡ not (not w))
  pub frame : SameOutside n s d d2

-- Both blocks leave their lists.
module _ (n s a b : ℕ) (d : CacheC) (w : Bool) (xs ys us vs : List ℕ)
    (v : IsLru n d s w (xs ++ a ∷ ys) (us ++ b ∷ vs)) where
  pub both_removed :
      (d1 : CacheC) × (d2 : CacheC) × (remove_block_from_list d (s * n + a) ≡ some d1)
      × (remove_block_from_list d1 (s * n + b) ≡ some d2)
      × Swapped n s d d2 w a b (xs ++ ys) (us ++ vs)
  both_removed =
      let (d1, e1, v1, same1) = remove_Becomes n s a d w xs ys (us ++ b ∷ vs) v in
      let f1 : IsLru n d1 s (not w) (us ++ b ∷ vs) (xs ++ ys) =
        IsLru-flip n s d1 w (xs ++ ys) (us ++ b ∷ vs) v1 in
      let (d2, e2, v2, same2) = remove_Becomes n s b d1 (not w) us vs (xs ++ ys) f1 in
      let out_a : NotIn a ((xs ++ ys) ++ (us ++ b ∷ vs)) =
        removed-NotIn n s a d w xs ys (us ++ b ∷ vs) v in
      let (a_xy, a_ub) = NotIn-split a (xs ++ ys) (us ++ b ∷ vs) out_a in
      let (a_u, a_bv) = NotIn-split a us (b ∷ vs) a_ub in
      let (b_uv, b_xy) =
        NotIn-split b (us ++ vs) (xs ++ ys) (removed-NotIn n s b d1 (not w) us vs (xs ++ ys) f1) in
      let oa : OnList n d s w a = member_OnList n s a d w xs ys (us ++ b ∷ vs) v in
      let ob : OnList n d1 s (not w) b = member_OnList n s b d1 (not w) us vs (xs ++ ys) f1 in
      let ob2 : OnList n d2 s (not w) b =
        (OnList-Same n s d1 d2 (not w) (b ∷ []) same2 (ob, tt)).0 in
      (
        d1,
        d2,
        e1,
        e2,
        record {
          lists = IsLru-unflip n s d2 w (xs ++ ys) (us ++ vs) v2;
          free_a = NotIn-append a (xs ++ ys) (us ++ vs) a_xy (NotIn-append a us vs a_u a_bv.1);
          free_b = NotIn-append b (xs ++ ys) (us ++ vs) b_xy b_uv;
          differ = a_bv.0;
          in_set_a = oa.0;
          in_set_b = ob.0;
          flag_b = (ob2.1, ob2.2);
          frame =
              SameOutside-trans n s d d1 d2 (SameOutside-links n s d d1 same1)
                (SameOutside-links n s d1 d2 same2);
        },
      )

-- The two blocks go to their new lists: the one that becomes hot to the LRU end of the hot list, the
-- one that becomes warm to the MRU end of the warm list. Promotion puts the hot one in first.
module _ (n s a b : ℕ) (d d2 : CacheC) (ws hs : List ℕ) (m : Swapped n s d d2 true a b ws hs) where
  abbrev pub up1 : CacheC
  up1 = retag d2 (s * n + a) false

  abbrev pub up2 : CacheC
  up2 = lru_end n up1 s a

  abbrev pub up3 : CacheC
  up3 = retag up2 (s * n + b) true

  abbrev pub up4 : CacheC
  up4 = mru_end n up3 s b

  free_a' : NotIn a (hs ++ ws)
  free_a' = let (l, r) = NotIn-split a ws hs m.free_a in NotIn-append a hs ws r l

  pub hot_in :
      (add_block_to_list_lru up1 (s * n + a) ≡ some up2)
      × IsLru n up2 s false (a ∷ hs) ws
      × SameButLinks n s up1 up2
  hot_in =
      add_block_to_list_lru-IsLru n s a up1 false hs ws
        (IsLru-false n s up1 hs ws (changed-IsLru n s a d2 _ true ws hs m.free_a m.lists))
        (retag-OnList n s a d2 false m.in_set_a) free_a'

  free_b' : NotIn b (ws ++ a ∷ hs)
  free_b' =
      let (l, r) = NotIn-split b ws hs m.free_b in
      NotIn-append b ws (a ∷ hs) l (λ e. m.differ (sym e), r)

  pub warm_in :
      (add_block_to_list_mru up3 (s * n + b) ≡ some up4)
      × IsLru n up4 s true (ws ++ b ∷ []) (a ∷ hs)
      × SameButLinks n s up3 up4
  warm_in =
      add_block_to_list_mru-IsLru n s b up3 true ws (a ∷ hs)
        (changed-IsLru n s b up2 _ true ws (a ∷ hs) free_b'
          (IsLru-true n s up2 ws (a ∷ hs) hot_in.1))
        (retag-OnList n s b up2 true m.in_set_b) free_b'

  pub still_hot : is_hot up2 (s * n + b) ≡ true
  still_hot =
      ap (λ t. t.hot) (hot_in.2.lru_same (s * n + b))
      ∙ (let ne : a ≢ b = m.differ in
          let f : (d2.cache (s * n + b)).lru_state.hot ≡ true = m.flag_b.1 in ground arith)

  pub up_frame : SameOutside n s d up4
  up_frame = SameOutside-trans n s d d2 up4 m.frame (
      SameOutside-trans n s d2 up1 up4 (changed-SameOutside n s a d2 _ m.in_set_a refl) (
        SameOutside-trans n s up1 up2 up4 (SameOutside-links n s up1 up2 hot_in.2) (
          SameOutside-trans n s up2 up3 up4 (changed-SameOutside n s b up2 _ m.in_set_b refl)
            (SameOutside-links n s up3 up4 warm_in.2))))

-- The same for demotion, which puts the warm one in first.
module _ (n s a b : ℕ) (d d2 : CacheC) (ws hs : List ℕ) (m : Swapped n s d d2 false a b hs ws) where
  abbrev pub down1 : CacheC
  down1 = retag d2 (s * n + a) true

  abbrev pub down2 : CacheC
  down2 = mru_end n down1 s a

  abbrev pub down3 : CacheC
  down3 = retag down2 (s * n + b) false

  abbrev pub down4 : CacheC
  down4 = lru_end n down3 s b

  down_free_a : NotIn a (ws ++ hs)
  down_free_a = let (l, r) = NotIn-split a hs ws m.free_a in NotIn-append a ws hs r l

  pub down_warm_in :
      (add_block_to_list_mru down1 (s * n + a) ≡ some down2)
      × IsLru n down2 s true (ws ++ a ∷ []) hs
      × SameButLinks n s down1 down2
  down_warm_in =
      add_block_to_list_mru-IsLru n s a down1 true ws hs
        (IsLru-true n s down1 ws hs (changed-IsLru n s a d2 _ false hs ws m.free_a m.lists))
        (retag-OnList n s a d2 true m.in_set_a) down_free_a

  down_free_b : NotIn b (hs ++ (ws ++ a ∷ []))
  down_free_b =
      let (l, r) = NotIn-split b hs ws m.free_b in
      NotIn-append b hs (ws ++ a ∷ []) l (NotIn-append b ws (a ∷ []) r (λ e. m.differ (sym e), tt))

  pub down_hot_in :
      (add_block_to_list_lru down3 (s * n + b) ≡ some down4)
      × IsLru n down4 s false (b ∷ hs) (ws ++ a ∷ [])
      × SameButLinks n s down3 down4
  down_hot_in =
      add_block_to_list_lru-IsLru n s b down3 false hs (ws ++ a ∷ [])
        (changed-IsLru n s b down2 _ false hs (ws ++ a ∷ []) down_free_b
          (IsLru-false n s down2 hs (ws ++ a ∷ []) down_warm_in.1))
        (retag-OnList n s b down2 false m.in_set_b) down_free_b

  pub still_warm : is_warm down2 (s * n + b) ≡ true
  still_warm =
      ap (λ t. t.warm) (down_warm_in.2.lru_same (s * n + b))
      ∙ (let ne : a ≢ b = m.differ in
          let f : is_warm d2 (s * n + b) ≡ true = m.flag_b.0 in ground arith)

  pub down_frame : SameOutside n s d down4
  down_frame = SameOutside-trans n s d d2 down4 m.frame (
      SameOutside-trans n s d2 down1 down4 (changed-SameOutside n s a d2 _ m.in_set_a refl) (
        SameOutside-trans n s down1 down2 down4 (SameOutside-links n s down1 down2 down_warm_in.2) (
          SameOutside-trans n s down2 down3 down4
            (changed-SameOutside n s b down2 _ m.in_set_b refl)
            (SameOutside-links n s down3 down4 down_hot_in.2))))

-- A counter of the cache has no part in the frame either.
pub promoted-frame :
    (n s k : ℕ) (d d' : CacheC)
    → SameOutside n s d d'
    → SameOutside n s d (record d' { lru_promotions = k })
promoted-frame n s k d d' f = record {
  assoc_kept = f.assoc_kept;
  state_kept = f.state_kept;
  sets_kept = f.sets_kept;
  blocks_kept = f.blocks_kept;
}

pub demoted-frame :
    (n s k : ℕ) (d d' : CacheC)
    → SameOutside n s d d'
    → SameOutside n s d (record d' { lru_demotions = k })
demoted-frame n s k d d' f = record {
  assoc_kept = f.assoc_kept;
  state_kept = f.state_kept;
  sets_kept = f.sets_kept;
  blocks_kept = f.blocks_kept;
}
