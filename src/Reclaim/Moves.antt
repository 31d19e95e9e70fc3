-- ===== src/Reclaim/Moves.antt =====
-- flashcache_reclaim_move_to_mru (src/flashcache_reclaim.c), and the small steps of the policies:
-- the two lists exchanged, a block's flag and count rewritten.
use flashcache_ubuntu_xenial.Prelude.{
  ℕ, ◌+◌, ◌*◌, ◌<◌, ◌≡◌, ◌≢◌, refl, ◌∙◌, Bool, true, false, not, List, [], ◌∷◌, ◌++◌, arith, In,
  NotIn, ne_of_NotIn, bind-some, guard-true, All-at, All-map, In-middle, Distinct-split,
  Distinct-append, NotIn-append, Distinct-middle, NotIn-Apart, Apart-sym, NotIn-split,
}
use flashcache_ubuntu_xenial.Device.{CacheC, CacheBlock, null, set_block}
use flashcache_ubuntu_xenial.Links.Segments.{Seg-frame}
use flashcache_ubuntu_xenial.Reclaim.Lists.{
  lru_head, lru_tail, one_flag, remove_block_from_list, move_to_mru,
}
use flashcache_ubuntu_xenial.Reclaim.Shape.{
  next_of, prev_of, OnList, IsList, IsLru, SameButLinks, SameOutside, Becomes,
}
use flashcache_ubuntu_xenial.Reclaim.Frame.{Same-trans}
use flashcache_ubuntu_xenial.Reclaim.Unlink.{gone}
use flashcache_ubuntu_xenial.Reclaim.Link.{mru_end}
use flashcache_ubuntu_xenial.Reclaim.Remove.{
  OnList-Same, one_flag_of_OnList, remove_block_from_list-IsLru,
}
use flashcache_ubuntu_xenial.Reclaim.Add.{add_block_to_list_mru-IsLru}

-- Which list is named first does not matter.
pub IsLru-true :
    (n s : ℕ) (d : CacheC) (xs ys : List ℕ) → IsLru n d s false ys xs → IsLru n d s true xs ys
IsLru-true n s d xs ys v =
    let (a, b, c) = Distinct-split ys xs v.distinct in
    record {
      mine = v.other;
      other = v.mine;
      distinct = Distinct-append xs ys b a (Apart-sym ys xs c);
      assoc_is = v.assoc_is;
      small = v.small;
    }

pub IsLru-false :
    (n s : ℕ) (d : CacheC) (xs ys : List ℕ) → IsLru n d s true ys xs → IsLru n d s false xs ys
IsLru-false n s d xs ys v =
    let (a, b, c) = Distinct-split ys xs v.distinct in
    record {
      mine = v.other;
      other = v.mine;
      distinct = Distinct-append xs ys b a (Apart-sym ys xs c);
      assoc_is = v.assoc_is;
      small = v.small;
    }

pub IsLru-flip :
    (n s : ℕ) (d : CacheC) (w : Bool) (xs ys : List ℕ)
    → IsLru n d s w xs ys
    → IsLru n d s (not w) ys xs
IsLru-flip n s d true xs ys v = IsLru-false n s d ys xs v
IsLru-flip n s d false xs ys v = IsLru-true n s d ys xs v

pub IsLru-unflip :
    (n s : ℕ) (d : CacheC) (w : Bool) (xs ys : List ℕ)
    → IsLru n d s (not w) ys xs
    → IsLru n d s w xs ys
IsLru-unflip n s d true xs ys v = IsLru-true n s d xs ys v
IsLru-unflip n s d false xs ys v = IsLru-false n s d xs ys v

module _ (n s i : ℕ) (d : CacheC) (w : Bool) (xs ys zs : List ℕ)
    (v : IsLru n d s w (xs ++ i ∷ ys) zs) where
  pub member_OnList : OnList n d s w i
  member_OnList = All-at (OnList n d s w) i (xs ++ i ∷ ys) v.mine.members (In-middle i xs ys)

  -- A removed block is on neither list.
  pub removed-NotIn : NotIn i ((xs ++ ys) ++ zs)
  removed-NotIn =
      let (a, b, c) = Distinct-split (xs ++ i ∷ ys) zs v.distinct in
      NotIn-append i (xs ++ ys) zs (Distinct-middle i xs ys a).1
        (NotIn-Apart i (xs ++ i ∷ ys) zs c (In-middle i xs ys))

  pub remove_Becomes : Becomes n d s (remove_block_from_list d (s * n + i)) w (xs ++ ys) zs
  remove_Becomes =
      let (e, u, same) = remove_block_from_list-IsLru n s i d w xs ys zs v in
      (gone n d s i, e, u, same)

  -- The block goes behind all others of its list.
  pub move_to_mru-IsLru : Becomes n d s (move_to_mru d (s * n + i)) w ((xs ++ ys) ++ i ∷ []) zs
  unfolding move_to_mru
  move_to_mru-IsLru =
      let (d1, e1, v1, same1) = remove_Becomes in
      let o1 : OnList n d1 s w i = (OnList-Same n s d d1 w (i ∷ []) same1 (member_OnList, tt)).0 in
      let (e2, v2, same2) =
        add_block_to_list_mru-IsLru n s i d1 w (xs ++ ys) zs v1 o1 removed-NotIn in
      (
        mru_end n d1 s i,
        guard-true (one_flag d (s * n + i)) _ _ (one_flag_of_OnList n s d w i member_OnList)
            (bind-some (remove_block_from_list d (s * n + i)) _ d1 _ e1 e2),
        v2,
        Same-trans n s d d1 (mru_end n d1 s i) same1 same2,
      )

-- A block's flags, state and counts are rewritten, its links kept: lists that do not hold it stay.
module _ (n s i : ℕ) (d : CacheC) (b : CacheBlock) where
  abbrev pub changed : CacheC
  changed = set_block d (s * n + i) b

  changed-IsList :
      (w : Bool) (xs : List ℕ) → NotIn i xs → IsList n d s w xs → IsList n changed s w xs
  changed-IsList w xs out l = record {
    links =
        Seg-frame null (next_of n d s) (prev_of n d s) (next_of n changed s) (prev_of n changed s)
          null (lru_head w (d.cache_sets s)) xs (lru_tail w (d.cache_sets s)) null
          (λ j u. let ne : i ≢ j = ne_of_NotIn i j xs out u in (ground arith, ground arith))
          l.links;
    members =
        All-map xs
          (λ j u o.
            let ne : i ≢ j = ne_of_NotIn i j xs out u in
            (o.0, ground arith, ground arith, λ e. ground (arith, o.3 e)))
          l.members;
    counted = l.counted;
  }

  pub changed-IsLru :
      (w : Bool) (xs ys : List ℕ)
      → NotIn i (xs ++ ys)
      → IsLru n d s w xs ys
      → IsLru n changed s w xs ys
  changed-IsLru w xs ys out v = record {
    mine = changed-IsList w xs (NotIn-split i xs ys out).0 v.mine;
    other = changed-IsList (not w) ys (NotIn-split i xs ys out).1 v.other;
    distinct = v.distinct;
    assoc_is = v.assoc_is;
    small = v.small;
  }

  -- The same where the block is on the warm list and keeps its flags and links: only counts change.
  pub recount-IsLru :
      (xs ys : List ℕ)
      → b.lru_prev ≡ prev_of n d s i
      → b.lru_next ≡ next_of n d s i
      → b.lru_state ≡ (d.cache (s * n + i)).lru_state
      → In i xs
      → IsLru n d s true xs ys
      → IsLru n changed s true xs ys
  recount-IsLru xs ys p q f inside v = record {
    mine = record {
      links =
          Seg-frame null (next_of n d s) (prev_of n d s) (next_of n changed s) (prev_of n changed s)
            null (lru_head true (d.cache_sets s)) xs (lru_tail true (d.cache_sets s)) null
            (λ j u. (ground arith, ground arith)) v.mine.links;
      members = All-map xs (λ j u o. (o.0, ground arith, ground arith, λ e. cc)) v.mine.members;
      counted = v.mine.counted;
    };
    other = changed-IsList false ys apart v.other;
    distinct = v.distinct;
    assoc_is = v.assoc_is;
    small = v.small;
  }
    where
      apart : NotIn i ys
      apart = NotIn-Apart i xs ys (Distinct-split xs ys v.distinct).2 inside

  pub changed-SameOutside :
      i < n → b.cache_state ≡ (d.cache (s * n + i)).cache_state → SameOutside n s d changed
  changed-SameOutside h e = record {
    assoc_kept = refl;
    state_kept = λ k. ground arith;
    sets_kept = λ t ne. refl;
    blocks_kept = λ k out. ground arith;
  }

module _ (n s : ℕ) where
  pub SameOutside-links : (d d' : CacheC) → SameButLinks n s d d' → SameOutside n s d d'
  SameOutside-links d d' h = record {
    assoc_kept = h.assoc_same;
    state_kept = h.state_same;
    sets_kept = h.sets_same;
    blocks_kept = h.blocks_same;
  }

  pub SameOutside-trans :
      (a b c : CacheC) → SameOutside n s a b → SameOutside n s b c → SameOutside n s a c
  SameOutside-trans a b c p q = record {
    assoc_kept = q.assoc_kept ∙ p.assoc_kept;
    state_kept = λ k. q.state_kept k ∙ p.state_kept k;
    sets_kept = λ t ne. q.sets_kept t ne ∙ p.sets_kept t ne;
    blocks_kept = λ k out. q.blocks_kept k out ∙ p.blocks_kept k out;
  }
