-- ===== src/Reclaim/Shift.antt =====
-- What the loops of flashcache_reclaim_rebalance_lru do to the two lists of a set
-- (src/flashcache_reclaim.c).
use flashcache_ubuntu_xenial.Prelude.{
  ℕ, zero, suc, ◌+◌, ◌*◌, ◌≡◌, refl, ap, ◌∙◌, Bool, not, arith, some, ◌>>=◌, bind-some, if-eq,
  if-ne, List, [], ◌∷◌, ◌++◌, NotIn, NotIn-append, NotIn-split,
}
use flashcache_ubuntu_xenial.Device.{CacheC, null}
use flashcache_ubuntu_xenial.Reclaim.Lists.{lru_head}
use flashcache_ubuntu_xenial.Reclaim.Policy.{retag}
use flashcache_ubuntu_xenial.Reclaim.Balance.{shift_block, shift_blocks}
use flashcache_ubuntu_xenial.Reclaim.Shape.{OnList, IsLru, SameOutside}
use flashcache_ubuntu_xenial.Reclaim.Link.{lru_end}
use flashcache_ubuntu_xenial.Reclaim.Add.{add_block_to_list_lru-IsLru}
use flashcache_ubuntu_xenial.Reclaim.Exchange.{retag-OnList}
use flashcache_ubuntu_xenial.Reclaim.Moves.{
  IsLru-flip, IsLru-unflip, member_OnList, removed-NotIn, remove_Becomes, changed-IsLru,
  changed-SameOutside, SameOutside-links, SameOutside-trans,
}

-- The lists after at most `k` blocks of the first went to the front of the second, one by one.
abbrev pub stays_in : ℕ → List ℕ → List ℕ
stays_in zero xs = xs
stays_in (suc k) [] = []
stays_in (suc k) (x ∷ xs) = stays_in k xs

abbrev pub moves_to : ℕ → List ℕ → List ℕ → List ℕ
moves_to zero xs ys = ys
moves_to (suc k) [] ys = ys
moves_to (suc k) (x ∷ xs) ys = moves_to k xs (x ∷ ys)

shift_block-IsLru :
    (n s x : ℕ) (d : CacheC) (w : Bool) (xs ys : List ℕ)
    → IsLru n d s w (x ∷ xs) ys
    → (d' : CacheC) × (shift_block d (s * n + x) w ≡ some d')
      × IsLru n d' s w xs (x ∷ ys)
      × SameOutside n s d d'
unfolding shift_block
shift_block-IsLru n s x d w xs ys v =
    let o : OnList n d s w x = member_OnList n s x d w [] xs ys v in
    let (d1, e1, v1, same1) = remove_Becomes n s x d w [] xs ys v in
    let (a, b) = NotIn-split x xs ys (removed-NotIn n s x d w [] xs ys v) in
    let out : NotIn x (ys ++ xs) = NotIn-append x ys xs b a in
    let d2 : CacheC = retag d1 (s * n + x) (not w) in
    let v2 : IsLru n d2 s (not w) ys xs =
      changed-IsLru n s x d1 _ (not w) ys xs out (IsLru-flip n s d1 w xs ys v1) in
    let (e3, v3, same3) =
      add_block_to_list_lru-IsLru n s x d2 (not w) ys xs v2 (retag-OnList n s x d1 (not w) o.0)
        out in
    let d3 : CacheC = lru_end n d2 s x in
    (
      d3,
      bind-some _ _ d1 _ e1 e3,
      IsLru-unflip n s d3 w xs (x ∷ ys) v3,
      SameOutside-trans n s d d1 d3 (SameOutside-links n s d d1 same1) (
          SameOutside-trans n s d1 d2 d3 (changed-SameOutside n s x d1 _ o.0 refl)
            (SameOutside-links n s d2 d3 same3)),
    )

-- The loop over a set moves at most `k` blocks, the LRU end of the one list first, each to the LRU
-- end of the other. No assertion fails, the lists stay well formed, and other sets stay.
pub shift_blocks-IsLru :
    (n s k : ℕ) (d : CacheC) (w : Bool) (xs ys : List ℕ)
    → IsLru n d s w xs ys
    → (d' : CacheC) × (shift_blocks w s k d ≡ some d')
      × IsLru n d' s w (stays_in k xs) (moves_to k xs ys)
      × SameOutside n s d d'
unfolding shift_blocks
shift_blocks-IsLru n s zero d w xs ys v = (
  d,
  refl,
  v,
  record {
    assoc_kept = refl;
    state_kept = λ k. refl;
    sets_kept = λ t ne. refl;
    blocks_kept = λ k out. refl;
  },
)
shift_blocks-IsLru n s (suc k) d w [] ys v = (
  d,
  if-eq (lru_head w (d.cache_sets s)) null _ _ v.mine.links.0,
  v,
  record {
    assoc_kept = refl;
    state_kept = λ j. refl;
    sets_kept = λ t ne. refl;
    blocks_kept = λ j out. refl;
  },
)
shift_blocks-IsLru n s (suc k) d w (x ∷ xs) ys v =
    let (d1, e1, v1, same1) = shift_block-IsLru n s x d w xs ys v in
    let (d2, e2, v2, same2) = shift_blocks-IsLru n s k d1 w xs (x ∷ ys) v1 in
    let here : lru_head w (d.cache_sets s) + s * d.assoc ≡ s * n + x =
      rw (v.mine.links.0, v.assoc_is) (omega arith) in
    (
      d2,
      if-ne (lru_head w (d.cache_sets s)) null _ _ (rw (v.mine.links.0) v.mine.links.1)
          ∙ ap (λ i. shift_block d i w >>= shift_blocks w s k) here
          ∙ bind-some _ _ d1 _ e1 e2,
      v2,
      SameOutside-trans n s d d1 d2 same1 same2,
    )
