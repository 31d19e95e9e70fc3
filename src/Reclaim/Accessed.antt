-- ===== src/Reclaim/Accessed.antt =====
-- flashcache_lru_accessed (src/flashcache_reclaim.c): where an accessed block goes.
use flashcache_ubuntu_xenial.Prelude.{
  ℕ, ◌+◌, ◌*◌, ◌%◌, ◌≡◌, refl, sym, ◌∙◌, Bool, true, false, not, ◌&&◌, some, Option, List, [], ◌∷◌,
  ◌++◌, bind-some, guard-true, ltb, In-middle, Bool-cases, inl, inr, if-true, if-false, subst,
}
use flashcache_ubuntu_xenial.Device.{CacheC, u8, is_invalid}
use flashcache_ubuntu_xenial.Reclaim.Lists.{move_to_mru}
use flashcache_ubuntu_xenial.Reclaim.Policy.{set_use, promote_or_move, lru_accessed}
use flashcache_ubuntu_xenial.Reclaim.Shape.{OnList, IsLru, SameOutside}
use flashcache_ubuntu_xenial.Reclaim.Moves.{
  member_OnList, move_to_mru-IsLru, recount-IsLru, changed-SameOutside, SameOutside-links,
  SameOutside-trans,
}
use flashcache_ubuntu_xenial.Reclaim.Promote.{promote_block-IsLru, promote_block-none}

-- The operation succeeds, with these lists, and other sets stay.
abbrev pub Reaches : ℕ → CacheC → ℕ → Option CacheC → List ℕ → List ℕ → Type 0
Reaches n d s r ws hs =
    (d' : CacheC) × (r ≡ some d') × IsLru n d' s true ws hs × SameOutside n s d d'

-- The access that reaches the threshold: the block is not INVALID, and its count is high enough.
abbrev pub promotes : CacheC → ℕ → Bool
promotes d index =
    not (is_invalid (d.cache index).cache_state)
    && not (ltb (((d.cache index).use_cnt + 1) % u8) d.sysctl_lru_promote_thresh)

-- The lists after an access to the warm block `i`, for the others `ws` of the warm list.
abbrev pub warm_after : Bool → ℕ → List ℕ → List ℕ → List ℕ
warm_after false i ws hs = ws ++ i ∷ []
warm_after true i ws [] = ws ++ i ∷ []
warm_after true i ws (h ∷ hs) = ws ++ h ∷ []

abbrev pub hot_after : Bool → ℕ → List ℕ → List ℕ
hot_after false i hs = hs
hot_after true i [] = []
hot_after true i (h ∷ hs) = i ∷ hs

module _ (n s i : ℕ) (d : CacheC) (xs ys hs : List ℕ) (v : IsLru n d s true (xs ++ i ∷ ys) hs) where
  moved : Reaches n d s (move_to_mru d (s * n + i)) ((xs ++ ys) ++ i ∷ []) hs
  moved =
      let (d', e, u, same) = move_to_mru-IsLru n s i d true xs ys hs v in
      (d', e, u, SameOutside-links n s d d' same)

promoted_or_moved :
    (n s i : ℕ) (d : CacheC) (xs ys hs : List ℕ)
    → IsLru n d s true (xs ++ i ∷ ys) hs
    → Reaches n d s
        (promote_or_move d (s * n + i))
        (warm_after true i (xs ++ ys) hs)
        (hot_after true i hs)
unfolding promote_or_move
promoted_or_moved n s i d xs ys [] v =
    let (d', e, u, same) = moved n s i d xs ys [] v in
    (d', bind-some _ _ (d, false) _ (promote_block-none n s i d xs ys v) e, u, same)
promoted_or_moved n s i d xs ys (h ∷ hs) v =
    let (d', e, u, same) = promote_block-IsLru n s i h d xs ys hs v in
    (d', bind-some _ _ (d', true) _ e refl, u, same)

-- Counting the access keeps the lists.
module _ (n s i k : ℕ) (d : CacheC) (xs ys hs : List ℕ)
    (v : IsLru n d s true (xs ++ i ∷ ys) hs) where
  abbrev counted : CacheC
  counted = set_use d (s * n + i) k

  counted-IsLru : IsLru n counted s true (xs ++ i ∷ ys) hs
  counted-IsLru = recount-IsLru n s i d _ (xs ++ i ∷ ys) hs refl refl refl (In-middle i xs ys) v

  after_count :
      (r : Option CacheC) (ws us : List ℕ) → Reaches n counted s r ws us → Reaches n d s r ws us
  after_count r ws us (d', e, u, same) = (
    d',
    e,
    u,
    SameOutside-trans n s d counted d'
        (changed-SameOutside n s i d _ (member_OnList n s i d true xs ys hs v).0 refl) same,
  )

neither : (a b x y : Bool) → a ≡ x → b ≡ y → (not a && not b) ≡ (not x && not y)
neither a b x y e f = rw (e, f)

conclude :
    (n s i : ℕ) (d : CacheC) (ws hs : List ℕ) (p : Bool) (r : Option CacheC)
    → promotes d (s * n + i) ≡ p
    → lru_accessed d (s * n + i) ≡ r
    → Reaches n d s r (warm_after p i ws hs) (hot_after p i hs)
    → Reaches n d s
        (lru_accessed d (s * n + i))
        (warm_after (promotes d (s * n + i)) i ws hs)
        (hot_after (promotes d (s * n + i)) i hs)
conclude n s i d ws hs p r ep er (d', e, u, same) = (
  d',
  er ∙ e,
  subst (λ b. IsLru n d' s true (warm_after b i ws hs) (hot_after b i hs)) (sym ep) u,
  same,
)

-- An accessed warm block goes to the end of the warm list while it is INVALID or its count is below
-- the threshold, and else changes places with the first hot block, if there is one. No assertion
-- fails, the lists stay well formed, and other sets and all block states stay.
pub lru_accessed-warm :
    (n s i : ℕ) (d : CacheC) (xs ys hs : List ℕ)
    → IsLru n d s true (xs ++ i ∷ ys) hs
    → Reaches n d s
        (lru_accessed d (s * n + i))
        (warm_after (promotes d (s * n + i)) i (xs ++ ys) hs)
        (hot_after (promotes d (s * n + i)) i hs)
unfolding lru_accessed
lru_accessed-warm n s i d xs ys hs v =
    let o : OnList n d s true i = member_OnList n s i d true xs ys hs v in
    let k : ℕ = ((d.cache (s * n + i)).use_cnt + 1) % u8 in
    let v' : IsLru n (counted n s i k d xs ys hs v) s true (xs ++ i ∷ ys) hs =
      counted-IsLru n s i k d xs ys hs v in
    elim (Bool-cases (is_invalid (d.cache (s * n + i)).cache_state)) [
      | inl yes_inv ↦
          conclude n s i d (xs ++ ys) hs false (move_to_mru d (s * n + i))
            (neither _ _ _ _ yes_inv refl)
            (if-false _ _ _ o.2 ∙ guard-true _ _ _ o.1 (if-true _ _ _ yes_inv))
            (moved n s i d xs ys hs v)
      | inr no_inv ↦ elim (Bool-cases (ltb k d.sysctl_lru_promote_thresh)) [
        | inl low ↦
            conclude n s i d (xs ++ ys) hs false (move_to_mru (set_use d (s * n + i) k) (s * n + i))
              (neither _ _ _ _ no_inv low)
              (if-false _ _ _ o.2
                ∙ guard-true _ _ _ o.1 (if-false _ _ _ no_inv ∙ if-true _ _ _ low))
              (after_count n s i k d xs ys hs v _ _ _ (moved n s i _ xs ys hs v'))
        | inr high ↦
            conclude n s i d (xs ++ ys) hs true
              (promote_or_move (set_use d (s * n + i) k) (s * n + i)) (neither _ _ _ _ no_inv high)
              (if-false _ _ _ o.2
                ∙ guard-true _ _ _ o.1 (if-false _ _ _ no_inv ∙ if-false _ _ _ high))
              (after_count n s i k d xs ys hs v _ _ _ (promoted_or_moved n s i _ xs ys hs v'))
      ]
    ]
