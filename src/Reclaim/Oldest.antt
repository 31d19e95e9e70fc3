-- ===== src/Reclaim/Oldest.antt =====
-- flashcache_reclaim_lru_get_old_block (src/flashcache_reclaim.c): which block a set gives up.
use mathlib.Core.Option
use native.Mathlib.Nat.{add-zero}
use flashcache_ubuntu_xenial.Prelude.{
  ℕ, zero, suc, ◌+◌, ◌*◌, ◌/◌, ◌<◌, ◌≡◌, refl, sym, ap, ◌∙◌, Bool, true, false, not, some, none,
  Option, List, [], ◌∷◌, ◌++◌, arith, ◌>>=◌, bind-some, guard-true, if◌then◌else◌, In-middle,
  Bool-cases, inl, inr, if-true, if-false, if-eq, if-ne, length, ◌==◌, All, All-map, Distinct,
  Distinct-split, Distinct-length-le, subst, div_index, last-cases,
}
use flashcache_ubuntu_xenial.Device.{CacheC, null, is_valid, fallow_do_clean}
use flashcache_ubuntu_xenial.Links.Segments.{Seg}
use flashcache_ubuntu_xenial.Reclaim.Lists.{lru_head, lru_tail, is_warm}
use flashcache_ubuntu_xenial.Reclaim.Policy.{
  is_hot, set_use, find_valid, take_warm, take_hot, from_hot, from_warm, lru_get_old_block,
}
use flashcache_ubuntu_xenial.Reclaim.Shape.{next_of, prev_of, OnList, IsLru, SameOutside}
use flashcache_ubuntu_xenial.Reclaim.Moves.{
  member_OnList, move_to_mru-IsLru, recount-IsLru, changed-SameOutside, SameOutside-links,
  SameOutside-trans, IsLru-true, IsLru-false,
}
use flashcache_ubuntu_xenial.Reclaim.Promote.{demote_block-IsLru, demote_block-none}

-- The first block of a list, from the LRU end, whose state is exactly VALID.
abbrev pub first_valid : ℕ → CacheC → ℕ → List ℕ → Option ℕ
first_valid n d s [] = none
first_valid n d s (x ∷ xs) =
    if is_valid (d.cache (s * n + x)).cache_state then some x else first_valid n d s xs

-- The walk along the links finds it.
find_valid-first_valid :
    (n s : ℕ) (d : CacheC) (fuel p h : ℕ) (xs : List ℕ) (q : ℕ)
    → Seg null (next_of n d s) (prev_of n d s) p h xs q null
    → length xs < fuel
    → find_valid d (s * n) fuel h ≡ some (first_valid n d s xs)
unfolding find_valid
find_valid-first_valid n s d zero p h xs q l f = absurd (omega arith)
find_valid-first_valid n s d (suc fuel) p h [] q l f = if-eq h null _ _ l.0
find_valid-first_valid n s d (suc fuel) p h (x ∷ xs) q l f =
    if-ne h null _ _ (rw (l.0) l.1)
    ∙ ap
        (λ k.
          if is_valid (d.cache (s * n + k)).cache_state
          then some (some k)
          else find_valid d (s * n) fuel (d.cache (s * n + k)).lru_next)
        (l.0)
    ∙ step (is_valid (d.cache (s * n + x)).cache_state)
        (find_valid-first_valid n s d fuel x (next_of n d s x) xs q l.3 (omega arith))
  where
    step :
        (b : Bool)
        → find_valid d (s * n) fuel (next_of n d s x) ≡ some (first_valid n d s xs)
        → (if b then some (some x) else find_valid d (s * n) fuel (next_of n d s x))
          ≡ some (if b then some x else first_valid n d s xs)
    step true e = refl
    step false e = e

-- Where it stands in the list.
first_valid-split :
    (n s j : ℕ) (d : CacheC) (xs : List ℕ)
    → first_valid n d s xs ≡ some j
    → (l : List ℕ) × (r : List ℕ) × (xs ≡ l ++ j ∷ r)
      × (is_valid (d.cache (s * n + j)).cache_state ≡ true)
first_valid-split n s j d [] e = absurd (cc)
first_valid-split n s j d (x ∷ xs) e =
    elim (Bool-cases (is_valid (d.cache (s * n + x)).cache_state)) [
      | inl t ↦
          let same : x ≡ j = Option.some-injective x j (sym (if-true _ _ _ t) ∙ e) in
          (
            [],
            xs,
            ap (λ k. k ∷ xs) same,
            subst (λ k. is_valid (d.cache (s * n + k)).cache_state ≡ true) same t,
          )
      | inr f ↦
          let (l, r, eq, v) = first_valid-split n s j d xs (sym (if-false _ _ _ f) ∙ e) in
          (x ∷ l, r, ap (λ t. x ∷ t) eq, v)
    ]

-- The outcome: the set's lists are well formed, and other sets and all block states stay.
abbrev pub Takes : ℕ → CacheC → ℕ → Option (CacheC × Option ℕ) → Option ℕ → Type 0
Takes n d s r victim =
    (d' : CacheC) × (ws : List ℕ) × (hs : List ℕ) × (r ≡ some (d', victim))
    × IsLru n d' s true ws hs
    × SameOutside n s d d'

no_fallow :
    (d : CacheC) (k : ℕ)
    → is_valid (d.cache k).cache_state ≡ true
    → not (fallow_do_clean (d.cache k).cache_state) ≡ true
no_fallow d k e = ground arith

if-zero : (k : ℕ) → k ≡ 0 → (k == 0) ≡ true
if-zero k e = ground arith

take_warm-Takes :
    (n s i : ℕ) (d : CacheC) (xs ys hs : List ℕ)
    → IsLru n d s true (xs ++ i ∷ ys) hs
    → is_valid (d.cache (s * n + i)).cache_state ≡ true
    → Takes n d s (take_warm d (s * n + i)) (some (s * n + i))
unfolding take_warm
take_warm-Takes n s i d xs ys hs v valid =
    let o : OnList n d s true i = member_OnList n s i d true xs ys hs v in
    let d1 : CacheC = set_use d (s * n + i) 0 in
    let v1 : IsLru n d1 s true (xs ++ i ∷ ys) hs =
      recount-IsLru n s i d _ (xs ++ i ∷ ys) hs refl refl refl (In-middle i xs ys) v in
    let (d', e, u, same) = move_to_mru-IsLru n s i d1 true xs ys hs v1 in
    (
      d',
      _,
      _,
      guard-true _ _ _ (no_fallow d (s * n + i) valid)
          (guard-true _ _ _ o.1 (guard-true _ _ _ (ap not o.2) (bind-some _ _ d' _ e refl))),
      u,
      SameOutside-trans n s d d1 d' (changed-SameOutside n s i d _ o.0 refl)
          (SameOutside-links n s d1 d' same),
    )

take_hot-Takes :
    (n s i : ℕ) (d : CacheC) (ws xs ys : List ℕ)
    → IsLru n d s true ws (xs ++ i ∷ ys)
    → is_valid (d.cache (s * n + i)).cache_state ≡ true
    → Takes n d s (take_hot d (s * n + i)) (some (s * n + i))
unfolding take_hot
take_hot-Takes n s i d ws xs ys v valid =
    let f : IsLru n d s false (xs ++ i ∷ ys) ws = IsLru-false n s d _ _ v in
    let o : OnList n d s false i = member_OnList n s i d false xs ys ws f in
    let first = λ (r : Option (CacheC × Option ℕ)) (m : Option (CacheC × Option ℕ)) (e : m ≡ r).
      guard-true (not (fallow_do_clean (d.cache (s * n + i)).cache_state)) _ r
        (no_fallow d (s * n + i) valid)
        (guard-true (is_hot d (s * n + i)) _ r o.2 (
          guard-true (not (is_warm d (s * n + i))) _ r (ap not o.1)
            (guard-true ((d.cache (s * n + i)).use_cnt == 0) m r (if-zero _ (o.3 refl)) e))) in
    elim (last-cases ws) [
      | inl e ↦
          let v0 : IsLru n d s true [] (xs ++ i ∷ ys) =
            subst (λ l. IsLru n d s true l (xs ++ i ∷ ys)) e v in
          let (d', e', u, same) =
            move_to_mru-IsLru n s i d false xs ys [] (IsLru-false n s d _ _ v0) in
          (
            d',
            _,
            _,
            first _ _ (
                bind-some _ _ (d, false) _ (demote_block-none n s i d xs ys v0)
                  (bind-some _ _ d' _ e' refl)),
            IsLru-true n s d' _ _ u,
            SameOutside-links n s d d' same,
          )
      | inr (l, t, e) ↦
          let (d', e', u, same) =
            demote_block-IsLru n s i t d xs ys l
              (subst (λ l. IsLru n d s true l (xs ++ i ∷ ys)) e v) in
          (d', _, _, first _ _ (bind-some _ _ (d', true) _ e' refl), u, same)
    ]

from_hot-Takes :
    (n s : ℕ) (d : CacheC) (ws hs : List ℕ) (o : Option ℕ)
    → IsLru n d s true ws hs
    → first_valid n d s hs ≡ o
    → Takes n d s (from_hot d (s * n) o) (Option.map (λ j. s * n + j) o)
unfolding from_hot
from_hot-Takes n s d ws hs none v e = (
  d,
  ws,
  hs,
  refl,
  v,
  record {
    assoc_kept = refl;
    state_kept = λ k. refl;
    sets_kept = λ t ne. refl;
    blocks_kept = λ k out. refl;
  },
)
from_hot-Takes n s d ws hs (some j) v e =
    let (l, r, eq, valid) = first_valid-split n s j d hs e in
    take_hot-Takes n s j d ws l r (subst (λ t. IsLru n d s true ws t) eq v) valid

-- The block that a set gives up: the first VALID block of the warm list from its LRU end, or, if there
-- is none, the first of the hot list; `none` if neither list has one.
abbrev pub victim : ℕ → CacheC → ℕ → Option ℕ → Option ℕ → Option ℕ
victim n d s (some j) hot = some (s * n + j)
victim n d s none hot = Option.map (λ j. s * n + j) hot

-- No list is longer than the set, so the walks end within their fuel.
short :
    (n s : ℕ) (d : CacheC) (w : Bool) (xs : List ℕ)
    → Distinct xs
    → All (OnList n d s w) xs
    → length xs < suc n
short n s d w xs dis h = omega (arith, Distinct-length-le n xs dis (All-map xs (λ j u o. o.0) h))

from_warm-Takes :
    (n s : ℕ) (d : CacheC) (ws hs : List ℕ) (o : Option ℕ)
    → IsLru n d s true ws hs
    → first_valid n d s ws ≡ o
    → Takes n d s
        (from_warm d (s * n) (lru_head false (d.cache_sets s)) o)
        (victim n d s o (first_valid n d s hs))
unfolding from_warm
from_warm-Takes n s d ws hs (some j) v e =
    let (l, r, eq, valid) = first_valid-split n s j d ws e in
    take_warm-Takes n s j d l r hs (subst (λ t. IsLru n d s true t hs) eq v) valid
from_warm-Takes n s d ws hs none v e =
    let (d', us, vs, r, u, same) = from_hot-Takes n s d ws hs (first_valid n d s hs) v refl in
    let walk : find_valid d (s * n) (suc n) (lru_head false (d.cache_sets s))
        ≡ some (first_valid n d s hs) =
      find_valid-first_valid n s d (suc n) null _ hs (lru_tail false (d.cache_sets s)) v.other.links
        (short n s d false hs (Distinct-split ws hs v.distinct).1 v.other.members) in
    (
      d',
      us,
      vs,
      bind-some _ _ _ _
          (ap (λ a. find_valid d (s * n) (suc a) (lru_head false (d.cache_sets s))) v.assoc_is
            ∙ walk)
          r,
      u,
      same,
    )

-- From a set with well-formed lists the block given up is the first VALID one of the warm list from
-- its LRU end, or else the first VALID one of the hot list, or else none. No assertion fails and the
-- fuel suffices; the lists stay well formed, and other sets and all block states stay.
pub lru_get_old_block-victim :
    (n s : ℕ) (d : CacheC) (ws hs : List ℕ)
    → 0 < n
    → IsLru n d s true ws hs
    → Takes n d s
        (lru_get_old_block d (s * n))
        (victim n d s (first_valid n d s ws) (first_valid n d s hs))
unfolding lru_get_old_block
lru_get_old_block-victim n s d ws hs pos v =
    let (d', us, vs, r, u, same) = from_warm-Takes n s d ws hs (first_valid n d s ws) v refl in
    let set : s * n / d.assoc ≡ s =
      ap (λ a. s * n / a) v.assoc_is
      ∙ ap (λ t. t / n) (sym (add-zero (s * n)))
      ∙ div_index s n 0 pos in
    let walk : find_valid d (s * n) (suc n) (lru_head true (d.cache_sets s))
        ≡ some (first_valid n d s ws) =
      find_valid-first_valid n s d (suc n) null _ ws (lru_tail true (d.cache_sets s)) v.mine.links
        (short n s d true ws (Distinct-split ws hs v.distinct).0 v.mine.members) in
    (
      d',
      us,
      vs,
      ap
            (λ t.
              find_valid d (s * n) (suc d.assoc) (d.cache_sets t).warmlist_lru_head
              >>= from_warm d (s * n) (d.cache_sets t).hotlist_lru_head)
            set
          ∙ bind-some _ _ _ _
              (ap (λ a. find_valid d (s * n) (suc a) (lru_head true (d.cache_sets s))) v.assoc_is
                ∙ walk)
              r,
      u,
      same,
    )
