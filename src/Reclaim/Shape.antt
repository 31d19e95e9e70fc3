-- ===== src/Reclaim/Shape.antt =====
-- The shape of a set's LRU lists: what the link fields of src/flashcache_reclaim.c stand for.
use flashcache_ubuntu_xenial.Prelude.{
  ℕ, ◌+◌, ◌*◌, ◌≤◌, ◌<◌, ◌≡◌, ◌≢◌, Bool, false, not, List, ◌++◌, All, Distinct, length, ◌⊎◌, Option,
  some,
}
use flashcache_ubuntu_xenial.Device.{CacheC, null}
use flashcache_ubuntu_xenial.Links.Segments.{Dll}
use flashcache_ubuntu_xenial.Reclaim.Lists.{lru_head, lru_tail, lru_blocks}

-- `n` is the associativity: the block `j` of set `s` has the index `s * n + j`.
module _ (n : ℕ) where
  abbrev pub next_of : CacheC → ℕ → ℕ → ℕ
  next_of d s j = (d.cache (s * n + j)).lru_next

  abbrev pub prev_of : CacheC → ℕ → ℕ → ℕ
  prev_of d s j = (d.cache (s * n + j)).lru_prev

  -- The block lies in the set and carries the flag of the list `w` alone. The use count of a hot
  -- block is clear.
  abbrev pub OnList : CacheC → ℕ → Bool → ℕ → Type 0
  OnList d s w j =
      (j < n)
      × ((d.cache (s * n + j)).lru_state.warm ≡ w)
      × ((d.cache (s * n + j)).lru_state.hot ≡ not w)
      × (w ≡ false → (d.cache (s * n + j)).use_cnt ≡ 0)

  -- The list `w` of set `s` holds the blocks `xs`, the LRU end first.
  pub record IsList (d : CacheC) (s : ℕ) (w : Bool) (xs : List ℕ) : Type 0 where
    pub links :
        Dll null
          (next_of d s)
          (prev_of d s)
          (lru_head w (d.cache_sets s))
          xs
          (lru_tail w (d.cache_sets s))
    pub members : All (OnList d s w) xs
    pub counted : lru_blocks w (d.cache_sets s) ≡ length xs

  -- The two lists of set `s`: `xs` is the list `w`, and `ys` the other.
  pub record IsLru (d : CacheC) (s : ℕ) (w : Bool) (xs ys : List ℕ) : Type 0 where
    pub mine : IsList d s w xs
    pub other : IsList d s (not w) ys
    pub distinct : Distinct (xs ++ ys)
    pub assoc_is : d.assoc ≡ n
    pub small : n ≤ 8192

  -- `d'` differs from `d` in the LRU links and counters of set `s` alone.
  pub record SameButLinks (s : ℕ) (d d' : CacheC) : Type 0 where
    pub assoc_same : d'.assoc ≡ d.assoc
    pub state_same : (k : ℕ) → (d'.cache k).cache_state ≡ (d.cache k).cache_state
    pub lru_same : (k : ℕ) → (d'.cache k).lru_state ≡ (d.cache k).lru_state
    pub use_same : (k : ℕ) → (d'.cache k).use_cnt ≡ (d.cache k).use_cnt
    pub sets_same : (t : ℕ) → t ≢ s → d'.cache_sets t ≡ d.cache_sets t
    pub blocks_same : (k : ℕ) → (k < s * n) ⊎ (s * n + n ≤ k) → d'.cache k ≡ d.cache k

  -- `d'` differs from `d` in the LRU fields of set `s` alone: the blocks' flags and use counts may
  -- change too.
  pub record SameOutside (s : ℕ) (d d' : CacheC) : Type 0 where
    pub assoc_kept : d'.assoc ≡ d.assoc
    pub state_kept : (k : ℕ) → (d'.cache k).cache_state ≡ (d.cache k).cache_state
    pub sets_kept : (t : ℕ) → t ≢ s → d'.cache_sets t ≡ d.cache_sets t
    pub blocks_kept : (k : ℕ) → (k < s * n) ⊎ (s * n + n ≤ k) → d'.cache k ≡ d.cache k

  -- The operation succeeds, in a state with these lists.
  abbrev pub Becomes : CacheC → ℕ → Option CacheC → Bool → List ℕ → List ℕ → Type 0
  Becomes d s r w xs ys = (d' : CacheC) × (r ≡ some d') × IsLru d' s w xs ys × SameButLinks s d d'
