-- ===== src/Reclaim/Remove.antt =====
-- flashcache_reclaim_remove_block_from_list (src/flashcache_reclaim.c) takes a block out of its list.
use mathlib.Core.Path.{ap₂}
use flashcache_ubuntu_xenial.Prelude.{
  ℕ, ◌+◌, ◌*◌, ◌/◌, ◌<◌, ◌≡◌, ◌≢◌, ◌⊎◌, inl, inr, sym, ap, ◌∙◌, Bool, true, false, not, some, List,
  [], ◌∷◌, ◌++◌, arith, All, Distinct, length, In, ne_of_NotIn, div_index, All-at, All-map,
  All-append, All-split, In-middle, In-append_left, In-append_right, Distinct-split,
  Distinct-append, Distinct-middle, length-middle, Distinct-length-le, NotIn-Apart, Apart,
  Apart-middle, if-ne,
}
use flashcache_ubuntu_xenial.Device.{CacheC, null}
use flashcache_ubuntu_xenial.Links.Segments.{
  Seg-frame, neighbours, ends_of_nonempty, ends_of_middle,
}
use flashcache_ubuntu_xenial.Links.Edits.{remove-Dll}
use flashcache_ubuntu_xenial.Reclaim.Lists.{
  lru_head, lru_tail, lru_blocks, is_warm, one_flag, on_no_list, counts_ok, remove_in_set,
  remove_block_from_list,
}
use flashcache_ubuntu_xenial.Reclaim.Shape.{next_of, prev_of, OnList, IsList, IsLru, SameButLinks}
use flashcache_ubuntu_xenial.Reclaim.Unlink.{
  gone, unlinked_next, unlinked_prev, unlinked_head, unlinked_tail, unlinked_blocks, unlinked_other,
  unlinked_same,
}

-- A set's list keeps its members' flags where only links change.
pub OnList-Same :
    (n s : ℕ) (d d' : CacheC) (w : Bool) (xs : List ℕ)
    → SameButLinks n s d d'
    → All (OnList n d s w) xs
    → All (OnList n d' s w) xs
OnList-Same n s d d' w xs same h =
    All-map xs
      (λ j i o. (
        o.0,
        rw (same.lru_same (s * n + j)) o.1,
        rw (same.lru_same (s * n + j)) o.2,
        λ e. same.use_same (s * n + j) ∙ o.3 e,
      ))
      h

-- The locals `set` and `start_index` of every operation.
pub index_locals :
    (n s i : ℕ) (d : CacheC)
    → i < n
    → d.assoc ≡ n
    → ((s * n + i) / d.assoc ≡ s) × ((s * n + i) / d.assoc * d.assoc ≡ s * n)
index_locals n s i d h e =
    let set : (s * n + i) / d.assoc ≡ s = ap (λ a. (s * n + i) / a) e ∙ div_index s n i h in
    (set, ap₂ (λ a b. a * b) set e)

pub one_flag_of_OnList :
    (n s : ℕ) (d : CacheC) (w : Bool) (i : ℕ) → OnList n d s w i → one_flag d (s * n + i) ≡ true
one_flag_of_OnList n s d true i o = ground arith
one_flag_of_OnList n s d false i o = ground arith

-- The counter's assertions hold of a list.
pub counts_ok_of_IsList :
    (n s : ℕ) (d : CacheC) (w : Bool) (xs : List ℕ)
    → IsList n d s w xs
    → counts_ok (d.cache_sets s) w ≡ true
unfolding counts_ok
counts_ok_of_IsList n s d w [] l = ground (arith, l.links, l.counted)
counts_ok_of_IsList n s d w (x ∷ xs) l = ground (
  arith,
  l.counted,
  ends_of_nonempty null (next_of n d s) (prev_of n d s) (lru_head w (d.cache_sets s)) x xs
      (lru_tail w (d.cache_sets s)) l.links,
)

module _ (n s i : ℕ) (d : CacheC) (w : Bool) (xs ys zs : List ℕ)
    (v : IsLru n d s w (xs ++ i ∷ ys) zs) where
  parts : Distinct (xs ++ i ∷ ys) × Distinct zs × Apart (xs ++ i ∷ ys) zs
  parts = Distinct-split (xs ++ i ∷ ys) zs v.distinct

  on_list : OnList n d s w i
  on_list = All-at (OnList n d s w) i (xs ++ i ∷ ys) v.mine.members (In-middle i xs ys)

  near :
      ((prev_of n d s i ≡ null) ⊎ In (prev_of n d s i) xs)
      × ((next_of n d s i ≡ null) ⊎ In (next_of n d s i) ys)
  near =
      neighbours null (next_of n d s) (prev_of n d s) (lru_head w (d.cache_sets s)) i xs ys
        (lru_tail w (d.cache_sets s)) v.mine.links

  mem_left : (j : ℕ) → In j xs → In j (xs ++ i ∷ ys)
  mem_left j u = In-append_left j xs (i ∷ ys) u

  mem_right : (j : ℕ) → In j ys → In j (xs ++ i ∷ ys)
  mem_right j u = In-append_right j xs (i ∷ ys) (inr u)

  below : (j : ℕ) → In j (xs ++ i ∷ ys) → j < n
  below j u = (All-at (OnList n d s w) j (xs ++ i ∷ ys) v.mine.members u).0

  prev-ne : prev_of n d s i ≢ i
  prev-ne = elim near.0 [
    | inl e ↦ omega (arith, below i (In-middle i xs ys), v.small)
    | inr u ↦ λ e.
        ne_of_NotIn i (prev_of n d s i) (xs ++ ys) (Distinct-middle i xs ys parts.0).1
          (In-append_left (prev_of n d s i) xs ys u) (sym e)
  ]

  prev-below : (prev_of n d s i ≡ null) ⊎ (prev_of n d s i < n)
  prev-below = elim near.0 [
    | inl e ↦ inl e
    | inr u ↦ inr (below (prev_of n d s i) (mem_left (prev_of n d s i) u))
  ]

  next-below : (next_of n d s i ≡ null) ⊎ (next_of n d s i < n)
  next-below = elim near.1 [
    | inl e ↦ inl e
    | inr u ↦ inr (below (next_of n d s i) (mem_right (next_of n d s i) u))
  ]

  gone-Same : SameButLinks n s d (gone n d s i)
  gone-Same = unlinked_same n d s i prev-ne prev-below next-below

  ne_null : (j : ℕ) → j < n → j ≢ null
  ne_null j h = omega (arith, v.small)

  -- The list that the block leaves.
  gone_mine : IsList n (gone n d s i) s w (xs ++ ys)
  gone_mine = record {
    links =
        remove-Dll null (next_of n d s) (prev_of n d s) (next_of n (gone n d s i) s)
          (prev_of n (gone n d s i) s) (lru_head w (d.cache_sets s)) (lru_tail w (d.cache_sets s)) _
          _ i xs ys v.mine.links parts.0 (λ j u. unlinked_next n d s i j (kept j u) prev-ne)
          (λ j u. unlinked_prev n d s i j (kept j u) prev-ne) (unlinked_head n d s i w on_list.1)
          (unlinked_tail n d s i w on_list.1 prev-ne);
    members = OnList-Same n s d (gone n d s i) w (xs ++ ys) gone-Same rest;
    counted =
        omega
          (arith, unlinked_blocks n d s i w on_list.1, v.mine.counted, length-middle i xs ys, fits);
  }
    where
      split : All (OnList n d s w) xs × All (OnList n d s w) (i ∷ ys)
      split = All-split (OnList n d s w) xs (i ∷ ys) v.mine.members

      rest : All (OnList n d s w) (xs ++ ys)
      rest = All-append (OnList n d s w) xs ys split.0 split.1.1

      kept : (j : ℕ) → In j (xs ++ ys) → j ≢ null
      kept j u = ne_null j (All-at (OnList n d s w) j (xs ++ ys) rest u).0

      fits : length (xs ++ i ∷ ys) < 65536
      fits = omega (
        arith,
        v.small,
        Distinct-length-le n (xs ++ i ∷ ys) parts.0
            (All-map (xs ++ i ∷ ys) (λ j u o. o.0) v.mine.members),
      )

  zs_ne_null : (j : ℕ) → In j zs → j ≢ null
  zs_ne_null j u = ne_null j (All-at (OnList n d s (not w)) j zs v.other.members u).0

  near_prev : (prev_of n d s i ≡ null) ⊎ In (prev_of n d s i) (xs ++ i ∷ ys)
  near_prev = elim near.0 [ inl e ↦ inl e | inr u ↦ inr (mem_left (prev_of n d s i) u) ]

  near_next : (next_of n d s i ≡ null) ⊎ In (next_of n d s i) (xs ++ i ∷ ys)
  near_next = elim near.1 [ inl e ↦ inl e | inr u ↦ inr (mem_right (next_of n d s i) u) ]

  -- The other list has no node of this one.
  far : (k : ℕ) → (k ≡ null) ⊎ In k (xs ++ i ∷ ys) → (j : ℕ) → In j zs → j ≢ k
  far k (inl e) j u = rw e (zs_ne_null j u)
  far k (inr t) j u = λ e. ne_of_NotIn k j zs (NotIn-Apart k (xs ++ i ∷ ys) zs parts.2 t) u (sym e)

  -- The other list.
  gone_other : IsList n (gone n d s i) s (not w) zs
  gone_other = record {
    links =
        rw (same.0, same.1)
          (Seg-frame null (next_of n d s) (prev_of n d s) (next_of n (gone n d s i) s)
            (prev_of n (gone n d s i) s) null (lru_head (not w) (d.cache_sets s)) zs
            (lru_tail (not w) (d.cache_sets s)) null
            (λ j u. (
              unlinked_next n d s i j (zs_ne_null j u) prev-ne
                  ∙ if-ne j (prev_of n d s i) _ _ (far (prev_of n d s i) near_prev j u),
              unlinked_prev n d s i j (zs_ne_null j u) prev-ne
                  ∙ if-ne j (next_of n d s i) _ _ (far (next_of n d s i) near_next j u),
            ))
            v.other.links);
    members = OnList-Same n s d (gone n d s i) (not w) zs gone-Same v.other.members;
    counted = same.2 ∙ v.other.counted;
  }
    where
      same :
          (lru_head (not w) ((gone n d s i).cache_sets s) ≡ lru_head (not w) (d.cache_sets s))
          × (lru_tail (not w) ((gone n d s i).cache_sets s) ≡ lru_tail (not w) (d.cache_sets s))
          × (lru_blocks (not w) ((gone n d s i).cache_sets s) ≡ lru_blocks (not w) (d.cache_sets s))
      same = unlinked_other n d s i w on_list.1

  gone-IsLru : IsLru n (gone n d s i) s w (xs ++ ys) zs
  gone-IsLru = record {
    mine = gone_mine;
    other = gone_other;
    distinct =
        Distinct-append (xs ++ ys) zs (Distinct-middle i xs ys parts.0).0 parts.1
          (Apart-middle i xs ys zs parts.2);
    assoc_is = gone-Same.assoc_same ∙ v.assoc_is;
    small = v.small;
  }

  flagged : one_flag d (s * n + i) ≡ true
  flagged = one_flag_of_OnList n s d w i on_list

  listed : on_no_list d s (s * n + i) ≡ false
  unfolding on_no_list
  listed = rw (on_list.1) (
      ground (
        arith,
        ends_of_middle null (next_of n d s) (prev_of n d s) (lru_head w (d.cache_sets s)) i xs ys
            (lru_tail w (d.cache_sets s)) v.mine.links,
      ))

  counted : counts_ok ((gone n d s i).cache_sets s) (is_warm d (s * n + i)) ≡ true
  counted = rw (on_list.1) (counts_ok_of_IsList n s (gone n d s i) w (xs ++ ys) gone_mine)

  removed : remove_in_set d s (s * n) (s * n + i) ≡ some (gone n d s i)
  unfolding remove_in_set
  removed = simp (flagged, listed, counted)

  -- The block is removed: no assertion fails, its list loses it and keeps its order, the other list
  -- stays, and nothing but the set's links and counters changes.
  pub remove_block_from_list-IsLru :
      (remove_block_from_list d (s * n + i) ≡ some (gone n d s i))
      × IsLru n (gone n d s i) s w (xs ++ ys) zs
      × SameButLinks n s d (gone n d s i)
  unfolding remove_block_from_list
  remove_block_from_list-IsLru =
      let (e, f) = index_locals n s i d on_list.0 v.assoc_is in
      (ap₂ (λ a b. remove_in_set d a b (s * n + i)) e f ∙ removed, gone-IsLru, gone-Same)
