-- ===== src/Reclaim/Add.antt =====
-- flashcache_reclaim_add_block_to_list_mru and flashcache_reclaim_add_block_to_list_lru
-- (src/flashcache_reclaim.c) put a block in at an end of the list that its flag names.
use mathlib.Core.Path.{ap₂}
use flashcache_ubuntu_xenial.Prelude.{
  ℕ, suc, ◌+◌, ◌*◌, ◌≤◌, ◌<◌, ◌≡◌, ◌≢◌, ◌⊎◌, inl, inr, refl, sym, ap, ◌∙◌, Bool, true, not, some,
  List, [], ◌∷◌, ◌++◌, arith, Distinct, length, In, NotIn, ne_of_NotIn, guard, ◌>>◌, All-at,
  All-map, All-append, Distinct-split, Distinct-append, Distinct-length-le, NotIn-Apart, Apart,
  Apart-one, Apart-append, if-ne, if-eq, NotIn-split, length-append,
}
use flashcache_ubuntu_xenial.Device.{CacheC, null}
use flashcache_ubuntu_xenial.Links.Segments.{Seg-frame, last-cases, first-cases}
use flashcache_ubuntu_xenial.Links.Edits.{push_head-Dll, push_tail-Dll}
use flashcache_ubuntu_xenial.Reclaim.Lists.{
  lru_head, lru_tail, lru_blocks, one_flag, linked_mru, linked_lru, add_block_to_list_mru,
  add_block_to_list_lru,
}
use flashcache_ubuntu_xenial.Reclaim.Shape.{next_of, prev_of, OnList, IsList, IsLru, SameButLinks}
use flashcache_ubuntu_xenial.Reclaim.Link.{
  mru_end, mru_end_next, mru_end_prev, mru_end_head, mru_end_tail, mru_end_blocks, mru_end_other,
  mru_end_same, lru_end, lru_end_next, lru_end_prev, lru_end_head, lru_end_tail, lru_end_blocks,
  lru_end_other, lru_end_same,
}
use flashcache_ubuntu_xenial.Reclaim.Remove.{OnList-Same, one_flag_of_OnList, index_locals}

-- The block carries the flag of the list `w`, and is on no list.
module _ (n s i : ℕ) (d : CacheC) (w : Bool) (xs zs : List ℕ) (v : IsLru n d s w xs zs)
    (o : OnList n d s w i) (out : NotIn i (xs ++ zs)) where
  parts : Distinct xs × Distinct zs × Apart xs zs
  parts = Distinct-split xs zs v.distinct

  outs : NotIn i xs × NotIn i zs
  outs = NotIn-split i xs zs out

  i-ne : i ≢ null
  i-ne = omega (arith, o.0, v.small)

  mine_below : (j : ℕ) → In j xs → j < n
  mine_below j u = (All-at (OnList n d s w) j xs v.mine.members u).0

  other_below : (j : ℕ) → In j zs → j < n
  other_below j u = (All-at (OnList n d s (not w)) j zs v.other.members u).0

  ne_null : (j : ℕ) → j < n → j ≢ null
  ne_null j h = omega (arith, v.small)

  ne_new : (j : ℕ) (ys : List ℕ) → NotIn i ys → In j ys → j ≢ i
  ne_new j ys t u e = ne_of_NotIn i j ys t u (sym e)

  abbrev h : ℕ
  h = lru_head w (d.cache_sets s)

  abbrev t : ℕ
  t = lru_tail w (d.cache_sets s)

  last : (t ≡ null) ⊎ In t xs
  last =
      last-cases null (next_of n d s) (prev_of n d s) null (lru_head w (d.cache_sets s)) xs
        (lru_tail w (d.cache_sets s)) null v.mine.links

  first : (h ≡ null) ⊎ In h xs
  first =
      first-cases null (next_of n d s) (prev_of n d s) null (lru_head w (d.cache_sets s)) xs
        (lru_tail w (d.cache_sets s)) null v.mine.links

  -- An end is null or a block of the list.
  end_ne : (k : ℕ) → (k ≡ null) ⊎ In k xs → i ≢ k
  end_ne k (inl e) = rw e i-ne
  end_ne k (inr u) = λ e. ne_new k xs outs.0 u (sym e)

  end_below : (k : ℕ) → (k ≡ null) ⊎ In k xs → (k ≡ null) ⊎ (k < n)
  end_below k (inl e) = inl e
  end_below k (inr u) = inr (mine_below k u)

  end_far : (k : ℕ) → (k ≡ null) ⊎ In k xs → (j : ℕ) → In j zs → j ≢ k
  end_far k (inl e) j u = rw e (ne_null j (other_below j u))
  end_far k (inr r) j u = λ e. ne_of_NotIn k j zs (NotIn-Apart k xs zs parts.2 r) u (sym e)

  fits : suc (length xs) ≤ n
  fits =
      Distinct-length-le n (i ∷ xs) (outs.0, parts.0)
        (o.0, All-map xs (λ j u p. p.0) v.mine.members)

  mru_Same : SameButLinks n s d (mru_end n d s i)
  mru_Same = mru_end_same n d s i w o.1 o.0 (end_below t last)

  mru_mine : IsList n (mru_end n d s i) s w (xs ++ i ∷ [])
  mru_mine = record {
    links =
        push_tail-Dll null (next_of n d s) (prev_of n d s) (next_of n (mru_end n d s i) s)
          (prev_of n (mru_end n d s i) s) h t _ _ i xs v.mine.links parts.0 outs.0 i-ne
          (λ j u.
            mru_end_next n d s i w o.1 (end_ne t last) j (ne_null j (mine_below j u))
            ∙ if-ne j i _ _ (ne_new j xs outs.0 u))
          (λ j u.
            mru_end_prev n d s i w o.1 (end_ne t last) j ∙ if-ne j i _ _ (ne_new j xs outs.0 u))
          (mru_end_prev n d s i w o.1 (end_ne t last) i ∙ if-eq i i _ _ refl)
          (mru_end_next n d s i w o.1 (end_ne t last) i i-ne ∙ if-eq i i _ _ refl)
          (mru_end_head n d s i w o.1) (mru_end_tail n d s i w o.1);
    members =
        OnList-Same n s d (mru_end n d s i) w (xs ++ i ∷ []) mru_Same
          (All-append (OnList n d s w) xs (i ∷ []) v.mine.members (o, tt));
    counted = omega (
      arith,
      mru_end_blocks n d s i w o.1,
      v.mine.counted,
      fits,
      v.small,
      length-append xs (i ∷ []),
    );
  }

  mru_other : IsList n (mru_end n d s i) s (not w) zs
  mru_other = record {
    links =
        rw (same.0, same.1)
          (Seg-frame null (next_of n d s) (prev_of n d s) (next_of n (mru_end n d s i) s)
            (prev_of n (mru_end n d s i) s) null (lru_head (not w) (d.cache_sets s)) zs
            (lru_tail (not w) (d.cache_sets s)) null kept v.other.links);
    members = OnList-Same n s d (mru_end n d s i) (not w) zs mru_Same v.other.members;
    counted = same.2 ∙ v.other.counted;
  }
    where
      same :
          (lru_head (not w) ((mru_end n d s i).cache_sets s) ≡ lru_head (not w) (d.cache_sets s))
          × (lru_tail (not w) ((mru_end n d s i).cache_sets s) ≡ lru_tail (not w) (d.cache_sets s))
          × (lru_blocks (not w) ((mru_end n d s i).cache_sets s)
              ≡ lru_blocks (not w) (d.cache_sets s))
      same = mru_end_other n d s i w o.1

      kept :
          (j : ℕ)
          → In j zs
          → (next_of n (mru_end n d s i) s j ≡ next_of n d s j)
            × (prev_of n (mru_end n d s i) s j ≡ prev_of n d s j)
      kept j u = (
        mru_end_next n d s i w o.1 (end_ne t last) j (ne_null j (other_below j u))
            ∙ if-ne j i _ _ (ne_new j zs outs.1 u)
            ∙ if-ne j t _ _ (end_far t last j u),
        mru_end_prev n d s i w o.1 (end_ne t last) j ∙ if-ne j i _ _ (ne_new j zs outs.1 u),
      )

  mru_end-IsLru : IsLru n (mru_end n d s i) s w (xs ++ i ∷ []) zs
  mru_end-IsLru = record {
    mine = mru_mine;
    other = mru_other;
    distinct =
        Distinct-append (xs ++ i ∷ []) zs
          (Distinct-append xs (i ∷ []) parts.0 (tt, tt) (Apart-one i xs outs.0)) parts.1
          (Apart-append xs (i ∷ []) zs parts.2 (outs.1, tt));
    assoc_is = mru_Same.assoc_same ∙ v.assoc_is;
    small = v.small;
  }

  -- The block is put in behind the last of its list: no assertion fails, and nothing but the set's
  -- links and counters changes.
  pub add_block_to_list_mru-IsLru :
      (add_block_to_list_mru d (s * n + i) ≡ some (mru_end n d s i))
      × IsLru n (mru_end n d s i) s w (xs ++ i ∷ []) zs
      × SameButLinks n s d (mru_end n d s i)
  unfolding add_block_to_list_mru
  add_block_to_list_mru-IsLru =
      let (e, f) = index_locals n s i d o.0 v.assoc_is in
      let flagged : one_flag d (s * n + i) ≡ true = one_flag_of_OnList n s d w i o in
      (
        ap₂ (λ a b. guard (one_flag d (s * n + i)) >> some (linked_mru d a b (s * n + i))) e f
            ∙ ap (λ b. guard b >> some (mru_end n d s i)) flagged,
        mru_end-IsLru,
        mru_Same,
      )

  lru_Same : SameButLinks n s d (lru_end n d s i)
  lru_Same = lru_end_same n d s i w o.1 o.0 (end_below h first)

  lru_mine : IsList n (lru_end n d s i) s w (i ∷ xs)
  lru_mine = record {
    links =
        push_head-Dll null (next_of n d s) (prev_of n d s) (next_of n (lru_end n d s i) s)
          (prev_of n (lru_end n d s i) s) h t _ _ i xs v.mine.links parts.0 outs.0 i-ne
          (λ j u.
            lru_end_next n d s i w o.1 (end_ne h first) j ∙ if-ne j i _ _ (ne_new j xs outs.0 u))
          (λ j u.
            lru_end_prev n d s i w o.1 (end_ne h first) j (ne_null j (mine_below j u))
            ∙ if-ne j i _ _ (ne_new j xs outs.0 u))
          (lru_end_prev n d s i w o.1 (end_ne h first) i i-ne ∙ if-eq i i _ _ refl)
          (lru_end_next n d s i w o.1 (end_ne h first) i ∙ if-eq i i _ _ refl)
          (lru_end_head n d s i w o.1) (lru_end_tail n d s i w o.1);
    members = OnList-Same n s d (lru_end n d s i) w (i ∷ xs) lru_Same (o, v.mine.members);
    counted = omega (arith, lru_end_blocks n d s i w o.1, v.mine.counted, fits, v.small);
  }

  lru_other : IsList n (lru_end n d s i) s (not w) zs
  lru_other = record {
    links =
        rw (same.0, same.1)
          (Seg-frame null (next_of n d s) (prev_of n d s) (next_of n (lru_end n d s i) s)
            (prev_of n (lru_end n d s i) s) null (lru_head (not w) (d.cache_sets s)) zs
            (lru_tail (not w) (d.cache_sets s)) null kept v.other.links);
    members = OnList-Same n s d (lru_end n d s i) (not w) zs lru_Same v.other.members;
    counted = same.2 ∙ v.other.counted;
  }
    where
      same :
          (lru_head (not w) ((lru_end n d s i).cache_sets s) ≡ lru_head (not w) (d.cache_sets s))
          × (lru_tail (not w) ((lru_end n d s i).cache_sets s) ≡ lru_tail (not w) (d.cache_sets s))
          × (lru_blocks (not w) ((lru_end n d s i).cache_sets s)
              ≡ lru_blocks (not w) (d.cache_sets s))
      same = lru_end_other n d s i w o.1

      kept :
          (j : ℕ)
          → In j zs
          → (next_of n (lru_end n d s i) s j ≡ next_of n d s j)
            × (prev_of n (lru_end n d s i) s j ≡ prev_of n d s j)
      kept j u = (
        lru_end_next n d s i w o.1 (end_ne h first) j ∙ if-ne j i _ _ (ne_new j zs outs.1 u),
        lru_end_prev n d s i w o.1 (end_ne h first) j (ne_null j (other_below j u))
            ∙ if-ne j i _ _ (ne_new j zs outs.1 u)
            ∙ if-ne j h _ _ (end_far h first j u),
      )

  lru_end-IsLru : IsLru n (lru_end n d s i) s w (i ∷ xs) zs
  lru_end-IsLru = record {
    mine = lru_mine;
    other = lru_other;
    distinct = (out, v.distinct);
    assoc_is = lru_Same.assoc_same ∙ v.assoc_is;
    small = v.small;
  }

  -- The block is put in before the first of its list: no assertion fails, and nothing but the set's
  -- links and counters changes.
  pub add_block_to_list_lru-IsLru :
      (add_block_to_list_lru d (s * n + i) ≡ some (lru_end n d s i))
      × IsLru n (lru_end n d s i) s w (i ∷ xs) zs
      × SameButLinks n s d (lru_end n d s i)
  unfolding add_block_to_list_lru
  add_block_to_list_lru-IsLru =
      let (e, f) = index_locals n s i d o.0 v.assoc_is in
      let flagged : one_flag d (s * n + i) ≡ true = one_flag_of_OnList n s d w i o in
      (
        ap₂ (λ a b. guard (one_flag d (s * n + i)) >> some (linked_lru d a b (s * n + i))) e f
            ∙ ap (λ b. guard b >> some (lru_end n d s i)) flagged,
        lru_end-IsLru,
        lru_Same,
      )
