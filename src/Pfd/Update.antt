-- ===== src/Pfd/Update.antt =====
-- pfd_stat_update as a whole (src/pfd_stat.c).
use flashcache_ubuntu_xenial.Prelude.{
  ℕ, suc, ◌<◌, ◌≡◌, ◌≢◌, inl, inr, refl, sym, subst, ap, ◌∙◌, arith, Option, some, none, List, [],
  ◌∷◌, ◌++◌, All, In, In-split, In-middle, In-insert, Distinct-length-le, eq-cases, if-ne, ℤ,
  bind-some,
}
use flashcache_ubuntu_xenial.Device.{CacheC}
use flashcache_ubuntu_xenial.Links.Segments.{last-In, Seg-frame}
use flashcache_ubuntu_xenial.Pfd.Stat.{
  PfdStat, PfdStatQueue, nil, pfd_stat_elm_to_head, pfd_stat_queue_search, observe, elm_for,
  put_elm, update_elm, pfd_stat_update, info_of, reset_pfd_stat, curr_of,
}
use flashcache_ubuntu_xenial.Pfd.Runs.{IsPattern}
use flashcache_ubuntu_xenial.Pfd.Pattern.{observe-IsPattern, reset_pfd_stat-IsPattern}
use flashcache_ubuntu_xenial.Pfd.Queue.{
  next_of, prev_of, IsChain, pfd_stat_elm_to_head-IsChain, found_in, search_from-found_in,
}
use flashcache_ubuntu_xenial.Pfd.Search.{Owned, IsFirst, IsTaken, IsFirst-In, found_in-IsFirst}

-- The queue holds the elements `xs`, the last used first, and every entry is well formed.
pub record IsQueue (d : CacheC) (q : PfdStatQueue) (xs : List ℕ) : Type 0 where
  pub chain : IsChain q xs
  pub below : All (λ j. j < nil) xs
  pub patterns : (j : ℕ) → In j xs → IsPattern d (q.stat_elms j).stat

observe-Owned :
    (d : CacheC) (pid : ℤ) (s : PfdStat) (sector : ℕ)
    → Owned d pid s
    → Owned d pid (observe d s sector)
unfolding observe
observe-Owned d pid s sector o = ground (arith, o)

-- All entries but one are as they were.
abbrev pub IsBut : PfdStatQueue → PfdStatQueue → ℕ → Type 0
IsBut q q' i = (j : ℕ) → i ≢ j → (q'.stat_elms j).stat ≡ (q.stat_elms j).stat

-- An entry is rewritten in its place.
module _ (d : CacheC) (q : PfdStatQueue) (i : ℕ) (s : PfdStat) (xs : List ℕ) where
  abbrev rewritten : PfdStatQueue
  rewritten = put_elm q i (record (q.stat_elms i) { stat = s })

  rewritten-IsChain : IsChain q xs → IsChain rewritten xs
  rewritten-IsChain c = (
    Seg-frame nil (next_of q) (prev_of q) (next_of rewritten) (prev_of rewritten) nil q.head xs
        q.tail nil (λ j u. (ground arith, ground arith)) c.0,
    c.1,
  )

  rewritten-stat : (rewritten.stat_elms i).stat ≡ s
  rewritten-stat = ground arith

  rewritten-IsBut : IsBut q rewritten i
  rewritten-IsBut j ne =
      ap (λ t. t.stat) (if-ne i j (record (q.stat_elms i) { stat = s }) (q.stat_elms j) ne)

  rewritten-IsQueue : IsPattern d s → IsQueue d q xs → IsQueue d rewritten xs
  rewritten-IsQueue h v = record {
    chain = rewritten-IsChain v.chain;
    below = v.below;
    patterns = λ j u. elim (eq-cases i j) [
      | inl e ↦
          subst (λ t. IsPattern d t)
            (sym (ap (λ k. (rewritten.stat_elms k).stat) (sym e) ∙ rewritten-stat)) h
      | inr ne ↦ subst (λ t. IsPattern d t) (sym (rewritten-IsBut j ne)) (v.patterns j u)
    ];
  }

-- The element for a process is in the queue and is the process's own.
elm_for-Owned :
    (d : CacheC) (q : PfdStatQueue) (pid : ℤ) (x : ℕ) (xs : List ℕ) (o : Option ℕ)
    → IsQueue d q (x ∷ xs)
    → IsFirst d pid q (x ∷ xs) o
    → (i : ℕ) × (q' : PfdStatQueue) × (elm_for q d pid o ≡ (i, q'))
      × In i (x ∷ xs)
      × IsQueue d q' (x ∷ xs)
      × Owned d pid (q'.stat_elms i).stat
      × IsTaken d pid q o i (q'.stat_elms i).stat
      × IsBut q q' i
unfolding elm_for
elm_for-Owned d q pid x xs (some i) v e =
    let (l, r, at, others, own) = e in
    (i, q, refl, IsFirst-In d pid q (x ∷ xs) i e, v, own, (refl, refl), λ j n. refl)
elm_for-Owned d q pid x xs none v e =
    let s : PfdStat = record (reset_pfd_stat (q.stat_elms q.tail).stat) {
      pid = pid;
      tgt = some d.tgt;
    } in
    (
      q.tail,
      rewritten d q q.tail s (x ∷ xs),
      refl,
      last-In nil (next_of q) (prev_of q) nil q.head x xs q.tail nil v.chain.0,
      rewritten-IsQueue d q q.tail s (x ∷ xs)
          (reset_pfd_stat-IsPattern d (q.stat_elms q.tail).stat pid (some d.tgt)) v,
      subst (λ t. Owned d pid t) (sym (rewritten-stat d q q.tail s (x ∷ xs))) (refl, refl),
      (refl, rewritten-stat d q q.tail s (x ∷ xs)),
      rewritten-IsBut d q q.tail s (x ∷ xs),
    )

moved-IsQueue :
    (d : CacheC) (q : PfdStatQueue) (i : ℕ) (l r : List ℕ)
    → IsQueue d q (l ++ i ∷ r)
    → IsQueue d (pfd_stat_elm_to_head q i) (i ∷ (l ++ r))
moved-IsQueue d q i l r v =
    let (c, same) = pfd_stat_elm_to_head-IsChain q i l r v.chain in
    record {
      chain = c;
      below = to_front l v.below;
      patterns = λ j u. subst (λ t. IsPattern d t) (sym (same j)) (v.patterns j (from_front j l u));
    }
  where
    to_front : (zs : List ℕ) → All (λ j. j < nil) (zs ++ i ∷ r) → All (λ j. j < nil) (i ∷ (zs ++ r))
    to_front [] a = a
    to_front (z ∷ zs) a = let (b, c) = to_front zs a.1 in (b, (a.0, c))

    from_front : (j : ℕ) (zs : List ℕ) → In j (i ∷ (zs ++ r)) → In j (zs ++ i ∷ r)
    from_front j zs (inl e) = subst (λ k. In k (zs ++ i ∷ r)) (sym e) (In-middle i zs r)
    from_front j zs (inr u) = In-insert i j zs r u

-- A request finds the first entry of its process, before which there are only other processes' entries
-- in use; or, if such entries are all up to the first unused entry or the end, it resets the last
-- entry for the process. That entry goes to the head, the others keep their order and do not change,
-- and it takes in the request's sector as observe says. The search ends, the queue and all its
-- entries stay well formed, and the result tells what the entry then says, of a run that is not
-- empty.
pub pfd_stat_update-IsQueue :
    (d : CacheC) (pid : ℤ) (sector : ℕ) (q : PfdStatQueue) (x : ℕ) (xs : List ℕ)
    → IsQueue d q (x ∷ xs)
    → (q' : PfdStatQueue) × (i : ℕ) × (l : List ℕ) × (r : List ℕ) × (x ∷ xs ≡ l ++ i ∷ r)
      × (pfd_stat_update d pid sector q ≡ some (q', info_of (q'.stat_elms i).stat sector))
      × IsQueue d q' (i ∷ (l ++ r))
      × Owned d pid (q'.stat_elms i).stat
      × (0 < (info_of (q'.stat_elms i).stat sector).seq_count)
      × IsBut q q' i
      × ((found : Option ℕ) × (old : PfdStat) × IsFirst d pid q (x ∷ xs) found
          × IsTaken d pid q found i old
          × ((q'.stat_elms i).stat ≡ observe d old sector))
unfolding pfd_stat_update update_elm
pfd_stat_update-IsQueue d pid sector q x xs v =
    let o : Option ℕ = found_in q d pid (x ∷ xs) in
    let search : pfd_stat_queue_search q d pid ≡ some o =
      search_from-found_in (suc nil) q d pid nil q.head (x ∷ xs) q.tail v.chain.0
        (omega (arith, Distinct-length-le nil (x ∷ xs) v.chain.1 v.below)) in
    let first : IsFirst d pid q (x ∷ xs) o = found_in-IsFirst d pid q (x ∷ xs) in
    let (i, q1, e1, u, v1, own, taken, but) = elm_for-Owned d q pid x xs o v first in
    let (l, r, eq) = In-split i (x ∷ xs) u in
    let q2 : PfdStatQueue = pfd_stat_elm_to_head q1 i in
    let same = (pfd_stat_elm_to_head-IsChain q1 i l r (subst (λ t. IsChain q1 t) eq v1.chain)).1 in
    let v2 : IsQueue d q2 (i ∷ (l ++ r)) =
      moved-IsQueue d q1 i l r (subst (λ t. IsQueue d q1 t) eq v1) in
    let s : PfdStat = observe d (q2.stat_elms i).stat sector in
    let (good, busy) =
      observe-IsPattern d (q2.stat_elms i).stat sector (v2.patterns i (inl refl)) in
    let q3 : PfdStatQueue = rewritten d q2 i s (i ∷ (l ++ r)) in
    let now : (q3.stat_elms i).stat ≡ s = rewritten-stat d q2 i s (i ∷ (l ++ r)) in
    (
      q3,
      i,
      l,
      r,
      eq,
      bind-some _ _ o _ search (
          ap (λ t. some (update_elm d sector t)) e1
          ∙ ap (λ t. some (q3, info_of t sector)) (sym now)),
      rewritten-IsQueue d q2 i s (i ∷ (l ++ r)) good v2,
      subst (λ t. Owned d pid t) (sym now)
          (observe-Owned d pid (q2.stat_elms i).stat sector
            (subst (λ t. Owned d pid t) (sym (same i)) own)),
      subst (λ t. 0 < (curr_of t).count) (sym now) busy,
      λ j n. rewritten-IsBut d q2 i s (i ∷ (l ++ r)) j n ∙ same j ∙ but j n,
      (o, (q1.stat_elms i).stat, first, taken, now ∙ ap (λ t. observe d t sector) (same i)),
    )
