-- ===== src/Pfd/Queue.antt =====
-- The queue of entries of src/pfd_stat.c, the most recently used first: moving an element to the
-- head, and finding the element of a process.
use flashcache_ubuntu_xenial.Prelude.{
  ℕ, zero, suc, ◌<◌, ◌≡◌, ◌≢◌, ◌↔◌, refl, sym, subst, ap, ◌∙◌, Bool, true, false, arith, ◌==◌,
  if◌then◌else◌, if-eq, if-ne, Option, some, none, List, [], ◌∷◌, ◌++◌, In, NotIn, Distinct,
  Distinct-split, Distinct-middle, In-middle, In-insert, ne_of_NotIn, length, ℤ,
}
use flashcache_ubuntu_xenial.Device.{CacheC}
use flashcache_ubuntu_xenial.Links.Segments.{Seg, Dll, Seg-split, last-In, ne_null_of_In}
use flashcache_ubuntu_xenial.Links.Edits.{push_head-Dll, remove-Dll}
use flashcache_ubuntu_xenial.Pfd.Stat.{
  PfdStatQueue, nil, taken_out, put_first, pfd_stat_elm_to_head, search_from, is_of, is_unused,
}

abbrev pub next_of : PfdStatQueue → ℕ → ℕ
next_of q j = (q.stat_elms j).next

abbrev pub prev_of : PfdStatQueue → ℕ → ℕ
prev_of q j = (q.stat_elms j).prev

-- The queue's links lead through `xs`, from its head to its tail.
abbrev pub IsChain : PfdStatQueue → List ℕ → Type 0
IsChain q xs = Dll nil (next_of q) (prev_of q) q.head xs q.tail × Distinct xs

-- The entries themselves stay.
abbrev pub SameStats : PfdStatQueue → PfdStatQueue → Type 0
SameStats q q' = (j : ℕ) → (q'.stat_elms j).stat ≡ (q.stat_elms j).stat

module _ (q : PfdStatQueue) (i : ℕ) (xs ys : List ℕ) (c : IsChain q (xs ++ i ∷ ys)) where
  behind : Seg nil (next_of q) (prev_of q) i (next_of q i) ys q.tail nil
  behind =
      let (r, m, l, k) =
        Seg-split nil (next_of q) (prev_of q) nil q.head xs (i ∷ ys) q.tail nil c.0 in
      k.3

  -- The tail is the element that has none behind it.
  last_is :
      (zs : List ℕ)
      → NotIn i zs
      → Seg nil (next_of q) (prev_of q) i (next_of q i) zs q.tail nil
      → (next_of q i ≡ nil) ↔ (q.tail ≡ i)
  last_is [] n s = (λ e. s.1, λ e. s.0)
  last_is (z ∷ zs) n s = (
    λ e. absurd (s.1 (sym s.0 ∙ e)),
    λ e. absurd (
        ne_of_NotIn i q.tail (z ∷ zs) n
          (last-In nil (next_of q) (prev_of q) i (next_of q i) z zs q.tail nil s) (sym e)),
  )

  i-ne : i ≢ nil
  i-ne =
      ne_null_of_In nil (next_of q) (prev_of q) nil q.head (xs ++ i ∷ ys) q.tail nil i c.0
        (In-middle i xs ys)

  others : Distinct (xs ++ ys) × NotIn i (xs ++ ys)
  others = Distinct-middle i xs ys c.1

  in_ys : NotIn i ys
  in_ys = (Distinct-split xs (i ∷ ys) c.1).1.0

  member-ne : (j : ℕ) → In j (xs ++ ys) → (i ≢ j) × (j ≢ nil)
  member-ne j u = (
    ne_of_NotIn i j (xs ++ ys) others.1 u,
    ne_null_of_In nil (next_of q) (prev_of q) nil q.head (xs ++ i ∷ ys) q.tail nil j c.0
        (In-insert i j xs ys u),
  )

  before_is :
      (zs : List ℕ) (r m h p : ℕ) (z : ℕ)
      → Seg nil (next_of q) (prev_of q) p h (z ∷ zs) r m
      → r ≢ nil
  before_is zs r m h p z s =
      ne_null_of_In nil (next_of q) (prev_of q) p h (z ∷ zs) r m r s
        (last-In nil (next_of q) (prev_of q) p h z zs r m s)

  -- Taking the element out, when it is not the head.
  module _ (before : prev_of q i ≢ nil) where
    out_next :
        (j : ℕ)
        → In j (xs ++ ys)
        → next_of (taken_out q i) j ≡ (if j == prev_of q i then next_of q i else next_of q j)
    unfolding taken_out
    out_next j u = let (a, b) = member-ne j u in ground arith

    out_prev :
        (j : ℕ)
        → In j (xs ++ ys)
        → prev_of (taken_out q i) j ≡ (if j == next_of q i then prev_of q i else prev_of q j)
    unfolding taken_out
    out_prev j u = let (a, b) = member-ne j u in ground arith

    out_head : (taken_out q i).head ≡ (if prev_of q i == nil then next_of q i else q.head)
    unfolding taken_out
    out_head = ground arith

    out_tail : (taken_out q i).tail ≡ (if next_of q i == nil then prev_of q i else q.tail)
    unfolding taken_out
    out_tail = let (a, b) = last_is ys in_ys behind in ground (arith, a, b)

    out_IsChain : IsChain (taken_out q i) (xs ++ ys)
    out_IsChain = (
      remove-Dll nil (next_of q) (prev_of q) (next_of (taken_out q i)) (prev_of (taken_out q i))
          q.head q.tail _ _ i xs ys c.0 c.1 out_next out_prev out_head out_tail,
      others.0,
    )

before-ne :
    (q : PfdStatQueue) (i x : ℕ) (xs ys : List ℕ)
    → IsChain q ((x ∷ xs) ++ i ∷ ys)
    → prev_of q i ≢ nil
before-ne q i x xs ys c =
    let (r, m, l, k) =
      Seg-split nil (next_of q) (prev_of q) nil q.head (x ∷ xs) (i ∷ ys) q.tail nil c.0 in
    rw (k.2) (before_is q i (x ∷ xs) ys c xs r m q.head nil x l)

-- Putting an element that is not in the queue before the head.
module _ (q : PfdStatQueue) (i x : ℕ) (xs : List ℕ) (c : IsChain q (x ∷ xs)) (n : NotIn i (x ∷ xs))
    (i-ne : i ≢ nil) where
  first_IsChain : IsChain (put_first q i) (i ∷ x ∷ xs)
  unfolding put_first
  first_IsChain =
      let head-ne : i ≢ q.head = rw (c.0.0) n.0 in
      let some_head : q.head ≢ nil = rw (c.0.0) c.0.1 in
      (
        push_head-Dll nil (next_of q) (prev_of q) (next_of (put_first q i))
            (prev_of (put_first q i)) q.head q.tail _ _ i (x ∷ xs) c.0 c.1 n i-ne
            (λ j u. let a : i ≢ j = ne_of_NotIn i j (x ∷ xs) n u in ground arith)
            (λ j u. let a : i ≢ j = ne_of_NotIn i j (x ∷ xs) n u in ground arith) (ground arith)
            (ground arith) refl (ground arith),
        (n, c.1),
      )

-- Only the links change.
taken_out-SameStats : (q : PfdStatQueue) (i : ℕ) → SameStats q (taken_out q i)
unfolding taken_out
taken_out-SameStats q i j = ground arith

put_first-SameStats : (q : PfdStatQueue) (i : ℕ) → SameStats q (put_first q i)
unfolding put_first
put_first-SameStats q i j = ground arith

head_first :
    (q : PfdStatQueue) (i : ℕ) (ys : List ℕ)
    → q.head ≡ i
    → IsChain q (i ∷ ys)
    → IsChain (pfd_stat_elm_to_head q i) (i ∷ ys) × SameStats q (pfd_stat_elm_to_head q i)
unfolding pfd_stat_elm_to_head
head_first q i ys e c =
    subst (λ r. IsChain r (i ∷ ys) × SameStats q r)
      (sym (if-eq q.head i q (put_first (taken_out q i) i) e)) (c, λ j. refl)

-- An element of the queue becomes its first, the others keep their order, and no entry changes.
pub pfd_stat_elm_to_head-IsChain :
    (q : PfdStatQueue) (i : ℕ) (xs ys : List ℕ)
    → IsChain q (xs ++ i ∷ ys)
    → IsChain (pfd_stat_elm_to_head q i) (i ∷ (xs ++ ys)) × SameStats q (pfd_stat_elm_to_head q i)
unfolding pfd_stat_elm_to_head
pfd_stat_elm_to_head-IsChain q i [] ys c = head_first q i ys (c.0.0) c
pfd_stat_elm_to_head-IsChain q i (x ∷ xs) ys c =
    let head-ne : q.head ≢ i =
      λ e. ne_of_NotIn x i (xs ++ i ∷ ys) c.1.0 (In-middle i xs ys) (sym c.0.0 ∙ e) in
    let before : prev_of q i ≢ nil = before-ne q i x xs ys c in
    let out : IsChain (taken_out q i) (x ∷ (xs ++ ys)) = out_IsChain q i (x ∷ xs) ys c before in
    subst (λ r. IsChain r (i ∷ x ∷ (xs ++ ys)) × SameStats q r)
      (sym (if-ne q.head i q (put_first (taken_out q i) i) head-ne))
      (
        first_IsChain (taken_out q i) i x (xs ++ ys) out (others q i (x ∷ xs) ys c).1
            (i-ne q i (x ∷ xs) ys c),
        λ j. put_first-SameStats (taken_out q i) i j ∙ taken_out-SameStats q i j,
      )

-- What the search finds: the first element of the process before any unused one.
abbrev pub found_in : PfdStatQueue → CacheC → ℤ → List ℕ → Option ℕ
found_in q d pid [] = none
found_in q d pid (x ∷ xs) =
    if is_of d pid (q.stat_elms x).stat
    then some x
    else if is_unused (q.stat_elms x).stat.tgt
    then none
    else found_in q d pid xs

pub search_from-found_in :
    (fuel : ℕ) (q : PfdStatQueue) (d : CacheC) (pid : ℤ) (p h : ℕ) (xs : List ℕ) (t : ℕ)
    → Seg nil (next_of q) (prev_of q) p h xs t nil
    → length xs < fuel
    → search_from fuel q d pid h ≡ some (found_in q d pid xs)
unfolding search_from
search_from-found_in zero q d pid p h xs t s f = absurd (omega (arith, f))
search_from-found_in (suc fuel) q d pid p h [] t s f = if-eq h nil _ _ s.0
search_from-found_in (suc fuel) q d pid p h (x ∷ xs) t s f =
    if-ne h nil _ _ (rw (s.0) s.1)
    ∙ ap (λ k. step_from fuel q d pid k) (s.0)
    ∙ step (is_of d pid (q.stat_elms x).stat) (is_unused (q.stat_elms x).stat.tgt)
        (search_from-found_in fuel q d pid x (next_of q x) xs t s.3 (omega (arith, f)))
  where
    step_from : ℕ → PfdStatQueue → CacheC → ℤ → ℕ → Option (Option ℕ)
    step_from g r e k j =
        if is_of e k (r.stat_elms j).stat
        then some (some j)
        else if is_unused (r.stat_elms j).stat.tgt
        then some none
        else search_from g r e k (next_of r j)

    step :
        (a b : Bool)
        → search_from fuel q d pid (next_of q x) ≡ some (found_in q d pid xs)
        → (if a
            then some (some x)
            else if b
            then some none
            else search_from fuel q d pid (next_of q x))
          ≡ some (if a then some x else if b then none else found_in q d pid xs)
    step true b e = refl
    step false true e = refl
    step false false e = e
