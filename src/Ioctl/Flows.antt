-- ===== src/Ioctl/Flows.antt =====
-- The queue of flows of src/flashcache_ioctl.c stays a list while flows move to its head.
use mathlib.Core.Path.{ap₂}
use flashcache_ubuntu_xenial.Prelude.{
  ℕ, ◌≡◌, ◌≢◌, ◌⊎◌, inl, inr, refl, sym, subst, ap, ◌∙◌, false, ◌&&◌, arith, ◌==◌, if◌then◌else◌,
  if-false, if-eq, if-ne, some, bind-some, guard-true, List, [], ◌∷◌, ◌++◌, In, NotIn, Distinct,
  Distinct-middle, In-middle, In-insert, NotIn-split, ne_of_NotIn, eq-cases, update,
}
use flashcache_ubuntu_xenial.Links.Segments.{
  Seg, Dll, Seg-split, last-In, neighbours, ne_null_of_In,
}
use flashcache_ubuntu_xenial.Links.Edits.{push_head-Dll, remove-Dll}
use flashcache_ubuntu_xenial.Ioctl.Sequential.{
  SeqState, nil, unlink_next, unlink_prev, seq_io_remove_from_lru, add_to_lruhead,
  seq_io_move_to_lruhead,
}

abbrev pub next_of : SeqState → ℕ → ℕ
next_of s j = (s.seq_recent_ios j).next

abbrev pub prev_of : SeqState → ℕ → ℕ
prev_of s j = (s.seq_recent_ios j).prev

-- The links lead through `xs`, from the head to the tail.
abbrev pub IsFlows : SeqState → List ℕ → Type 0
IsFlows s xs = Dll nil (next_of s) (prev_of s) s.seq_io_head xs s.seq_io_tail × Distinct xs

-- The state after the removal of the flow `i`.
abbrev after_next : SeqState → ℕ → SeqState
after_next s i = if prev_of s i == nil then record s { seq_io_head = next_of s i } else record s {
  seq_recent_ios =
      update s.seq_recent_ios (prev_of s i)
        (record (s.seq_recent_ios (prev_of s i)) { next = next_of s i });
}

abbrev removed : SeqState → ℕ → SeqState
removed s i =
    let t = after_next s i in
    if next_of s i == nil then record t { seq_io_tail = prev_of s i } else record t {
      seq_recent_ios =
          update t.seq_recent_ios (next_of s i)
            (record (t.seq_recent_ios (next_of s i)) { prev = prev_of s i });
    }

module _ (s : SeqState) (i : ℕ) (xs ys : List ℕ) (c : IsFlows s (xs ++ i ∷ ys)) where
  others : Distinct (xs ++ ys) × NotIn i (xs ++ ys)
  others = Distinct-middle i xs ys c.1

  i-ne : i ≢ nil
  i-ne =
      ne_null_of_In nil (next_of s) (prev_of s) nil s.seq_io_head (xs ++ i ∷ ys) s.seq_io_tail nil i
        c.0 (In-middle i xs ys)

  member-ne : (j : ℕ) → In j (xs ++ ys) → (i ≢ j) × (j ≢ nil)
  member-ne j u = (
    ne_of_NotIn i j (xs ++ ys) others.1 u,
    ne_null_of_In nil (next_of s) (prev_of s) nil s.seq_io_head (xs ++ i ∷ ys) s.seq_io_tail nil j
        c.0 (In-insert i j xs ys u),
  )

  removed_next :
      (j : ℕ)
      → In j (xs ++ ys)
      → next_of (removed s i) j ≡ (if j == prev_of s i then next_of s i else next_of s j)
  removed_next j u = let (a, b) = member-ne j u in ground arith

  removed_prev :
      (j : ℕ)
      → In j (xs ++ ys)
      → prev_of (removed s i) j ≡ (if j == next_of s i then prev_of s i else prev_of s j)
  removed_prev j u = let (a, b) = member-ne j u in ground arith

  removed-IsFlows : IsFlows (removed s i) (xs ++ ys)
  removed-IsFlows = (
    remove-Dll nil (next_of s) (prev_of s) (next_of (removed s i)) (prev_of (removed s i))
        s.seq_io_head s.seq_io_tail _ _ i xs ys c.0 c.1 removed_next removed_prev (ground arith)
        (ground arith),
    others.0,
  )

  -- A flow with none before it is the head, and one with none behind is the tail.
  head_cases :
      (zs : List ℕ) (r m : ℕ)
      → Seg nil (next_of s) (prev_of s) nil s.seq_io_head zs r m
      → (s.seq_io_head ≡ m) ⊎ (r ≢ nil)
  head_cases [] r m l = inl l.0
  head_cases (z ∷ zs) r m l = inr (
      ne_null_of_In nil (next_of s) (prev_of s) nil s.seq_io_head (z ∷ zs) r m r l
        (last-In nil (next_of s) (prev_of s) nil s.seq_io_head z zs r m l))

  is_head : (s.seq_io_head ≡ i) ⊎ (prev_of s i ≢ nil)
  is_head =
      let (r, m, l, k) =
        Seg-split nil (next_of s) (prev_of s) nil s.seq_io_head xs (i ∷ ys) s.seq_io_tail nil c.0 in
      elim (head_cases xs r m l) [ inl e ↦ inl (e ∙ k.0) | inr ne ↦ inr (λ e. ne (sym k.2 ∙ e)) ]

  tail_cases :
      (zs : List ℕ)
      → Seg nil (next_of s) (prev_of s) i (next_of s i) zs s.seq_io_tail nil
      → (s.seq_io_tail ≡ i) ⊎ (next_of s i ≢ nil)
  tail_cases [] k = inl k.1
  tail_cases (z ∷ zs) k = inr (λ e. k.1 (sym k.0 ∙ e))

  is_tail : (s.seq_io_tail ≡ i) ⊎ (next_of s i ≢ nil)
  is_tail =
      let (r, m, l, k) =
        Seg-split nil (next_of s) (prev_of s) nil s.seq_io_head xs (i ∷ ys) s.seq_io_tail nil c.0 in
      tail_cases ys k.3

  before-ne : prev_of s i ≢ i
  before-ne e =
      elim (neighbours nil (next_of s) (prev_of s) s.seq_io_head i xs ys s.seq_io_tail c.0).0 [
        | inl n ↦ i-ne (sym e ∙ n)
        | inr u ↦ ne_of_NotIn i (prev_of s i) xs (NotIn-split i xs ys others.1).0 u (sym e)
      ]

  first_half : unlink_next s i ≡ some (after_next s i)
  unfolding unlink_next
  first_half = elim is_head [
    | inl e ↦ elim (eq-cases (prev_of s i) nil) [
      | inl n ↦
          if-eq (prev_of s i) nil _ _ n
          ∙ guard-true (s.seq_io_head == i) _ _ (ground (arith, e)) refl
          ∙ ap some (sym (if-eq (prev_of s i) nil _ _ n))
      | inr n ↦ if-ne (prev_of s i) nil _ _ n ∙ ap some (sym (if-ne (prev_of s i) nil _ _ n))
    ]
    | inr n ↦ if-ne (prev_of s i) nil _ _ n ∙ ap some (sym (if-ne (prev_of s i) nil _ _ n))
  ]

  abbrev mid : SeqState
  mid = after_next s i

  mid_links :
      (next_of mid i ≡ next_of s i)
      × (prev_of mid i ≡ prev_of s i)
      × (mid.seq_io_tail ≡ s.seq_io_tail)
  mid_links = let n = before-ne in (ground (arith, n), ground (arith, n), ground arith)

  second_half : unlink_prev mid i ≡ some (removed s i)
  unfolding unlink_prev
  second_half =
      let (a, b, t) = mid_links in
      elim (eq-cases (next_of s i) nil) [
        | inl n ↦
            if-eq (next_of mid i) nil _ _ (a ∙ n)
            ∙ guard-true (mid.seq_io_tail == i) _ _
                (elim is_tail [ inl e ↦ ground (arith, t, e) | inr ne ↦ absurd (ne n) ]) refl
            ∙ ap (λ v. some (record mid { seq_io_tail = v })) b
            ∙ ap some (sym (if-eq (next_of s i) nil _ _ n))
        | inr n ↦
            if-ne (next_of mid i) nil _ _ (λ e. n (sym a ∙ e))
            ∙ ap₂
                (λ u v. some (record mid {
                  seq_recent_ios =
                      update mid.seq_recent_ios u (record (mid.seq_recent_ios u) { prev = v });
                }))
                a b
            ∙ ap some (sym (if-ne (next_of s i) nil _ _ n))
      ]

  removes : seq_io_remove_from_lru s i ≡ some (removed s i)
  removes = bind-some _ _ mid _ first_half second_half

-- The flow that is on no list is put in before the head.
module _ (s : SeqState) (i x : ℕ) (xs : List ℕ) (c : IsFlows s (x ∷ xs)) (n : NotIn i (x ∷ xs))
    (i-ne : i ≢ nil) where
  added-IsFlows : IsFlows (add_to_lruhead s i) (i ∷ x ∷ xs)
  unfolding add_to_lruhead
  added-IsFlows =
      let head-ne : i ≢ s.seq_io_head = rw (c.0.0) n.0 in
      let some_head : s.seq_io_head ≢ nil = rw (c.0.0) c.0.1 in
      (
        push_head-Dll nil (next_of s) (prev_of s) (next_of (add_to_lruhead s i))
            (prev_of (add_to_lruhead s i)) s.seq_io_head s.seq_io_tail _ _ i (x ∷ xs) c.0 c.1 n i-ne
            (λ j u. let a : i ≢ j = ne_of_NotIn i j (x ∷ xs) n u in ground arith)
            (λ j u. let a : i ≢ j = ne_of_NotIn i j (x ∷ xs) n u in ground arith) (ground arith)
            (ground arith) refl (ground arith),
        (n, c.1),
      )

-- One of several flows has a neighbour.
linked_flow :
    (s : SeqState) (i z : ℕ) (xs ys zs : List ℕ)
    → IsFlows s (xs ++ i ∷ ys)
    → xs ++ ys ≡ z ∷ zs
    → (prev_of s i == nil && next_of s i == nil) ≡ false
linked_flow s i z [] [] zs c e = absurd (cc)
linked_flow s i z [] (y ∷ ys) zs c e =
    let n : next_of s i ≢ nil = λ h. c.0.3.1 (sym c.0.3.0 ∙ h) in ground (arith, n)
linked_flow s i z (x ∷ xs) ys zs c e = elim (is_head s i (x ∷ xs) ys c) [
  | inl h ↦ absurd (ne_of_NotIn x i (xs ++ i ∷ ys) c.1.0 (In-middle i xs ys) (sym c.0.0 ∙ h))
  | inr n ↦ ground (arith, n)
]

-- A flow of a queue of several is moved to the head: no assertion fails, and the others keep their
-- order.
pub seq_io_move_to_lruhead-IsFlows :
    (s : SeqState) (i z : ℕ) (xs ys zs : List ℕ)
    → IsFlows s (xs ++ i ∷ ys)
    → xs ++ ys ≡ z ∷ zs
    → (s' : SeqState) × (seq_io_move_to_lruhead s i ≡ some s') × IsFlows s' (i ∷ (xs ++ ys))
unfolding seq_io_move_to_lruhead
seq_io_move_to_lruhead-IsFlows s i z xs ys zs c e =
    let o = others s i xs ys c in
    let r : IsFlows (removed s i) (z ∷ zs) =
      subst (λ t. IsFlows (removed s i) t) e (removed-IsFlows s i xs ys c) in
    (
      add_to_lruhead (removed s i) i,
      bind-some _ _ (removed s i) _
          (if-false _ _ _ (linked_flow s i z xs ys zs c e) ∙ removes s i xs ys c) refl,
      subst (λ t. IsFlows (add_to_lruhead (removed s i) i) (i ∷ t)) (sym e)
          (added-IsFlows (removed s i) i z zs r (subst (λ t. NotIn i t) e o.1) (i-ne s i xs ys c)),
    )
