-- ===== src/Links/Edits.antt =====
-- The edits of a doubly linked list: a node is taken out, or put in at an end.
use mathlib.Core.Path.{subst₂}
use flashcache_ubuntu_xenial.Prelude.{
  ℕ, ◌≡◌, ◌≢◌, inl, inr, refl, sym, ◌∙◌, List, [], ◌∷◌, ◌++◌, arith, In, NotIn, Distinct,
  ne_of_NotIn, ◌==◌, if◌then◌else◌, Distinct-split, In-append_left, In-append_right, NotIn-Apart,
  if-eq, if-ne,
}
use flashcache_ubuntu_xenial.Links.Segments.{
  Seg, Dll, Seg-split, Seg-append, ne_null_of_In, last-In, next-last, first-cases, last-cases,
  Seg-relink,
}

module _ (null : ℕ) (next prev next' prev' : ℕ → ℕ) where
  -- `i` is put in at the head.
  pub push_head-Dll :
      (head tail head' tail' i : ℕ) (xs : List ℕ)
      → Dll null next prev head xs tail
      → Distinct xs
      → NotIn i xs
      → i ≢ null
      → ((j : ℕ) → In j xs → next' j ≡ next j)
      → ((j : ℕ) → In j xs → prev' j ≡ (if j == head then i else prev j))
      → prev' i ≡ null
      → next' i ≡ head
      → head' ≡ i
      → tail' ≡ (if head == null then i else tail)
      → Dll null next' prev' head' (i ∷ xs) tail'
  push_head-Dll head tail head' tail' i [] s d n ne same_n same_p pi ni eh et = ground arith
  push_head-Dll head tail head' tail' i (x ∷ xs) s d n ne same_n same_p pi ni eh et =
      (eh, ne, pi, rw (ni, et ∙ if-ne head null i tail (rw (s.0) s.1)) rest)
    where
      rest : Seg null next' prev' i head (x ∷ xs) tail null
      rest =
          Seg-relink null next prev next' prev' null head x xs tail null i null d
            (λ j k _. same_n j k) (λ j k ne. same_p j k ∙ if-ne j head i (prev j) (rw (s.0) ne))
            (same_n tail (last-In null next prev null head x xs tail null s)
              ∙ next-last null next prev null head x xs tail null s)
            (same_p x (inl refl) ∙ if-eq x head i (prev x) (sym (s.0))) s

  -- `i` is put in at the tail.
  pub push_tail-Dll :
      (head tail head' tail' i : ℕ) (xs : List ℕ)
      → Dll null next prev head xs tail
      → Distinct xs
      → NotIn i xs
      → i ≢ null
      → ((j : ℕ) → In j xs → next' j ≡ (if j == tail then i else next j))
      → ((j : ℕ) → In j xs → prev' j ≡ prev j)
      → prev' i ≡ tail
      → next' i ≡ null
      → head' ≡ (if tail == null then i else head)
      → tail' ≡ i
      → Dll null next' prev' head' (xs ++ i ∷ []) tail'
  push_tail-Dll head tail head' tail' i [] s d n ne same_n same_p pi ni eh et = ground arith
  push_tail-Dll head tail head' tail' i (x ∷ xs) s d n ne same_n same_p pi ni eh et =
      rw (eh ∙ if-ne tail null i head tail-ne) (
        Seg-append null next' prev' null head (x ∷ xs) (i ∷ []) tail i tail' null rest
          (refl, ne, pi, (ni, et)))
    where
      tail-ne : tail ≢ null
      tail-ne =
          ne_null_of_In null next prev null head (x ∷ xs) tail null tail s
            (last-In null next prev null head x xs tail null s)

      rest : Seg null next' prev' null head (x ∷ xs) tail i
      rest =
          Seg-relink null next prev next' prev' null head x xs tail null null i d
            (λ j k ne. same_n j k ∙ if-ne j tail i (next j) ne) (λ j k _. same_p j k)
            (same_n tail (last-In null next prev null head x xs tail null s)
              ∙ if-eq tail tail i (next tail) refl)
            (same_p x (inl refl) ∙ s.2) s

  -- The part before the node that is taken out.
  before-Seg :
      (head head' i : ℕ) (xs : List ℕ)
      → Seg null next prev null head xs (prev i) i
      → Distinct xs
      → ((j : ℕ) → In j xs → next' j ≡ (if j == prev i then next i else next j))
      → ((j : ℕ) → In j xs → prev' j ≡ prev j)
      → head' ≡ (if prev i == null then next i else head)
      → Seg null next' prev' null head' xs (prev i) (next i)
  before-Seg head head' i [] s d same_n same_p eh =
      (eh ∙ if-eq (prev i) null (next i) head s.1, s.1)
  before-Seg head head' i (x ∷ xs) s d same_n same_p eh =
      rw
        (eh
          ∙ if-ne (prev i) null (next i) head
              (ne_null_of_In null next prev null head (x ∷ xs) r i r s r-In))
        (Seg-relink null next prev next' prev' null head x xs r i null (next i) d
          (λ j k ne. same_n j k ∙ if-ne j r (next i) (next j) ne) (λ j k _. same_p j k)
          (same_n r r-In ∙ if-eq r r (next i) (next r) refl) (same_p x (inl refl) ∙ s.2) s)
    where
      r : ℕ
      r = prev i

      r-In : In r (x ∷ xs)
      r-In = last-In null next prev null head x xs r i s

  -- The part behind it.
  after-Seg :
      (tail tail' i : ℕ) (ys : List ℕ)
      → Seg null next prev i (next i) ys tail null
      → Distinct ys
      → ((j : ℕ) → In j ys → next' j ≡ next j)
      → ((j : ℕ) → In j ys → prev' j ≡ (if j == next i then prev i else prev j))
      → tail' ≡ (if next i == null then prev i else tail)
      → Seg null next' prev' (prev i) (next i) ys tail' null
  after-Seg tail tail' i [] s d same_n same_p et = (s.0, et ∙ if-eq (next i) null (prev i) tail s.0)
  after-Seg tail tail' i (y ∷ ys) s d same_n same_p et =
      rw (et ∙ if-ne (next i) null (prev i) tail (rw (s.0) s.1)) (
        Seg-relink null next prev next' prev' i (next i) y ys tail null (prev i) null d
          (λ j k _. same_n j k)
          (λ j k ne. same_p j k ∙ if-ne j (next i) (prev i) (prev j) (rw (s.0) ne))
          (same_n tail (last-In null next prev i (next i) y ys tail null s)
            ∙ next-last null next prev i (next i) y ys tail null s)
          (same_p y (inl refl) ∙ if-eq y (next i) (prev i) (prev y) (sym (s.0))) s)

  -- `i` is taken out.
  pub remove-Dll :
      (head tail head' tail' i : ℕ) (xs ys : List ℕ)
      → Dll null next prev head (xs ++ i ∷ ys) tail
      → Distinct (xs ++ i ∷ ys)
      → ((j : ℕ) → In j (xs ++ ys) → next' j ≡ (if j == prev i then next i else next j))
      → ((j : ℕ) → In j (xs ++ ys) → prev' j ≡ (if j == next i then prev i else prev j))
      → head' ≡ (if prev i == null then next i else head)
      → tail' ≡ (if next i == null then prev i else tail)
      → Dll null next' prev' head' (xs ++ ys) tail'
  remove-Dll head tail head' tail' i xs ys s d same_n same_p eh et =
      let (r, m, l, k) = Seg-split null next prev null head xs (i ∷ ys) tail null s in
      let (dx, diy, a) = Distinct-split xs (i ∷ ys) d in
      let l' : Seg null next prev null head xs (prev i) i =
        subst₂ (λ a b. Seg null next prev null head xs a b) (sym k.2) k.0 l in
      let fore : (j : ℕ) → In j xs → j ≢ next i = λ j u.
        elim (first-cases null next prev i (next i) ys tail null k.3) [
          | inl e ↦ rw e (ne_null_of_In null next prev null head xs (prev i) i j l' u)
          | inr v ↦ ne_of_NotIn j (next i) ys (NotIn-Apart j xs (i ∷ ys) a u).1 v
        ] in
      let aft : (j : ℕ) → In j ys → j ≢ prev i = λ j u.
        elim (last-cases null next prev null head xs (prev i) i l') [
          | inl e ↦ rw e (ne_null_of_In null next prev i (next i) ys tail null j k.3 u)
          | inr v ↦
              λ e. ne_of_NotIn (prev i) j ys (NotIn-Apart (prev i) xs (i ∷ ys) a v).1 u (sym e)
        ] in
      Seg-append null next' prev' null head' xs ys (prev i) (next i) tail' null
        (before-Seg head head' i xs l' dx (λ j u. same_n j (In-append_left j xs ys u))
          (λ j u.
            same_p j (In-append_left j xs ys u) ∙ if-ne j (next i) (prev i) (prev j) (fore j u))
          eh)
        (after-Seg tail tail' i ys k.3 diy.1
          (λ j u.
            same_n j (In-append_right j xs ys u) ∙ if-ne j (prev i) (next i) (next j) (aft j u))
          (λ j u. same_p j (In-append_right j xs ys u)) et)
