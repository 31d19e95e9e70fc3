-- ===== src/Links/Segments.antt =====
-- List segments, their frame and their concatenation.
use flashcache_ubuntu_xenial.Prelude.{
  ℕ, ◌≡◌, ◌≢◌, ◌⊎◌, inl, inr, refl, sym, ap, ◌∙◌, List, [], ◌∷◌, ◌++◌, In, Distinct, ne_of_NotIn,
}

module _ (null : ℕ) where
  -- From `h`, whose `prev` is `p`, the links lead through `xs` to `e`, and `q` is the last node.
  abbrev pub Seg : (ℕ → ℕ) → (ℕ → ℕ) → ℕ → ℕ → List ℕ → ℕ → ℕ → Type 0
  Seg next prev p h [] q e = (h ≡ e) × (q ≡ p)
  Seg next prev p h (x ∷ xs) q e =
      (h ≡ x) × (x ≢ null) × (prev x ≡ p) × Seg next prev x (next x) xs q e

  -- A whole list, from its head to its tail.
  abbrev pub Dll : (ℕ → ℕ) → (ℕ → ℕ) → ℕ → List ℕ → ℕ → Type 0
  Dll next prev head xs tail = Seg next prev null head xs tail null

  pub Seg-split :
      (next prev : ℕ → ℕ) (p h : ℕ) (xs ys : List ℕ) (q e : ℕ)
      → Seg next prev p h (xs ++ ys) q e
      → (r : ℕ) × (m : ℕ) × Seg next prev p h xs r m × Seg next prev r m ys q e
  Seg-split next prev p h [] ys q e s = (p, h, (refl, refl), s)
  Seg-split next prev p h (x ∷ xs) ys q e s =
      let (r, m, l, k) = Seg-split next prev x (next x) xs ys q e s.3 in
      (r, m, (s.0, s.1, s.2, l), k)

  pub Seg-append :
      (next prev : ℕ → ℕ) (p h : ℕ) (xs ys : List ℕ) (r m q e : ℕ)
      → Seg next prev p h xs r m
      → Seg next prev r m ys q e
      → Seg next prev p h (xs ++ ys) q e
  Seg-append next prev p h [] ys r m q e s t = rw (s.0, ← s.1) t
  Seg-append next prev p h (x ∷ xs) ys r m q e s t =
      (s.0, s.1, s.2, Seg-append next prev x (next x) xs ys r m q e s.3 t)

  -- A segment survives any change that spares its nodes.
  pub Seg-frame :
      (next prev next' prev' : ℕ → ℕ) (p h : ℕ) (xs : List ℕ) (q e : ℕ)
      → ((j : ℕ) → In j xs → (next' j ≡ next j) × (prev' j ≡ prev j))
      → Seg next prev p h xs q e
      → Seg next' prev' p h xs q e
  Seg-frame next prev next' prev' p h [] q e same s = s
  Seg-frame next prev next' prev' p h (x ∷ xs) q e same s = (
    s.0,
    s.1,
    (same x (inl refl)).1 ∙ s.2,
    rw ((same x (inl refl)).0)
        (Seg-frame next prev next' prev' x (next x) xs q e (λ j i. same j (inr i)) s.3),
  )

  -- No node of a segment is the end mark.
  pub ne_null_of_In :
      (next prev : ℕ → ℕ) (p h : ℕ) (xs : List ℕ) (q e j : ℕ)
      → Seg next prev p h xs q e
      → In j xs
      → j ≢ null
  ne_null_of_In next prev p h [] q e j s i = absurd i
  ne_null_of_In next prev p h (x ∷ xs) q e j s (inl i) = rw i s.1
  ne_null_of_In next prev p h (x ∷ xs) q e j s (inr i) =
      ne_null_of_In next prev x (next x) xs q e j s.3 i

  -- The last node of a segment is one of its nodes.
  pub last-In :
      (next prev : ℕ → ℕ) (p h x : ℕ) (xs : List ℕ) (q e : ℕ)
      → Seg next prev p h (x ∷ xs) q e
      → In q (x ∷ xs)
  last-In next prev p h x [] q e s = inl s.3.1
  last-In next prev p h x (y ∷ ys) q e s = inr (last-In next prev x (next x) y ys q e s.3)

  pub first-cases :
      (next prev : ℕ → ℕ) (p h : ℕ) (xs : List ℕ) (q e : ℕ)
      → Seg next prev p h xs q e
      → (h ≡ e) ⊎ In h xs
  first-cases next prev p h [] q e s = inl s.0
  first-cases next prev p h (x ∷ xs) q e s = inr (inl s.0)

  pub last-cases :
      (next prev : ℕ → ℕ) (p h : ℕ) (xs : List ℕ) (q e : ℕ)
      → Seg next prev p h xs q e
      → (q ≡ p) ⊎ In q xs
  last-cases next prev p h [] q e s = inl s.1
  last-cases next prev p h (x ∷ xs) q e s = inr (last-In next prev p h x xs q e s)

  -- Behind the last node comes the end.
  pub next-last :
      (next prev : ℕ → ℕ) (p h x : ℕ) (xs : List ℕ) (q e : ℕ)
      → Seg next prev p h (x ∷ xs) q e
      → next q ≡ e
  next-last next prev p h x [] q e s = ap next s.3.1 ∙ s.3.0
  next-last next prev p h x (y ∷ ys) q e s = next-last next prev x (next x) y ys q e s.3

  -- The two ends of a nonempty segment are linked anew, and its inner links stay.
  pub Seg-relink :
      (next prev next' prev' : ℕ → ℕ) (p h x : ℕ) (xs : List ℕ) (q e p' e' : ℕ)
      → Distinct (x ∷ xs)
      → ((j : ℕ) → In j (x ∷ xs) → j ≢ q → next' j ≡ next j)
      → ((j : ℕ) → In j (x ∷ xs) → j ≢ x → prev' j ≡ prev j)
      → next' q ≡ e'
      → prev' x ≡ p'
      → Seg next prev p h (x ∷ xs) q e
      → Seg next' prev' p' h (x ∷ xs) q e'
  Seg-relink next prev next' prev' p h x [] q e p' e' d same_n same_p last first s =
      (s.0, s.1, first, (ap next' (sym s.3.1) ∙ last, s.3.1))
  Seg-relink next prev next' prev' p h x (y ∷ ys) q e p' e' d same_n same_p last first s =
      let x-ne-q : x ≢ q =
        ne_of_NotIn x q (y ∷ ys) d.0 (last-In next prev x (next x) y ys q e s.3) in
      let rest : Seg next' prev' x (next x) (y ∷ ys) q e' =
        Seg-relink next prev next' prev' x (next x) y ys q e x e' d.1 (λ j i. same_n j (inr i))
          (λ j i ne. same_p j (inr i) λ k. ne_of_NotIn x j (y ∷ ys) d.0 i (sym k)) last
          (same_p y (inr (inl refl)) (λ i. d.0.0 (sym i)) ∙ s.3.2) s.3 in
      (s.0, s.1, first, rw (same_n x (inl refl) x-ne-q) rest)

  -- The neighbours of a node in the middle.
  pub neighbours :
      (next prev : ℕ → ℕ) (head i : ℕ) (xs ys : List ℕ) (tail : ℕ)
      → Dll next prev head (xs ++ i ∷ ys) tail
      → ((prev i ≡ null) ⊎ In (prev i) xs) × ((next i ≡ null) ⊎ In (next i) ys)
  neighbours next prev head i xs ys tail s =
      let (r, m, l, k) = Seg-split next prev null head xs (i ∷ ys) tail null s in
      (
        rw (k.2) (last-cases next prev null head xs r m l),
        first-cases next prev i (next i) ys tail null k.3,
      )

  -- A list is empty exactly when its head, or its tail, is the end mark.
  pub ends_of_nonempty :
      (next prev : ℕ → ℕ) (head x : ℕ) (xs : List ℕ) (tail : ℕ)
      → Dll next prev head (x ∷ xs) tail
      → (head ≢ null) × (tail ≢ null)
  ends_of_nonempty next prev head x xs tail s = (
    rw (s.0) s.1,
    ne_null_of_In next prev null head (x ∷ xs) tail null tail s
        (last-In next prev null head x xs tail null s),
  )

  pub ends_of_middle :
      (next prev : ℕ → ℕ) (head i : ℕ) (xs ys : List ℕ) (tail : ℕ)
      → Dll next prev head (xs ++ i ∷ ys) tail
      → (head ≢ null) × (tail ≢ null)
  ends_of_middle next prev head i [] ys tail s = ends_of_nonempty next prev head i ys tail s
  ends_of_middle next prev head i (x ∷ xs) ys tail s =
      ends_of_nonempty next prev head x (xs ++ i ∷ ys) tail s

  -- The tail of a list is its last node.
  pub tail_of_append :
      (next prev : ℕ → ℕ) (p h : ℕ) (xs : List ℕ) (t q e : ℕ)
      → Seg next prev p h (xs ++ t ∷ []) q e
      → (q ≡ t) × (t ≢ null)
  tail_of_append next prev p h [] t q e s = (s.3.1, s.1)
  tail_of_append next prev p h (x ∷ xs) t q e s = tail_of_append next prev x (next x) xs t q e s.3
