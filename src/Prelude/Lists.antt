-- ===== src/Prelude/Lists.antt =====
-- Lists of numbers: measured by the native numbers, membership and distinctness by recursion.
use Prim.Native.Nat.{ℕ, zero, suc, ◌+◌, ◌≤◌, ◌<◌}
use mathlib.Core.Path.{◌≡◌, refl, sym, ap, subst}
use mathlib.Core.Logic.{◌≢◌, ◌⊎◌, inl, inr}
use mathlib.Core.List.{List, [], ◌∷◌, ◌++◌}
use native.Mathlib.Omega.{arith}
use flashcache_ubuntu_xenial.Prelude.Tests.{eq-cases}

abbrev pub length {ℓ} : {A : Type ℓ} → List A → ℕ
length [] = 0
length (x ∷ xs) = suc (length xs)

pub length-append {ℓ} : {A : Type ℓ} (xs ys : List A) → length (xs ++ ys) ≡ length xs + length ys
length-append [] ys = omega arith
length-append (x ∷ xs) ys = omega (arith, length-append xs ys)

abbrev pub All {ℓ κ} : {A : Type ℓ} → (A → Type κ) → List A → Type κ
All P [] = Unit
All P (x ∷ xs) = P x × All P xs

abbrev pub In : ℕ → List ℕ → Type 0
In a [] = ⊥
In a (x ∷ xs) = (a ≡ x) ⊎ In a xs

abbrev pub NotIn : ℕ → List ℕ → Type 0
NotIn a [] = Unit
NotIn a (x ∷ xs) = (a ≢ x) × NotIn a xs

abbrev pub Distinct : List ℕ → Type 0
Distinct [] = Unit
Distinct (x ∷ xs) = NotIn x xs × Distinct xs

pub In-insert : (i j : ℕ) (xs ys : List ℕ) → In j (xs ++ ys) → In j (xs ++ i ∷ ys)
In-insert i j [] ys u = inr u
In-insert i j (x ∷ xs) ys (inl e) = inl e
In-insert i j (x ∷ xs) ys (inr u) = inr (In-insert i j xs ys u)

pub ne_of_NotIn : (a b : ℕ) (xs : List ℕ) → NotIn a xs → In b xs → a ≢ b
ne_of_NotIn a b [] n i = absurd i
ne_of_NotIn a b (x ∷ xs) n (inl e) = λ d. n.0 (ground arith)
ne_of_NotIn a b (x ∷ xs) n (inr i) = ne_of_NotIn a b xs n.1 i

pub In-append_left : (a : ℕ) (xs ys : List ℕ) → In a xs → In a (xs ++ ys)
In-append_left a [] ys i = absurd i
In-append_left a (x ∷ xs) ys (inl e) = inl e
In-append_left a (x ∷ xs) ys (inr i) = inr (In-append_left a xs ys i)

pub In-append_right : (a : ℕ) (xs ys : List ℕ) → In a ys → In a (xs ++ ys)
In-append_right a [] ys i = i
In-append_right a (x ∷ xs) ys i = inr (In-append_right a xs ys i)

pub NotIn-append : (a : ℕ) (xs ys : List ℕ) → NotIn a xs → NotIn a ys → NotIn a (xs ++ ys)
NotIn-append a [] ys n m = m
NotIn-append a (x ∷ xs) ys n m = (n.0, NotIn-append a xs ys n.1 m)

pub NotIn-split : (a : ℕ) (xs ys : List ℕ) → NotIn a (xs ++ ys) → NotIn a xs × NotIn a ys
NotIn-split a [] ys n = (tt, n)
NotIn-split a (x ∷ xs) ys n = let (l, r) = NotIn-split a xs ys n.1 in ((n.0, l), r)

-- No element stands in both lists.
abbrev pub Apart : List ℕ → List ℕ → Type 0
Apart [] ys = Unit
Apart (x ∷ xs) ys = NotIn x ys × Apart xs ys

pub NotIn-Apart : (a : ℕ) (xs ys : List ℕ) → Apart xs ys → In a xs → NotIn a ys
NotIn-Apart a [] ys d i = absurd i
NotIn-Apart a (x ∷ xs) ys d (inl e) = rw e d.0
NotIn-Apart a (x ∷ xs) ys d (inr i) = NotIn-Apart a xs ys d.1 i

pub Distinct-split :
    (xs ys : List ℕ) → Distinct (xs ++ ys) → Distinct xs × Distinct ys × Apart xs ys
Distinct-split [] ys d = (tt, d, tt)
Distinct-split (x ∷ xs) ys d =
    let (l, r, a) = Distinct-split xs ys d.1 in
    let (n, m) = NotIn-split x xs ys d.0 in ((n, l), r, (m, a))

pub Distinct-append :
    (xs ys : List ℕ) → Distinct xs → Distinct ys → Apart xs ys → Distinct (xs ++ ys)
Distinct-append [] ys d e a = e
Distinct-append (x ∷ xs) ys d e a = (NotIn-append x xs ys d.0 a.0, Distinct-append xs ys d.1 e a.1)

pub All-at {κ} : (P : ℕ → Type κ) (a : ℕ) (xs : List ℕ) → All P xs → In a xs → P a
All-at P a [] h i = absurd i
All-at P a (x ∷ xs) h (inl e) = subst P (sym e) h.0
All-at P a (x ∷ xs) h (inr i) = All-at P a xs h.1 i

pub All-map {ℓ κ} :
    {P : ℕ → Type ℓ} {Q : ℕ → Type κ} (xs : List ℕ)
    → ((a : ℕ) → In a xs → P a → Q a)
    → All P xs
    → All Q xs
All-map [] f h = tt
All-map (x ∷ xs) f h = (f x (inl refl) h.0, All-map xs (λ a i. f a (inr i)) h.1)

pub All-append {κ} : (P : ℕ → Type κ) (xs ys : List ℕ) → All P xs → All P ys → All P (xs ++ ys)
All-append P [] ys h k = k
All-append P (x ∷ xs) ys h k = (h.0, All-append P xs ys h.1 k)

pub All-split {κ} : (P : ℕ → Type κ) (xs ys : List ℕ) → All P (xs ++ ys) → All P xs × All P ys
All-split P [] ys h = (tt, h)
All-split P (x ∷ xs) ys h = let (l, r) = All-split P xs ys h.1 in ((h.0, l), r)

pub In-middle : (a : ℕ) (xs ys : List ℕ) → In a (xs ++ a ∷ ys)
In-middle a xs ys = In-append_right a xs (a ∷ ys) (inl refl)

pub NotIn-not : (a : ℕ) (xs : List ℕ) → ¬ In a xs → NotIn a xs
NotIn-not a [] h = tt
NotIn-not a (x ∷ xs) h = (λ e. h (inl e), NotIn-not a xs (λ i. h (inr i)))

pub In-cases : (a : ℕ) (xs : List ℕ) → In a xs ⊎ NotIn a xs
In-cases a [] = inr tt
In-cases a (x ∷ xs) = elim (In-cases a xs) [
  | inl i ↦ inl (inr i)
  | inr n ↦ elim (eq-cases a x) [ inl e ↦ inl (inl e) | inr ne ↦ inr (ne, n) ]
]

pub In-split : (a : ℕ) (xs : List ℕ) → In a xs → (l : List ℕ) × (r : List ℕ) × (xs ≡ l ++ a ∷ r)
In-split a [] i = absurd i
In-split a (x ∷ xs) (inl e) = ([], xs, rw e refl)
In-split a (x ∷ xs) (inr i) = let (l, r, e) = In-split a xs i in (x ∷ l, r, ap (λ t. x ∷ t) e)

-- Taking the middle element out keeps the list distinct, and the element is gone.
pub Distinct-middle :
    (a : ℕ) (xs ys : List ℕ) → Distinct (xs ++ a ∷ ys) → Distinct (xs ++ ys) × NotIn a (xs ++ ys)
Distinct-middle a [] ys d = (d.1, d.0)
Distinct-middle a (x ∷ xs) ys d =
    let (e, n) = Distinct-middle a xs ys d.1 in
    let (l, r) = NotIn-split x xs (a ∷ ys) d.0 in
    ((NotIn-append x xs ys l r.1, e), (λ k. r.0 (sym k), n))

pub length-middle : (a : ℕ) (xs ys : List ℕ) → length (xs ++ a ∷ ys) ≡ suc (length (xs ++ ys))
length-middle a [] ys = refl
length-middle a (x ∷ xs) ys = ap suc (length-middle a xs ys)

-- Distinct numbers below `n` are at most `n`.
pub Distinct-length-le : (n : ℕ) (xs : List ℕ) → Distinct xs → All (λ x. x < n) xs → length xs ≤ n
Distinct-length-le zero [] d h = omega arith
Distinct-length-le zero (x ∷ xs) d h = absurd (omega arith)
Distinct-length-le (suc n) xs d h = elim (In-cases n xs) [
  | inl i ↦
      let (l, r, e) = In-split n xs i in
      let (d', m) = Distinct-middle n l r (subst Distinct e d) in
      let h' : All (λ x. x < suc n) (l ++ n ∷ r) = subst (All (λ x. x < suc n)) e h in
      let (hl, hr) = All-split (λ x. x < suc n) l (n ∷ r) h' in
      omega (
        arith,
        ap length e,
        length-middle n l r,
        Distinct-length-le n (l ++ r) d' (
            All-map (l ++ r)
              (λ a j k. let ne : a ≢ n = λ e. ne_of_NotIn n a (l ++ r) m j (sym e) in omega arith)
              (All-append (λ x. x < suc n) l r hl hr.1)),
      )
  | inr m ↦ omega (
    arith,
    Distinct-length-le n xs d (
        All-map xs (λ a i l. let ne : a ≢ n = λ e. ne_of_NotIn n a xs m i (sym e) in omega arith)
          h),
  )
]

pub Apart-middle : (a : ℕ) (xs ys zs : List ℕ) → Apart (xs ++ a ∷ ys) zs → Apart (xs ++ ys) zs
Apart-middle a [] ys zs h = h.1
Apart-middle a (x ∷ xs) ys zs h = (h.0, Apart-middle a xs ys zs h.1)

pub Apart-one : (a : ℕ) (xs : List ℕ) → NotIn a xs → Apart xs (a ∷ [])
Apart-one a [] n = tt
Apart-one a (x ∷ xs) n = ((λ e. n.0 (sym e), tt), Apart-one a xs n.1)

pub Apart-append : (xs ys zs : List ℕ) → Apart xs zs → Apart ys zs → Apart (xs ++ ys) zs
Apart-append [] ys zs a b = b
Apart-append (x ∷ xs) ys zs a b = (a.0, Apart-append xs ys zs a.1 b)

pub Apart-sym : (xs ys : List ℕ) → Apart xs ys → Apart ys xs
Apart-sym xs [] a = tt
Apart-sym xs (y ∷ ys) a = (NotIn-not y xs (λ i. not-both i), Apart-sym xs ys (shift xs a))
  where
    not-both : In y xs → ⊥
    not-both i = (NotIn-Apart y xs (y ∷ ys) a i).0 refl

    shift : (xs : List ℕ) → Apart xs (y ∷ ys) → Apart xs ys
    shift [] b = tt
    shift (z ∷ zs) b = (b.0.1, shift zs b.1)

-- A list is empty or has a last element.
pub last-cases : (xs : List ℕ) → (xs ≡ []) ⊎ ((l : List ℕ) × (t : ℕ) × (xs ≡ l ++ t ∷ []))
last-cases [] = inl refl
last-cases (x ∷ xs) = elim (last-cases xs) [
  | inl e ↦ inr ([], x, ap (λ t. x ∷ t) e)
  | inr (l, t, e) ↦ inr (x ∷ l, t, ap (λ t. x ∷ t) e)
]
