-- ===== src/Pfd/Sections.antt =====
-- What the success of a critical section of src/pfd_cache.c tells, and lists without an element.
use mathlib.Core.Option
use flashcache_ubuntu_xenial.Prelude.{
  ℕ, suc, ◌+◌, ◌≡◌, sym, ap, subst, ◌∙◌, Bool, false, not, ◌&&◌, ◌||◌, arith, some, none, ltb, ◌==◌,
  if◌then◌else◌, List, [], ◌∷◌, ◌++◌, All, All-append, All-split, length, length-middle, Bool-cases,
  inl, inr, if-true, if-false,
}
use flashcache_ubuntu_xenial.Pfd.Cache.{
  PfdCacheMeta, MetaStatus, is_empty, is_prepare, hold, claim, reset_meta,
}

-- The critical sections, by what their success tells.
pub hold-some :
    (m m' : PfdCacheMeta) (dbn : ℕ)
    → hold m dbn ≡ some m'
    → (m' ≡ record m { hold_count = m.hold_count + 1 }) × (dbn ≡ m.dbn)
unfolding hold
hold-some m m' dbn e = elim (Bool-cases (is_empty m.status || not (m.dbn == dbn))) [
  | inl t ↦ absurd (none-some m' (sym (if-true _ none _ t) ∙ e))
  | inr f ↦ (
    sym (Option.some-injective _ m' (sym (if-false _ none _ f) ∙ e)),
    sym (same_dbn (is_empty m.status) m.dbn dbn f),
  )
]
  where
    none-some : (a : PfdCacheMeta) → none ≡ some a → ⊥
    none-some a h = absurd (cc)

    same_dbn : (b : Bool) (a c : ℕ) → (b || not (a == c)) ≡ false → a ≡ c
    same_dbn b a c h = ground (arith, h)

pub idle-some :
    (m : PfdCacheMeta) (r m' : PfdCacheMeta)
    → (if is_prepare m.status || ltb 0 m.hold_count then none else some r) ≡ some m'
    → (m' ≡ r) × (m.hold_count ≡ 0) × (is_prepare m.status ≡ false)
idle-some m r m' e = elim (Bool-cases (is_prepare m.status || ltb 0 m.hold_count)) [
  | inl t ↦ absurd (none-some (sym (if-true _ none _ t) ∙ e))
  | inr f ↦ (
    sym (Option.some-injective r m' (sym (if-false _ none _ f) ∙ e)),
    idle (is_prepare m.status) m.hold_count f,
    free (is_prepare m.status) m.hold_count f,
  )
]
  where
    none-some : none ≡ some m' → ⊥
    none-some h = absurd (cc)

    idle : (b : Bool) (n : ℕ) → (b || ltb 0 n) ≡ false → n ≡ 0
    idle b n h = ground (arith, h)

    free : (b : Bool) (n : ℕ) → (b || ltb 0 n) ≡ false → b ≡ false
    free b n h = ground (arith, h)

pub claim-some :
    (m m' : PfdCacheMeta) (dbn : ℕ)
    → claim m dbn ≡ some m'
    → (m' ≡ record m { dbn = dbn; status = MetaStatus.prepare; prepare_lock = 0 })
      × (m.hold_count ≡ 0)
      × (is_prepare m.status ≡ false)
unfolding claim
claim-some m m' dbn e = elim (Bool-cases (not (is_empty m.status) && m.dbn == dbn)) [
  | inl t ↦ absurd (none-some (sym (if-true _ none _ t) ∙ e))
  | inr f ↦ idle-some m _ m' (sym (if-false _ none _ f) ∙ e)
]
  where
    none-some : none ≡ some m' → ⊥
    none-some h = absurd (cc)

pub reset_meta-some :
    (m m' : PfdCacheMeta)
    → reset_meta m ≡ some m'
    → (m' ≡ record m { status = MetaStatus.empty })
      × (m.hold_count ≡ 0)
      × (is_prepare m.status ≡ false)
unfolding reset_meta
reset_meta-some m m' e = idle-some m _ m' e

pub All-none : (P : ℕ → Type 0) (xs : List ℕ) → length xs ≡ 0 → All P xs
All-none P [] e = tt
All-none P (x ∷ xs) e = absurd (omega (arith, e))

pub All-without :
    (P : ℕ → Type 0) (a : ℕ) (l r xs : List ℕ) → xs ≡ l ++ a ∷ r → All P xs → All P (l ++ r) × P a
All-without P a l r xs e h =
    let (b, c) = All-split P l (a ∷ r) (subst (λ t. All P t) e h) in (All-append P l r b c.1, c.0)

pub count_without : (a : ℕ) (l r xs : List ℕ) → xs ≡ l ++ a ∷ r → length xs ≡ suc (length (l ++ r))
count_without a l r xs e = ap length e ∙ length-middle a l r
