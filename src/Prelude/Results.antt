-- ===== src/Prelude/Results.antt =====
-- What a successful chain of Option results says of its parts.
use mathlib.Core.Path.{◌≡◌, refl, ap}
use mathlib.Core.Logic.{◌⊎◌, inl, inr}
use mathlib.Core.Bool.{Bool, true, false}
use mathlib.Core.Option.{Option, none, some}
use flashcache_ubuntu_xenial.Prelude.Tests.{guard, ◌>>=◌, ◌>>◌}

pub bind-inverse {ℓ κ} :
    {A : Type ℓ} {B : Type κ} (m : Option A) (f : A → Option B) (r : B)
    → (m >>= f) ≡ some r
    → (a : A) × (m ≡ some a) × (f a ≡ some r)
bind-inverse none f r e = absurd (cc e)
bind-inverse (some a) f r e = (a, refl, e)

pub guard-inverse {ℓ} :
    {B : Type ℓ} (b : Bool) (m : Option B) (r : B)
    → (guard b >> m) ≡ some r
    → (b ≡ true) × (m ≡ some r)
guard-inverse true m r e = (refl, e)
guard-inverse false m r e = absurd (cc e)

-- A result is a failure, or a value.
pub result-cases {ℓ} : {A : Type ℓ} (m : Option A) → (m ≡ none) ⊎ ((a : A) × (m ≡ some a))
result-cases none = inl refl
result-cases (some a) = inr (a, refl)

pub some-injective {ℓ} : {A : Type ℓ} (a b : A) → some a ≡ some b → a ≡ b
some-injective a b e = ap (λ m. elim m [ none ↦ a | some x ↦ x ]) e
