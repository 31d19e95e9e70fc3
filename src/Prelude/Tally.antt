-- ===== src/Prelude/Tally.antt =====
-- Counting the numbers below a bound that have a property.
use Prim.Native.Nat.{ℕ, zero, suc, ◌+◌, ◌≤◌, ◌<◌}
use mathlib.Core.Path.{◌≡◌, refl, ap, ◌∙◌}
use mathlib.Core.Logic.{◌≢◌, inl, inr}
use mathlib.Core.Bool.{Bool, true, false}
use native.Mathlib.Omega.{arith}
use flashcache_ubuntu_xenial.Prelude.Tests.{if◌then◌else◌, eq-cases}

-- How many of the first `n` have the property.
abbrev pub tally : (ℕ → Bool) → ℕ → ℕ
tally f zero = 0
tally f (suc n) = tally f n + (if f n then 1 else 0)

pub tally-same : (f g : ℕ → Bool) (n : ℕ) → ((j : ℕ) → j < n → g j ≡ f j) → tally g n ≡ tally f n
tally-same f g zero h = refl
tally-same f g (suc n) h =
    rw (h n (omega arith), tally-same f g n (λ j l. h j (omega (arith, l)))) refl

pub tally-more :
    (f g : ℕ → Bool) (i n : ℕ)
    → i < n
    → f i ≡ false
    → g i ≡ true
    → ((j : ℕ) → j ≢ i → g j ≡ f j)
    → tally g n ≡ tally f n + 1
tally-more f g i zero l a b h = absurd (omega (arith, l))
tally-more f g i (suc n) l a b h = elim (eq-cases n i) [
  | inl e ↦
      let x : f n ≡ false = ap f e ∙ a in
      let y : g n ≡ true = ap g e ∙ b in
      let z : tally g n ≡ tally f n = tally-same f g n (λ j k. h j (omega (arith, k, e))) in
      rw (x, y, z) (omega arith)
  | inr ne ↦
      let z : tally g n ≡ tally f n + 1 = tally-more f g i n (omega (arith, l, ne)) a b h in
      rw (h n ne, z) (omega arith)
]

pub tally-le : (f : ℕ → Bool) (n : ℕ) → tally f n ≤ n
tally-le f zero = omega arith
tally-le f (suc n) = let h = tally-le f n in ground (arith, h)
