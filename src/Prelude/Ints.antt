-- ===== src/Prelude/Ints.antt =====
-- Signed machine words, for the `long` values of src/pfd_stat.c, over the native numbers. The
-- arithmetic is exact: a sector number is far below 2 ^ 63.
use Prim.Native.Nat.{ℕ, ◌+◌, ◌-◌}
use mathlib.Core.Bool.{Bool, false}
use flashcache_ubuntu_xenial.Prelude.Tests.{leb, ◌==◌, if◌then◌else◌}

-- `negsuc n` is -(n + 1).
pub data ℤ : Type 0 where
  pos negsuc : ℕ → ℤ

infixl 60 ◌⊖◌
abbrev pub ◌⊖◌ : ℕ → ℕ → ℤ
a ⊖ b = if leb b a then pos (a - b) else negsuc (b - a - 1)

infixl 60 ◌+ℤ◌
infix 50 ◌==ℤ◌
abbrev pub ◌+ℤ◌ : ℤ → ℤ → ℤ
pos a +ℤ pos b = pos (a + b)
pos a +ℤ negsuc b = a ⊖ (b + 1)
negsuc a +ℤ pos b = b ⊖ (a + 1)
negsuc a +ℤ negsuc b = negsuc (a + b + 1)

abbrev pub abs : ℤ → ℕ
abs (pos a) = a
abs (negsuc a) = a + 1

abbrev pub ◌==ℤ◌ : ℤ → ℤ → Bool
pos a ==ℤ pos b = a == b
negsuc a ==ℤ negsuc b = a == b
pos a ==ℤ negsuc b = false
negsuc a ==ℤ pos b = false
