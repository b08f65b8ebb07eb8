-- ===== src/Prelude/Integers.antt =====
-- Signed numbers over the native ones, with the operations of C: division cuts towards zero.
use Prim.Native.Nat.{ℕ, zero, suc, ◌+◌, ◌-◌, ◌*◌, ◌/◌}
use mathlib.Core.Bool.{Bool, true, false}
use emulation_lib.Prelude.Tests.{if◌then◌else◌, leb}

pub data ℤ : Type 0 where
  pos : ℕ → ℤ
  negsuc : ℕ → ℤ

-- The number 0 - n.
abbrev pub neg : ℕ → ℤ
neg zero = pos 0
neg (suc n) = negsuc n

-- The difference of two natural numbers.
abbrev pub minus : ℕ → ℕ → ℤ
minus a b = if leb b a then pos (a - b) else neg (b - a)

infixl 60 ◌+ℤ◌
abbrev pub ◌+ℤ◌ : ℤ → ℤ → ℤ
pos a +ℤ pos b = pos (a + b)
pos a +ℤ negsuc b = minus a (suc b)
negsuc a +ℤ pos b = minus b (suc a)
negsuc a +ℤ negsuc b = negsuc (suc (a + b))

abbrev pub times : ℤ → ℕ → ℤ
times (pos a) n = pos (a * n)
times (negsuc a) n = neg (suc a * n)

abbrev pub div_trunc : ℤ → ℕ → ℤ
div_trunc (pos a) n = pos (a / n)
div_trunc (negsuc a) n = neg (suc a / n)

abbrev pub leqℤ : ℤ → ℤ → Bool
leqℤ (pos a) (pos b) = leb a b
leqℤ (pos a) (negsuc b) = false
leqℤ (negsuc a) (pos b) = true
leqℤ (negsuc a) (negsuc b) = leb b a
