-- ===== src/Base/Integers.antt =====
-- The integers that the program computes with.
use Prim.Native.Nat.{ℕ, zero, suc, ◌+◌}
use Prim.Native.Nat.{compare, Ordering}
use mathlib.Core.Path.{◌≡◌}
use mathlib.Core.Logic.{◌↔◌}
use mathlib.Core.Bool.{Bool, true, false}
use native.Mathlib.Omega.{arith}
use soma_benchmark.Base.Json.{ℤ, pos, negsuc}

abbrev equal : ℕ → ℕ → Bool
equal a b = elim (compare a b) [ Ordering.eq ↦ true | _ ↦ false ]

abbrev below_or_equal : ℕ → ℕ → Bool
below_or_equal a b = elim (compare a b) [ Ordering.gt ↦ false | _ ↦ true ]

abbrev pub diff : ℕ → ℕ → ℤ
diff m zero = pos m
diff zero (suc n) = negsuc n
diff (suc m) (suc n) = diff m n

infixl 60 ◌+ℤ◌
abbrev pub ◌+ℤ◌ : ℤ → ℤ → ℤ
pos a +ℤ pos b = pos (a + b)
pos a +ℤ negsuc b = diff a (b + 1)
negsuc a +ℤ pos b = diff b (a + 1)
negsuc a +ℤ negsuc b = negsuc (a + b + 1)

abbrev pub neg : ℤ → ℤ
neg (pos zero) = pos zero
neg (pos (suc n)) = negsuc n
neg (negsuc n) = pos (suc n)

infixl 60 ◌-ℤ◌
abbrev pub ◌-ℤ◌ : ℤ → ℤ → ℤ
a -ℤ b = a +ℤ neg b

-- `max(n, 0)`
abbrev pub at_least_zero : ℤ → ℤ
at_least_zero (pos n) = pos n
at_least_zero (negsuc _) = pos 0

abbrev pub same_integer : ℤ → ℤ → Bool
same_integer (pos m) (pos n) = equal m n
same_integer (negsuc m) (negsuc n) = equal m n
same_integer _ _ = false

abbrev pub at_most : ℤ → ℤ → Bool
at_most (pos m) (pos n) = below_or_equal m n
at_most (pos m) (negsuc n) = false
at_most (negsuc m) (pos n) = true
at_most (negsuc m) (negsuc n) = below_or_equal n m

pub same_integer_iff : (a b : ℤ) → (same_integer a b ≡ true) ↔ (a ≡ b)
same_integer_iff (pos m) (pos n) = ground arith
same_integer_iff (negsuc m) (negsuc n) = ground arith
same_integer_iff (pos m) (negsuc n) = ground arith
same_integer_iff (negsuc m) (pos n) = ground arith

pub at_most_refl : (a : ℤ) → at_most a a ≡ true
at_most_refl (pos n) = ground arith
at_most_refl (negsuc n) = ground arith

pub at_most_total : (a b : ℤ) → at_most a b ≡ false → at_most b a ≡ true
at_most_total (pos m) (pos n) h = ground arith
at_most_total (pos m) (negsuc n) h = ground arith
at_most_total (negsuc m) (pos n) h = cc
at_most_total (negsuc m) (negsuc n) h = ground arith
