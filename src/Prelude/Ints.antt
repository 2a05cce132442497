-- ===== src/Prelude/Ints.antt =====
-- Integers over native numbers, as far as the program's counters go below zero.
use Prim.Native.Nat.{ℕ, suc, ◌+◌, ◌-◌, ◌/◌}
use mathlib.Core.Bool.{Bool, false}
use glady_s.Prelude.Tests.{leb, if◌then◌else◌}

-- negsuc n is -(n + 1).
pub data ℤ : Type 0 where
  pos negsuc : ℕ → ℤ

abbrev pub add_nat : ℤ → ℕ → ℤ
add_nat (pos a) b = pos (a + b)
add_nat (negsuc a) b = if leb b a then negsuc (a - b) else pos (b - suc a)

abbrev pub sub_nat : ℤ → ℕ → ℤ
sub_nat (pos a) b = if leb b a then pos (a - b) else negsuc (b - suc a)
sub_nat (negsuc a) b = negsuc (a + b)

-- min(cap, z)
abbrev pub min_nat : ℕ → ℤ → ℤ
min_nat cap (pos a) = if leb a cap then pos a else pos cap
min_nat cap (negsuc a) = negsuc a

-- z >= n
abbrev pub at_least : ℕ → ℤ → Bool
at_least n (pos a) = leb n a
at_least n (negsuc a) = false

-- -n
abbrev pub minus : ℕ → ℤ
minus n = sub_nat (pos 0) n

-- int(z / d): towards zero
abbrev pub div_nat : ℤ → ℕ → ℤ
div_nat (pos a) d = pos (a / d)
div_nat (negsuc a) d = minus (suc a / d)
