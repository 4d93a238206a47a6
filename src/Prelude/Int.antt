-- ===== src/Prelude/Int.antt =====
-- Signed integers, and int64 with its wrap-around.
use Prim.Native.Nat.{ℕ, suc, zero, ◌+◌, ◌-◌, ◌^◌}
use mathlib.Core.Path.{◌≡◌}
use mathlib.Core.Logic.{◌↔◌}
use mathlib.Core.Bool.{Bool, true, false}
use native.Mathlib.Omega.{arith}
use tether.Prelude.Tests.{ltb, ◌==◌, if◌then◌else◌}

-- `negsuc n` is -(n + 1).
pub data ℤ : Type 0 where
  pos : ℕ → ℤ
  negsuc : ℕ → ℤ

infix 50 ◌<z◌ ◌=z◌
abbrev pub ◌<z◌ : ℤ → ℤ → Bool
pos a <z pos b = ltb a b
pos a <z negsuc b = false
negsuc a <z pos b = true
negsuc a <z negsuc b = ltb b a

abbrev pub ◌=z◌ : ℤ → ℤ → Bool
pos a =z pos b = a == b
pos a =z negsuc b = false
negsuc a =z pos b = false
negsuc a =z negsuc b = a == b

-- The largest int64.
abbrev pub max_int64 : ℕ
max_int64 = 2 ^ 63 - 1

-- `x++` on an int64: the largest value wraps to the smallest.
abbrev pub inc64 : ℤ → ℤ
inc64 (pos n) = if n == max_int64 then negsuc max_int64 else pos (n + 1)
inc64 (negsuc zero) = pos 0
inc64 (negsuc (suc n)) = negsuc n

-- `x - 1` on an int64: the smallest value wraps to the largest.
abbrev pub dec64 : ℤ → ℤ
dec64 (pos zero) = negsuc 0
dec64 (pos (suc n)) = pos n
dec64 (negsuc n) = if n == max_int64 then pos max_int64 else negsuc (n + 1)

pub =z_iff : (a b : ℤ) → ((a =z b) ≡ true) ↔ (a ≡ b)
=z_iff (pos a) (pos b) = ground arith
=z_iff (pos a) (negsuc b) = ground arith
=z_iff (negsuc a) (pos b) = ground arith
=z_iff (negsuc a) (negsuc b) = ground arith
