-- ===== src/Base/Int.antt =====
-- Integers over the native numbers, as far as a counter that is stepped up and down needs them.
use Prim.Native.Nat.{ℕ, zero, suc, ◌-◌}
use birthub_360_innovation.Base.Tests.{leb, if◌then◌else◌}
use mathlib.Core.Bool.{Bool, true, false, not}

-- `negsuc n` is -(n + 1).
pub data ℤ : Type 0 where
  pos : ℕ → ℤ
  negsuc : ℕ → ℤ

-- `x + 1`
abbrev pub succ_ℤ : ℤ → ℤ
succ_ℤ (pos n) = pos (suc n)
succ_ℤ (negsuc zero) = pos 0
succ_ℤ (negsuc (suc n)) = negsuc n

-- `x - 1`
abbrev pub pred_ℤ : ℤ → ℤ
pred_ℤ (pos zero) = negsuc 0
pred_ℤ (pos (suc n)) = pos n
pred_ℤ (negsuc n) = negsuc (suc n)

-- `x === 0`
abbrev pub is_zero : ℤ → Bool
is_zero (pos zero) = true
is_zero _ = false

-- `a - b`
abbrev pub sub_ℕ : ℕ → ℕ → ℤ
sub_ℕ a b = if leb b a then pos (a - b) else negsuc (b - a - 1)

-- A number of JavaScript: a finite one is `m / 2 ^ k`.
pub data Number : Type 0 where
  nan infinity minus_infinity : Number
  finite : ℤ → ℕ → Number

-- An integer as a number.
abbrev pub int : ℕ → Number
int n = finite (pos n) 0

-- `Boolean(x)`
abbrev pub is_nonzero : Number → Bool
is_nonzero nan = false
is_nonzero (finite m k) = not (is_zero m)
is_nonzero _ = true

-- `Number.isFinite(x) ? Math.max(0, x) : 0`
abbrev pub clamp : Number → Number
clamp (finite (pos m) k) = finite (pos m) k
clamp _ = int 0
