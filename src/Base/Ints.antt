-- ===== src/Base/Ints.antt =====
-- Integers over the native numbers.
use Prim.Native.Nat.{ℕ, zero, suc, ◌-◌}
use mathlib.Core.Path.{◌≡◌}
use mathlib.Core.Logic.{◌↔◌}
use mathlib.Core.Bool.{Bool, true, false}
use native.Mathlib.Omega.{arith}
use mc_servant.Base.Tests.{leb, if◌then◌else◌}

pub data ℤ : Type 0 where
  pos : ℕ → ℤ
  negsuc : ℕ → ℤ

-- `m - n`.
unfoldable pub difference : ℕ → ℕ → ℤ
difference m n = if leb n m then pos (m - n) else negsuc (n - suc m)

unfoldable pub nonzero : ℤ → Bool
nonzero (pos zero) = false
nonzero (pos (suc n)) = true
nonzero (negsuc n) = true

pub nonzero-difference : (m n : ℕ) → (nonzero (difference m n) ≡ false) ↔ (m ≡ n)
unfolding nonzero difference
nonzero-difference m n = ground arith
