-- ===== src/Prelude/Int.antt =====
-- Go's signed integers, where a value may be negative; `negsuc n` is -(n + 1).
use Prim.Native.Nat.{ℕ, zero, suc}
use mathlib.Core.Bool.{Bool, true, false}
use recur.Prelude.Tests.{leb}

pub data ℤ : Type 0 where
  pos : ℕ → ℤ
  negsuc : ℕ → ℤ

-- n++
unfoldable pub succ : ℤ → ℤ
succ (pos n) = pos (suc n)
succ (negsuc zero) = pos 0
succ (negsuc (suc n)) = negsuc n

-- threshold > 0 && count >= threshold
unfoldable pub is_reached : ℤ → ℤ → Bool
is_reached (pos zero) count = false
is_reached (pos (suc n)) (pos count) = leb (suc n) count
is_reached (pos (suc n)) (negsuc count) = false
is_reached (negsuc n) count = false

-- n > 0
unfoldable pub is_positive : ℤ → Bool
is_positive (pos zero) = false
is_positive (pos (suc n)) = true
is_positive (negsuc n) = false
