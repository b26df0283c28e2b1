-- ===== src/Base/Int.antt =====
-- Go's `int`, for the settings that a file may give below zero.
use mathlib.Core.List.{◌∷◌}
use Prim.Native.Nat.{ℕ, suc}
use tunnel_ops.Base.Text.{Str, decimal}

-- `negsuc n` is -(n + 1).
pub data ℤ : Type 0 where
  pos : ℕ → ℤ
  negsuc : ℕ → ℤ

-- `%d`
unfoldable pub decimal_ℤ : ℤ → Str
unfolding decimal
decimal_ℤ (pos n) = decimal n
decimal_ℤ (negsuc n) = b'-' ∷ decimal (suc n)
