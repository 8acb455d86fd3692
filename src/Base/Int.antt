-- ===== src/Base/Int.antt =====
-- Return codes: signed integers over the native numbers, `negsuc n` for -(n + 1).
use Prim.Native.Nat.{ℕ, suc}
use mathlib.Core.Bool.{Bool, false}
use kagi.Base.Tests.{◌==◌}

pub data ℤ : Type 0 where
  pos : ℕ → ℤ
  negsuc : ℕ → ℤ

-- `rc == -k`, for a `k` above zero.
abbrev pub is_errno : ℕ → ℤ → Bool
is_errno k (pos n) = false
is_errno k (negsuc n) = suc n == k
