-- ===== src/Base/Int.antt =====
-- Signed integers over the native numbers, as Go's `int64` values.
use libtmux_go.Base.{ℕ}

-- `negsuc n` is -(n + 1).
pub data ℤ : Type 0 where
  pos : ℕ → ℤ
  negsuc : ℕ → ℤ
