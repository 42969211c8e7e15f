-- ===== src/Base/Int.antt =====
-- Signed integers as the program's int64 durations and sizes use them: `negsuc n` is -(n + 1).
use agentkubenetwork.Base.{ℕ, zero, suc}

pub data ℤ : Type 0 where
  pos : ℕ → ℤ
  negsuc : ℕ → ℤ

-- An int option that is not positive stands for its default.
abbrev pub positive_or : ℕ → ℤ → ℕ
positive_or d (negsuc n) = d
positive_or d (pos zero) = d
positive_or d (pos (suc n)) = suc n
