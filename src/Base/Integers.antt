-- ===== src/Base/Integers.antt =====
-- Integers, and how Python prints them.
use Prim.Native.Nat.{ℕ}
use Prim.Native.String.{String}
use neotolis_ai_workbench.Base.Decimal.{decimal}
use neotolis_ai_workbench.Base.{◌+◌, ◌<>◌}

-- `negsuc n` is `-(n + 1)`.
pub data ℤ : Type 0 where
  pos : ℕ → ℤ
  negsuc : ℕ → ℤ

-- `str`.
unfoldable pub int_text : ℤ → String
int_text (pos n) = decimal n
int_text (negsuc n) = "-" <> decimal (n + 1)
