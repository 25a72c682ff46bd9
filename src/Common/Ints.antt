-- ===== src/Common/Ints.antt =====
-- Differences of two numbers of milliseconds, which the source may take in either order.
use Prim.Native.Nat.{ℕ, ◌-◌}
use open_claw_bot.Common.Tests.{if◌then◌else◌, leb}

-- `negsuc n` is -(n + 1).
pub data ℤ : Type 0 where
  pos : ℕ → ℤ
  negsuc : ℕ → ℤ

-- a - b, as an integer.
abbrev pub sub_ℕ : ℕ → ℕ → ℤ
sub_ℕ a b = if leb b a then pos (a - b) else negsuc (b - a - 1)
