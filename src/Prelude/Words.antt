-- ===== src/Prelude/Words.antt =====
-- Checked arithmetic on `u64` and on the 64-bit `usize`.
use Prim.Native.Nat.{ℕ, ◌+◌}
use mathlib.Core.Option.{Option, none, some}
use ai_os.Prelude.Tests.{ltb, if◌then◌else◌}

abbrev pub u64_mod : ℕ
u64_mod = 18446744073709551616

abbrev pub u64_max : ℕ
u64_max = 18446744073709551615

abbrev pub checked_add : ℕ → ℕ → Option ℕ
checked_add a b = if ltb (a + b) u64_mod then some (a + b) else none

-- `u64::try_from` of a larger number
abbrev pub try_u64 : ℕ → Option ℕ
try_u64 n = if ltb n u64_mod then some n else none

-- `a.saturating_add(b)`
abbrev pub saturating_add : ℕ → ℕ → ℕ
saturating_add a b = if ltb (a + b) u64_mod then a + b else u64_max
