-- ===== src/Prelude/Word.antt =====
-- Machine words: wrap-around written out.
use Prim.Native.Nat.{ℕ, ◌+◌, ◌-◌, ◌%◌, ◌<◌, ◌≤◌}
use mathlib.Core.Path.{◌≡◌}
use native.Mathlib.Omega.{arith}

abbrev pub u32_mod : ℕ
u32_mod = 4294967296

abbrev pub u64_mod : ℕ
u64_mod = 18446744073709551616

abbrev pub u32 : ℕ → ℕ
u32 n = n % u32_mod

abbrev pub u64 : ℕ → ℕ
u64 n = n % u64_mod

-- a + b and a - b on `uint64_t`, for a, b below 2^64.
abbrev pub add64 : ℕ → ℕ → ℕ
add64 a b = u64 (a + b)

abbrev pub sub64 : ℕ → ℕ → ℕ
sub64 a b = u64 (a + u64_mod - b)

pub sub64-le : (a b : ℕ) → a < u64_mod → b ≤ a → sub64 a b ≡ a - b
sub64-le a b h k = omega arith

pub sub64-lt : (a b : ℕ) → a < b → b < u64_mod → sub64 a b ≡ a + u64_mod - b
sub64-lt a b h k = omega arith
