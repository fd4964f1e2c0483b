-- ===== src/Prelude/Words.antt =====
-- Machine words: `std::uint32_t` and `std::size_t` as numbers below a power of two.
use Prim.Native.Nat.{ℕ, ◌%◌, ◌<◌}
use native.Mathlib.Omega.{arith}

abbrev pub u32_mod : ℕ
u32_mod = 4294967296

abbrev pub u64_mod : ℕ
u64_mod = 18446744073709551616

-- The value that a 64-bit register keeps.
abbrev pub u64 : ℕ → ℕ
u64 n = n % u64_mod

pub u64_lt : (n : ℕ) → u64 n < u64_mod
u64_lt n = omega arith

-- The numbers of an `std::int32_t` that are not negative are below this one.
abbrev pub int32_bound : ℕ
int32_bound = 2147483648
