-- ===== src/Prelude/Words.antt =====
-- The arithmetic of `u64` and of `usize` on a 64-bit target, as a release build computes it: sums
-- and differences wrap around at 2 ^ 64, `saturating_sub` stops at 0.
use Prim.Native.Nat.{ℕ, ◌+◌, ◌-◌, ◌*◌, ◌%◌, ◌^◌, ◌<◌}

abbrev pub IsU64 : ℕ → Type 0
IsU64 n = n < 2 ^ 64

abbrev pub add : ℕ → ℕ → ℕ
add a b = (a + b) % 2 ^ 64

abbrev pub sub : ℕ → ℕ → ℕ
sub a b = (a + 2 ^ 64 - b) % 2 ^ 64

abbrev pub mul : ℕ → ℕ → ℕ
mul a b = a * b % 2 ^ 64

abbrev pub saturating_sub : ℕ → ℕ → ℕ
saturating_sub a b = a - b
