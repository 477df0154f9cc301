-- ===== src/Prelude/Words.antt =====
-- `unsigned int` as its 32-bit pattern. An `int` is kept as its pattern too, so that -1 is the
-- largest `unsigned int`, as it is where the source converts one to the other.
use Prim.Native.Nat.{ℕ, ◌+◌, ◌-◌, ◌/◌, ◌%◌, ◌^◌}
use mathlib.Core.Bool.{Bool, ◌&&◌}
use ringdb.Prelude.Tests.{ltb}

abbrev pub u32_mod : ℕ
u32_mod = 2 ^ 32

abbrev pub minus_one : ℕ
minus_one = 2 ^ 32 - 1

abbrev pub add32 : ℕ → ℕ → ℕ
add32 a b = (a + b) % 2 ^ 32

abbrev pub sub32 : ℕ → ℕ → ℕ
sub32 a b = (a + 2 ^ 32 - b) % 2 ^ 32

-- `(left + right) >> 1`
abbrev pub midpoint : ℕ → ℕ → ℕ
midpoint left right = add32 left right / 2

-- `x > 0` for an `int`.
abbrev pub is_positive : ℕ → Bool
is_positive x = ltb 0 x && ltb x (2 ^ 31)
