-- ===== src/Prelude/Word.antt =====
-- Go's `int32` and `int64` as bit patterns: numbers below 2 ^ 32 and 2 ^ 64, with the wrap-around
-- of the sums written out. A pattern from the half upwards stands for a negative integer.
use Prim.Native.Nat.{ℕ, ◌+◌, ◌-◌, ◌%◌}
use mathlib.Core.Bool.{Bool}
use pgcopydb_operator.Prelude.Tests.{ltb, leb}

abbrev pub i32_mod : ℕ
i32_mod = 4294967296

abbrev pub i32_half : ℕ
i32_half = 2147483648

abbrev pub i64_mod : ℕ
i64_mod = 18446744073709551616

abbrev pub i64_half : ℕ
i64_half = 9223372036854775808

-- a + b and a - b on int32.
abbrev pub add32 : ℕ → ℕ → ℕ
add32 a b = (a + b) % 4294967296

abbrev pub sub32 : ℕ → ℕ → ℕ
sub32 a b = (a + 4294967296 - b) % 4294967296

-- The signed order: adding the half turns it into the order of the numbers.
abbrev pub le32 : ℕ → ℕ → Bool
le32 a b = leb ((a + 2147483648) % 4294967296) ((b + 2147483648) % 4294967296)

abbrev pub lt32 : ℕ → ℕ → Bool
lt32 a b = ltb ((a + 2147483648) % 4294967296) ((b + 2147483648) % 4294967296)

-- a - b on int64, and the signed tests.
abbrev pub sub64 : ℕ → ℕ → ℕ
sub64 a b = (a + 18446744073709551616 - b) % 18446744073709551616

abbrev pub add64 : ℕ → ℕ → ℕ
add64 a b = (a + b) % 18446744073709551616

abbrev pub le64 : ℕ → ℕ → Bool
le64 a b =
    leb ((a + 9223372036854775808) % 18446744073709551616)
      ((b + 9223372036854775808) % 18446744073709551616)

abbrev pub lt64 : ℕ → ℕ → Bool
lt64 a b =
    ltb ((a + 9223372036854775808) % 18446744073709551616)
      ((b + 9223372036854775808) % 18446744073709551616)
