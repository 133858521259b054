-- ===== src/Prelude/Words.antt =====
-- Go's fixed-width integers as numbers below the modulus, with the wrap-around written out.
use Prim.Native.Nat.{ℕ, ◌+◌, ◌-◌, ◌%◌, ◌≤◌, ◌<◌}
use mathlib.Core.Path.{◌≡◌}
use mathlib.Core.Bool.{Bool}
use native.Mathlib.Omega.{arith}
use swifty_go.Prelude.Tests.{leb}

-- 2 ^ 64 and 2 ^ 63
abbrev pub word64 : ℕ
word64 = 18446744073709551616

abbrev pub half64 : ℕ
half64 = 9223372036854775808

-- 2 ^ 32 and 2 ^ 31
abbrev pub word32 : ℕ
word32 = 4294967296

abbrev pub half32 : ℕ
half32 = 2147483648

-- uint64 a + b and a - b
abbrev pub add64 : ℕ → ℕ → ℕ
add64 a b = (a + b) % word64

abbrev pub sub64 : ℕ → ℕ → ℕ
sub64 a b = (a + word64 - b) % word64

-- int32, as its bit pattern: the sum, and a <= b of the signed values
abbrev pub add32 : ℕ → ℕ → ℕ
add32 a b = (a + b) % word32

abbrev pub sub32 : ℕ → ℕ → ℕ
sub32 a b = (a + word32 - b) % word32

abbrev pub leb_int32 : ℕ → ℕ → Bool
leb_int32 a b = leb ((a + half32) % word32) ((b + half32) % word32)

pub add64_exact : (a b : ℕ) → a + b < word64 → add64 a b ≡ a + b
add64_exact a b h = omega arith

pub sub64_exact : (a b : ℕ) → b ≤ a → a < word64 → sub64 a b ≡ a - b
sub64_exact a b h k = omega arith
