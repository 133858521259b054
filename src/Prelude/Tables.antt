-- ===== src/Prelude/Tables.antt =====
-- Facts about all numbers under a limit, decided by evaluation.
use Prim.Native.Nat.{ℕ, zero, suc, ◌<◌}
use mathlib.Core.Path.{◌≡◌}
use mathlib.Core.Bool.{Bool, true}
use mathlib.Core.Option.{Option, none, some}
use native.Mathlib.Omega.{arith}
use swifty_go.Prelude.Tests.{if◌then◌else◌}

-- the greatest number under a limit that a test refuses
unfoldable pub refused : (ℕ → Bool) → ℕ → Option ℕ
refused test zero = none
refused test (suc limit) = let rest = refused test limit in if test limit then rest else some limit

pub accepted :
    (test : ℕ → Bool) (limit n : ℕ) → refused test limit ≡ none → n < limit → test n ≡ true
unfolding refused
accepted test zero n e lt = absurd (omega arith)
accepted test (suc limit) n e lt = ground (arith, accepted test limit n)
