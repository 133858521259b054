-- ===== src/Prelude/Digits.antt =====
-- The decimal digits that fmt prints, and where they are not.
use Prim.Native.Nat.{ℕ, zero, suc, ◌+◌, ◌/◌, ◌%◌, ◌≤◌}
use mathlib.Core.Bool.{true, false}
use mathlib.Core.List.{[], ◌∷◌, ◌++◌}
use native.Mathlib.Omega.{arith}
use swifty_go.Prelude.Tests.{ltb, ltb-cases}
use swifty_go.Prelude.Maps.{Bytes}
use mathlib.Core.Logic.{◌≢◌, inl, inr}

-- the decimal digits of a number, %d
unfoldable pub decimal : ℕ → ℕ → Bytes
decimal zero n = []
decimal (suc fuel) n = elim (ltb n 10) [
  | true ↦ (48 + n) ∷ []
  | false ↦ decimal fuel (n / 10) ++ ((48 + n % 10) ∷ [])
]

-- a byte is not in a string
abbrev pub Lacks : ℕ → Bytes → Type 0
Lacks c [] = Unit {0}
Lacks c (x ∷ xs) = (x ≢ c) × Lacks c xs

pub append-Lacks : (c : ℕ) (xs ys : Bytes) → Lacks c xs → Lacks c ys → Lacks c (xs ++ ys)
append-Lacks c [] ys h g = g
append-Lacks c (x ∷ xs) ys h g = (h.0, append-Lacks c xs ys h.1 g)

-- a byte above the digits is not among them
pub decimal-Lacks : (c fuel n : ℕ) → 58 ≤ c → Lacks c (decimal fuel n)
unfolding decimal
decimal-Lacks c zero n h = tt
decimal-Lacks c (suc fuel) n h = elim (ltb-cases n 10) [
  | inl (q, lt) ↦ rw (q, decimal) (omega arith, tt)
  | inr (q, ge) ↦
      rw (q, decimal)
        (append-Lacks c (decimal fuel (n / 10)) ((48 + n % 10) ∷ [])
          (decimal-Lacks c fuel (n / 10) h) (omega arith, tt))
]
