-- ===== src/Rpc/Balance.antt =====
-- The load balancers of swifty_rpc/internal/load_balance that pick an instance by its position: the
-- round robin of round_robin.go and the random choice of random.go, whose generator is an argument.
-- An address is its bytes.
pub mod Cycle
use swifty_go.Prelude.{ℕ, suc, zero, ◌%◌, List, [], ◌∷◌, length, get_or, add64, sub64}

-- swifty_rpc/internal/registry/registry.go
pub record Instance : Type 0 where
  pub addr : List ℕ

abbrev pub no_instance : Instance
no_instance = record { addr = [] }

pub record RoundRobin : Type 0 where
  pub idx : ℕ

unfoldable pub new_rr : RoundRobin
new_rr = record { idx = 0 }

unfoldable pub select : RoundRobin → List Instance → RoundRobin × Instance
select r [] = (r, no_instance)
select r (x ∷ xs) =
    let list = x ∷ xs in
    let i = add64 r.idx 1 in
    (record r { idx = i }, get_or list (sub64 i 1 % length list) no_instance)

-- the instances of so many selections from the same list
unfoldable pub selections : RoundRobin → List Instance → ℕ → List Instance
unfolding select
selections r list zero = []
selections r list (suc n) = (select r list).1 ∷ selections (select r list).0 list n

-- Random's Select: `intn n` is the next number of the generator, below `n`
unfoldable pub select_random : (ℕ → ℕ) → List Instance → Instance
select_random intn [] = no_instance
select_random intn (x ∷ xs) = get_or (x ∷ xs) (intn (length (x ∷ xs))) no_instance
