-- ===== src/Raft/Leader/Proposals.antt =====
-- What a leader makes of a proposal (`stepLeader` of apps/raft_demo/raft/leader.go, `appendEntry`
-- of raft.go): at most one configuration change is in flight.
use swifty_go.Prelude.{
  ℕ, suc, zero, ◌+◌, ◌≡◌, ◌<◌, refl, arith, List, [], ◌∷◌, Bool, true, false, if◌then◌else◌, length,
  half64,
}
use swifty_go.Raft.Model.{Entry}
use swifty_go.Raft.Core.{num_of_pending_conf, assign}
use swifty_go.Raft.Leader.{demote}

abbrev pub some_conf : List Entry → Bool
some_conf es = elim (num_of_pending_conf es) [ zero ↦ false | suc n ↦ true ]

-- Of the configuration changes in a proposal the first stays if none is pending, and every other
-- becomes an empty normal entry: the number of entries is the same, and afterwards a change is
-- pending exactly if one was or one is proposed.
pub demote-one_conf :
    (pending : Bool) (es : List Entry)
    → (num_of_pending_conf (demote pending es).0
        ≡ (if pending then 0 else if some_conf es then 1 else 0))
      × (length (demote pending es).0 ≡ length es)
      × ((demote pending es).1 ≡ (if pending then true else some_conf es))
unfolding demote num_of_pending_conf
demote-one_conf true [] = (refl, refl, refl)
demote-one_conf false [] = (refl, refl, refl)
demote-one_conf pending (e ∷ es) =
    ground (arith, demote-one_conf pending es, demote-one_conf true es)

-- the entries are the proposed ones, with the leader's term and indices in a row
abbrev pub Numbered : ℕ → ℕ → List Entry → List Entry → Type 0
Numbered term i [] [] = Unit {0}
Numbered term i (e ∷ es) (f ∷ fs) =
    (f.term ≡ term)
    × (f.index ≡ i)
    × (f.kind ≡ e.kind)
    × (f.payload ≡ e.payload)
    × Numbered term (suc i) es fs
Numbered term i _ _ = ⊥

-- The loop of `appendEntry` numbers the entries from behind the last index on, short of the end of
-- the uint64 range.
pub assign-Numbered :
    (term last i : ℕ) (es : List Entry)
    → last + i + length es < half64
    → Numbered term (suc (last + i)) es (assign term last i es)
unfolding assign
assign-Numbered term last i [] h = tt
assign-Numbered term last i (e ∷ es) h = (
  refl,
  omega arith,
  refl,
  refl,
  rw (← plus_suc last i) (assign-Numbered term last (suc i) es (omega arith)),
)
  where
    plus_suc : (a b : ℕ) → a + suc b ≡ suc (a + b)
    plus_suc a b = omega arith
