-- ===== src/Tcc/Outcome.antt =====
-- What a Transaction of apps/tcc_demo/txmanager.go comes to.
use swifty_go.Prelude.{ℕ, sym, ◌∙◌, Option-cases, inl, inr, List, Bytes}
use swifty_go.Tcc.{TryStatus, Services}
use swifty_go.Tcc.Manager.{get_components, components_of, Result, rejected, committed, transaction}
use swifty_go.Tcc.Contract.{IsLog}
use swifty_go.Tcc.Atomic.{AllOf, two_phase_commit-AllOf}
use swifty_go.Tcc.Registry.{IsRegistry, get_components-Distinct}

-- what a result says of the calls of the second phase
abbrev pub IsAtomic : Result → Type 0
IsAtomic rejected = Unit {0}
IsAtomic (committed t calls successful) = AllOf successful calls

module _ {C D W : Type 0} (s : Services C D W) (members : W → Bytes → List Bytes)
    (status : W → Bytes → Bytes → TryStatus) (l : IsLog s members status) where
  -- Over a log that keeps to the contract and a registry that has each component under its id: a
  -- transaction that Transaction reports as successful is confirmed only and submitted as such,
  -- and one that it reports as unsuccessful is cancelled only, if its second phase runs at all;
  -- for every order in which the tries and their updates of the log are made, and all that these
  -- answer.
  pub transaction-IsAtomic :
      (registry : List (Bytes × C)) (created_before : ℕ) (schedule : List ℕ) (w : W)
      (reqs : List (Bytes × D))
      → IsRegistry s registry
      → IsAtomic (transaction s registry created_before schedule w reqs).1
  unfolding transaction
  transaction-IsAtomic registry before schedule w reqs v =
      elim (Option-cases (get_components s registry reqs)) [
        | inl gone ↦ rw (gone, transaction) tt
        | inr (es, found) ↦
            let made = s.create_tx w (components_of es) in
            elim (Option-cases made.1) [
              | inl fails ↦ rw (found, fails, transaction) tt
              | inr (t, works) ↦
                  rw (found, works, transaction)
                    (two_phase_commit-AllOf s members status l t registry before schedule made.0 es
                      (l.created w (components_of es) t works)
                      (get_components-Distinct s registry reqs es v found)
                      (λ i e. cc (sym (l.created_hanging w (components_of es) t i works) ∙ e)))
            ]
      ]
