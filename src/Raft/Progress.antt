-- ===== src/Raft/Progress.antt =====
-- A peer's replication progress: apps/raft_demo/raft/progress.go. `State` is never read there.
use swifty_go.Prelude.{ℕ, Bool, true, false, ltb, ◌==◌, if◌then◌else◌, add64, sub64, min, not}

pub record Progress : Type 0 where
  pub matched : ℕ
  pub next : ℕ

unfoldable pub maybe_update : Progress → ℕ → Progress × Bool
maybe_update pr n = (
  record {
    matched = if ltb pr.matched n then n else pr.matched;
    next = if ltb pr.next (add64 n 1) then add64 n 1 else pr.next;
  },
  ltb pr.matched n,
)

unfoldable pub may_decrease_to : Progress → ℕ → ℕ → Progress × Bool
may_decrease_to pr log_index reject_hint =
    if not (sub64 pr.next 1 == log_index)
    then (pr, false)
    else let next = min log_index (add64 reject_hint 1) in
      (record pr { next = if ltb next 1 then 1 else next }, true)
