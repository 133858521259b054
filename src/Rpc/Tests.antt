-- ===== src/Rpc/Tests.antt =====
-- Runs of the breaker, the limiter and the round robin of swifty_rpc/internal on concrete inputs.
use swifty_go.Prelude.{ℕ, ◌+◌, ◌*◌, ◌≡◌, ◌≤◌, refl, arith, Bool, true, List, [], ◌∷◌, leb}
use swifty_go.Rpc.Breaker.{
  CircuitBreaker, new_circuit_breaker, open_state, closed, allow_at, success_at, failure_at, calls,
  record_failure,
}
use swifty_go.Rpc.Breaker.Runs.{
  IsValid, AllRefused, calls-IsValid, open-AllRefused, record_failure-opens,
}
use swifty_go.Rpc.Limiter.{TokenBucket, Event, second, request, events}
use swifty_go.Rpc.Limiter.Budget.{requests, events-bound, events-requests}
use swifty_go.Rpc.Balance.{Instance, RoundRobin, selections}
use swifty_go.Rpc.Balance.Cycle.{selections-rotates}

-- a window of two outcomes, a threshold of one half, a timeout of 10
abbrev half_failed : ℕ → ℕ → Bool
half_failed failures total = leb total (2 * failures)

abbrev at_start : CircuitBreaker
at_start = new_circuit_breaker 2 half_failed 10 100

abbrev tripped : CircuitBreaker
tripped = record at_start { state = open_state; last_state_change = 105 }

abbrev one_failure : CircuitBreaker
one_failure = record at_start { state = closed; failure_count = 1 }

two_failures_trip : calls at_start (failure_at 101 ∷ failure_at 105 ∷ []) ≡ tripped
unfolding calls new_circuit_breaker
two_failures_trip = refl

calls-IsValid_example :
    IsValid (calls at_start (allow_at 100 ∷ failure_at 101 ∷ failure_at 105 ∷ allow_at 116 ∷ []))
calls-IsValid_example =
    calls-IsValid 2 half_failed 10 100
      (allow_at 100 ∷ failure_at 101 ∷ failure_at 105 ∷ allow_at 116 ∷ [])

open-AllRefused_example :
    AllRefused tripped (allow_at 106 ∷ success_at 107 ∷ allow_at 115 ∷ [])
    × (calls tripped (allow_at 106 ∷ success_at 107 ∷ allow_at 115 ∷ []) ≡ tripped)
unfolding new_circuit_breaker
open-AllRefused_example =
    open-AllRefused tripped (allow_at 106 ∷ success_at 107 ∷ allow_at 115 ∷ []) refl
      (omega arith, (tt, (omega arith, tt)))

one_failure-opens :
    ((record_failure one_failure 105).state ≡ open_state → (2 ≤ 2) × (half_failed 2 2 ≡ true))
    × (2 ≤ 2 → half_failed 2 2 ≡ true → (record_failure one_failure 105).state ≡ open_state)
unfolding new_circuit_breaker
one_failure-opens = record_failure-opens one_failure 105 refl

-- three requests a second, one token left
abbrev bucket : TokenBucket
bucket = record { tokens = 1; rate = 3 }

abbrev two_seconds : List Event
two_seconds = request ∷ request ∷ second ∷ request ∷ second ∷ request ∷ []

bucket_lets_three : (events bucket two_seconds).1 ≡ 3
unfolding events
bucket_lets_three = refl

events-bound_example :
    ((events bucket two_seconds).1 + (events bucket two_seconds).0.tokens ≤ 1 + 2 * 3)
    × ((events bucket two_seconds).0.tokens ≤ 3)
    × ((events bucket two_seconds).0.rate ≡ 3)
events-bound_example = events-bound bucket two_seconds (omega arith)

two_events-requests :
    ((events bucket (requests 2)).1 ≡ 1) × ((events bucket (requests 2)).0.tokens ≡ 0)
two_events-requests = events-requests bucket 2

abbrev instances : List Instance
instances = record { addr = 1 ∷ [] } ∷ record { addr = 2 ∷ [] } ∷ record { addr = 3 ∷ [] } ∷ []

abbrev after_four : RoundRobin
after_four = record { idx = 4 }

selections-rotates_example :
    selections after_four instances 3
    ≡ record { addr = 2 ∷ [] } ∷ record { addr = 3 ∷ [] } ∷ record { addr = 1 ∷ [] } ∷ []
selections-rotates_example = selections-rotates after_four instances (omega arith) (omega arith)
