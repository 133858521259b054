-- ===== src/Rpc/Breaker.antt =====
-- The circuit breaker of swifty_rpc/internal/breaker/breaker.go. Each method holds the mutex, so it
-- is one step. A time is a number of nanoseconds, given to the methods that read the clock. The
-- comparison of the failure rate, in float64 in the source, is the function `reaches` of the
-- breaker: whether `failures / total` is at least the threshold.
pub mod Runs
use swifty_go.Prelude.{ℕ, suc, ◌+◌, Bool, true, false, List, [], ◌∷◌, ltb, if◌then◌else◌}

pub data State : Type 0 where
  closed open_state half_open : State

-- the size of the window and the timeout are not negative here
pub record CircuitBreaker : Type 0 where
  pub state : State
  pub failure_count : ℕ
  pub success_count : ℕ
  pub window_size : ℕ
  pub reaches : ℕ → ℕ → Bool
  pub open_timeout : ℕ
  pub last_state_change : ℕ
  pub half_open_probe : Bool

unfoldable pub new_circuit_breaker : ℕ → (ℕ → ℕ → Bool) → ℕ → ℕ → CircuitBreaker
new_circuit_breaker window reaches timeout now = record {
  state = closed;
  failure_count = 0;
  success_count = 0;
  window_size = window;
  reaches = reaches;
  open_timeout = timeout;
  last_state_change = now;
  half_open_probe = false;
}

unfoldable pub allow : CircuitBreaker → ℕ → CircuitBreaker × Bool
allow cb now = elim cb.state [
  | closed ↦ (cb, true)
  | open_state ↦
      if ltb (cb.last_state_change + cb.open_timeout) now
      then (record cb { state = half_open; half_open_probe = true }, true)
      else (cb, false)
  | half_open ↦
      if cb.half_open_probe then (cb, false) else (record cb { half_open_probe = true }, true)
]

unfoldable pub reset_counts : CircuitBreaker → CircuitBreaker
reset_counts cb = record cb { failure_count = 0; success_count = 0 }

unfoldable pub to_open : CircuitBreaker → ℕ → CircuitBreaker
unfolding reset_counts
to_open cb now = record (reset_counts cb) {
  state = open_state;
  last_state_change = now;
  half_open_probe = false;
}

unfoldable pub to_closed : CircuitBreaker → ℕ → CircuitBreaker
unfolding reset_counts
to_closed cb now = record (reset_counts cb) {
  state = closed;
  last_state_change = now;
  half_open_probe = false;
}

-- `resetClosedWindowIfReady`, which is also the rest of RecordFailure in the state Closed
unfoldable pub reset_closed_window_if_ready : CircuitBreaker → ℕ → CircuitBreaker
unfolding to_open reset_counts
reset_closed_window_if_ready cb now =
    let total = cb.failure_count + cb.success_count in
    if ltb total cb.window_size
    then cb
    else if cb.reaches cb.failure_count total
    then to_open cb now
    else reset_counts cb

unfoldable pub record_success : CircuitBreaker → ℕ → CircuitBreaker
unfolding reset_closed_window_if_ready to_closed
record_success cb now = elim cb.state [
  | closed ↦ reset_closed_window_if_ready (record cb { success_count = suc cb.success_count }) now
  | half_open ↦ to_closed cb now
  | open_state ↦ cb
]

unfoldable pub record_failure : CircuitBreaker → ℕ → CircuitBreaker
unfolding reset_closed_window_if_ready to_open
record_failure cb now = elim cb.state [
  | closed ↦ reset_closed_window_if_ready (record cb { failure_count = suc cb.failure_count }) now
  | half_open ↦ to_open cb now
  | open_state ↦ cb
]

pub data Call : Type 0 where
  allow_at : ℕ → Call
  success_at : ℕ → Call
  failure_at : ℕ → Call

-- a call of a client, and whether it was allowed (a report always is)
unfoldable pub call : CircuitBreaker → Call → CircuitBreaker × Bool
unfolding allow record_success record_failure
call cb (allow_at now) = allow cb now
call cb (success_at now) = (record_success cb now, true)
call cb (failure_at now) = (record_failure cb now, true)

-- the state after a sequence of calls
unfoldable pub calls : CircuitBreaker → List Call → CircuitBreaker
unfolding call
calls cb [] = cb
calls cb (c ∷ cs) = calls (call cb c).0 cs
