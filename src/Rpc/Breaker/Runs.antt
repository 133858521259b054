-- ===== src/Rpc/Breaker/Runs.antt =====
-- What holds of the circuit breaker over every sequence of calls
-- (swifty_rpc/internal/breaker/breaker.go).
use swifty_go.Prelude.{
  ℕ, suc, ◌+◌, ◌≡◌, ◌≢◌, ◌≤◌, ◌<◌, refl, sym, ap, subst, ◌∙◌, arith, Bool, true, false, List, [],
  ◌∷◌, max,
}
use swifty_go.Rpc.Breaker.{
  closed, open_state, half_open, CircuitBreaker, new_circuit_breaker, allow, record_failure, Call,
  allow_at, success_at, failure_at, call, calls,
}

-- Counts are kept only in the state closed, below the window; half open is a probe that runs.
pub record IsValid (cb : CircuitBreaker) : Type 0 where
  pub counted : cb.failure_count + cb.success_count < max 1 cb.window_size
  pub idle : cb.state ≢ closed → (cb.failure_count ≡ 0) × (cb.success_count ≡ 0)
  pub probing : cb.state ≡ half_open → cb.half_open_probe ≡ true
  pub not_probing : cb.state ≢ half_open → cb.half_open_probe ≡ false

new_circuit_breaker-IsValid :
    (window : ℕ) (reaches : ℕ → ℕ → Bool) (timeout now : ℕ)
    → IsValid (new_circuit_breaker window reaches timeout now)
unfolding new_circuit_breaker
new_circuit_breaker-IsValid window reaches timeout now = ground arith

call-IsValid : (cb : CircuitBreaker) (c : Call) → IsValid cb → IsValid (call cb c).0
unfolding call
call-IsValid cb (allow_at now) v = ground arith
call-IsValid cb (success_at now) v = ground arith
call-IsValid cb (failure_at now) v = ground arith

IsValid-calls : (cb : CircuitBreaker) (cs : List Call) → IsValid cb → IsValid (calls cb cs)
unfolding calls
IsValid-calls cb [] v = v
IsValid-calls cb (c ∷ cs) v = IsValid-calls (call cb c).0 cs (call-IsValid cb c v)

-- Whatever its clients do, a new breaker has counted fewer outcomes than its window (or none, for
-- a window of 0), counts nothing outside the state closed, and is half open exactly while a probe
-- is out.
pub calls-IsValid :
    (window : ℕ) (reaches : ℕ → ℕ → Bool) (timeout now : ℕ) (cs : List Call)
    → IsValid (calls (new_circuit_breaker window reaches timeout now) cs)
calls-IsValid window reaches timeout now cs =
    IsValid-calls (new_circuit_breaker window reaches timeout now) cs
      (new_circuit_breaker-IsValid window reaches timeout now)

-- a request comes at the latest at `end`
abbrev pub IsBefore : ℕ → Call → Type 0
IsBefore end (allow_at now) = now ≤ end
IsBefore end (success_at now) = Unit {0}
IsBefore end (failure_at now) = Unit {0}

abbrev pub AllBefore : ℕ → List Call → Type 0
AllBefore end [] = Unit {0}
AllBefore end (c ∷ cs) = IsBefore end c × AllBefore end cs

-- a call is a refused request, or a report
abbrev pub IsRefused : CircuitBreaker → Call → Type 0
IsRefused cb (allow_at now) = (call cb (allow_at now)).1 ≡ false
IsRefused cb (success_at now) = Unit {0}
IsRefused cb (failure_at now) = Unit {0}

-- every request among the calls is refused, from this state on
abbrev pub AllRefused : CircuitBreaker → List Call → Type 0
AllRefused cb [] = Unit {0}
AllRefused cb (c ∷ cs) = IsRefused cb c × AllRefused (call cb c).0 cs

open-IsRefused :
    (cb : CircuitBreaker) (c : Call)
    → cb.state ≡ open_state
    → IsBefore (cb.last_state_change + cb.open_timeout) c
    → IsRefused cb c × ((call cb c).0 ≡ cb)
unfolding call
open-IsRefused cb (allow_at now) o h = ground arith
open-IsRefused cb (success_at now) o h = ground arith
open-IsRefused cb (failure_at now) o h = ground arith

-- An open breaker refuses every request until its timeout has passed, whatever outcomes are
-- reported in the meantime, and none of these calls changes it.
pub open-AllRefused :
    (cb : CircuitBreaker) (cs : List Call)
    → cb.state ≡ open_state
    → AllBefore (cb.last_state_change + cb.open_timeout) cs
    → AllRefused cb cs × (calls cb cs ≡ cb)
unfolding calls
open-AllRefused cb [] o h = (tt, refl)
open-AllRefused cb (c ∷ cs) o h =
    let first = open-IsRefused cb c o h.0 in
    let rest = open-AllRefused cb cs o h.1 in
    (
      (first.0, subst (λ b. AllRefused b cs) (sym first.1) rest.0),
      ap (λ b. calls b cs) first.1 ∙ rest.1,
    )

-- the calls are requests alone
abbrev pub OnlyRequests : List Call → Type 0
OnlyRequests [] = Unit {0}
OnlyRequests (allow_at now ∷ cs) = OnlyRequests cs
OnlyRequests (success_at now ∷ cs) = ⊥
OnlyRequests (failure_at now ∷ cs) = ⊥

probing-refused :
    (cb : CircuitBreaker) (now : ℕ)
    → cb.state ≡ half_open
    → cb.half_open_probe ≡ true
    → ((call cb (allow_at now)).1 ≡ false) × ((call cb (allow_at now)).0 ≡ cb)
unfolding call
probing-refused cb now h p = ground arith

half_open-AllRefused :
    (cb : CircuitBreaker) (cs : List Call)
    → cb.state ≡ half_open
    → cb.half_open_probe ≡ true
    → OnlyRequests cs
    → AllRefused cb cs
half_open-AllRefused cb [] h p only = tt
half_open-AllRefused cb (allow_at now ∷ cs) h p only =
    let first = probing-refused cb now h p in
    (first.0, subst (λ b. AllRefused b cs) (sym first.1) (half_open-AllRefused cb cs h p only))
half_open-AllRefused cb (success_at _ ∷ cs) h p only = elim only [ ]
half_open-AllRefused cb (failure_at _ ∷ cs) h p only = elim only [ ]

late-probes :
    (cb : CircuitBreaker) (now : ℕ)
    → cb.state ≡ open_state
    → cb.last_state_change + cb.open_timeout < now
    → ((allow cb now).1 ≡ true)
      × ((allow cb now).0.state ≡ half_open)
      × ((allow cb now).0.half_open_probe ≡ true)
unfolding allow
late-probes cb now o late = ground arith

-- Once the timeout has passed the next request is let through as the one probe: until its outcome
-- is reported every further request is refused.
pub probe-AllRefused :
    (cb : CircuitBreaker) (now : ℕ) (cs : List Call)
    → cb.state ≡ open_state
    → cb.last_state_change + cb.open_timeout < now
    → OnlyRequests cs
    → ((allow cb now).1 ≡ true) × AllRefused (allow cb now).0 cs
probe-AllRefused cb now cs o late only =
    let probe = late-probes cb now o late in
    (probe.0, half_open-AllRefused (allow cb now).0 cs probe.1 probe.2 only)

-- A failure that is reported to a closed breaker opens it exactly if the window is full with it and
-- the failures reach the threshold.
pub record_failure-opens :
    (cb : CircuitBreaker) (now : ℕ)
    → cb.state ≡ closed
    → ((record_failure cb now).state ≡ open_state
        → (cb.window_size ≤ suc cb.failure_count + cb.success_count)
          × (cb.reaches (suc cb.failure_count) (suc cb.failure_count + cb.success_count) ≡ true))
      × (cb.window_size ≤ suc cb.failure_count + cb.success_count
          → cb.reaches (suc cb.failure_count) (suc cb.failure_count + cb.success_count) ≡ true
          → (record_failure cb now).state ≡ open_state)
unfolding record_failure
record_failure-opens cb now c = ground arith
