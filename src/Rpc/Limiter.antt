-- ===== src/Rpc/Limiter.antt =====
-- The token bucket of swifty_rpc/internal/limiter/token_bucket.go. A method holds the mutex, so it
-- is one step; the goroutine of the ticker is the step `tick`. The rate is an int.
pub mod Budget
use swifty_go.Prelude.{ℕ, suc, ◌+◌, ◌-◌, Bool, true, false, List, [], ◌∷◌, ltb, if◌then◌else◌}

pub record TokenBucket : Type 0 where
  pub tokens : ℕ
  pub rate : ℕ

-- the int that NewTokenBucket is given
pub data Rate : Type 0 where
  at_least_zero : ℕ → Rate
  negative : ℕ → Rate

unfoldable pub new_token_bucket : Rate → TokenBucket
new_token_bucket (at_least_zero rate) = record { tokens = rate; rate = rate }
new_token_bucket (negative _) = record { tokens = 0; rate = 0 }

-- the ticker fires
unfoldable pub tick : TokenBucket → TokenBucket
tick tb = record tb { tokens = tb.rate }

unfoldable pub allow : TokenBucket → TokenBucket × Bool
allow tb = if ltb 0 tb.tokens then (record tb { tokens = tb.tokens - 1 }, true) else (tb, false)

pub data Event : Type 0 where
  second : Event
  request : Event

-- an event, and how many requests it lets through
unfoldable pub event : TokenBucket → Event → TokenBucket × ℕ
unfolding tick allow
event tb second = (tick tb, 0)
event tb request = ((allow tb).0, if (allow tb).1 then 1 else 0)

-- a sequence of events, and how many requests it lets through
unfoldable pub events : TokenBucket → List Event → TokenBucket × ℕ
unfolding event
events tb [] = (tb, 0)
events tb (e ∷ es) = let rest = events (event tb e).0 es in (rest.0, (event tb e).1 + rest.1)
