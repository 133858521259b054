-- ===== src/Rpc/Limiter/Budget.antt =====
-- How many requests the token bucket lets through (swifty_rpc/internal/limiter/token_bucket.go).
use swifty_go.Prelude.{
  ℕ, zero, suc, ◌+◌, ◌-◌, ◌*◌, ◌≡◌, ◌≤◌, min, refl, subst, ◌∙◌, arith, List, [], ◌∷◌,
}
use swifty_go.Rpc.Limiter.{TokenBucket, Event, second, request, event, events}

-- the seconds and the requests among the events
abbrev pub seconds : List Event → ℕ
seconds [] = 0
seconds (second ∷ es) = suc (seconds es)
seconds (request ∷ es) = seconds es

abbrev pub requests : ℕ → List Event
requests zero = []
requests (suc n) = request ∷ requests n

event-bound :
    (tb : TokenBucket) (e : Event)
    → tb.tokens ≤ tb.rate
    → ((event tb e).0.tokens ≤ (event tb e).0.rate) × ((event tb e).0.rate ≡ tb.rate)
unfolding event
event-bound tb second h = ground arith
event-bound tb request h = ground arith

event-pays :
    (tb : TokenBucket) (e : Event)
    → tb.tokens ≤ tb.rate
    → (event tb e).1 + (event tb e).0.tokens ≤ tb.tokens + seconds (e ∷ []) * tb.rate
unfolding event
event-pays tb second h = ground arith
event-pays tb request h = ground arith

seconds-split :
    (e : Event) (es : List Event) (rate : ℕ)
    → seconds (e ∷ es) * rate ≡ seconds (e ∷ []) * rate + seconds es * rate
seconds-split second es rate = omega arith
seconds-split request es rate = omega arith

-- From a bucket that holds at most its rate, as a new one does, a sequence of events lets through
-- at most the tokens of the start and the rate once for each second that passes, and leaves again
-- at most the rate, which never changes.
pub events-bound :
    (tb : TokenBucket) (es : List Event)
    → tb.tokens ≤ tb.rate
    → ((events tb es).1 + (events tb es).0.tokens ≤ tb.tokens + seconds es * tb.rate)
      × ((events tb es).0.tokens ≤ tb.rate)
      × ((events tb es).0.rate ≡ tb.rate)
unfolding events
events-bound tb [] h = (omega arith, h, refl)
events-bound tb (e ∷ es) h =
    let kept = event-bound tb e h in
    let rest = events-bound (event tb e).0 es kept.0 in
    let same =
      subst
        (λ r.
          (events (event tb e).0 es).1 + (events (event tb e).0 es).0.tokens
          ≤ (event tb e).0.tokens + seconds es * r)
        kept.1 rest.0 in
    let pays = event-pays tb e h in
    let split = seconds-split e es tb.rate in
    (
      omega arith,
      subst (λ r. (events (event tb e).0 es).0.tokens ≤ r) kept.1 rest.1,
      rest.2 ∙ kept.1,
    )

request-takes :
    (tb : TokenBucket)
    → ((event tb request).1 ≡ min 1 tb.tokens) × ((event tb request).0.tokens ≡ tb.tokens - 1)
unfolding event
request-takes tb = ground arith

-- Requests alone, without a second that passes between them, are let through while tokens are left,
-- and each takes one: of `n` requests `min n tokens` are let through.
pub events-requests :
    (tb : TokenBucket) (n : ℕ)
    → ((events tb (requests n)).1 ≡ min n tb.tokens)
      × ((events tb (requests n)).0.tokens ≡ tb.tokens - n)
unfolding events
events-requests tb zero = (omega arith, omega arith)
events-requests tb (suc n) =
    let rest = events-requests (event tb request).0 n in
    let first = request-takes tb in (omega arith, omega arith)
