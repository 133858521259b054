-- ===== src/Raft/ReadOnly/Queue.antt =====
-- The queue of pending reads: `addRequest` and `advance` of apps/raft_demo/raft/read.go.
use swifty_go.Prelude.{
  ℕ, ◌≡◌, refl, arith, List, [], ◌∷◌, ◌++◌, Bool, false, if◌then◌else◌, ◌||◌, some, none, Bytes,
  bytes_beq, bytes_beq_iff, bytes_eq, lookup, delete, insert, lookup-delete, lookup-insert,
  Option-cases, inl, inr, ◌∙◌,
}
use swifty_go.Raft.Model.{ok, Message}
use swifty_go.Raft.ReadOnly.{
  ReadOnly, ReadIndexStatus, collect, forget, request_data, advance, add_request,
}

abbrev pub mem : Bytes → List Bytes → Bool
mem k [] = false
mem k (q ∷ qs) = bytes_beq q k || mem k qs

-- every queued context is pending, with a request of that context
abbrev pub Registered : List (Bytes × ReadIndexStatus) → List Bytes → Type 0
Registered pending [] = Unit {0}
Registered pending (q ∷ qs) =
    ((rs : ReadIndexStatus) × (lookup q pending ≡ some rs) × (request_data rs.req ≡ ok q))
    × Registered pending qs

-- the statuses are those of requests with these contexts, in order
abbrev pub Named : List ReadIndexStatus → List Bytes → Type 0
Named [] [] = Unit {0}
Named (rs ∷ rss) (k ∷ ks) = (request_data rs.req ≡ ok k) × Named rss ks
Named _ _ = ⊥

collect-Named :
    (pending : List (Bytes × ReadIndexStatus)) (ctx : Bytes) (pre post : List Bytes)
    → Registered pending (pre ++ ctx ∷ post)
    → mem ctx pre ≡ false
    → (rss : List ReadIndexStatus) × (collect pending ctx (pre ++ ctx ∷ post) ≡ ok (rss, some post))
      × Named rss (pre ++ ctx ∷ [])
unfolding collect
collect-Named pending ctx [] post ((rs, found, named), rest) h =
    (rs ∷ [], ground (arith, bytes_beq_iff ctx ctx), (named, tt))
collect-Named pending ctx (q ∷ pre) post ((rs, found, named), rest) h =
    let (rss, done, all) = collect-Named pending ctx pre post rest (ground arith) in
    (rs ∷ rss, ground arith, (named, all))

forget-lookup :
    (rss : List ReadIndexStatus) (ks : List Bytes) (pending : List (Bytes × ReadIndexStatus))
    → Named rss ks
    → (rest : List (Bytes × ReadIndexStatus)) × (forget rss pending ≡ ok rest)
      × ((k : Bytes) → lookup k rest ≡ (if mem k ks then none else lookup k pending))
unfolding forget
forget-lookup [] [] pending h = (pending, refl, λ k. refl)
forget-lookup [] (k ∷ ks) pending h = absurd h
forget-lookup (rs ∷ rss) [] pending h = absurd h
forget-lookup (rs ∷ rss) (k ∷ ks) pending h =
    let (rest, done, kept) = forget-lookup rss ks (delete k pending) h.1 in
    (rest, ground (arith, h.0), λ j. ground (arith, kept j, lookup-delete k j pending))

-- What `advance` leaves for a queued context: it hands out the requests queued up to and including
-- the context, in their order, removes those and keeps the others.
pub record IsAdvanced (ro ro' : ReadOnly) (rss : List ReadIndexStatus) (ctx : Bytes)
    (pre post : List Bytes) : Type 0 where
  pub handed_out : Named rss (pre ++ ctx ∷ [])
  pub queue : ro'.queue ≡ post
  pub pending :
      (k : Bytes)
      → lookup k ro'.pending ≡ (if mem k (pre ++ ctx ∷ []) then none else lookup k ro.pending)

-- On a queue whose contexts are all pending, `advance` to a queued context does not panic, and
-- completes exactly the reads up to its first place in the queue.
pub advance-IsAdvanced :
    (ro : ReadOnly) (ctx : Bytes) (pre post : List Bytes)
    → ro.queue ≡ pre ++ ctx ∷ post
    → mem ctx pre ≡ false
    → Registered ro.pending ro.queue
    → (ro' : ReadOnly) × (rss : List ReadIndexStatus) × (advance ro ctx ≡ ok (ro', rss))
      × IsAdvanced ro ro' rss ctx pre post
unfolding advance
advance-IsAdvanced ro ctx pre post split first all =
    let (rss, done, named) = collect-Named ro.pending ctx pre post (rw split at all) first in
    let (rest, forgotten, kept) = forget-lookup rss (pre ++ ctx ∷ []) ro.pending named in
    (
      record { pending = rest; queue = post },
      rss,
      rw split (ground arith),
      record { handed_out = named; queue = refl; pending = kept },
    )

Registered-insert :
    (pending : List (Bytes × ReadIndexStatus)) (k : Bytes) (rs : ReadIndexStatus) (qs : List Bytes)
    → lookup k pending ≡ none
    → Registered pending qs
    → Registered (insert k rs pending) qs
Registered-insert pending k rs [] fresh all = tt
Registered-insert pending k rs (q ∷ qs) fresh ((old, found, named), all) = (
  (old, lookup-insert k q rs pending ∙ ground (arith, bytes_beq_iff k q), named),
  Registered-insert pending k rs qs fresh all,
)

Registered-append :
    (pending : List (Bytes × ReadIndexStatus)) (k : Bytes) (rs : ReadIndexStatus) (qs : List Bytes)
    → Registered pending qs
    → lookup k pending ≡ some rs
    → request_data rs.req ≡ ok k
    → Registered pending (qs ++ k ∷ [])
Registered-append pending k rs [] all found named = ((rs, found, named), tt)
Registered-append pending k rs (q ∷ qs) all found named =
    (all.0, Registered-append pending k rs qs all.1 found named)

-- Tracking a request under its own context keeps every queued context pending, whether the request
-- is new or a duplicate.
pub add_request-Registered :
    (ro : ReadOnly) (ctx : Bytes) (read_index : ℕ) (m : Message)
    → request_data m ≡ ok ctx
    → Registered ro.pending ro.queue
    → Registered
        (add_request ro ctx read_index m).0.pending
        (add_request ro ctx read_index m).0.queue
unfolding add_request
add_request-Registered ro ctx read_index m named all = elim (Option-cases (lookup ctx ro.pending)) [
  | inr (rs, known) ↦ rw (known, add_request) all
  | inl fresh ↦
      let rs : ReadIndexStatus = record { req = m; index = read_index; acks = [] } in
      let pending = insert ctx rs ro.pending in
      rw (fresh, add_request)
        (Registered-append pending ctx rs ro.queue
          (Registered-insert ro.pending ctx rs ro.queue fresh all)
          (lookup-insert ctx ctx rs ro.pending ∙ ground (arith, bytes_beq_iff ctx ctx)) named)
]
