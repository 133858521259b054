-- ===== src/Raft/ReadOnly.antt =====
-- Pending linearizable reads: apps/raft_demo/raft/read.go. The statuses are held by value: the
-- only pointer that escapes, the one that `advance` returns, is dropped from the map by it.
pub mod Queue
use swifty_go.Prelude.{
  ℕ, Bool, true, false, Option, none, some, List, [], ◌∷◌, ◌++◌, Bytes, lookup, insert, delete,
  bytes_eq, bytes_beq, nat_eq,
}
use swifty_go.Raft.Model.{Message, Outcome, ok, panic, ◌>>=◌}

pub record ReadState : Type 0 where
  pub index : ℕ
  pub request_ctx : Bytes

-- `acks` is the key set of the map.
pub record ReadIndexStatus : Type 0 where
  pub req : Message
  pub index : ℕ
  pub acks : List (ℕ × Unit {0})

pub record ReadOnly : Type 0 where
  pub pending : List (Bytes × ReadIndexStatus)
  pub queue : List Bytes

unfoldable pub new_read_only : ReadOnly
new_read_only = record { pending = []; queue = [] }

unfoldable pub add_request : ReadOnly → Bytes → ℕ → Message → ReadOnly × Bool
add_request ro ctx read_index m = elim (lookup ctx ro.pending) [
  | some _ ↦ (ro, false)
  | none ↦ (
    record {
      pending = insert ctx (record { req = m; index = read_index; acks = [] }) ro.pending;
      queue = ro.queue ++ ctx ∷ [];
    },
    true,
  )
]

unfoldable pub recv_ack : ReadOnly → Bytes → ℕ → ReadOnly × List (ℕ × Unit {0})
recv_ack ro ctx from = elim (lookup ctx ro.pending) [
  | none ↦ (ro, [])
  | some rs ↦
      let acks = insert from tt rs.acks in
      (record ro { pending = insert ctx (record rs { acks = acks }) ro.pending }, acks)
]

-- The first loop of `advance`: the statuses up to `ctx`, and the queue behind it if it was found.
unfoldable pub collect :
    List (Bytes × ReadIndexStatus)
    → Bytes
    → List Bytes
    → Outcome (List ReadIndexStatus × Option (List Bytes))
collect pending ctx [] = ok ([], none)
collect pending ctx (queued ∷ queue) = elim (lookup queued pending) [
  | none ↦ panic
  | some rs ↦ elim (bytes_beq queued ctx) [
    | true ↦ ok (rs ∷ [], some queue)
    | false ↦ (do (rss, rest) ← collect pending ctx queue; ok (rs ∷ rss, rest))
  ]
]

-- `m.Entries[0].Data`
unfoldable pub request_data : Message → Outcome Bytes
request_data m = elim m.entries [ [] ↦ panic | e ∷ _ ↦ ok e.payload ]

-- the second loop of `advance`
unfoldable pub forget :
    List ReadIndexStatus → List (Bytes × ReadIndexStatus) → Outcome (List (Bytes × ReadIndexStatus))
unfolding request_data
forget [] pending = ok pending
forget (rs ∷ rss) pending = request_data rs.req >>= λ ctx. forget rss (delete ctx pending)

unfoldable pub advance : ReadOnly → Bytes → Outcome (ReadOnly × List ReadIndexStatus)
unfolding collect forget
advance ro ctx = do
  (rss, found) ← collect ro.pending ctx ro.queue
  elim found [
    | none ↦ ok (ro, [])
    | some rest ↦ (do
      pending ← forget rss ro.pending
      ok (record { pending = pending; queue = rest }, rss))
  ]
