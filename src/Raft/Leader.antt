-- ===== src/Raft/Leader.antt =====
-- Becoming leader, and the leader's handlers: apps/raft_demo/raft/leader.go.
pub mod Proposals
use swifty_go.Prelude.{
  ℕ, Bool, true, false, Option, none, some, List, [], ◌∷◌, ◌++◌, map, ltb, ◌==◌, if◌then◌else◌,
  length, add64, sub64, min, lookup, insert, nat_eq, Bytes, ◌||◌,
}
use swifty_go.Raft.Model.{
  Entry, zero_entry, EntryType, normal, conf_change, Message, zero_message, beat, app, app_resp,
  prop, heartbeat, heartbeat_resp, read_index, read_index_resp, no_node, follower, leader, Outcome,
  ok, err, panic, ◌>>=◌,
}
use swifty_go.Raft.Log
use swifty_go.Raft.Progress.{Progress, maybe_update, may_decrease_to}
use swifty_go.Raft.ReadOnly.{
  ReadState, ReadIndexStatus, request_data, add_request, recv_ack, advance,
}
use swifty_go.Raft.Core.{
  Raft, step_leader as step_leader_func, tick_heartbeat, reset, send, quorum, append_entry,
  maybe_commit,
}

-- the loop of `becomeLeader`
unfoldable pub fresh_progress : ℕ → ℕ → List (ℕ × Progress) → List (ℕ × Progress)
fresh_progress self last [] = []
fresh_progress self last ((id, pr) ∷ prs) =
    (id, if id == self then pr else record { matched = 0; next = add64 last 1 })
    ∷ fresh_progress self last prs

unfoldable pub become_leader : Raft → Outcome Raft
unfolding fresh_progress reset append_entry
become_leader r = elim r.state [
  | follower ↦ panic
  | _ ↦ (do
    let r' = record (reset r r.term) {
      step = step_leader_func;
      tick = tick_heartbeat;
      lead = r.id;
      state = leader;
    }
    last ← Log.last_index r'.raft_log
    append_entry (record r' { prs = fresh_progress r'.id last r'.prs }) (zero_entry ∷ []))
]

-- `for id := range r.prs { if id == r.id { continue }; ... }`
unfoldable pub for_peers : (ℕ → Raft → Outcome Raft) → List (ℕ × Progress) → Raft → Outcome Raft
for_peers body [] r = ok r
for_peers body ((id, _) ∷ prs) r =
    (if id == r.id then ok r else body id r) >>= λ r'. for_peers body prs r'

unfoldable pub send_heartbeat : Bytes → ℕ → Raft → Outcome Raft
send_heartbeat ctx id r = elim (lookup id r.prs) [
  | none ↦ panic
  | some pr ↦ ok (
      send r (record zero_message {
        to = id;
        kind = heartbeat;
        commit_index = min r.raft_log.commit_index pr.matched;
        context = ctx;
      }))
]

-- `broadcastHeartbeatWithCtx`
unfoldable pub broadcast_heartbeat : Bytes → Raft → Outcome Raft
unfolding for_peers send_heartbeat
broadcast_heartbeat ctx r = for_peers (send_heartbeat ctx) r.prs r

-- `v, _ := f()`: the zero value stands for an error
abbrev pub or_zero {ℓ} : {A : Type ℓ} → A → Outcome A → Outcome A
or_zero zero_value (ok a) = ok a
or_zero zero_value (err _) = ok zero_value
or_zero zero_value panic = panic

unfoldable pub send_append : ℕ → Raft → Outcome Raft
send_append to r = elim (lookup to r.prs) [
  | none ↦ panic
  | some pr ↦ (do
    term ← or_zero 0 (Log.term r.raft_log (sub64 pr.next 1))
    entries ← or_zero [] (Log.entries r.raft_log pr.next)
    ok (
        send r (record zero_message {
          to = to;
          kind = app;
          log_term = term;
          log_index = sub64 pr.next 1;
          entries = entries;
          commit_index = r.raft_log.commit_index;
        })))
]

unfoldable pub broadcast_append : Raft → Outcome Raft
unfolding for_peers send_append
broadcast_append r = for_peers send_append r.prs r

-- The loop over a proposal: of the configuration changes only the first one stays, and only if
-- none is pending; the flag says whether one is pending afterwards.
unfoldable pub demote : Bool → List Entry → List Entry × Bool
demote pending [] = ([], pending)
demote pending (e ∷ es) = elim e.kind [
  | normal ↦ (let (es', p) = demote pending es in (e ∷ es', p))
  | conf_change ↦ (let (es', p) = demote true es in ((if pending then zero_entry else e) ∷ es', p))
]

unfoldable pub leader_prop : Raft → Message → Outcome Raft
unfolding demote append_entry broadcast_append
leader_prop r m = elim m.entries [
  | [] ↦ panic
  | e ∷ es ↦ elim (lookup r.id r.prs) [
    | none ↦ ok r
    | some _ ↦ (do
      let (es', pending) = demote r.pending_conf (e ∷ es)
      r' ← append_entry (record r { pending_conf = pending }) es'
      broadcast_append r')
  ]
]

-- a read in a cluster of several members, whose context is `ctx`
unfoldable pub confirm_read : Raft → Message → Bytes → Outcome Raft
unfolding broadcast_heartbeat add_request
confirm_read r m ctx =
    let (read_only, added) = add_request r.read_only ctx r.raft_log.commit_index m in
    let r' = record r { read_only = read_only } in
    if added then broadcast_heartbeat ctx r' else ok r'

unfoldable pub leader_read : Raft → Message → Outcome Raft
unfolding request_data
leader_read r m = elim (lookup r.id r.prs) [
  | none ↦ ok r
  | some _ ↦
      if ltb 1 (length r.prs)
      then (do
        t ← Log.zero_term_on_err_compacted (Log.term r.raft_log r.raft_log.commit_index)
        if t == r.term then request_data m >>= confirm_read r m else ok r)
      else (do
        ctx ← request_data m
        let read_state : ReadState = record { index = r.raft_log.commit_index; request_ctx = ctx }
        ok (record r { read_states = r.read_states ++ read_state ∷ [] }))
]

-- a rejected append
unfoldable pub leader_reject : Raft → Message → Progress → Outcome Raft
unfolding may_decrease_to send_append
leader_reject r m pr =
    let (pr', decreased) = may_decrease_to pr m.log_index m.reject_hint in
    let r' = record r { prs = insert m.from pr' r.prs } in
    if decreased then send_append m.from r' else ok r'

-- an accepted append
unfoldable pub leader_accept : Raft → Message → Progress → Outcome Raft
unfolding maybe_update maybe_commit broadcast_append
leader_accept r m pr =
    let (pr', updated) = maybe_update pr m.log_index in
    let r' = record r { prs = insert m.from pr' r.prs } in
    if updated
    then (do (r'', moved) ← maybe_commit r'; if moved then broadcast_append r'' else ok r'')
    else ok r'

unfoldable pub leader_app_resp : Raft → Message → Progress → Outcome Raft
unfolding leader_reject leader_accept
leader_app_resp r m pr = if m.reject then leader_reject r m pr else leader_accept r m pr

-- the body of the loop over the reads that are confirmed
unfoldable pub deliver_one : ReadIndexStatus → Raft → Outcome Raft
unfolding request_data send
deliver_one rs r =
    if rs.req.from == no_node || rs.req.from == r.id
    then (do
      ctx ← request_data rs.req
      let read_state : ReadState = record { index = rs.index; request_ctx = ctx }
      ok (record r { read_states = r.read_states ++ read_state ∷ [] }))
    else ok (
        send r (record zero_message {
          to = rs.req.from;
          kind = read_index_resp;
          log_index = rs.index;
          entries = rs.req.entries;
        }))

unfoldable pub deliver : List ReadIndexStatus → Raft → Outcome Raft
unfolding deliver_one
deliver [] r = ok r
deliver (rs ∷ rss) r = deliver_one rs r >>= λ r'. deliver rss r'

unfoldable pub leader_heartbeat_resp : Raft → Message → Outcome Raft
unfolding recv_ack advance deliver quorum
leader_heartbeat_resp r m = elim r.read_only.queue [
  | [] ↦ ok r
  | _ ∷ _ ↦
      (let (read_only, acks) = recv_ack r.read_only m.context m.from in
        let r' = record r { read_only = read_only } in
        if ltb (length acks) (quorum r') then ok r' else (do
          (rest, rss) ← advance read_only m.context
          deliver rss (record r' { read_only = rest })))
]

unfoldable pub step_leader : Raft → Message → Outcome Raft
step_leader r m = elim m.kind [
  | beat ↦ broadcast_heartbeat [] r
  | prop ↦ leader_prop r m
  | read_index ↦ leader_read r m
  | app_resp ↦ elim (lookup m.from r.prs) [ none ↦ ok r | some pr ↦ leader_app_resp r m pr ]
  | heartbeat_resp ↦ elim (lookup m.from r.prs) [ none ↦ ok r | some _ ↦ leader_heartbeat_resp r m ]
  | _ ↦ ok r
]
