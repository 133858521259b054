-- ===== src/Raft/Follower.antt =====
-- The follower's handlers: apps/raft_demo/raft/follower.go.
use swifty_go.Prelude.{true, none, some, [], ◌∷◌, ◌++◌, ◌==◌, if◌then◌else◌, min}
use swifty_go.Raft.Model.{
  Message, zero_message, app, app_resp, prop, heartbeat, heartbeat_resp, read_index,
  read_index_resp, no_node, Outcome, ok, ◌>>=◌,
}
use swifty_go.Raft.Log
use swifty_go.Raft.ReadOnly.{request_data}
use swifty_go.Raft.Core.{Raft, send}

unfoldable pub handle_append_entries : Raft → Message → Outcome Raft
handle_append_entries r m = do
  (raft_log, accepted) ← Log.maybe_append r.raft_log m.log_index m.log_term m.commit_index m.entries
  let r' = record r { raft_log = raft_log }
  elim accepted [
    | some last ↦
        ok (send r' (record zero_message { to = m.from; kind = app_resp; log_index = last }))
    | none ↦ (do
      last ← Log.last_index raft_log
      ok (
          send r' (record zero_message {
            to = m.from;
            kind = app_resp;
            log_index = m.log_index;
            reject = true;
            reject_hint = last;
          })))
  ]

unfoldable pub handle_heartbeat : Raft → Message → Outcome Raft
handle_heartbeat r m = do
  last ← Log.last_index r.raft_log
  raft_log ← Log.commit_to r.raft_log (min m.commit_index last)
  ok (
      send (record r { raft_log = raft_log })
        (record zero_message { to = m.from; kind = heartbeat_resp; context = m.context }))

unfoldable pub step_follower : Raft → Message → Outcome Raft
step_follower r m = elim m.kind [
  | prop ↦ if r.lead == no_node then ok r else ok (send r (record m { to = r.lead }))
  | app ↦ handle_append_entries (record r { election_elapsed = 0; lead = m.from }) m
  | heartbeat ↦ handle_heartbeat (record r { election_elapsed = 0; lead = m.from }) m
  | read_index ↦ if r.lead == no_node then ok r else ok (send r (record m { to = r.lead }))
  | read_index_resp ↦ (do
    ctx ← request_data m
    ok (record r {
      read_states = r.read_states ++ record { index = m.log_index; request_ctx = ctx } ∷ [];
    }))
  | _ ↦ ok r
]
