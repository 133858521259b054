-- ===== src/Raft/Candidate.antt =====
-- Elections: apps/raft_demo/raft/candidate.go, and `campaign` of raft.go.
use swifty_go.Prelude.{ℕ, ◌-◌, Bool, true, false, [], ◌==◌, if◌then◌else◌, length, add64, not}
use swifty_go.Raft.Model.{
  Message, MessageType, zero_message, prop, app, heartbeat, vote, vote_resp, pre_vote,
  pre_vote_resp, no_node, StateType, leader, candidate, pre_candidate, CampaignType, pre_election,
  election, Outcome, ok, panic, ◌>>=◌,
}
use swifty_go.Raft.Log
use swifty_go.Raft.Core.{
  Raft, step_candidate as step_candidate_func, tick_election, reset, become_follower, send, poll,
  quorum,
}
use swifty_go.Raft.Follower.{handle_append_entries, handle_heartbeat}
use swifty_go.Raft.Leader.{become_leader, for_peers, broadcast_append}

unfoldable pub become_pre_candidate : Raft → Outcome Raft
become_pre_candidate r = elim r.state [
  | leader ↦ panic
  | _ ↦ ok (record r {
    step = step_candidate_func;
    tick = tick_election;
    votes = [];
    state = pre_candidate;
  })
]

unfoldable pub become_candidate : Raft → Outcome Raft
unfolding reset
become_candidate r = elim r.state [
  | leader ↦ panic
  | _ ↦ ok (record (reset r (add64 r.term 1)) {
    step = step_candidate_func;
    tick = tick_election;
    vote = r.id;
    state = candidate;
  })
]

-- the body of the loop at the end of `campaign`
unfoldable pub send_vote_request : ℕ → MessageType → ℕ → Raft → Outcome Raft
send_vote_request term kind id r = do
  last_term ← Log.last_term r.raft_log
  last ← Log.last_index r.raft_log
  ok (
      send r (record zero_message {
        term = term;
        to = id;
        kind = kind;
        log_term = last_term;
        log_index = last;
      }))

-- `campaign`: the call for a pre-election makes the call for the election at most once.
unfoldable pub campaign_election : Raft → Outcome Raft
campaign_election r = do
  r₁ ← become_candidate r
  let (r₂, granted) = poll r₁ r₁.id true
  if quorum r₁ == granted
      then become_leader r₂
      else for_peers (send_vote_request r₁.term vote) r₂.prs r₂

unfoldable pub campaign_pre_election : Raft → Outcome Raft
campaign_pre_election r = do
  r₁ ← become_pre_candidate r
  let (r₂, granted) = poll r₁ r₁.id true
  if quorum r₁ == granted
      then campaign_election r₂
      else for_peers (send_vote_request (add64 r₁.term 1) pre_vote) r₂.prs r₂

unfoldable pub campaign : CampaignType → Raft → Outcome Raft
campaign pre_election r = campaign_pre_election r
campaign election r = campaign_election r

abbrev pub is_pre_candidate : StateType → Bool
is_pre_candidate pre_candidate = true
is_pre_candidate _ = false

-- The case `voteRespType` of `stepCandidate`.
unfoldable pub count_vote : Raft → Message → Outcome Raft
count_vote r m =
    let (r', granted) = poll r m.from (not m.reject) in
    if quorum r' == granted
    then (if is_pre_candidate r'.state
        then campaign election r'
        else become_leader r' >>= λ r''. broadcast_append r'')
    else if quorum r' == length r'.votes - granted
    then ok (become_follower r' r'.term no_node)
    else ok r'

unfoldable pub step_candidate : Raft → Message → Outcome Raft
step_candidate r m = elim m.kind [
  | prop ↦ ok r
  | app ↦ handle_append_entries (become_follower r r.term m.from) m
  | heartbeat ↦ handle_heartbeat (become_follower r m.term m.from) m
  | vote_resp ↦ if is_pre_candidate r.state then ok r else count_vote r m
  | pre_vote_resp ↦ if is_pre_candidate r.state then count_vote r m else ok r
  | _ ↦ ok r
]
