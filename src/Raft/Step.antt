-- ===== src/Raft/Step.antt =====
-- The entry points of a node: `newRaft`, `Step` and the ticks of apps/raft_demo/raft/raft.go.
use swifty_go.Prelude.{
  ℕ, Bool, true, false, List, [], ◌∷◌, ltb, ◌==◌, if◌then◌else◌, add64, add32, leb_int32, insert,
  nat_eq, not, ◌||◌, ◌&&◌,
}
use swifty_go.Raft.Model.{
  Message, MessageType, zero_message, hup, beat, app, app_resp, heartbeat, vote, vote_resp,
  pre_vote, pre_vote_resp, no_node, StateType, follower, leader, pre_election, election, Outcome,
  ok, ◌>>=◌, must,
}
use swifty_go.Raft.Storage
use swifty_go.Raft.Storage.{MemoryStorage}
use swifty_go.Raft.Log
use swifty_go.Raft.Progress.{Progress}
use swifty_go.Raft.ReadOnly.{new_read_only}
use swifty_go.Raft.Core.{
  Raft, StepFunc, step_follower as step_follower_func, step_candidate as step_candidate_func,
  step_leader as step_leader_func, TickFunc, tick_election as tick_election_func,
  tick_heartbeat as tick_heartbeat_func, become_follower, send, promotable, num_of_pending_conf,
  past_election_timeout,
}
use swifty_go.Raft.Follower.{step_follower}
use swifty_go.Raft.Leader.{step_leader}
use swifty_go.Raft.Candidate.{step_candidate, campaign}

-- `Config`
pub record Config : Type 0 where
  pub id : ℕ
  pub peers : List ℕ
  pub storage : MemoryStorage
  pub applied : ℕ
  pub pre_vote : Bool
  pub election_tick : ℕ
  pub heartbeat_tick : ℕ

unfoldable pub register : List ℕ → List (ℕ × Progress) → List (ℕ × Progress)
register [] prs = prs
register (peer ∷ peers) prs = register peers (insert peer (record { matched = 0; next = 1 }) prs)

abbrev peers_or : List ℕ → List ℕ → List ℕ
peers_or [] nodes = nodes
peers_or (p ∷ ps) nodes = p ∷ ps

-- `newRaft`, with the source of randomness that the node will draw from. (Before its last call the
-- function fields are nil and the state is the zero value, StateFollower.)
unfoldable pub new_raft : Config → (ℕ → ℕ → ℕ) → Outcome Raft
unfolding register
new_raft conf rand = do
  let (hs, nodes) = Storage.initial_state conf.storage
  new_log ← Log.new_raft_log conf.storage
  raft_log ← Log.applied_to new_log conf.applied
  let committed =
      if ltb raft_log.commit_index hs.commit_index then hs.commit_index else raft_log.commit_index
  ok (
      become_follower
        (record {
          id = conf.id;
          term = 0;
          read_states = [];
          raft_log = record raft_log { commit_index = committed };
          prs = register (peers_or conf.peers nodes) [];
          state = follower;
          votes = [];
          msgs = [];
          lead = no_node;
          pending_conf = false;
          read_only = new_read_only;
          pre_vote = conf.pre_vote;
          tick = tick_election_func;
          step = step_follower_func;
          vote = 0;
          check_quorum = false;
          election_timeout = conf.election_tick;
          randomized_election_timeout = 0;
          election_elapsed = 0;
          heartbeat_timeout = conf.heartbeat_tick;
          heartbeat_elapsed = 0;
          rand = rand;
          draws = 0;
        })
        (if hs.term == 0 then 1 else hs.term) no_node)

abbrev pub is_leader : StateType → Bool
is_leader leader = true
is_leader _ = false

-- the case MsgHup of `Step`
unfoldable pub handle_hup : Raft → Outcome Raft
handle_hup r = if is_leader r.state || not (promotable r r.id) then ok r else (do
  entries ←
      must (Log.slice r.raft_log (add64 r.raft_log.apply_index 1) (add64 r.raft_log.commit_index 1))
  if ltb 0 (num_of_pending_conf entries)
      then ok r
      else if r.pre_vote
      then campaign pre_election r
      else campaign election r)

-- the cases MsgVote and MsgPreVote of `Step`
abbrev pub is_vote : MessageType → Bool
is_vote vote = true
is_vote _ = false

-- whether `Step` grants the request
unfoldable pub grants : Raft → Message → Outcome Bool
grants r m = do
  fresh ← Log.is_up_to_date r.raft_log m.log_index m.log_term
  ok (fresh && (r.vote == no_node || ltb r.term m.term || m.from == r.vote))

unfoldable pub handle_vote : Raft → Message → Outcome Raft
handle_vote r m = do
  granted ← grants r m
  let kind = if is_vote m.kind then vote_resp else pre_vote_resp
  if granted
      then ok (
          send (if is_vote m.kind then record r { vote = m.from } else r)
            (record zero_message { kind = kind; to = m.from }))
      else ok (send r (record zero_message { kind = kind; to = m.from; reject = true }))

-- `r.step(r, m)`
unfoldable pub call_step : StepFunc → Raft → Message → Outcome Raft
call_step step_follower_func r m = step_follower r m
call_step step_candidate_func r m = step_candidate r m
call_step step_leader_func r m = step_leader r m

-- the second `switch` of `Step`
unfoldable pub dispatch : Raft → Message → Outcome Raft
dispatch r m = elim m.kind [
  | hup ↦ handle_hup r
  | vote ↦ handle_vote r m
  | pre_vote ↦ handle_vote r m
  | _ ↦ call_step r.step r m
]

abbrev pub is_vote_request : MessageType → Bool
is_vote_request vote = true
is_vote_request pre_vote = true
is_vote_request _ = false

-- whether a message of a higher term moves the node to that term
abbrev pub raises_term : MessageType → Bool → Bool
raises_term pre_vote reject = false
raises_term pre_vote_resp reject = reject
raises_term _ reject = true

abbrev pub is_from_leader : MessageType → Bool
is_from_leader heartbeat = true
is_from_leader app = true
is_from_leader _ = false

-- the case `m.Term > r.Term` of the first `switch` of `Step`
unfoldable pub observe_higher : Raft → Message → Raft
observe_higher r m =
    if raises_term m.kind m.reject
    then become_follower r m.term (if is_vote_request m.kind then no_node else m.from)
    else r

unfoldable pub step : Raft → Message → Outcome Raft
step r m =
    if m.term == 0
    then dispatch r m
    else if ltb r.term m.term
    then dispatch (observe_higher r m) m
    else if ltb m.term r.term
    then ok (
        if r.check_quorum && is_from_leader m.kind
        then send r (record zero_message { to = m.from; kind = app_resp })
        else r)
    else dispatch r m

unfoldable pub tick_election : Raft → Outcome Raft
tick_election r =
    let r' = record r { election_elapsed = add32 r.election_elapsed 1 } in
    if promotable r' r'.id && past_election_timeout r'
    then step (record r' { election_elapsed = 0 }) (record zero_message { from = r.id; kind = hup })
    else ok r'

unfoldable pub tick_heartbeat : Raft → Outcome Raft
tick_heartbeat r =
    if not (is_leader r.state)
    then ok r
    else (let r' = record r { heartbeat_elapsed = add32 r.heartbeat_elapsed 1 } in
        if leb_int32 r'.heartbeat_timeout r'.heartbeat_elapsed
        then step (record r' { heartbeat_elapsed = 0 })
            (record zero_message { from = r.id; kind = beat })
        else ok r')

unfoldable pub call_tick : TickFunc → Raft → Outcome Raft
call_tick tick_election_func r = tick_election r
call_tick tick_heartbeat_func r = tick_heartbeat r

unfoldable pub tick : Raft → Outcome Raft
tick r = call_tick r.tick r
