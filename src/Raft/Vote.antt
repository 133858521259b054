-- ===== src/Raft/Vote.antt =====
-- One vote per term: how `Step` of apps/raft_demo/raft/raft.go moves the term and the vote.
use swifty_go.Prelude.{ℕ, ◌+◌, ◌<◌, ◌≤◌, ◌≡◌, ◌⊎◌, refl, arith, Bool, true, word64, not}
use swifty_go.Raft.Model.{
  app_resp, ok, no_node, Message, MessageType, vote, heartbeat, Ensures, Ensures-bind, Ensures-map,
  Ensures-ok, ◌>>=◌, zero_message,
}
use swifty_go.Raft.Core.{Raft, become_follower, poll, send}
use swifty_go.Raft.Leader.{become_leader, broadcast_append}
use swifty_go.Raft.Candidate.{
  become_candidate, become_pre_candidate, send_vote_request, campaign_election,
  campaign_pre_election, count_vote, step_candidate, campaign,
}
use swifty_go.Raft.Step.{handle_hup, handle_vote, grants, dispatch, step, call_step, observe_higher}
use swifty_go.Raft.Ballot.{
  SameBallot, send-SameBallot, handle_append_entries-SameBallot, handle_heartbeat-SameBallot,
  become_leader-SameBallot, for_peers-SameBallot, broadcast_append-SameBallot,
  step_leader-SameBallot, step_follower-SameBallot,
}

-- The term grows, or it stays and a vote that is cast stays.
abbrev pub Extends : Raft → Raft → Type 0
Extends r r' = (r.term < r'.term) ⊎ ((r'.term ≡ r.term) × ((r.vote ≡ 0) ⊎ (r'.vote ≡ r.vote)))

pub Extends-trans : (r s t : Raft) → Extends r s → Extends s t → Extends r t
Extends-trans r s t p q = ground arith

Extends-of_same : (r s : Raft) → SameBallot r s → Extends r s
Extends-of_same r s p = ground arith

become_follower-SameBallot : (r : Raft) (lead : ℕ) → SameBallot r (become_follower r r.term lead)
unfolding become_follower
become_follower-SameBallot r lead = ground arith

become_follower-Extends :
    (r : Raft) (t lead : ℕ) → r.term ≤ t → Extends r (become_follower r t lead)
unfolding become_follower
become_follower-Extends r t lead h = ground arith

send_vote_request-SameBallot :
    (t : ℕ) (kind : MessageType) (id : ℕ) (r : Raft)
    → Ensures (SameBallot r) (send_vote_request t kind id r)
unfolding send_vote_request send
send_vote_request-SameBallot t kind id r = ground arith

-- What a campaign does to the ballot: a new term with a vote for oneself, or nothing.
become_candidate-Extends :
    (r : Raft) → r.term + 1 < word64 → Ensures (λ s. r.term < s.term) (become_candidate r)
unfolding become_candidate
become_candidate-Extends r h = ground arith

campaign_election-Extends :
    (r : Raft) → r.term + 1 < word64 → Ensures (λ s. r.term < s.term) (campaign_election r)
unfolding campaign_election poll
campaign_election-Extends r h = Ensures-bind _ (become_candidate r) _ λ s e.
    let after = (poll s s.id true).0 in
    let new : r.term < s.term =
      Ensures-ok _ (become_candidate r) (become_candidate-Extends r h) e in
    grind (
      arith,
      become_leader-SameBallot,
      for_peers-SameBallot (send_vote_request s.term vote) after.prs after
          (send_vote_request-SameBallot s.term vote),
    )

campaign_pre_election-Extends :
    (r : Raft) → r.term + 1 < word64 → Ensures (Extends r) (campaign_pre_election r)
unfolding campaign_pre_election become_pre_candidate poll
campaign_pre_election-Extends r h =
    grind (arith, campaign_election-Extends, for_peers-SameBallot, send_vote_request-SameBallot)

poll-SameBallot : (r : Raft) (id : ℕ) (v : Bool) → SameBallot r (poll r id v).0
unfolding poll
poll-SameBallot r id v = (refl, refl)

won-Extends : (r : Raft) → Ensures (SameBallot r) (become_leader r >>= λ s. broadcast_append s)
won-Extends r = grind (arith, become_leader-SameBallot, broadcast_append-SameBallot)

count_vote-Extends :
    (r : Raft) (m : Message) → r.term + 1 < word64 → Ensures (Extends r) (count_vote r m)
unfolding count_vote campaign
count_vote-Extends r m h =
    let r' = (poll r m.from (not m.reject)).0 in
    ground (
      arith,
      poll-SameBallot r m.from (not m.reject),
      campaign_election-Extends r',
      won-Extends r',
      become_follower-SameBallot r' no_node,
    )

step_candidate-Extends :
    (r : Raft) (m : Message)
    → r.term + 1 < word64
    → (m.kind ≡ heartbeat → r.term ≤ m.term)
    → Ensures (Extends r) (step_candidate r m)
unfolding step_candidate
step_candidate-Extends r m h beat = grind (
  arith,
  count_vote-Extends,
  handle_append_entries-SameBallot,
  handle_heartbeat-SameBallot,
  become_follower-SameBallot r m.from,
  become_follower-Extends r m.term m.from,
)

handle_hup-Extends : (r : Raft) → r.term + 1 < word64 → Ensures (Extends r) (handle_hup r)
unfolding handle_hup campaign
handle_hup-Extends r h = grind (arith, campaign_election-Extends, campaign_pre_election-Extends)

-- A vote is given away only if there is none, or for a higher term.
handle_vote-Extends :
    (r : Raft) (m : Message)
    → (m.kind ≡ vote → m.term ≤ r.term)
    → Ensures (Extends r) (handle_vote r m)
unfolding handle_vote grants send
handle_vote-Extends r m h = ground arith

call_step-Extends :
    (r : Raft) (m : Message)
    → r.term + 1 < word64
    → (m.kind ≡ heartbeat → r.term ≤ m.term)
    → Ensures (Extends r) (call_step r.step r m)
unfolding call_step
call_step-Extends r m h beat =
    ground
      (arith, step_candidate-Extends r m, step_follower-SameBallot r m, step_leader-SameBallot r m)

dispatch-Extends :
    (r : Raft) (m : Message)
    → r.term + 1 < word64
    → (m.kind ≡ heartbeat → r.term ≤ m.term)
    → (m.kind ≡ vote → m.term ≤ r.term)
    → Ensures (Extends r) (dispatch r m)
unfolding dispatch
dispatch-Extends r m h beat ballot =
    ground (arith, handle_hup-Extends r, handle_vote-Extends r m, call_step-Extends r m)

-- A message that the node can be given: below the end of the uint64 range, and not a heartbeat
-- with the term 0 of a local message.
pub record IsDeliverable (m : Message) : Type 0 where
  pub bounded : m.term + 1 < word64
  pub not_local : m.kind ≡ heartbeat → 0 < m.term

observe_higher-Extends :
    (r : Raft) (m : Message)
    → r.term < m.term
    → Extends r (observe_higher r m)
      × ((observe_higher r m).term ≤ m.term)
      × (m.kind ≡ vote → m.term ≤ (observe_higher r m).term)
unfolding observe_higher become_follower
observe_higher-Extends r m h = ground arith

observed-Extends :
    (r : Raft) (m : Message)
    → r.term < m.term
    → IsDeliverable m
    → Ensures (Extends r) (dispatch (observe_higher r m) m)
observed-Extends r m h d =
    let r' = observe_higher r m in
    let (kept, low, high) = observe_higher-Extends r m h in
    Ensures-map (Extends r') (Extends r) (dispatch r' m) (λ s. Extends-trans r r' s kept)
      (dispatch-Extends r' m (omega (arith, d.bounded)) (λ _. low) high)

step-Extends :
    (r : Raft) (m : Message)
    → r.term + 1 < word64
    → IsDeliverable m
    → Ensures (Extends r) (step r m)
unfolding step
step-Extends r m h d = ground (
  arith,
  dispatch-Extends r m,
  observed-Extends r m,
  send-SameBallot r (record zero_message { to = m.from; kind = app_resp }),
)

-- `Step`, given a deliverable message in a state whose term can still be incremented, only raises
-- the term, or keeps the term and a vote that was cast in it.
pub step-vote :
    (r r' : Raft) (m : Message)
    → r.term + 1 < word64
    → IsDeliverable m
    → step r m ≡ ok r'
    → Extends r r'
step-vote r r' m h d e = Ensures-ok (Extends r) (step r m) (step-Extends r m h d) e
