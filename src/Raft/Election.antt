-- ===== src/Raft/Election.antt =====
-- Elections over many messages: `Step`, `poll`, `campaign` and `newRaft` of
-- apps/raft_demo/raft/raft.go.
use swifty_go.Prelude.{
  ℕ, ◌+◌, ◌<◌, ◌≤◌, ◌≡◌, ◌≢◌, ◌⊎◌, inr, refl, arith, List, [], ◌∷◌, ◌++◌, Bool, true, false,
  if◌then◌else◌, ◌==◌, word64, add64, Option, some, none, lookup, insert, nat_eq, ==_iff,
  append-nil,
}
use mathlib.Core.List.{append_assoc}
use swifty_go.Raft.Model.{
  ok, no_node, Message, MessageType, zero_message, vote, pre_vote, vote_resp, pre_candidate, leader,
}
use swifty_go.Raft.Storage
use swifty_go.Raft.Log
use swifty_go.Raft.Progress.{Progress}
use swifty_go.Raft.Core.{
  Raft, step_candidate as step_candidate_func, tick_election as tick_election_func, poll, send,
  count_granted, quorum,
}
use swifty_go.Raft.Leader.{for_peers}
use swifty_go.Raft.Candidate.{send_vote_request, campaign_pre_election, become_pre_candidate}
use swifty_go.Raft.Step.{step, handle_vote, grants}
use swifty_go.Raft.Vote.{Extends, Extends-trans, IsDeliverable, step-vote}

-- the states that a node passes through as it steps deliverable messages
pub data Steps (r : Raft) : Raft → Type 0 where
  here : Steps r r
  next :
      {s t : Raft}
      → Steps r s
      → s.term + 1 < word64
      → (m : Message) → IsDeliverable m
      → step s m ≡ ok t
      → Steps r t

Steps-Extends : {r s : Raft} → Steps r s → Extends r s
Steps-Extends {r} here = inr (refl, inr refl)
Steps-Extends {r} (next {s = s} {t = t} before small m d e) =
    Extends-trans r s t (Steps-Extends before) (step-vote s t m small d e)

-- Over any number of deliverable messages the term never falls, and as long as it is the same the
-- vote that was cast in it is the same.
pub vote_once :
    {r s : Raft}
    → Steps r s
    → (r.term ≤ s.term) × (s.term ≡ r.term → r.vote ≢ no_node → s.vote ≡ r.vote)
vote_once {r} {s} steps = ground (arith, Steps-Extends steps)

-- the answer that `Step` sends to a vote request
unfoldable pub answer : Raft → Message → Bool → Message
answer r m reject = record zero_message {
  kind = vote_resp;
  to = m.from;
  from = r.id;
  term = r.term;
  reject = reject;
}

-- A vote request is answered by one message. It grants the vote only if the node has given its vote
-- in this term to nobody else, and then the vote is the sender's; else the vote is unchanged.
pub handle_vote-answer :
    (r r' : Raft) (m : Message)
    → m.kind ≡ vote
    → m.term ≤ r.term
    → r.id ≢ no_node
    → handle_vote r m ≡ ok r'
    → ((r'.msgs ≡ r.msgs ++ answer r m false ∷ [])
        × (r'.vote ≡ m.from)
        × ((r.vote ≡ no_node) ⊎ (r.vote ≡ m.from)))
      ⊎ ((r'.msgs ≡ r.msgs ++ answer r m true ∷ []) × (r'.vote ≡ r.vote))
unfolding handle_vote grants send answer
handle_vote-answer r r' m k t self e = ground arith

-- how many votes a ballot adds
abbrev pub ballot_value : Option Bool → Bool → ℕ
ballot_value (some _) v = 0
ballot_value none true = 1
ballot_value none false = 0

count_granted-insert :
    (id : ℕ) (v : Bool) (votes : List (ℕ × Bool))
    → lookup id votes ≡ none
    → count_granted (insert id v votes) ≡ count_granted votes + ballot_value none v
unfolding count_granted lookup insert
count_granted-insert id true [] h = refl
count_granted-insert id false [] h = refl
count_granted-insert id v ((j, w) ∷ votes) h =
    ground (arith, ==_iff j id, count_granted-insert id v votes)

-- The tally of an election counts the first ballot of each peer and no later one.
pub poll_count :
    (r : Raft) (id : ℕ) (v : Bool)
    → (poll r id v).1 ≡ count_granted r.votes + ballot_value (lookup id r.votes) v
unfolding poll
poll_count r id v = ground (arith, count_granted-insert id v r.votes)

-- the request that a campaign of the node `self` addresses to a peer
unfoldable pub request : ℕ → ℕ → MessageType → ℕ → ℕ → ℕ → Message
request self term kind last last_term id = record zero_message {
  kind = kind;
  to = id;
  from = self;
  term = term;
  log_term = last_term;
  log_index = last;
}

-- those to all members but the node itself, in the order of the map
unfoldable pub requests : ℕ → ℕ → MessageType → ℕ → ℕ → List (ℕ × Progress) → List Message
requests self term kind last last_term [] = []
requests self term kind last last_term ((id, pr) ∷ prs) =
    let rest = requests self term kind last last_term prs in
    if id == self then rest else request self term kind last last_term id ∷ rest

module _ (t last last_term : ℕ) (kind : MessageType) (k : (kind ≡ vote) ⊎ (kind ≡ pre_vote)) where
  send_vote_request-request :
      (r : Raft) (id : ℕ)
      → r.id ≢ no_node
      → Log.last_index r.raft_log ≡ ok last
      → Log.last_term r.raft_log ≡ ok last_term
      → send_vote_request t kind id r
        ≡ ok (record r { msgs = r.msgs ++ request r.id r.term kind last last_term id ∷ [] })
  unfolding send_vote_request send request
  send_vote_request-request r id self h g = ground arith

  for_peers-requests :
      (r : Raft) (prs : List (ℕ × Progress))
      → r.id ≢ no_node
      → Log.last_index r.raft_log ≡ ok last
      → Log.last_term r.raft_log ≡ ok last_term
      → for_peers (send_vote_request t kind) prs r
        ≡ ok (record r { msgs = r.msgs ++ requests r.id r.term kind last last_term prs })
  unfolding for_peers requests
  for_peers-requests r [] self h g = rw append-nil
  for_peers-requests r ((id, pr) ∷ prs) self h g =
      let sent = record r { msgs = r.msgs ++ request r.id r.term kind last last_term id ∷ [] } in
      ground (
        arith,
        send_vote_request-request r id self h g,
        for_peers-requests r prs self h g,
        for_peers-requests sent prs self h g,
        append_assoc r.msgs (request r.id r.term kind last last_term id ∷ [])
            (requests r.id r.term kind last last_term prs),
      )

-- the state in which a node asks for pre-votes
abbrev pub pre_candidate_of : Raft → Raft
pre_candidate_of r = record r {
  step = step_candidate_func;
  tick = tick_election_func;
  votes = (r.id, true) ∷ [];
  state = pre_candidate;
}

-- A pre-vote campaign of a node that is not the leader, has an id and a readable log, and needs more
-- than its own vote leaves the term alone and asks every other member once, with the position of its
-- log and its present term (not the next one, which `campaign` computes for the request and `send`
-- overwrites): a follower, and a candidate or pre-candidate that campaigns again.
pub campaign_pre_election-requests :
    (r : Raft) (last last_term : ℕ)
    → r.state ≢ leader
    → r.id ≢ no_node
    → quorum r ≢ 1
    → Log.last_index r.raft_log ≡ ok last
    → Log.last_term r.raft_log ≡ ok last_term
    → campaign_pre_election r
      ≡ ok (record (pre_candidate_of r) {
        msgs = r.msgs ++ requests r.id r.term pre_vote last last_term r.prs;
      })
unfolding campaign_pre_election become_pre_candidate poll count_granted quorum lookup insert
campaign_pre_election-requests r last last_term f self many h g = ground (
  arith,
  for_peers-requests (add64 r.term 1) last last_term pre_vote (inr refl) (pre_candidate_of r) r.prs
      self h g,
)
