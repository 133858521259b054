-- ===== src/Raft/Ballot.antt =====
-- The term and the vote of a node under its handlers (raft.go, follower.go, candidate.go,
-- leader.go).
use swifty_go.Prelude.{
  ℕ, ◌≡◌, refl, arith, List, [], ◌∷◌, if◌then◌else◌, ◌==◌, Bytes, insert, nat_eq,
}
use swifty_go.Raft.Model.{Outcome, ok, Message, Entry, Ensures, Ensures-bind}
use swifty_go.Raft.Progress.{Progress, maybe_update, may_decrease_to}
use swifty_go.Raft.ReadOnly.{ReadIndexStatus, add_request}
use swifty_go.Raft.Core.{Raft, send, append_entry, maybe_commit}
use swifty_go.Raft.Follower.{handle_append_entries, handle_heartbeat, step_follower}
use swifty_go.Raft.Leader.{
  become_leader, for_peers, send_heartbeat, send_append, broadcast_heartbeat, broadcast_append,
  deliver_one, deliver, leader_prop, leader_read, confirm_read, leader_reject, leader_accept,
  leader_app_resp, leader_heartbeat_resp, step_leader,
}

-- the term and the vote are unchanged
abbrev pub SameBallot : Raft → Raft → Type 0
SameBallot r r' = (r'.term ≡ r.term) × (r'.vote ≡ r.vote)

pub send-SameBallot : (r : Raft) (m : Message) → SameBallot r (send r m)
unfolding send
send-SameBallot r m = (refl, refl)

pub handle_append_entries-SameBallot :
    (r : Raft) (m : Message) → Ensures (SameBallot r) (handle_append_entries r m)
unfolding handle_append_entries send
handle_append_entries-SameBallot r m = ground arith

pub handle_heartbeat-SameBallot :
    (r : Raft) (m : Message) → Ensures (SameBallot r) (handle_heartbeat r m)
unfolding handle_heartbeat send
handle_heartbeat-SameBallot r m = ground arith

pub maybe_commit-SameBallot : (r : Raft) → Ensures (λ p. SameBallot r p.0) (maybe_commit r)
unfolding maybe_commit
maybe_commit-SameBallot r = ground arith

pub append_entry-SameBallot :
    (r : Raft) (es : List Entry) → Ensures (SameBallot r) (append_entry r es)
unfolding append_entry
append_entry-SameBallot r es = ground arith

SameBallot-trans : (r s t : Raft) → SameBallot r s → SameBallot s t → SameBallot r t
SameBallot-trans r s t p q = ground arith

pub become_leader-SameBallot : (r : Raft) → Ensures (SameBallot r) (become_leader r)
unfolding become_leader
become_leader-SameBallot r = ground arith

pub for_peers-SameBallot :
    (body : ℕ → Raft → Outcome Raft) (prs : List (ℕ × Progress)) (r : Raft)
    → ((id : ℕ) (s : Raft) → Ensures (SameBallot s) (body id s))
    → Ensures (SameBallot r) (for_peers body prs r)
unfolding for_peers
for_peers-SameBallot body [] r h = (refl, refl)
for_peers-SameBallot body ((id, pr) ∷ prs) r h =
    Ensures-bind _ (if id == r.id then ok r else body id r) _
      λ s e. ground (arith, h id r, for_peers-SameBallot body prs s h)

send_heartbeat-SameBallot :
    (ctx : Bytes) (id : ℕ) (r : Raft) → Ensures (SameBallot r) (send_heartbeat ctx id r)
unfolding send_heartbeat send
send_heartbeat-SameBallot ctx id r = ground arith

pub send_append-SameBallot : (id : ℕ) (r : Raft) → Ensures (SameBallot r) (send_append id r)
unfolding send_append send
send_append-SameBallot id r = ground arith

pub broadcast_heartbeat-SameBallot :
    (ctx : Bytes) (r : Raft) → Ensures (SameBallot r) (broadcast_heartbeat ctx r)
unfolding broadcast_heartbeat
broadcast_heartbeat-SameBallot ctx r =
    for_peers-SameBallot (send_heartbeat ctx) r.prs r (send_heartbeat-SameBallot ctx)

pub broadcast_append-SameBallot : (r : Raft) → Ensures (SameBallot r) (broadcast_append r)
unfolding broadcast_append
broadcast_append-SameBallot r = for_peers-SameBallot send_append r.prs r send_append-SameBallot

deliver_one-SameBallot :
    (rs : ReadIndexStatus) (r : Raft) → Ensures (SameBallot r) (deliver_one rs r)
unfolding deliver_one
deliver_one-SameBallot rs r = ground arith

deliver-SameBallot :
    (rss : List ReadIndexStatus) (r : Raft) → Ensures (SameBallot r) (deliver rss r)
unfolding deliver
deliver-SameBallot [] r = (refl, refl)
deliver-SameBallot (rs ∷ rss) r =
    Ensures-bind _ (deliver_one rs r) _
      λ s e. ground (arith, deliver_one-SameBallot rs r, deliver-SameBallot rss s)

leader_prop-SameBallot : (r : Raft) (m : Message) → Ensures (SameBallot r) (leader_prop r m)
unfolding leader_prop
leader_prop-SameBallot r m = grind (arith, append_entry-SameBallot, broadcast_append-SameBallot)

confirm_read-SameBallot :
    (r : Raft) (m : Message) (ctx : Bytes) → Ensures (SameBallot r) (confirm_read r m ctx)
unfolding confirm_read
confirm_read-SameBallot r m ctx = ground (
  arith,
  broadcast_heartbeat-SameBallot ctx
      (record r { read_only = (add_request r.read_only ctx r.raft_log.commit_index m).0 }),
)

leader_read-SameBallot : (r : Raft) (m : Message) → Ensures (SameBallot r) (leader_read r m)
unfolding leader_read
leader_read-SameBallot r m = grind (arith, confirm_read-SameBallot)

leader_reject-SameBallot :
    (r : Raft) (m : Message) (pr : Progress) → Ensures (SameBallot r) (leader_reject r m pr)
unfolding leader_reject
leader_reject-SameBallot r m pr =
    let pr' = (may_decrease_to pr m.log_index m.reject_hint).0 in
    ground (arith, send_append-SameBallot m.from (record r { prs = insert m.from pr' r.prs }))

leader_accept-SameBallot :
    (r : Raft) (m : Message) (pr : Progress) → Ensures (SameBallot r) (leader_accept r m pr)
unfolding leader_accept
leader_accept-SameBallot r m pr = grind (
  arith,
  maybe_commit-SameBallot (record r { prs = insert m.from (maybe_update pr m.log_index).0 r.prs }),
  broadcast_append-SameBallot,
)

leader_app_resp-SameBallot :
    (r : Raft) (m : Message) (pr : Progress) → Ensures (SameBallot r) (leader_app_resp r m pr)
unfolding leader_app_resp
leader_app_resp-SameBallot r m pr =
    ground (arith, leader_reject-SameBallot r m pr, leader_accept-SameBallot r m pr)

leader_heartbeat_resp-SameBallot :
    (r : Raft) (m : Message) → Ensures (SameBallot r) (leader_heartbeat_resp r m)
unfolding leader_heartbeat_resp
leader_heartbeat_resp-SameBallot r m = grind (arith, deliver-SameBallot)

-- No handler of a leader changes the term or the vote.
pub step_leader-SameBallot : (r : Raft) (m : Message) → Ensures (SameBallot r) (step_leader r m)
unfolding step_leader
step_leader-SameBallot r m = grind (
  arith, broadcast_heartbeat-SameBallot, leader_prop-SameBallot, leader_read-SameBallot,
  leader_app_resp-SameBallot, leader_heartbeat_resp-SameBallot,
)

-- Nor does one of a follower.
pub step_follower-SameBallot : (r : Raft) (m : Message) → Ensures (SameBallot r) (step_follower r m)
unfolding step_follower
step_follower-SameBallot r m =
    grind (arith, handle_append_entries-SameBallot, handle_heartbeat-SameBallot, send-SameBallot)
