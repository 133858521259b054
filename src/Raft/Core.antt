-- ===== src/Raft/Core.antt =====
-- The state of a node and its helpers: apps/raft_demo/raft/raft.go. The function fields `step` and
-- `tick` are the names of the functions that are stored in them; `rand` is the source that
-- rand.Intn draws from (`rand k n` is the k-th draw below n), and `draws` counts the draws.
-- An int32 is its bit pattern. A map is iterated in the order of its list.
use swifty_go.Prelude.{
  sort_asc, ℕ, suc, ◌+◌, ◌-◌, ◌/◌, Bool, true, false, none, some, List, [], ◌∷◌, ◌++◌, map, leb,
  ◌==◌, if◌then◌else◌, length, add64, add32, leb_int32, lookup, insert, delete, nat_eq,
}
use swifty_go.Raft.Model.{
  Entry, conf_change, Message, MessageType, prop, read_index, no_node, StateType, follower,
  SoftState, HardState, ConfChange, ConfChangeType, add_node, remove_node, update_node, Outcome, ok,
  panic, ◌>>=◌,
}
use swifty_go.Raft.Storage.{index}
use swifty_go.Raft.Log
use swifty_go.Raft.Log.{RaftLog}
use swifty_go.Raft.Progress.{Progress, maybe_update}
use swifty_go.Raft.ReadOnly.{ReadOnly, ReadState}

pub data StepFunc : Type 0 where
  step_follower step_candidate step_leader : StepFunc

pub data TickFunc : Type 0 where
  tick_election tick_heartbeat : TickFunc

pub record Raft : Type 0 where
  pub id : ℕ
  pub term : ℕ
  pub read_states : List ReadState
  pub raft_log : RaftLog
  pub prs : List (ℕ × Progress)
  pub state : StateType
  pub votes : List (ℕ × Bool)
  pub msgs : List Message
  pub lead : ℕ
  pub pending_conf : Bool
  pub read_only : ReadOnly
  pub pre_vote : Bool
  pub tick : TickFunc
  pub step : StepFunc
  pub vote : ℕ
  pub check_quorum : Bool
  pub election_timeout : ℕ
  pub randomized_election_timeout : ℕ
  pub election_elapsed : ℕ
  pub heartbeat_timeout : ℕ
  pub heartbeat_elapsed : ℕ
  pub rand : ℕ → ℕ → ℕ
  pub draws : ℕ

unfoldable pub reset_randomized_election_timeout : Raft → Raft
reset_randomized_election_timeout r =
    let n = if leb_int32 r.election_timeout 0 then 1 else r.election_timeout in
    record r { randomized_election_timeout = add32 n (r.rand r.draws n); draws = suc r.draws }

unfoldable pub reset : Raft → ℕ → Raft
unfolding reset_randomized_election_timeout
reset r term = reset_randomized_election_timeout (record r {
  term = term;
  vote = if r.term == term then r.vote else no_node;
  lead = no_node;
  election_elapsed = 0;
  heartbeat_elapsed = 0;
  votes = [];
  pending_conf = false;
})

unfoldable pub become_follower : Raft → ℕ → ℕ → Raft
unfolding reset
become_follower r term lead = record (reset r term) {
  step = step_follower;
  tick = tick_election;
  lead = lead;
  state = follower;
}

unfoldable pub soft_state : Raft → SoftState
soft_state r = record { lead = r.lead; raft_state = r.state }

unfoldable pub hard_state : Raft → HardState
hard_state r = record { term = r.term; vote = r.vote; commit_index = r.raft_log.commit_index }

-- `promotable`: whether the node is a member
unfoldable pub promotable : Raft → ℕ → Bool
promotable r id = elim (lookup id r.prs) [ none ↦ false | some _ ↦ true ]

-- `addNode`
unfoldable pub join : Raft → ℕ → Outcome Raft
unfolding promotable
join r id = if promotable r id then ok r else (do
  last ← Log.last_index r.raft_log
  ok (record r { prs = insert id (record { matched = 0; next = add64 last 1 }) r.prs }))

-- `removeNode`: a node that removes itself steps down.
unfoldable pub leave : Raft → ℕ → Raft
unfolding promotable become_follower
leave r id =
    if promotable r id
    then (let r' = record r { prs = delete id r.prs } in
        if id == r.id then become_follower r' r'.term no_node else r')
    else r

-- slices.Sort
unfoldable pub nodes : Raft → List ℕ
nodes r = sort_asc (map (λ p. p.0) r.prs)

unfoldable pub change_member : Raft → ConfChangeType → ℕ → Outcome Raft
unfolding join leave
change_member r add_node id = join r id
change_member r remove_node id = ok (leave r id)
change_member r update_node id = join r id

unfoldable pub apply_conf_change : Raft → ConfChange → Outcome (Raft × List ℕ)
unfolding change_member nodes
apply_conf_change r cc = do
  r' ← (if cc.node_id == no_node then ok r else change_member r cc.kind cc.node_id)
  ok (record r' { pending_conf = false }, nodes r')

-- whether `send` leaves the message's term alone
abbrev pub keeps_term : MessageType → Bool
keeps_term prop = true
keeps_term read_index = true
keeps_term _ = false

unfoldable pub send : Raft → Message → Raft
send r m =
    let m' = record m {
      from = if m.from == no_node then r.id else m.from;
      term = if keeps_term m.kind then m.term else r.term;
    } in
    record r { msgs = r.msgs ++ m' ∷ [] }

unfoldable pub count_granted : List (ℕ × Bool) → ℕ
count_granted [] = 0
count_granted ((_, v) ∷ votes) = let rest = count_granted votes in if v then suc rest else rest

unfoldable pub poll : Raft → ℕ → Bool → Raft × ℕ
unfolding count_granted
poll r id v =
    let votes : List (ℕ × Bool) = elim (lookup id r.votes) [
      | some _ ↦ r.votes
      | none ↦ insert id v r.votes
    ] in
    (record r { votes = votes }, count_granted votes)

unfoldable pub quorum : Raft → ℕ
quorum r = length r.prs / 2 + 1

unfoldable pub past_election_timeout : Raft → Bool
past_election_timeout r = leb_int32 r.randomized_election_timeout r.election_elapsed

-- sort.Sort(sort.Reverse(matches))
unfoldable pub insert_desc : ℕ → List ℕ → List ℕ
insert_desc x [] = x ∷ []
insert_desc x (y ∷ ys) = if leb y x then x ∷ y ∷ ys else y ∷ insert_desc x ys

unfoldable pub sort_desc : List ℕ → List ℕ
unfolding insert_desc
sort_desc [] = []
sort_desc (x ∷ xs) = insert_desc x (sort_desc xs)

unfoldable pub maybe_commit : Raft → Outcome (Raft × Bool)
maybe_commit r = do
  mid ← index (sort_desc (map (λ p. p.1.matched) r.prs)) (quorum r - 1)
  (raft_log, moved) ← Log.maybe_commit r.raft_log mid r.term
  ok (record r { raft_log = raft_log }, moved)

-- the loop of `appendEntry`
unfoldable pub assign : ℕ → ℕ → ℕ → List Entry → List Entry
assign term last i [] = []
assign term last i (e ∷ es) =
    record e { term = term; index = add64 (add64 last i) 1 } ∷ assign term last (suc i) es

-- A node that is not a member of its own map dereferences a nil progress.
unfoldable pub append_entry : Raft → List Entry → Outcome Raft
unfolding maybe_commit
append_entry r es = do
  last ← Log.last_index r.raft_log
  (raft_log, _) ← Log.append r.raft_log (assign r.term last 0 es)
  let r' = record r { raft_log = raft_log }
  now ← Log.last_index raft_log
  elim (lookup r'.id r'.prs) [
    | none ↦ panic
    | some pr ↦
        maybe_commit (record r' { prs = insert r'.id (maybe_update pr now).0 r'.prs }) >>= λ done.
        ok done.0
  ]

-- `numOfPendingConf` of util.go
unfoldable pub num_of_pending_conf : List Entry → ℕ
num_of_pending_conf [] = 0
num_of_pending_conf (e ∷ es) =
    let rest = num_of_pending_conf es in elim e.kind [ conf_change ↦ suc rest | _ ↦ rest ]
