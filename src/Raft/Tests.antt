-- ===== src/Raft/Tests.antt =====
-- Runs of the consensus core at concrete inputs.
use swifty_go.Prelude.{
  ℕ, ◌≡◌, ◌≢◌, ◌≤◌, ◌⊎◌, ◌++◌, refl, arith, List, [], ◌∷◌, true, false, some, none, lookup, insert,
  delete, get_elem?, ◌+◌, ◌<◌,
}
use swifty_go.Raft.Model.{
  Entry, normal, conf_change, zero_entry, Message, zero_message, vote, pre_vote, follower, ok,
  no_node, empty_hard_state,
}
use swifty_go.Raft.Storage
use swifty_go.Raft.Storage.{MemoryStorage}
use swifty_go.Raft.Storage.Persist
use swifty_go.Raft.Unstable
use swifty_go.Raft.Log
use swifty_go.Raft.Log.{RaftLog}
use swifty_go.Raft.Log.View
use swifty_go.Raft.Log.Append
use swifty_go.Raft.Log.Match.{Holds}
use swifty_go.Raft.Log.Accept
use swifty_go.Raft.Log.Request
use swifty_go.Raft.Progress.{Progress}
use swifty_go.Raft.ReadOnly
use swifty_go.Raft.ReadOnly.{ReadOnly, ReadIndexStatus}
use swifty_go.Raft.ReadOnly.Queue
use swifty_go.Raft.Core
use swifty_go.Raft.Core.{Raft, step_follower, tick_election}
use swifty_go.Raft.Candidate
use swifty_go.Raft.Leader
use swifty_go.Raft.Leader.Proposals
use swifty_go.Raft.Step
use swifty_go.Raft.Step.{Config}
use swifty_go.Raft.Commit
use swifty_go.Raft.Election

-- all that a run computes with
program : Unit {0}
unfolding lookup insert delete Storage.slice Storage.index Storage.base Storage.last_index
    Storage.first_index Storage.entries Storage.term Storage.append Storage.initial_state
    Storage.new_memory_storage Unstable.slice Unstable.must_check_out_of_bounds
    Unstable.truncate_and_append Unstable.maybe_last_index Unstable.maybe_term Unstable.stable_to
    Log.new_raft_log Log.first_index Log.last_index Log.slice Log.must_check_out_of_bounds
    Log.stable_part Log.unstable_part Log.append Log.term Log.stored_term Log.last_term
    Log.is_up_to_date Log.applied_to Log.entries Log.commit_to Log.maybe_commit
    Log.zero_term_on_err_compacted Log.match_term Log.find_conflict Log.append_conflicting
    Log.maybe_append ReadOnly.request_data ReadOnly.advance ReadOnly.collect ReadOnly.forget
    Core.become_follower Core.reset Core.send Core.poll Core.count_granted Core.quorum
    Core.insert_desc Core.sort_desc Core.maybe_commit Core.append_entry Core.assign
    Core.num_of_pending_conf Candidate.campaign_pre_election Leader.demote Step.step Step.dispatch
    Step.observe_higher Step.handle_vote Step.grants Step.new_raft Step.register View.view
program = tt

abbrev entry : ℕ → ℕ → Entry
entry t i = record { term = t; index = i; kind = normal; payload = i ∷ [] }

-- entries 1 and 2 of term 1 that are not persisted; the first is committed
abbrev short_log : RaftLog
short_log = record {
  storage = record { hard_state = empty_hard_state; entries = zero_entry ∷ [] };
  unstable = record { entries = entry 1 1 ∷ entry 1 2 ∷ []; offset = 1 };
  commit_index = 1;
  apply_index = 0;
}

short_log-IsValid : View.IsValid short_log
short_log-IsValid = omega arith

-- a leader of term 2 overwrites the second entry and adds a third
abbrev request : List Entry
request = entry 2 2 ∷ entry 2 3 ∷ []

maybe_append_runs :
    Log.maybe_append short_log 1 1 2 request
    ≡ ok (
      record short_log {
        unstable = record { entries = entry 1 1 ∷ request; offset = 1 };
        commit_index = 2;
      },
      some 3,
    )
unfolding program
maybe_append_runs = refl

request-IsRequest : Accept.IsRequest short_log 1 1 request
request-IsRequest = omega arith

short_log-Holds : Holds short_log 1 1
unfolding View.view
short_log-Holds = omega arith

maybe_append-accepts_example :
    (l' : RaftLog) × (Log.maybe_append short_log 1 1 2 request ≡ ok (l', some 3))
    × Request.IsAccepted short_log l' 1 1 2 request
maybe_append-accepts_example =
    Request.maybe_append-accepts short_log 1 1 2 request short_log-IsValid request-IsRequest
      (omega arith) short_log-Holds

-- a request that names the term 0 beyond the end of the log is accepted
zero_term_accepted : Log.maybe_append short_log 7 0 0 [] ≡ ok (short_log, some 7)
unfolding program
zero_term_accepted = refl

maybe_append-rejects_example :
    (Request.term_or_zero short_log 2 ≢ 2
      → Log.maybe_append short_log 2 2 2 (entry 2 3 ∷ []) ≡ ok (short_log, none))
    × (Request.term_or_zero short_log 2 ≡ 2
        → (l' : RaftLog) → Log.maybe_append short_log 2 2 2 (entry 2 3 ∷ []) ≢ ok (l', none))
maybe_append-rejects_example =
    Request.maybe_append-rejects short_log 2 2 2 (entry 2 3 ∷ []) short_log-IsValid

-- and its first part applies: the entry at 2 is of term 1
short_log_refuses : Request.term_or_zero short_log 2 ≢ 2
unfolding Request.term_or_zero
short_log_refuses = omega arith

term-view_example : Log.term short_log 2 ≡ ok (View.view short_log 2)
term-view_example = View.term-view short_log 2 short_log-IsValid (omega arith) (omega arith)

append-splice_example :
    Log.append short_log request
    ≡ ok (Append.splice short_log 2 request, View.last (Append.splice short_log 2 request))
append-splice_example =
    Append.append-splice short_log (entry 2 2) (entry 2 3 ∷ []) short_log-IsValid (omega arith)

abbrev store : MemoryStorage
store = record { hard_state = empty_hard_state; entries = zero_entry ∷ entry 1 1 ∷ entry 1 2 ∷ [] }

entry_7-term : Storage.term store 7 ≡ Persist.stored_at store 7
entry_7-term = Persist.term-stored_at store 7 (omega arith) (omega arith)

term-append_example :
    (m' : MemoryStorage) × (Storage.append store request ≡ ok m')
    × ((k : ℕ) (f : Entry) → get_elem? request k ≡ some f → Storage.term m' (2 + k) ≡ ok f.term)
    × ((i : ℕ) → i < 2 → Storage.term m' i ≡ Storage.term store i)
term-append_example =
    Persist.term-append store (entry 2 2) (entry 2 3 ∷ []) (omega arith) (omega arith) (omega arith)
      (omega arith)

abbrev progress : ℕ → Progress
progress n = record { matched = n; next = n + 1 }

-- node 1 of three, a follower in term 1
abbrev node : Raft
node = record {
  id = 1;
  term = 1;
  read_states = [];
  raft_log = short_log;
  prs = (1, progress 2) ∷ (2, progress 2) ∷ (3, progress 0) ∷ [];
  state = follower;
  votes = [];
  msgs = [];
  lead = 0;
  pending_conf = false;
  read_only = record { pending = []; queue = [] };
  pre_vote = true;
  tick = tick_election;
  step = step_follower;
  vote = 0;
  check_quorum = false;
  election_timeout = 10;
  randomized_election_timeout = 12;
  election_elapsed = 0;
  heartbeat_timeout = 2;
  heartbeat_elapsed = 0;
  rand = λ k n. 0;
  draws = 0;
}

-- node 2 asks for a vote in term 2
abbrev ask : Message
ask = record zero_message { kind = vote; to = 1; from = 2; term = 2; log_term = 1; log_index = 2 }

abbrev voted : Raft
voted = record node {
  term = 2;
  vote = 2;
  randomized_election_timeout = 10;
  draws = 1;
  msgs = Election.answer (record node { term = 2 }) ask false ∷ [];
}

step_runs : Step.step node ask ≡ ok voted
unfolding program Election.answer
step_runs = refl

-- node 3 asks in the same term, and is refused
abbrev ask_again : Message
ask_again = record ask { from = 3 }

abbrev refused : Raft
refused = record voted { msgs = voted.msgs ++ Election.answer voted ask_again true ∷ [] }

step_runs_again : Step.step voted ask_again ≡ ok refused
unfolding program Election.answer
step_runs_again = refl

vote_once_example : (2 ≤ refused.term) × (refused.term ≡ 2 → 2 ≢ no_node → refused.vote ≡ 2)
vote_once_example =
    Election.vote_once {r = voted} {s = refused} (
      Election.Steps.next Election.Steps.here (omega arith) ask_again (omega arith) step_runs_again)

handle_vote_runs : Step.handle_vote voted ask_again ≡ ok refused
unfolding program Election.answer
handle_vote_runs = refl

handle_vote-answer_example :
    ((refused.msgs ≡ voted.msgs ++ Election.answer voted ask_again false ∷ [])
      × (refused.vote ≡ 3)
      × ((voted.vote ≡ no_node) ⊎ (voted.vote ≡ 3)))
    ⊎ ((refused.msgs ≡ voted.msgs ++ Election.answer voted ask_again true ∷ [])
        × (refused.vote ≡ voted.vote))
handle_vote-answer_example =
    Election.handle_vote-answer voted refused ask_again refl (omega arith) (omega arith)
      handle_vote_runs

-- two of three have matched the second entry
abbrev committed : Raft
committed = record node { raft_log = record short_log { commit_index = 2 } }

maybe_commit_runs : Core.maybe_commit node ≡ ok (committed, true)
unfolding program
maybe_commit_runs = refl

maybe_commit-IsBacked_example : Commit.IsBacked node committed
maybe_commit-IsBacked_example =
    Commit.maybe_commit-IsBacked node committed (λ e. cc) (omega arith) maybe_commit_runs

-- in term 2 the same majority moves nothing, since the entry is of term 1
maybe_commit_stays :
    Core.maybe_commit (record node { term = 2 }) ≡ ok (record node { term = 2 }, false)
unfolding program
maybe_commit_stays = refl

maybe_commit-unchanged_example :
    let r = record node { term = 2 } in
    (r ≡ r) × ((n : ℕ) → 1 < n → Commit.IsMajorityIndex r n → Log.term short_log n ≢ ok 2)
maybe_commit-unchanged_example =
    Commit.maybe_commit-unchanged (record node { term = 2 }) (record node { term = 2 }) (λ e. cc)
      maybe_commit_stays

ballot_2-count : (Core.poll node 2 true).1 ≡ Core.count_granted [] + Election.ballot_value none true
unfolding program
ballot_2-count = Election.poll_count node 2 true

campaign_pre_election-requests_example :
    Candidate.campaign_pre_election node
    ≡ ok (record (Election.pre_candidate_of node) {
      msgs = Election.requests 1 1 pre_vote 2 1 node.prs;
    })
campaign_pre_election-requests_example =
    Election.campaign_pre_election-requests node 2 1 (λ e. cc e) (omega arith)
      (unfold program in omega arith) (unfold program in refl) (unfold program in refl)

abbrev config : Config
config = record {
  id = 1;
  peers = 1 ∷ 2 ∷ 3 ∷ [];
  storage = record store { hard_state = record { term = 3; vote = 2; commit_index = 1 } };
  applied = 0;
  pre_vote = true;
  election_tick = 10;
  heartbeat_tick = 2;
}

abbrev restarted : Raft
restarted = record node {
  term = 3;
  raft_log = record {
    storage = config.storage;
    unstable = record { entries = []; offset = 3 };
    commit_index = 1;
    apply_index = 0;
  };
  prs =
      (1, record { matched = 0; next = 1 })
      ∷ (2, record { matched = 0; next = 1 })
      ∷ (3, record { matched = 0; next = 1 })
      ∷ [];
  randomized_election_timeout = 10;
  draws = 1;
}

-- the proposal of two configuration changes and a write
abbrev proposal : List Entry
proposal =
    record (entry 0 0) { kind = conf_change }
    ∷ entry 0 0
    ∷ record (entry 0 0) { kind = conf_change }
    ∷ []

two_entries-Numbered : Proposals.Numbered 2 3 proposal (Core.assign 2 2 0 proposal)
two_entries-Numbered = Proposals.assign-Numbered 2 2 0 proposal (omega arith)

abbrev read_of : ℕ → Message
read_of k = record zero_message { entries = record zero_entry { payload = k ∷ [] } ∷ [] }

abbrev waiting : ℕ → ReadIndexStatus
waiting k = record { req = read_of k; index = 1; acks = [] }

-- two reads wait
abbrev reads : ReadOnly
reads = record {
  pending = (7 ∷ [], waiting 7) ∷ (8 ∷ [], waiting 8) ∷ [];
  queue = (7 ∷ []) ∷ (8 ∷ []) ∷ [];
}

reads-Registered : Queue.Registered reads.pending reads.queue
unfolding program
reads-Registered = ((waiting 7, refl, refl), ((waiting 8, refl, refl), tt))

advance-IsAdvanced_example :
    (ro : ReadOnly) × (rss : List ReadIndexStatus) × (ReadOnly.advance reads (8 ∷ [])
      ≡ ok (ro, rss))
    × Queue.IsAdvanced reads ro rss (8 ∷ []) ((7 ∷ []) ∷ []) []
advance-IsAdvanced_example =
    Queue.advance-IsAdvanced reads (8 ∷ []) ((7 ∷ []) ∷ []) [] refl refl reads-Registered
