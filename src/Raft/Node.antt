-- ===== src/Raft/Node.antt =====
-- Ready and the loop of a node: apps/raft_demo/raft/ready.go and node.go. One turn of the loop is a
-- function of the event that its `select` takes; the channels and goroutines are not modelled.
use swifty_go.Prelude.{
  ℕ, Bool, true, false, Option, none, some, List, [], ◌∷◌, ltb, ◌==◌, if◌then◌else◌, length, not,
  ◌||◌,
}
use swifty_go.Raft.Model.{
  Entry, Message, SoftState, HardState, empty_hard_state, is_hard_state_equal, soft_state_equal,
  ConfChange, Outcome, ok, ◌>>=◌, must,
}
use swifty_go.Raft.Storage
use swifty_go.Raft.Log
use swifty_go.Raft.Log.{RaftLog}
use swifty_go.Raft.ReadOnly.{ReadState}
use swifty_go.Raft.Core.{Raft, soft_state, hard_state, join, apply_conf_change}
use swifty_go.Raft.Step.{Config, new_raft, step, tick}

pub record Ready : Type 0 where
  pub soft : Option SoftState
  pub hard : HardState
  pub read_states : List ReadState
  pub entries : List Entry
  pub committed_entries : List Entry
  pub messages : List Message

unfoldable pub new_ready : Raft → SoftState → HardState → Outcome Ready
unfolding soft_state hard_state
new_ready r pre_soft pre_hard = do
  committed ← Log.next_entries r.raft_log
  ok (record {
    soft = if soft_state_equal (soft_state r) pre_soft then none else some (soft_state r);
    hard = if is_hard_state_equal (hard_state r) pre_hard then empty_hard_state else hard_state r;
    read_states = r.read_states;
    entries = Log.unstable_entries r.raft_log;
    committed_entries = committed;
    messages = r.msgs;
  })

abbrev pub is_empty_hard_state : HardState → Bool
is_empty_hard_state h = is_hard_state_equal h empty_hard_state

abbrev pub is_some {ℓ} : {A : Type ℓ} → Option A → Bool
is_some none = false
is_some (some _) = true

unfoldable pub contains_updates : Ready → Bool
contains_updates rd =
    is_some rd.soft
    || not (is_empty_hard_state rd.hard)
    || ltb 0 (length rd.entries)
    || ltb 0 (length rd.committed_entries)
    || ltb 0 (length rd.messages)
    || ltb 0 (length rd.read_states)

-- The variables of `run`. `awaiting` says that `advanceChan` is not nil.
pub record NodeState : Type 0 where
  pub raft : Raft
  pub rd : Ready
  pub prev_soft : SoftState
  pub prev_hard : HardState
  pub prev_last_unstable_i : ℕ
  pub prev_last_unstable_t : ℕ
  pub has_prev_last_unstable : Bool
  pub awaiting : Bool

abbrev pub empty_ready : Ready
empty_ready = record {
  soft = none;
  hard = empty_hard_state;
  read_states = [];
  entries = [];
  committed_entries = [];
  messages = [];
}

-- the variables before the loop
unfoldable pub start_run : Raft → NodeState
unfolding soft_state
start_run r = record {
  raft = r;
  rd = empty_ready;
  prev_soft = soft_state r;
  prev_hard = empty_hard_state;
  prev_last_unstable_i = 0;
  prev_last_unstable_t = 0;
  has_prev_last_unstable = false;
  awaiting = false;
}

pub data Event : Type 0 where
  proposal : Message → Event
  received : Message → Event
  changed : ConfChange → Event
  ticked : Event
  ready_taken : Event
  advanced : Event

-- The top of the loop: the new `rd`, and whether `readyChan` is not nil.
unfoldable pub refresh : NodeState → Outcome (NodeState × Bool)
refresh s = if s.awaiting then ok (s, false) else (do
  rd ← new_ready s.raft s.prev_soft s.prev_hard
  ok (record s { rd = rd }, contains_updates rd))

-- `rd.Entries[len(rd.Entries)-1]`
unfoldable pub last_entry : List Entry → Option Entry
last_entry [] = none
last_entry (e ∷ []) = some e
last_entry (e ∷ f ∷ es) = last_entry (f ∷ es)

abbrev soft_or : Option SoftState → SoftState → SoftState
soft_or none prev = prev
soft_or (some soft) prev = soft

-- the variables after the last entry of a delivered Ready is noted
unfoldable pub note_unstable : NodeState → Option Entry → NodeState
note_unstable s none = s
note_unstable s (some e) = record s {
  prev_last_unstable_i = e.index;
  prev_last_unstable_t = e.term;
  has_prev_last_unstable = true;
}

-- the case `readyChan <- rd`
unfoldable pub on_ready : NodeState → NodeState
unfolding note_unstable last_entry
on_ready s =
    note_unstable
      (record s {
        prev_soft = soft_or s.rd.soft s.prev_soft;
        prev_hard = if is_empty_hard_state s.rd.hard then s.prev_hard else s.rd.hard;
        raft = record (s.raft) { msgs = []; read_states = [] };
        awaiting = true;
      })
      (last_entry s.rd.entries)

-- the case `<-advanceChan`
unfoldable pub on_advance : NodeState → Outcome NodeState
on_advance s = do
  let log₀ = s.raft.raft_log
  let log₁ =
      if is_empty_hard_state s.prev_hard
      then log₀
      else record log₀ { storage = Storage.set_hard_state log₀.storage s.prev_hard }
  log₂ ←
      (if s.prev_hard.commit_index == 0
        then ok log₁
        else Log.applied_to log₁ s.prev_hard.commit_index)
  log₃ ←
      (if s.has_prev_last_unstable
        then (do
          storage ← must (Storage.append log₂.storage s.rd.entries)
          Log.stable_to (record log₂ { storage = storage }) s.prev_last_unstable_i
              s.prev_last_unstable_t)
        else ok log₂)
  ok (record s {
    raft = record (s.raft) { raft_log = log₃ };
    has_prev_last_unstable = false;
    awaiting = false;
  })

-- The case of the `select`; one that is not enabled leaves the state alone.
unfoldable pub handle : Bool → NodeState → Event → Outcome NodeState
handle enabled s (proposal m) = do
  r ← step s.raft (record m { from = s.raft.id })
  ok (record s { raft = r })
handle enabled s (received m) = do r ← step s.raft m; ok (record s { raft = r })
handle enabled s (changed cc) = do (r, _) ← apply_conf_change s.raft cc; ok (record s { raft = r })
handle enabled s ticked = do r ← tick s.raft; ok (record s { raft = r })
handle enabled s ready_taken = if enabled then ok (on_ready s) else ok s
handle enabled s advanced = if s.awaiting then on_advance s else ok s

-- one turn of the loop
unfoldable pub turn : NodeState → Event → Outcome NodeState
turn s ev = do (s', enabled) ← refresh s; handle enabled s' ev

unfoldable pub run : NodeState → List Event → Outcome NodeState
run s [] = ok s
run s (ev ∷ evs) = turn s ev >>= λ s'. run s' evs

unfoldable pub join_all : List ℕ → Raft → Outcome Raft
join_all [] r = ok r
join_all (id ∷ ids) r = join r id >>= λ r'. join_all ids r'

-- `StartNode`, up to the start of the loop
unfoldable pub start_node : Config → (ℕ → ℕ → ℕ) → List ℕ → Outcome NodeState
start_node conf rand peers = do
  r ← new_raft conf rand
  r' ← join_all peers r
  last ← Log.last_index r'.raft_log
  let raft_log = r'.raft_log
  ok (start_run (record r' { raft_log = record raft_log { commit_index = last } }))
