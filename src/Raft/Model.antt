-- ===== src/Raft/Model.antt =====
-- The data of apps/raft_demo/raft/model.go, and the outcome of a Go function of the package.
use swifty_go.Prelude.{ℕ, ◌≡◌, refl, arith, Bool, false, ◌&&◌, List, [], ◌==◌, Bytes}

pub data EntryType : Type 0 where
  normal conf_change : EntryType

pub record Entry : Type 0 where
  pub term : ℕ
  pub index : ℕ
  pub kind : EntryType
  pub payload : Bytes

-- Go's zero value Entry{}
abbrev pub zero_entry : Entry
zero_entry = record { term = 0; index = 0; kind = normal; payload = [] }

pub data MessageType : Type 0 where
  hup beat prop app app_resp vote vote_resp heartbeat heartbeat_resp : MessageType
  read_index read_index_resp pre_vote pre_vote_resp : MessageType

-- `None` is the id that no node has.
abbrev pub no_node : ℕ
no_node = 0

pub record Message : Type 0 where
  pub kind : MessageType
  pub to : ℕ
  pub from : ℕ
  pub term : ℕ
  pub log_term : ℕ
  pub log_index : ℕ
  pub entries : List Entry
  pub commit_index : ℕ
  pub reject : Bool
  pub reject_hint : ℕ
  pub context : Bytes

-- Go's zero value Message{}, for the fields that a literal leaves out (its type is MsgHup)
abbrev pub zero_message : Message
zero_message = record {
  kind = hup;
  to = 0;
  from = 0;
  term = 0;
  log_term = 0;
  log_index = 0;
  entries = [];
  commit_index = 0;
  reject = false;
  reject_hint = 0;
  context = [];
}

pub data StateType : Type 0 where
  follower candidate leader pre_candidate : StateType

pub record SoftState : Type 0 where
  pub lead : ℕ
  pub raft_state : StateType

pub record HardState : Type 0 where
  pub term : ℕ
  pub vote : ℕ
  pub commit_index : ℕ

abbrev pub empty_hard_state : HardState
empty_hard_state = record { term = 0; vote = 0; commit_index = 0 }

unfoldable pub is_hard_state_equal : HardState → HardState → Bool
is_hard_state_equal a b = a.term == b.term && a.vote == b.vote && a.commit_index == b.commit_index

abbrev pub state_code : StateType → ℕ
state_code follower = 0
state_code candidate = 1
state_code leader = 2
state_code pre_candidate = 3

-- `SoftState.equal`
unfoldable pub soft_state_equal : SoftState → SoftState → Bool
soft_state_equal s pre = s.lead == pre.lead && state_code s.raft_state == state_code pre.raft_state

pub data ConfChangeType : Type 0 where
  add_node remove_node update_node : ConfChangeType

pub record ConfChange : Type 0 where
  pub id : ℕ
  pub kind : ConfChangeType
  pub node_id : ℕ
  pub context : Bytes

pub data CampaignType : Type 0 where
  pre_election election : CampaignType

pub data Err : Type 0 where
  compacted unavailable : Err

-- What a call gives: its results, an error value, or a panic (also that of the Go runtime).
pub data Outcome {ℓ} (A : Type ℓ) : Type ℓ where
  ok : A → Outcome A
  err : Err → Outcome A
  panic : Outcome A

infixl 5 ◌>>=◌
abbrev pub ◌>>=◌ {ℓ κ} : {A : Type ℓ} {B : Type κ} → Outcome A → (A → Outcome B) → Outcome B
ok a >>= f = f a
err x >>= f = err x
panic >>= f = panic

-- `if err != nil { panic(err) }`
abbrev pub must {ℓ} : {A : Type ℓ} → Outcome A → Outcome A
must (ok a) = ok a
must (err x) = panic
must panic = panic

-- A postcondition: every result satisfies it (an error or a panic gives no result).
abbrev pub Ensures {ℓ κ} : {A : Type ℓ} → (A → Type κ) → Outcome A → Type κ
Ensures P (ok a) = P a
Ensures P (err x) = Unit
Ensures P panic = Unit

pub Ensures-bind {ℓ κ ι} :
    {A : Type ℓ} {B : Type κ} (P : B → Type ι) (m : Outcome A) (f : A → Outcome B)
    → ((a : A) → m ≡ ok a → Ensures P (f a))
    → Ensures P (m >>= f)
Ensures-bind P (ok a) f h = h a refl
Ensures-bind P (err x) f h = tt
Ensures-bind P panic f h = tt

pub Ensures-map {ℓ κ ι} :
    {A : Type ℓ} (P : A → Type κ) (Q : A → Type ι) (m : Outcome A)
    → ((a : A) → P a → Q a)
    → Ensures P m
    → Ensures Q m
Ensures-map P Q (ok a) f h = f a h
Ensures-map P Q (err x) f h = tt
Ensures-map P Q panic f h = tt

pub Ensures-ok {ℓ κ} :
    {A : Type ℓ} (P : A → Type κ) (m : Outcome A) {a : A} → Ensures P m → m ≡ ok a → P a
Ensures-ok P (ok b) h e = ground arith
Ensures-ok P (err x) h e = cc
Ensures-ok P panic h e = cc
