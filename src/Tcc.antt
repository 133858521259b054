-- ===== src/Tcc.antt =====
-- The transaction manager of apps/tcc_demo (txmanager.go, model.go, tccregister.go): try, confirm and
-- cancel over components and a log of transactions that the user supplies. These are a parameter, a
-- state W of the world outside and the calls that change it; contexts and their time limits show only
-- in what the calls answer. The components of a type C are told apart by their id.
pub mod Manager
pub mod Contract
pub mod Trying
pub mod Atomic
pub mod Registry
pub mod Outcome
mod Tests
use swifty_go.Prelude.{
  ℕ, suc, zero, ◌+◌, ◌-◌, ◌*◌, ◌%◌, Bool, true, false, Option, none, some, List, [], ◌∷◌, ◌++◌,
  ◌||◌, ◌&&◌, not, if◌then◌else◌, length, ltb, ◌==◌, word64, half64, Bytes, bytes_eq, lookup,
  insert,
}

pub data TryStatus : Type 0 where
  try_hanging try_successful try_failure : TryStatus

pub data TxStatus : Type 0 where
  tx_hanging tx_successful tx_failure : TxStatus

-- Status, which is for the log alone, is left out
pub record Transaction : Type 0 where
  pub tx_id : Bytes
  pub components : List (Bytes × TryStatus)
  pub created_at : ℕ

-- the loop of getStatus and what follows it
unfoldable pub scan : Bool → Bool → List (Bytes × TryStatus) → TxStatus
scan late hanging_exist [] =
    if hanging_exist then (if late then tx_failure else tx_hanging) else tx_successful
scan late hanging_exist ((id, try_failure) ∷ cs) = tx_failure
scan late hanging_exist ((id, try_hanging) ∷ cs) = scan late true cs
scan late hanging_exist ((id, try_successful) ∷ cs) = scan late hanging_exist cs

unfoldable pub get_status : Transaction → ℕ → TxStatus
unfolding scan
get_status tx created_before = scan (ltb tx.created_at created_before) false tx.components

-- what a component answers: an error, a refusal (no response, or one without ACK), or an ACK
pub data Reply : Type 0 where
  failed refused acked : Reply

-- the interfaces TCCComponent and TXStore; a result false or none is an error
pub record Services (C D W : Type 0) : Type 0 where
  pub id : C → Bytes
  pub try_first : W → C → Bytes → D → W × Reply
  pub confirm : W → C → Bytes → W × Reply
  pub cancel : W → C → Bytes → W × Reply
  pub create_tx : W → List C → W × Option Bytes
  pub tx_update : W → Bytes → Bytes → Bool → W × Bool
  pub tx_submit : W → Bytes → Bool → W × Bool
  pub get_tx : W → Bytes → Option Transaction
  pub get_hanging_txs : W → Option (List Transaction)
  pub lock : W → W × Bool
  pub unlock : W → W

-- the calls of the second phase
pub data Call : Type 0 where
  confirm_call cancel_call : Bytes → Call
  submit_call : Bool → Call

pub data Progress : Type 0 where
  advanced still_hanging no_component call_failed not_acked submit_failed no_transaction : Progress

module _ {C : Type 0} {D : Type 0} {W : Type 0} (s : Services C D W) where
  -- register; `none` is the error of a repeated id
  unfoldable pub register : List (Bytes × C) → C → Option (List (Bytes × C))
  register components c = elim (lookup (s.id c) components) [
    | some _ ↦ none
    | none ↦ some (insert (s.id c) c components)
  ]

  -- getComponents of the registry
  unfoldable pub find_components : List (Bytes × C) → List Bytes → Option (List C)
  find_components components [] = some []
  find_components components (i ∷ ids) = elim (lookup i components) [
    | none ↦ none
    | some c ↦ elim (find_components components ids) [ none ↦ none | some cs ↦ some (c ∷ cs) ]
  ]

  abbrev pub second_call : Bool → Bytes → Call
  second_call true i = confirm_call i
  second_call false i = cancel_call i

  abbrev pub confirm_or_cancel : Bool → W → C → Bytes → W × Reply
  confirm_or_cancel true w c tx_id = s.confirm w c tx_id
  confirm_or_cancel false w c tx_id = s.cancel w c tx_id

  abbrev pub submitted : Bool → Progress
  submitted true = advanced
  submitted false = submit_failed

  -- a component's answer in the second phase, and the rounds that follow an ACK
  abbrev pub after_call :
      Reply → Bool → Bytes → W → W × List Call × Progress → W × List Call × Progress
  after_call failed success i w rest = (w, second_call success i ∷ [], call_failed)
  after_call refused success i w rest = (w, second_call success i ∷ [], not_acked)
  after_call acked success i w rest = (rest.0, second_call success i ∷ rest.1, rest.2)

  -- the loop of advanceProgress over the components, and the submission
  unfoldable pub second_phase :
      List (Bytes × C) → Bool → Bytes → W → List (Bytes × TryStatus) → W × List Call × Progress
  second_phase registry success tx_id w [] =
      let done = s.tx_submit w tx_id success in (done.0, submit_call success ∷ [], submitted done.1)
  second_phase registry success tx_id w ((i, st) ∷ cs) = elim (lookup i registry) [
    | none ↦ (w, [], no_component)
    | some c ↦
        let done = confirm_or_cancel success w c tx_id in
        after_call done.1 success i done.0 (second_phase registry success tx_id done.0 cs)
  ]

  -- advanceProgress at a time, for the time limit of the options
  unfoldable pub advance_progress :
      List (Bytes × C) → ℕ → W → Transaction → W × List Call × Progress
  unfolding second_phase get_status
  advance_progress registry created_before w tx = elim (get_status tx created_before) [
    | tx_hanging ↦ (w, [], still_hanging)
    | tx_successful ↦ second_phase registry true tx.tx_id w tx.components
    | tx_failure ↦ second_phase registry false tx.tx_id w tx.components
  ]

  unfoldable pub advance_progress_by_tx_id :
      List (Bytes × C) → ℕ → W → Bytes → W × List Call × Progress
  unfolding advance_progress
  advance_progress_by_tx_id registry created_before w tx_id = elim (s.get_tx w tx_id) [
    | none ↦ (w, [], no_transaction)
    | some tx ↦ advance_progress registry created_before w tx
  ]
