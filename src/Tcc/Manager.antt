-- ===== src/Tcc/Manager.antt =====
-- Transaction, its first phase and the monitor of apps/tcc_demo/txmanager.go. The goroutines of the
-- first phase take their steps in the order of a schedule, and those that it leaves unfinished go on
-- after it, one by one: the manager waits for all of them.
use swifty_go.Prelude.{
  ℕ, suc, zero, ◌*◌, Bool, true, false, Option, none, some, List, [], ◌∷◌, ◌++◌, ◌||◌, not,
  if◌then◌else◌, ltb, Bytes, bytes_eq, lookup, insert,
}
use swifty_go.Tcc.{
  Transaction, Reply, failed, refused, acked, Services, Call, Progress, find_components,
  advance_progress, advance_progress_by_tx_id,
}

-- before the try, between try and update, and at the end, where an error was sent or not
pub data Phase : Type 0 where
  waiting : Phase
  tried : Reply → Phase
  finished : Bool → Phase

-- componentEntity, and how far its goroutine is
pub record Task (C D : Type 0) : Type 0 where
  pub component : C
  pub request : D
  pub phase : Phase

abbrev pub is_acked : Reply → Bool
is_acked acked = true
is_acked failed = false
is_acked refused = false

-- whether a goroutine, or one of the others, has sent an error
abbrev pub or_error : Phase → Bool → Bool
or_error waiting rest = rest
or_error (tried r) rest = rest
or_error (finished e) rest = e || rest

unfoldable pub any_error : {C : Type 0} {D : Type 0} → List (Task C D) → Bool
any_error [] = false
any_error (t ∷ ts) = or_error t.phase (any_error ts)

abbrev pub new_tasks : {C : Type 0} {D : Type 0} → List (C × D) → List (Task C D)
new_tasks [] = []
new_tasks ((c, d) ∷ es) = record { component = c; request = d; phase = waiting } ∷ new_tasks es

-- the requests by their component, in order; `none` is the error of a repeated one
unfoldable pub index_requests :
    {D : Type 0} → List (Bytes × D) → List (Bytes × D) → Option (List (Bytes × D))
index_requests seen [] = some seen
index_requests seen ((i, d) ∷ reqs) = elim (lookup i seen) [
  | some _ ↦ none
  | none ↦ index_requests (insert i d seen) reqs
]

abbrev pub request_ids : {D : Type 0} → List (Bytes × D) → List Bytes
request_ids [] = []
request_ids ((i, d) ∷ reqs) = i ∷ request_ids reqs

abbrev pub components_of : {C : Type 0} {D : Type 0} → List (C × D) → List C
components_of [] = []
components_of ((c, d) ∷ es) = c ∷ components_of es

-- what Transaction returns, with the calls of the second phase; `rejected` is an error
pub data Result : Type 0 where
  rejected : Result
  committed : Bytes → List Call → Bool → Result

-- batchAdvanceProgress: whether one of the transactions ended in an error
abbrev is_error : Progress → Bool
is_error p = elim p [
  | Progress.advanced ↦ false
  | Progress.still_hanging ↦ false
  | Progress.no_component ↦ true
  | Progress.call_failed ↦ true
  | Progress.not_acked ↦ true
  | Progress.submit_failed ↦ true
  | Progress.no_transaction ↦ true
]

module _ {C : Type 0} {D : Type 0} {W : Type 0} (s : Services C D W) where
  -- the next step of a goroutine: its try, or the update of the log with what the try answered
  unfoldable pub task_step : Bytes → W → Task C D → W × Task C D
  task_step tx_id w t = elim t.phase [
    | waiting ↦
        let done = s.try_first w t.component tx_id t.request in
        (done.0, record t { phase = tried done.1 })
    | tried r ↦
        let done = s.tx_update w tx_id (s.id t.component) (is_acked r) in
        (done.0, record t { phase = finished (not (is_acked r) || not done.1) })
    | finished e ↦ (w, t)
  ]

  -- a step of the goroutine at an index
  unfoldable pub step_at : Bytes → ℕ → W → List (Task C D) → W × List (Task C D)
  unfolding task_step
  step_at tx_id i w [] = (w, [])
  step_at tx_id zero w (t ∷ ts) = let done = task_step tx_id w t in (done.0, done.1 ∷ ts)
  step_at tx_id (suc i) w (t ∷ ts) = let rest = step_at tx_id i w ts in (rest.0, t ∷ rest.1)

  unfoldable pub run_schedule : Bytes → List ℕ → W → List (Task C D) → W × List (Task C D)
  unfolding step_at
  run_schedule tx_id [] w ts = (w, ts)
  run_schedule tx_id (i ∷ is) w ts =
      let done = step_at tx_id i w ts in run_schedule tx_id is done.0 done.1

  -- what the schedule left
  unfoldable pub finish_all : Bytes → W → List (Task C D) → W × List (Task C D)
  unfolding task_step
  finish_all tx_id w [] = (w, [])
  finish_all tx_id w (t ∷ ts) =
      let first = task_step tx_id w t in
      let second = task_step tx_id first.0 first.1 in
      let rest = finish_all tx_id second.0 ts in (rest.0, second.1 ∷ rest.1)

  -- twoPhaseCommit, with the calls of the second phase
  unfoldable pub two_phase_commit :
      List (Bytes × C) → ℕ → List ℕ → Bytes → W → List (C × D) → W × List Call × Bool
  unfolding run_schedule finish_all any_error advance_progress_by_tx_id
  two_phase_commit registry created_before schedule tx_id w entities =
      let ran = run_schedule tx_id schedule w (new_tasks entities) in
      let done = finish_all tx_id ran.0 ran.1 in
      let progress = advance_progress_by_tx_id s registry created_before done.0 tx_id in
      (progress.0, progress.1, not (any_error done.1))

  -- the entities of the components that were found; `none` is a read of a nil request, a panic
  unfoldable pub to_entities : List (Bytes × D) → List C → Option (List (C × D))
  to_entities by_id [] = some []
  to_entities by_id (c ∷ cs) = elim (lookup (s.id c) by_id) [
    | none ↦ none
    | some d ↦ elim (to_entities by_id cs) [ none ↦ none | some es ↦ some ((c, d) ∷ es) ]
  ]

  -- getComponents of the manager; `none` is an error
  unfoldable pub get_components : List (Bytes × C) → List (Bytes × D) → Option (List (C × D))
  unfolding index_requests find_components to_entities
  get_components registry [] = none
  get_components registry (r ∷ rs) = elim (index_requests [] (r ∷ rs)) [
    | none ↦ none
    | some by_id ↦ elim (find_components s registry (request_ids (r ∷ rs))) [
      | none ↦ none
      | some cs ↦ to_entities by_id cs
    ]
  ]

  unfoldable pub transaction : List (Bytes × C) → ℕ → List ℕ → W → List (Bytes × D) → W × Result
  unfolding get_components two_phase_commit
  transaction registry created_before schedule w reqs = elim (get_components registry reqs) [
    | none ↦ (w, rejected)
    | some entities ↦
        let made = s.create_tx w (components_of entities) in
        elim made.1 [
          | none ↦ (made.0, rejected)
          | some tx_id ↦
              let done = two_phase_commit registry created_before schedule tx_id made.0 entities in
              (done.0, committed tx_id done.1 done.2)
        ]
  ]

  -- the transactions, which the source advances in goroutines, one after another
  unfoldable pub batch_advance_progress :
      List (Bytes × C) → ℕ → W → List Transaction → W × List Call × Bool
  unfolding advance_progress
  batch_advance_progress registry created_before w [] = (w, [], false)
  batch_advance_progress registry created_before w (tx ∷ txs) =
      let first = advance_progress s registry created_before w tx in
      let rest = batch_advance_progress registry created_before first.0 txs in
      (rest.0, first.1 ++ rest.1, is_error first.2 || rest.2)

  -- a round of `run`, with whether the next one waits longer
  unfoldable pub monitor_round : List (Bytes × C) → ℕ → W → W × List Call × Bool
  unfolding batch_advance_progress
  monitor_round registry created_before w =
      let locked = s.lock w in
      if locked.1
      then elim (s.get_hanging_txs locked.0) [
        | none ↦ (s.unlock locked.0, [], true)
        | some txs ↦
            let done = batch_advance_progress registry created_before locked.0 txs in
            (s.unlock done.0, done.1, done.2)
      ]
      else (locked.0, [], false)

-- backOffTick, for ticks that stay within int64
unfoldable pub back_off_tick : ℕ → ℕ → ℕ
back_off_tick monitor_tick tick =
    if ltb (8 * monitor_tick) (2 * tick) then 8 * monitor_tick else 2 * tick

-- the wait before a round of `run`
unfoldable pub next_tick : ℕ → Bool → ℕ → ℕ
unfolding back_off_tick
next_tick monitor_tick failing tick =
    if failing then back_off_tick monitor_tick tick else monitor_tick
