-- ===== src/Tcc/Atomic.antt =====
-- A transaction of apps/tcc_demo is confirmed or cancelled, and never both.
use swifty_go.Prelude.{
  bytes_eq, ℕ, ◌≡◌, ◌≢◌, ◌⊎◌, inl, inr, refl, sym, ap, subst, ◌∙◌, Bool, true, false, not,
  Bool-cases, some, Option-cases, List, [], ◌∷◌, ltb, Bytes, lookup,
}
use swifty_go.Tcc.{
  TryStatus, try_hanging, try_successful, try_failure, TxStatus, tx_hanging, tx_successful,
  tx_failure, Transaction, scan, get_status, Reply, failed, refused, acked, Services, Call,
  confirm_call, cancel_call, submit_call, second_call, after_call, second_phase, advance_progress,
  advance_progress_by_tx_id, confirm_or_cancel, Progress,
}
use swifty_go.Tcc.Manager.{
  Phase, waiting, tried, finished, Task, or_error, any_error, new_tasks, run_schedule, finish_all,
  two_phase_commit, components_of,
}
use swifty_go.Tcc.Contract.{IsLog, with_status, ids_of}
use swifty_go.Tcc.Trying.{
  Agrees, Distinct, AllAgree, AllFinished, IsFinished, task_ids, first_phase-AreSteps,
  finish_all-AllFinished,
}

-- the calls of a second phase that confirms, or one that cancels
abbrev pub IsOf : Bool → Call → Type 0
IsOf success (confirm_call i) = success ≡ true
IsOf success (cancel_call i) = success ≡ false
IsOf success (submit_call b) = b ≡ success

abbrev pub AllOf : Bool → List Call → Type 0
AllOf success [] = Unit {0}
AllOf success (c ∷ cs) = IsOf success c × AllOf success cs

scan_late : (late : Bool) (cs : List (Bytes × TryStatus)) → scan late true cs ≢ tx_successful
unfolding scan
scan_late true [] = λ e. cc e
scan_late false [] = λ e. cc e
scan_late late ((i, try_failure) ∷ cs) = λ e. cc e
scan_late late ((i, try_hanging) ∷ cs) = scan_late late cs
scan_late late ((i, try_successful) ∷ cs) = scan_late late cs

scan_none : (late : Bool) → scan late false [] ≡ tx_successful
unfolding scan
scan_none late = refl

scan_successful :
    (late h : Bool) (i : Bytes) (st : TryStatus) (cs : List (Bytes × TryStatus))
    → st ≡ try_successful
    → scan late h ((i, st) ∷ cs) ≡ scan late h cs
unfolding scan
scan_successful late h i st cs e = ap (λ u. scan late h ((i, u) ∷ cs)) e

scan_other :
    (late : Bool) (i : Bytes) (st : TryStatus) (cs : List (Bytes × TryStatus))
    → st ≢ try_successful
    → scan late false ((i, st) ∷ cs) ≢ tx_successful
unfolding scan
scan_other late i try_hanging cs ne = scan_late late cs
scan_other late i try_failure cs ne = λ e. cc e
scan_other late i try_successful cs ne = absurd (ne refl)

any_error_step :
    {C D : Type 0} (x : Task C D) (xs : List (Task C D))
    → or_error x.phase (any_error xs) ≡ any_error (x ∷ xs)
unfolding any_error
any_error_step x xs = refl

no_tasks : (C D : Type 0) → any_error {C = C} {D = D} [] ≡ true → ⊥
unfolding any_error
no_tasks C D e = cc e

no_error_head :
    (p : Phase) (st : TryStatus) (rest : Bool)
    → IsFinished p
    → Agrees p st
    → or_error p rest ≡ false
    → (st ≡ try_successful) × (rest ≡ false)
no_error_head waiting st rest f a e = absurd f
no_error_head (tried r) st rest f a e = absurd f
no_error_head (finished true) st rest f a e = absurd (cc e)
no_error_head (finished false) st rest f a e = (a, e)

error_head :
    (p : Phase) (st : TryStatus) (rest : Bool)
    → IsFinished p
    → Agrees p st
    → or_error p rest ≡ true
    → (st ≢ try_successful) ⊎ ((st ≡ try_successful) × (rest ≡ true))
error_head waiting st rest f a e = absurd f
error_head (tried r) st rest f a e = absurd f
error_head (finished true) st rest f a e = inl a
error_head (finished false) st rest f a e = inr (a, e)

module _ {C D W : Type 0} (s : Services C D W) where
  call-IsOf : (success : Bool) (i : Bytes) → IsOf success (second_call s success i)
  call-IsOf true i = refl
  call-IsOf false i = refl

  after_call-AllOf :
      (r : Reply) (success : Bool) (i : Bytes) (w : W) (rest : W × List Call × Progress)
      → AllOf success rest.1
      → AllOf success (after_call s r success i w rest).1
  after_call-AllOf failed success i w rest h = (call-IsOf success i, tt)
  after_call-AllOf refused success i w rest h = (call-IsOf success i, tt)
  after_call-AllOf acked success i w rest h = (call-IsOf success i, h)

  second_phase-AllOf :
      (registry : List (Bytes × C)) (success : Bool) (t : Bytes) (w : W)
      (cs : List (Bytes × TryStatus))
      → AllOf success (second_phase s registry success t w cs).1
  unfolding second_phase
  second_phase-AllOf registry success t w [] = (refl, tt)
  second_phase-AllOf registry success t w ((i, st) ∷ cs) = elim (Option-cases (lookup i registry)) [
    | inl new ↦ rw (new, second_phase) tt
    | inr (c, known) ↦
        let done = confirm_or_cancel s success w c t in
        rw (known, second_phase)
          (after_call-AllOf done.1 success i done.0 (second_phase s registry success t done.0 cs)
            (second_phase-AllOf registry success t done.0 cs))
  ]

  -- a transaction that has been successful is confirmed only, any other one cancelled only
  advance-confirms :
      (registry : List (Bytes × C)) (before : ℕ) (w : W) (tx : Transaction)
      → get_status tx before ≡ tx_successful
      → AllOf true (advance_progress s registry before w tx).1
  unfolding advance_progress
  advance-confirms registry before w tx e =
      rw (e, advance_progress) (second_phase-AllOf registry true tx.tx_id w tx.components)

  advance-cancels :
      (registry : List (Bytes × C)) (before : ℕ) (w : W) (tx : Transaction)
      → get_status tx before ≢ tx_successful
      → AllOf false (advance_progress s registry before w tx).1
  unfolding advance_progress
  advance-cancels registry before w tx ne = of_status (get_status tx before) refl
    where
      of_status :
          (st : TxStatus)
          → get_status tx before ≡ st
          → AllOf false (advance_progress s registry before w tx).1
      of_status tx_hanging e = rw (e, advance_progress) tt
      of_status tx_successful e = absurd (ne e)
      of_status tx_failure e =
          rw (e, advance_progress) (second_phase-AllOf registry false tx.tx_id w tx.components)

  module _ (members : W → Bytes → List Bytes) (status : W → Bytes → Bytes → TryStatus)
      (l : IsLog s members status) (t : Bytes) where
    -- what the log says once the goroutines are at their ends
    no_error-scan :
        (late : Bool) (w : W) (xs : List (Task C D))
        → AllAgree s members status l t w xs
        → AllFinished xs
        → any_error xs ≡ false
        → scan late false (with_status (status w t) (task_ids s members status l t xs))
          ≡ tx_successful
    no_error-scan late w [] a f e = scan_none late
    no_error-scan late w (x ∷ xs) a f e =
        let i = s.id x.component in
        let here =
          no_error_head x.phase (status w t i) (any_error xs) f.0 a.0 (any_error_step x xs ∙ e) in
        scan_successful late false i (status w t i)
          (with_status (status w t) (task_ids s members status l t xs)) here.0
        ∙ no_error-scan late w xs a.1 f.1 here.1

    error-scan :
        (late : Bool) (w : W) (xs : List (Task C D))
        → AllAgree s members status l t w xs
        → AllFinished xs
        → any_error xs ≡ true
        → scan late false (with_status (status w t) (task_ids s members status l t xs))
          ≢ tx_successful
    error-scan late w [] a f e = absurd (no_tasks C D e)
    error-scan late w (x ∷ xs) a f e =
        let i = s.id x.component in
        let rest = with_status (status w t) (task_ids s members status l t xs) in
        elim (error_head x.phase (status w t i) (any_error xs) f.0 a.0 (any_error_step x xs ∙ e)) [
          | inl bad ↦ scan_other late i (status w t i) rest bad
          | inr (good, more) ↦ λ q.
              error-scan late w xs a.1 f.1 more
                (sym (scan_successful late false i (status w t i) rest good) ∙ q)
        ]

    -- what the log says after the first phase of new tasks
    new_tasks-AllAgree :
        (w : W) (es : List (C × D))
        → ((i : Bytes) → status w t i ≢ try_successful)
        → AllAgree s members status l t w (new_tasks es)
    new_tasks-AllAgree w [] h = tt
    new_tasks-AllAgree w ((c, d) ∷ es) h = (h (s.id c), new_tasks-AllAgree w es h)

    new_tasks-ids :
        (es : List (C × D))
        → task_ids s members status l t (new_tasks es) ≡ ids_of s (components_of es)
    new_tasks-ids [] = refl
    new_tasks-ids ((c, d) ∷ es) = ap (λ is. s.id c ∷ is) (new_tasks-ids es)

    status-eq :
        (before : ℕ) (w : W) (tx : Transaction) (xs : List (Task C D))
        → s.get_tx w t ≡ some tx
        → members w t ≡ task_ids s members status l t xs
        → get_status tx before
          ≡ scan
              (ltb tx.created_at before)
              false
              (with_status (status w t) (task_ids s members status l t xs))
    unfolding get_status
    status-eq before w tx xs found known =
        ap (scan (ltb tx.created_at before) false)
          (l.read w t tx found ∙ ap (with_status (status w t)) known)

    -- the second phase, by what the log says
    by_log-AllOf :
        (registry : List (Bytes × C)) (before : ℕ) (w : W) (xs : List (Task C D))
        → members w t ≡ task_ids s members status l t xs
        → AllAgree s members status l t w xs
        → AllFinished xs
        → AllOf (not (any_error xs)) (advance_progress_by_tx_id s registry before w t).1
    unfolding advance_progress_by_tx_id
    by_log-AllOf registry before w xs known a f = elim (Option-cases (s.get_tx w t)) [
      | inl gone ↦ rw (gone, advance_progress_by_tx_id) tt
      | inr (tx, found) ↦
          let late = ltb tx.created_at before in
          let same = status-eq before w tx xs found known in
          rw (found, advance_progress_by_tx_id)
            (elim (Bool-cases (any_error xs)) [
              | inl bad ↦
                  subst (λ b. AllOf (not b) (advance_progress s registry before w tx).1) (sym bad)
                    (advance-cancels registry before w tx
                      (λ q. error-scan late w xs a f bad (sym same ∙ q)))
              | inr good ↦
                  subst (λ b. AllOf (not b) (advance_progress s registry before w tx).1) (sym good)
                    (advance-confirms registry before w tx
                      (same ∙ no_error-scan late w xs a f good))
            ])
    ]

    pub two_phase_commit-AllOf :
        (registry : List (Bytes × C)) (before : ℕ) (schedule : List ℕ) (w : W) (es : List (C × D))
        → members w t ≡ ids_of s (components_of es)
        → Distinct (ids_of s (components_of es))
        → ((i : Bytes) → status w t i ≢ try_successful)
        → let done = two_phase_commit s registry before schedule t w es in AllOf done.2 done.1
    unfolding two_phase_commit
    two_phase_commit-AllOf registry before schedule w es known apart h =
        let xs = new_tasks es in
        let ran = run_schedule s t schedule w xs in
        let done = finish_all s t ran.0 ran.1 in
        let f = first_phase-AreSteps s members status l t schedule w xs in
        let ids = new_tasks-ids es in
        by_log-AllOf registry before done.0 done.1
          (f.all_members ∙ known ∙ sym ids ∙ sym f.same_ids)
          (f.all_agree (subst Distinct (sym ids) apart) (new_tasks-AllAgree w es h))
          (finish_all-AllFinished s members status l t ran.0 ran.1)
