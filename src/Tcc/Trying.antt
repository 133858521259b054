-- ===== src/Tcc/Trying.antt =====
-- The first phase of a transaction of apps/tcc_demo against the log.
use swifty_go.Prelude.{
  ℕ, suc, zero, ◌≡◌, ◌≢◌, refl, sym, ap, subst, ◌∙◌, Bool, true, false, not, ◌||◌, List, [], ◌∷◌,
  if◌then◌else◌, Bytes,
}
use swifty_go.Tcc.{TryStatus, try_successful, try_failure, Reply, failed, refused, acked, Services}
use swifty_go.Tcc.Manager.{
  Phase, waiting, tried, finished, Task, is_acked, task_step, step_at, run_schedule, finish_all,
}
use swifty_go.Tcc.Contract.{IsLog}

-- what a phase says of the status in the log
abbrev pub Agrees : Phase → TryStatus → Type 0
Agrees waiting st = st ≢ try_successful
Agrees (tried r) st = st ≢ try_successful
Agrees (finished true) st = st ≢ try_successful
Agrees (finished false) st = st ≡ try_successful

abbrev pub NotIn : Bytes → List Bytes → Type 0
NotIn i [] = Unit {0}
NotIn i (j ∷ js) = (i ≢ j) × NotIn i js

abbrev pub Distinct : List Bytes → Type 0
Distinct [] = Unit {0}
Distinct (i ∷ is) = NotIn i is × Distinct is

failure-ne : (st : TryStatus) → st ≡ try_failure → st ≢ try_successful
failure-ne st e = λ q. cc (sym e ∙ q)

-- what the update of the log with an answer makes of the status
verdict :
    (r : Reply) (b : Bool) (st st' : TryStatus)
    → st ≢ try_successful
    → (b ≡ true → st' ≡ (if is_acked r then try_successful else try_failure))
    → (b ≡ false → st' ≡ st)
    → Agrees (finished (not (is_acked r) || not b)) st'
verdict acked true st st' h done kept = done refl
verdict acked false st st' h done kept = λ e. h (sym (kept refl) ∙ e)
verdict failed true st st' h done kept = failure-ne st' (done refl)
verdict failed false st st' h done kept = λ e. h (sym (kept refl) ∙ e)
verdict refused true st st' h done kept = failure-ne st' (done refl)
verdict refused false st st' h done kept = λ e. h (sym (kept refl) ∙ e)

Agrees-same : (p : Phase) (a b : TryStatus) → a ≡ b → Agrees p a → Agrees p b
Agrees-same p a b e h = subst (Agrees p) e h

-- a goroutine is at its end
abbrev pub IsFinished : Phase → Type 0
IsFinished waiting = ⊥
IsFinished (tried r) = ⊥
IsFinished (finished b) = Unit {0}

abbrev pub AllFinished : {C : Type 0} {D : Type 0} → List (Task C D) → Type 0
AllFinished [] = Unit {0}
AllFinished (x ∷ xs) = IsFinished x.phase × AllFinished xs

module _ {C D W : Type 0} (s : Services C D W) (members : W → Bytes → List Bytes)
    (status : W → Bytes → Bytes → TryStatus) (l : IsLog s members status) (t : Bytes) where
  abbrev pub id_of : Task C D → Bytes
  id_of x = s.id x.component

  abbrev pub task_ids : List (Task C D) → List Bytes
  task_ids [] = []
  task_ids (x ∷ xs) = id_of x ∷ task_ids xs

  abbrev pub AllAgree : W → List (Task C D) → Type 0
  AllAgree w [] = Unit {0}
  AllAgree w (x ∷ xs) = Agrees x.phase (status w t (id_of x)) × AllAgree w xs

  -- what a step does to the log and to the task
  record IsStep (w w' : W) (x x' : Task C D) : Type 0 where
    same_component : x'.component ≡ x.component
    agrees : Agrees x.phase (status w t (id_of x)) → Agrees x'.phase (status w' t (id_of x))
    others : (j : Bytes) → id_of x ≢ j → status w' t j ≡ status w t j
    same_members : members w' t ≡ members w t

  abbrev task_of : C → D → Phase → Task C D
  task_of c d p = record { component = c; request = d; phase = p }

  phase-IsStep :
      (w : W) (c : C) (d : D) (p : Phase)
      → IsStep w
          (task_step s t w (task_of c d p)).0
          (task_of c d p)
          (task_step s t w (task_of c d p)).1
  unfolding task_step
  phase-IsStep w c d waiting = record {
    same_component = refl;
    agrees = λ h. λ e. h (sym (l.tries_status w c t (s.id c) d) ∙ e);
    others = λ j ne. l.tries_status w c t j d;
    same_members = l.tries_members w c t d;
  }
  phase-IsStep w c d (tried r) =
      let i = s.id c in
      let b = is_acked r in
      record {
        same_component = refl;
        agrees = λ h.
            verdict r (s.tx_update w t i b).1 (status w t i) (status (s.tx_update w t i b).0 t i) h
              (l.updated w t i b) (l.not_updated w t i b);
        others = λ j ne. l.updates_others w t i j b ne;
        same_members = l.updates_members w t i b;
      }
  phase-IsStep w c d (finished b) = record {
    same_component = refl;
    agrees = λ h. h;
    others = λ j ne. refl;
    same_members = refl;
  }

  task_step-IsStep : (w : W) (x : Task C D) → IsStep w (task_step s t w x).0 x (task_step s t w x).1
  task_step-IsStep w x = phase-IsStep w x.component x.request x.phase

  -- tasks whose ids are not touched still agree
  AllAgree-same :
      (w w' : W) (i : Bytes) (xs : List (Task C D))
      → ((j : Bytes) → i ≢ j → status w' t j ≡ status w t j)
      → NotIn i (task_ids xs)
      → AllAgree w xs
      → AllAgree w' xs
  AllAgree-same w w' i [] same out h = tt
  AllAgree-same w w' i (x ∷ xs) same out h = (
    Agrees-same x.phase (status w t (id_of x)) (status w' t (id_of x)) (sym (same (id_of x) out.0))
        h.0,
    AllAgree-same w w' i xs same out.1 h.1,
  )

  -- what steps of several tasks do
  pub record AreSteps (w w' : W) (xs xs' : List (Task C D)) : Type 0 where
    pub same_ids : task_ids xs' ≡ task_ids xs
    pub all_agree : Distinct (task_ids xs) → AllAgree w xs → AllAgree w' xs'
    pub all_others : (j : Bytes) → NotIn j (task_ids xs) → status w' t j ≡ status w t j
    pub all_members : members w' t ≡ members w t

  no_steps : (w : W) (xs : List (Task C D)) → AreSteps w w xs xs
  no_steps w xs = record {
    same_ids = refl;
    all_agree = λ d h. h;
    all_others = λ j out. refl;
    all_members = refl;
  }

  AreSteps-trans :
      (w w' w'' : W) (xs xs' xs'' : List (Task C D))
      → AreSteps w w' xs xs'
      → AreSteps w' w'' xs' xs''
      → AreSteps w w'' xs xs''
  AreSteps-trans w w' w'' xs xs' xs'' f g = record {
    same_ids = g.same_ids ∙ f.same_ids;
    all_agree = λ d h. g.all_agree (subst Distinct (sym f.same_ids) d) (f.all_agree d h);
    all_others =
        λ j out. g.all_others j (subst (NotIn j) (sym f.same_ids) out) ∙ f.all_others j out;
    all_members = g.all_members ∙ f.all_members;
  }

  -- a step of the first task
  head-AreSteps :
      (w w' : W) (x x' : Task C D) (xs : List (Task C D))
      → IsStep w w' x x'
      → AreSteps w w' (x ∷ xs) (x' ∷ xs)
  head-AreSteps w w' x x' xs f =
      let same : id_of x' ≡ id_of x = ap s.id f.same_component in
      record {
        same_ids = ap (λ i. i ∷ task_ids xs) same;
        all_agree = λ d h. (
          subst (λ i. Agrees x'.phase (status w' t i)) (sym same) (f.agrees h.0),
          AllAgree-same w w' (id_of x) xs f.others d.0 h.1,
        );
        all_others = λ j out. f.others j (λ e. out.0 (sym e));
        all_members = f.same_members;
      }

  -- steps of the others
  tail-AreSteps :
      (w w' : W) (x : Task C D) (xs xs' : List (Task C D))
      → AreSteps w w' xs xs'
      → AreSteps w w' (x ∷ xs) (x ∷ xs')
  tail-AreSteps w w' x xs xs' f = record {
    same_ids = ap (λ is. id_of x ∷ is) f.same_ids;
    all_agree = λ d h. (
      Agrees-same x.phase (status w t (id_of x)) (status w' t (id_of x))
          (sym (f.all_others (id_of x) d.0)) h.0,
      f.all_agree d.1 h.1,
    );
    all_others = λ j out. f.all_others j out.1;
    all_members = f.all_members;
  }

  step_at-AreSteps :
      (i : ℕ) (w : W) (xs : List (Task C D))
      → AreSteps w (step_at s t i w xs).0 xs (step_at s t i w xs).1
  unfolding step_at
  step_at-AreSteps i w [] = no_steps w []
  step_at-AreSteps zero w (x ∷ xs) = head-AreSteps w _ x _ xs (task_step-IsStep w x)
  step_at-AreSteps (suc i) w (x ∷ xs) = tail-AreSteps w _ x xs _ (step_at-AreSteps i w xs)

  run_schedule-AreSteps :
      (is : List ℕ) (w : W) (xs : List (Task C D))
      → AreSteps w (run_schedule s t is w xs).0 xs (run_schedule s t is w xs).1
  unfolding run_schedule
  run_schedule-AreSteps [] w xs = no_steps w xs
  run_schedule-AreSteps (i ∷ is) w xs =
      let first = step_at s t i w xs in
      AreSteps-trans w first.0 _ xs first.1 _ (step_at-AreSteps i w xs)
        (run_schedule-AreSteps is first.0 first.1)

  finish_all-AreSteps :
      (w : W) (xs : List (Task C D)) → AreSteps w (finish_all s t w xs).0 xs (finish_all s t w xs).1
  unfolding finish_all
  finish_all-AreSteps w [] = no_steps w []
  finish_all-AreSteps w (x ∷ xs) =
      let first = task_step s t w x in
      let second = task_step s t first.0 first.1 in
      AreSteps-trans w first.0 _ (x ∷ xs) (first.1 ∷ xs) _
        (head-AreSteps w first.0 x first.1 xs (task_step-IsStep w x))
        (AreSteps-trans first.0 second.0 _ (first.1 ∷ xs) (second.1 ∷ xs) _
          (head-AreSteps first.0 second.0 first.1 second.1 xs (task_step-IsStep first.0 first.1))
          (tail-AreSteps second.0 _ second.1 xs _ (finish_all-AreSteps second.0 xs)))

  two_steps :
      (w : W) (c : C) (d : D) (p : Phase)
      → let first = task_step s t w (task_of c d p) in
        IsFinished (task_step s t first.0 first.1).1.phase
  unfolding task_step
  two_steps w c d waiting = tt
  two_steps w c d (tried r) = tt
  two_steps w c d (finished b) = tt

  pub finish_all-AllFinished : (w : W) (xs : List (Task C D)) → AllFinished (finish_all s t w xs).1
  unfolding finish_all
  finish_all-AllFinished w [] = tt
  finish_all-AllFinished w (x ∷ xs) = (
    two_steps w x.component x.request x.phase,
    finish_all-AllFinished (task_step s t (task_step s t w x).0 (task_step s t w x).1).0 xs,
  )

  -- the whole first phase
  pub first_phase-AreSteps :
      (is : List ℕ) (w : W) (xs : List (Task C D))
      → let ran = run_schedule s t is w xs in
        AreSteps w (finish_all s t ran.0 ran.1).0 xs (finish_all s t ran.0 ran.1).1
  first_phase-AreSteps is w xs =
      let ran = run_schedule s t is w xs in
      AreSteps-trans w ran.0 _ xs ran.1 _ (run_schedule-AreSteps is w xs)
        (finish_all-AreSteps ran.0 ran.1)
