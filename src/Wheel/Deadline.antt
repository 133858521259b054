-- ===== src/Wheel/Deadline.antt =====
-- A task that is added to the wheel of apps/time_wheel/time_wheel.go runs at its deadline.
use native.Mathlib.Nat.{
  mod-lt, div-div-eq-div-mul, mul_comm, mod-add-div', mod-eq_of_lt, add-mod-mod,
}
use swifty_go.Prelude.{
  ℕ, suc, zero, ◌+◌, ◌*◌, ◌/◌, ◌%◌, ◌≡◌, ◌≢◌, ◌<◌, ◌⊎◌, inl, inr, refl, sym, ap, subst, ◌∙◌, arith,
  if◌then◌else◌, Option-cases, List, [], ◌∷◌, ◌++◌, length, length-set, get_or, get_or-set_self,
  get_or-set_ne, set, ltb, half64, word64, add64_exact, Bytes, bytes_eq, lookup,
}
use swifty_go.Wheel.{
  TaskElement, TimeWheel, tick, get_pos_and_circle, remove_element, remove_task, push_back,
  add_task,
}
use swifty_go.Wheel.Fires.{
  cycles_of, runs_of, IsPlaced, IsGone, IsTurning, ticks, RunsAt, placed-RunsAt,
}

set-reads :
    (xs : List (List TaskElement)) (i j : ℕ) (v : List TaskElement)
    → (get_or (set xs i v) j [] ≡ v) ⊎ (get_or (set xs i v) j [] ≡ get_or xs j [])
set-reads [] i j v = inr refl
set-reads (x ∷ xs) zero zero v = inl refl
set-reads (x ∷ xs) zero (suc j) v = inr refl
set-reads (x ∷ xs) (suc i) zero v = inr refl
set-reads (x ∷ xs) (suc i) (suc j) v = set-reads xs i j v

remove_element-absent :
    (n m : ℕ) (es : List TaskElement) → cycles_of n es ≡ [] → cycles_of n (remove_element m es) ≡ []
unfolding remove_element
remove_element-absent n m [] h = refl
remove_element-absent n m (e ∷ es) h = ground (arith, remove_element-absent n m es)

cycles_of-append :
    (n : ℕ) (es : List TaskElement) (e : TaskElement)
    → e.ident ≡ n
    → cycles_of n es ≡ []
    → cycles_of n (es ++ (e ∷ [])) ≡ e.cycle ∷ []
cycles_of-append n [] e h g = ground arith
cycles_of-append n (x ∷ es) e h g = ground (arith, cycles_of-append n es e)

remove_task-IsGone :
    (n : ℕ) (t : TimeWheel) (key : Bytes)
    → IsGone n t
    → IsGone n (remove_task t key) × (length (remove_task t key).slots ≡ length t.slots)
unfolding remove_task
remove_task-IsGone n t key g = elim (Option-cases (lookup key t.key_to_etask)) [
  | inl new ↦ rw (new, remove_task) (g, refl)
  | inr (e, known) ↦
      rw (known, remove_task)
        (
          λ q. elim (set-reads t.slots e.pos q (remove_element e.ident (get_or t.slots e.pos []))) [
            | inl w ↦
                ap (cycles_of n) w
                ∙ remove_element-absent n e.ident (get_or t.slots e.pos []) (g e.pos)
            | inr w ↦ ap (cycles_of n) w ∙ g q
          ],
          length-set t.slots e.pos _,
        )
]

remove_task-keeps :
    (t : TimeWheel) (key : Bytes)
    → ((remove_task t key).cur_slot ≡ t.cur_slot) × ((remove_task t key).next_ident ≡ t.next_ident)
unfolding remove_task
remove_task-keeps t key = ground arith

push_back-IsPlaced :
    (t : TimeWheel) (e : TaskElement)
    → e.pos < length t.slots
    → IsGone e.ident t
    → IsPlaced e.ident e.pos e.cycle (push_back t e)
unfolding push_back
push_back-IsPlaced t e h g = (
  ap (cycles_of e.ident) (get_or-set_self t.slots e.pos (get_or t.slots e.pos [] ++ (e ∷ [])) [] h)
      ∙ cycles_of-append e.ident (get_or t.slots e.pos []) e refl (g e.pos),
  λ q ne. ap (cycles_of e.ident) (get_or-set_ne t.slots e.pos q _ [] (λ w. ne (sym w))) ∙ g q,
)

-- the delay of a task, from time.Until
abbrev pub delay_of : ℕ → ℕ
delay_of until = if ltb until half64 then until else 0

pos-eq :
    (t : TimeWheel) (until : ℕ)
    → t.cur_slot + delay_of until / t.interval < half64
    → (get_pos_and_circle t until).0
      ≡ (t.cur_slot + (delay_of until / t.interval) % length t.slots) % length t.slots
unfolding get_pos_and_circle
pos-eq t until near =
    ap (λ (k : ℕ). k % length t.slots)
      (add64_exact t.cur_slot (delay_of until / t.interval) (omega arith))
    ∙ sym (add-mod-mod t.cur_slot (delay_of until / t.interval) (length t.slots))

cycle-eq :
    (t : TimeWheel) (until : ℕ)
    → length t.slots * t.interval < half64
    → (get_pos_and_circle t until).1 ≡ delay_of until / t.interval / length t.slots
unfolding get_pos_and_circle
cycle-eq t until whole =
    let turn : (length t.slots * t.interval) % word64 ≡ t.interval * length t.slots =
      mod-eq_of_lt (omega arith) ∙ mul_comm (length t.slots) t.interval in
    ap (λ (k : ℕ). delay_of until / k) turn
    ∙ sym (div-div-eq-div-mul (delay_of until) t.interval (length t.slots))

pos-below :
    (t : TimeWheel) (until : ℕ) → IsTurning t → (get_pos_and_circle t until).0 < length t.slots
unfolding get_pos_and_circle
pos-below t until turning = mod-lt _ (omega arith)

-- the element that addTask makes
new_element : TimeWheel → Bytes → ℕ → TaskElement
new_element t key until = record {
  ident = t.next_ident;
  key = key;
  pos = (get_pos_and_circle t until).0;
  cycle = (get_pos_and_circle t until).1;
}

add_task-IsPlaced :
    (t : TimeWheel) (key : Bytes) (until : ℕ)
    → IsTurning t
    → IsGone t.next_ident t
    → IsPlaced t.next_ident
        (get_pos_and_circle t until).0
        (get_pos_and_circle t until).1
        (add_task t key until)
unfolding add_task new_element
add_task-IsPlaced t key until turning fresh =
    let removed = remove_task-IsGone t.next_ident t key fresh in
    push_back-IsPlaced (remove_task t key) (new_element t key until)
      (omega (arith, removed.1, pos-below t until turning)) removed.0

add_task-turns :
    (t : TimeWheel) (key : Bytes) (until : ℕ)
    → IsGone t.next_ident t
    → (length (add_task t key until).slots ≡ length t.slots)
      × ((add_task t key until).cur_slot ≡ t.cur_slot)
unfolding add_task push_back
add_task-turns t key until fresh = (
  length-set (remove_task t key).slots _ _ ∙ (remove_task-IsGone t.next_ident t key fresh).1,
  (remove_task-keeps t key).0,
)

-- A task that is added with a delay of `until` nanoseconds, or one that is overdue, of which the
-- delay counts as 0, runs in the tick after `delay / interval` others, exactly once, and in no other
-- tick: that is, in the first tick whose turn the whole intervals of its delay have brought. The
-- wheel turns without further tasks being added or removed; its whole turn and the position stay
-- within int64, and the number of the new element is not in use.
pub add_task-RunsAt :
    (t : TimeWheel) (key : Bytes) (until j : ℕ)
    → IsTurning t
    → IsGone t.next_ident t
    → 0 < t.interval
    → length t.slots * t.interval < half64
    → t.cur_slot + delay_of until / t.interval < half64
    → (j ≡ delay_of until / t.interval
        → runs_of t.next_ident (tick (ticks (add_task t key until) j)).1 ≡ 1)
      × (j ≢ delay_of until / t.interval
          → runs_of t.next_ident (tick (ticks (add_task t key until) j)).1 ≡ 0)
add_task-RunsAt t key until j turning fresh pace whole near =
    let size = length t.slots in
    let turns = delay_of until / t.interval in
    let kept = add_task-turns t key until fresh in
    let at : (get_pos_and_circle t until).0
        ≡ ((add_task t key until).cur_slot + turns % size) % size =
      pos-eq t until near ∙ ap (λ (k : ℕ). (k + turns % size) % size) (sym kept.1) in
    let placed =
      subst (λ c. IsPlaced t.next_ident (get_pos_and_circle t until).0 c (add_task t key until))
        (cycle-eq t until whole) (add_task-IsPlaced t key until turning fresh) in
    subst (λ k. RunsAt t.next_ident (add_task t key until) k j) (mod-add-div' turns size)
      (placed-RunsAt t.next_ident (add_task t key until) size (turns % size) (turns / size) j kept.0
        (omega (arith, kept.1)) (mod-lt turns (omega arith))
        (subst (λ p. IsPlaced t.next_ident p (turns / size) (add_task t key until)) at placed))
