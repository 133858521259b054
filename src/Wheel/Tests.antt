-- ===== src/Wheel/Tests.antt =====
-- Runs of the time wheel of apps/time_wheel/time_wheel.go on concrete inputs.
use swifty_go.Prelude.{suc, zero, ◌/◌, ◌≡◌, ◌≢◌, refl, arith, [], ◌∷◌, Bytes}
use swifty_go.Wheel.{TimeWheel, new_time_wheel, tick, add_task}
use swifty_go.Wheel.Fires.{IsGone, runs_of, ticks}
use swifty_go.Wheel.Deadline.{delay_of, add_task-RunsAt}

abbrev job : Bytes
job = 106 ∷ []

-- four slots, a tick every 10 ns
abbrev wheel : TimeWheel
wheel = record {
  interval = 10;
  slots = [] ∷ [] ∷ [] ∷ [] ∷ [];
  cur_slot = 0;
  key_to_etask = [];
  next_ident = 0;
}

wheel_new : new_time_wheel 4 10 ≡ wheel
unfolding new_time_wheel
wheel_new = refl

wheel-IsGone : IsGone 0 wheel
wheel-IsGone zero = refl
wheel-IsGone (suc zero) = refl
wheel-IsGone (suc (suc zero)) = refl
wheel-IsGone (suc (suc (suc zero))) = refl
wheel-IsGone (suc (suc (suc (suc q)))) = refl

add_task-RunsAt_example :
    (5 ≡ delay_of 57 / 10 → runs_of 0 (tick (ticks (add_task wheel job 57) 5)).1 ≡ 1)
    × (5 ≢ delay_of 57 / 10 → runs_of 0 (tick (ticks (add_task wheel job 57) 5)).1 ≡ 0)
add_task-RunsAt_example =
    add_task-RunsAt wheel job 57 5 (omega arith) wheel-IsGone (omega arith) (omega arith)
      (omega arith)
