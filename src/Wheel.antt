-- ===== src/Wheel.antt =====
-- The time wheel of apps/time_wheel/time_wheel.go. Its goroutine handles one event at a time: a tick,
-- a task to add or a key to remove. An element of a slot's list has a number of its own, by which
-- the index of the keys points to it. Durations are int64 bit patterns, in nanoseconds.
pub mod Fires
pub mod Deadline
mod Tests
use swifty_go.Prelude.{
  ℕ, suc, zero, ◌+◌, ◌-◌, ◌*◌, ◌/◌, ◌%◌, Bool, true, false, Option, none, some, List, [], ◌∷◌, ◌++◌,
  if◌then◌else◌, length, get_or, set, replicate, ltb, ◌==◌, half64, word64, add64, Bytes, bytes_eq,
  lookup, insert, delete,
}

pub record TaskElement : Type 0 where
  pub ident : ℕ
  pub key : Bytes
  pub pos : ℕ
  pub cycle : ℕ

-- a *list.Element: the number of the element and its list
pub record Pointer : Type 0 where
  pub ident : ℕ
  pub pos : ℕ

pub record TimeWheel : Type 0 where
  pub interval : ℕ
  pub slots : List (List TaskElement)
  pub cur_slot : ℕ
  pub key_to_etask : List (Bytes × Pointer)
  -- the number of the next element
  pub next_ident : ℕ

-- an int64 that is positive
abbrev positive : ℕ → ℕ → ℕ
positive n d = if ltb 0 n then (if ltb n half64 then n else d) else d

unfoldable pub new_time_wheel : ℕ → ℕ → TimeWheel
new_time_wheel slot_num interval = record {
  interval = positive interval 1000000000;
  slots = replicate (positive slot_num 10) [];
  cur_slot = 0;
  key_to_etask = [];
  next_ident = 0;
}

-- execute: the elements that stay, and those that run
unfoldable pub execute : List TaskElement → List TaskElement × List TaskElement
execute [] = ([], [])
execute (e ∷ es) =
    let rest = execute es in
    if ltb 0 e.cycle
    then ((record e { cycle = e.cycle - 1 }) ∷ rest.0, rest.1)
    else (rest.0, e ∷ rest.1)

unfoldable pub forget : List TaskElement → List (Bytes × Pointer) → List (Bytes × Pointer)
forget [] index = index
forget (e ∷ es) index = forget es (delete e.key index)

unfoldable pub circular_incr : TimeWheel → TimeWheel
circular_incr t = record t { cur_slot = (t.cur_slot + 1) % length t.slots }

-- a tick, with the elements that run
unfoldable pub tick : TimeWheel → TimeWheel × List TaskElement
unfolding circular_incr
tick t =
    let done = execute (get_or t.slots t.cur_slot []) in
    (
      circular_incr (record t {
        slots = set t.slots t.cur_slot done.0;
        key_to_etask = forget done.1 t.key_to_etask;
      }),
      done.1,
    )

-- the position and the cycle of a task, from time.Until of its time
unfoldable pub get_pos_and_circle : TimeWheel → ℕ → ℕ × ℕ
get_pos_and_circle t until =
    let delay = if ltb until half64 then until else 0 in
    (
      add64 t.cur_slot (delay / t.interval) % length t.slots,
      delay / ((length t.slots * t.interval) % word64),
    )

-- list.Remove of the element with this number
unfoldable pub remove_element : ℕ → List TaskElement → List TaskElement
remove_element n [] = []
remove_element n (e ∷ es) = let rest = remove_element n es in if e.ident == n then es else e ∷ rest

unfoldable pub remove_task : TimeWheel → Bytes → TimeWheel
remove_task t key = elim (lookup key t.key_to_etask) [
  | none ↦ t
  | some e ↦ record t {
    slots = set t.slots e.pos (remove_element e.ident (get_or t.slots e.pos []));
    key_to_etask = delete key t.key_to_etask;
  }
]

-- PushBack of the new element
unfoldable pub push_back : TimeWheel → TaskElement → TimeWheel
push_back t e = record t {
  slots = set t.slots e.pos (get_or t.slots e.pos [] ++ (e ∷ []));
  key_to_etask = insert e.key (record { ident = e.ident; pos = e.pos }) t.key_to_etask;
  next_ident = suc t.next_ident;
}

unfoldable pub add_task : TimeWheel → Bytes → ℕ → TimeWheel
add_task t key until =
    let at = get_pos_and_circle t until in
    let e : TaskElement = record { ident = t.next_ident; key = key; pos = at.0; cycle = at.1 } in
    push_back (remove_task t key) e
