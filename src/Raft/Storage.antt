-- ===== src/Raft/Storage.antt =====
-- MemoryStorage of apps/raft_demo/raft/storage.go. Its mutex is held for the whole of each method,
-- so a method is one step.
pub mod Persist
use swifty_go.Prelude.{
  ℕ, ◌-◌, ◌&&◌, none, some, List, [], ◌∷◌, ◌++◌, ltb, leb, ◌==◌, if◌then◌else◌, length, take, drop,
  get_elem?, half64, add64, sub64,
}
use swifty_go.Raft.Model.{
  Entry, zero_entry, HardState, empty_hard_state, compacted, unavailable, Outcome, ok, err, panic,
  ◌>>=◌,
}

-- `xs[lo:hi]` for bounds within the length (up to the capacity Go would reslice; no caller does)
unfoldable pub slice {ℓ} : {A : Type ℓ} → List A → ℕ → ℕ → Outcome (List A)
slice xs lo hi = if leb lo hi && leb hi (length xs) then ok (take (hi - lo) (drop lo xs)) else panic

-- `xs[i]`
unfoldable pub index {ℓ} : {A : Type ℓ} → List A → ℕ → Outcome A
index xs i = elim (get_elem? xs i) [ none ↦ panic | some a ↦ ok a ]

pub record MemoryStorage : Type 0 where
  pub hard_state : HardState
  pub entries : List Entry

unfoldable pub new_memory_storage : MemoryStorage
new_memory_storage = record { hard_state = empty_hard_state; entries = zero_entry ∷ [] }

-- the hard state, and the node ids of the empty ConfState
unfoldable pub initial_state : MemoryStorage → HardState × List ℕ
initial_state m = (m.hard_state, [])

-- `m.entries[0].Index`
unfoldable pub base : MemoryStorage → Outcome ℕ
base m = elim m.entries [ [] ↦ panic | e ∷ _ ↦ ok e.index ]

unfoldable pub last_index : MemoryStorage → Outcome ℕ
last_index m = do offset ← base m; ok (sub64 (add64 offset (length m.entries)) 1)

unfoldable pub first_index : MemoryStorage → Outcome ℕ
first_index m = do offset ← base m; ok (add64 offset 1)

unfoldable pub entries : MemoryStorage → ℕ → ℕ → Outcome (List Entry)
entries m l r = do
  offset ← base m
  last ← last_index m
  if leb l offset
      then err compacted
      else if ltb (add64 last 1) r
      then err unavailable
      else if length m.entries == 1
      then err unavailable
      else slice m.entries (sub64 l offset) (sub64 r offset)

-- `int(i-offset)` of 2 ^ 63 and above is negative, and then the index is out of range.
unfoldable pub term : MemoryStorage → ℕ → Outcome ℕ
term m i = do
  offset ← base m
  if ltb i offset
      then err compacted
      else if ltb (sub64 i offset) half64 && leb (length m.entries) (sub64 i offset)
      then err unavailable
      else index m.entries (sub64 i offset) >>= λ e. ok e.term

unfoldable pub append : MemoryStorage → List Entry → Outcome MemoryStorage
append m [] = ok m
append m (e ∷ es) = do
  offset ← base m
  last ← last_index m
  if ltb e.index offset
      then ok m
      else if ltb (add64 last 1) e.index
      then err unavailable
      else slice m.entries 0 (sub64 e.index offset) >>= λ kept.
          ok (record m { entries = kept ++ (e ∷ es) })

unfoldable pub set_hard_state : MemoryStorage → HardState → MemoryStorage
set_hard_state m hs = record m { hard_state = hs }
