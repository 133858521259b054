-- ===== src/Cache/Lru/Spec.antt =====
-- What one level of the store of swifty_cache/lru.go promises: a list of slots in the order of use,
-- the last used one first, of which the dead ones are slots that are free again.
use swifty_go.Prelude.{
  ℕ, Bool, false, ◌||◌, Option, none, some, List, [], ◌∷◌, ◌++◌, if◌then◌else◌, length, ◌==◌, Bytes,
  bytes_eq,
}
use swifty_go.Cache.Lru.{Value, Slot, is_live}

abbrev pub has_key : Bytes → List Slot → Bool
has_key key [] = false
has_key key (s ∷ ss) = bytes_eq.same s.k key || has_key key ss

abbrev pub remove_key : Bytes → List Slot → List Slot
remove_key key [] = []
remove_key key (s ∷ ss) =
    let rest = remove_key key ss in if bytes_eq.same s.k key then ss else s ∷ rest

abbrev pub but_last : List Slot → List Slot
but_last [] = []
but_last (s ∷ []) = []
but_last (s ∷ t ∷ ss) = s ∷ but_last (t ∷ ss)

-- a put: the key's slot comes to the front, one that is new takes the place of the last if there is
-- no room
abbrev pub put_spec : ℕ → Bytes → Option Value → ℕ → List Slot → List Slot
put_spec capacity key val expire_at slots =
    record { k = key; v = val; expire_at = expire_at }
    ∷ (if has_key key slots
        then remove_key key slots
        else if length slots == capacity
        then but_last slots
        else slots)

-- the slot of a key, as a dead one at the end
abbrev pub bury_spec : Bytes → List Slot → List Slot
bury_spec key [] = []
bury_spec key (s ∷ ss) =
    let rest = bury_spec key ss in
    if bytes_eq.same s.k key then ss ++ (record s { expire_at = 0 } ∷ []) else s ∷ rest

-- the live slot of a key
abbrev pub live_slot : Bytes → List Slot → Option Slot
live_slot key [] = none
live_slot key (s ∷ ss) =
    let rest = live_slot key ss in
    if bytes_eq.same s.k key then (if is_live s.expire_at then some s else none) else rest

-- a deletion: a live slot of the key dies
abbrev pub del_spec : Bytes → List Slot → List Slot
del_spec key ss = elim (live_slot key ss) [ none ↦ ss | some s ↦ bury_spec key ss ]

-- the live slots
abbrev pub live : List Slot → List Slot
live [] = []
live (s ∷ ss) = let rest = live ss in if is_live s.expire_at then s ∷ rest else rest
