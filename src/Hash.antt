-- ===== src/Hash.antt =====
-- The consistent hashing service of apps/consistent_hash (consistent_hash.go, migration.go, encryptor.go,
-- option.go): nodes and data keys on a ring that the user supplies. The ring is a parameter, a state W
-- and the calls of the interface HashRing on it, and so is the encryptor, a function from strings to
-- scores. A score is the bit pattern of an int32. The migrator's tasks are part of what a call returns.
pub mod Range
pub mod Arc
pub mod Contract
pub mod Names
pub mod Migrate
pub mod Owned
pub mod Settle
pub mod Between
pub mod Adding
pub mod Getting
pub mod Without
pub mod Passing
pub mod Leaving
pub mod Parting
pub mod Handing
pub mod Handed
pub mod Removed
pub mod Removal
pub mod Ending
pub mod Plain
mod Tests
use swifty_go.Prelude.{
  ℕ, suc, zero, ◌+◌, ◌-◌, ◌*◌, ◌/◌, ◌%◌, Bool, true, false, Option, none, some, List, [], ◌∷◌, ◌++◌,
  ◌||◌, ◌&&◌, not, if◌then◌else◌, length, ltb, leb, ◌==◌, word32, half32, add32, sub32, leb_int32,
  Bytes, bytes_eq, lookup, decimal,
}

-- math.MaxInt32, and -1
abbrev pub max_int32 : ℕ
max_int32 = 2147483647

abbrev pub minus_one : ℕ
minus_one = 4294967295

abbrev pub lt_int32 : ℕ → ℕ → Bool
lt_int32 a b = not (leb_int32 b a)

-- the interface HashRing; a result false or none is an error
pub record HashRing (W : Type 0) : Type 0 where
  pub lock : W → ℕ → W × Bool
  pub unlock : W → W
  pub add : W → ℕ → Bytes → W × Bool
  pub ceiling : W → ℕ → Option ℕ
  pub floor : W → ℕ → Option ℕ
  pub rem : W → ℕ → Bytes → W × Bool
  pub nodes : W → Option (List (Bytes × ℕ))
  pub add_node_to_replica : W → Bytes → ℕ → W × Bool
  pub delete_node_to_replica : W → Bytes → W × Bool
  pub node : W → ℕ → Option (List Bytes)
  pub data_keys : W → Bytes → Option (List Bytes)
  pub add_node_to_data_keys : W → Bytes → List Bytes → W × Bool
  pub delete_node_to_data_keys : W → Bytes → List Bytes → W × Bool

-- the options, and whether there is a migrator
pub record Options : Type 0 where
  pub lock_expire_seconds : ℕ
  pub replicas : ℕ
  pub has_migrator : Bool

unfoldable pub repair : Options → Options
repair o = record o {
  lock_expire_seconds = if o.lock_expire_seconds == 0 then 15 else o.lock_expire_seconds;
  replicas = if o.replicas == 0 then 5 else o.replicas;
}

-- FnvHasher.Encrypt, from the 32-bit sum of a string
unfoldable pub fnv_encrypt : (Bytes → ℕ) → Bytes → ℕ
fnv_encrypt sum32 origin = sum32 origin % max_int32

-- weights below zero are zero here: the source makes the same of them
unfoldable pub get_valid_weight : ℕ → ℕ
get_valid_weight weight = if leb weight 0 then 1 else (if leb 10 weight then 10 else weight)

-- "%s_%d"
unfoldable pub get_raw_node_key : Bytes → ℕ → Bytes
unfolding decimal
get_raw_node_key node_id index = node_id ++ (95 ∷ decimal (suc index) index)

-- strings.LastIndex for a byte
unfoldable pub last_index : ℕ → Bytes → Option ℕ
last_index c [] = none
last_index c (x ∷ xs) = elim (last_index c xs) [
  | some i ↦ some (suc i)
  | none ↦ if x == c then some 0 else none
]

abbrev pub prefix : ℕ → Bytes → Bytes
prefix zero xs = []
prefix (suc n) [] = []
prefix (suc n) (x ∷ xs) = x ∷ prefix n xs

unfoldable pub get_node_id : Bytes → Bytes
unfolding last_index
get_node_id raw_node_key = elim (last_index 95 raw_node_key) [
  | none ↦ raw_node_key
  | some index ↦ prefix index raw_node_key
]

unfoldable pub incr_score : ℕ → ℕ
incr_score score = if score == sub32 max_int32 1 then 0 else add32 score 1

unfoldable pub decrease_score : ℕ → ℕ
decrease_score score = if score == 0 then sub32 max_int32 1 else sub32 score 1

-- whether a data key's score is in the range of the new virtual node, as migrateIn tests it
unfoldable pub in_range : ℕ → ℕ → ℕ → ℕ → Bool
in_range last_score virtual_score next_score data_score =
    let pattern_one = lt_int32 virtual_score last_score in
    let pattern_two = lt_int32 next_score virtual_score in
    let last' = if pattern_one then sub32 last_score max_int32 else last_score in
    let upper = if pattern_two then sub32 virtual_score max_int32 else virtual_score in
    let last = if pattern_two then sub32 last' max_int32 else last' in
    let data_score' =
      if pattern_one && lt_int32 (add32 last max_int32) data_score
      then sub32 data_score max_int32
      else data_score in
    let moved = if pattern_two then sub32 data_score' max_int32 else data_score' in
    not (leb_int32 moved last || lt_int32 upper moved)

abbrev pub filter : (Bytes → Bool) → List Bytes → List Bytes
filter p [] = []
filter p (k ∷ ks) = let rest = filter p ks in if p k then k ∷ rest else rest

-- what the migration returns: from, to, dataSet
pub record Move : Type 0 where
  pub from : Bytes
  pub to : Bytes
  pub data_set : List Bytes

abbrev pub no_move : Move
no_move = record { from = []; to = []; data_set = [] }

-- a result none is an error
module _ {W : Type 0} (r : HashRing W) (encrypt : Bytes → ℕ) (o : Options) where
  -- the writes that end migrateIn
  unfoldable pub move_keys : W → Bytes → Bytes → List Bytes → W × Option Move
  move_keys w from to data_set =
      let deleted = r.delete_node_to_data_keys w from data_set in
      elim deleted.1 [
        | false ↦ (deleted.0, none)
        | true ↦
            let added = r.add_node_to_data_keys deleted.0 to data_set in
            elim added.1 [
              | false ↦ (added.0, none)
              | true ↦ (added.0, some (record { from = from; to = to; data_set = data_set }))
            ]
      ]

  -- migrateIn from where it knows the scores around the new one
  unfoldable pub take_keys : W → ℕ → Bytes → ℕ → ℕ → W × Option Move
  unfolding move_keys in_range get_node_id
  take_keys w virtual_score node_id last_score next_score = elim (r.node w next_score) [
    | none ↦ (w, none)
    | some [] ↦ (w, some no_move)
    | some (n ∷ ns) ↦ elim (r.data_keys w (get_node_id n)) [
      | none ↦ (w, none)
      | some keys ↦
          move_keys w (get_node_id n) node_id
            (filter (λ k. in_range last_score virtual_score next_score (encrypt k)) keys)
    ]
  ]

  unfoldable pub migrate_between : W → ℕ → Bytes → W × Option Move
  unfolding take_keys incr_score decrease_score
  migrate_between w virtual_score node_id = elim (r.floor w (decrease_score virtual_score)) [
    | none ↦ (w, none)
    | some last ↦ elim (last == minus_one || last == virtual_score) [
      | true ↦ (w, some no_move)
      | false ↦ elim (r.ceiling w (incr_score virtual_score)) [
        | none ↦ (w, none)
        | some next ↦ elim (next == minus_one || next == virtual_score) [
          | true ↦ (w, some no_move)
          | false ↦ take_keys w virtual_score node_id last next
        ]
      ]
    ]
  ]

  unfoldable pub migrate_in : W → ℕ → Bytes → W × Option Move
  unfolding migrate_between
  migrate_in w virtual_score node_id = elim o.has_migrator [
    | false ↦ (w, some no_move)
    | true ↦ elim (r.node w virtual_score) [
      | none ↦ (w, none)
      | some ns ↦ elim (ltb 1 (length ns)) [
        | true ↦ (w, some no_move)
        | false ↦ migrate_between w virtual_score node_id
      ]
    ]
  ]

  -- the tasks of the migrator, less those that have nothing to move
  abbrev pub task : Move → List Move → List Move
  task m tasks = elim m.data_set [ [] ↦ tasks | k ∷ ks ↦ m ∷ tasks ]

  abbrev pub after_move : Move → W × Option (List Move) → W × Option (List Move)
  after_move m (w, none) = (w, none)
  after_move m (w, some tasks) = (w, some (task m tasks))

  -- the loop of AddNode, for n virtual nodes from i on
  unfoldable pub add_virtual : W → Bytes → ℕ → ℕ → W × Option (List Move)
  unfolding migrate_in get_raw_node_key
  add_virtual w node_id zero i = (w, some [])
  add_virtual w node_id (suc n) i =
      let node_key = get_raw_node_key node_id i in
      let score = encrypt node_key in
      let added = r.add w score node_key in
      let moved = migrate_in added.0 score node_id in
      let rest = add_virtual moved.0 node_id n (suc i) in
      elim added.1 [
        | false ↦ (added.0, none)
        | true ↦ elim moved.1 [ none ↦ (moved.0, none) | some m ↦ after_move m rest ]
      ]

  -- AddNode between the lock and the unlock
  unfoldable pub add_locked : W → Bytes → ℕ → W × Option (List Move)
  unfolding add_virtual get_valid_weight
  add_locked w node_id weight = elim (r.nodes w) [
    | none ↦ (w, none)
    | some nodes ↦ elim (lookup node_id nodes) [
      | some _ ↦ (w, none)
      | none ↦
          let replicas = get_valid_weight weight * o.replicas in
          let marked = r.add_node_to_replica w node_id replicas in
          elim marked.1 [
            | false ↦ (marked.0, none)
            | true ↦ add_virtual marked.0 node_id replicas 0
          ]
    ]
  ]

  abbrev pub unlocked : {A : Type 0} → W × Option A → W × Option A
  unlocked (w, res) = (r.unlock w, res)

  unfoldable pub add_node : W → Bytes → ℕ → W × Option (List Move)
  unfolding add_locked
  add_node w node_id weight =
      let locked = r.lock w o.lock_expire_seconds in
      elim locked.1 [
        | false ↦ (locked.0, none)
        | true ↦ unlocked (add_locked locked.0 node_id weight)
      ]

  -- GetNode between the lock and the unlock
  unfoldable pub get_locked : W → Bytes → W × Option Bytes
  unfolding get_node_id
  get_locked w data_key = elim (r.ceiling w (encrypt data_key)) [
    | none ↦ (w, none)
    | some score ↦ elim (score == minus_one) [
      | true ↦ (w, none)
      | false ↦ elim (r.node w score) [
        | none ↦ (w, none)
        | some [] ↦ (w, none)
        | some (n ∷ ns) ↦
            let stored = r.add_node_to_data_keys w (get_node_id n) (data_key ∷ []) in
            elim stored.1 [ false ↦ (stored.0, none) | true ↦ (stored.0, some (get_node_id n)) ]
      ]
    ]
  ]

  unfoldable pub get_node : W → Bytes → W × Option Bytes
  unfolding get_locked
  get_node w data_key =
      let locked = r.lock w o.lock_expire_seconds in
      elim locked.1 [ false ↦ (locked.0, none) | true ↦ unlocked (get_locked locked.0 data_key) ]
