-- ===== src/Hash/Removal.antt =====
-- RemoveNode of apps/consistent_hash/consistent_hash.go, with migrateOut and getValidNextNode of
-- migration.go. The search for the next node recurses along the ring, here on fuel.
use swifty_go.Prelude.{
  ℕ, suc, zero, Bool, true, false, Option, none, some, List, [], ◌∷◌, ◌||◌, ◌&&◌, not,
  if◌then◌else◌, ◌==◌, sub32, add32, leb_int32, Bytes, bytes_eq, lookup,
}
use swifty_go.Hash.{
  HashRing, Options, Move, no_move, max_int32, minus_one, lt_int32, filter, get_node_id,
  get_raw_node_key, incr_score, decrease_score, move_keys, after_move, unlocked,
}

-- whether a data key's score is in the range of the virtual node, as migrateOut tests it
unfoldable pub out_range : ℕ → ℕ → ℕ → Bool
out_range last_score virtual_score data_score =
    let pattern = lt_int32 virtual_score last_score in
    let last = if pattern then sub32 last_score max_int32 else last_score in
    let moved =
      if pattern && lt_int32 (add32 last max_int32) data_score
      then sub32 data_score max_int32
      else data_score in
    not (leb_int32 moved last || lt_int32 virtual_score moved)

-- a node, none, or an error
pub data NextNode : Type 0 where
  found : Bytes → NextNode
  not_found next_error out_of_fuel : NextNode

unfoldable pub is_ranged : ℕ → List ℕ → Bool
is_ranged s [] = false
is_ranged s (j ∷ js) = j == s || is_ranged s js

module _ {W : Type 0} (r : HashRing W) (encrypt : Bytes → ℕ) (o : Options) where
  -- the nodes at the next score: the first two are looked at
  abbrev pub other_node : Bytes → List Bytes → NextNode → NextNode
  other_node node_id [] rest = next_error
  other_node node_id (n ∷ ns) rest =
      if bytes_eq.same (get_node_id n) node_id
      then elim ns [ [] ↦ rest | m ∷ ms ↦ found (get_node_id m) ]
      else found (get_node_id n)

  unfoldable pub get_valid_next_node : ℕ → W → ℕ → Bytes → List ℕ → NextNode
  unfolding incr_score is_ranged
  get_valid_next_node zero w score node_id ranged = out_of_fuel
  get_valid_next_node (suc fuel) w score node_id ranged = elim (r.ceiling w (incr_score score)) [
    | none ↦ next_error
    | some next ↦ elim (next == minus_one || is_ranged next ranged) [
      | true ↦ not_found
      | false ↦
          let rest = get_valid_next_node fuel w next node_id (score ∷ ranged) in
          elim (r.node w next) [ none ↦ next_error | some ns ↦ other_node node_id ns rest ]
    ]
  ]

  -- the deferred writes
  abbrev pub finish : W → Bytes → Bytes → List Bytes → W × Option Move
  finish w from [] data_set = (w, some (record { from = from; to = []; data_set = data_set }))
  finish w from (x ∷ to) [] = (w, some (record { from = from; to = x ∷ to; data_set = [] }))
  finish w from (x ∷ to) (k ∷ ks) = move_keys r encrypt o w from (x ∷ to) (k ∷ ks)

  -- an empty name of a node is none
  abbrev pub finish_next : W → Bytes → List Bytes → NextNode → W × Option Move
  finish_next w node_id data_set (found []) = (w, none)
  finish_next w node_id data_set (found (x ∷ to)) = finish w node_id (x ∷ to) data_set
  finish_next w node_id data_set not_found = (w, none)
  finish_next w node_id data_set next_error = (w, none)
  finish_next w node_id data_set out_of_fuel = (w, none)

  -- migrateOut from where it knows the nodes at the score, after the first, and the node's data keys
  unfoldable pub migrate_keys : ℕ → W → ℕ → Bytes → List Bytes → List Bytes → W × Option Move
  unfolding get_valid_next_node out_range decrease_score
  migrate_keys fuel w virtual_score node_id others keys =
      elim (r.floor w (decrease_score virtual_score)) [
        | none ↦ (w, none)
        | some last ↦
            let only_score = last == minus_one || last == virtual_score in
            let data_set =
              filter (λ k. only_score || out_range last virtual_score (encrypt k)) keys in
            elim others [
              | m ∷ ms ↦ finish w node_id (get_node_id m) data_set
              | [] ↦ elim only_score [
                | true ↦ (w, none)
                | false ↦
                    finish_next w node_id data_set
                      (get_valid_next_node fuel w virtual_score node_id [])
              ]
            ]
      ]

  unfoldable pub migrate_out : ℕ → W → ℕ → Bytes → W × Option Move
  unfolding migrate_keys
  migrate_out fuel w virtual_score node_id = elim o.has_migrator [
    | false ↦ (w, some no_move)
    | true ↦ elim (r.node w virtual_score) [
      | none ↦ (w, none)
      | some [] ↦ finish w node_id [] []
      | some (n ∷ ns) ↦ elim (bytes_eq.same (get_node_id n) node_id) [
        | false ↦ finish w node_id [] []
        | true ↦ elim (r.data_keys w node_id) [
          | none ↦ (w, none)
          | some [] ↦ finish w node_id [] []
          | some (k ∷ ks) ↦ migrate_keys fuel w virtual_score node_id ns (k ∷ ks)
        ]
      ]
    ]
  ]

  -- the loop of RemoveNode, for n virtual nodes from i on
  unfoldable pub remove_virtual : ℕ → W → Bytes → ℕ → ℕ → W × Option (List Move)
  unfolding migrate_out get_raw_node_key
  remove_virtual fuel w node_id zero i = (w, some [])
  remove_virtual fuel w node_id (suc n) i =
      let node_key = get_raw_node_key node_id i in
      let score = encrypt node_key in
      let moved = migrate_out fuel w score node_id in
      let removed = r.rem moved.0 score node_key in
      let rest = remove_virtual fuel removed.0 node_id n (suc i) in
      elim moved.1 [
        | none ↦ (moved.0, none)
        | some m ↦ elim removed.1 [
          | false ↦ (removed.0, none)
          | true ↦ after_move r encrypt o m rest
        ]
      ]

  -- RemoveNode between the lock and the unlock
  unfoldable pub remove_locked : ℕ → W → Bytes → W × Option (List Move)
  unfolding remove_virtual
  remove_locked fuel w node_id = elim (r.nodes w) [
    | none ↦ (w, none)
    | some nodes ↦ elim (lookup node_id nodes) [
      | none ↦ (w, none)
      | some replicas ↦
          let unmarked = r.delete_node_to_replica w node_id in
          elim unmarked.1 [
            | false ↦ (unmarked.0, none)
            | true ↦ remove_virtual fuel unmarked.0 node_id replicas 0
          ]
    ]
  ]

  unfoldable pub remove_node : ℕ → W → Bytes → W × Option (List Move)
  unfolding remove_locked
  remove_node fuel w node_id =
      let locked = r.lock w o.lock_expire_seconds in
      elim locked.1 [
        | false ↦ (locked.0, none)
        | true ↦ unlocked r encrypt o (remove_locked fuel locked.0 node_id)
      ]
