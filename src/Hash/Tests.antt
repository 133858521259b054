-- ===== src/Hash/Tests.antt =====
-- The service of apps/consistent_hash on a plain ring.
use swifty_go.Prelude.{
  subst, false, insert, delete, bytes_eq, Bool-cases, ◌==◌, ◌≢◌, Has, inl, inr, lookup, decimal, ℕ,
  ◌+◌, ◌≡◌, ◌<◌, refl, sym, arith, true, Option, some, List, [], ◌∷◌, Bytes,
}
use swifty_go.Hash.{
  Options, Move, max_int32, fnv_encrypt, add_node, get_node, get_locked, get_node_id, migrate_in,
  migrate_between, take_keys, move_keys, add_virtual, get_raw_node_key,
}
use swifty_go.Hash.Names.{get_node_id-get_raw_node_key}
use swifty_go.Hash.Owned.{IsOwned}
use swifty_go.Hash.Migrate.{IsSettled}
use swifty_go.Hash.Adding.{add_node-IsSettled}
use swifty_go.Hash.Getting.{HasFound, get_node-HasFound}
use swifty_go.Hash.Ending.{get_valid_next_node-ends}
use swifty_go.Hash.Without.{without}
use swifty_go.Hash.Leaving.{AllNamed}
use swifty_go.Hash.Removed.{remove_node-IsSettled}
use swifty_go.Hash.Removal.{remove_node, get_valid_next_node, out_of_fuel}
use swifty_go.Hash.Plain.{
  drop_first, Plain, plain, at_plain, recorded_plain, IsPlain, holds, at_score, least_from,
  most_up_to, or_else, keys_of, hold_all, release_all,
}
use swifty_go.Hash.Plain.Search.{at_score-split}
use swifty_go.Hash.Plain.Lawful.{plain-IsHashRing}

-- a sum of the bytes for the hash
abbrev byte_sum : Bytes → ℕ
byte_sum [] = 0
byte_sum (x ∷ xs) = x + byte_sum xs

abbrev encrypt : Bytes → ℕ
encrypt k = fnv_encrypt byte_sum k

encrypt_small : (k : Bytes) → encrypt k < max_int32
unfolding fnv_encrypt
encrypt_small k = omega arith

abbrev options : Options
options = record { lock_expire_seconds = 15; replicas = 2; has_migrator = true }

abbrev empty_ring : Plain
empty_ring = record { virtual = []; held = []; counts = [] }

empty_ring-IsOwned :
    IsOwned plain IsPlain at_plain recorded_plain plain-IsHashRing encrypt empty_ring
unfolding holds
empty_ring-IsOwned n k e = absurd (cc e)

abbrev one_node : Plain × Option (List Move)
one_node = add_node plain encrypt options empty_ring (65 ∷ []) 1

one_node_added : one_node.1 ≡ some []
unfolding add_node get_locked migrate_in migrate_between take_keys move_keys add_virtual lookup
    at_score least_from most_up_to or_else fnv_encrypt get_raw_node_key decimal get_node_id keys_of
one_node_added = refl

abbrev one_key : Plain × Option Bytes
one_key = get_node plain encrypt options one_node.0 (210 ∷ [])

one_key_found : one_key.1 ≡ some (65 ∷ [])
unfolding add_node get_node migrate_in migrate_between take_keys move_keys add_virtual lookup
    at_score least_from most_up_to or_else fnv_encrypt get_raw_node_key decimal get_node_id keys_of
one_key_found = refl

-- the key moves to the node that is next to it now
abbrev two_nodes : Plain × Option (List Move)
two_nodes = add_node plain encrypt options one_key.0 (70 ∷ []) 1

two_nodes_added :
    two_nodes.1 ≡ some (record { from = 65 ∷ []; to = 70 ∷ []; data_set = (210 ∷ []) ∷ [] } ∷ [])
unfolding add_node get_node lookup at_score least_from most_up_to or_else fnv_encrypt decimal
    keys_of hold_all release_all insert
two_nodes_added = refl

one_node-IsSettled :
    IsSettled plain IsPlain at_plain recorded_plain plain-IsHashRing encrypt encrypt_small options
      empty_ring one_node.0
one_node-IsSettled =
    add_node-IsSettled plain IsPlain at_plain recorded_plain plain-IsHashRing encrypt encrypt_small
      options refl empty_ring (65 ∷ []) 1 [] tt empty_ring-IsOwned one_node_added

get_node-HasFound_example :
    HasFound plain IsPlain at_plain recorded_plain plain-IsHashRing encrypt encrypt_small options
      refl one_node.0 one_key.0
      (210 ∷ [])
      (65 ∷ [])
get_node-HasFound_example =
    get_node-HasFound plain IsPlain at_plain recorded_plain plain-IsHashRing encrypt encrypt_small
      options refl one_node.0 (210 ∷ []) (65 ∷ []) one_node-IsSettled.valid one_node-IsSettled.owned
      one_key_found

one_key-IsSettled :
    IsSettled plain IsPlain at_plain recorded_plain plain-IsHashRing encrypt encrypt_small options
      one_node.0 one_key.0
one_key-IsSettled =
    (get_node-HasFound plain IsPlain at_plain recorded_plain plain-IsHashRing encrypt encrypt_small
      options refl one_node.0 (210 ∷ []) (65 ∷ []) one_node-IsSettled.valid one_node-IsSettled.owned
      one_key_found).settled

add_node-IsSettled_example :
    IsSettled plain IsPlain at_plain recorded_plain plain-IsHashRing encrypt encrypt_small options
      one_key.0 two_nodes.0
add_node-IsSettled_example =
    add_node-IsSettled plain IsPlain at_plain recorded_plain plain-IsHashRing encrypt encrypt_small
      options refl one_key.0 (70 ∷ []) 1
      (record { from = 65 ∷ []; to = 70 ∷ []; data_set = (210 ∷ []) ∷ [] } ∷ [])
      one_key-IsSettled.valid one_key-IsSettled.owned two_nodes_added

two_nodes-IsSettled :
    IsSettled plain IsPlain at_plain recorded_plain plain-IsHashRing encrypt encrypt_small options
      one_key.0 two_nodes.0
two_nodes-IsSettled =
    add_node-IsSettled plain IsPlain at_plain recorded_plain plain-IsHashRing encrypt encrypt_small
      options refl one_key.0 (70 ∷ []) 1
      (record { from = 65 ∷ []; to = 70 ∷ []; data_set = (210 ∷ []) ∷ [] } ∷ [])
      one_key-IsSettled.valid one_key-IsSettled.owned two_nodes_added

-- both virtual nodes are of the one node: the search comes round and stops
abbrev ring_of_one : Plain
ring_of_one = record {
  virtual = (208, 65 ∷ 95 ∷ 48 ∷ []) ∷ (209, 65 ∷ 95 ∷ 49 ∷ []) ∷ [];
  held = [];
  counts = [];
}

two_scores : (j : ℕ) → at_plain ring_of_one j ≢ [] → Has j (208 ∷ 209 ∷ [])
unfolding at_score
two_scores j u = elim (at_score-split j 208 (65 ∷ 95 ∷ 48 ∷ []) ((209, 65 ∷ 95 ∷ 49 ∷ []) ∷ []) u) [
  | inl e ↦ inl (sym e)
  | inr u' ↦ elim (at_score-split j 209 (65 ∷ 95 ∷ 49 ∷ []) [] u') [
    | inl e ↦ inr (inl (sym e))
    | inr u'' ↦ absurd (u'' refl)
  ]
]

get_valid_next_node-ends_example :
    get_valid_next_node plain encrypt options 4 ring_of_one 208 (65 ∷ []) [] ≢ out_of_fuel
get_valid_next_node-ends_example =
    get_valid_next_node-ends plain IsPlain at_plain recorded_plain plain-IsHashRing encrypt options
      ring_of_one (omega arith, (omega arith, tt)) (65 ∷ []) (208 ∷ 209 ∷ []) 4 208 two_scores
      (omega arith) (omega arith)

-- an id with an underscore in it
get_node_id-get_raw_node_key_example :
    get_node_id (get_raw_node_key (65 ∷ 95 ∷ 66 ∷ []) 12) ≡ 65 ∷ 95 ∷ 66 ∷ []
get_node_id-get_raw_node_key_example = get_node_id-get_raw_node_key (65 ∷ 95 ∷ 66 ∷ []) 12

-- entries of nodes with a name, and of other nodes than one
abbrev AllNamedEntries : List (ℕ × Bytes) → Type 0
AllNamedEntries [] = Unit {0}
AllNamedEntries ((j, n) ∷ vs) = (get_node_id n ≢ []) × AllNamedEntries vs

abbrev AllOthers : Bytes → List (ℕ × Bytes) → Type 0
AllOthers node [] = Unit {0}
AllOthers node ((j, n) ∷ vs) = (bytes_eq.same (get_node_id n) node ≡ false) × AllOthers node vs

at_score-AllNamed : (j : ℕ) (vs : List (ℕ × Bytes)) → AllNamedEntries vs → AllNamed (at_score j vs)
unfolding at_score
at_score-AllNamed j [] a = tt
at_score-AllNamed j ((i, n) ∷ vs) a = elim (Bool-cases (i == j)) [
  | inl q ↦ rw (q, at_score) (a.0, at_score-AllNamed j vs a.1)
  | inr q ↦ rw (q, at_score) (at_score-AllNamed j vs a.1)
]

at_score-AllOthers :
    (node : Bytes) (j : ℕ) (vs : List (ℕ × Bytes))
    → AllOthers node vs
    → without node (at_score j vs) ≡ at_score j vs
unfolding at_score
at_score-AllOthers node j [] a = refl
at_score-AllOthers node j ((i, n) ∷ vs) a = elim (Bool-cases (i == j)) [
  | inl q ↦ rw (q, a.0, at_score-AllOthers node j vs a.1) refl
  | inr q ↦ rw (q, at_score-AllOthers node j vs a.1) refl
]

abbrev left : Plain × Option (List Move)
left = remove_node plain encrypt options 6 two_nodes.0 (70 ∷ [])

two_virtual :
    two_nodes.0.virtual
    ≡ (208, 65 ∷ 95 ∷ 48 ∷ [])
      ∷ (209, 65 ∷ 95 ∷ 49 ∷ [])
      ∷ (213, 70 ∷ 95 ∷ 48 ∷ [])
      ∷ (214, 70 ∷ 95 ∷ 49 ∷ [])
      ∷ []
unfolding add_node get_node lookup decimal fnv_encrypt at_score least_from most_up_to or_else
    keys_of hold_all release_all insert
two_virtual = refl

-- the key goes back
left_moves :
    left.1 ≡ some (record { from = 70 ∷ []; to = 65 ∷ []; data_set = (210 ∷ []) ∷ [] } ∷ [])
unfolding add_node get_node remove_node lookup decimal fnv_encrypt at_score least_from most_up_to
    or_else keys_of hold_all release_all drop_first insert delete
left_moves = refl

left_virtual : left.0.virtual ≡ (208, 65 ∷ 95 ∷ 48 ∷ []) ∷ (209, 65 ∷ 95 ∷ 49 ∷ []) ∷ []
unfolding add_node get_node remove_node lookup decimal fnv_encrypt at_score least_from most_up_to
    or_else keys_of hold_all release_all drop_first insert delete
left_virtual = refl

two_nodes-AllNamed : AllNamedEntries two_nodes.0.virtual
unfolding get_node_id
two_nodes-AllNamed =
    subst AllNamedEntries (sym two_virtual) (λ e. cc e, (λ e. cc e, (λ e. cc e, (λ e. cc e, tt))))

left-AllOthers : AllOthers (70 ∷ []) left.0.virtual
unfolding get_node_id
left-AllOthers = subst (AllOthers (70 ∷ [])) (sym left_virtual) (refl, (refl, tt))

remove_node-IsSettled_example :
    IsSettled plain IsPlain at_plain recorded_plain plain-IsHashRing encrypt encrypt_small options
      two_nodes.0 left.0
remove_node-IsSettled_example =
    remove_node-IsSettled plain IsPlain at_plain recorded_plain plain-IsHashRing encrypt
      encrypt_small options refl (70 ∷ []) 6 two_nodes.0
      (record { from = 70 ∷ []; to = 65 ∷ []; data_set = (210 ∷ []) ∷ [] } ∷ [])
      two_nodes-IsSettled.valid two_nodes-IsSettled.owned
      (λ j. at_score-AllNamed j two_nodes.0.virtual two_nodes-AllNamed) left_moves
      (λ j. at_score-AllOthers (70 ∷ []) j left.0.virtual left-AllOthers)
