-- ===== src/Cache/Ring.antt =====
-- The consistent hash ring of swifty_cache/consistent_hash.go. The lock makes a method one step. The
-- hash function is a field of the configuration, a parameter of the model: uint32 of bytes. The
-- shares of GetStats are quotients in float64, and not in the model; the counts are.
pub mod Search
pub mod Next
pub mod Valid
pub mod Grow
pub mod Shrink
pub mod Moves
pub mod Runs
mod Tests
use swifty_go.Prelude.{
  decimal, ℕ, suc, zero, ◌+◌, ◌/◌, ◌%◌, Bool, true, false, Option, none, some, List, [], ◌∷◌, ◌++◌,
  ◌||◌, if◌then◌else◌, length, get_or, ltb, leb, ◌==◌, add64, nat_eq, Bytes, bytes_eq, lookup,
  insert, delete, sort_asc,
}

pub record ConHashConfig : Type 0 where
  pub default_replicas : ℕ
  pub hash_func : Bytes → ℕ

pub record ConsistentHashMap : Type 0 where
  pub config : ConHashConfig
  pub keys : List ℕ
  pub hash_map : List (ℕ × Bytes)
  pub node_hashes : List (Bytes × List ℕ)
  pub node_counts : List (Bytes × ℕ)
  pub total_requests : ℕ

-- NewConsistentHash with the configuration of its options
unfoldable pub new_consistent_hash : ConHashConfig → ConsistentHashMap
new_consistent_hash config = record {
  config = config;
  keys = [];
  hash_map = [];
  node_hashes = [];
  node_counts = [];
  total_requests = 0;
}

-- "%s-%d"
unfoldable pub virtual_node : Bytes → ℕ → Bytes
unfolding decimal
virtual_node node i = node ++ (45 ∷ decimal (suc i) i)

-- what the loop of addNodeLocked works on
pub record Placed : Type 0 where
  pub keys : List ℕ
  pub hash_map : List (ℕ × Bytes)
  pub hashes : List ℕ

unfoldable pub place_one : Bytes → ℕ → Placed → Placed
place_one node hash p = elim (lookup hash p.hash_map) [
  | some _ ↦ p
  | none ↦ record {
    keys = p.keys ++ (hash ∷ []);
    hash_map = insert hash node p.hash_map;
    hashes = p.hashes ++ (hash ∷ []);
  }
]

-- the loop of addNodeLocked, for n virtual nodes from i on
unfoldable pub place : (Bytes → ℕ) → Bytes → ℕ → ℕ → Placed → Placed
place hash_func node zero i p = p
place hash_func node (suc n) i p =
    place hash_func node n (suc i) (place_one node (hash_func (virtual_node node i)) p)

unfoldable pub add_node : ConsistentHashMap → Bytes → ℕ → ConsistentHashMap
add_node m node replicas = elim (lookup node m.node_hashes) [
  | some _ ↦ m
  | none ↦
      let p =
        place m.config.hash_func node replicas 0
          (record { keys = m.keys; hash_map = m.hash_map; hashes = [] }) in
      record m {
        keys = p.keys;
        hash_map = p.hash_map;
        node_hashes = insert node p.hashes m.node_hashes;
        node_counts = elim (lookup node m.node_counts) [
          | some _ ↦ m.node_counts
          | none ↦ insert node 0 m.node_counts
        ];
      }
]

-- the loop of Add
unfoldable pub add_nodes : ConsistentHashMap → List Bytes → ConsistentHashMap
add_nodes m [] = m
add_nodes m ([] ∷ nodes) = add_nodes m nodes
add_nodes m ((x ∷ xs) ∷ nodes) = add_nodes (add_node m (x ∷ xs) m.config.default_replicas) nodes

unfoldable pub sort_keys : ConsistentHashMap → ConsistentHashMap
sort_keys m = record m { keys = sort_asc m.keys }

-- Add; `none` is the error of no nodes
unfoldable pub add : ConsistentHashMap → List Bytes → Option ConsistentHashMap
add m [] = none
add m (node ∷ nodes) = some (sort_keys (add_nodes m (node ∷ nodes)))

unfoldable pub has_hash : ℕ → List ℕ → Bool
has_hash k [] = false
has_hash k (h ∷ hs) = k == h || has_hash k hs

unfoldable pub delete_hashes : List ℕ → List (ℕ × Bytes) → List (ℕ × Bytes)
delete_hashes [] m = m
delete_hashes (h ∷ hs) m = delete_hashes hs (delete h m)

-- the keys that are kept
unfoldable pub keep : List ℕ → List ℕ → List ℕ
unfolding has_hash
keep hashes [] = []
keep hashes (k ∷ ks) = let rest = keep hashes ks in if has_hash k hashes then rest else k ∷ rest

unfoldable pub remove_hashes : ConsistentHashMap → Bytes → List ℕ → ConsistentHashMap
remove_hashes m node hashes = record m {
  keys = keep hashes m.keys;
  hash_map = delete_hashes hashes m.hash_map;
  node_hashes = delete node m.node_hashes;
  node_counts = delete node m.node_counts;
}

pub data Removal : Type 0 where
  removed : ConsistentHashMap → Removal
  invalid_node not_found : Removal

unfoldable pub remove_node : ConsistentHashMap → Bytes → Removal
remove_node m node = elim (lookup node m.node_hashes) [
  | none ↦ not_found
  | some hashes ↦ removed (remove_hashes m node hashes)
]

unfoldable pub remove : ConsistentHashMap → Bytes → Removal
remove m [] = invalid_node
remove m (x ∷ xs) = remove_node m (x ∷ xs)

-- the loop of sort.Search, on the indices from i up to j
unfoldable pub search : ℕ → (ℕ → Bool) → ℕ → ℕ → ℕ
search zero test i j = i
search (suc fuel) test i j = elim (ltb i j) [
  | false ↦ i
  | true ↦
      let h = (i + j) / 2 in
      elim (test h) [ true ↦ search fuel test i h | false ↦ search fuel test (suc h) j ]
]

-- the key that a hash belongs to, in a ring that has keys
unfoldable pub next_key : List ℕ → ℕ → ℕ
next_key keys hash =
    let idx = search (length keys) (λ i. leb hash (get_or keys i 0)) 0 (length keys) in
    get_or keys (if idx == length keys then 0 else idx) 0

unfoldable pub node_at : List (ℕ × Bytes) → ℕ → Bytes
node_at hash_map k = elim (lookup k hash_map) [ some node ↦ node | none ↦ [] ]

unfoldable pub count : ConsistentHashMap → Bytes → ConsistentHashMap
count m node = record m {
  node_counts = elim (lookup node m.node_counts) [
    | some n ↦ insert node (add64 n 1) m.node_counts
    | none ↦ m.node_counts
  ];
  total_requests = add64 m.total_requests 1;
}

-- Get on the keys of a ring
unfoldable pub get_in : List ℕ → ConsistentHashMap → Bytes → ConsistentHashMap × Bytes
get_in [] m key = (m, [])
get_in (k ∷ ks) m key =
    let node = node_at m.hash_map (next_key (k ∷ ks) (m.config.hash_func key)) in
    (count m node, node)

unfoldable pub get : ConsistentHashMap → Bytes → ConsistentHashMap × Bytes
get m [] = (m, [])
get m (x ∷ xs) = get_in m.keys m (x ∷ xs)
