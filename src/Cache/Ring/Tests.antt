-- ===== src/Cache/Ring/Tests.antt =====
-- Runs of the ring of swifty_cache/consistent_hash.go on concrete inputs.
use swifty_go.Prelude.{
  decimal, ℕ, ◌+◌, ◌*◌, ◌%◌, ◌≡◌, ◌⊎◌, inl, refl, sym, ap, get_or, subst, ◌∙◌, arith, some, List,
  [], ◌∷◌, Bytes, bytes_eq, lookup, insert, delete, sort_asc, insert_sorted,
}
use swifty_go.Cache.Ring.{
  ConHashConfig, ConsistentHashMap, new_consistent_hash, virtual_node, place_one, place, add_node,
  add_nodes, sort_keys, add, has_hash, delete_hashes, keep, remove_hashes, removed, remove_node,
  remove, search, next_key, node_at, count, get_in, get,
}
use swifty_go.Cache.Ring.Valid.{IsRing, Among}
use swifty_go.Cache.Ring.Moves.{add-moves, remove-keeps}
use swifty_go.Cache.Ring.Runs.{Call, add_call, remove_call, get_call, call, calls, calls-IsRing}

abbrev small_hash : Bytes → ℕ
small_hash [] = 0
small_hash (x ∷ xs) = (x + 7 * small_hash xs) % 1000

-- two virtual nodes for each node
abbrev config : ConHashConfig
config = record { default_replicas = 2; hash_func = small_hash }

abbrev two_nodes : List Call
two_nodes = add_call ((97 ∷ []) ∷ (98 ∷ []) ∷ []) ∷ []

abbrev ring : ConsistentHashMap
ring = record {
  config = config;
  keys = 764 ∷ 765 ∷ 813 ∷ 814 ∷ [];
  hash_map = (764, 97 ∷ []) ∷ (813, 97 ∷ []) ∷ (765, 98 ∷ []) ∷ (814, 98 ∷ []) ∷ [];
  node_hashes = (97 ∷ [], 764 ∷ 813 ∷ []) ∷ (98 ∷ [], 765 ∷ 814 ∷ []) ∷ [];
  node_counts = (97 ∷ [], 0) ∷ (98 ∷ [], 0) ∷ [];
  total_requests = 0;
}

-- with a third node
abbrev more : ConsistentHashMap
more = record {
  config = config;
  keys = 764 ∷ 765 ∷ 766 ∷ 813 ∷ 814 ∷ 815 ∷ [];
  hash_map =
      (764, 97 ∷ [])
      ∷ (813, 97 ∷ [])
      ∷ (765, 98 ∷ [])
      ∷ (814, 98 ∷ [])
      ∷ (766, 99 ∷ [])
      ∷ (815, 99 ∷ [])
      ∷ [];
  node_hashes =
      (97 ∷ [], 764 ∷ 813 ∷ []) ∷ (98 ∷ [], 765 ∷ 814 ∷ []) ∷ (99 ∷ [], 766 ∷ 815 ∷ []) ∷ [];
  node_counts = (97 ∷ [], 0) ∷ (98 ∷ [], 0) ∷ (99 ∷ [], 0) ∷ [];
  total_requests = 0;
}

-- without the first one
abbrev less : ConsistentHashMap
less = record {
  config = config;
  keys = 765 ∷ 814 ∷ [];
  hash_map = (765, 98 ∷ []) ∷ (814, 98 ∷ []) ∷ [];
  node_hashes = (98 ∷ [], 765 ∷ 814 ∷ []) ∷ [];
  node_counts = (98 ∷ [], 0) ∷ [];
  total_requests = 0;
}

calls-ring : calls (new_consistent_hash config) two_nodes ≡ ring
unfolding calls call add add_nodes add_node place place_one virtual_node decimal sort_keys sort_asc
    insert_sorted lookup insert new_consistent_hash
calls-ring = refl

add-more : add ring ((99 ∷ []) ∷ []) ≡ some more
unfolding calls call add add_nodes add_node place place_one virtual_node decimal sort_keys sort_asc
    insert_sorted lookup insert new_consistent_hash
add-more = refl

remove-less : remove ring (97 ∷ []) ≡ removed less
unfolding remove remove_node remove_hashes keep has_hash delete_hashes lookup delete
remove-less = refl

-- a key of hash 766
abbrev a_key : Bytes
a_key = 10 ∷ 108 ∷ []

-- a key of hash 814
abbrev b_key : Bytes
b_key = 16 ∷ 114 ∷ []

get-first :
    ((get ring a_key).1 ≡ 97 ∷ []) × ((get more a_key).1 ≡ 99 ∷ []) × ((get ring b_key).1 ≡ 98 ∷ [])
unfolding get get_in search next_key node_at count lookup insert
get-first = (refl, refl, refl)

ring-IsRing : IsRing ring
ring-IsRing = subst IsRing calls-ring (calls-IsRing config two_nodes)

calls-IsRing_example : IsRing (
    calls
      (new_consistent_hash config)
      (add_call ((97 ∷ []) ∷ (98 ∷ []) ∷ []) ∷ remove_call (97 ∷ []) ∷ get_call a_key ∷ []))
calls-IsRing_example =
    calls-IsRing config
      (add_call ((97 ∷ []) ∷ (98 ∷ []) ∷ []) ∷ remove_call (97 ∷ []) ∷ get_call a_key ∷ [])

add-moves_example :
    ((get more a_key).1 ≡ (get ring a_key).1) ⊎ Among (get more a_key).1 ((99 ∷ []) ∷ [])
add-moves_example =
    add-moves ring more ((99 ∷ []) ∷ []) a_key 764 ring-IsRing (inl refl) (λ e. cc e) add-more

remove-keeps_example : (get less b_key).1 ≡ (get ring b_key).1
remove-keeps_example =
    remove-keeps ring less (97 ∷ []) b_key 764 ring-IsRing (inl refl) (λ e. cc e) remove-less
      (λ e. omega (arith, ap (λ (xs : Bytes). get_or xs 0 0) (sym get-first.2 ∙ e)))
