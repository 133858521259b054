-- ===== src/Cache/Ring/Runs.antt =====
-- The ring of swifty_cache/consistent_hash.go over sequences of calls.
use swifty_go.Prelude.{ℕ, ◌≡◌, refl, Option, none, some, List, [], ◌∷◌, Bytes, lookup}
use swifty_go.Cache.Ring.{
  ConHashConfig, ConsistentHashMap, new_consistent_hash, add, Removal, removed, invalid_node,
  not_found, remove, count, get_in, get,
}
use swifty_go.Cache.Ring.Valid.{IsRing}
use swifty_go.Cache.Ring.Moves.{add-IsRing, remove-IsRing}

-- the calls that change a ring; one that fails leaves it as it is
pub data Call : Type 0 where
  add_call : List Bytes → Call
  remove_call get_call : Bytes → Call

abbrev pub or_same : ConsistentHashMap → Option ConsistentHashMap → ConsistentHashMap
or_same m none = m
or_same m (some m') = m'

abbrev pub after_removal : ConsistentHashMap → Removal → ConsistentHashMap
after_removal m (removed m') = m'
after_removal m invalid_node = m
after_removal m not_found = m

unfoldable pub call : ConsistentHashMap → Call → ConsistentHashMap
call m (add_call nodes) = or_same m (add m nodes)
call m (remove_call node) = after_removal m (remove m node)
call m (get_call key) = (get m key).0

unfoldable pub calls : ConsistentHashMap → List Call → ConsistentHashMap
calls m [] = m
calls m (c ∷ cs) = calls (call m c) cs

count-IsRing : (m : ConsistentHashMap) (node : Bytes) → IsRing m → IsRing (count m node)
unfolding count
count-IsRing m node r = record {
  sorted = r.sorted;
  placed = record { taken = r.placed.taken; owned = r.placed.owned };
}

get_in-IsRing :
    (keys : List ℕ) (m : ConsistentHashMap) (key : Bytes) → IsRing m → IsRing (get_in keys m key).0
unfolding get_in
get_in-IsRing [] m key r = r
get_in-IsRing (k ∷ ks) m key r = count-IsRing m _ r

get-IsRing : (m : ConsistentHashMap) (key : Bytes) → IsRing m → IsRing (get m key).0
unfolding get
get-IsRing m [] r = r
get-IsRing m (x ∷ xs) r = get_in-IsRing m.keys m (x ∷ xs) r

call-IsRing : (m : ConsistentHashMap) (c : Call) → IsRing m → IsRing (call m c)
unfolding call
call-IsRing m (add_call nodes) r = added (add m nodes) refl
  where
    added : (o : Option ConsistentHashMap) → add m nodes ≡ o → IsRing (or_same m o)
    added none e = r
    added (some m') e = add-IsRing m m' nodes r e
call-IsRing m (remove_call node) r = left (remove m node) refl
  where
    left : (o : Removal) → remove m node ≡ o → IsRing (after_removal m o)
    left (removed m') e = remove-IsRing m m' node r e
    left invalid_node e = r
    left not_found e = r
call-IsRing m (get_call key) r = get-IsRing m key r

all_calls-IsRing : (m : ConsistentHashMap) (cs : List Call) → IsRing m → IsRing (calls m cs)
unfolding calls
all_calls-IsRing m [] r = r
all_calls-IsRing m (c ∷ cs) r = all_calls-IsRing (call m c) cs (call-IsRing m c r)

-- A ring is well formed after every sequence of calls of Add, Remove and Get, those that fail included:
-- its keys are sorted, each has a node, and the hashes that a node is known by are its own.
pub calls-IsRing :
    (config : ConHashConfig) (cs : List Call) → IsRing (calls (new_consistent_hash config) cs)
unfolding new_consistent_hash lookup
calls-IsRing config cs = all_calls-IsRing (new_consistent_hash config) cs (record {
  sorted = tt;
  placed = record { taken = λ j h. absurd h; owned = λ node hs h e t. absurd (cc e) };
})
