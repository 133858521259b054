-- ===== src/Hash/Names.antt =====
-- The keys of virtual nodes of apps/consistent_hash/consistent_hash.go.
use swifty_go.Prelude.{
  ℕ, suc, ◌≡◌, refl, ap, arith, none, some, [], ◌∷◌, ◌++◌, length, ==_iff, Bytes, decimal, Lacks,
  decimal-Lacks,
}
use swifty_go.Hash.{last_index, prefix, get_node_id, get_raw_node_key}

last_index-none : (c : ℕ) (xs : Bytes) → Lacks c xs → last_index c xs ≡ none
unfolding last_index
last_index-none c [] h = refl
last_index-none c (x ∷ xs) h = rw (last_index-none c xs h.1) (ground (arith, h.0, ==_iff x c))

last_index-append :
    (c : ℕ) (xs ys : Bytes) → Lacks c ys → last_index c (xs ++ (c ∷ ys)) ≡ some (length xs)
unfolding last_index
last_index-append c [] ys h = rw (last_index-none c ys h) (ground (arith, ==_iff c c))
last_index-append c (x ∷ xs) ys h = rw (last_index-append c xs ys h) refl

prefix-append : (xs ys : Bytes) → prefix (length xs) (xs ++ ys) ≡ xs
prefix-append [] ys = refl
prefix-append (x ∷ xs) ys = ap (λ zs. x ∷ zs) (prefix-append xs ys)

-- A virtual node's key has its node's id back, whatever bytes the id has.
pub get_node_id-get_raw_node_key :
    (node_id : Bytes) (index : ℕ) → get_node_id (get_raw_node_key node_id index) ≡ node_id
unfolding get_node_id get_raw_node_key
get_node_id-get_raw_node_key node_id index =
    let found =
      last_index-append 95 node_id (decimal (suc index) index)
        (decimal-Lacks 95 (suc index) index (omega arith)) in
    rw (found, get_node_id, get_raw_node_key)
      (prefix-append node_id (95 ∷ decimal (suc index) index))
