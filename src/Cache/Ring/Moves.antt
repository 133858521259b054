-- ===== src/Cache/Ring/Moves.antt =====
-- Which keys change their node when the ring of swifty_cache/consistent_hash.go changes.
use swifty_go.Prelude.{
  ℕ, ◌≡◌, ◌≢◌, ◌⊎◌, inl, inr, refl, sym, ap, subst, ◌∙◌, some, Option-cases, List, [], ◌∷◌, Has,
  Sorted, nat_eq, Bytes, bytes_eq, lookup,
}
use swifty_go.Cache.Ring.{
  ConHashConfig, ConsistentHashMap, add, removed, not_found, remove_hashes, remove_node, remove,
  next_key, node_at, get_in, get,
}
use swifty_go.Cache.Ring.Next.{IsNext, IsNext-unique, IsNext-part, next_key-IsNext}
use swifty_go.Cache.Ring.Valid.{IsRing, Among}
use swifty_go.Cache.Ring.Grow.{add-IsGrown}
use swifty_go.Cache.Ring.Shrink.{keep-Has, delete_hashes-keeps, other-key, remove_hashes-IsRing}

-- the node of a key is that of the next key of its hash
get_in-IsNext :
    (keys : List ℕ) (m : ConsistentHashMap) (key : Bytes) (k : ℕ)
    → Sorted keys
    → Has k keys
    → (n : ℕ) × IsNext (m.config.hash_func key) n keys
      × ((get_in keys m key).1 ≡ node_at m.hash_map n)
unfolding get_in
get_in-IsNext [] m key k s h = absurd h
get_in-IsNext (k0 ∷ ks) m key k s h = (
  next_key (k0 ∷ ks) (m.config.hash_func key),
  next_key-IsNext k0 ks (m.config.hash_func key) s,
  refl,
)

get-IsNext :
    (m : ConsistentHashMap) (key : Bytes) (k : ℕ)
    → IsRing m
    → Has k m.keys
    → key ≢ []
    → (n : ℕ) × IsNext (m.config.hash_func key) n m.keys × ((get m key).1 ≡ node_at m.hash_map n)
unfolding get
get-IsNext m [] k r h ne = absurd (ne refl)
get-IsNext m (x ∷ xs) k r h ne = get_in-IsNext m.keys m (x ∷ xs) k r.sorted h

node_at-some : (m : List (ℕ × Bytes)) (k : ℕ) (n : Bytes) → lookup k m ≡ some n → node_at m k ≡ n
unfolding node_at
node_at-some m k n e = rw (e, node_at) refl

-- what Add makes is well formed
pub add-IsRing :
    (m m' : ConsistentHashMap) (nodes : List Bytes) → IsRing m → add m nodes ≡ some m' → IsRing m'
add-IsRing m m' nodes r e =
    let grown = add-IsGrown m m' nodes r e in record { sorted = grown.1; placed = grown.0.placed }

-- In a well-formed ring that has keys, a key that is not empty has, after nodes are added, the node that
-- it had before, or one of those that were named in the call: no key moves between the old nodes.
pub add-moves :
    (m m' : ConsistentHashMap) (nodes : List Bytes) (key : Bytes) (k : ℕ)
    → IsRing m
    → Has k m.keys
    → key ≢ []
    → add m nodes ≡ some m'
    → ((get m' key).1 ≡ (get m key).1) ⊎ Among (get m' key).1 nodes
add-moves m m' nodes key k r h ne e =
    let grown = (add-IsGrown m m' nodes r e).0 in
    let more = grown.extends in
    let before = get-IsNext m key k r h ne in
    let after = get-IsNext m' key k (add-IsRing m m' nodes r e) (more.old_keys k h) ne in
    let next' : IsNext (m.config.hash_func key) after.0 m'.keys =
      subst (λ (c : ConHashConfig). IsNext (c.hash_func key) after.0 m'.keys) grown.same_config
        after.1 in
    elim (more.new_keys after.0 after.1.0) [
      | inr (n, among, at) ↦ inr (
          subst (λ node. Among node nodes) (sym (after.2 ∙ node_at-some m'.hash_map after.0 n at))
            among)
      | inl old ↦
          let same : after.0 ≡ before.0 =
            IsNext-unique (m.config.hash_func key) after.0 before.0 m.keys
              (IsNext-part (m.config.hash_func key) after.0 m.keys m'.keys more.old_keys old next')
              before.1 in
          let was = r.placed.taken after.0 old in
          inl (
            after.2
            ∙ node_at-some m'.hash_map after.0 was.0 (more.old_map after.0 was.0 was.1)
            ∙ sym (node_at-some m.hash_map after.0 was.0 was.1)
            ∙ ap (node_at m.hash_map) same
            ∙ sym before.2)
    ]

-- the ring that a removal leaves
removed_by :
    (m m' : ConsistentHashMap) (node : Bytes)
    → remove m node ≡ removed m'
    → (hs : List ℕ) × (lookup node m.node_hashes ≡ some hs) × (remove_hashes m node hs ≡ m')
unfolding remove remove_node
removed_by m m' [] e = absurd (cc e)
removed_by m m' (x ∷ xs) e = elim (Option-cases (lookup (x ∷ xs) m.node_hashes)) [
  | inl new ↦
      let fails : remove m (x ∷ xs) ≡ not_found = rw (new, remove, remove_node) refl in
      absurd (cc (sym e ∙ fails))
  | inr (hs, known) ↦
      let works : remove m (x ∷ xs) ≡ removed (remove_hashes m (x ∷ xs) hs) =
        rw (known, remove, remove_node) refl in
      (hs, known, cc (sym works ∙ e))
]

pub remove-IsRing :
    (m m' : ConsistentHashMap) (node : Bytes) → IsRing m → remove m node ≡ removed m' → IsRing m'
remove-IsRing m m' node r e =
    let cut = removed_by m m' node e in
    subst IsRing cut.2 (remove_hashes-IsRing m node cut.0 r cut.1)

removed-stays :
    (m : ConsistentHashMap) (node key : Bytes) (k : ℕ) (hs : List ℕ)
    → IsRing m
    → Has k m.keys
    → key ≢ []
    → lookup node m.node_hashes ≡ some hs
    → (get m key).1 ≢ node
    → (get (remove_hashes m node hs) key).1 ≡ (get m key).1
unfolding remove_hashes
removed-stays m node key k hs r h ne known other =
    let m' = remove_hashes m node hs in
    let hash = m.config.hash_func key in
    let before = get-IsNext m key k r h ne in
    let was = r.placed.taken before.0 before.1.0 in
    let its = before.2 ∙ node_at-some m.hash_map before.0 was.0 was.1 in
    let kept = other-key m node was.0 hs before.0 r.placed known was.1 (λ w. other (its ∙ w)) in
    let stays : Has before.0 m'.keys = (keep-Has before.0 hs m.keys).1 (before.1.0, kept) in
    let after = get-IsNext m' key before.0 (remove_hashes-IsRing m node hs r known) stays ne in
    let same : after.0 ≡ before.0 = IsNext-unique hash after.0 before.0 m'.keys after.1 (
      IsNext-part hash before.0 m'.keys m.keys (λ j t. ((keep-Has j hs m.keys).0 t).0) stays
        before.1) in
    after.2
    ∙ ap (node_at m'.hash_map) same
    ∙ node_at-some m'.hash_map before.0 was.0
        (delete_hashes-keeps before.0 hs m.hash_map kept ∙ was.1)
    ∙ sym its

-- In a well-formed ring that has keys, a key that is not empty and whose node is not the one that is
-- removed keeps its node.
pub remove-keeps :
    (m m' : ConsistentHashMap) (node key : Bytes) (k : ℕ)
    → IsRing m
    → Has k m.keys
    → key ≢ []
    → remove m node ≡ removed m'
    → (get m key).1 ≢ node
    → (get m' key).1 ≡ (get m key).1
remove-keeps m m' node key k r h ne e other =
    let cut = removed_by m m' node e in
    subst (λ d. (get d key).1 ≡ (get m key).1) cut.2
      (removed-stays m node key k cut.0 r h ne cut.1 other)
