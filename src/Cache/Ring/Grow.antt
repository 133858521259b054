-- ===== src/Cache/Ring/Grow.antt =====
-- What Add does to the ring of swifty_cache/consistent_hash.go.
use swifty_go.Prelude.{
  ℕ, ◌≡◌, inl, inr, refl, sym, ap, subst, ◌∙◌, Bool-cases, some, Option-cases, List, [], ◌∷◌, Has,
  Sorted, sort_asc-Sorted, Has-sort_asc, nat_eq, Bytes, bytes_eq, lookup, insert,
  lookup-insert_same, lookup-insert_other,
}
use swifty_go.Cache.Ring.{ConsistentHashMap, Placed, place, add_node, add_nodes, sort_keys, add}
use swifty_go.Cache.Ring.Valid.{
  IsOwned, IsRing, Extends, Extends-refl, Extends-trans, Extends-skip, IsPlaced, place-IsPlaced,
}

-- what an addition makes of a ring
pub record IsGrown (m : ConsistentHashMap) (nodes : List Bytes) (m' : ConsistentHashMap)
    : Type 0 where
  pub extends : Extends m.keys m.hash_map nodes m'.keys m'.hash_map
  pub placed : IsOwned m'
  pub same_config : m'.config ≡ m.config

-- the hashes of a new node beside those of the others
owned-insert :
    (m : ConsistentHashMap) (node : Bytes) (p : Placed)
    → IsOwned m
    → IsPlaced m.keys m.hash_map node p
    → (node' : Bytes) (hs : List ℕ) (h : ℕ)
    → lookup node' (insert node p.hashes m.node_hashes) ≡ some hs
    → Has h hs
    → lookup h p.hash_map ≡ some node'
owned-insert m node p v g node' hs h e t = elim (Bool-cases (bytes_eq.same node node')) [
  | inl q ↦
      let same : node ≡ node' = (bytes_eq.same_iff node node').0 q in
      let its : p.hashes ≡ hs =
        cc (sym (lookup-insert_same node node' p.hashes m.node_hashes q) ∙ e) in
      g.1 h (subst (Has h) (sym its) t) ∙ ap (λ n. some n) same
  | inr q ↦
      let old : lookup node' m.node_hashes ≡ some hs =
        sym (lookup-insert_other node node' p.hashes m.node_hashes q) ∙ e in
      g.0.old_map h node' (v.owned node' hs h old t)
]

add_node-IsGrown :
    (m : ConsistentHashMap) (node : Bytes) (replicas : ℕ)
    → IsOwned m
    → IsGrown m (node ∷ []) (add_node m node replicas)
unfolding add_node
add_node-IsGrown m node replicas v = elim (Option-cases (lookup node m.node_hashes)) [
  | inr (hs, known) ↦
      rw (known, add_node)
        (record {
          extends = Extends-refl m.keys m.hash_map (node ∷ []);
          placed = v;
          same_config = refl;
        })
  | inl new ↦
      let p0 : Placed = record { keys = m.keys; hash_map = m.hash_map; hashes = [] } in
      let g =
        place-IsPlaced m.keys m.hash_map node m.config.hash_func replicas 0 p0
          (Extends-refl m.keys m.hash_map (node ∷ []), λ h t. absurd t) in
      rw (new, add_node)
        (record {
          extends = g.0;
          placed = record {
            taken = λ j h. elim (g.0.new_keys j h) [
              | inl t ↦ let was = v.taken j t in (was.0, g.0.old_map j was.0 was.1)
              | inr (n, among, e) ↦ (n, e)
            ];
            owned = owned-insert m node (place m.config.hash_func node replicas 0 p0) v g;
          };
          same_config = refl;
        })
]

add_nodes-IsGrown :
    (m : ConsistentHashMap) (nodes : List Bytes) → IsOwned m → IsGrown m nodes (add_nodes m nodes)
unfolding add_nodes
add_nodes-IsGrown m [] v = record {
  extends = Extends-refl m.keys m.hash_map [];
  placed = v;
  same_config = refl;
}
add_nodes-IsGrown m ([] ∷ nodes) v =
    let rest = add_nodes-IsGrown m nodes v in
    record {
      extends = Extends-skip m.keys m.hash_map [] nodes _ _ rest.extends;
      placed = rest.placed;
      same_config = rest.same_config;
    }
add_nodes-IsGrown m ((x ∷ xs) ∷ nodes) v =
    let first = add_node-IsGrown m (x ∷ xs) m.config.default_replicas v in
    let rest =
      add_nodes-IsGrown (add_node m (x ∷ xs) m.config.default_replicas) nodes first.placed in
    record {
      extends = Extends-trans m.keys m.hash_map (x ∷ xs) nodes _ _ _ _ first.extends rest.extends;
      placed = rest.placed;
      same_config = rest.same_config ∙ first.same_config;
    }

pub sort_keys-IsGrown :
    (m m' : ConsistentHashMap) (nodes : List Bytes)
    → IsGrown m nodes m'
    → IsGrown m nodes (sort_keys m')
unfolding sort_keys
sort_keys-IsGrown m m' nodes g = record {
  extends = record {
    old_keys = λ j h. (Has-sort_asc j m'.keys).1 (g.extends.old_keys j h);
    old_map = g.extends.old_map;
    new_keys = λ j h. g.extends.new_keys j ((Has-sort_asc j m'.keys).0 h);
  };
  placed = record {
    taken = λ j h. g.placed.taken j ((Has-sort_asc j m'.keys).0 h);
    owned = g.placed.owned;
  };
  same_config = g.same_config;
}

sort_keys-Sorted : (m : ConsistentHashMap) → Sorted (sort_keys m).keys
unfolding sort_keys
sort_keys-Sorted m = sort_asc-Sorted m.keys

pub add-IsGrown :
    (m m' : ConsistentHashMap) (nodes : List Bytes)
    → IsRing m
    → add m nodes ≡ some m'
    → IsGrown m nodes m' × Sorted m'.keys
unfolding add
add-IsGrown m m' [] r e = absurd (cc e)
add-IsGrown m m' (n ∷ ns) r e =
    let added = add_nodes-IsGrown m (n ∷ ns) r.placed in
    let made : sort_keys (add_nodes m (n ∷ ns)) ≡ m' = cc e in
    subst (λ (k : ConsistentHashMap). IsGrown m (n ∷ ns) k × Sorted k.keys) made
      (
        sort_keys-IsGrown m (add_nodes m (n ∷ ns)) (n ∷ ns) added,
        sort_keys-Sorted (add_nodes m (n ∷ ns)),
      )
