-- ===== src/Cache/Ring/Valid.antt =====
-- When the ring of swifty_cache/consistent_hash.go is well formed, and what Add does to its keys.
use swifty_go.Prelude.{
  ℕ, suc, zero, ◌≡◌, ◌⊎◌, inl, inr, refl, sym, ap, ◌∙◌, Bool-cases, none, some, Option-cases, List,
  [], ◌∷◌, ◌==◌, ==_iff, Has, Has-last, Sorted, nat_eq, Bytes, bytes_eq, lookup, insert,
  lookup-insert_same, lookup-insert_other,
}
use swifty_go.Cache.Ring.{ConsistentHashMap, virtual_node, Placed, place_one, place}

-- every key has a node, and the hashes that a node is known by are its own
pub record IsOwned (m : ConsistentHashMap) : Type 0 where
  pub taken : (j : ℕ) → Has j m.keys → (node : Bytes) × (lookup j m.hash_map ≡ some node)
  pub owned :
      (node : Bytes) (hs : List ℕ) (h : ℕ)
      → lookup node m.node_hashes ≡ some hs
      → Has h hs
      → lookup h m.hash_map ≡ some node

pub record IsRing (m : ConsistentHashMap) : Type 0 where
  pub sorted : Sorted m.keys
  pub placed : IsOwned m

abbrev pub Among : Bytes → List Bytes → Type 0
Among node [] = ⊥
Among node (n ∷ ns) = (node ≡ n) ⊎ Among node ns

-- keys and owners after nodes have been added: what was there is there, what is new is theirs
pub record Extends (keys : List ℕ) (hash_map : List (ℕ × Bytes)) (nodes : List Bytes)
    (keys' : List ℕ) (hash_map' : List (ℕ × Bytes)) : Type 0 where
  pub old_keys : (j : ℕ) → Has j keys → Has j keys'
  pub old_map : (j : ℕ) (n : Bytes) → lookup j hash_map ≡ some n → lookup j hash_map' ≡ some n
  pub new_keys :
      (j : ℕ)
      → Has j keys'
      → Has j keys ⊎ ((n : Bytes) × Among n nodes × (lookup j hash_map' ≡ some n))

pub Extends-refl :
    (keys : List ℕ) (hash_map : List (ℕ × Bytes)) (nodes : List Bytes)
    → Extends keys hash_map nodes keys hash_map
Extends-refl keys hash_map nodes = record {
  old_keys = λ j h. h;
  old_map = λ j n e. e;
  new_keys = λ j h. inl h;
}

-- an insertion at a hash that is free
free-keeps :
    (hash j : ℕ) (node n : Bytes) (m : List (ℕ × Bytes))
    → lookup hash m ≡ none
    → lookup j m ≡ some n
    → lookup j (insert hash node m) ≡ some n
free-keeps hash j node n m free e = elim (Bool-cases (hash == j)) [
  | inl q ↦ absurd (cc (sym free ∙ ap (λ (k : ℕ). lookup k m) ((==_iff hash j).0 q) ∙ e))
  | inr q ↦ lookup-insert_other hash j node m q ∙ e
]

insert_self :
    (hash : ℕ) (node : Bytes) (m : List (ℕ × Bytes)) → lookup hash (insert hash node m) ≡ some node
insert_self hash node m = lookup-insert_same hash hash node m ((==_iff hash hash).1 refl)

-- what the loop of addNodeLocked keeps
abbrev pub IsPlaced : List ℕ → List (ℕ × Bytes) → Bytes → Placed → Type 0
IsPlaced keys hash_map node p =
    Extends keys hash_map (node ∷ []) p.keys p.hash_map
    × ((h : ℕ) → Has h p.hashes → lookup h p.hash_map ≡ some node)

module _ (keys : List ℕ) (hash_map : List (ℕ × Bytes)) (node : Bytes) where
  place_one-IsPlaced :
      (hash : ℕ) (p : Placed)
      → IsPlaced keys hash_map node p
      → IsPlaced keys hash_map node (place_one node hash p)
  unfolding place_one
  place_one-IsPlaced hash p g = elim (Option-cases (lookup hash p.hash_map)) [
    | inr (n, known) ↦ rw (known, place_one) g
    | inl free ↦
        rw (free, place_one)
          (
            record {
              old_keys = λ j h. (Has-last j hash p.keys).1 (inl (g.0.old_keys j h));
              old_map = λ j n e. free-keeps hash j node n p.hash_map free (g.0.old_map j n e);
              new_keys = λ j h. elim ((Has-last j hash p.keys).0 h) [
                | inl old ↦ elim (g.0.new_keys j old) [
                  | inl t ↦ inl t
                  | inr (n, among, e) ↦ inr (n, among, free-keeps hash j node n p.hash_map free e)
                ]
                | inr e ↦ inr (
                  node,
                  inl refl,
                  ap (λ (k : ℕ). lookup k (insert hash node p.hash_map)) e
                      ∙ insert_self hash node p.hash_map,
                )
              ];
            },
            λ h t. elim ((Has-last h hash p.hashes).0 t) [
              | inl old ↦ free-keeps hash h node node p.hash_map free (g.1 h old)
              | inr e ↦
                  ap (λ (k : ℕ). lookup k (insert hash node p.hash_map)) e
                  ∙ insert_self hash node p.hash_map
            ],
          )
  ]

  pub place-IsPlaced :
      (hash_func : Bytes → ℕ) (n i : ℕ) (p : Placed)
      → IsPlaced keys hash_map node p
      → IsPlaced keys hash_map node (place hash_func node n i p)
  unfolding place
  place-IsPlaced hash_func zero i p g = g
  place-IsPlaced hash_func (suc n) i p g =
      place-IsPlaced hash_func n (suc i) (place_one node (hash_func (virtual_node node i)) p)
        (place_one-IsPlaced (hash_func (virtual_node node i)) p g)

pub Extends-trans :
    (keys : List ℕ) (hash_map : List (ℕ × Bytes)) (node : Bytes) (nodes : List Bytes)
    (keys' : List ℕ) (hash_map' : List (ℕ × Bytes)) (keys'' : List ℕ)
    (hash_map'' : List (ℕ × Bytes))
    → Extends keys hash_map (node ∷ []) keys' hash_map'
    → Extends keys' hash_map' nodes keys'' hash_map''
    → Extends keys hash_map (node ∷ nodes) keys'' hash_map''
Extends-trans keys hash_map node nodes keys' hash_map' keys'' hash_map'' f g = record {
  old_keys = λ j h. g.old_keys j (f.old_keys j h);
  old_map = λ j n e. g.old_map j n (f.old_map j n e);
  new_keys = λ j h. elim (g.new_keys j h) [
    | inr (n, among, e) ↦ inr (n, inr among, e)
    | inl t ↦ elim (f.new_keys j t) [
      | inl u ↦ inl u
      | inr (n, inl same, e) ↦ inr (n, inl same, g.old_map j n e)
      | inr (n, inr none_left, e) ↦ absurd none_left
    ]
  ];
}

pub Extends-skip :
    (keys : List ℕ) (hash_map : List (ℕ × Bytes)) (node : Bytes) (nodes : List Bytes)
    (keys' : List ℕ) (hash_map' : List (ℕ × Bytes))
    → Extends keys hash_map nodes keys' hash_map'
    → Extends keys hash_map (node ∷ nodes) keys' hash_map'
Extends-skip keys hash_map node nodes keys' hash_map' g = record {
  old_keys = g.old_keys;
  old_map = g.old_map;
  new_keys =
      λ j h. elim (g.new_keys j h) [ inl t ↦ inl t | inr (n, among, e) ↦ inr (n, inr among, e) ];
}
