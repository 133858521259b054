-- ===== src/Hash/Plain.antt =====
-- A ring kept as plain lists, and that it is what the service of apps/consistent_hash relies on.
pub mod Search
pub mod Lawful
use swifty_go.Prelude.{
  insert, delete, ℕ, ◌≡◌, ◌≢◌, ◌<◌, ◌≤◌, ◌⊎◌, inl, inr, refl, sym, ap, subst, ◌∙◌, arith, Bool,
  true, false, not, ◌&&◌, ◌||◌, Bool-cases, Option, none, some, some-inj, Option-cases, List, [],
  ◌∷◌, ◌++◌, ltb, leb, ◌==◌, ==_iff, if◌then◌else◌, Bytes, bytes_eq, ltb-cases,
}
use swifty_go.Hash.{HashRing, max_int32, minus_one}
use swifty_go.Hash.Arc.{Next, Last}
use swifty_go.Hash.Contract.{IsHashRing, Pushed, has_key}

-- the virtual nodes with their scores, the data keys with their nodes, and the nodes with their counts
pub record Plain : Type 0 where
  pub virtual : List (ℕ × Bytes)
  pub held : List (Bytes × Bytes)
  pub counts : List (Bytes × ℕ)

unfoldable pub at_score : ℕ → List (ℕ × Bytes) → List Bytes
at_score s [] = []
at_score s ((j, n) ∷ vs) = let rest = at_score s vs in if j == s then n ∷ rest else rest

unfoldable pub holds : Bytes → Bytes → List (Bytes × Bytes) → Bool
holds n k [] = false
holds n k ((m, j) ∷ hs) = (bytes_eq.same m n && bytes_eq.same j k) || holds n k hs

-- the least score from s on
unfoldable pub least_from : ℕ → List (ℕ × Bytes) → Option ℕ
least_from s [] = none
least_from s ((j, n) ∷ vs) = elim (least_from s vs) [
  | none ↦ if ltb j s then none else some j
  | some k ↦ if ltb j s then some k else (if ltb j k then some j else some k)
]

-- the greatest score up to s
unfoldable pub most_up_to : ℕ → List (ℕ × Bytes) → Option ℕ
most_up_to s [] = none
most_up_to s ((j, n) ∷ vs) = elim (most_up_to s vs) [
  | none ↦ if ltb s j then none else some j
  | some k ↦ if ltb s j then some k else (if ltb k j then some j else some k)
]

unfoldable pub keys_of : Bytes → List (Bytes × Bytes) → List Bytes
keys_of n [] = []
keys_of n ((m, j) ∷ hs) = let rest = keys_of n hs in if bytes_eq.same m n then j ∷ rest else rest

unfoldable pub hold_all : Bytes → List Bytes → List (Bytes × Bytes) → List (Bytes × Bytes)
hold_all n [] hs = hs
hold_all n (k ∷ ks) hs = (n, k) ∷ hold_all n ks hs

unfoldable pub release_all : Bytes → List Bytes → List (Bytes × Bytes) → List (Bytes × Bytes)
release_all n ks [] = []
release_all n ks ((m, j) ∷ hs) =
    let rest = release_all n ks hs in
    if bytes_eq.same n m && has_key j ks then rest else (m, j) ∷ rest

unfoldable pub drop_first : ℕ → Bytes → List (ℕ × Bytes) → List (ℕ × Bytes)
drop_first s n [] = []
drop_first s n ((j, m) ∷ vs) =
    let rest = drop_first s n vs in if j == s && bytes_eq.same m n then vs else (j, m) ∷ rest

unfoldable pub or_else : Option ℕ → Option ℕ → ℕ
or_else (some k) other = k
or_else none (some k) = k
or_else none none = minus_one

abbrev pub plain : HashRing Plain
plain = record {
  lock = λ w e. (w, true);
  unlock = λ w. w;
  add = λ w s n. (record w { virtual = w.virtual ++ ((s, n) ∷ []) }, true);
  ceiling = λ w s. some (or_else (least_from s w.virtual) (least_from 0 w.virtual));
  floor = λ w s. some (or_else (most_up_to s w.virtual) (most_up_to max_int32 w.virtual));
  rem = λ w s n. (record w { virtual = drop_first s n w.virtual }, true);
  nodes = λ w. some w.counts;
  add_node_to_replica = λ w n c. (record w { counts = insert n c w.counts }, true);
  delete_node_to_replica = λ w n. (record w { counts = delete n w.counts }, true);
  node = λ w s. some (at_score s w.virtual);
  data_keys = λ w n. some (keys_of n w.held);
  add_node_to_data_keys = λ w n ks. (record w { held = hold_all n ks w.held }, true);
  delete_node_to_data_keys = λ w n ks. (record w { held = release_all n ks w.held }, true);
}

abbrev pub at_plain : Plain → ℕ → List Bytes
at_plain w s = at_score s w.virtual

abbrev pub recorded_plain : Plain → Bytes → Bytes → Bool
recorded_plain w n k = holds n k w.held

abbrev pub AllBelow : List (ℕ × Bytes) → Type 0
AllBelow [] = Unit {0}
AllBelow ((j, n) ∷ vs) = (j < max_int32) × AllBelow vs

abbrev pub IsPlain : Plain → Type 0
IsPlain w = AllBelow w.virtual
