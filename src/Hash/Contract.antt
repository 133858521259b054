-- ===== src/Hash/Contract.antt =====
-- What the service of apps/consistent_hash relies on of the interface HashRing (hash_ring.go).
use swifty_go.Prelude.{
  if◌then◌else◌, ℕ, ◌≡◌, ◌≢◌, ◌<◌, ◌⊎◌, Bool, true, false, not, ◌&&◌, ◌||◌, some, List, [], ◌∷◌,
  Bytes, bytes_eq,
}
use swifty_go.Hash.{HashRing, minus_one, max_int32}
use swifty_go.Hash.Arc.{Next, Last}

abbrev pub has_key : Bytes → List Bytes → Bool
has_key k [] = false
has_key k (j ∷ js) = bytes_eq.same j k || has_key k js

-- the virtual nodes at a score after one more: the first stays, and one that is alone is the new one
abbrev pub Pushed : Bytes → List Bytes → List Bytes → Type 0
Pushed n [] ys = ys ≡ n ∷ []
Pushed n (v ∷ vs) ys = (zs : List Bytes) × ((ys ≡ v ∷ zs) × ((v ≡ n) ⊎ (zs ≢ [])))

abbrev pub remove_first : Bytes → List Bytes → List Bytes
remove_first n [] = []
remove_first n (v ∷ vs) = let rest = remove_first n vs in if bytes_eq.same v n then vs else v ∷ rest

-- A ring shows the virtual nodes at each score, in order, and whether a key is recorded at a node. An
-- operation that succeeds does what its name says; what one does that fails is left open.
pub record IsHashRing {W : Type 0} (r : HashRing W) (IsValid : W → Type 0) (at : W → ℕ → List Bytes)
    (recorded : W → Bytes → Bytes → Bool) : Type 0 where
  pub bounded : (w : W) (j : ℕ) → IsValid w → at w j ≢ [] → j < max_int32
  pub ceiling_next :
      (w : W) (s k : ℕ)
      → IsValid w
      → s < max_int32
      → r.ceiling w s ≡ some k
      → ((k ≡ minus_one) × ((j : ℕ) → at w j ≡ [])) ⊎ Next (λ j. at w j ≢ []) s k
  pub floor_last :
      (w : W) (s k : ℕ)
      → IsValid w
      → s < max_int32
      → r.floor w s ≡ some k
      → ((k ≡ minus_one) × ((j : ℕ) → at w j ≡ [])) ⊎ Last (λ j. at w j ≢ []) s k
  pub node_at : (w : W) (s : ℕ) (ns : List Bytes) → IsValid w → r.node w s ≡ some ns → ns ≡ at w s
  pub keys_recorded :
      (w : W) (n k : Bytes) (ks : List Bytes)
      → IsValid w
      → r.data_keys w n ≡ some ks
      → recorded w n k ≡ has_key k ks
  pub lock_valid : (w : W) (e : ℕ) → IsValid w → IsValid (r.lock w e).0
  pub lock_at : (w : W) (e j : ℕ) → at (r.lock w e).0 j ≡ at w j
  pub lock_recorded : (w : W) (e : ℕ) (n k : Bytes) → recorded (r.lock w e).0 n k ≡ recorded w n k
  pub unlock_valid : (w : W) → IsValid w → IsValid (r.unlock w)
  pub unlock_at : (w : W) (j : ℕ) → at (r.unlock w) j ≡ at w j
  pub unlock_recorded : (w : W) (n k : Bytes) → recorded (r.unlock w) n k ≡ recorded w n k
  pub replica_valid :
      (w : W) (n : Bytes) (c : ℕ) → IsValid w → IsValid (r.add_node_to_replica w n c).0
  pub replica_at : (w : W) (n : Bytes) (c j : ℕ) → at (r.add_node_to_replica w n c).0 j ≡ at w j
  pub replica_recorded :
      (w : W) (n : Bytes) (c : ℕ) (m k : Bytes)
      → recorded (r.add_node_to_replica w n c).0 m k ≡ recorded w m k
  pub add_valid :
      (w : W) (s : ℕ) (n : Bytes)
      → IsValid w
      → s < max_int32
      → (r.add w s n).1 ≡ true
      → IsValid (r.add w s n).0
  pub add_pushed :
      (w : W) (s : ℕ) (n : Bytes)
      → IsValid w
      → (r.add w s n).1 ≡ true
      → Pushed n (at w s) (at (r.add w s n).0 s)
  pub add_others :
      (w : W) (s j : ℕ) (n : Bytes)
      → IsValid w
      → (r.add w s n).1 ≡ true
      → j ≢ s
      → at (r.add w s n).0 j ≡ at w j
  pub add_recorded : (w : W) (s : ℕ) (n m k : Bytes) → recorded (r.add w s n).0 m k ≡ recorded w m k
  pub store_valid :
      (w : W) (n : Bytes) (ks : List Bytes) → IsValid w → IsValid (r.add_node_to_data_keys w n ks).0
  pub store_at :
      (w : W) (n : Bytes) (ks : List Bytes) (j : ℕ)
      → at (r.add_node_to_data_keys w n ks).0 j ≡ at w j
  pub stored :
      (w : W) (n m k : Bytes) (ks : List Bytes)
      → (r.add_node_to_data_keys w n ks).1 ≡ true
      → recorded (r.add_node_to_data_keys w n ks).0 m k
        ≡ (recorded w m k || (bytes_eq.same n m && has_key k ks))
  pub drop_valid :
      (w : W) (n : Bytes) (ks : List Bytes)
      → IsValid w
      → IsValid (r.delete_node_to_data_keys w n ks).0
  pub drop_at :
      (w : W) (n : Bytes) (ks : List Bytes) (j : ℕ)
      → at (r.delete_node_to_data_keys w n ks).0 j ≡ at w j
  pub dropped :
      (w : W) (n m k : Bytes) (ks : List Bytes)
      → (r.delete_node_to_data_keys w n ks).1 ≡ true
      → recorded (r.delete_node_to_data_keys w n ks).0 m k
        ≡ (recorded w m k && not (bytes_eq.same n m && has_key k ks))
  pub rem_valid :
      (w : W) (s : ℕ) (n : Bytes) → IsValid w → (r.rem w s n).1 ≡ true → IsValid (r.rem w s n).0
  pub rem_at :
      (w : W) (s : ℕ) (n : Bytes)
      → IsValid w
      → (r.rem w s n).1 ≡ true
      → at (r.rem w s n).0 s ≡ remove_first n (at w s)
  pub rem_others :
      (w : W) (s j : ℕ) (n : Bytes)
      → IsValid w
      → (r.rem w s n).1 ≡ true
      → j ≢ s
      → at (r.rem w s n).0 j ≡ at w j
  pub rem_recorded : (w : W) (s : ℕ) (n m k : Bytes) → recorded (r.rem w s n).0 m k ≡ recorded w m k
  pub unmark_valid : (w : W) (n : Bytes) → IsValid w → IsValid (r.delete_node_to_replica w n).0
  pub unmark_at : (w : W) (n : Bytes) (j : ℕ) → at (r.delete_node_to_replica w n).0 j ≡ at w j
  pub unmark_recorded :
      (w : W) (n m k : Bytes) → recorded (r.delete_node_to_replica w n).0 m k ≡ recorded w m k
