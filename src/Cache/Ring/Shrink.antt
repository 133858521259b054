-- ===== src/Cache/Ring/Shrink.antt =====
-- What Remove does to the ring of swifty_cache/consistent_hash.go.
use swifty_go.Prelude.{
  ℕ, ◌≡◌, ◌≢◌, ◌↔◌, inl, inr, refl, sym, ap, ◌∙◌, arith, true, false, Bool-cases, some, List, [],
  ◌∷◌, ◌||◌, ◌==◌, ==_iff, Has, Sorted, AtLeast, nat_eq, Bytes, bytes_eq, lookup, delete,
  lookup-delete_same, lookup-delete_other,
}
use swifty_go.Cache.Ring.{ConsistentHashMap, has_hash, delete_hashes, keep, remove_hashes}
use swifty_go.Cache.Ring.Valid.{IsOwned, IsRing}

has_hash-Has : (k : ℕ) (hs : List ℕ) → (has_hash k hs ≡ true) ↔ Has k hs
unfolding has_hash
has_hash-Has k [] = (λ e. absurd (cc e), λ h. absurd h)
has_hash-Has k (h ∷ hs) =
    let rest = has_hash-Has k hs in
    elim (Bool-cases (k == h)) [
      | inl q ↦ (λ e. inl ((==_iff k h).0 q), λ t. rw q refl)
      | inr q ↦ (
        λ e. inr (rest.0 (sym (ap (λ b. b || has_hash k hs) q) ∙ e)),
        λ t. elim t [
          | inl e ↦ absurd (cc (q, (==_iff k h).1 e))
          | inr u ↦ ap (λ b. b || has_hash k hs) q ∙ rest.1 u
        ],
      )
    ]

-- the keys that are kept are those of no removed hash
pub keep-Has :
    (j : ℕ) (hs keys : List ℕ) → Has j (keep hs keys) ↔ (Has j keys × (has_hash j hs ≡ false))
unfolding keep
keep-Has j hs [] = (λ h. absurd h, λ h. absurd h.0)
keep-Has j hs (k ∷ ks) =
    let rest = keep-Has j hs ks in
    elim (Bool-cases (has_hash k hs)) [
      | inl q ↦ rw q (
        λ h. (inr (rest.0 h).0, (rest.0 h).1),
        λ t. elim t.0 [
          | inl e ↦ absurd (cc (sym (t.1) ∙ ap (λ (i : ℕ). has_hash i hs) e ∙ q))
          | inr u ↦ rest.1 (u, t.1)
        ],
      )
      | inr q ↦ rw q (
        λ h. elim h [
          | inl e ↦ (inl e, ap (λ (i : ℕ). has_hash i hs) e ∙ q)
          | inr u ↦ (inr (rest.0 u).0, (rest.0 u).1)
        ],
        λ t. elim t.0 [ inl e ↦ inl e | inr u ↦ inr (rest.1 (u, t.1)) ],
      )
    ]

keep-AtLeast : (x : ℕ) (hs keys : List ℕ) → AtLeast x keys → AtLeast x (keep hs keys)
unfolding keep
keep-AtLeast x hs [] b = tt
keep-AtLeast x hs (k ∷ ks) b = elim (Bool-cases (has_hash k hs)) [
  | inl q ↦ rw q (keep-AtLeast x hs ks b.1)
  | inr q ↦ rw q (b.0, keep-AtLeast x hs ks b.1)
]

keep-Sorted : (hs keys : List ℕ) → Sorted keys → Sorted (keep hs keys)
unfolding keep
keep-Sorted hs [] s = tt
keep-Sorted hs (k ∷ ks) s = elim (Bool-cases (has_hash k hs)) [
  | inl q ↦ rw q (keep-Sorted hs ks s.1)
  | inr q ↦ rw q (keep-AtLeast k hs ks s.0, keep-Sorted hs ks s.1)
]

-- a hash that is not removed keeps its node
pub delete_hashes-keeps :
    (j : ℕ) (hs : List ℕ) (m : List (ℕ × Bytes))
    → has_hash j hs ≡ false
    → lookup j (delete_hashes hs m) ≡ lookup j m
unfolding delete_hashes has_hash
delete_hashes-keeps j [] m q = refl
delete_hashes-keeps j (h ∷ hs) m q =
    let apart : (h == j) ≡ false = ground (arith, q) in
    delete_hashes-keeps j hs (delete h m) (ground (arith, q)) ∙ lookup-delete_other h j m apart

-- the hashes of another node are not among those of a node
other-hash :
    (m : ConsistentHashMap) (node node' : Bytes) (hs hs' : List ℕ) (h : ℕ)
    → IsOwned m
    → lookup node m.node_hashes ≡ some hs
    → lookup node' m.node_hashes ≡ some hs'
    → node ≢ node'
    → Has h hs'
    → has_hash h hs ≡ false
other-hash m node node' hs hs' h v known known' ne t = elim (Bool-cases (has_hash h hs)) [
  | inl q ↦ absurd (
      ne (
        cc
          (sym (v.owned node hs h known ((has_hash-Has h hs).0 q)) ∙ v.owned node' hs' h known' t)))
  | inr q ↦ q
]

-- a key whose node is another is kept
pub other-key :
    (m : ConsistentHashMap) (node n : Bytes) (hs : List ℕ) (j : ℕ)
    → IsOwned m
    → lookup node m.node_hashes ≡ some hs
    → lookup j m.hash_map ≡ some n
    → n ≢ node
    → has_hash j hs ≡ false
other-key m node n hs j v known at ne = elim (Bool-cases (has_hash j hs)) [
  | inl q ↦ absurd (ne (cc (sym at ∙ v.owned node hs j known ((has_hash-Has j hs).0 q))))
  | inr q ↦ q
]

pub remove_hashes-IsRing :
    (m : ConsistentHashMap) (node : Bytes) (hs : List ℕ)
    → IsRing m
    → lookup node m.node_hashes ≡ some hs
    → IsRing (remove_hashes m node hs)
unfolding remove_hashes
remove_hashes-IsRing m node hs r known = record {
  sorted = keep-Sorted hs m.keys r.sorted;
  placed = record {
    taken = λ j h.
        let kept = (keep-Has j hs m.keys).0 h in
        let was = r.placed.taken j kept.0 in
        (was.0, delete_hashes-keeps j hs m.hash_map kept.1 ∙ was.1);
    owned = λ node' hs' h e t. elim (Bool-cases (bytes_eq.same node node')) [
      | inl q ↦ absurd (cc (sym (lookup-delete_same node node' m.node_hashes q) ∙ e))
      | inr q ↦
          let old : lookup node' m.node_hashes ≡ some hs' =
            sym (lookup-delete_other node node' m.node_hashes q) ∙ e in
          let ne : node ≢ node' = λ w. cc (q, (bytes_eq.same_iff node node').1 w) in
          delete_hashes-keeps h hs m.hash_map
            (other-hash m node node' hs hs' h r.placed known old ne t)
          ∙ r.placed.owned node' hs' h old t
    ];
  };
}
