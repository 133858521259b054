-- ===== src/Cache/Ring/Next.antt =====
-- Which key a hash belongs to in the ring of swifty_cache/consistent_hash.go.
use swifty_go.Prelude.{
  ℕ, ◌≡◌, ◌≢◌, ◌≤◌, ◌<◌, ◌⊎◌, inl, inr, refl, sym, subst, arith, true, false, List, ◌∷◌, length,
  get_or, leb, ◌==◌, ==_iff, Has, Sorted, Has-get_or, Has-index, Sorted-get_or,
}
use swifty_go.Cache.Ring.{search, next_key}
use swifty_go.Cache.Ring.Search.{IsLeast, IsMonotone, search-IsLeast}

-- k is the least key from the hash on, or the least of all if there is none: whatever their order
abbrev pub IsNext : ℕ → ℕ → List ℕ → Type 0
IsNext hash k keys =
    Has k keys
    × (((hash ≤ k) × ((j : ℕ) → Has j keys → hash ≤ j → k ≤ j))
        ⊎ (((j : ℕ) → Has j keys → j < hash) × ((j : ℕ) → Has j keys → k ≤ j)))

-- there is one such key at most
pub IsNext-unique :
    (hash k k' : ℕ) (keys : List ℕ) → IsNext hash k keys → IsNext hash k' keys → k ≡ k'
IsNext-unique hash k k' keys n n' = elim n.1 [
  | inl (from, least) ↦ elim n'.1 [
    | inl (from', least') ↦ omega (arith, least k' n'.0 from', least' k n.0 from)
    | inr (below', least') ↦ absurd (omega (arith, below' k n.0))
  ]
  | inr (below, least) ↦ elim n'.1 [
    | inl (from', least') ↦ absurd (omega (arith, below k' n'.0))
    | inr (below', least') ↦ omega (arith, least k' n'.0, least' k n.0)
  ]
]

-- the next key of more keys is the next key of those keys that it is among
pub IsNext-part :
    (hash k : ℕ) (keys more : List ℕ)
    → ((j : ℕ) → Has j keys → Has j more)
    → Has k keys
    → IsNext hash k more
    → IsNext hash k keys
IsNext-part hash k keys more part h n = elim n.1 [
  | inl (from, least) ↦ (h, inl (from, λ j g. least j (part j g)))
  | inr (below, least) ↦ (h, inr (λ j g. below j (part j g), λ j g. least j (part j g)))
]

from_hash-IsMonotone :
    (keys : List ℕ) (hash : ℕ)
    → Sorted keys
    → IsMonotone (λ i. leb hash (get_or keys i 0)) (length keys)
from_hash-IsMonotone keys hash s a b le lt h =
    let up = Sorted-get_or keys a b s le lt in ground (arith, up)

lt-cases : (a b : ℕ) → (a < b) ⊎ (b ≤ a)
lt-cases a b = omega arith

equal-cases : (a b : ℕ) → (((a == b) ≡ true) × (a ≡ b)) ⊎ (((a == b) ≡ false) × (a ≢ b))
equal-cases a b = ground (arith, ==_iff a b)

module _ (k0 : ℕ) (ks : List ℕ) (hash : ℕ) (s : Sorted (k0 ∷ ks)) where
  abbrev found : ℕ
  found = search (length (k0 ∷ ks)) (λ i. leb hash (get_or (k0 ∷ ks) i 0)) 0 (length (k0 ∷ ks))

  found-IsLeast : IsLeast (λ i. leb hash (get_or (k0 ∷ ks) i 0)) 0 (length (k0 ∷ ks)) found
  found-IsLeast =
      search-IsLeast (length (k0 ∷ ks)) 0 (length (k0 ∷ ks)) (λ i. leb hash (get_or (k0 ∷ ks) i 0))
        (omega arith) (omega arith) (from_hash-IsMonotone (k0 ∷ ks) hash s)

  -- the keys before the one that is found are below the hash
  below_found : (a : ℕ) → a < found → get_or (k0 ∷ ks) a 0 < hash
  below_found a lt = let fails = found-IsLeast.2 a (omega arith) lt in ground (arith, fails)

  wraps : found ≡ length (k0 ∷ ks) → IsNext hash k0 (k0 ∷ ks)
  wraps e = (
    inl refl,
    inr (
      λ j h.
          let at = Has-index (k0 ∷ ks) j h in
          omega (arith, below_found at.0 (omega (arith, at.1)), at.2),
      λ j h.
          let at = Has-index (k0 ∷ ks) j h in
          omega (arith, Sorted-get_or (k0 ∷ ks) 0 at.0 s (omega arith) at.1, at.2),
    ),
  )

  inside : found < length (k0 ∷ ks) → IsNext hash (get_or (k0 ∷ ks) found 0) (k0 ∷ ks)
  inside lt =
      let holds = found-IsLeast.3 lt in
      (
        Has-get_or (k0 ∷ ks) found lt,
        inl (
          ground (arith, holds),
          λ j h from. elim (lt-cases (Has-index (k0 ∷ ks) j h).0 found) [
            | inl before ↦ absurd (
                omega (
                  arith,
                  below_found (Has-index (k0 ∷ ks) j h).0 before,
                  (Has-index (k0 ∷ ks) j h).2,
                ))
            | inr le ↦ omega (
              arith,
              Sorted-get_or (k0 ∷ ks) found (Has-index (k0 ∷ ks) j h).0 s le
                  (Has-index (k0 ∷ ks) j h).1,
              (Has-index (k0 ∷ ks) j h).2,
            )
          ],
        ),
      )

  next_key-wraps : (found == length (k0 ∷ ks)) ≡ true → next_key (k0 ∷ ks) hash ≡ k0
  unfolding next_key
  next_key-wraps q = rw q refl

  next_key-found :
      (found == length (k0 ∷ ks)) ≡ false → next_key (k0 ∷ ks) hash ≡ get_or (k0 ∷ ks) found 0
  unfolding next_key
  next_key-found q = rw q refl

  -- The binary search of Get finds the next key of a hash.
  pub next_key-IsNext : IsNext hash (next_key (k0 ∷ ks) hash) (k0 ∷ ks)
  next_key-IsNext = elim (equal-cases found (length (k0 ∷ ks))) [
    | inl (q, e) ↦ subst (λ k. IsNext hash k (k0 ∷ ks)) (sym (next_key-wraps q)) (wraps e)
    | inr (q, ne) ↦
        subst (λ k. IsNext hash k (k0 ∷ ks)) (sym (next_key-found q))
          (inside (omega (arith, ne, found-IsLeast.1)))
  ]
