-- ===== src/Lsm/Bloom/Sets.antt =====
-- The loops of Hash and Exist of apps/lsm_tree/filter/bloom_filter.go.
use native.Mathlib.Nat.{mod-lt, mod-eq_of_lt}
use swifty_go.Prelude.{
  ℕ, suc, zero, ◌+◌, ◌%◌, ◌≡◌, ◌≤◌, ◌<◌, ◌⊎◌, inl, inr, refl, ap, ◌∙◌, arith, true, List, [], ◌∷◌,
  word32, Has,
}
use swifty_go.Lsm.Bloom.{target_bit, set_bit, has_bit, set_bits, set_keys, has_bits}
use swifty_go.Lsm.Bloom.Bits.{IsBitmap, set_bit-IsBitmap, set_bit-has_bit, set_bit-keeps}

nat-cases : (i j n : ℕ) → i ≤ j → j < suc n + i → (j ≡ i) ⊎ ((suc i ≤ j) × (j < n + suc i))
nat-cases i j n h lt = omega arith

module _ (m k : ℕ) (some_bits : 0 < m) (small : m < word32) where
  target_bit-inside : (h i : ℕ) → target_bit m h i < m
  unfolding target_bit
  target_bit-inside h i =
      let same : m % word32 ≡ m = mod-eq_of_lt small in
      let below : target_bit m h i < m % word32 = mod-lt _ (omega (arith, same)) in
      omega (arith, below, same)

  set_bits-IsBitmap :
      (h n i : ℕ) (bits : List ℕ) → IsBitmap m k bits → IsBitmap m k (set_bits m h n i bits)
  unfolding set_bits
  set_bits-IsBitmap h zero i bits v = v
  set_bits-IsBitmap h (suc n) i bits v =
      set_bits-IsBitmap h n (suc i) (set_bit bits (target_bit m h i))
        (set_bit-IsBitmap m k bits (target_bit m h i) v (target_bit-inside h i))

  set_bits-keeps :
      (h n i : ℕ) (bits : List ℕ) (u : ℕ)
      → IsBitmap m k bits
      → has_bit bits u ≡ true
      → has_bit (set_bits m h n i bits) u ≡ true
  unfolding set_bits
  set_bits-keeps h zero i bits u v e = e
  set_bits-keeps h (suc n) i bits u v e =
      let t = target_bit m h i in
      let inside = target_bit-inside h i in
      set_bits-keeps h n (suc i) (set_bit bits t) u (set_bit-IsBitmap m k bits t v inside)
        (set_bit-keeps m k bits t v inside u e)

  -- the bits of the functions from the i-th to before the (n + i)-th
  set_bits-sets :
      (h n i : ℕ) (bits : List ℕ) (j : ℕ)
      → IsBitmap m k bits
      → i ≤ j
      → j < n + i
      → has_bit (set_bits m h n i bits) (target_bit m h j) ≡ true
  unfolding set_bits
  set_bits-sets h zero i bits j v le lt = absurd (omega arith)
  set_bits-sets h (suc n) i bits j v le lt =
      let t = target_bit m h i in
      let inside = target_bit-inside h i in
      let v' = set_bit-IsBitmap m k bits t v inside in
      elim (nat-cases i j n le lt) [
        | inl e ↦ set_bits-keeps h n (suc i) (set_bit bits t) (target_bit m h j) v' (
            ap (λ (f : ℕ). has_bit (set_bit bits t) (target_bit m h f)) e
            ∙ set_bit-has_bit m k bits t v inside)
        | inr (after, before) ↦ set_bits-sets h n (suc i) (set_bit bits t) j v' after before
      ]

  pub set_keys-IsBitmap :
      (hs : List ℕ) (bits : List ℕ) → IsBitmap m k bits → IsBitmap m k (set_keys m k hs bits)
  unfolding set_keys
  set_keys-IsBitmap [] bits v = v
  set_keys-IsBitmap (h ∷ hs) bits v =
      set_keys-IsBitmap hs (set_bits m h k 0 bits) (set_bits-IsBitmap h k 0 bits v)

  set_keys-keeps :
      (hs : List ℕ) (bits : List ℕ) (u : ℕ)
      → IsBitmap m k bits
      → has_bit bits u ≡ true
      → has_bit (set_keys m k hs bits) u ≡ true
  unfolding set_keys
  set_keys-keeps [] bits u v e = e
  set_keys-keeps (h ∷ hs) bits u v e =
      set_keys-keeps hs (set_bits m h k 0 bits) u (set_bits-IsBitmap h k 0 bits v)
        (set_bits-keeps h k 0 bits u v e)

  pub set_keys-sets :
      (hs : List ℕ) (bits : List ℕ) (h j : ℕ)
      → IsBitmap m k bits
      → Has h hs
      → j < k
      → has_bit (set_keys m k hs bits) (target_bit m h j) ≡ true
  unfolding set_keys
  set_keys-sets [] bits h j v t lt = absurd t
  set_keys-sets (x ∷ hs) bits h j v (inl e) lt =
      set_keys-keeps hs (set_bits m x k 0 bits) (target_bit m h j) (set_bits-IsBitmap x k 0 bits v)
        (ap (λ (y : ℕ). has_bit (set_bits m x k 0 bits) (target_bit m y j)) e
          ∙ set_bits-sets x k 0 bits j v (omega arith) (omega arith))
  set_keys-sets (x ∷ hs) bits h j v (inr t) lt =
      set_keys-sets hs (set_bits m x k 0 bits) h j (set_bits-IsBitmap x k 0 bits v) t lt

pub has_bits-all :
    (m h n i : ℕ) (bits : List ℕ)
    → ((j : ℕ) → i ≤ j → j < n + i → has_bit bits (target_bit m h j) ≡ true)
    → has_bits m h n i bits ≡ true
unfolding has_bits
has_bits-all m h zero i bits all = refl
has_bits-all m h (suc n) i bits all =
    rw (all i (omega arith) (omega arith))
      (has_bits-all m h n (suc i) bits (λ j le lt. all j (omega arith) (omega arith)))
