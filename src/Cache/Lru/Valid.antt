-- ===== src/Cache/Lru/Valid.antt =====
-- When a cache of swifty_cache/lru.go is well formed, and which sequence its links stand for.
use swifty_go.Prelude.{
  Has, get_or-set_self, get_or-set_ne, ℕ, suc, ◌≡◌, ◌≢◌, ◌<◌, ◌≤◌, inl, inr, refl, sym, ap, arith,
  some, List, [], ◌∷◌, ◌++◌, map, length, Bytes, bytes_eq, lookup,
}
use swifty_go.Cache.Lru.{Slot, no_slot, prev, next, Cache, slot_index, slot, set_slot}
use swifty_go.Cache.Lru.Chain.{IsSized, NotIn, Distinct, AllBelow, Chain}

pub Has-split :
    (i : ℕ) (js : List ℕ) → Has i js → (pre : List ℕ) × (post : List ℕ) × (js ≡ pre ++ (i ∷ post))
Has-split i [] h = absurd h
Has-split i (j ∷ js) (inl e) = ([], js, ap (λ k. k ∷ js) (sym e))
Has-split i (j ∷ js) (inr h) = let r = Has-split i js h in (j ∷ r.0, r.1, ap (◌∷◌ j) r.2)

pub Has-left : (j : ℕ) (pre post : List ℕ) → Has j pre → Has j (pre ++ post)
Has-left j [] post h = absurd h
Has-left j (k ∷ pre) post (inl e) = inl e
Has-left j (k ∷ pre) post (inr h) = inr (Has-left j pre post h)

pub Has-middle : (pre : List ℕ) (i : ℕ) (post : List ℕ) → Has i (pre ++ (i ∷ post))
Has-middle [] i post = inl refl
Has-middle (j ∷ pre) i post = inr (Has-middle pre i post)

pub Has-front :
    (j : ℕ) (pre : List ℕ) (i : ℕ) (post : List ℕ)
    → Has j (pre ++ (i ∷ post))
    → Has j (i ∷ (pre ++ post))
Has-front j [] i post h = h
Has-front j (k ∷ pre) i post (inl e) = inr (inl e)
Has-front j (k ∷ pre) i post (inr h) = elim (Has-front j pre i post h) [
  | inl e ↦ inl e
  | inr r ↦ inr (inr r)
]

pub Has-back :
    (j : ℕ) (pre : List ℕ) (i : ℕ) (post : List ℕ)
    → Has j (i ∷ (pre ++ post))
    → Has j (pre ++ (i ∷ post))
Has-back j [] i post h = h
Has-back j (k ∷ pre) i post (inl e) = inr (Has-back j pre i post (inl e))
Has-back j (k ∷ pre) i post (inr (inl e)) = inl e
Has-back j (k ∷ pre) i post (inr (inr h)) = inr (Has-back j pre i post (inr h))

pub not-Has : (i : ℕ) (js : List ℕ) → NotIn i js → Has i js → ⊥
not-Has i [] out h = h
not-Has i (j ∷ js) out (inl e) = out.0 e
not-Has i (j ∷ js) out (inr h) = not-Has i js out.1 h

pub NotIn-of_not-Has : (i : ℕ) (js : List ℕ) → (Has i js → ⊥) → NotIn i js
NotIn-of_not-Has i [] h = tt
NotIn-of_not-Has i (j ∷ js) h = (λ e. h (inl e), NotIn-of_not-Has i js (λ k. h (inr k)))

pub below_of_Has : (n i : ℕ) (js : List ℕ) → AllBelow n js → Has i js → i < n
below_of_Has n i [] b h = absurd h
below_of_Has n i (j ∷ js) b (inl e) = omega arith
below_of_Has n i (j ∷ js) b (inr h) = below_of_Has n i js b.1 h

-- The slots in `order`, last used first, are the used ones, and the index finds each by its key.
pub record IsLru (c : Cache) (order : List ℕ) : Type 0 where
  pub sized : IsSized c.double_link (suc (length c.m))
  pub small : suc (length c.m) < 65536
  pub linked : Chain c.double_link next prev 0 order 0
  pub distinct : Distinct (0 ∷ order)
  pub below : AllBelow (suc c.last) order
  pub used : length order ≡ c.last
  pub room : c.last ≤ length c.m
  pub indexed :
      (key : Bytes) (i : ℕ) → lookup key c.hash_map ≡ some i → Has i order × ((slot c i).k ≡ key)
  pub found : (i : ℕ) → Has i order → lookup (slot c i).k c.hash_map ≡ some i

-- what the order stands for
abbrev pub slots : Cache → List ℕ → List Slot
slots c order = map (slot c) order

pub slot-set_self :
    (c : Cache) (i : ℕ) (s : Slot)
    → 0 < i
    → i ≤ length c.m
    → suc (length c.m) < 65536
    → slot (set_slot c i s) i ≡ s
unfolding slot set_slot
slot-set_self c i s p h k = get_or-set_self c.m (slot_index i) s no_slot (omega arith)

pub slot-set_ne :
    (c : Cache) (i j : ℕ) (s : Slot)
    → 0 < i
    → 0 < j
    → i < 65536
    → j < 65536
    → i ≢ j
    → slot (set_slot c i s) j ≡ slot c j
unfolding slot set_slot
slot-set_ne c i j s hi hj ki kj ne =
    get_or-set_ne c.m (slot_index i) (slot_index j) s no_slot (λ e. ne (omega arith))

-- a written slot leaves the others' contents
pub slots-set :
    (c : Cache) (i : ℕ) (s : Slot) (js : List ℕ)
    → 0 < i
    → i < 65536
    → NotIn i js
    → NotIn 0 js
    → AllBelow 65536 js
    → slots (set_slot c i s) js ≡ slots c js
slots-set c i s [] hi ki out z b = refl
slots-set c i s (j ∷ js) hi ki out z b =
    rw
      (
        slot-set_ne c i j s hi (omega (arith, z.0)) ki b.0 out.0,
        slots-set c i s js hi ki out.1 z.1 b.1,
      )
      refl
