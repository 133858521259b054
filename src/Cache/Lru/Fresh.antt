-- ===== src/Cache/Lru/Fresh.antt =====
-- A key that is new gets a slot: the last one in the order of use, or a fresh one
-- (swifty_cache/lru.go).
use swifty_go.Prelude.{
  some-inj, Has, ℕ, suc, ◌≡◌, ◌≢◌, ◌⊎◌, inl, inr, refl, sym, ap, subst, ◌∙◌, arith, none, some,
  true, Bool-cases, if◌then◌else◌, List, ◌∷◌, length, length-set, Bytes, bytes_eq, lookup, insert,
  delete, lookup-insert, lookup-delete,
}
use swifty_go.Cache.Lru.{Slot, prev, next, Links, Cache, slot_index, slot}
use swifty_go.Cache.Lru.Chain.{IsSized, Distinct, AllBelow, Chain}
use swifty_go.Cache.Lru.Update.{updated, nat-cases, slot-updated_self, slot-updated_ne}
use swifty_go.Cache.Lru.Valid.{IsLru}

abbrev pub rekeyed : Cache → ℕ → Slot → Links → ℕ → ℕ → List (Bytes × ℕ) → Cache
rekeyed c i s l b e index = record (updated c i s l b e) { hash_map = index }

pub none-ne : {i : ℕ} → none ≡ some i → ⊥
none-ne h = cc h

pub same_iff :
    (a b : Bytes) → (bytes_eq.same a b ≡ true → a ≡ b) × (a ≡ b → bytes_eq.same a b ≡ true)
same_iff a b = bytes_eq.same_iff a b

-- a lookup in an index that gave one key's slot to another
lookup-moved :
    (old key k : Bytes) (i : ℕ) (index : List (Bytes × ℕ))
    → lookup k (insert key i (delete old index)) ≡ (
        if bytes_eq.same key k
        then some i
        else if bytes_eq.same old k
        then none
        else lookup k index)
lookup-moved old key k i index =
    lookup-insert key k i (delete old index)
    ∙ ap (λ r. if bytes_eq.same key k then some i else r) (lookup-delete old k index)

moved-cases :
    (old key k : Bytes) (i j : ℕ) (index : List (Bytes × ℕ))
    → lookup k (insert key i (delete old index)) ≡ some j
    → ((key ≡ k) × (i ≡ j)) ⊎ ((key ≢ k) × (old ≢ k) × (lookup k index ≡ some j))
moved-cases old key k i j index h = elim (Bool-cases (bytes_eq.same key k)) [
  | inl q ↦
      let e : (if bytes_eq.same key k
            then some i
            else if bytes_eq.same old k
            then none
            else lookup k index)
          ≡ some j =
        sym (lookup-moved old key k i index) ∙ h in
      inl ((same_iff key k).0 q, ground (arith, q, e))
  | inr q ↦
      let e : (if bytes_eq.same key k
            then some i
            else if bytes_eq.same old k
            then none
            else lookup k index)
          ≡ some j =
        sym (lookup-moved old key k i index) ∙ h in
      inr (
        λ w. cc ((same_iff key k).1 w),
        λ w. ground (arith, q, e, (same_iff old k).1 w),
        ground (arith, q, e),
      )
]

moved_self :
    (old key : Bytes) (i : ℕ) (index : List (Bytes × ℕ))
    → lookup key (insert key i (delete old index)) ≡ some i
moved_self old key i index =
    lookup-moved old key key i index ∙ (rw ((same_iff key key).1 refl) refl)

moved-ne :
    (old key k : Bytes) (i : ℕ) (index : List (Bytes × ℕ))
    → key ≢ k
    → old ≢ k
    → lookup k (insert key i (delete old index)) ≡ lookup k index
moved-ne old key k i index h g =
    lookup-moved old key k i index ∙ (ground (arith, same_iff key k, same_iff old k))

module _ (c : Cache) (order : List ℕ) (v : IsLru c order) where
  slot-rekeyed_self :
      (i : ℕ) (s : Slot) (l : Links) (b e : ℕ) (index : List (Bytes × ℕ))
      → Has i order
      → slot (rekeyed c i s l b e index) i ≡ s
  unfolding slot
  slot-rekeyed_self i s l b e index h = slot-updated_self c order v i s l b e h

  slot-rekeyed_ne :
      (i j : ℕ) (s : Slot) (l : Links) (b e : ℕ) (index : List (Bytes × ℕ))
      → Has i order
      → Has j order
      → i ≢ j
      → slot (rekeyed c i s l b e index) j ≡ slot c j
  unfolding slot
  slot-rekeyed_ne i j s l b e index hi hj ne = slot-updated_ne c order v i j s l b e hi hj ne

  rekeyed-indexed :
      (i : ℕ) (s : Slot) (l : Links) (b e : ℕ) (order' : List ℕ)
      → Has i order
      → lookup s.k c.hash_map ≡ none
      → ((j : ℕ) → Has j order → Has j order')
      → (k : Bytes) (j : ℕ) → lookup k (insert s.k i (delete (slot c i).k c.hash_map)) ≡ some j
      → Has j order'
        × ((slot (rekeyed c i s l b e (insert s.k i (delete (slot c i).k c.hash_map))) j).k ≡ k)
  rekeyed-indexed i s l b e order' hi new to k j h =
      let index = insert s.k i (delete (slot c i).k c.hash_map) in
      elim (moved-cases (slot c i).k s.k k i j c.hash_map h) [
        | inl (q, r) ↦ (
          to j (subst (λ n. Has n order) r hi),
          ap (λ (n : ℕ). (slot (rekeyed c i s l b e index) n).k) (sym r)
              ∙ ap (λ (t : Slot). t.k) (slot-rekeyed_self i s l b e index hi)
              ∙ q,
        )
        | inr (q, r, w) ↦
            let old = v.indexed k j w in
            (
              to j old.0,
              ap (λ (t : Slot). t.k)
                    (slot-rekeyed_ne i j s l b e index hi old.0
                      (λ same. r (ap (λ (n : ℕ). (slot c n).k) same ∙ old.1)))
                  ∙ old.1,
            )
      ]

  rekeyed-found :
      (i : ℕ) (s : Slot) (l : Links) (b e : ℕ) (order' : List ℕ)
      → Has i order
      → lookup s.k c.hash_map ≡ none
      → ((j : ℕ) → Has j order' → Has j order)
      → (j : ℕ) → Has j order'
      → lookup
          (slot (rekeyed c i s l b e (insert s.k i (delete (slot c i).k c.hash_map))) j).k
          (insert s.k i (delete (slot c i).k c.hash_map))
        ≡ some j
  rekeyed-found i s l b e order' hi new from j h =
      let index = insert s.k i (delete (slot c i).k c.hash_map) in
      elim (nat-cases i j) [
        | inl q ↦
            subst (λ n. lookup (slot (rekeyed c i s l b e index) n).k index ≡ some n) q
              (ap (λ (t : Slot). lookup t.k index) (slot-rekeyed_self i s l b e index hi)
                ∙ moved_self (slot c i).k s.k i c.hash_map)
        | inr q ↦
            let old = v.found j (from j h) in
            ap (λ (t : Slot). lookup t.k index) (slot-rekeyed_ne i j s l b e index hi (from j h) q)
            ∙ moved-ne (slot c i).k s.k (slot c j).k i c.hash_map
                (λ w. none-ne (sym new ∙ ap (λ k. lookup k c.hash_map) w ∙ old))
                (λ w. q (some-inj (sym (v.found i hi) ∙ ap (λ k. lookup k c.hash_map) w ∙ old)))
            ∙ old
      ]

  -- The slot of another key is given to a new one.
  pub rekeyed-IsLru :
      (i : ℕ) (s : Slot) (l : Links) (b e : ℕ) (order' : List ℕ)
      → Has i order
      → lookup s.k c.hash_map ≡ none
      → IsSized l (suc (length c.m))
      → Chain l next prev 0 order' 0
      → Distinct (0 ∷ order')
      → AllBelow (suc c.last) order'
      → length order' ≡ length order
      → ((j : ℕ) → Has j order → Has j order')
      → ((j : ℕ) → Has j order' → Has j order)
      → IsLru (rekeyed c i s l b e (insert s.k i (delete (slot c i).k c.hash_map))) order'
  rekeyed-IsLru i s l b e order' hi new z chain d below len to from = record {
    sized = (
      z.0 ∙ ap suc (sym (length-set c.m (slot_index i) s)),
      z.1 ∙ ap suc (sym (length-set c.m (slot_index i) s)),
    );
    small = omega (arith, v.small, length-set c.m (slot_index i) s);
    linked = chain;
    distinct = d;
    below = below;
    used = len ∙ v.used;
    room = omega (arith, v.room, length-set c.m (slot_index i) s);
    indexed = rekeyed-indexed i s l b e order' hi new to;
    found = rekeyed-found i s l b e order' hi new from;
  }
