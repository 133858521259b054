-- ===== src/Hash/Migrate.antt =====
-- What migrateIn of apps/consistent_hash/migration.go makes of the recorded keys.
use swifty_go.Prelude.{
  ℕ, ◌≡◌, ◌<◌, ◌⊎◌, inl, inr, refl, sym, ap, subst, ◌∙◌, arith, Bool, true, false, not, ◌&&◌, ◌||◌,
  Bool-cases, none, some, List, [], ◌∷◌, Bytes, bytes_eq,
}
use swifty_go.Hash.{HashRing, Options, Move, max_int32, filter, move_keys}
use swifty_go.Hash.Contract.{IsHashRing, has_key}
use swifty_go.Hash.Owned.{IsOwned, Keeps}

pub has_key-filter :
    (p : Bytes → Bool) (k : Bytes) (ks : List Bytes)
    → has_key k (filter p ks) ≡ (has_key k ks && p k)
has_key-filter p k [] = refl
has_key-filter p k (j ∷ js) = elim (Bool-cases (bytes_eq.same j k)) [
  | inl q ↦
      let same = (bytes_eq.same_iff j k).0 q in
      elim (Bool-cases (p j)) [
        | inl r ↦ let r' = ap p (sym same) ∙ r in ground (arith, has_key-filter p k js)
        | inr r ↦ let r' = ap p (sym same) ∙ r in ground (arith, has_key-filter p k js)
      ]
  | inr q ↦ ground (arith, has_key-filter p k js)
]

pub and-true : (a b : Bool) → (a && b) ≡ true → (a ≡ true) × (b ≡ true)
and-true true true e = (refl, refl)
and-true true false e = absurd (cc e)
and-true false b e = absurd (cc e)

pub or-true : (a b : Bool) → (a || b) ≡ true → (a ≡ true) ⊎ (b ≡ true)
or-true true b e = inl refl
or-true false b e = inr e

module _ {W : Type 0} (r : HashRing W) (IsValid : W → Type 0) (at : W → ℕ → List Bytes)
    (recorded : W → Bytes → Bytes → Bool) (h : IsHashRing r IsValid at recorded)
    (encrypt : Bytes → ℕ) (small : (k : Bytes) → encrypt k < max_int32) (o : Options) where
  -- what a step that ends well says of the keys
  pub record IsSettled (w w' : W) : Type 0 where
    pub valid : IsValid w'
    pub owned : IsOwned r IsValid at recorded h encrypt w'
    pub keeps : Keeps r IsValid at recorded h encrypt w w'

  -- move_keys, where it ends well
  pub record HasMoved (w w' : W) (from to : Bytes) (ks : List Bytes) : Type 0 where
    pub moved_valid : IsValid w'
    pub moved_at : (j : ℕ) → at w' j ≡ at w j
    pub moved_recorded :
        (n k : Bytes)
        → recorded w' n k ≡ (
            (recorded w n k && not (bytes_eq.same from n && has_key k ks))
            || (bytes_eq.same to n && has_key k ks))

  pub move_keys-HasMoved :
      (w : W) (from to : Bytes) (ks : List Bytes) (m : Move)
      → IsValid w
      → (move_keys r encrypt o w from to ks).1 ≡ some m
      → HasMoved w (move_keys r encrypt o w from to ks).0 from to ks
  unfolding move_keys
  move_keys-HasMoved w from to ks m v e =
      let deleted = r.delete_node_to_data_keys w from ks in
      elim (Bool-cases deleted.1) [
        | inr q ↦
            let fails : (move_keys r encrypt o w from to ks).1 ≡ none = rw (q, move_keys) refl in
            absurd (cc (sym e ∙ fails))
        | inl q ↦
            let added = r.add_node_to_data_keys deleted.0 to ks in
            elim (Bool-cases added.1) [
              | inr p ↦
                  let fails : (move_keys r encrypt o w from to ks).1 ≡ none =
                    rw (q, p, move_keys) refl in
                  absurd (cc (sym e ∙ fails))
              | inl p ↦
                  let works : (move_keys r encrypt o w from to ks).0 ≡ added.0 =
                    rw (q, p, move_keys) refl in
                  subst (λ w'. HasMoved w w' from to ks) (sym works)
                    (record {
                      moved_valid = h.store_valid deleted.0 to ks (h.drop_valid w from ks v);
                      moved_at = λ j. h.store_at deleted.0 to ks j ∙ h.drop_at w from ks j;
                      moved_recorded = λ n k.
                          h.stored deleted.0 to n k ks p
                          ∙ ap (λ b. b || (bytes_eq.same to n && has_key k ks))
                              (h.dropped w from n k ks q);
                    })
            ]
      ]

  pub moved-Keeps :
      (w w' : W) (from to : Bytes) (ks : List Bytes)
      → HasMoved w w' from to ks
      → Keeps r IsValid at recorded h encrypt w w'
  moved-Keeps w w' from to ks f n k e = elim (Bool-cases (bytes_eq.same from n && has_key k ks)) [
    | inl q ↦ (
      to,
      f.moved_recorded to k
          ∙ ground (
            arith,
            (bytes_eq.same_iff to to).1 refl,
            (and-true (bytes_eq.same from n) (has_key k ks) q).1,
          ),
    )
    | inr q ↦ (n, f.moved_recorded n k ∙ rw (e, q) refl)
  ]
