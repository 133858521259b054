-- ===== src/Hash/Getting.antt =====
-- GetNode of apps/consistent_hash/consistent_hash.go: the node that owns a data key.
use swifty_go.Prelude.{
  ℕ, ◌≡◌, ◌<◌, inl, inr, refl, sym, ap, subst, ◌∙◌, arith, Bool, true, false, ◌&&◌, ◌||◌,
  Bool-cases, none, some, some-inj, Option-cases, List, [], ◌∷◌, ◌==◌, ==_iff, Bytes, bytes_eq,
}
use swifty_go.Hash.{HashRing, Options, max_int32, minus_one, get_node_id, get_locked, get_node}
use swifty_go.Hash.Contract.{IsHashRing, has_key}
use swifty_go.Hash.Owned.{Owner, Owner-at, IsOwned}
use swifty_go.Hash.Migrate.{IsSettled, or-true, and-true}
use swifty_go.Hash.Adding.{Settled-trans, lock-Settled, unlock-Settled}

module _ {W : Type 0} (r : HashRing W) (IsValid : W → Type 0) (at : W → ℕ → List Bytes)
    (recorded : W → Bytes → Bytes → Bool) (h : IsHashRing r IsValid at recorded)
    (encrypt : Bytes → ℕ) (small : (k : Bytes) → encrypt k < max_int32) (o : Options)
    (has : o.has_migrator ≡ true) where
  abbrev Settled : W → W → Type 0
  Settled w w' = IsSettled r IsValid at recorded h encrypt small o w w'

  -- a key has got its node
  pub record HasFound (w w' : W) (k n : Bytes) : Type 0 where
    pub settled : Settled w w'
    pub owner : Owner r IsValid at recorded h encrypt w' k n
    pub is_recorded : recorded w' n k ≡ true

  -- the key is stored at its owner
  store-HasFound :
      (w : W) (k n : Bytes)
      → IsValid w
      → IsOwned r IsValid at recorded h encrypt w
      → Owner r IsValid at recorded h encrypt w k n
      → (r.add_node_to_data_keys w n (k ∷ [])).1 ≡ true
      → HasFound w (r.add_node_to_data_keys w n (k ∷ [])).0 k n
  store-HasFound w k n v own owner done =
      let w' = (r.add_node_to_data_keys w n (k ∷ [])).0 in
      let after : (m j : Bytes)
          → recorded w' m j ≡ (recorded w m j || (bytes_eq.same n m && has_key j (k ∷ []))) =
        λ m j. h.stored w n m j (k ∷ []) done in
      let same_at : (j : ℕ) → at w' j ≡ at w j = λ j. h.store_at w n (k ∷ []) j in
      let move = λ (j m : Bytes). Owner-at r IsValid at recorded h encrypt w w' j m same_at in
      record {
        settled = record {
          valid = h.store_valid w n (k ∷ []) v;
          owned = λ m j e.
              elim (or-true (recorded w m j) (bytes_eq.same n m && has_key j (k ∷ []))
                (sym (after m j) ∙ e)) [
                  | inl old ↦ move j m (own m j old)
                  | inr new ↦
                      let (node, key) = and-true (bytes_eq.same n m) (has_key j (k ∷ [])) new in
                      elim (or-true (bytes_eq.same k j) false key) [
                        | inl same ↦
                            subst (λ i. Owner r IsValid at recorded h encrypt w' i m)
                              ((bytes_eq.same_iff k j).0 same)
                              (subst (λ i. Owner r IsValid at recorded h encrypt w' k i)
                                ((bytes_eq.same_iff n m).0 node) (move k n owner))
                        | inr never ↦ absurd (cc never)
                      ]
                ];
          keeps = λ m j e. (m, after m j ∙ rw e refl);
        };
        owner = move k n owner;
        is_recorded =
            after n k
            ∙ ground (arith, (bytes_eq.same_iff n n).1 refl, (bytes_eq.same_iff k k).1 refl);
      }

  get_locked-HasFound :
      (w : W) (k n : Bytes)
      → IsValid w
      → IsOwned r IsValid at recorded h encrypt w
      → (get_locked r encrypt o w k).1 ≡ some n
      → HasFound w (get_locked r encrypt o w k).0 k n
  unfolding get_locked
  get_locked-HasFound w k n v own e = elim (Option-cases (r.ceiling w (encrypt k))) [
    | inl q ↦
        let fails : (get_locked r encrypt o w k).1 ≡ none = rw (q, get_locked) refl in
        absurd (cc (sym e ∙ fails))
    | inr (score, q) ↦ elim (Bool-cases (score == minus_one)) [
      | inl p ↦
          let fails : (get_locked r encrypt o w k).1 ≡ none = rw (q, p, get_locked) refl in
          absurd (cc (sym e ∙ fails))
      | inr p ↦ elim (Option-cases (r.node w score)) [
        | inl s ↦
            let fails : (get_locked r encrypt o w k).1 ≡ none = rw (q, p, s, get_locked) refl in
            absurd (cc (sym e ∙ fails))
        | inr ([], s) ↦
            let fails : (get_locked r encrypt o w k).1 ≡ none = rw (q, p, s, get_locked) refl in
            absurd (cc (sym e ∙ fails))
        | inr (m ∷ ms, s) ↦
            let stored = r.add_node_to_data_keys w (get_node_id m) (k ∷ []) in
            let heads = sym (h.node_at w score (m ∷ ms) v s) in
            elim (Bool-cases stored.1) [
              | inr f ↦
                  let fails : (get_locked r encrypt o w k).1 ≡ none =
                    rw (q, p, s, f, get_locked) refl in
                  absurd (cc (sym e ∙ fails))
              | inl f ↦
                  let works : get_locked r encrypt o w k ≡ (stored.0, some (get_node_id m)) =
                    rw (q, p, s, f, get_locked) refl in
                  let found : get_node_id m ≡ n = some-inj (ap (λ x. x.1) (sym works) ∙ e) in
                  elim (h.ceiling_next w (encrypt k) score v (small k) q) [
                    | inl (missing, free) ↦ absurd (cc (p, (==_iff score minus_one).1 missing))
                    | inr next ↦
                        subst (λ i. HasFound w (get_locked r encrypt o w k).0 k i) found
                          (subst (λ x. HasFound w x.0 k (get_node_id m)) (sym works)
                            (store-HasFound w k (get_node_id m) v own
                              (score, (next, (m, ms, (heads, refl)))) f))
                  ]
            ]
      ]
    ]
  ]

  -- On a ring that keeps to the contract, with scores below the bound and each recorded data key
  -- at its owner: a node that GetNode returns for a data key, with a migrator, owns the key's
  -- score, the key is recorded at it, and the other keys stay recorded, each at its owner.
  pub get_node-HasFound :
      (w : W) (k n : Bytes)
      → IsValid w
      → IsOwned r IsValid at recorded h encrypt w
      → (get_node r encrypt o w k).1 ≡ some n
      → HasFound w (get_node r encrypt o w k).0 k n
  unfolding get_node
  get_node-HasFound w k n v own e =
      let locked = r.lock w o.lock_expire_seconds in
      elim (Bool-cases locked.1) [
        | inr q ↦
            let fails : (get_node r encrypt o w k).1 ≡ none = rw (q, get_node) refl in
            absurd (cc (sym e ∙ fails))
        | inl q ↦
            let done = get_locked r encrypt o locked.0 k in
            let works : get_node r encrypt o w k ≡ (r.unlock done.0, done.1) =
              rw (q, get_node) refl in
            let first = lock-Settled r IsValid at recorded h encrypt small o has w v own in
            let found =
              get_locked-HasFound locked.0 k n first.valid first.owned
                (ap (λ x. x.1) (sym works) ∙ e) in
            let last =
              unlock-Settled r IsValid at recorded h encrypt small o has done.0 found.settled.valid
                found.settled.owned in
            let trans = Settled-trans r IsValid at recorded h encrypt small o has in
            subst (λ x. HasFound w x.0 k n) (sym works)
              (record {
                settled =
                    trans w locked.0 (r.unlock done.0) first
                      (trans locked.0 done.0 (r.unlock done.0) found.settled last);
                owner =
                    Owner-at r IsValid at recorded h encrypt done.0 (r.unlock done.0) k n
                      (λ j. h.unlock_at done.0 j) found.owner;
                is_recorded = h.unlock_recorded done.0 n k ∙ found.is_recorded;
              })
      ]
