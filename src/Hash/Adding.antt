-- ===== src/Hash/Adding.antt =====
-- AddNode and GetNode of apps/consistent_hash/consistent_hash.go: where the keys are recorded.
use swifty_go.Prelude.{
  ℕ, suc, zero, ◌*◌, ◌≡◌, ◌<◌, inl, inr, refl, sym, ap, subst, ◌∙◌, Bool, true, Bool-cases, Option,
  none, some, Option-cases, List, Bytes, bytes_eq, lookup,
}
use swifty_go.Hash.{
  HashRing, Options, Move, max_int32, get_raw_node_key, get_valid_weight, migrate_in, after_move,
  add_virtual, add_locked, add_node,
}
use swifty_go.Hash.Contract.{IsHashRing}
use swifty_go.Hash.Names.{get_node_id-get_raw_node_key}
use swifty_go.Hash.Owned.{
  IsOwned, Keeps-refl, Keeps-trans, Shows, Shows-IsOwned, Shows-Keeps, add-IsPending, add-HasJoined,
}
use swifty_go.Hash.Migrate.{IsSettled}
use swifty_go.Hash.Between.{migrate_in-IsSettled}

module _ {W : Type 0} (r : HashRing W) (IsValid : W → Type 0) (at : W → ℕ → List Bytes)
    (recorded : W → Bytes → Bytes → Bool) (h : IsHashRing r IsValid at recorded)
    (encrypt : Bytes → ℕ) (small : (k : Bytes) → encrypt k < max_int32) (o : Options)
    (has : o.has_migrator ≡ true) where
  abbrev Settled : W → W → Type 0
  Settled w w' = IsSettled r IsValid at recorded h encrypt small o w w'

  abbrev Owned : W → Type 0
  Owned w = IsOwned r IsValid at recorded h encrypt w

  -- one virtual node of the loop
  one_more :
      (w : W) (node_id : Bytes) (i : ℕ) (m : Move)
      → IsValid w
      → Owned w
      → let key = get_raw_node_key node_id i in
        let added = r.add w (encrypt key) key in
        added.1 ≡ true
        → (migrate_in r encrypt o added.0 (encrypt key) node_id).1 ≡ some m
        → Settled w (migrate_in r encrypt o added.0 (encrypt key) node_id).0
  one_more w node_id i m v own done e =
      let key = get_raw_node_key node_id i in
      let below = small key in
      let w' = (r.add w (encrypt key) key).0 in
      let settled =
        migrate_in-IsSettled r IsValid at recorded h encrypt small o w' (encrypt key) key node_id
          (h.add_valid w (encrypt key) key v below done)
          (add-IsPending r IsValid at recorded h encrypt w (encrypt key) key v below done own)
          (sym (get_node_id-get_raw_node_key node_id i)) m has
          (add-HasJoined r IsValid at recorded h encrypt w (encrypt key) key v below done) e in
      record {
        valid = settled.valid;
        owned = settled.owned;
        keeps = λ n k known. settled.keeps n k (h.add_recorded w (encrypt key) key n k ∙ known);
      }

  pub Settled-trans : (w w' w'' : W) → Settled w w' → Settled w' w'' → Settled w w''
  Settled-trans w w' w'' f g = record {
    valid = g.valid;
    owned = g.owned;
    keeps = Keeps-trans r IsValid at recorded h encrypt w w' w'' f.keeps g.keeps;
  }

  pub Shows-Settled :
      (w w' : W) → IsValid w' → Owned w → Shows r IsValid at recorded h encrypt w w' → Settled w w'
  Shows-Settled w w' v own f = record {
    valid = v;
    owned = Shows-IsOwned r IsValid at recorded h encrypt w w' f own;
    keeps = Shows-Keeps r IsValid at recorded h encrypt w w' f;
  }

  pub lock-Settled : (w : W) → IsValid w → Owned w → Settled w (r.lock w o.lock_expire_seconds).0
  lock-Settled w v own =
      let e = o.lock_expire_seconds in
      Shows-Settled w (r.lock w e).0 (h.lock_valid w e v) own
        (record { same_at = λ j. h.lock_at w e j; same_recorded = λ n k. h.lock_recorded w e n k })

  pub unlock-Settled : (w : W) → IsValid w → Owned w → Settled w (r.unlock w)
  unlock-Settled w v own =
      Shows-Settled w (r.unlock w) (h.unlock_valid w v) own
        (record { same_at = λ j. h.unlock_at w j; same_recorded = λ n k. h.unlock_recorded w n k })

  mark-Settled :
      (w : W) (n : Bytes) (c : ℕ) → IsValid w → Owned w → Settled w (r.add_node_to_replica w n c).0
  mark-Settled w n c v own =
      Shows-Settled w (r.add_node_to_replica w n c).0 (h.replica_valid w n c v) own (record {
        same_at = λ j. h.replica_at w n c j;
        same_recorded = λ m k. h.replica_recorded w n c m k;
      })

  pub after_move-some :
      (m : Move) (x : W × Option (List Move)) (ms : List Move)
      → (after_move r encrypt o m x).1 ≡ some ms
      → (ts : List Move) × ((x.1 ≡ some ts) × ((after_move r encrypt o m x).0 ≡ x.0))
  after_move-some m (w, none) ms e = absurd (cc e)
  after_move-some m (w, some ts) ms e = (ts, (refl, refl))

  add_virtual-Settled :
      (w : W) (node_id : Bytes) (n i : ℕ) (ms : List Move)
      → IsValid w
      → Owned w
      → (add_virtual r encrypt o w node_id n i).1 ≡ some ms
      → Settled w (add_virtual r encrypt o w node_id n i).0
  unfolding add_virtual
  add_virtual-Settled w node_id zero i ms v own e = record {
    valid = v;
    owned = own;
    keeps = Keeps-refl r IsValid at recorded h encrypt w;
  }
  add_virtual-Settled w node_id (suc n) i ms v own e =
      let key = get_raw_node_key node_id i in
      let added = r.add w (encrypt key) key in
      let moved = migrate_in r encrypt o added.0 (encrypt key) node_id in
      let rest = add_virtual r encrypt o moved.0 node_id n (suc i) in
      elim (Bool-cases added.1) [
        | inr q ↦
            let fails : (add_virtual r encrypt o w node_id (suc n) i).1 ≡ none =
              rw (q, add_virtual) refl in
            absurd (cc (sym e ∙ fails))
        | inl q ↦ elim (Option-cases moved.1) [
          | inl p ↦
              let fails : (add_virtual r encrypt o w node_id (suc n) i).1 ≡ none =
                rw (q, p, add_virtual) refl in
              absurd (cc (sym e ∙ fails))
          | inr (m, p) ↦
              let first = one_more w node_id i m v own q p in
              let works : add_virtual r encrypt o w node_id (suc n) i
                  ≡ after_move r encrypt o m rest =
                rw (q, p, add_virtual) refl in
              let (ts, (known, same)) = after_move-some m rest ms (ap (λ x. x.1) (sym works) ∙ e) in
              let later =
                add_virtual-Settled moved.0 node_id n (suc i) ts first.valid first.owned known in
              subst (Settled w) (sym same ∙ ap (λ x. x.0) (sym works))
                (Settled-trans w moved.0 rest.0 first later)
        ]
      ]

  add_locked-Settled :
      (w : W) (node_id : Bytes) (weight : ℕ) (ms : List Move)
      → IsValid w
      → Owned w
      → (add_locked r encrypt o w node_id weight).1 ≡ some ms
      → Settled w (add_locked r encrypt o w node_id weight).0
  unfolding add_locked
  add_locked-Settled w node_id weight ms v own e = elim (Option-cases (r.nodes w)) [
    | inl q ↦
        let fails : (add_locked r encrypt o w node_id weight).1 ≡ none = rw (q, add_locked) refl in
        absurd (cc (sym e ∙ fails))
    | inr (nodes, q) ↦ elim (Option-cases (lookup node_id nodes)) [
      | inr (c, known) ↦
          let fails : (add_locked r encrypt o w node_id weight).1 ≡ none =
            rw (q, known, add_locked) refl in
          absurd (cc (sym e ∙ fails))
      | inl new ↦
          let replicas = get_valid_weight weight * o.replicas in
          let marked = r.add_node_to_replica w node_id replicas in
          elim (Bool-cases marked.1) [
            | inr p ↦
                let fails : (add_locked r encrypt o w node_id weight).1 ≡ none =
                  rw (q, new, p, add_locked) refl in
                absurd (cc (sym e ∙ fails))
            | inl p ↦
                let works : add_locked r encrypt o w node_id weight
                    ≡ add_virtual r encrypt o marked.0 node_id replicas 0 =
                  rw (q, new, p, add_locked) refl in
                let first = mark-Settled w node_id replicas v own in
                subst (λ x. Settled w x.0) (sym works)
                  (Settled-trans w marked.0 _ first (
                    add_virtual-Settled marked.0 node_id replicas 0 ms first.valid first.owned
                      (ap (λ x. x.1) (sym works) ∙ e)))
          ]
    ]
  ]

  -- On a ring that keeps to the contract, with scores below the bound and each recorded data key
  -- at the node that owns its score (that of the first virtual node at the next score in use): a
  -- node that is added with a migrator, where no call of the ring fails, leaves each recorded key
  -- recorded, and each at its owner on the ring with the new virtual nodes.
  pub add_node-IsSettled :
      (w : W) (node_id : Bytes) (weight : ℕ) (ms : List Move)
      → IsValid w
      → Owned w
      → (add_node r encrypt o w node_id weight).1 ≡ some ms
      → Settled w (add_node r encrypt o w node_id weight).0
  unfolding add_node
  add_node-IsSettled w node_id weight ms v own e =
      let locked = r.lock w o.lock_expire_seconds in
      elim (Bool-cases locked.1) [
        | inr q ↦
            let fails : (add_node r encrypt o w node_id weight).1 ≡ none = rw (q, add_node) refl in
            absurd (cc (sym e ∙ fails))
        | inl q ↦
            let done = add_locked r encrypt o locked.0 node_id weight in
            let works : add_node r encrypt o w node_id weight ≡ (r.unlock done.0, done.1) =
              rw (q, add_node) refl in
            let first = lock-Settled w v own in
            let second =
              add_locked-Settled locked.0 node_id weight ms first.valid first.owned
                (ap (λ x. x.1) (sym works) ∙ e) in
            subst (λ x. Settled w x.0) (sym works)
              (Settled-trans w locked.0 (r.unlock done.0) first (
                Settled-trans locked.0 done.0 (r.unlock done.0) second
                  (unlock-Settled done.0 second.valid second.owned)))
      ]
