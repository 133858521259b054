-- ===== src/Hash/Removed.antt =====
-- RemoveNode of apps/consistent_hash/consistent_hash.go: where the keys are recorded then.
use swifty_go.Prelude.{
  ℕ, zero, suc, ◌≡◌, ◌≢◌, ◌<◌, inl, inr, refl, sym, ap, subst, ◌∙◌, Bool, true, Bool-cases, none,
  some, Option-cases, List, [], ◌∷◌, Bytes, bytes_eq, lookup,
}
use swifty_go.Hash.{
  move_keys, HashRing, Options, Move, max_int32, get_node_id, get_raw_node_key, after_move,
}
use swifty_go.Hash.Arc.{Next-map, Next-unique}
use swifty_go.Hash.Contract.{IsHashRing, remove_first}
use swifty_go.Hash.Names.{get_node_id-get_raw_node_key}
use swifty_go.Hash.Owned.{IsOwned, Keeps, Keeps-refl, Keeps-trans}
use swifty_go.Hash.Migrate.{IsSettled}
use swifty_go.Hash.Adding.{
  Settled-trans, Shows-Settled, lock-Settled, unlock-Settled, after_move-some,
}
use swifty_go.Hash.Without.{without}
use swifty_go.Hash.Leaving.{
  AllNamed, remove_first-AllNamed, nat-cases, IsParting, IsOwned-IsParting, shrunk-IsParting,
}
use swifty_go.Hash.Parting.{HasParted, none-HasParted}
use swifty_go.Hash.Handed.{migrate_keys-HasParted}
use swifty_go.Hash.Removal.{migrate_out, migrate_keys, remove_virtual, remove_locked, remove_node}

without-head :
    (node v : Bytes) (xs vs : List Bytes) → without node xs ≡ v ∷ vs → get_node_id v ≢ node
without-head node v [] vs e = absurd (cc e)
without-head node v (x ∷ xs) vs e = elim (Bool-cases (bytes_eq.same (get_node_id x) node)) [
  | inl q ↦
      let skip : without node (x ∷ xs) ≡ without node xs = rw q refl in
      without-head node v xs vs (sym skip ∙ e)
  | inr q ↦
      let keep : without node (x ∷ xs) ≡ x ∷ without node xs = rw q refl in
      let head : x ≡ v = cc (sym keep ∙ e) in
      λ z. cc (q, (bytes_eq.same_iff (get_node_id x) node).1 (ap get_node_id head ∙ z))
]

module _ {W : Type 0} (r : HashRing W) (IsValid : W → Type 0) (at : W → ℕ → List Bytes)
    (recorded : W → Bytes → Bytes → Bool) (h : IsHashRing r IsValid at recorded)
    (encrypt : Bytes → ℕ) (small : (k : Bytes) → encrypt k < max_int32) (o : Options)
    (has : o.has_migrator ≡ true) (node : Bytes) where
  abbrev Parting : W → Type 0
  Parting w = IsParting r IsValid at recorded h encrypt small node w

  abbrev Settled : W → W → Type 0
  Settled w w' = IsSettled r IsValid at recorded h encrypt small o w w'

  -- the ring has virtual nodes of nodes with a name only
  abbrev pub IsNamed : W → Type 0
  IsNamed w = (j : ℕ) → AllNamed (at w j)

  migrate_out-HasParted :
      (fuel : ℕ) (w : W) (cur : ℕ) (key : Bytes) (m : Move) (valid : IsValid w)
      (parting : Parting w)
      → AllNamed (at w cur)
      → (migrate_out r encrypt o fuel w cur node).1 ≡ some m
      → HasParted r IsValid at recorded h encrypt small o node w valid cur key parting
          (migrate_out r encrypt o fuel w cur node).0
  unfolding migrate_out move_keys
  migrate_out-HasParted fuel w cur key m valid parting named e =
      let out = migrate_out r encrypt o fuel w cur node in
      let Parted = HasParted r IsValid at recorded h encrypt small o node w valid cur key parting in
      let nothing =
        none-HasParted r IsValid at recorded h encrypt small o node w valid cur key parting in
      elim (Option-cases (r.node w cur)) [
        | inl q ↦
            let fails : out.1 ≡ none = rw (has, q, migrate_out) refl in absurd (cc (sym e ∙ fails))
        | inr ([], q) ↦
            let stops : out.0 ≡ w = rw (has, q, migrate_out) refl in
            subst Parted (sym stops) (nothing (λ k known c. c.0 (sym (h.node_at w cur [] valid q))))
        | inr (v ∷ vs, q) ↦
            let head : at w cur ≡ v ∷ vs = sym (h.node_at w cur (v ∷ vs) valid q) in
            elim (Bool-cases (bytes_eq.same (get_node_id v) node)) [
              | inr p ↦
                  let stops : out.0 ≡ w = rw (has, q, p, migrate_out) refl in
                  subst Parted (sym stops) (
                    nothing (λ k known c. elim (parting node k known) [
                      | inl (ne, other) ↦ ne refl
                      | inr (self, (n, (next, (u, us, (e', i))))) ↦
                          let same = Next-unique (λ j. at w j ≢ []) (encrypt k) n cur next c in
                          let heads : u ∷ us ≡ v ∷ vs = sym e' ∙ ap (at w) same ∙ head in
                          let first : u ≡ v = cc heads in
                          cc (
                            p,
                            (bytes_eq.same_iff (get_node_id v) node).1
                                (ap get_node_id (sym first) ∙ sym i),
                          )
                    ]))
              | inl p ↦ elim (Option-cases (r.data_keys w node)) [
                | inl s ↦
                    let fails : out.1 ≡ none = rw (has, q, p, s, migrate_out) refl in
                    absurd (cc (sym e ∙ fails))
                | inr ([], s) ↦
                    let stops : out.0 ≡ w = rw (has, q, p, s, migrate_out) refl in
                    subst Parted (sym stops)
                      (nothing (λ k known c. cc (sym known ∙ h.keys_recorded w node k [] valid s)))
                | inr (x ∷ xs, s) ↦
                    let works : out ≡ migrate_keys r encrypt o fuel w cur node vs (x ∷ xs) =
                      rw (has, q, p, s, migrate_out) refl in
                    subst (λ y. Parted y.0) (sym works)
                      (migrate_keys-HasParted r IsValid at recorded h encrypt small o node w valid
                        cur key parting fuel v ((bytes_eq.same_iff (get_node_id v) node).0 p)
                        (x ∷ xs) (λ k. h.keys_recorded w node k (x ∷ xs) valid s) m vs head
                        (subst AllNamed head named).1 (ap (λ y. y.1) (sym works) ∙ e))
              ]
            ]
      ]

  -- what rounds of the loop do
  record IsRemoving (w w' : W) : Type 0 where
    removing_valid : IsValid w'
    still_parting : Parting w'
    removing_keeps : Keeps r IsValid at recorded h encrypt w w'

  one_less :
      (fuel : ℕ) (w : W) (i : ℕ) (m : Move)
      → IsValid w
      → Parting w
      → IsNamed w
      → let key = get_raw_node_key node i in
        let moved = migrate_out r encrypt o fuel w (encrypt key) node in
        moved.1 ≡ some m
        → (r.rem moved.0 (encrypt key) key).1 ≡ true
        → IsRemoving w (r.rem moved.0 (encrypt key) key).0
          × IsNamed (r.rem moved.0 (encrypt key) key).0
  one_less fuel w i m valid parting named e done =
      let key = get_raw_node_key node i in
      let cur = encrypt key in
      let w₁ = (migrate_out r encrypt o fuel w cur node).0 in
      let w₂ = (r.rem w₁ cur key).0 in
      let p = migrate_out-HasParted fuel w cur key m valid parting (named cur) e in
      let at_cur : at w₂ cur ≡ remove_first key (at w cur) =
        h.rem_at w₁ cur key p.parted_valid done ∙ ap (remove_first key) (p.parted_at cur) in
      let at_others : (j : ℕ) → j ≢ cur → at w₂ j ≡ at w j =
        λ j ne. h.rem_others w₁ cur j key p.parted_valid done ne ∙ p.parted_at j in
      (
        record {
          removing_valid = h.rem_valid w₁ cur key p.parted_valid done;
          still_parting =
              shrunk-IsParting r IsValid at recorded h encrypt small node w valid cur key w₁ w₂
                (get_node_id-get_raw_node_key node i) p.ready
                (record { at_cur = at_cur; at_others = at_others })
                (λ n k. h.rem_recorded w₁ cur key n k);
          removing_keeps = λ n k known.
              let kept = p.parted_keeps n k known in
              (kept.0, h.rem_recorded w₁ cur key kept.0 k ∙ kept.1);
        },
        λ j. elim (nat-cases j cur) [
          | inl same ↦
              subst AllNamed (sym (ap (at w₂) same ∙ at_cur))
                (remove_first-AllNamed key (at w cur) (named cur))
          | inr ne ↦ subst AllNamed (sym (at_others j ne)) (named j)
        ],
      )

  remove_virtual-IsRemoving :
      (fuel : ℕ) (w : W) (n i : ℕ) (ms : List Move)
      → IsValid w
      → Parting w
      → IsNamed w
      → (remove_virtual r encrypt o fuel w node n i).1 ≡ some ms
      → IsRemoving w (remove_virtual r encrypt o fuel w node n i).0
  unfolding remove_virtual
  remove_virtual-IsRemoving fuel w zero i ms valid parting named e = record {
    removing_valid = valid;
    still_parting = parting;
    removing_keeps = Keeps-refl r IsValid at recorded h encrypt w;
  }
  remove_virtual-IsRemoving fuel w (suc n) i ms valid parting named e =
      let key = get_raw_node_key node i in
      let moved = migrate_out r encrypt o fuel w (encrypt key) node in
      let removed = r.rem moved.0 (encrypt key) key in
      let rest = remove_virtual r encrypt o fuel removed.0 node n (suc i) in
      let whole = remove_virtual r encrypt o fuel w node (suc n) i in
      elim (Option-cases moved.1) [
        | inl q ↦
            let fails : whole.1 ≡ none = rw (q, remove_virtual) refl in absurd (cc (sym e ∙ fails))
        | inr (m, q) ↦ elim (Bool-cases removed.1) [
          | inr p ↦
              let fails : whole.1 ≡ none = rw (q, p, remove_virtual) refl in
              absurd (cc (sym e ∙ fails))
          | inl p ↦
              let works : whole ≡ after_move r encrypt o m rest = rw (q, p, remove_virtual) refl in
              let (ts, (known, same)) =
                after_move-some r IsValid at recorded h encrypt small o has m rest ms
                  (ap (λ x. x.1) (sym works) ∙ e) in
              let (first, named') = one_less fuel w i m valid parting named q p in
              let later =
                remove_virtual-IsRemoving fuel removed.0 n (suc i) ts first.removing_valid
                  first.still_parting named' known in
              subst (IsRemoving w) (sym same ∙ ap (λ x. x.0) (sym works)) (record {
                removing_valid = later.removing_valid;
                still_parting = later.still_parting;
                removing_keeps =
                    Keeps-trans r IsValid at recorded h encrypt w removed.0 rest.0
                      first.removing_keeps later.removing_keeps;
              })
        ]
      ]

  -- with no virtual node of the node left, its ring is the ring without it
  gone-IsOwned :
      (w : W)
      → Parting w
      → ((j : ℕ) → without node (at w j) ≡ at w j)
      → IsOwned r IsValid at recorded h encrypt w
  gone-IsOwned w parting gone n k e = elim (parting n k e) [
    | inl (ne, (q, (next, (v, vs, (seen, i))))) ↦ (
      q,
      (
        Next-map (λ j. without node (at w j) ≢ []) (λ j. at w j ≢ []) (encrypt k) q
            (λ j u z. u (gone j ∙ z)) (λ j u z. u (sym (gone j) ∙ z)) next,
        (v, vs, (sym (gone q) ∙ seen, i)),
      ),
    )
    | inr (self, (q, (next, (v, vs, (head, i))))) ↦
        absurd (without-head node v (at w q) vs (gone q ∙ head) (sym i))
  ]

  remove_locked-IsRemoving :
      (fuel : ℕ) (w : W) (ms : List Move)
      → IsValid w
      → IsOwned r IsValid at recorded h encrypt w
      → IsNamed w
      → (remove_locked r encrypt o fuel w node).1 ≡ some ms
      → IsRemoving w (remove_locked r encrypt o fuel w node).0
  unfolding remove_locked
  remove_locked-IsRemoving fuel w ms valid own named e =
      let whole = remove_locked r encrypt o fuel w node in
      elim (Option-cases (r.nodes w)) [
        | inl q ↦
            let fails : whole.1 ≡ none = rw (q, remove_locked) refl in absurd (cc (sym e ∙ fails))
        | inr (nodes, q) ↦ elim (Option-cases (lookup node nodes)) [
          | inl new ↦
              let fails : whole.1 ≡ none = rw (q, new, remove_locked) refl in
              absurd (cc (sym e ∙ fails))
          | inr (replicas, known) ↦
              let unmarked = r.delete_node_to_replica w node in
              elim (Bool-cases unmarked.1) [
                | inr p ↦
                    let fails : whole.1 ≡ none = rw (q, known, p, remove_locked) refl in
                    absurd (cc (sym e ∙ fails))
                | inl p ↦
                    let works : whole ≡ remove_virtual r encrypt o fuel unmarked.0 node replicas 0 =
                      rw (q, known, p, remove_locked) refl in
                    let first =
                      Shows-Settled r IsValid at recorded h encrypt small o has w unmarked.0
                        (h.unmark_valid w node valid) own
                        (record {
                          same_at = λ j. h.unmark_at w node j;
                          same_recorded = λ n k. h.unmark_recorded w node n k;
                        }) in
                    let later =
                      remove_virtual-IsRemoving fuel unmarked.0 replicas 0 ms first.valid
                        (IsOwned-IsParting r IsValid at recorded h encrypt small node unmarked.0
                          first.owned)
                        (λ j. subst AllNamed (sym (h.unmark_at w node j)) (named j))
                        (ap (λ x. x.1) (sym works) ∙ e) in
                    subst (λ x. IsRemoving w x.0) (sym works)
                      (record {
                        removing_valid = later.removing_valid;
                        still_parting = later.still_parting;
                        removing_keeps =
                            Keeps-trans r IsValid at recorded h encrypt w unmarked.0 _ first.keeps
                              later.removing_keeps;
                      })
              ]
        ]
      ]

  -- On a ring that keeps to the contract, with scores below the bound, nodes that have names and
  -- each recorded data key at its owner: a node that is removed with a migrator, where no call
  -- fails and no virtual node of it is left in the end, leaves each recorded key recorded, and
  -- each at its owner on the ring that remains.
  pub remove_node-IsSettled :
      (fuel : ℕ) (w : W) (ms : List Move)
      → IsValid w
      → IsOwned r IsValid at recorded h encrypt w
      → IsNamed w
      → (remove_node r encrypt o fuel w node).1 ≡ some ms
      → ((j : ℕ)
          → let w' = (remove_node r encrypt o fuel w node).0 in without node (at w' j) ≡ at w' j)
      → Settled w (remove_node r encrypt o fuel w node).0
  unfolding remove_node
  remove_node-IsSettled fuel w ms valid own named e gone =
      let locked = r.lock w o.lock_expire_seconds in
      let whole = remove_node r encrypt o fuel w node in
      elim (Bool-cases locked.1) [
        | inr q ↦
            let fails : whole.1 ≡ none = rw (q, remove_node) refl in absurd (cc (sym e ∙ fails))
        | inl q ↦
            let done = remove_locked r encrypt o fuel locked.0 node in
            let works : whole ≡ (r.unlock done.0, done.1) = rw (q, remove_node) refl in
            let first = lock-Settled r IsValid at recorded h encrypt small o has w valid own in
            let later =
              remove_locked-IsRemoving fuel locked.0 ms first.valid first.owned
                (λ j. subst AllNamed (sym (h.lock_at w o.lock_expire_seconds j)) (named j))
                (ap (λ x. x.1) (sym works) ∙ e) in
            let final : (j : ℕ) → at whole.0 j ≡ at done.0 j =
              λ j. ap (λ x. at x.0 j) works ∙ h.unlock_at done.0 j in
            let settled : Settled locked.0 done.0 = record {
              valid = later.removing_valid;
              owned =
                  gone-IsOwned done.0 later.still_parting
                    (λ j. ap (without node) (sym (final j)) ∙ gone j ∙ final j);
              keeps = later.removing_keeps;
            } in
            let trans = Settled-trans r IsValid at recorded h encrypt small o has in
            subst (λ x. Settled w x.0) (sym works)
              (trans w locked.0 (r.unlock done.0) first (
                trans locked.0 done.0 (r.unlock done.0) settled (
                  unlock-Settled r IsValid at recorded h encrypt small o has done.0 settled.valid
                    settled.owned)))
      ]
