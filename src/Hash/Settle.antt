-- ===== src/Hash/Settle.antt =====
-- migrateIn of apps/consistent_hash/migration.go settles the keys that a new virtual node takes.
use swifty_go.Prelude.{
  ℕ, ◌≡◌, ◌≢◌, ◌<◌, inl, inr, refl, sym, ap, subst, ◌∙◌, Bool, true, not, ◌&&◌, none, some,
  Option-cases, List, [], ◌∷◌, Bytes, bytes_eq,
}
use swifty_go.Hash.{
  HashRing, Options, Move, max_int32, get_node_id, in_range, filter, move_keys, take_keys,
  incr_score, decrease_score,
}
use swifty_go.Hash.Arc.{Next, Last, InArc-Next, Next-InArc, Next-before, wraps_once, Next-unique}
use swifty_go.Hash.Range.{in_range_iff}
use swifty_go.Hash.Contract.{IsHashRing, has_key}
use swifty_go.Hash.Owned.{IsOwned, Keeps-refl, Owner-at, Late, IsPending, cons-ne}
use swifty_go.Hash.Migrate.{
  has_key-filter, and-true, or-true, IsSettled, HasMoved, move_keys-HasMoved, moved-Keeps,
}

heads-eq : (xs : List Bytes) (u v : Bytes) (us vs : List Bytes) → xs ≡ u ∷ us → xs ≡ v ∷ vs → u ≡ v
heads-eq xs u v us vs e f = cc (sym e ∙ f)

module _ {W : Type 0} (r : HashRing W) (IsValid : W → Type 0) (at : W → ℕ → List Bytes)
    (recorded : W → Bytes → Bytes → Bool) (h : IsHashRing r IsValid at recorded)
    (encrypt : Bytes → ℕ) (small : (k : Bytes) → encrypt k < max_int32) (o : Options) where
  module _ (w : W) (cur : ℕ) (key node : Bytes) (valid : IsValid w)
      (pending : IsPending r IsValid at recorded h encrypt w cur key)
      (named : node ≡ get_node_id key) where
    -- nothing has to move where no key is late
    pub stays :
        ((n k : Bytes)
          → recorded w n k ≡ true
          → ¬ Late r IsValid at recorded h encrypt w cur key k n)
        → IsSettled r IsValid at recorded h encrypt small o w w
    stays never = record {
      valid = valid;
      owned = λ n k e. elim (pending n k e) [
        | inl owner ↦ owner
        | inr late ↦ absurd (never n k e late)
      ];
      keeps = Keeps-refl r IsValid at recorded h encrypt w;
    }

    module _ (joined : at w cur ≡ key ∷ []) (last next : ℕ)
        (l : Last (λ j. at w j ≢ []) (decrease_score cur) last) (l_ne : last ≢ cur)
        (n : Next (λ j. at w j ≢ []) (incr_score cur) next) (n_ne : next ≢ cur) where
      cur_used : at w cur ≢ []
      cur_used = λ e. cons-ne key [] (sym joined ∙ e)

      bound : (j : ℕ) → at w j ≢ [] → j < max_int32
      bound j u = h.bounded w j valid u

      range_iff :
          (k : Bytes)
          → (in_range last cur next (encrypt k) ≡ true → Next (λ j. at w j ≢ []) (encrypt k) cur)
            × (Next (λ j. at w j ≢ []) (encrypt k) cur → in_range last cur next (encrypt k) ≡ true)
      range_iff k =
          let exact =
            in_range_iff last cur next (encrypt k) (bound last l.0) (bound cur cur_used)
              (bound next n.0) (small k)
              (wraps_once (λ j. at w j ≢ []) bound cur cur_used last next l l_ne n.0) in
          (
            λ e.
                InArc-Next (λ j. at w j ≢ []) bound cur cur_used last (encrypt k) l l_ne
                  (exact.0 e),
            λ c.
                exact.1
                  (Next-InArc (λ j. at w j ≢ []) bound cur cur_used last (encrypt k) l.0 l_ne c),
          )

      module _ (v : Bytes) (vs : List Bytes) (head : at w next ≡ v ∷ vs) (keys : List Bytes)
          (known : (k : Bytes) → recorded w (get_node_id v) k ≡ has_key k keys) where
        abbrev wanted : List Bytes
        wanted = filter (λ k. in_range last cur next (encrypt k)) keys

        wanted_eq :
            (k : Bytes) → has_key k wanted ≡ (has_key k keys && in_range last cur next (encrypt k))
        wanted_eq k = has_key-filter (λ k. in_range last cur next (encrypt k)) k keys

        -- a late key is wanted, at the node after the new one
        wanted_there :
            (m k : Bytes)
            → recorded w m k ≡ true
            → Late r IsValid at recorded h encrypt w cur key k m
            → (bytes_eq.same (get_node_id v) m && has_key k wanted) ≡ true
        wanted_there m k e (c, (alone, (q, (nx, (u, us, (hd, i)))))) =
            let q_next =
              Next-unique (λ j. (at w j ≢ []) × (j ≢ cur)) (encrypt k) q next nx
                (Next-before (λ j. at w j ≢ []) bound cur cur_used (encrypt k) next (small k) n n_ne
                  c) in
            let first : u ≡ v = heads-eq (at w next) u v us vs (ap (at w) (sym q_next) ∙ hd) head in
            let owner : get_node_id v ≡ m = ap get_node_id (sym first) ∙ sym i in
            let there : has_key k keys ≡ true =
              sym (known k) ∙ ap (λ x. recorded w x k) owner ∙ e in
            let inside = (range_iff k).1 c in
            let same = (bytes_eq.same_iff (get_node_id v) m).1 owner in
            rw (same, wanted_eq k, there, inside) refl

        moved-IsOwned :
            (w' : W)
            → HasMoved r IsValid at recorded h encrypt small o w w' (get_node_id v) node wanted
            → IsOwned r IsValid at recorded h encrypt w'
        moved-IsOwned w' f m k e =
            let out = bytes_eq.same (get_node_id v) m && has_key k wanted in
            let in_new = bytes_eq.same node m && has_key k wanted in
            Owner-at r IsValid at recorded h encrypt w w' k m f.moved_at
              (elim (or-true (recorded w m k && not out) in_new (sym (f.moved_recorded m k) ∙ e)) [
                | inr new ↦
                    let (same, set) = and-true (bytes_eq.same node m) (has_key k wanted) new in
                    let (there, inside) =
                      and-true (has_key k keys) (in_range last cur next (encrypt k))
                        (sym (wanted_eq k) ∙ set) in
                    (
                      cur,
                      (
                        (range_iff k).0 inside,
                        (key, [], (joined, sym ((bytes_eq.same_iff node m).0 same) ∙ named)),
                      ),
                    )
                | inl old ↦
                    let (before, kept) = and-true (recorded w m k) (not out) old in
                    elim (pending m k before) [
                      | inl owner ↦ owner
                      | inr late ↦
                          let gone = wanted_there m k before late in
                          absurd (cc (sym kept ∙ ap not gone))
                    ]
              ])

      pub take_keys-IsSettled :
          (m : Move)
          → (take_keys r encrypt o w cur node last next).1 ≡ some m
          → IsSettled r IsValid at recorded h encrypt small o w
              (take_keys r encrypt o w cur node last next).0
      unfolding take_keys
      take_keys-IsSettled m e = elim (Option-cases (r.node w next)) [
        | inl q ↦
            let fails : (take_keys r encrypt o w cur node last next).1 ≡ none =
              rw (q, take_keys) refl in
            absurd (cc (sym e ∙ fails))
        | inr ([], q) ↦ absurd (n.0 (sym (h.node_at w next [] valid q)))
        | inr (v ∷ vs, q) ↦ elim (Option-cases (r.data_keys w (get_node_id v))) [
          | inl p ↦
              let fails : (take_keys r encrypt o w cur node last next).1 ≡ none =
                rw (q, p, take_keys) refl in
              absurd (cc (sym e ∙ fails))
          | inr (keys, p) ↦
              let set = filter (λ k. in_range last cur next (encrypt k)) keys in
              let works : take_keys r encrypt o w cur node last next
                  ≡ move_keys r encrypt o w (get_node_id v) node set =
                rw (q, p, take_keys) refl in
              let moved =
                move_keys-HasMoved r IsValid at recorded h encrypt small o w (get_node_id v) node
                  set m valid (ap (λ x. x.1) (sym works) ∙ e) in
              let w' = (move_keys r encrypt o w (get_node_id v) node set).0 in
              subst (λ x. IsSettled r IsValid at recorded h encrypt small o w x.0) (sym works)
                (record {
                  valid = moved.moved_valid;
                  owned =
                      moved-IsOwned v vs (sym (h.node_at w next (v ∷ vs) valid q)) keys
                        (λ k. h.keys_recorded w (get_node_id v) k keys valid p) w' moved;
                  keeps =
                      moved-Keeps r IsValid at recorded h encrypt small o w w' (get_node_id v) node
                        set moved;
                })
        ]
      ]
