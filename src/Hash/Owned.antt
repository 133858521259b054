-- ===== src/Hash/Owned.antt =====
-- Which node a data key of apps/consistent_hash belongs to, before and after a virtual node is added.
use swifty_go.Prelude.{
  ℕ, ◌≡◌, ◌≢◌, ◌<◌, ◌⊎◌, inl, inr, refl, sym, ap, subst, ◌∙◌, arith, Bool, true, List, [], ◌∷◌,
  Bytes, bytes_eq,
}
use swifty_go.Hash.{HashRing, max_int32, get_node_id}
use swifty_go.Hash.Arc.{Next, Next-map, Next-new, Next-unique}
use swifty_go.Hash.Contract.{IsHashRing, Pushed}

nil-cases : (xs : List Bytes) → (xs ≡ []) ⊎ ((v : Bytes) × (vs : List Bytes) × (xs ≡ v ∷ vs))
nil-cases [] = inl refl
nil-cases (v ∷ vs) = inr (v, vs, refl)

pub cons-ne : (v : Bytes) (vs : List Bytes) → v ∷ vs ≢ []
cons-ne v vs = λ e. cc e

nat-cases : (a b : ℕ) → (a ≡ b) ⊎ (a ≢ b)
nat-cases a b = omega arith

module _ {W : Type 0} (r : HashRing W) (IsValid : W → Type 0) (at : W → ℕ → List Bytes)
    (recorded : W → Bytes → Bytes → Bool) (h : IsHashRing r IsValid at recorded)
    (encrypt : Bytes → ℕ) where
  abbrev pub InUse : W → ℕ → Type 0
  InUse w j = at w j ≢ []

  -- the first virtual node at a score is one of the node's
  abbrev pub Heads : W → ℕ → Bytes → Type 0
  Heads w q n = (v : Bytes) × (vs : List Bytes) × ((at w q ≡ v ∷ vs) × (n ≡ get_node_id v))

  -- the node that a key belongs to
  abbrev pub Owner : W → Bytes → Bytes → Type 0
  Owner w k n = (q : ℕ) × (Next (InUse w) (encrypt k) q × Heads w q n)

  -- each key is recorded where it belongs only
  abbrev pub IsOwned : W → Type 0
  IsOwned w = (n k : Bytes) → recorded w n k ≡ true → Owner w k n

  -- no key that was recorded is lost
  abbrev pub Keeps : W → W → Type 0
  Keeps w w' = (n k : Bytes) → recorded w n k ≡ true → (m : Bytes) × (recorded w' m k ≡ true)

  pub Keeps-refl : (w : W) → Keeps w w
  Keeps-refl w n k e = (n, e)

  pub Keeps-trans : (w w' w'' : W) → Keeps w w' → Keeps w' w'' → Keeps w w''
  Keeps-trans w w' w'' f g n k e = let at_m = f n k e in g at_m.0 k at_m.1

  -- a world that shows the same ring and the same keys
  pub record Shows (w w' : W) : Type 0 where
    pub same_at : (j : ℕ) → at w' j ≡ at w j
    pub same_recorded : (n k : Bytes) → recorded w' n k ≡ recorded w n k

  pub Owner-at :
      (w w' : W) (k n : Bytes) → ((j : ℕ) → at w' j ≡ at w j) → Owner w k n → Owner w' k n
  Owner-at w w' k n same (q, (next, (v, vs, (e, i)))) = (
    q,
    (
      Next-map (InUse w) (InUse w') (encrypt k) q (λ j u e'. u (sym (same j) ∙ e'))
          (λ j u e'. u (same j ∙ e')) next,
      (v, vs, (same q ∙ e, i)),
    ),
  )

  pub Shows-IsOwned : (w w' : W) → Shows w w' → IsOwned w → IsOwned w'
  Shows-IsOwned w w' f o n k e = Owner-at w w' k n f.same_at (o n k (sym (f.same_recorded n k) ∙ e))

  pub Shows-Keeps : (w w' : W) → Shows w w' → Keeps w w'
  Shows-Keeps w w' f n k e = (n, f.same_recorded n k ∙ e)

  -- a key belongs to one node
  pub Owner-unique : (w : W) (k n m : Bytes) → Owner w k n → Owner w k m → n ≡ m
  Owner-unique w k n m (q, (next, (v, vs, (e, i)))) (q', (next', (v', vs', (e', i')))) =
      let same = Next-unique (InUse w) (encrypt k) q q' next next' in
      let heads : v ∷ vs ≡ v' ∷ vs' = sym e ∙ ap (at w) same ∙ e' in
      let head : v ≡ v' = cc heads in i ∙ ap get_node_id head ∙ sym i'

  -- a key that is recorded where it belonged before a virtual node took the score cur alone
  abbrev pub Late : W → ℕ → Bytes → Bytes → Bytes → Type 0
  Late w cur key k n =
      Next (InUse w) (encrypt k) cur
      × ((at w cur ≡ key ∷ [])
          × ((q : ℕ) × (Next (λ j. InUse w j × (j ≢ cur)) (encrypt k) q × Heads w q n)))

  abbrev pub IsPending : W → ℕ → Bytes → Type 0
  IsPending w cur key = (n k : Bytes) → recorded w n k ≡ true → Owner w k n ⊎ Late w cur key k n

  -- how a score looks with a virtual node just added
  abbrev pub HasJoined : W → ℕ → Bytes → Type 0
  HasJoined w cur key =
      (at w cur ≡ key ∷ []) ⊎ ((v u : Bytes) × (vs : List Bytes) × (at w cur ≡ v ∷ u ∷ vs))

  module _ (w : W) (cur : ℕ) (key : Bytes) (valid : IsValid w) (below : cur < max_int32)
      (done : (r.add w cur key).1 ≡ true) where
    abbrev w' : W
    w' = (r.add w cur key).0

    others : (j : ℕ) → j ≢ cur → at w' j ≡ at w j
    others j ne = h.add_others w cur j key valid done ne

    after_push : (xs ys : List Bytes) → Pushed key xs ys → at w' cur ≡ ys → HasJoined w' cur key
    after_push [] ys p e = inl (e ∙ p)
    after_push (v ∷ vs) ys ([], (p, inl same)) e = inl (e ∙ p ∙ ap (λ x. x ∷ []) same)
    after_push (v ∷ vs) ys ([], (p, inr ne)) e = absurd (ne refl)
    after_push (v ∷ vs) ys (u ∷ zs, (p, _)) e = inr (v, u, zs, e ∙ p)

    pub add-HasJoined : HasJoined w' cur key
    add-HasJoined = after_push (at w cur) (at w' cur) (h.add_pushed w cur key valid done) refl

    -- the score was free
    fresh-IsPending : at w cur ≡ [] → IsOwned w → IsPending w' cur key
    fresh-IsPending free o n k e =
        let alone : at w' cur ≡ key ∷ [] =
          subst (λ xs. Pushed key xs (at w' cur)) free (h.add_pushed w cur key valid done) in
        let (q, (next, (v, vs, (head, i)))) = o n k (sym (h.add_recorded w cur key n k) ∙ e) in
        let apart : q ≢ cur = λ same. next.0 (ap (at w) same ∙ free) in
        let heads : Heads w' q n = (v, vs, (others q apart ∙ head, i)) in
        let next' =
          Next-map (InUse w) (λ j. InUse w' j × (j ≢ cur)) (encrypt k) q
            (λ j u. (
              (λ e'. u (sym (others j (λ same. u (ap (at w) same ∙ free))) ∙ e')),
              (λ same. u (ap (at w) same ∙ free)),
            ))
            (λ j u e'. u.0 (others j u.1 ∙ e')) next in
        elim (Next-new (InUse w') (λ j u. h.bounded w' j (h.add_valid w cur key valid below done) u)
          cur (λ e'. cc (sym alone ∙ e')) (encrypt k) q next') [
            | inl old ↦ inl (q, (old, heads))
            | inr new ↦ inr (new, (alone, (q, (next', heads))))
          ]

    -- the score was in use
    used-IsPending :
        (v : Bytes) (vs : List Bytes) → at w cur ≡ v ∷ vs → IsOwned w → IsPending w' cur key
    used-IsPending v vs used o n k e =
        let (zs, (joined, _)) =
          subst (λ xs. Pushed key xs (at w' cur)) used (h.add_pushed w cur key valid done) in
        let (q, (next, (u, us, (head, i)))) = o n k (sym (h.add_recorded w cur key n k) ∙ e) in
        let next' =
          Next-map (InUse w) (InUse w') (encrypt k) q
            (λ j g e'. elim (nat-cases j cur) [
              | inl same ↦ cons-ne v zs (sym joined ∙ ap (at w') (sym same) ∙ e')
              | inr ne ↦ g (sym (others j ne) ∙ e')
            ])
            (λ j g e'. elim (nat-cases j cur) [
              | inl same ↦ cons-ne v vs (sym used ∙ ap (at w) (sym same) ∙ e')
              | inr ne ↦ g (others j ne ∙ e')
            ])
            next in
        elim (nat-cases q cur) [
          | inl same ↦
              let heads : u ∷ us ≡ v ∷ vs = sym head ∙ ap (at w) same ∙ used in
              let first : u ≡ v = cc heads in
              inl (q, (next', (v, zs, (ap (at w') same ∙ joined, i ∙ ap get_node_id first))))
          | inr ne ↦ inl (q, (next', (u, us, (others q ne ∙ head, i))))
        ]

    pub add-IsPending : IsOwned w → IsPending w' cur key
    add-IsPending o = elim (nil-cases (at w cur)) [
      | inl free ↦ fresh-IsPending free o
      | inr (v, vs, used) ↦ used-IsPending v vs used o
    ]
