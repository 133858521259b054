-- ===== src/Hash/Between.antt =====
-- migrateIn of apps/consistent_hash/migration.go as a whole: its early returns lose no key's place.
use swifty_go.Prelude.{
  lt→ltb, ℕ, ◌≡◌, ◌≢◌, ◌<◌, ◌⊎◌, inl, inr, refl, sym, ap, subst, ◌∙◌, arith, Bool, true, false,
  ◌||◌, Bool-cases, none, some, Option-cases, List, [], ◌∷◌, length, ltb, ◌==◌, ==_iff, Bytes,
  bytes_eq,
}
use swifty_go.Hash.{
  HashRing, Options, Move, max_int32, minus_one, get_node_id, take_keys, migrate_between,
  migrate_in, incr_score, decrease_score,
}
use swifty_go.Hash.Arc.{Next, Last, Last-only, Next-only, decrease_score-cases}
use swifty_go.Hash.Contract.{IsHashRing}
use swifty_go.Hash.Owned.{Late, IsPending, HasJoined, cons-ne}
use swifty_go.Hash.Migrate.{IsSettled, or-true}
use swifty_go.Hash.Settle.{stays, take_keys-IsSettled}

pub incr_score_lt : (s : ℕ) → s < max_int32 → incr_score s < max_int32
unfolding incr_score
incr_score_lt s h = ground arith

pub decrease_score_lt : (s : ℕ) → s < max_int32 → decrease_score s < max_int32
decrease_score_lt s h = elim (decrease_score-cases s h) [
  | inl (z, e) ↦ omega arith
  | inr (pos, e) ↦ omega arith
]

pub or-false : (a b : Bool) → (a || b) ≡ false → (a ≡ false) × (b ≡ false)
or-false true b e = absurd (cc e)
or-false false b e = (refl, e)

module _ {W : Type 0} (r : HashRing W) (IsValid : W → Type 0) (at : W → ℕ → List Bytes)
    (recorded : W → Bytes → Bytes → Bool) (h : IsHashRing r IsValid at recorded)
    (encrypt : Bytes → ℕ) (small : (k : Bytes) → encrypt k < max_int32) (o : Options) (w : W)
    (cur : ℕ) (key node : Bytes) (valid : IsValid w)
    (pending : IsPending r IsValid at recorded h encrypt w cur key)
    (named : node ≡ get_node_id key) where
  -- a score that is missing or cur, where the score next to cur, before or after, is asked for
  none_waits :
      (joined : at w cur ≡ key ∷ []) (k' : ℕ) (Side : ℕ → Type 0)
      → ((k' ≡ minus_one) × ((j : ℕ) → at w j ≡ [])) ⊎ Side k'
      → (Side k' → at w k' ≢ [])
      → ((j : ℕ) → Side cur → at w j ≢ [] → j ≡ cur)
      → (k' == minus_one || k' == cur) ≡ true
      → (n k : Bytes) → recorded w n k ≡ true
      → ¬ Late r IsValid at recorded h encrypt w cur key k n
  none_waits joined k' Side found used only e n k known (c, (alone, (q, (nx, _)))) = elim found [
    | inl (missing, free) ↦ nx.0.0 (free q)
    | inr side ↦ elim (or-true (k' == minus_one) (k' == cur) e) [
      | inl m ↦
          let below = h.bounded w k' valid (used side) in ground (arith, below, ==_iff k' minus_one)
      | inr m ↦ nx.0.1 (only q (subst Side ((==_iff k' cur).0 m) side) nx.0.0)
    ]
  ]

  module _ (joined : at w cur ≡ key ∷ []) where
    cur_used : at w cur ≢ []
    cur_used = λ z. cons-ne key [] (sym joined ∙ z)

    bound : (j : ℕ) → at w j ≢ [] → j < max_int32
    bound j u = h.bounded w j valid u

    -- with the score before the new one known
    after_floor-IsSettled :
        (m : Move) (last : ℕ)
        → r.floor w (decrease_score cur) ≡ some last
        → (last == minus_one || last == cur) ≡ false
        → Last (λ j. at w j ≢ []) (decrease_score cur) last
        → (migrate_between r encrypt o w cur node).1 ≡ some m
        → IsSettled r IsValid at recorded h encrypt small o w
            (migrate_between r encrypt o w cur node).0
    unfolding migrate_between
    after_floor-IsSettled m last q p l e = elim (Option-cases (r.ceiling w (incr_score cur))) [
      | inl q' ↦
          let fails : (migrate_between r encrypt o w cur node).1 ≡ none =
            rw (q, p, q', migrate_between) refl in
          absurd (cc (sym e ∙ fails))
      | inr (next, q') ↦
          let found =
            h.ceiling_next w (incr_score cur) next valid (incr_score_lt cur (bound cur cur_used))
              q' in
          elim (Bool-cases (next == minus_one || next == cur)) [
            | inl p' ↦
                let stops : (migrate_between r encrypt o w cur node).0 ≡ w =
                  rw (q, p, q', p', migrate_between) refl in
                subst (IsSettled r IsValid at recorded h encrypt small o w) (sym stops) (
                  stays r IsValid at recorded h encrypt small o w cur key node valid pending named (
                    none_waits joined next (Next (λ j. at w j ≢ []) (incr_score cur)) found
                      (λ n. n.0) (λ j n u. Next-only (λ j. at w j ≢ []) bound cur cur_used j n u)
                      p'))
            | inr p' ↦ elim found [
              | inl (missing, free) ↦ absurd (cur_used (free cur))
              | inr n ↦
                  let works : migrate_between r encrypt o w cur node
                      ≡ take_keys r encrypt o w cur node last next =
                    rw (q, p, q', p', migrate_between) refl in
                  let last_ne : last ≢ cur = λ z.
                    cc ((or-false (last == minus_one) (last == cur) p).1, (==_iff last cur).1 z) in
                  let next_ne : next ≢ cur = λ z.
                    cc ((or-false (next == minus_one) (next == cur) p').1, (==_iff next cur).1 z) in
                  subst (λ x. IsSettled r IsValid at recorded h encrypt small o w x.0) (sym works)
                    (take_keys-IsSettled r IsValid at recorded h encrypt small o w cur key node
                      valid pending named joined last next l last_ne n next_ne m
                      (ap (λ x. x.1) (sym works) ∙ e))
            ]
          ]
    ]

    migrate_between-IsSettled :
        (m : Move)
        → (migrate_between r encrypt o w cur node).1 ≡ some m
        → IsSettled r IsValid at recorded h encrypt small o w
            (migrate_between r encrypt o w cur node).0
    unfolding migrate_between
    migrate_between-IsSettled m e =
        let below = bound cur cur_used in
        elim (Option-cases (r.floor w (decrease_score cur))) [
          | inl q ↦
              let fails : (migrate_between r encrypt o w cur node).1 ≡ none =
                rw (q, migrate_between) refl in
              absurd (cc (sym e ∙ fails))
          | inr (last, q) ↦
              let found =
                h.floor_last w (decrease_score cur) last valid (decrease_score_lt cur below) q in
              elim (Bool-cases (last == minus_one || last == cur)) [
                | inl p ↦
                    let stops : (migrate_between r encrypt o w cur node).0 ≡ w =
                      rw (q, p, migrate_between) refl in
                    subst (IsSettled r IsValid at recorded h encrypt small o w) (sym stops) (
                      stays r IsValid at recorded h encrypt small o w cur key node valid pending
                        named
                        (none_waits joined last (Last (λ j. at w j ≢ []) (decrease_score cur)) found
                          (λ l. l.0)
                          (λ j l u. Last-only (λ j. at w j ≢ []) bound cur cur_used j l u) p))
                | inr p ↦ elim found [
                  | inl (missing, free) ↦ absurd (cur_used (free cur))
                  | inr l ↦ after_floor-IsSettled m last q p l e
                ]
              ]
        ]

  -- the whole of migrateIn, with a migrator
  pub migrate_in-IsSettled :
      (m : Move)
      → o.has_migrator ≡ true
      → HasJoined r IsValid at recorded h encrypt w cur key
      → (migrate_in r encrypt o w cur node).1 ≡ some m
      → IsSettled r IsValid at recorded h encrypt small o w (migrate_in r encrypt o w cur node).0
  unfolding migrate_in
  migrate_in-IsSettled m has joined e = elim (Option-cases (r.node w cur)) [
    | inl q ↦
        let fails : (migrate_in r encrypt o w cur node).1 ≡ none = rw (has, q, migrate_in) refl in
        absurd (cc (sym e ∙ fails))
    | inr (ns, q) ↦
        let same = h.node_at w cur ns valid q in
        elim joined [
          | inl alone ↦
              let one : ltb 1 (length ns) ≡ false = ap (λ xs. ltb 1 (length xs)) (same ∙ alone) in
              let goes : migrate_in r encrypt o w cur node
                  ≡ migrate_between r encrypt o w cur node =
                rw (has, q, one, migrate_in) refl in
              subst (λ x. IsSettled r IsValid at recorded h encrypt small o w x.0) (sym goes)
                (migrate_between-IsSettled alone m (ap (λ x. x.1) (sym goes) ∙ e))
          | inr (v, u, vs, more) ↦
              let many : ltb 1 (length ns) ≡ true =
                ap (λ xs. ltb 1 (length xs)) (same ∙ more)
                ∙ lt→ltb 1 (length (v ∷ u ∷ vs)) (omega arith) in
              let stops : (migrate_in r encrypt o w cur node).0 ≡ w =
                rw (has, q, many, migrate_in) refl in
              subst (IsSettled r IsValid at recorded h encrypt small o w) (sym stops) (
                stays r IsValid at recorded h encrypt small o w cur key node valid pending named
                  (λ n k known late. cc (sym more ∙ late.1.0)))
        ]
  ]
