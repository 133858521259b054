-- ===== src/Hash/Handing.antt =====
-- migrateOut of apps/consistent_hash/migration.go as a whole, on each of its branches.
use swifty_go.Prelude.{
  ℕ, ◌≡◌, ◌≢◌, ◌<◌, ◌⊎◌, inl, inr, refl, sym, ap, subst, ◌∙◌, arith, Bool, true, false, ◌&&◌, ◌||◌,
  Bool-cases, List, [], ◌∷◌, ◌==◌, ==_iff, Bytes, bytes_eq,
}
use swifty_go.Hash.{
  HashRing, Options, max_int32, minus_one, get_node_id, filter, incr_score, decrease_score,
}
use swifty_go.Hash.Arc.{Next, Last, InArc-Next, Next-InArc, Last-only, Next-only}
use swifty_go.Hash.Contract.{IsHashRing, has_key}
use swifty_go.Hash.Owned.{cons-ne}
use swifty_go.Hash.Migrate.{has_key-filter, and-true, or-true}
use swifty_go.Hash.Between.{or-false}
use swifty_go.Hash.Without.{without, without-other, without-own, without-ne, Next-skip, Next-part}
use swifty_go.Hash.Passing.{id-cases, IsLeft, search-IsFound}
use swifty_go.Hash.Leaving.{IsParting, kept_by_second, kept_by_following}
use swifty_go.Hash.Parting.{out_range_iff, Target, HasParted}
use swifty_go.Hash.Removal.{out_range, found, get_valid_next_node}

module _ {W : Type 0} (r : HashRing W) (IsValid : W → Type 0) (at : W → ℕ → List Bytes)
    (recorded : W → Bytes → Bytes → Bool) (h : IsHashRing r IsValid at recorded)
    (encrypt : Bytes → ℕ) (small : (k : Bytes) → encrypt k < max_int32) (o : Options) (node : Bytes)
    (w : W) (valid : IsValid w) (cur : ℕ) (key : Bytes)
    (parting : IsParting r IsValid at recorded h encrypt small node w) where
  abbrev pub Parted : W → Type 0
  Parted w₁ = HasParted r IsValid at recorded h encrypt small o node w valid cur key parting w₁

  abbrev AtCur : Bytes → Type 0
  AtCur k = Next (λ j. at w j ≢ []) (encrypt k) cur

  abbrev Goes : Bytes → Bytes → Type 0
  Goes to k = Target r IsValid at recorded h encrypt small o node w valid cur key parting to k

  pub bound : (j : ℕ) → at w j ≢ [] → j < max_int32
  bound j u = h.bounded w j valid u

  module _ (v : Bytes) (vs : List Bytes) (head : at w cur ≡ v ∷ vs) (own : get_node_id v ≡ node)
      (keys : List Bytes) (known : (k : Bytes) → recorded w node k ≡ has_key k keys) (last : ℕ)
      (side : ((last ≡ minus_one) × ((j : ℕ) → at w j ≡ []))
        ⊎ Last (λ j. at w j ≢ []) (decrease_score cur) last) where
    abbrev pub only_score : Bool
    only_score = last == minus_one || last == cur

    abbrev pub data_set : List Bytes
    data_set = filter (λ k. only_score || out_range last cur (encrypt k)) keys

    pub cur_used : at w cur ≢ []
    cur_used = λ z. cons-ne v vs (sym head ∙ z)

    data_set_eq :
        (k : Bytes)
        → has_key k data_set ≡ (has_key k keys && (only_score || out_range last cur (encrypt k)))
    data_set_eq k = has_key-filter (λ k. only_score || out_range last cur (encrypt k)) k keys

    the_last : Last (λ j. at w j ≢ []) (decrease_score cur) last
    the_last = elim side [ inl (missing, free) ↦ absurd (cur_used (free cur)) | inr l ↦ l ]

    -- where the score is the only one there is no other
    alone : only_score ≡ true → (j : ℕ) → at w j ≢ [] → j ≡ cur
    alone e j u = elim (or-true (last == minus_one) (last == cur) e) [
      | inl m ↦
          let below = bound last the_last.0 in absurd (ground (arith, below, ==_iff last minus_one))
      | inr m ↦
          Last-only (λ j. at w j ≢ []) bound cur cur_used j
            (subst (Last (λ j. at w j ≢ []) (decrease_score cur)) ((==_iff last cur).0 m) the_last)
            u
    ]

    last_ne : only_score ≡ false → last ≢ cur
    last_ne e = λ z. cc ((or-false (last == minus_one) (last == cur) e).1, (==_iff last cur).1 z)

    -- the keys of the score are in the set
    pub set_all : (k : Bytes) → recorded w node k ≡ true → AtCur k → has_key k data_set ≡ true
    set_all k e c =
        let there : has_key k keys ≡ true = sym (known k) ∙ e in
        elim (Bool-cases only_score) [
          | inl q ↦ data_set_eq k ∙ rw (there, q) refl
          | inr q ↦
              let inside =
                (out_range_iff last cur (encrypt k) (bound last the_last.0) (bound cur cur_used)
                    (small k)).1
                  (Next-InArc (λ j. at w j ≢ []) bound cur cur_used last (encrypt k) the_last.0
                    (last_ne q) c) in
              data_set_eq k ∙ rw (there, q, inside) refl
        ]

    -- and only those
    pub set_only : (k : Bytes) → has_key k data_set ≡ true → AtCur k
    set_only k e =
        let (there, test) =
          and-true (has_key k keys) (only_score || out_range last cur (encrypt k))
            (sym (data_set_eq k) ∙ e) in
        elim (Bool-cases only_score) [
          | inl q ↦ elim (parting node k (known k ∙ there)) [
            | inl (ne, other) ↦ absurd (ne refl)
            | inr (self, (n, (next, heads))) ↦
                subst (Next (λ j. at w j ≢ []) (encrypt k)) (alone q n next.0) next
          ]
          | inr q ↦ elim (or-true only_score (out_range last cur (encrypt k)) test) [
            | inl p ↦ absurd (cc (sym q ∙ p))
            | inr p ↦
                InArc-Next (λ j. at w j ≢ []) bound cur cur_used last (encrypt k) the_last
                  (last_ne q)
                  ((out_range_iff last cur (encrypt k) (bound last the_last.0) (bound cur cur_used)
                      (small k)).0
                    p)
          ]
        ]

    -- the second virtual node at the score takes them
    pub taken_by_second :
        (u : Bytes) (us : List Bytes) → vs ≡ u ∷ us → (k : Bytes) → AtCur k → Goes (get_node_id u) k
    taken_by_second u us e k c =
        let whole : at w cur ≡ v ∷ u ∷ us = head ∙ ap (λ xs. v ∷ xs) e in
        elim (id-cases (get_node_id u) node) [
          | inl own' ↦ inr (
            own',
            kept_by_second r IsValid at recorded h encrypt small node w valid cur key k v u us c
                whole own own',
          )
          | inr ne ↦
              let seen : without node (at w cur) ≡ u ∷ without node us =
                ap (without node) whole
                ∙ without-own node v (u ∷ us) own
                ∙ without-other node u us ne in
              inl (
                ne,
                (
                  cur,
                  (
                    Next-part (λ j. at w j ≢ []) (IsLeft at encrypt node w) (encrypt k) cur
                        (λ j g. without-ne node (at w j) g)
                        (λ z. cons-ne u (without node us) (sym seen ∙ z)) c,
                    (u, without node us, (seen, refl)),
                  ),
                ),
              )
        ]

    -- the next node takes them
    pub taken_by_other :
        (fuel : ℕ) (to : Bytes)
        → vs ≡ []
        → only_score ≡ false
        → get_valid_next_node r encrypt o fuel w cur node [] ≡ found to
        → (k : Bytes) → AtCur k
        → Goes to k
    taken_by_other fuel to e q done k c =
        let whole : at w cur ≡ v ∷ [] = head ∙ ap (λ xs. v ∷ xs) e in
        let gone : without node (at w cur) ≡ [] =
          ap (without node) whole ∙ without-own node v [] own in
        elim (search-IsFound r IsValid at recorded h encrypt o w valid node k fuel cur [] to
          (bound cur cur_used)
          (λ n m.
            Next-skip (λ j. at w j ≢ []) (IsLeft at encrypt node w) (encrypt k) cur n bound
              (λ j g. without-ne node (at w j) g) (λ g. g gone) (small k) c m)
          done) [
            | inl other ↦ inl other
            | inr (self, (n, (next, (u, us, (e', own'))))) ↦
                let apart : n ≢ cur = λ z. last_ne q (
                  Next-only (λ j. at w j ≢ []) bound cur cur_used last
                    (subst (Next (λ j. at w j ≢ []) (incr_score cur)) z next) the_last.0) in
                inr (
                  self,
                  kept_by_following r IsValid at recorded h encrypt small node w valid cur key k v u
                      us n c whole own next apart e' own',
                )
          ]
