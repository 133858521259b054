-- ===== src/Hash/Handed.antt =====
-- Where the keys go of a virtual node that RemoveNode of apps/consistent_hash takes off the ring.
use swifty_go.Prelude.{
  ℕ, ◌≡◌, ◌≢◌, ◌<◌, ◌⊎◌, inl, inr, refl, sym, ap, subst, ◌∙◌, Bool, true, false, ◌||◌, Bool-cases,
  Option, none, some, Option-cases, List, [], ◌∷◌, ◌==◌, Bytes, bytes_eq,
}
use swifty_go.Hash.{HashRing, Options, Move, max_int32, minus_one, get_node_id, decrease_score}
use swifty_go.Hash.Arc.{Next, Last}
use swifty_go.Hash.Contract.{IsHashRing, has_key}
use swifty_go.Hash.Owned.{cons-ne}
use swifty_go.Hash.Between.{decrease_score_lt}
use swifty_go.Hash.Leaving.{AllNamed, IsParting}
use swifty_go.Hash.Parting.{HasParted, Target, moved-HasParted, finish-HasMoved}
use swifty_go.Hash.Handing.{bound, data_set, set_all, set_only, taken_by_second, taken_by_other}
use swifty_go.Hash.Removal.{
  NextNode, found, not_found, next_error, out_of_fuel, get_valid_next_node, finish, finish_next,
  migrate_keys,
}

module _ {W : Type 0} (r : HashRing W) (IsValid : W → Type 0) (at : W → ℕ → List Bytes)
    (recorded : W → Bytes → Bytes → Bool) (h : IsHashRing r IsValid at recorded)
    (encrypt : Bytes → ℕ) (small : (k : Bytes) → encrypt k < max_int32) (o : Options)
    (node : Bytes) where
  abbrev Parting : W → Type 0
  Parting w = IsParting r IsValid at recorded h encrypt small node w

  finish_next-found :
      (w : W) (ks : List Bytes) (x : NextNode) (m : Move)
      → (finish_next r encrypt o w node ks x).1 ≡ some m
      → (to : Bytes) × ((x ≡ found to)
          × ((to ≢ []) × (finish_next r encrypt o w node ks x ≡ finish r encrypt o w node to ks)))
  finish_next-found w ks (found []) m e = absurd (cc e)
  finish_next-found w ks (found (x ∷ to)) m e = (x ∷ to, (refl, ((λ z. cc z), refl)))
  finish_next-found w ks not_found m e = absurd (cc e)
  finish_next-found w ks next_error m e = absurd (cc e)
  finish_next-found w ks out_of_fuel m e = absurd (cc e)

  module _ (w : W) (valid : IsValid w) (cur : ℕ) (key : Bytes) (parting : Parting w) where
    abbrev Parted : W → Type 0
    Parted w₁ = HasParted r IsValid at recorded h encrypt small o node w valid cur key parting w₁

    abbrev refuse_if : Bool → W × Option Move → W × Option Move
    refuse_if b rest = elim b [ true ↦ (w, none) | false ↦ rest ]

    module _ (fuel : ℕ) (v : Bytes) (own : get_node_id v ≡ node) (keys : List Bytes)
        (known : (k : Bytes) → recorded w node k ≡ has_key k keys) (m : Move) where
      -- the keys of the score, once the score before it is known
      module _ (vs : List Bytes) (head : at w cur ≡ v ∷ vs) (last : ℕ)
          (q : r.floor w (decrease_score cur) ≡ some last) where
        below : cur < max_int32
        below =
            bound r IsValid at recorded h encrypt small o node w valid cur key parting cur
              (λ z. cons-ne v vs (sym head ∙ z))

        side :
            ((last ≡ minus_one) × ((j : ℕ) → at w j ≡ []))
            ⊎ Last (λ j. at w j ≢ []) (decrease_score cur) last
        side = h.floor_last w (decrease_score cur) last valid (decrease_score_lt cur below) q

        abbrev set : List Bytes
        set =
            data_set r IsValid at recorded h encrypt small o node w valid cur key parting v vs head
              own keys known last side

        -- they go to a node where they belong
        to-HasParted :
            (to : Bytes)
            → to ≢ []
            → (finish r encrypt o w node to set).1 ≡ some m
            → ((k : Bytes)
                → Next (λ j. at w j ≢ []) (encrypt k) cur
                → Target r IsValid at recorded h encrypt small o node w valid cur key parting to k)
            → Parted (finish r encrypt o w node to set).0
        to-HasParted to ne e goes =
            moved-HasParted r IsValid at recorded h encrypt small o node w valid cur key parting
              (finish r encrypt o w node to set).0 to set
              (finish-HasMoved r IsValid at recorded h encrypt small o node w valid cur key parting
                to set m ne e)
              (set_all r IsValid at recorded h encrypt small o node w valid cur key parting v vs
                head own keys known last side)
              (λ k there. goes k (
                set_only r IsValid at recorded h encrypt small o node w valid cur key parting v vs
                  head own keys known last side k there))

      second-HasParted :
          (u : Bytes) (us : List Bytes) (last : ℕ)
          → at w cur ≡ v ∷ u ∷ us
          → get_node_id u ≢ []
          → r.floor w (decrease_score cur) ≡ some last
          → (migrate_keys r encrypt o fuel w cur node (u ∷ us) keys).1 ≡ some m
          → Parted (migrate_keys r encrypt o fuel w cur node (u ∷ us) keys).0
      unfolding migrate_keys
      second-HasParted u us last head ne q e =
          let works : migrate_keys r encrypt o fuel w cur node (u ∷ us) keys
              ≡ finish r encrypt o w node (get_node_id u) (set (u ∷ us) head last q) =
            rw (q, migrate_keys) refl in
          subst (λ x. Parted x.0) (sym works)
            (to-HasParted (u ∷ us) head last q (get_node_id u) ne (ap (λ x. x.1) (sym works) ∙ e) (
              taken_by_second r IsValid at recorded h encrypt small o node w valid cur key parting v
                (u ∷ us) head own keys known last (side (u ∷ us) head last q) u us refl))

      next-HasParted :
          (last : ℕ)
          → at w cur ≡ v ∷ []
          → r.floor w (decrease_score cur) ≡ some last
          → (migrate_keys r encrypt o fuel w cur node [] keys).1 ≡ some m
          → Parted (migrate_keys r encrypt o fuel w cur node [] keys).0
      unfolding migrate_keys
      next-HasParted last head q e = elim (Bool-cases (last == minus_one || last == cur)) [
        | inl p ↦
            let fails : (migrate_keys r encrypt o fuel w cur node [] keys).1 ≡ none =
              rw (q, p, migrate_keys) refl in
            absurd (cc (sym e ∙ fails))
        | inr p ↦
            let next = get_valid_next_node r encrypt o fuel w cur node [] in
            let ends = finish_next r encrypt o w node (set [] head last q) next in
            let known_last : migrate_keys r encrypt o fuel w cur node [] keys
                ≡ refuse_if (last == minus_one || last == cur) ends =
              rw (q, migrate_keys) refl in
            let works : migrate_keys r encrypt o fuel w cur node [] keys ≡ ends =
              known_last ∙ subst (λ b. refuse_if b ends ≡ ends) (sym p) refl in
            let (to, (found_to, (ne, finishes))) =
              finish_next-found w (set [] head last q) next m (ap (λ x. x.1) (sym works) ∙ e) in
            let whole = works ∙ finishes in
            subst (λ x. Parted x.0) (sym whole)
              (to-HasParted [] head last q to ne (ap (λ x. x.1) (sym whole) ∙ e) (
                taken_by_other r IsValid at recorded h encrypt small o node w valid cur key parting
                  v [] head own keys known last (side [] head last q) fuel to refl p found_to))
      ]

      pub migrate_keys-HasParted :
          (vs : List Bytes)
          → at w cur ≡ v ∷ vs
          → AllNamed vs
          → (migrate_keys r encrypt o fuel w cur node vs keys).1 ≡ some m
          → Parted (migrate_keys r encrypt o fuel w cur node vs keys).0
      unfolding migrate_keys
      migrate_keys-HasParted vs head named e =
          elim (Option-cases (r.floor w (decrease_score cur))) [
            | inl q ↦
                let fails : (migrate_keys r encrypt o fuel w cur node vs keys).1 ≡ none =
                  rw (q, migrate_keys) refl in
                absurd (cc (sym e ∙ fails))
            | inr (last, q) ↦
                elim vs
                    as (λ xs.
                      at w cur ≡ v ∷ xs
                      → AllNamed xs
                      → (migrate_keys r encrypt o fuel w cur node xs keys).1 ≡ some m
                      → Parted (migrate_keys r encrypt o fuel w cur node xs keys).0) [
                        | [] ↦ λ head' named' e'. next-HasParted last head' q e'
                        | u ∷ us ↦ λ head' named' e'. second-HasParted u us last head' named'.0 q e'
                      ]
                  head named e
          ]
