-- ===== src/Hash/Leaving.antt =====
-- What RemoveNode of apps/consistent_hash/consistent_hash.go makes of the data keys: the state between its
-- rounds, and the removal of one virtual node.
use swifty_go.Prelude.{
  ℕ, ◌≡◌, ◌≢◌, ◌<◌, ◌⊎◌, inl, inr, refl, sym, ap, subst, ◌∙◌, arith, Bool, true, Bool-cases, List,
  [], ◌∷◌, Bytes, bytes_eq,
}
use swifty_go.Hash.{HashRing, max_int32, get_node_id, incr_score}
use swifty_go.Hash.Arc.{Next, Next-map, Next-before}
use swifty_go.Hash.Contract.{IsHashRing, remove_first}
use swifty_go.Hash.Owned.{Heads, Owner, IsOwned, cons-ne}
use swifty_go.Hash.Without.{without, without-other, without-remove_first, without-ne, Next-part}
use swifty_go.Hash.Passing.{id-cases, IsLeft, OtherOwner}

-- no virtual node is of a node without a name
abbrev pub AllNamed : List Bytes → Type 0
AllNamed [] = Unit {0}
AllNamed (v ∷ vs) = (get_node_id v ≢ []) × AllNamed vs

pub remove_first-AllNamed :
    (key : Bytes) (vs : List Bytes) → AllNamed vs → AllNamed (remove_first key vs)
remove_first-AllNamed key [] a = tt
remove_first-AllNamed key (v ∷ vs) a = elim (Bool-cases (bytes_eq.same v key)) [
  | inl q ↦ rw q a.1
  | inr q ↦ rw q (a.0, remove_first-AllNamed key vs a.1)
]

pub nat-cases : (a b : ℕ) → (a ≡ b) ⊎ (a ≢ b)
nat-cases a b = omega arith

module _ {W : Type 0} (r : HashRing W) (IsValid : W → Type 0) (at : W → ℕ → List Bytes)
    (recorded : W → Bytes → Bytes → Bool) (h : IsHashRing r IsValid at recorded)
    (encrypt : Bytes → ℕ) (small : (k : Bytes) → encrypt k < max_int32) (node : Bytes) where
  -- each key of the leaving node is where it belongs, and each of another where it belongs without it
  abbrev pub IsParting : W → Type 0
  IsParting w =
      (n k : Bytes)
      → recorded w n k ≡ true
      → ((n ≢ node) × OtherOwner at encrypt node w k n)
        ⊎ ((n ≡ node) × Owner r IsValid at recorded h encrypt w k node)

  pub IsOwned-IsParting : (w : W) → IsOwned r IsValid at recorded h encrypt w → IsParting w
  IsOwned-IsParting w own n k e = elim (id-cases n node) [
    | inl same ↦ inr (same, subst (Owner r IsValid at recorded h encrypt w k) same (own n k e))
    | inr ne ↦
        let (q, (next, (v, vs, (head, i)))) = own n k e in
        let seen : without node (at w q) ≡ v ∷ without node vs =
          ap (without node) head ∙ without-other node v vs (λ z. ne (i ∙ z)) in
        inl (
          ne,
          (
            q,
            (
              Next-part (λ j. at w j ≢ []) (IsLeft at encrypt node w) (encrypt k) q
                  (λ j u. without-ne node (at w j) u)
                  (λ z. cons-ne v (without node vs) (sym seen ∙ z)) next,
              (v, without node vs, (seen, i)),
            ),
          ),
        )
  ]

  module _ (w : W) (valid : IsValid w) (cur : ℕ) (key : Bytes) where
    -- a world with the virtual node taken off the ring
    pub record IsShrunk (w' : W) : Type 0 where
      pub at_cur : at w' cur ≡ remove_first key (at w cur)
      pub at_others : (j : ℕ) → j ≢ cur → at w' j ≡ at w j

    -- a key stays the leaving node's
    abbrev pub IsSafe : Bytes → Type 0
    IsSafe k = (w' : W) → IsShrunk w' → Owner r IsValid at recorded h encrypt w' k node

    shrunk_used : (w' : W) → IsShrunk w' → (j : ℕ) → at w' j ≢ [] → at w j ≢ []
    shrunk_used w' f j u = elim (nat-cases j cur) [
      | inr ne ↦ λ e. u (f.at_others j ne ∙ e)
      | inl same ↦
          λ e. u (ap (at w') same ∙ f.at_cur ∙ ap (remove_first key) (ap (at w) (sym same) ∙ e))
    ]

    -- its score is another
    pub kept_elsewhere :
        (k : Bytes) (q : ℕ)
        → Next (λ j. at w j ≢ []) (encrypt k) q
        → Heads r IsValid at recorded h encrypt w q node
        → q ≢ cur
        → IsSafe k
    kept_elsewhere k q next (v, vs, (e, i)) ne w' f =
        let there : at w' q ≡ v ∷ vs = f.at_others q ne ∙ e in
        (
          q,
          (
            Next-part (λ j. at w j ≢ []) (λ j. at w' j ≢ []) (encrypt k) q (shrunk_used w' f)
                (λ z. cons-ne v vs (sym there ∙ z)) next,
            (v, vs, (there, i)),
          ),
        )

    -- another virtual node of the node is first at the score
    kept_by_first :
        (k : Bytes) (w' : W) (v : Bytes) (vs : List Bytes)
        → IsShrunk w'
        → Next (λ j. at w j ≢ []) (encrypt k) cur
        → at w' cur ≡ v ∷ vs
        → get_node_id v ≡ node
        → Owner r IsValid at recorded h encrypt w' k node
    kept_by_first k w' v vs f next e own = (
      cur,
      (
        Next-part (λ j. at w j ≢ []) (λ j. at w' j ≢ []) (encrypt k) cur (shrunk_used w' f)
            (λ z. cons-ne v vs (sym e ∙ z)) next,
        (v, vs, (e, sym own)),
      ),
    )

    pub kept_by_second :
        (k v u : Bytes) (us : List Bytes)
        → Next (λ j. at w j ≢ []) (encrypt k) cur
        → at w cur ≡ v ∷ u ∷ us
        → get_node_id v ≡ node
        → get_node_id u ≡ node
        → IsSafe k
    kept_by_second k v u us next e own own' w' f = elim (Bool-cases (bytes_eq.same v key)) [
      | inl q ↦
          let there : at w' cur ≡ u ∷ us = f.at_cur ∙ ap (remove_first key) e ∙ rw q refl in
          kept_by_first k w' u us f next there own'
      | inr q ↦
          let there : at w' cur ≡ v ∷ remove_first key (u ∷ us) =
            f.at_cur ∙ ap (remove_first key) e ∙ rw q refl in
          kept_by_first k w' v (remove_first key (u ∷ us)) f next there own
    ]

    -- the next score is the node's as well
    pub kept_by_following :
        (k v u : Bytes) (us : List Bytes) (next : ℕ)
        → Next (λ j. at w j ≢ []) (encrypt k) cur
        → at w cur ≡ v ∷ []
        → get_node_id v ≡ node
        → Next (λ j. at w j ≢ []) (incr_score cur) next
        → next ≢ cur
        → at w next ≡ u ∷ us
        → get_node_id u ≡ node
        → IsSafe k
    kept_by_following k v u us next c e own n ne e' own' w' f =
        elim (Bool-cases (bytes_eq.same v key)) [
          | inr q ↦
              let there : at w' cur ≡ v ∷ [] = f.at_cur ∙ ap (remove_first key) e ∙ rw q refl in
              kept_by_first k w' v [] f c there own
          | inl q ↦
              let gone : at w' cur ≡ [] = f.at_cur ∙ ap (remove_first key) e ∙ rw q refl in
              let before =
                Next-before (λ j. at w j ≢ []) (λ j g. h.bounded w j valid g) cur
                  (λ z. cons-ne v [] (sym e ∙ z)) (encrypt k) next (small k) n ne c in
              (
                next,
                (
                  Next-map (λ j. (at w j ≢ []) × (j ≢ cur)) (λ j. at w' j ≢ []) (encrypt k) next
                      (λ j g z. g.0 (sym (f.at_others j g.1) ∙ z))
                      (λ j g. (shrunk_used w' f j g, λ same. g (ap (at w') same ∙ gone))) before,
                  (u, us, (f.at_others next ne ∙ e', sym own')),
                ),
              )
        ]

    -- the keys are where they may be when the virtual node goes
    abbrev pub IsReady : W → Type 0
    IsReady w₁ =
        (n k : Bytes)
        → recorded w₁ n k ≡ true
        → ((n ≢ node) × OtherOwner at encrypt node w k n) ⊎ ((n ≡ node) × IsSafe k)

    -- the others see no change
    same_without :
        (w' : W)
        → get_node_id key ≡ node
        → IsShrunk w'
        → (j : ℕ) → without node (at w' j) ≡ without node (at w j)
    same_without w' own f j = elim (nat-cases j cur) [
      | inr ne ↦ ap (without node) (f.at_others j ne)
      | inl same ↦
          ap (without node) (ap (at w') same ∙ f.at_cur)
          ∙ without-remove_first node key (at w cur) own
          ∙ ap (without node) (ap (at w) (sym same))
    ]

    pub shrunk-IsParting :
        (w₁ w' : W)
        → get_node_id key ≡ node
        → IsReady w₁
        → IsShrunk w'
        → ((n k : Bytes) → recorded w' n k ≡ recorded w₁ n k)
        → IsParting w'
    shrunk-IsParting w₁ w' own ready f same n k e = elim (ready n k (sym (same n k) ∙ e)) [
      | inr (self, safe) ↦ inr (self, safe w' f)
      | inl (ne, (q, (next, (v, vs, (seen, i))))) ↦
          let eq = same_without w' own f in
          inl (
            ne,
            (
              q,
              (
                Next-map (IsLeft at encrypt node w) (IsLeft at encrypt node w') (encrypt k) q
                    (λ j u z. u (sym (eq j) ∙ z)) (λ j u z. u (eq j ∙ z)) next,
                (v, vs, (eq q ∙ seen, i)),
              ),
            ),
          )
    ]
