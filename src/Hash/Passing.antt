-- ===== src/Hash/Passing.antt =====
-- Which node getValidNextNode of apps/consistent_hash/migration.go comes to.
use swifty_go.Prelude.{
  ℕ, suc, zero, ◌≡◌, ◌≢◌, ◌<◌, ◌⊎◌, inl, inr, refl, sym, ap, subst, ◌∙◌, Bool, ◌||◌, Bool-cases,
  Option-cases, List, [], ◌∷◌, ◌==◌, ==_iff, Bytes, bytes_eq,
}
use swifty_go.Hash.{HashRing, Options, minus_one, max_int32, get_node_id, incr_score}
use swifty_go.Hash.Arc.{Next}
use swifty_go.Hash.Contract.{IsHashRing}
use swifty_go.Hash.Between.{incr_score_lt, or-false}
use swifty_go.Hash.Owned.{cons-ne}
use swifty_go.Hash.Without.{
  same-ne, without, without-other, without-own, without-ne, Next-skip, Next-part,
}
use swifty_go.Hash.Removal.{
  NextNode, found, not_found, next_error, is_ranged, other_node, get_valid_next_node,
}

pub id-cases : (a b : Bytes) → (a ≡ b) ⊎ (a ≢ b)
id-cases a b = elim (Bool-cases (bytes_eq.same a b)) [
  | inl q ↦ inl ((bytes_eq.same_iff a b).0 q)
  | inr q ↦ inr (λ e. cc (q, (bytes_eq.same_iff a b).1 e))
]

found-inj : (a b : Bytes) → found a ≡ found b → a ≡ b
found-inj a b e = cc e

module _ {W : Type 0} (at : W → ℕ → List Bytes) (encrypt : Bytes → ℕ) (node : Bytes) where
  -- a score has virtual nodes of others
  abbrev pub IsLeft : W → ℕ → Type 0
  IsLeft w j = without node (at w j) ≢ []

  -- the node that a key belongs to without the one that leaves
  abbrev pub OtherOwner : W → Bytes → Bytes → Type 0
  OtherOwner w k n =
      (q : ℕ) × (Next (IsLeft w) (encrypt k) q
        × ((v : Bytes) × (vs : List Bytes) × ((without node (at w q) ≡ v ∷ vs)
              × (n ≡ get_node_id v))))

  -- the next score in use is the leaving node's first of all
  abbrev pub OwnNext : W → ℕ → Type 0
  OwnNext w s =
      (q : ℕ) × (Next (λ j. at w j ≢ []) s q
        × ((v : Bytes) × (vs : List Bytes) × ((at w q ≡ v ∷ vs) × (get_node_id v ≡ node))))

module _ {W : Type 0} (r : HashRing W) (IsValid : W → Type 0) (at : W → ℕ → List Bytes)
    (recorded : W → Bytes → Bytes → Bool) (h : IsHashRing r IsValid at recorded)
    (encrypt : Bytes → ℕ) (o : Options) (w : W) (valid : IsValid w) (node k : Bytes) where
  abbrev Used : ℕ → Type 0
  Used j = at w j ≢ []

  -- the search may go on after a score
  abbrev pub Reaches : ℕ → Type 0
  Reaches score =
      (q : ℕ)
      → Next (IsLeft at encrypt node w) (incr_score score) q
      → Next (IsLeft at encrypt node w) (encrypt k) q

  -- what a node that is found is
  abbrev pub IsFound : ℕ → Bytes → Type 0
  IsFound score to =
      ((to ≢ node) × OtherOwner at encrypt node w k to)
      ⊎ ((to ≡ node) × OwnNext at encrypt node w (incr_score score))

  -- the first other virtual node of a score
  other_here :
      (score next : ℕ) (v : Bytes) (vs : List Bytes)
      → Reaches score
      → Next Used (incr_score score) next
      → without node (at w next) ≡ v ∷ vs
      → OtherOwner at encrypt node w k (get_node_id v)
  other_here score next v vs reach n e =
      let left : IsLeft at encrypt node w next = λ z. cons-ne v vs (sym e ∙ z) in
      let part : (j : ℕ) → IsLeft at encrypt node w j → Used j =
        λ j u. without-ne node (at w j) u in
      (
        next,
        (
          reach next
              (Next-part Used (IsLeft at encrypt node w) (incr_score score) next part left n),
          (v, vs, (e, refl)),
        ),
      )

  -- an other node that is named is found
  named-IsFound :
      (score next : ℕ) (to v : Bytes) (vs : List Bytes)
      → Reaches score
      → Next Used (incr_score score) next
      → get_node_id v ≢ node
      → without node (at w next) ≡ v ∷ vs
      → found (get_node_id v) ≡ found to
      → IsFound score to
  named-IsFound score next to v vs reach n ne e done =
      let same = found-inj (get_node_id v) to done in
      inl (
        λ z. ne (same ∙ z),
        subst (OtherOwner at encrypt node w k) same (other_here score next v vs reach n e),
      )

  -- what the virtual nodes at the next score come to
  nodes-IsFound :
      (score next : ℕ) (to v : Bytes) (vs : List Bytes) (rest : NextNode)
      → Reaches score
      → Next Used (incr_score score) next
      → at w next ≡ v ∷ vs
      → (Reaches next → rest ≡ found to → IsFound next to)
      → score < max_int32
      → other_node r encrypt o node (v ∷ vs) rest ≡ found to
      → IsFound score to
  nodes-IsFound score next to v [] rest reach n e later below done =
      elim (id-cases (get_node_id v) node) [
        | inr ne ↦
            let is : other_node r encrypt o node (v ∷ []) rest ≡ found (get_node_id v) =
              rw (same-ne (get_node_id v) node ne) refl in
            named-IsFound score next to v [] reach n ne
              (ap (without node) e ∙ without-other node v [] ne) (sym is ∙ done)
        | inl own ↦
            let is : other_node r encrypt o node (v ∷ []) rest ≡ rest =
              rw ((bytes_eq.same_iff (get_node_id v) node).1 own) refl in
            let gone : without node (at w next) ≡ [] =
              ap (without node) e ∙ without-own node v [] own in
            let reach' : Reaches next = λ q m. reach q (
              Next-skip Used (IsLeft at encrypt node w) (incr_score score) next q
                (λ j u. h.bounded w j valid u) (λ j u. without-ne node (at w j) u) (λ u. u gone)
                (incr_score_lt score below) n m) in
            elim (later reach' (sym is ∙ done)) [
              | inl other ↦ inl other
              | inr self ↦ inr (self.0, (next, (n, (v, [], (e, own)))))
            ]
      ]
  nodes-IsFound score next to v (u ∷ us) rest reach n e later below done =
      elim (id-cases (get_node_id v) node) [
        | inr ne ↦
            let is : other_node r encrypt o node (v ∷ u ∷ us) rest ≡ found (get_node_id v) =
              rw (same-ne (get_node_id v) node ne) refl in
            named-IsFound score next to v (without node (u ∷ us)) reach n ne
              (ap (without node) e ∙ without-other node v (u ∷ us) ne) (sym is ∙ done)
        | inl own ↦
            let is : other_node r encrypt o node (v ∷ u ∷ us) rest ≡ found (get_node_id u) =
              rw ((bytes_eq.same_iff (get_node_id v) node).1 own) refl in
            elim (id-cases (get_node_id u) node) [
              | inr ne ↦
                  named-IsFound score next to u (without node us) reach n ne
                    (ap (without node) e
                      ∙ without-own node v (u ∷ us) own
                      ∙ without-other node u us ne)
                    (sym is ∙ done)
              | inl self ↦ inr (
                sym (found-inj (get_node_id u) to (sym is ∙ done)) ∙ self,
                (next, (n, (v, u ∷ us, (e, own)))),
              )
            ]
      ]

  -- The search comes to the owner of a key on the ring without the node, or, where two virtual nodes of
  -- the node share a score, to the node itself.
  pub search-IsFound :
      (fuel score : ℕ) (ranged : List ℕ) (to : Bytes)
      → score < max_int32
      → Reaches score
      → get_valid_next_node r encrypt o fuel w score node ranged ≡ found to
      → IsFound score to
  unfolding get_valid_next_node
  search-IsFound zero score ranged to below reach done = absurd (cc done)
  search-IsFound (suc fuel) score ranged to below reach done =
      let whole = get_valid_next_node r encrypt o (suc fuel) w score node ranged in
      elim (Option-cases (r.ceiling w (incr_score score))) [
        | inl q ↦
            let is : whole ≡ next_error = rw (q, get_valid_next_node) refl in
            absurd (cc (sym is ∙ done))
        | inr (next, q) ↦ elim (Bool-cases (next == minus_one || is_ranged next ranged)) [
          | inl p ↦
              let is : whole ≡ not_found = rw (q, p, get_valid_next_node) refl in
              absurd (cc (sym is ∙ done))
          | inr p ↦ elim (Option-cases (r.node w next)) [
            | inl s ↦
                let is : whole ≡ next_error = rw (q, p, s, get_valid_next_node) refl in
                absurd (cc (sym is ∙ done))
            | inr ([], s) ↦
                let is : whole ≡ next_error = rw (q, p, s, get_valid_next_node) refl in
                absurd (cc (sym is ∙ done))
            | inr (v ∷ vs, s) ↦
                let rest = get_valid_next_node r encrypt o fuel w next node (score ∷ ranged) in
                let is : whole ≡ other_node r encrypt o node (v ∷ vs) rest =
                  rw (q, p, s, get_valid_next_node) refl in
                elim (h.ceiling_next w (incr_score score) next valid (incr_score_lt score below)
                  q) [
                    | inl (missing, free) ↦ absurd (
                        cc (
                          (or-false (next == minus_one) (is_ranged next ranged) p).0,
                          (==_iff next minus_one).1 missing,
                        ))
                    | inr n ↦
                        nodes-IsFound score next to v vs rest reach n
                          (sym (h.node_at w next (v ∷ vs) valid s))
                          (λ reach' done'.
                            search-IsFound fuel next (score ∷ ranged) to
                              (h.bounded w next valid n.0) reach' done')
                          below (sym is ∙ done)
                  ]
          ]
        ]
      ]
