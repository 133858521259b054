-- ===== src/Hash/Without.antt =====
-- The ring of apps/consistent_hash without the virtual nodes of one node, which is about to leave it.
use swifty_go.Prelude.{
  ℕ, ◌≡◌, ◌≢◌, ◌<◌, ◌≤◌, ◌⊎◌, inl, inr, refl, sym, ap, subst, ◌∙◌, arith, false, Bool-cases, List,
  [], ◌∷◌, if◌then◌else◌, Bytes, bytes_eq,
}
use swifty_go.Hash.{max_int32, get_node_id, incr_score}
use swifty_go.Hash.Arc.{Next, incr_score-cases}
use swifty_go.Hash.Contract.{remove_first}

-- the virtual nodes that are not the node's
abbrev pub without : Bytes → List Bytes → List Bytes
without node [] = []
without node (v ∷ vs) =
    let rest = without node vs in if bytes_eq.same (get_node_id v) node then rest else v ∷ rest

pub same-ne : (a b : Bytes) → a ≢ b → bytes_eq.same a b ≡ false
same-ne a b ne = elim (Bool-cases (bytes_eq.same a b)) [
  | inl q ↦ absurd (ne ((bytes_eq.same_iff a b).0 q))
  | inr q ↦ q
]

pub without-other :
    (node v : Bytes) (vs : List Bytes)
    → get_node_id v ≢ node
    → without node (v ∷ vs) ≡ v ∷ without node vs
without-other node v vs ne = rw (same-ne (get_node_id v) node ne) refl

pub without-own :
    (node v : Bytes) (vs : List Bytes)
    → get_node_id v ≡ node
    → without node (v ∷ vs) ≡ without node vs
without-own node v vs e = rw ((bytes_eq.same_iff (get_node_id v) node).1 e) refl

pub without-ne : (node : Bytes) (vs : List Bytes) → without node vs ≢ [] → vs ≢ []
without-ne node vs u = λ e. u (ap (without node) e)

-- a virtual node of the node's goes unseen
pub without-remove_first :
    (node key : Bytes) (vs : List Bytes)
    → get_node_id key ≡ node
    → without node (remove_first key vs) ≡ without node vs
without-remove_first node key [] e = refl
without-remove_first node key (v ∷ vs) e = elim (Bool-cases (bytes_eq.same v key)) [
  | inl q ↦
      let own : get_node_id v ≡ node = ap get_node_id ((bytes_eq.same_iff v key).0 q) ∙ e in
      rw q (sym (without-own node v vs own))
  | inr q ↦
      let rest = without-remove_first node key vs e in
      elim (Bool-cases (bytes_eq.same (get_node_id v) node)) [
        | inl p ↦ rw (q, p) rest
        | inr p ↦ rw (q, p) (ap (λ xs. v ∷ xs) rest)
      ]
]

le-cases : (a b : ℕ) → (a ≤ b) ⊎ (b < a)
le-cases a b = omega arith

-- Where a part of the scores in use does not have the next one, what is next in it to a score is next
-- to the score after that one.
pub Next-skip :
    (Used Part : ℕ → Type 0) (s c q : ℕ)
    → ((j : ℕ) → Used j → j < max_int32)
    → ((j : ℕ) → Part j → Used j)
    → ¬ Part c
    → s < max_int32
    → Next Used s c
    → Next Part (incr_score c) q
    → Next Part s q
Next-skip Used Part s c q bound part out below n m = elim (incr_score-cases c (bound c n.0)) [
  | inl (top, e) ↦ elim n.1 [
    | inl (from, least) ↦
        let first : (j : ℕ) → Part j → q ≤ j = λ j u. elim m.1 [
          | inl (from', least') ↦ least' j u (omega arith)
          | inr (below', least') ↦ least' j u
        ] in
        (
          m.0,
          inr (
            λ j u. elim (le-cases s j) [
              | inl le ↦
                  let at_c : j ≡ c = omega (arith, least j (part j u) le, bound j (part j u)) in
                  absurd (out (subst Part at_c u))
              | inr gt ↦ gt
            ],
            first,
          ),
        )
    | inr (under, least) ↦ absurd (omega (arith, under c n.0))
  ]
  | inr e ↦
      let apart : (j : ℕ) → Part j → j ≢ c = λ j u same. out (subst Part same u) in
      elim m.1 [
        | inl (from', least') ↦ elim n.1 [
          | inl (from, least) ↦ (
            m.0,
            inl (
              omega arith,
              λ j u le. least' j u (omega (arith, least j (part j u) le, apart j u)),
            ),
          )
          | inr (under, least) ↦ (
            m.0,
            inr (
              λ j u. under j (part j u),
              λ j u. least' j u (omega (arith, least j (part j u), apart j u)),
            ),
          )
        ]
        | inr (below', least') ↦ elim n.1 [
          | inl (from, least) ↦ (
            m.0,
            inr (
              λ j u. elim (le-cases s j) [
                | inl le ↦ absurd (omega (arith, least j (part j u) le, apart j u, below' j u))
                | inr gt ↦ gt
              ],
              least',
            ),
          )
          | inr (under, least) ↦ (m.0, inr (λ j u. under j (part j u), least'))
        ]
      ]
]

-- what is next and in a part is next in the part
pub Next-part :
    (Used Part : ℕ → Type 0) (s q : ℕ)
    → ((j : ℕ) → Part j → Used j)
    → Part q
    → Next Used s q
    → Next Part s q
Next-part Used Part s q part u n = elim n.1 [
  | inl (from, least) ↦ (u, inl (from, λ j g. least j (part j g)))
  | inr (below, least) ↦ (u, inr (λ j g. below j (part j g), λ j g. least j (part j g)))
]
