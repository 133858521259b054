-- ===== src/Hash/Plain/Search.antt =====
-- The searches of the plain ring that stands in for one of apps/consistent_hash.
use swifty_go.Prelude.{
  ℕ, ◌≡◌, ◌≢◌, ◌<◌, ◌≤◌, ◌⊎◌, inl, inr, refl, sym, subst, ◌∙◌, arith, Bool-cases, Option, none,
  some, Option-cases, List, [], ◌∷◌, ltb, ◌==◌, ==_iff, if◌then◌else◌, Bytes, bytes_eq, ltb-cases,
}
use swifty_go.Hash.{max_int32}
use swifty_go.Hash.Plain.{at_score, least_from, most_up_to, AllBelow}

pub at_score-here : (j : ℕ) (n : Bytes) (vs : List (ℕ × Bytes)) → at_score j ((j, n) ∷ vs) ≢ []
unfolding at_score
at_score-here j n vs = ground (arith, ==_iff j j)

pub at_score-there :
    (s j : ℕ) (n : Bytes) (vs : List (ℕ × Bytes))
    → at_score s vs ≢ []
    → at_score s ((j, n) ∷ vs) ≢ []
unfolding at_score
at_score-there s j n vs u = elim (Bool-cases (j == s)) [ inl q ↦ rw q (λ e. cc e) | inr q ↦ rw q u ]

pub at_score-split :
    (s j : ℕ) (n : Bytes) (vs : List (ℕ × Bytes))
    → at_score s ((j, n) ∷ vs) ≢ []
    → (j ≡ s) ⊎ (at_score s vs ≢ [])
unfolding at_score
at_score-split s j n vs u = elim (Bool-cases (j == s)) [
  | inl q ↦ inl ((==_iff j s).0 q)
  | inr q ↦ inr (λ e. u (rw q e))
]

pub AllBelow-used :
    (vs : List (ℕ × Bytes)) (s : ℕ) → AllBelow vs → at_score s vs ≢ [] → s < max_int32
unfolding at_score
AllBelow-used [] s b u = absurd (u refl)
AllBelow-used ((j, n) ∷ vs) s b u = elim (at_score-split s j n vs u) [
  | inl e ↦ subst (λ x. x < max_int32) e b.0
  | inr u' ↦ AllBelow-used vs s b.1 u'
]

least_from-cons_none :
    (s j : ℕ) (n : Bytes) (vs : List (ℕ × Bytes))
    → least_from s vs ≡ none
    → least_from s ((j, n) ∷ vs) ≡ (if ltb j s then none else some j)
unfolding least_from
least_from-cons_none s j n vs e = rw (e, least_from) refl

least_from-cons_some :
    (s j k : ℕ) (n : Bytes) (vs : List (ℕ × Bytes))
    → least_from s vs ≡ some k
    → least_from s ((j, n) ∷ vs)
      ≡ (if ltb j s then some k else (if ltb j k then some j else some k))
unfolding least_from
least_from-cons_some s j k n vs e = rw (e, least_from) refl

-- what the search from s on finds
abbrev pub IsLeast : ℕ → List (ℕ × Bytes) → Option ℕ → Type 0
IsLeast s vs none = (j : ℕ) → at_score j vs ≢ [] → j < s
IsLeast s vs (some k) =
    (at_score k vs ≢ []) × ((s ≤ k) × ((j : ℕ) → at_score j vs ≢ [] → s ≤ j → k ≤ j))

pub least_from-IsLeast : (s : ℕ) (vs : List (ℕ × Bytes)) → IsLeast s vs (least_from s vs)
unfolding least_from at_score
least_from-IsLeast s [] = λ j u. absurd (u refl)
least_from-IsLeast s ((j, n) ∷ vs) = elim (Option-cases (least_from s vs)) [
  | inl e ↦
      let rest = subst (IsLeast s vs) e (least_from-IsLeast s vs) in
      elim (ltb-cases j s) [
        | inl (q, lt) ↦
            let found : least_from s ((j, n) ∷ vs) ≡ none =
              least_from-cons_none s j n vs e ∙ rw q refl in
            subst (IsLeast s ((j, n) ∷ vs)) (sym found) (λ i u. elim (at_score-split i j n vs u) [
              | inl same ↦ omega arith
              | inr u' ↦ rest i u'
            ])
        | inr (q, ge) ↦
            let found : least_from s ((j, n) ∷ vs) ≡ some j =
              least_from-cons_none s j n vs e ∙ rw q refl in
            subst (IsLeast s ((j, n) ∷ vs)) (sym found) (
              at_score-here j n vs,
              (
                ge,
                λ i u le. elim (at_score-split i j n vs u) [
                  | inl same ↦ omega arith
                  | inr u' ↦ absurd (omega (arith, rest i u'))
                ],
              ),
            )
      ]
  | inr (k, e) ↦
      let rest = subst (IsLeast s vs) e (least_from-IsLeast s vs) in
      let eq = least_from-cons_some s j k n vs e in
      let later = at_score-there k j n vs rest.0 in
      elim (ltb-cases j s) [
        | inl (q, lt) ↦
            let found : least_from s ((j, n) ∷ vs) ≡ some k = eq ∙ rw q refl in
            subst (IsLeast s ((j, n) ∷ vs)) (sym found) (
              later,
              (
                rest.1.0,
                λ i u le. elim (at_score-split i j n vs u) [
                  | inl same ↦ absurd (omega arith)
                  | inr u' ↦ rest.1.1 i u' le
                ],
              ),
            )
        | inr (q, ge) ↦ elim (ltb-cases j k) [
          | inl (p, lt) ↦
              let found : least_from s ((j, n) ∷ vs) ≡ some j = eq ∙ rw (q, p) refl in
              subst (IsLeast s ((j, n) ∷ vs)) (sym found) (
                at_score-here j n vs,
                (
                  ge,
                  λ i u le. elim (at_score-split i j n vs u) [
                    | inl same ↦ omega arith
                    | inr u' ↦ omega (arith, rest.1.1 i u' le)
                  ],
                ),
              )
          | inr (p, ge') ↦
              let found : least_from s ((j, n) ∷ vs) ≡ some k = eq ∙ rw (q, p) refl in
              subst (IsLeast s ((j, n) ∷ vs)) (sym found) (
                later,
                (
                  rest.1.0,
                  λ i u le. elim (at_score-split i j n vs u) [
                    | inl same ↦ omega arith
                    | inr u' ↦ rest.1.1 i u' le
                  ],
                ),
              )
        ]
      ]
]

most_up_to-cons_none :
    (s j : ℕ) (n : Bytes) (vs : List (ℕ × Bytes))
    → most_up_to s vs ≡ none
    → most_up_to s ((j, n) ∷ vs) ≡ (if ltb s j then none else some j)
unfolding most_up_to
most_up_to-cons_none s j n vs e = rw (e, most_up_to) refl

most_up_to-cons_some :
    (s j k : ℕ) (n : Bytes) (vs : List (ℕ × Bytes))
    → most_up_to s vs ≡ some k
    → most_up_to s ((j, n) ∷ vs)
      ≡ (if ltb s j then some k else (if ltb k j then some j else some k))
unfolding most_up_to
most_up_to-cons_some s j k n vs e = rw (e, most_up_to) refl

-- what the search up to s finds
abbrev pub IsMost : ℕ → List (ℕ × Bytes) → Option ℕ → Type 0
IsMost s vs none = (j : ℕ) → at_score j vs ≢ [] → s < j
IsMost s vs (some k) =
    (at_score k vs ≢ []) × ((k ≤ s) × ((j : ℕ) → at_score j vs ≢ [] → j ≤ s → j ≤ k))

pub most_up_to-IsMost : (s : ℕ) (vs : List (ℕ × Bytes)) → IsMost s vs (most_up_to s vs)
unfolding most_up_to at_score
most_up_to-IsMost s [] = λ j u. absurd (u refl)
most_up_to-IsMost s ((j, n) ∷ vs) = elim (Option-cases (most_up_to s vs)) [
  | inl e ↦
      let rest = subst (IsMost s vs) e (most_up_to-IsMost s vs) in
      elim (ltb-cases s j) [
        | inl (q, lt) ↦
            let found : most_up_to s ((j, n) ∷ vs) ≡ none =
              most_up_to-cons_none s j n vs e ∙ rw q refl in
            subst (IsMost s ((j, n) ∷ vs)) (sym found) (λ i u. elim (at_score-split i j n vs u) [
              | inl same ↦ omega arith
              | inr u' ↦ rest i u'
            ])
        | inr (q, ge) ↦
            let found : most_up_to s ((j, n) ∷ vs) ≡ some j =
              most_up_to-cons_none s j n vs e ∙ rw q refl in
            subst (IsMost s ((j, n) ∷ vs)) (sym found) (
              at_score-here j n vs,
              (
                ge,
                λ i u le. elim (at_score-split i j n vs u) [
                  | inl same ↦ omega arith
                  | inr u' ↦ absurd (omega (arith, rest i u'))
                ],
              ),
            )
      ]
  | inr (k, e) ↦
      let rest = subst (IsMost s vs) e (most_up_to-IsMost s vs) in
      let eq = most_up_to-cons_some s j k n vs e in
      let later = at_score-there k j n vs rest.0 in
      elim (ltb-cases s j) [
        | inl (q, lt) ↦
            let found : most_up_to s ((j, n) ∷ vs) ≡ some k = eq ∙ rw q refl in
            subst (IsMost s ((j, n) ∷ vs)) (sym found) (
              later,
              (
                rest.1.0,
                λ i u le. elim (at_score-split i j n vs u) [
                  | inl same ↦ absurd (omega arith)
                  | inr u' ↦ rest.1.1 i u' le
                ],
              ),
            )
        | inr (q, ge) ↦ elim (ltb-cases k j) [
          | inl (p, lt) ↦
              let found : most_up_to s ((j, n) ∷ vs) ≡ some j = eq ∙ rw (q, p) refl in
              subst (IsMost s ((j, n) ∷ vs)) (sym found) (
                at_score-here j n vs,
                (
                  ge,
                  λ i u le. elim (at_score-split i j n vs u) [
                    | inl same ↦ omega arith
                    | inr u' ↦ omega (arith, rest.1.1 i u' le)
                  ],
                ),
              )
          | inr (p, ge') ↦
              let found : most_up_to s ((j, n) ∷ vs) ≡ some k = eq ∙ rw (q, p) refl in
              subst (IsMost s ((j, n) ∷ vs)) (sym found) (
                later,
                (
                  rest.1.0,
                  λ i u le. elim (at_score-split i j n vs u) [
                    | inl same ↦ omega arith
                    | inr u' ↦ rest.1.1 i u' le
                  ],
                ),
              )
        ]
      ]
]
