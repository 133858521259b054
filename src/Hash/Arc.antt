-- ===== src/Hash/Arc.antt =====
-- The scores in use on the ring of apps/consistent_hash, those next to a score, and what a new one takes.
use swifty_go.Prelude.{ℕ, ◌+◌, ◌-◌, ◌≡◌, ◌≢◌, ◌≤◌, ◌<◌, ◌⊎◌, inl, inr, arith}
use swifty_go.Hash.{max_int32, incr_score, decrease_score}
use swifty_go.Hash.Range.{InArc}

-- k is the least score in use from s on, or the least of all if there is none
abbrev pub Next : (ℕ → Type 0) → ℕ → ℕ → Type 0
Next Used s k =
    Used k
    × (((s ≤ k) × ((j : ℕ) → Used j → s ≤ j → k ≤ j))
        ⊎ (((j : ℕ) → Used j → j < s) × ((j : ℕ) → Used j → k ≤ j)))

-- k is the greatest score in use up to s, or the greatest of all if there is none
abbrev pub Last : (ℕ → Type 0) → ℕ → ℕ → Type 0
Last Used s k =
    Used k
    × (((k ≤ s) × ((j : ℕ) → Used j → j ≤ s → j ≤ k))
        ⊎ (((j : ℕ) → Used j → s < j) × ((j : ℕ) → Used j → j ≤ k)))

le-cases : (a b : ℕ) → (a ≤ b) ⊎ (b < a)
le-cases a b = omega arith

pub incr_score-cases :
    (s : ℕ) → s < max_int32 → ((s ≡ 2147483646) × (incr_score s ≡ 0)) ⊎ (incr_score s ≡ s + 1)
unfolding incr_score
incr_score-cases s h = ground arith

pub decrease_score-cases :
    (s : ℕ)
    → s < max_int32
    → ((s ≡ 0) × (decrease_score s ≡ 2147483646)) ⊎ ((0 < s) × (decrease_score s ≡ s - 1))
unfolding decrease_score
decrease_score-cases s h = ground arith

pub Next-unique : (Used : ℕ → Type 0) (s k k' : ℕ) → Next Used s k → Next Used s k' → k ≡ k'
Next-unique Used s k k' n n' = elim n.1 [
  | inl (from, least) ↦ elim n'.1 [
    | inl (from', least') ↦ omega (arith, least k' n'.0 from', least' k n.0 from)
    | inr (below', least') ↦ absurd (omega (arith, below' k n.0))
  ]
  | inr (below, least) ↦ elim n'.1 [
    | inl (from', least') ↦ absurd (omega (arith, below k' n'.0))
    | inr (below', least') ↦ omega (arith, least k' n'.0, least' k n.0)
  ]
]

-- the scores in use lie within bounds, and cur is one of them
module _ (Used : ℕ → Type 0) (bounded : (j : ℕ) → Used j → j < max_int32) (cur : ℕ)
    (used : Used cur) where
  -- the last score before cur: either all between are free, or cur is the first
  before :
      (last : ℕ)
      → Last Used (decrease_score cur) last
      → last ≢ cur
      → ((last < cur) × ((j : ℕ) → Used j → j < cur → j ≤ last))
        ⊎ ((cur < last) × ((j : ℕ) → Used j → (cur ≤ j) × (j ≤ last)))
  before last l ne = elim (decrease_score-cases cur (bounded cur used)) [
    | inl (z, e) ↦ elim l.1 [
      | inl (le, most) ↦
          inr (omega arith, λ j u. (omega arith, omega (arith, most j u, bounded j u)))
      | inr (above, most) ↦ absurd (omega (arith, above cur used, bounded cur used))
    ]
    | inr (pos, e) ↦ elim l.1 [
      | inl (le, most) ↦ inl (omega arith, λ j u lt. omega (arith, most j u))
      | inr (above, most) ↦
          inr (omega (arith, most cur used), λ j u. (omega (arith, above j u), most j u))
    ]
  ]

  -- what lies in the arc up to cur is next to cur
  pub InArc-Next :
      (last s : ℕ)
      → Last Used (decrease_score cur) last
      → last ≢ cur
      → InArc last cur s
      → Next Used s cur
  InArc-Next last s l ne arc = elim (before last l ne) [
    | inl (lt, free) ↦ (
      used,
      inl (
        omega arith,
        λ j u le. elim (le-cases cur j) [ inl q ↦ q | inr q ↦ absurd (omega (arith, free j u q)) ],
      ),
    )
    | inr (lt, all) ↦ elim (le-cases s cur) [
      | inl le ↦ (used, inl (le, λ j u k. (all j u).0))
      | inr gt ↦ (used, inr (λ j u. omega (arith, (all j u).1), λ j u. (all j u).0))
    ]
  ]

  -- and what is next to cur lies in the arc
  pub Next-InArc : (last s : ℕ) → Used last → last ≢ cur → Next Used s cur → InArc last cur s
  Next-InArc last s u ne n = elim n.1 [
    | inl (from, least) ↦ elim (le-cases s last) [
      | inl le ↦ omega (arith, least last u le)
      | inr gt ↦ omega arith
    ]
    | inr (below, least) ↦ omega (arith, below last u, least last u)
  ]

  -- a score that was next is so still, or cur is
  pub Next-new : (s q : ℕ) → Next (λ j. Used j × (j ≢ cur)) s q → Next Used s q ⊎ Next Used s cur
  Next-new s q n = elim n.1 [
    | inl (from, least) ↦ elim (le-cases s cur) [
      | inl le ↦ elim (le-cases q cur) [
        | inl first ↦ inl (
          n.0.0,
          inl (
            from,
            λ j u g. elim (le-cases q j) [ inl h ↦ h | inr h ↦ least j (u, omega arith) g ],
          ),
        )
        | inr later ↦ inr (
          used,
          inl (
            le,
            λ j u g. elim (le-cases cur j) [
              | inl h ↦ h
              | inr h ↦ absurd (omega (arith, least j (u, omega arith) g))
            ],
          ),
        )
      ]
      | inr gt ↦ inl (n.0.0, inl (from, λ j u g. least j (u, omega arith) g))
    ]
    | inr (below, least) ↦ elim (le-cases s cur) [
      | inl le ↦ inr (
        used,
        inl (
          le,
          λ j u g. elim (le-cases cur j) [
            | inl h ↦ h
            | inr h ↦ absurd (omega (arith, below j (u, omega arith)))
          ],
        ),
      )
      | inr gt ↦ elim (le-cases q cur) [
        | inl first ↦ inl (
          n.0.0,
          inr (
            λ j u. elim (le-cases s j) [ inl h ↦ below j (u, omega arith) | inr h ↦ h ],
            λ j u. elim (le-cases q j) [ inl h ↦ h | inr h ↦ least j (u, omega arith) ],
          ),
        )
        | inr later ↦ inr (
          used,
          inr (
            λ j u. elim (le-cases s j) [ inl h ↦ below j (u, omega arith) | inr h ↦ h ],
            λ j u. elim (le-cases cur j) [
              | inl h ↦ h
              | inr h ↦ absurd (omega (arith, least j (u, omega arith)))
            ],
          ),
        )
      ]
    ]
  ]

  -- the scores after cur: either all between are free, or cur is the last
  after :
      (next : ℕ)
      → Next Used (incr_score cur) next
      → next ≢ cur
      → ((cur < next) × ((j : ℕ) → Used j → cur < j → next ≤ j))
        ⊎ ((next < cur) × ((j : ℕ) → Used j → (next ≤ j) × (j ≤ cur)))
  after next n ne = elim (incr_score-cases cur (bounded cur used)) [
    | inl (top, e) ↦ elim n.1 [
      | inl (from, least) ↦ inr (
        omega (arith, bounded next n.0),
        λ j u. (least j u (omega arith), omega (arith, bounded j u)),
      )
      | inr (below, least) ↦ absurd (omega (arith, below cur used))
    ]
    | inr e ↦ elim n.1 [
      | inl (from, least) ↦ inl (omega arith, λ j u lt. least j u (omega arith))
      | inr (below, least) ↦
          inr (omega (arith, below next n.0), λ j u. (least j u, omega (arith, below j u)))
    ]
  ]

  -- what is next to cur was next to the score after cur
  pub Next-before :
      (s next : ℕ)
      → s < max_int32
      → Next Used (incr_score cur) next
      → next ≢ cur
      → Next Used s cur
      → Next (λ j. Used j × (j ≢ cur)) s next
  Next-before s next h n ne c = elim (after next n ne) [
    | inl (lt, free) ↦ elim c.1 [
      | inl (from, least) ↦
          ((n.0, ne), inl (omega arith, λ j u g. free j u.0 (omega (arith, least j u.0 g, u.1))))
      | inr (below, least) ↦
          ((n.0, ne), inr (λ j u. below j u.0, λ j u. free j u.0 (omega (arith, least j u.0, u.1))))
    ]
    | inr (lt, all) ↦ elim c.1 [
      | inl (from, least) ↦ (
        (n.0, ne),
        inr (
          λ j u. elim (le-cases s j) [
            | inl g ↦ absurd (omega (arith, least j u.0 g, (all j u.0).1, u.1))
            | inr g ↦ g
          ],
          λ j u. (all j u.0).0,
        ),
      )
      | inr (below, least) ↦ absurd (omega (arith, least next n.0))
    ]
  ]

  -- the ring does not wrap around on both sides of cur
  pub wraps_once :
      (last next : ℕ)
      → Last Used (decrease_score cur) last
      → last ≢ cur
      → Used next
      → cur < last
      → cur ≤ next
  wraps_once last next l ne u lt = elim (before last l ne) [
    | inl (lt', free) ↦ absurd (omega arith)
    | inr (lt', all) ↦ (all next u).0
  ]

  -- the scores on both sides of cur are cur only where it is the only one
  pub Last-only : (j : ℕ) → Last Used (decrease_score cur) cur → Used j → j ≡ cur
  Last-only j l u = elim (decrease_score-cases cur (bounded cur used)) [
    | inl (z, e) ↦ elim l.1 [
      | inl (le, most) ↦ omega (arith, most j u, bounded j u)
      | inr (above, most) ↦ absurd (omega (arith, above cur used, bounded cur used))
    ]
    | inr (pos, e) ↦ elim l.1 [
      | inl (le, most) ↦ absurd (omega arith)
      | inr (above, most) ↦ omega (arith, above j u, most j u)
    ]
  ]

  pub Next-only : (j : ℕ) → Next Used (incr_score cur) cur → Used j → j ≡ cur
  Next-only j n u = elim (incr_score-cases cur (bounded cur used)) [
    | inl (top, e) ↦ elim n.1 [
      | inl (from, least) ↦ omega (arith, least j u, bounded j u)
      | inr (below, least) ↦ absurd (omega (arith, below cur used))
    ]
    | inr e ↦ elim n.1 [
      | inl (from, least) ↦ absurd (omega arith)
      | inr (below, least) ↦ omega (arith, below j u, least j u)
    ]
  ]

-- scores in use under another name
pub Next-map :
    (Used Used' : ℕ → Type 0) (s k : ℕ)
    → ((j : ℕ) → Used j → Used' j)
    → ((j : ℕ) → Used' j → Used j)
    → Next Used s k
    → Next Used' s k
Next-map Used Used' s k f g n = elim n.1 [
  | inl (from, least) ↦ (f k n.0, inl (from, λ j u. least j (g j u)))
  | inr (below, least) ↦ (f k n.0, inr (λ j u. below j (g j u), λ j u. least j (g j u)))
]
