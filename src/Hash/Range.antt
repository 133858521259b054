-- ===== src/Hash/Range.antt =====
-- The test of migrateIn in apps/consistent_hash/migration.go, in int32, against the arc of the ring.
use swifty_go.Prelude.{
  ℕ, ◌≡◌, ◌≤◌, ◌<◌, ◌↔◌, ◌⊎◌, inl, inr, refl, ◌∙◌, arith, true, false, not, ◌||◌, Bool-cases, ltb,
  leb, ltb-cases, if◌then◌else◌, sub32, add32, leb_int32,
}
use swifty_go.Hash.{max_int32, lt_int32, in_range}

-- s is after last, and no further than cur, on the way round
abbrev pub InArc : ℕ → ℕ → ℕ → Type 0
InArc last cur s =
    ((cur < last) × ((last < s) ⊎ (s ≤ cur))) ⊎ ((last ≤ cur) × ((last < s) × (s ≤ cur)))

leb_int32_small : (a b : ℕ) → a < max_int32 → b < max_int32 → leb_int32 a b ≡ leb a b
leb_int32_small a b h k = ground arith

pub lt_int32_small : (a b : ℕ) → a < max_int32 → b < max_int32 → lt_int32 a b ≡ ltb a b
lt_int32_small a b h k = ground arith

module _ (last cur next s : ℕ) where
  pub in_range-plain :
      lt_int32 cur last ≡ false
      → lt_int32 next cur ≡ false
      → in_range last cur next s ≡ not (leb_int32 s last || lt_int32 cur s)
  unfolding in_range
  in_range-plain p q = rw (p, q, in_range) refl

  -- the ring wraps around between last and cur
  pub in_range-one :
      lt_int32 cur last ≡ true
      → lt_int32 next cur ≡ false
      → in_range last cur next s ≡ (
          let l = sub32 last max_int32 in
          let x = if lt_int32 (add32 l max_int32) s then sub32 s max_int32 else s in
          not (leb_int32 x l || lt_int32 cur x))
  unfolding in_range
  in_range-one p q = rw (p, q, in_range) refl

  -- it wraps around between cur and next
  in_range-two :
      lt_int32 cur last ≡ false
      → lt_int32 next cur ≡ true
      → in_range last cur next s
        ≡ not (
            leb_int32 (sub32 s max_int32) (sub32 last max_int32)
            || lt_int32 (sub32 cur max_int32) (sub32 s max_int32))
  unfolding in_range
  in_range-two p q = rw (p, q, in_range) refl

  module _ (hl : last < max_int32) (hc : cur < max_int32) (hs : s < max_int32) where
    plain_iff : last ≤ cur → (not (leb_int32 s last || lt_int32 cur s) ≡ true) ↔ InArc last cur s
    plain_iff le = ground arith

    two_iff :
        last ≤ cur
        → (not (
              leb_int32 (sub32 s max_int32) (sub32 last max_int32)
              || lt_int32 (sub32 cur max_int32) (sub32 s max_int32))
            ≡ true)
          ↔ InArc last cur s
    two_iff le = ground arith

    one_iff :
        cur < last
        → (let l = sub32 last max_int32 in
            let x = if lt_int32 (add32 l max_int32) s then sub32 s max_int32 else s in
            not (leb_int32 x l || lt_int32 cur x) ≡ true)
          ↔ InArc last cur s
    one_iff lt = ground arith

-- Where the ring does not wrap around on both sides of the new score, the test on int32 values holds of
-- exactly the scores after the last one and up to the new one, on the way round.
pub in_range_iff :
    (last cur next s : ℕ)
    → last < max_int32
    → cur < max_int32
    → next < max_int32
    → s < max_int32
    → (cur < last → cur ≤ next)
    → (in_range last cur next s ≡ true) ↔ InArc last cur s
in_range_iff last cur next s hl hc hn hs apart = elim (ltb-cases cur last) [
  | inl (p, lt) ↦
      let e =
        in_range-one last cur next s (lt_int32_small cur last hc hl ∙ p)
          (lt_int32_small next cur hn hc ∙ ground (arith, apart lt)) in
      rw e (one_iff last cur next s hl hc hs lt)
  | inr (p, le) ↦
      let at = lt_int32_small cur last hc hl ∙ p in
      elim (Bool-cases (ltb next cur)) [
        | inl q ↦
            let e = in_range-two last cur next s at (lt_int32_small next cur hn hc ∙ q) in
            rw e (two_iff last cur next s hl hc hs le)
        | inr q ↦
            let e = in_range-plain last cur next s at (lt_int32_small next cur hn hc ∙ q) in
            rw e (plain_iff last cur next s hl hc hs le)
      ]
]
