-- ===== src/Cache/Ring/Search.antt =====
-- The binary search of Get in swifty_cache/consistent_hash.go.
use swifty_go.Prelude.{
  ltb-cases, ℕ, suc, zero, ◌+◌, ◌/◌, ◌≡◌, ◌≤◌, ◌<◌, ◌⊎◌, inl, inr, refl, sym, ap, subst, ◌∙◌, arith,
  Bool, true, false, Bool-cases,
}
use swifty_go.Cache.Ring.{search}

-- the least index from i up to j of which a test holds, or j
abbrev pub IsLeast : (ℕ → Bool) → ℕ → ℕ → ℕ → Type 0
IsLeast test i j r =
    (i ≤ r) × (r ≤ j) × ((k : ℕ) → i ≤ k → k < r → test k ≡ false) × (r < j → test r ≡ true)

-- a test that holds of all indices below j from one on
abbrev pub IsMonotone : (ℕ → Bool) → ℕ → Type 0
IsMonotone test j = (a b : ℕ) → a ≤ b → b < j → test a ≡ true → test b ≡ true

-- one round of the loop
search_step :
    (fuel i j : ℕ) (test : ℕ → Bool)
    → (j ≤ i → search (suc fuel) test i j ≡ i)
      × (i < j
          → test ((i + j) / 2) ≡ true
          → search (suc fuel) test i j ≡ search fuel test i ((i + j) / 2))
      × (i < j
          → test ((i + j) / 2) ≡ false
          → search (suc fuel) test i j ≡ search fuel test (suc ((i + j) / 2)) j)
unfolding search
search_step fuel i j test = elim (ltb-cases i j) [
  | inl (q, lt) ↦ (
    λ le. absurd (omega arith),
    λ _ holds. rw (q, search, holds) refl,
    λ _ fails. rw (q, search, fails) refl,
  )
  | inr (q, le) ↦ (λ _. rw (q, search) refl, λ lt. absurd (omega arith), λ lt. absurd (omega arith))
]

before-fails :
    (test : ℕ → Bool) (j h k : ℕ)
    → IsMonotone test j
    → h < j
    → test h ≡ false
    → k ≤ h
    → test k ≡ false
before-fails test j h k mono lt fails le = elim (Bool-cases (test k)) [
  | inl q ↦ absurd (cc (mono k h le lt q, fails))
  | inr q ↦ q
]

eq-cases : (r h : ℕ) → r ≤ h → (r < h) ⊎ (r ≡ h)
eq-cases r h le = omega arith

lt-cases : (h k : ℕ) → (suc h ≤ k) ⊎ (k ≤ h)
lt-cases h k = omega arith

at_middle :
    (r h : ℕ) (test : ℕ → Bool) → r ≤ h → (r < h → test r ≡ true) → test h ≡ true → test r ≡ true
at_middle r h test le below holds = elim (eq-cases r h le) [
  | inl lt ↦ below lt
  | inr e ↦ ap test e ∙ holds
]

done-IsLeast : (i j : ℕ) (test : ℕ → Bool) → i ≡ j → IsLeast test i j i
done-IsLeast i j test e =
    (omega arith, omega arith, λ k a b. absurd (omega arith), λ lt. absurd (omega arith))

-- The binary search of a monotone test, with as many rounds as there are indices, gives the least index
-- of which the test holds.
pub search-IsLeast :
    (fuel i j : ℕ) (test : ℕ → Bool)
    → j ≤ fuel + i
    → i ≤ j
    → IsMonotone test j
    → IsLeast test i j (search fuel test i j)
unfolding search
search-IsLeast zero i j test enough le mono = done-IsLeast i j test (omega arith)
search-IsLeast (suc fuel) i j test enough le mono = elim (ltb-cases i j) [
  | inr (q, ge) ↦
      subst (IsLeast test i j) (sym ((search_step fuel i j test).0 ge))
        (done-IsLeast i j test (omega arith))
  | inl (q, lt) ↦
      let h = (i + j) / 2 in
      let in_front : i ≤ h = omega arith in
      let behind : h < j = omega arith in
      elim (Bool-cases (test h)) [
        | inl holds ↦
            let rest =
              search-IsLeast fuel i h test (omega arith) in_front
                (λ a b ab bh. mono a b ab (omega arith)) in
            subst (IsLeast test i j) (sym ((search_step fuel i j test).1 lt holds)) (
              rest.0,
              omega (arith, rest.1),
              rest.2,
              λ below. at_middle (search fuel test i h) h test rest.1 rest.3 holds,
            )
        | inr fails ↦
            let rest = search-IsLeast fuel (suc h) j test (omega arith) (omega arith) mono in
            subst (IsLeast test i j) (sym ((search_step fuel i j test).2 lt fails)) (
              omega (arith, rest.0),
              rest.1,
              λ k ik kr. elim (lt-cases h k) [
                | inl after ↦ rest.2 k after kr
                | inr before ↦ before-fails test j h k mono behind fails before
              ],
              rest.3,
            )
      ]
]
