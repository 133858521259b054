-- ===== src/Hash/Ending.antt =====
-- The search for the next node in apps/consistent_hash/migration.go comes to an end.
use swifty_go.Prelude.{
  subst, ℕ, suc, zero, ◌+◌, ◌≡◌, ◌≢◌, ◌<◌, ◌≤◌, inl, inr, refl, sym, ap, ◌∙◌, arith, Bool, false,
  ◌||◌, Bool-cases, some, Option-cases, List, [], ◌∷◌, length, ◌==◌, ==_iff, if◌then◌else◌, Has,
  Bytes, bytes_eq,
}
use swifty_go.Hash.{HashRing, Options, minus_one, max_int32, get_node_id, incr_score}
use swifty_go.Hash.Contract.{IsHashRing}
use swifty_go.Hash.Between.{incr_score_lt, or-false}
use swifty_go.Hash.Removal.{NextNode, out_of_fuel, is_ranged, other_node, get_valid_next_node}

-- how many scores are not among those that were passed
remaining : List ℕ → List ℕ → ℕ
remaining [] passed = 0
remaining (s ∷ ss) passed =
    let rest = remaining ss passed in if is_ranged s passed then rest else suc rest

remaining-more :
    (ss : List ℕ) (s : ℕ) (passed : List ℕ) → remaining ss (s ∷ passed) ≤ remaining ss passed
unfolding remaining is_ranged
remaining-more [] s passed = omega arith
remaining-more (x ∷ xs) s passed = ground (arith, remaining-more xs s passed)

remaining-less :
    (ss : List ℕ) (s : ℕ) (passed : List ℕ)
    → Has s ss
    → is_ranged s passed ≡ false
    → remaining ss (s ∷ passed) < remaining ss passed
unfolding remaining is_ranged
remaining-less [] s passed h q = absurd h
remaining-less (x ∷ xs) s passed (inl e) q =
    let same = (==_iff s x).1 e in
    let new = ap (λ y. is_ranged y passed) (sym e) ∙ q in
    ground (arith, remaining-more xs s passed, ==_iff s x)
remaining-less (x ∷ xs) s passed (inr h) q =
    ground (arith, remaining-more xs s passed, remaining-less xs s passed h q)

remaining_none : (ss : List ℕ) → remaining ss [] ≤ length ss
unfolding remaining is_ranged
remaining_none [] = omega arith
remaining_none (x ∷ xs) = omega (arith, remaining_none xs)

module _ {W : Type 0} (r : HashRing W) (IsValid : W → Type 0) (at : W → ℕ → List Bytes)
    (recorded : W → Bytes → Bytes → Bool) (h : IsHashRing r IsValid at recorded)
    (encrypt : Bytes → ℕ) (o : Options) (w : W) (valid : IsValid w) (node_id : Bytes) where
  abbrev search : ℕ → ℕ → List ℕ → NextNode
  search fuel score ranged = get_valid_next_node r encrypt o fuel w score node_id ranged

  other_node-ends :
      (ns : List Bytes) (rest : NextNode)
      → rest ≢ out_of_fuel
      → other_node r encrypt o node_id ns rest ≢ out_of_fuel
  other_node-ends [] rest e = λ z. cc z
  other_node-ends (n ∷ []) rest e = elim (Bool-cases (bytes_eq.same (get_node_id n) node_id)) [
    | inl q ↦ rw q e
    | inr q ↦ rw q (λ z. cc z)
  ]
  other_node-ends (n ∷ m ∷ ms) rest e = elim (Bool-cases (bytes_eq.same (get_node_id n) node_id)) [
    | inl q ↦ rw q (λ z. cc z)
    | inr q ↦ rw q (λ z. cc z)
  ]

  -- a score that comes again ends the search
  again :
      (fuel score : ℕ) (ranged : List ℕ)
      → 0 < fuel
      → r.ceiling w (incr_score score) ≡ some score
      → search fuel score (score ∷ ranged) ≢ out_of_fuel
  unfolding get_valid_next_node is_ranged
  again zero score ranged pos q = absurd (omega arith)
  again (suc fuel) score ranged pos q = elim (Bool-cases (score == minus_one)) [
    | inl p ↦ rw (q, p, get_valid_next_node) (λ z. cc z)
    | inr p ↦
        let self = (==_iff score score).1 refl in
        rw (q, p, self, get_valid_next_node, is_ranged) (λ z. cc z)
  ]

  -- the score after one is in use
  next_used :
      (score next : ℕ)
      → score < max_int32
      → r.ceiling w (incr_score score) ≡ some next
      → (next == minus_one) ≡ false
      → at w next ≢ []
  next_used score next below q p =
      elim (h.ceiling_next w (incr_score score) next valid (incr_score_lt score below) q) [
        | inl (missing, free) ↦ absurd (cc (p, (==_iff next minus_one).1 missing))
        | inr n ↦ n.0
      ]

  search_ends :
      (scores : List ℕ) (fuel score : ℕ) (ranged : List ℕ)
      → ((j : ℕ) → at w j ≢ [] → Has j scores)
      → score < max_int32
      → remaining scores (score ∷ ranged) + 2 ≤ fuel
      → search fuel score ranged ≢ out_of_fuel
  unfolding get_valid_next_node is_ranged
  search_ends scores zero score ranged all below enough = absurd (omega arith)
  search_ends scores (suc fuel) score ranged all below enough =
      elim (Option-cases (r.ceiling w (incr_score score))) [
        | inl q ↦ rw (q, get_valid_next_node) (λ z. cc z)
        | inr (next, q) ↦ elim (Bool-cases (next == minus_one || is_ranged next ranged)) [
          | inl p ↦ rw (q, p, get_valid_next_node) (λ z. cc z)
          | inr p ↦ elim (Option-cases (r.node w next)) [
            | inl s ↦ rw (q, p, s, get_valid_next_node) (λ z. cc z)
            | inr (ns, s) ↦
                rw (q, p, s, get_valid_next_node)
                  (other_node-ends ns (search fuel next (score ∷ ranged))
                    (elim (Bool-cases (score == next)) [
                      | inl same ↦
                          let e = (==_iff score next).0 same in
                          subst (λ x. search fuel x (score ∷ ranged) ≢ out_of_fuel) e
                            (again fuel score ranged (omega arith) (q ∙ ap some (sym e)))
                      | inr ne ↦
                          let parts = or-false (next == minus_one) (is_ranged next ranged) p in
                          let used = next_used score next below q parts.0 in
                          let new : is_ranged next (score ∷ ranged) ≡ false =
                            rw (ne, parts.1, is_ranged) refl in
                          let less =
                            remaining-less scores next (score ∷ ranged) (all next used) new in
                          search_ends scores fuel next (score ∷ ranged) all
                            (h.bounded w next valid used) (omega arith)
                    ]))
          ]
        ]
      ]

  -- On a ring that keeps to the contract, the search for the next node from a score within the
  -- bound ends, with two more calls than there are scores in use.
  pub get_valid_next_node-ends :
      (scores : List ℕ) (fuel score : ℕ)
      → ((j : ℕ) → at w j ≢ [] → Has j scores)
      → score < max_int32
      → length scores + 2 ≤ fuel
      → get_valid_next_node r encrypt o fuel w score node_id [] ≢ out_of_fuel
  get_valid_next_node-ends scores fuel score all below enough =
      search_ends scores fuel score [] all below
        (omega (arith, remaining-more scores score [], remaining_none scores))
