-- ===== src/Hash/Plain/Lawful.antt =====
-- The plain ring that stands in for one of apps/consistent_hash keeps to the contract.
use swifty_go.Prelude.{
  ℕ, ◌≡◌, ◌≢◌, ◌<◌, ◌⊎◌, inl, inr, refl, sym, ap, subst, ◌∙◌, arith, not, ◌&&◌, ◌||◌, Bool-cases,
  Option, none, some, some-inj, List, [], ◌∷◌, ◌++◌, ◌==◌, ==_iff, if◌then◌else◌, Bytes, bytes_eq,
}
use swifty_go.Hash.{max_int32, minus_one}
use swifty_go.Hash.Arc.{Next, Last}
use swifty_go.Hash.Contract.{remove_first, IsHashRing, Pushed, has_key}
use swifty_go.Hash.Plain.{
  drop_first, Plain, plain, at_plain, recorded_plain, IsPlain, AllBelow, at_score, holds,
  least_from, most_up_to, keys_of, hold_all, release_all, or_else,
}
use swifty_go.Hash.Plain.Search.{
  AllBelow-used, IsLeast, least_from-IsLeast, IsMost, most_up_to-IsMost,
}

empty-cases : (xs : List Bytes) → (xs ≡ []) ⊎ (xs ≢ [])
empty-cases [] = inl refl
empty-cases (x ∷ xs) = inr (λ e. cc e)

-- with the scores from zero on there is one, or none is in use
ceiling-Next :
    (w : Plain) (s k : ℕ) (a b : Option ℕ)
    → IsLeast s w.virtual a
    → IsLeast 0 w.virtual b
    → or_else a b ≡ k
    → ((k ≡ minus_one) × ((j : ℕ) → at_plain w j ≡ [])) ⊎ Next (λ j. at_plain w j ≢ []) s k
unfolding or_else
ceiling-Next w s k (some a) b least first e =
    inr (subst (Next (λ j. at_plain w j ≢ []) s) e (least.0, inl (least.1.0, least.1.1)))
ceiling-Next w s k none (some b) none_from first e = inr (
    subst (Next (λ j. at_plain w j ≢ []) s) e
      (first.0, inr (none_from, λ j u. first.1.1 j u (omega arith))))
ceiling-Next w s k none none none_from no_first e = inl (
  sym e,
  λ j. elim (empty-cases (at_plain w j)) [
    | inl z ↦ z
    | inr u ↦ absurd (omega (arith, no_first j u))
  ],
)

floor-Last :
    (w : Plain) (s k : ℕ) (a b : Option ℕ)
    → IsPlain w
    → IsMost s w.virtual a
    → IsMost max_int32 w.virtual b
    → or_else a b ≡ k
    → ((k ≡ minus_one) × ((j : ℕ) → at_plain w j ≡ [])) ⊎ Last (λ j. at_plain w j ≢ []) s k
unfolding or_else
floor-Last w s k (some a) b v most top e =
    inr (subst (Last (λ j. at_plain w j ≢ []) s) e (most.0, inl (most.1.0, most.1.1)))
floor-Last w s k none (some b) v none_to top e = inr (
    subst (Last (λ j. at_plain w j ≢ []) s) e
      (top.0, inr (none_to, λ j u. top.1.1 j u (omega (arith, AllBelow-used w.virtual j v u)))))
floor-Last w s k none none v none_to no_top e = inl (
  sym e,
  λ j. elim (empty-cases (at_plain w j)) [
    | inl z ↦ z
    | inr u ↦ absurd (omega (arith, no_top j u, AllBelow-used w.virtual j v u))
  ],
)

at_score-append :
    (s j : ℕ) (n : Bytes) (vs : List (ℕ × Bytes))
    → at_score s (vs ++ ((j, n) ∷ []))
      ≡ (if j == s then at_score s vs ++ (n ∷ []) else at_score s vs)
unfolding at_score
at_score-append s j n [] = elim (Bool-cases (j == s)) [ inl q ↦ rw q refl | inr q ↦ rw q refl ]
at_score-append s j n ((i, m) ∷ vs) = elim (Bool-cases (j == s)) [
  | inl q ↦
      let rest : at_score s (vs ++ ((j, n) ∷ [])) ≡ at_score s vs ++ (n ∷ []) =
        at_score-append s j n vs ∙ rw q refl in
      elim (Bool-cases (i == s)) [ inl p ↦ rw (q, p, rest) refl | inr p ↦ rw (q, p, rest) refl ]
  | inr q ↦
      let rest : at_score s (vs ++ ((j, n) ∷ [])) ≡ at_score s vs =
        at_score-append s j n vs ∙ rw q refl in
      elim (Bool-cases (i == s)) [ inl p ↦ rw (q, p, rest) refl | inr p ↦ rw (q, p, rest) refl ]
]

Pushed-append : (n : Bytes) (xs : List Bytes) → Pushed n xs (xs ++ (n ∷ []))
Pushed-append n [] = refl
Pushed-append n (v ∷ vs) = (vs ++ (n ∷ []), (refl, inr (never vs)))
  where
    never : (vs : List Bytes) → vs ++ (n ∷ []) ≢ []
    never [] = λ e. cc e
    never (v ∷ vs) = λ e. cc e

append-AllBelow :
    (s : ℕ) (n : Bytes) (vs : List (ℕ × Bytes))
    → s < max_int32
    → AllBelow vs
    → AllBelow (vs ++ ((s, n) ∷ []))
append-AllBelow s n [] h v = (h, tt)
append-AllBelow s n ((j, m) ∷ vs) h v = (v.0, append-AllBelow s n vs h v.1)

holds-keys_of : (n k : Bytes) (hs : List (Bytes × Bytes)) → holds n k hs ≡ has_key k (keys_of n hs)
unfolding holds keys_of
holds-keys_of n k [] = refl
holds-keys_of n k ((m, j) ∷ hs) = elim (Bool-cases (bytes_eq.same m n)) [
  | inl q ↦ rw (q, holds-keys_of n k hs) refl
  | inr q ↦ rw (q, holds-keys_of n k hs) refl
]

holds-hold_all :
    (n m k : Bytes) (ks : List Bytes) (hs : List (Bytes × Bytes))
    → holds m k (hold_all n ks hs) ≡ (holds m k hs || (bytes_eq.same n m && has_key k ks))
unfolding holds hold_all
holds-hold_all n m k [] hs = ground arith
holds-hold_all n m k (j ∷ js) hs = ground (arith, holds-hold_all n m k js hs)

holds-release_all :
    (n m k : Bytes) (ks : List Bytes) (hs : List (Bytes × Bytes))
    → holds m k (release_all n ks hs) ≡ (holds m k hs && not (bytes_eq.same n m && has_key k ks))
unfolding holds release_all
holds-release_all n m k ks [] = refl
holds-release_all n m k ks ((p, j) ∷ hs) = elim (Bool-cases (bytes_eq.same p m)) [
  | inl q ↦ elim (Bool-cases (bytes_eq.same j k)) [
    | inl q' ↦
        let node_eq : bytes_eq.same n p ≡ bytes_eq.same n m =
          ap (bytes_eq.same n) ((bytes_eq.same_iff p m).0 q) in
        let key_eq : has_key j ks ≡ has_key k ks =
          ap (λ x. has_key x ks) ((bytes_eq.same_iff j k).0 q') in
        ground (arith, holds-release_all n m k ks hs)
    | inr q' ↦ ground (arith, holds-release_all n m k ks hs)
  ]
  | inr q ↦ ground (arith, holds-release_all n m k ks hs)
]

at_score-drop_first :
    (s j : ℕ) (n : Bytes) (vs : List (ℕ × Bytes))
    → at_score j (drop_first s n vs)
      ≡ (if j == s then remove_first n (at_score j vs) else at_score j vs)
unfolding at_score drop_first
at_score-drop_first s j n [] = ground arith
at_score-drop_first s j n ((i, m) ∷ vs) =
    ground (arith, ==_iff i s, ==_iff i j, ==_iff j s, at_score-drop_first s j n vs)

drop_first-AllBelow :
    (s : ℕ) (n : Bytes) (vs : List (ℕ × Bytes)) → AllBelow vs → AllBelow (drop_first s n vs)
unfolding drop_first
drop_first-AllBelow s n [] v = tt
drop_first-AllBelow s n ((j, m) ∷ vs) v = elim (Bool-cases (j == s && bytes_eq.same m n)) [
  | inl q ↦ rw (q, drop_first) v.1
  | inr q ↦ rw (q, drop_first) (v.0, drop_first-AllBelow s n vs v.1)
]

pub plain-IsHashRing : IsHashRing plain IsPlain at_plain recorded_plain
plain-IsHashRing = record {
  bounded = λ w j v u. AllBelow-used w.virtual j v u;
  ceiling_next = λ w s k v h e.
      ceiling-Next w s k (least_from s w.virtual) (least_from 0 w.virtual)
        (least_from-IsLeast s w.virtual) (least_from-IsLeast 0 w.virtual) (some-inj e);
  floor_last = λ w s k v h e.
      floor-Last w s k (most_up_to s w.virtual) (most_up_to max_int32 w.virtual) v
        (most_up_to-IsMost s w.virtual) (most_up_to-IsMost max_int32 w.virtual) (some-inj e);
  node_at = λ w s ns v e. some-inj (sym e);
  keys_recorded = λ w n k ks v e. holds-keys_of n k w.held ∙ ap (has_key k) (some-inj e);
  lock_valid = λ w e v. v;
  lock_at = λ w e j. refl;
  lock_recorded = λ w e n k. refl;
  unlock_valid = λ w v. v;
  unlock_at = λ w j. refl;
  unlock_recorded = λ w n k. refl;
  replica_valid = λ w n c v. v;
  replica_at = λ w n c j. refl;
  replica_recorded = λ w n c m k. refl;
  add_valid = λ w s n v h e. append-AllBelow s n w.virtual h v;
  add_pushed = λ w s n v e.
      subst (Pushed n (at_plain w s))
        (sym (at_score-append s s n w.virtual ∙ rw ((==_iff s s).1 refl) refl))
        (Pushed-append n (at_plain w s));
  add_others = λ w s j n v e ne. elim (Bool-cases (s == j)) [
    | inl q ↦ absurd (ne (sym ((==_iff s j).0 q)))
    | inr q ↦ at_score-append j s n w.virtual ∙ rw q refl
  ];
  add_recorded = λ w s n m k. refl;
  store_valid = λ w n ks v. v;
  store_at = λ w n ks j. refl;
  stored = λ w n m k ks e. holds-hold_all n m k ks w.held;
  drop_valid = λ w n ks v. v;
  drop_at = λ w n ks j. refl;
  dropped = λ w n m k ks e. holds-release_all n m k ks w.held;
  rem_valid = λ w s n v e. drop_first-AllBelow s n w.virtual v;
  rem_at = λ w s n v e. at_score-drop_first s s n w.virtual ∙ rw ((==_iff s s).1 refl) refl;
  rem_others = λ w s j n v e ne. elim (Bool-cases (j == s)) [
    | inl q ↦ absurd (ne ((==_iff j s).0 q))
    | inr q ↦ at_score-drop_first s j n w.virtual ∙ rw q refl
  ];
  rem_recorded = λ w s n m k. refl;
  unmark_valid = λ w n v. v;
  unmark_at = λ w n j. refl;
  unmark_recorded = λ w n m k. refl;
}
