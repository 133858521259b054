-- ===== src/Tcc/Registry.antt =====
-- The components that a transaction of apps/tcc_demo asks for.
use swifty_go.Prelude.{
  some-inj, ◌≡◌, inl, inr, refl, sym, ap, subst, ◌∙◌, Bool-cases, none, some, Option-cases, List,
  [], ◌∷◌, Bytes, bytes_eq, lookup, insert, lookup-insert_same, lookup-insert_other,
}
use swifty_go.Tcc.{Services, register, find_components}
use swifty_go.Tcc.Manager.{index_requests, request_ids, to_entities, components_of, get_components}
use swifty_go.Tcc.Contract.{ids_of}
use swifty_go.Tcc.Trying.{NotIn, Distinct}

index_requests-none :
    {D : Type 0} (seen : List (Bytes × D)) (i : Bytes) (d : D) (reqs : List (Bytes × D))
    → lookup i seen ≡ none
    → index_requests seen ((i, d) ∷ reqs) ≡ index_requests (insert i d seen) reqs
unfolding index_requests
index_requests-none seen i d reqs e = rw (e, index_requests) refl

index_requests-some :
    {D : Type 0} (seen : List (Bytes × D)) (i : Bytes) (d v : D) (reqs : List (Bytes × D))
    → lookup i seen ≡ some v
    → index_requests seen ((i, d) ∷ reqs) ≡ none
unfolding index_requests
index_requests-some seen i d v reqs e = rw (e, index_requests) refl

-- requests that could be indexed are for different components
index_requests-Distinct :
    {D : Type 0} (seen reqs m : List (Bytes × D))
    → index_requests seen reqs ≡ some m
    → Distinct (request_ids reqs)
      × ((j : Bytes) (v : D) → lookup j seen ≡ some v → NotIn j (request_ids reqs))
index_requests-Distinct seen [] m e = (tt, λ j v h. tt)
index_requests-Distinct seen ((i, d) ∷ reqs) m e = elim (Option-cases (lookup i seen)) [
  | inr (v, known) ↦ absurd (cc (sym e ∙ index_requests-some seen i d v reqs known))
  | inl new ↦
      let rest =
        index_requests-Distinct (insert i d seen) reqs m
          (sym (index_requests-none seen i d reqs new) ∙ e) in
      let self = lookup-insert_same i i d seen ((bytes_eq.same_iff i i).1 refl) in
      (
        (rest.1 i d self, rest.0),
        λ j v h. elim (Bool-cases (bytes_eq.same i j)) [
          | inl q ↦
              absurd (cc (sym new ∙ ap (λ k. lookup k seen) ((bytes_eq.same_iff i j).0 q) ∙ h))
          | inr q ↦ (
            λ e'. cc (q, (bytes_eq.same_iff i j).1 (sym e')),
            rest.1 j v (lookup-insert_other i j d seen q ∙ h),
          )
        ],
      )
]

module _ {C D W : Type 0} (s : Services C D W) where
  -- a component is registered under its id
  abbrev pub IsRegistry : List (Bytes × C) → Type 0
  IsRegistry registry = (i : Bytes) (c : C) → lookup i registry ≡ some c → s.id c ≡ i

  pub register-IsRegistry :
      (registry registry' : List (Bytes × C)) (c : C)
      → IsRegistry registry
      → register s registry c ≡ some registry'
      → IsRegistry registry'
  unfolding register
  register-IsRegistry registry registry' c v e i c' h =
      elim (Option-cases (lookup (s.id c) registry)) [
        | inr (d, known) ↦
            let fails : register s registry c ≡ none = rw (known, register) refl in
            absurd (cc (sym e ∙ fails))
        | inl new ↦
            let works : register s registry c ≡ some (insert (s.id c) c registry) =
              rw (new, register) refl in
            let made : insert (s.id c) c registry ≡ registry' = cc (sym works ∙ e) in
            let there : lookup i (insert (s.id c) c registry) ≡ some c' =
              ap (λ m. lookup i m) made ∙ h in
            elim (Bool-cases (bytes_eq.same (s.id c) i)) [
              | inl q ↦
                  let same : c ≡ c' =
                    cc (sym (lookup-insert_same (s.id c) i c registry q) ∙ there) in
                  ap s.id (sym same) ∙ (bytes_eq.same_iff (s.id c) i).0 q
              | inr q ↦ v i c' (sym (lookup-insert_other (s.id c) i c registry q) ∙ there)
            ]
      ]

  -- the components that were found, in order
  find-ids :
      (registry : List (Bytes × C)) (ids : List Bytes) (cs : List C)
      → IsRegistry registry
      → find_components s registry ids ≡ some cs
      → ids_of s cs ≡ ids
  unfolding find_components
  find-ids registry [] cs v e = ap (ids_of s) (some-inj (sym e))
  find-ids registry (i ∷ ids) cs v e = elim (Option-cases (lookup i registry)) [
    | inl new ↦
        let fails : find_components s registry (i ∷ ids) ≡ none = rw (new, find_components) refl in
        absurd (cc (sym e ∙ fails))
    | inr (c, known) ↦ elim (Option-cases (find_components s registry ids)) [
      | inl gone ↦
          let fails : find_components s registry (i ∷ ids) ≡ none =
            rw (known, gone, find_components) refl in
          absurd (cc (sym e ∙ fails))
      | inr (ds, found) ↦
          let works : find_components s registry (i ∷ ids) ≡ some (c ∷ ds) =
            rw (known, found, find_components) refl in
          ap (ids_of s) (some-inj (sym e ∙ works))
          ∙ ap (λ j. j ∷ ids_of s ds) (v i c known)
          ∙ ap (λ js. i ∷ js) (find-ids registry ids ds v found)
    ]
  ]

  to_entities-components :
      (by_id : List (Bytes × D)) (cs : List C) (es : List (C × D))
      → to_entities s by_id cs ≡ some es
      → components_of es ≡ cs
  unfolding to_entities
  to_entities-components by_id [] es e = ap components_of (some-inj (sym e))
  to_entities-components by_id (c ∷ cs) es e = elim (Option-cases (lookup (s.id c) by_id)) [
    | inl new ↦
        let fails : to_entities s by_id (c ∷ cs) ≡ none = rw (new, to_entities) refl in
        absurd (cc (sym e ∙ fails))
    | inr (d, known) ↦ elim (Option-cases (to_entities s by_id cs)) [
      | inl gone ↦
          let fails : to_entities s by_id (c ∷ cs) ≡ none = rw (known, gone, to_entities) refl in
          absurd (cc (sym e ∙ fails))
      | inr (fs, made) ↦
          let works : to_entities s by_id (c ∷ cs) ≡ some ((c, d) ∷ fs) =
            rw (known, made, to_entities) refl in
          ap components_of (some-inj (sym e ∙ works))
          ∙ ap (λ ds. c ∷ ds) (to_entities-components by_id cs fs made)
    ]
  ]

  -- the entities of a transaction have different components
  pub get_components-Distinct :
      (registry : List (Bytes × C)) (reqs : List (Bytes × D)) (es : List (C × D))
      → IsRegistry registry
      → get_components s registry reqs ≡ some es
      → Distinct (ids_of s (components_of es))
  unfolding get_components
  get_components-Distinct registry [] es v e = absurd (cc e)
  get_components-Distinct registry (r ∷ rs) es v e =
      elim (Option-cases (index_requests [] (r ∷ rs))) [
        | inl gone ↦
            let fails : get_components s registry (r ∷ rs) ≡ none =
              rw (gone, get_components) refl in
            absurd (cc (sym e ∙ fails))
        | inr (by_id, indexed) ↦
            elim (Option-cases (find_components s registry (request_ids (r ∷ rs)))) [
              | inl gone ↦
                  let fails : get_components s registry (r ∷ rs) ≡ none =
                    rw (indexed, gone, get_components) refl in
                  absurd (cc (sym e ∙ fails))
              | inr (cs, found) ↦
                  let works : get_components s registry (r ∷ rs) ≡ to_entities s by_id cs =
                    rw (indexed, found, get_components) refl in
                  let parts = to_entities-components by_id cs es (sym works ∙ e) in
                  subst Distinct
                    (sym
                      (ap (ids_of s) parts ∙ find-ids registry (request_ids (r ∷ rs)) cs v found))
                    (index_requests-Distinct [] (r ∷ rs) by_id indexed).0
            ]
      ]
