-- ===== src/Http/Router/Found.antt =====
-- What getRoute of swifty_http/router.go finds after an addRoute.
use swifty_go.Prelude.{
  some-inj, ℕ, ◌≡◌, ◌≢◌, refl, ap, sym, subst, ◌∙◌, inl, inr, false, Bool-cases, none, some,
  Option-cases, List, [], ◌∷◌, Bytes, bytes_eq, lookup, insert, lookup-insert_same,
  lookup-insert_other,
}
use swifty_go.Http.Trie
use swifty_go.Http.Trie.{
  Node, node, empty, pattern_of, part_of, star, has_prefix, bind_option, update_child, search,
}
use swifty_go.Http.Trie.Routes.{search-insert}
use swifty_go.Http.Router.{
  Router, parse_pattern, canonical, route_key, root_or_new, add_route, params_from, get_route,
}
use swifty_go.Http.Router.Parts.{NoStars, parse_pattern-IsPlain}

canonical-ne : (parts : List Bytes) → canonical parts ≢ []
unfolding canonical
canonical-ne parts = λ e. cc e

-- the trie's insertion keeps the part at the top
insert-part :
    (name : List ℕ) (ps : List (List ℕ)) (n m : Node)
    → Trie.insert name ps n ≡ some m
    → part_of m ≡ part_of n
unfolding Trie.insert part_of bind_option
insert-part name [] (node pattern_name part children is_wild) m e = ap part_of (sym (some-inj e))
insert-part name (p ∷ ps) (node pattern_name part children is_wild) m e =
    elim (Option-cases (update_child (Trie.insert name ps) p children)) [
      | inl fails ↦ absurd (
          cc (
            sym e ∙ ap (λ o. bind_option o (λ cs. some (node pattern_name part cs is_wild))) fails))
      | inr (cs, works) ↦ ap part_of (
          some-inj (
            sym e ∙ ap (λ o. bind_option o (λ ds. some (node pattern_name part ds is_wild))) works))
    ]

module _ {ℓ} {H : Type ℓ} where
  -- the roots are no wildcards
  abbrev pub IsRouter : Router H → Type 0
  IsRouter r =
      (method : Bytes) (n : Node)
      → lookup method r.roots ≡ some n
      → has_prefix star (part_of n) ≡ false

  root-IsPlain :
      (r : Router H) (method : Bytes)
      → IsRouter r
      → has_prefix star (part_of (root_or_new (lookup method r.roots))) ≡ false
  unfolding part_of
  root-IsPlain r method v = elim (Option-cases (lookup method r.roots)) [
    | inl new ↦ rw new refl
    | inr (n, known) ↦ ap (λ o. has_prefix star (part_of (root_or_new o))) known ∙ v method n known
  ]

  abbrev with_route : Router H → Bytes → Bytes → H → Node → Router H
  with_route r method pattern handler n = record {
    roots = insert method n r.roots;
    handlers = insert (route_key method (canonical (parse_pattern pattern))) handler r.handlers;
  }

  add_route-adds :
      (r : Router H) (method pattern : Bytes) (handler : H) (n : Node)
      → Trie.insert
          (canonical (parse_pattern pattern))
          (parse_pattern pattern)
          (root_or_new (lookup method r.roots))
        ≡ some n
      → add_route r method pattern handler ≡ some (with_route r method pattern handler n)
  unfolding add_route
  add_route-adds r method pattern handler n e = rw (e, add_route) refl

  get_route-finds :
      (r : Router H) (method path : Bytes) (root n : Node)
      → lookup method r.roots ≡ some root
      → search (parse_pattern path) root ≡ some n
      → get_route r method path
        ≡ some (n, params_from (parse_pattern (pattern_of n)) (parse_pattern path) [])
  unfolding get_route
  get_route-finds r method path root n e f = rw (e, f, get_route) refl

  -- After a pattern whose parts start with no star has been added, which does not panic, any path with
  -- the same parts, slashes apart, is routed to a node of the canonical pattern, under which the
  -- method's handler is the one that was added, whatever routes there were before.
  pub add_route-get_route :
      (r : Router H) (method pattern path : Bytes) (handler : H)
      → IsRouter r
      → NoStars (parse_pattern pattern)
      → parse_pattern path ≡ parse_pattern pattern
      → (r' : Router H) × (add_route r method pattern handler ≡ some r')
        × (n : Node) × (params : List (Bytes × Bytes)) × (get_route r' method path
            ≡ some (n, params))
        × (pattern_of n ≡ canonical (parse_pattern pattern))
        × (lookup (route_key method (pattern_of n)) r'.handlers ≡ some handler)
  add_route-get_route r method pattern path handler v plain same =
      let parts = parse_pattern pattern in
      let root = root_or_new (lookup method r.roots) in
      let done =
        search-insert (canonical parts) parts root (canonical-ne parts)
          (parse_pattern-IsPlain pattern plain) (root-IsPlain r method v) in
      let r' = with_route r method pattern handler done.0 in
      let there : lookup method r'.roots ≡ some done.0 =
        lookup-insert_same method method done.0 r.roots
          ((bytes_eq.same_iff method method).1 refl) in
      let its : lookup (route_key method (canonical parts)) r'.handlers ≡ some handler =
        lookup-insert_same (route_key method (canonical parts)) (route_key method (canonical parts))
          handler r.handlers
          ((bytes_eq.same_iff (route_key method (canonical parts))
              (route_key method (canonical parts))).1
            refl) in
      (
        r',
        add_route-adds r method pattern handler done.0 done.1,
        done.2,
        params_from (parse_pattern (pattern_of done.2)) (parse_pattern path) [],
        get_route-finds r' method path done.0 done.2 there
            (ap (λ ps. search ps done.0) same ∙ done.3),
        done.4,
        ap (λ (name : Bytes). lookup (route_key method name) r'.handlers) done.4 ∙ its,
      )

  add_route-none :
      (r : Router H) (method pattern : Bytes) (handler : H)
      → Trie.insert
          (canonical (parse_pattern pattern))
          (parse_pattern pattern)
          (root_or_new (lookup method r.roots))
        ≡ none
      → add_route r method pattern handler ≡ none
  unfolding add_route
  add_route-none r method pattern handler e = rw (e, add_route) refl

  with_route-IsRouter :
      (r : Router H) (method pattern : Bytes) (handler : H) (n : Node)
      → IsRouter r
      → part_of n ≡ part_of (root_or_new (lookup method r.roots))
      → IsRouter (with_route r method pattern handler n)
  with_route-IsRouter r method pattern handler n v same method' m known =
      elim (Bool-cases (bytes_eq.same method method')) [
        | inl q ↦
            let its : n ≡ m =
              some-inj (sym (lookup-insert_same method method' n r.roots q) ∙ known) in
            ap (λ (k : Node). has_prefix star (part_of k)) (sym its)
            ∙ ap (has_prefix star) same
            ∙ root-IsPlain r method v
        | inr q ↦ v method' m (sym (lookup-insert_other method method' n r.roots q) ∙ known)
      ]

  -- Adding a route keeps a router well formed.
  pub add_route-IsRouter :
      (r r' : Router H) (method pattern : Bytes) (handler : H)
      → IsRouter r
      → add_route r method pattern handler ≡ some r'
      → IsRouter r'
  add_route-IsRouter r r' method pattern handler v e =
      let parts = parse_pattern pattern in
      let root = root_or_new (lookup method r.roots) in
      elim (Option-cases (Trie.insert (canonical parts) parts root)) [
        | inl fails ↦ absurd (cc (sym e ∙ add_route-none r method pattern handler fails))
        | inr (n, works) ↦
            let made : with_route r method pattern handler n ≡ r' =
              cc (sym (add_route-adds r method pattern handler n works) ∙ e) in
            subst IsRouter made (
              with_route-IsRouter r method pattern handler n v
                (insert-part (canonical parts) parts root n works))
      ]
