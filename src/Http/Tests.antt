-- ===== src/Http/Tests.antt =====
-- A small trie of routes (swifty_http/trie.go).
use swifty_go.Prelude.{ℕ, ◌≡◌, ◌≢◌, refl, true, false, some, List, [], ◌∷◌}
use swifty_go.Http.Trie.{
  Node, node, empty, child_and, pattern_of, part_of, children_of, is_wild_of, insert, search,
  travel,
}
use swifty_go.Http.Trie.Routes.{search-insert}

-- the route "/:x" (here with the name ":x") and nothing else
abbrev with_parameter : Node
with_parameter =
    node [] [] (child_and (node (58 ∷ 120 ∷ []) (58 ∷ 120 ∷ []) empty true) empty) false

a_parameter_matches :
    search ((97 ∷ []) ∷ []) with_parameter ≡ some (node (58 ∷ 120 ∷ []) (58 ∷ 120 ∷ []) empty true)
unfolding search part_of children_of is_wild_of pattern_of
a_parameter_matches = refl

-- "a" goes in behind it
abbrev with_both : Node
with_both =
    node [] []
      (child_and (node (58 ∷ 120 ∷ []) (58 ∷ 120 ∷ []) empty true)
        (child_and (node (97 ∷ []) (97 ∷ []) empty false) empty))
      false

insertion_adds : insert (97 ∷ []) ((97 ∷ []) ∷ []) with_parameter ≡ some with_both
unfolding insert part_of
insertion_adds = refl

routes_travelled :
    travel with_both []
    ≡ node (58 ∷ 120 ∷ []) (58 ∷ 120 ∷ []) empty true ∷ node (97 ∷ []) (97 ∷ []) empty false ∷ []
unfolding travel
routes_travelled = refl

cons-ne : (x : ℕ) (xs : List ℕ) → x ∷ xs ≢ []
cons-ne x xs = λ e. cc

search-insert_example :
    (m : Node) × (insert (97 ∷ []) ((97 ∷ []) ∷ []) with_parameter ≡ some m)
    × (l : Node) × (search ((97 ∷ []) ∷ []) m ≡ some l)
    × (pattern_of l ≡ 97 ∷ [])
unfolding part_of
search-insert_example =
    search-insert (97 ∷ []) ((97 ∷ []) ∷ []) with_parameter (cons-ne 97 [])
      (cons-ne 97 [], refl, tt) refl
