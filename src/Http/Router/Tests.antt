-- ===== src/Http/Router/Tests.antt =====
-- Routes of swifty_http/router.go on concrete inputs.
use swifty_go.Prelude.{ℕ, ◌≡◌, refl, sym, some, List, [], ◌∷◌, Bytes, bytes_eq, lookup, insert}
use swifty_go.Http.Trie.{Node, pattern_of}
use swifty_go.Http.Router.{
  Router, new_router, parse_pattern, canonical, split, keep_parts, route_key, add_route,
  params_from, get_route,
}
use swifty_go.Http.Router.Parts.{NoStars, parse_pattern-canonical}
use swifty_go.Http.Router.Found.{IsRouter, add_route-get_route}

-- "GET", "/a/:b" and "//a/:b/"
abbrev get : Bytes
get = 71 ∷ 69 ∷ 84 ∷ []

abbrev pattern_ab : Bytes
pattern_ab = 47 ∷ 97 ∷ 47 ∷ 58 ∷ 98 ∷ []

abbrev untidy : Bytes
untidy = 47 ∷ 47 ∷ 97 ∷ 47 ∷ 58 ∷ 98 ∷ 47 ∷ []

same_parts : parse_pattern untidy ≡ parse_pattern pattern_ab
unfolding parse_pattern split keep_parts
same_parts = refl

no_stars : NoStars (parse_pattern untidy)
unfolding parse_pattern split keep_parts
no_stars = (refl, (refl, tt))

new_router-IsRouter : IsRouter {H = ℕ} new_router
unfolding new_router lookup
new_router-IsRouter = λ method n e. absurd (cc e)

parse_pattern-canonical_example :
    parse_pattern (canonical (parse_pattern untidy)) ≡ parse_pattern untidy
parse_pattern-canonical_example = parse_pattern-canonical untidy

add_route-get_route_example :
    (r' : Router ℕ) × (add_route new_router get untidy 3 ≡ some r')
    × (n : Node) × (params : List (Bytes × Bytes)) × (get_route r' get pattern_ab
        ≡ some (n, params))
    × (pattern_of n ≡ canonical (parse_pattern untidy))
    × (lookup (route_key get (pattern_of n)) r'.handlers ≡ some 3)
add_route-get_route_example =
    add_route-get_route new_router get untidy pattern_ab 3 new_router-IsRouter no_stars
      (sym same_parts)

-- a path with a parameter: the name and what it stands for
a_parameter :
    params_from (parse_pattern pattern_ab) (parse_pattern (47 ∷ 97 ∷ 47 ∷ 120 ∷ [])) []
    ≡ ((98 ∷ []), (120 ∷ [])) ∷ []
unfolding params_from parse_pattern split keep_parts insert
a_parameter = refl
