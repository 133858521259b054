-- ===== src/Http/Router.antt =====
-- The router of swifty_http/router.go, on the trie of its routes. A handler is of any type; `handle`
-- runs the middlewares over a context and is not in the model. `none` is a panic.
pub mod Parts
pub mod Found
mod Tests
use swifty_go.Prelude.{
  ℕ, suc, zero, ◌+◌, Bool, true, false, Option, none, some, List, [], ◌∷◌, ◌++◌, if◌then◌else◌,
  ◌==◌, length, Bytes, bytes_eq, lookup, insert,
}
use swifty_go.Http.Trie
use swifty_go.Http.Trie.{Node, node, empty, pattern_of, star, colon, bind_option, search, travel}

pub record Router {ℓ} (H : Type ℓ) : Type ℓ where
  pub roots : List (Bytes × Node)
  pub handlers : List (Bytes × H)

unfoldable pub new_router {ℓ} : {H : Type ℓ} → Router H
new_router = record { roots = []; handlers = [] }

-- the byte of '/'
abbrev pub slash : ℕ
slash = 47

abbrev pub before_first : ℕ → List Bytes → List Bytes
before_first x [] = (x ∷ []) ∷ []
before_first x (v ∷ vs) = (x ∷ v) ∷ vs

-- strings.Split at the slashes
unfoldable pub split : Bytes → List Bytes
split [] = [] ∷ []
split (x ∷ xs) = let rest = split xs in if x == slash then [] ∷ rest else before_first x rest

-- the loop of parsePattern
unfoldable pub keep_parts : List Bytes → List Bytes
keep_parts [] = []
keep_parts ([] ∷ vs) = keep_parts vs
keep_parts ((x ∷ xs) ∷ vs) =
    let rest = keep_parts vs in if x == star then (x ∷ xs) ∷ [] else (x ∷ xs) ∷ rest

unfoldable pub parse_pattern : Bytes → List Bytes
unfolding split keep_parts
parse_pattern pattern = keep_parts (split pattern)

-- strings.Join with slashes
unfoldable pub join : List Bytes → Bytes
join [] = []
join (p ∷ []) = p
join (p ∷ q ∷ ps) = p ++ (slash ∷ join (q ∷ ps))

unfoldable pub canonical : List Bytes → Bytes
unfolding join
canonical parts = slash ∷ join parts

-- method + "-" + pattern
unfoldable pub route_key : Bytes → Bytes → Bytes
route_key method name = method ++ (45 ∷ name)

abbrev pub root_or_new : Option Node → Node
root_or_new none = node [] [] empty false
root_or_new (some n) = n

unfoldable pub add_route {ℓ} : {H : Type ℓ} → Router H → Bytes → Bytes → H → Option (Router H)
unfolding parse_pattern canonical route_key bind_option
add_route r method pattern handler =
    let parts = parse_pattern pattern in
    elim (Trie.insert (canonical parts) parts (root_or_new (lookup method r.roots))) [
      | none ↦ none
      | some n ↦ some (record {
        roots = insert method n r.roots;
        handlers = insert (route_key method (canonical parts)) handler r.handlers;
      })
    ]

-- the part of a path at an index; one that is not there, a panic in the source, is empty
abbrev first_of : List Bytes → Bytes
first_of [] = []
first_of (p ∷ ps) = p

abbrev rest_of : List Bytes → List Bytes
rest_of [] = []
rest_of (p ∷ ps) = ps

-- the loop of getRoute over the parts of the pattern, beside those of the path; a part that the path
-- does not have, of which the source panics, reads as empty
unfoldable pub params_from : List Bytes → List Bytes → List (Bytes × Bytes) → List (Bytes × Bytes)
unfolding join
params_from [] path params = params
params_from ([] ∷ parts) path params = params_from parts (rest_of path) params
params_from ((x ∷ name) ∷ parts) path params =
    let with_name = if x == colon then insert name (first_of path) params else params in
    let rest = params_from parts (rest_of path) with_name in
    if x == star
    then (if length name == 0 then rest else insert name (join path) with_name)
    else rest

-- getRoute; `none` is the nil node
unfoldable pub get_route {ℓ} :
    {H : Type ℓ} → Router H → Bytes → Bytes → Option (Node × List (Bytes × Bytes))
unfolding parse_pattern params_from
get_route r method path = elim (lookup method r.roots) [
  | none ↦ none
  | some root ↦ elim (search (parse_pattern path) root) [
    | none ↦ none
    | some n ↦ some (n, params_from (parse_pattern (pattern_of n)) (parse_pattern path) [])
  ]
]

unfoldable pub get_routes {ℓ} : {H : Type ℓ} → Router H → Bytes → List Node
get_routes r method = elim (lookup method r.roots) [ none ↦ [] | some root ↦ travel root [] ]
