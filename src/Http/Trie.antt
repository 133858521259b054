-- ===== src/Http/Trie.antt =====
-- The trie of routes, swifty_http/trie.go. A string is its bytes. A search and an insertion go down
-- the parts of a path, in the source by an index into them. `none` as the result of an insertion is
-- a panic: the index 0 of an empty part.
pub mod Routes
use swifty_go.Prelude.{
  ℕ, Bool, true, false, Option, none, some, List, [], ◌∷◌, ◌++◌, ◌&&◌, ◌||◌, not, if◌then◌else◌,
  ◌==◌, Key, bytes_eq,
}

mutual
  pub data Node : Type 0 where
    node : List ℕ → List ℕ → Nodes → Bool → Node

  pub data Nodes : Type 0 where
    empty : Nodes
    child_and : Node → Nodes → Nodes

unfoldable pub pattern_of : Node → List ℕ
pattern_of (node pattern_name part children is_wild) = pattern_name

unfoldable pub part_of : Node → List ℕ
part_of (node pattern_name part children is_wild) = part

unfoldable pub children_of : Node → Nodes
children_of (node pattern_name part children is_wild) = children

unfoldable pub is_wild_of : Node → Bool
is_wild_of (node pattern_name part children is_wild) = is_wild

-- whether a part starts with a byte
abbrev pub has_prefix : ℕ → List ℕ → Bool
has_prefix c [] = false
has_prefix c (x ∷ xs) = x == c

-- the bytes of ':' and '*'
abbrev pub colon : ℕ
colon = 58

abbrev pub star : ℕ
star = 42

unfoldable pub new_child : List ℕ → Option Node
new_child [] = none
new_child (x ∷ xs) = some (node [] (x ∷ xs) empty (x == colon || x == star))

unfoldable pub bind_option : {A B : Type 0} → Option A → (A → Option B) → Option B
bind_option none f = none
bind_option (some a) f = f a

-- matchChild, and what insert does with the child: it changes the first child of this part, or
-- adds one at the end
unfoldable pub update_child : (Node → Option Node) → List ℕ → Nodes → Option Nodes
unfolding new_child bind_option
update_child insert_into part empty =
    bind_option (new_child part) (λ c. bind_option (insert_into c) (λ d. some (child_and d empty)))
update_child insert_into part (child_and c cs) =
    let rest = update_child insert_into part cs in
    if bytes_eq.same (part_of c) part
    then bind_option (insert_into c) (λ d. some (child_and d cs))
    else bind_option rest (λ ds. some (child_and c ds))

-- insert, from the part at the height on
unfoldable pub insert : List ℕ → List (List ℕ) → Node → Option Node
unfolding update_child bind_option
insert name [] (node pattern_name part children is_wild) = some (node name part children is_wild)
insert name (p ∷ ps) (node pattern_name part children is_wild) =
    bind_option (update_child (insert name ps) p children)
      (λ cs. some (node pattern_name part cs is_wild))

abbrev pub append : Nodes → Nodes → Nodes
append empty ds = ds
append (child_and c cs) ds = child_and c (append cs ds)

-- the two loops of matchChildren
unfoldable pub exact_children : List ℕ → Nodes → Nodes
exact_children part empty = empty
exact_children part (child_and c cs) =
    let rest = exact_children part cs in
    if bytes_eq.same (part_of c) part then child_and c rest else rest

unfoldable pub wild_children : List ℕ → Nodes → Nodes
wild_children part empty = empty
wild_children part (child_and c cs) =
    let rest = wild_children part cs in
    if not (bytes_eq.same (part_of c) part) && is_wild_of c then child_and c rest else rest

unfoldable pub match_children : List ℕ → Nodes → Nodes
unfolding exact_children wild_children
match_children part cs = append (exact_children part cs) (wild_children part cs)

-- the loop of search: the first child that finds something
unfoldable pub first_found : (Node → Option Node) → Nodes → Option Node
first_found search_in empty = none
first_found search_in (child_and c cs) =
    let rest = first_found search_in cs in elim (search_in c) [ none ↦ rest | some n ↦ some n ]

-- a node that ends a pattern
unfoldable pub if_pattern : Node → Option Node
if_pattern n = if bytes_eq.same (pattern_of n) [] then none else some n

-- search, from the part at the height on
unfoldable pub search : List (List ℕ) → Node → Option Node
unfolding if_pattern match_children first_found
search [] n = if_pattern n
search (p ∷ ps) n =
    let deeper = first_found (search ps) (match_children p (children_of n)) in
    if has_prefix star (part_of n) then if_pattern n else deeper

-- travel: the nodes of the patterns, in the order of the tree
unfoldable mutual
  pub travel : Node → List Node → List Node
  travel (node pattern_name part children is_wild) found = travel_children children (
      if bytes_eq.same pattern_name []
      then found
      else found ++ (node pattern_name part children is_wild ∷ []))

  travel_children : Nodes → List Node → List Node
  travel_children empty found = found
  travel_children (child_and c cs) found = travel_children cs (travel c found)
