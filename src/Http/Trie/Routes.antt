-- ===== src/Http/Trie/Routes.antt =====
-- What a search finds after an insertion (swifty_http/trie.go).
use swifty_go.Prelude.{
  ℕ, ◌≡◌, ◌≢◌, ◌∙◌, ap, subst, inl, inr, refl, true, false, Option, some, List, [], ◌∷◌, bytes_eq,
  Bool-cases,
}
use swifty_go.Http.Trie.{
  Node, Nodes, node, empty, child_and, pattern_of, part_of, children_of, has_prefix, star,
  new_child, bind_option, update_child, insert, exact_children, match_children, first_found,
  if_pattern, search,
}

-- no part is empty, and none is a wildcard
abbrev pub IsPlain : List (List ℕ) → Type 0
IsPlain [] = Unit {0}
IsPlain (p ∷ ps) = (p ≢ []) × (has_prefix star p ≡ false) × IsPlain ps

-- what is known of an updated child
record IsUpdated (Q : Node → Type 0) (part : List ℕ) (into : Node → Option Node) (c : Node)
    : Type 0 where
  result : Node
  returns : into c ≡ some result
  same_part : part_of result ≡ part
  holds : Q result

-- the first exact child after an update
record IsFirst (Q : Node → Type 0) (part : List ℕ) (found : Option Nodes) : Type 0 where
  children : Nodes
  returns : found ≡ some children
  first : Node
  others : Nodes
  exact : exact_children part children ≡ child_and first others
  holds : Q first

same_refl : (p : List ℕ) → bytes_eq.same p p ≡ true
same_refl p = (bytes_eq.same_iff p p).1 refl

fresh-update : (p : List ℕ) → p ≢ [] → (c : Node) × (new_child p ≡ some c) × (part_of c ≡ p)
unfolding new_child part_of
fresh-update [] h = absurd (h refl)
fresh-update (x ∷ p) h = (node [] (x ∷ p) empty _, refl, refl)

exact-same :
    (p : List ℕ) (c : Node) (cs : Nodes)
    → part_of c ≡ p
    → exact_children p (child_and c cs) ≡ child_and c (exact_children p cs)
unfolding exact_children
exact-same p c cs h = rw ((bytes_eq.same_iff (part_of c) p).1 h) refl

exact-other :
    (p : List ℕ) (c : Node) (cs : Nodes)
    → bytes_eq.same (part_of c) p ≡ false
    → exact_children p (child_and c cs) ≡ exact_children p cs
unfolding exact_children
exact-other p c cs h = rw h refl

-- the child that is changed
update-here :
    (Q : Node → Type 0) (p : List ℕ) (into : Node → Option Node) (c : Node) (cs : Nodes)
    → IsUpdated Q p into c
    → IsFirst Q p (bind_option (into c) (λ d. some (child_and d cs)))
unfolding bind_option
update-here Q p into c cs v = record {
  children = child_and v.result cs;
  returns = rw (v.returns) refl;
  first = v.result;
  others = exact_children p cs;
  exact = exact-same p v.result cs v.same_part;
  holds = v.holds;
}

-- a child that is passed over
update-later :
    (Q : Node → Type 0) (p : List ℕ) (c : Node) (rest : Option Nodes)
    → bytes_eq.same (part_of c) p ≡ false
    → IsFirst Q p rest
    → IsFirst Q p (bind_option rest (λ ds. some (child_and c ds)))
unfolding bind_option
update-later Q p c rest h v = record {
  children = child_and c v.children;
  returns = rw (v.returns) refl;
  first = v.first;
  others = v.others;
  exact = exact-other p c v.children h ∙ v.exact;
  holds = v.holds;
}

update_child-IsFirst :
    (Q : Node → Type 0) (p : List ℕ) (into : Node → Option Node)
    → p ≢ []
    → ((c : Node) → part_of c ≡ p → IsUpdated Q p into c)
    → (cs : Nodes) → IsFirst Q p (update_child into p cs)
unfolding update_child bind_option
update_child-IsFirst Q p into h u empty =
    let fresh = fresh-update p h in
    rw (fresh.1) (update-here Q p into fresh.0 empty (u fresh.0 fresh.2))
update_child-IsFirst Q p into h u (child_and c cs) =
    elim (Bool-cases (bytes_eq.same (part_of c) p)) [
      | inl equal ↦
          rw equal (update-here Q p into c cs (u c ((bytes_eq.same_iff (part_of c) p).0 equal)))
      | inr other ↦
          rw other (
            update-later Q p c (update_child into p cs) other
              (update_child-IsFirst Q p into h u cs))
    ]

if_pattern-named : (n : Node) → pattern_of n ≢ [] → if_pattern n ≡ some n
unfolding if_pattern
if_pattern-named n h = elim (Bool-cases (bytes_eq.same (pattern_of n) [])) [
  | inl equal ↦ absurd (h ((bytes_eq.same_iff (pattern_of n) []).0 equal))
  | inr other ↦ rw other refl
]

first_found-exact :
    (search_in : Node → Option Node) (p : List ℕ) (ds : Nodes) (d : Node) (rest : Nodes) (l : Node)
    → exact_children p ds ≡ child_and d rest
    → search_in d ≡ some l
    → first_found search_in (match_children p ds) ≡ some l
unfolding first_found match_children
first_found-exact search_in p ds d rest l e f = rw (e, f) refl

-- that a search of the parts finds the node of a pattern
FoundAs : List ℕ → List (List ℕ) → Node → Type 0
FoundAs name ps n = (l : Node) × (search ps n ≡ some l) × (pattern_of l ≡ name)

insert-updates :
    (name : List ℕ) (ps : List (List ℕ)) (n : Node)
    → name ≢ []
    → IsPlain ps
    → has_prefix star (part_of n) ≡ false
    → IsUpdated (FoundAs name ps) (part_of n) (insert name ps) n
unfolding insert search FoundAs if_pattern pattern_of part_of children_of match_children first_found
    bind_option
insert-updates name [] (node old part cs w) h plain s = record {
  result = node name part cs w;
  returns = refl;
  same_part = refl;
  holds = (node name part cs w, if_pattern-named (node name part cs w) h, refl);
}
insert-updates name (p ∷ ps) (node old part cs w) h plain s =
    let into =
      update_child-IsFirst (FoundAs name ps) p (insert name ps) plain.0
        (λ c e.
          subst (λ q. IsUpdated (FoundAs name ps) q (insert name ps) c) e
            (insert-updates name ps c h plain.2 (ap (has_prefix star) e ∙ plain.1)))
        cs in
    record {
      result = node old part into.children w;
      returns = rw (into.returns) refl;
      same_part = refl;
      holds = (
        into.holds.0,
        rw s (
            first_found-exact (search ps) p into.children into.first into.others into.holds.0
              into.exact into.holds.1),
        into.holds.2,
      );
    }

-- A route without wildcards and with a name is found at its parts once it has been inserted,
-- whatever routes the trie had before, wildcards included: the insertion does not panic, and the
-- search stops at a node with the name of the route.
pub search-insert :
    (name : List ℕ) (ps : List (List ℕ)) (n : Node)
    → name ≢ []
    → IsPlain ps
    → has_prefix star (part_of n) ≡ false
    → (m : Node) × (insert name ps n ≡ some m)
      × (l : Node) × (search ps m ≡ some l)
      × (pattern_of l ≡ name)
unfolding FoundAs
search-insert name ps n h plain s =
    let updated = insert-updates name ps n h plain s in
    (updated.result, updated.returns, updated.holds.0, updated.holds.1, updated.holds.2)
