-- ===== src/Http/Router/Parts.antt =====
-- parsePattern of swifty_http/router.go and the pattern that addRoute makes of the parts.
use swifty_go.Prelude.{
  ℕ, ◌≡◌, refl, ap, sym, ◌∙◌, inl, inr, true, false, Bool-cases, List, [], ◌∷◌, ◌++◌, ◌==◌, Bytes,
}
use swifty_go.Http.Trie.{star, has_prefix}
use swifty_go.Http.Trie.Routes.{IsPlain}
use swifty_go.Http.Router.{slash, before_first, split, keep_parts, parse_pattern, join, canonical}

abbrev NoSlash : Bytes → Type 0
NoSlash [] = Unit {0}
NoSlash (x ∷ xs) = ((x == slash) ≡ false) × NoSlash xs

abbrev EachNoSlash : List Bytes → Type 0
EachNoSlash [] = Unit {0}
EachNoSlash (v ∷ vs) = NoSlash v × EachNoSlash vs

-- parts are not empty and have no slash, and only the last may start with a star
abbrev IsParts : List Bytes → Type 0
IsParts [] = Unit {0}
IsParts ([] ∷ ps) = ⊥
IsParts ((x ∷ xs) ∷ ps) = NoSlash (x ∷ xs) × ((x == star) ≡ true → ps ≡ []) × IsParts ps

before_first-NoSlash :
    (x : ℕ) (vs : List Bytes)
    → (x == slash) ≡ false
    → EachNoSlash vs
    → EachNoSlash (before_first x vs)
before_first-NoSlash x [] h g = ((h, tt), tt)
before_first-NoSlash x (v ∷ vs) h g = ((h, g.0), g.1)

split-NoSlash : (p : Bytes) → EachNoSlash (split p)
unfolding split
split-NoSlash [] = (tt, tt)
split-NoSlash (x ∷ xs) = elim (Bool-cases (x == slash)) [
  | inl q ↦ rw q (tt, split-NoSlash xs)
  | inr q ↦ rw q (before_first-NoSlash x (split xs) q (split-NoSlash xs))
]

keep_parts-IsParts : (vs : List Bytes) → EachNoSlash vs → IsParts (keep_parts vs)
unfolding keep_parts
keep_parts-IsParts [] g = tt
keep_parts-IsParts ([] ∷ vs) g = keep_parts-IsParts vs g.1
keep_parts-IsParts ((x ∷ xs) ∷ vs) g = elim (Bool-cases (x == star)) [
  | inl q ↦ rw q (g.0, λ _. refl, tt)
  | inr q ↦ rw q (g.0, λ e. absurd (cc (sym q ∙ e)), keep_parts-IsParts vs g.1)
]

parse_pattern-IsParts : (p : Bytes) → IsParts (parse_pattern p)
unfolding parse_pattern
parse_pattern-IsParts p = keep_parts-IsParts (split p) (split-NoSlash p)

split-part : (p q : Bytes) → NoSlash p → split (p ++ (slash ∷ q)) ≡ p ∷ split q
unfolding split
split-part [] q h = refl
split-part (x ∷ p) q h = rw (h.0, split-part p q h.1) refl

split_last : (p : Bytes) → NoSlash p → split p ≡ p ∷ []
unfolding split
split_last [] h = refl
split_last (x ∷ p) h = rw (h.0, split_last p h.1) refl

no_parts : keep_parts (split []) ≡ []
unfolding keep_parts split
no_parts = refl

keep_last : (x : ℕ) (xs : Bytes) → keep_parts ((x ∷ xs) ∷ []) ≡ (x ∷ xs) ∷ []
unfolding keep_parts
keep_last x xs = elim (Bool-cases (x == star)) [ inl q ↦ rw q refl | inr q ↦ rw q refl ]

keep_more :
    (x : ℕ) (xs : Bytes) (vs : List Bytes)
    → (x == star) ≡ false
    → keep_parts ((x ∷ xs) ∷ vs) ≡ (x ∷ xs) ∷ keep_parts vs
unfolding keep_parts
keep_more x xs vs q = rw q refl

no_star :
    (x : ℕ) (q : Bytes) (ps : List Bytes) → ((x == star) ≡ true → q ∷ ps ≡ []) → (x == star) ≡ false
no_star x q ps h = elim (Bool-cases (x == star)) [ inl e ↦ absurd (cc (h e)) | inr e ↦ e ]

keep_parts-join : (ps : List Bytes) → IsParts ps → keep_parts (split (join ps)) ≡ ps
unfolding join
keep_parts-join [] g = no_parts
keep_parts-join ([] ∷ ps) g = absurd g
keep_parts-join ((x ∷ xs) ∷ []) g = ap keep_parts (split_last (x ∷ xs) g.0) ∙ keep_last x xs
keep_parts-join ((x ∷ xs) ∷ q ∷ ps) g =
    ap keep_parts (split-part (x ∷ xs) (join (q ∷ ps)) g.0)
    ∙ keep_more x xs (split (join (q ∷ ps))) (no_star x q ps g.1)
    ∙ ap (λ vs. (x ∷ xs) ∷ vs) (keep_parts-join (q ∷ ps) g.2)

-- The canonical pattern that addRoute makes of the parts of a pattern has the same parts, whatever the
-- pattern: parsing it again gives them back.
pub parse_pattern-canonical :
    (pattern : Bytes) → parse_pattern (canonical (parse_pattern pattern)) ≡ parse_pattern pattern
unfolding parse_pattern canonical split keep_parts
parse_pattern-canonical pattern =
    keep_parts-join (parse_pattern pattern) (parse_pattern-IsParts pattern)

-- no part starts with a star
abbrev pub NoStars : List Bytes → Type 0
NoStars [] = Unit {0}
NoStars (p ∷ ps) = (has_prefix star p ≡ false) × NoStars ps

parts-IsPlain : (ps : List Bytes) → IsParts ps → NoStars ps → IsPlain ps
parts-IsPlain [] g h = tt
parts-IsPlain ([] ∷ ps) g h = absurd g
parts-IsPlain ((x ∷ xs) ∷ ps) g h = ((λ e. cc e), h.0, parts-IsPlain ps g.2 h.1)

pub parse_pattern-IsPlain : (p : Bytes) → NoStars (parse_pattern p) → IsPlain (parse_pattern p)
parse_pattern-IsPlain p h = parts-IsPlain (parse_pattern p) (parse_pattern-IsParts p) h
