-- ===== src/Cache/Lru/Chain.antt =====
-- The doubly linked list in the index pairs of swifty_cache/lru.go, as a sequence.
use swifty_go.Prelude.{
  get_or-set_self, get_or-set_ne, ℕ, ◌≡◌, ◌≢◌, ◌<◌, refl, sym, ◌∙◌, arith, List, [], ◌∷◌, ◌++◌,
  length, length-set,
}
use swifty_go.Cache.Lru.{Side, prev, next, Links, link, relink}

-- the number of elements
abbrev pub IsSized : Links → ℕ → Type 0
IsSized l n = (length l.prevs ≡ n) × (length l.nexts ≡ n)

abbrev pub NotIn : ℕ → List ℕ → Type 0
NotIn i [] = Unit {0}
NotIn i (j ∷ js) = (i ≢ j) × NotIn i js

abbrev pub Distinct : List ℕ → Type 0
Distinct [] = Unit {0}
Distinct (i ∷ is) = NotIn i is × Distinct is

abbrev pub AllBelow : ℕ → List ℕ → Type 0
AllBelow n [] = Unit {0}
AllBelow n (i ∷ is) = (i < n) × AllBelow n is

module _ (l : Links) where
  pub relink-IsSized : (s : Side) (i j n : ℕ) → IsSized l n → IsSized (relink l s i j) n
  unfolding relink
  relink-IsSized prev i j n z = (length-set l.prevs i j ∙ z.0, z.1)
  relink-IsSized next i j n z = (z.0, length-set l.nexts i j ∙ z.1)

  pub link-relink_self :
      (s : Side) (i j n : ℕ) → IsSized l n → i < n → link (relink l s i j) s i ≡ j
  unfolding link relink
  link-relink_self prev i j n z h = get_or-set_self l.prevs i j 0 (omega (arith, z.0))
  link-relink_self next i j n z h = get_or-set_self l.nexts i j 0 (omega (arith, z.1))

  pub link-relink_ne : (s : Side) (i j k : ℕ) → i ≢ k → link (relink l s i j) s k ≡ link l s k
  unfolding link relink
  link-relink_ne prev i j k h = get_or-set_ne l.prevs i k j 0 h
  link-relink_ne next i j k h = get_or-set_ne l.nexts i k j 0 h

  pub link-relink_other :
      (s s' : Side) (i j k : ℕ) → s ≢ s' → link (relink l s i j) s' k ≡ link l s' k
  unfolding link relink
  link-relink_other prev prev i j k h = absurd (h refl)
  link-relink_other prev next i j k h = refl
  link-relink_other next prev i j k h = refl
  link-relink_other next next i j k h = absurd (h refl)

-- from `a` the links of side `t` lead through the sequence to `b`, and those of side `f` back
abbrev pub Chain : Links → Side → Side → ℕ → List ℕ → ℕ → Type 0
Chain l t f a [] b = (link l t a ≡ b) × (link l f b ≡ a)
Chain l t f a (x ∷ xs) b = (link l t a ≡ x) × (link l f x ≡ a) × Chain l t f x xs b

-- the last of a sequence and what stands before it
abbrev pub last_of : ℕ → List ℕ → ℕ
last_of a [] = a
last_of a (x ∷ xs) = last_of x xs

abbrev pub first_of : List ℕ → ℕ → ℕ
first_of [] b = b
first_of (x ∷ xs) b = x

module _ (l : Links) (t f : Side) (apart : t ≢ f) where
  -- a chain survives a write outside of it
  pub Chain-relink_to :
      (a : ℕ) (xs : List ℕ) (b i j : ℕ)
      → NotIn i (a ∷ xs)
      → Chain l t f a xs b
      → Chain (relink l t i j) t f a xs b
  Chain-relink_to a [] b i j out c =
      (link-relink_ne l t i j a out.0 ∙ c.0, link-relink_other l t f i j b apart ∙ c.1)
  Chain-relink_to a (x ∷ xs) b i j out c = (
    link-relink_ne l t i j a out.0 ∙ c.0,
    link-relink_other l t f i j x apart ∙ c.1,
    Chain-relink_to x xs b i j out.1 c.2,
  )

  pub Chain-relink_from :
      (a : ℕ) (xs : List ℕ) (b i j : ℕ)
      → NotIn i xs
      → i ≢ b
      → Chain l t f a xs b
      → Chain (relink l f i j) t f a xs b
  Chain-relink_from a [] b i j out ne c =
      (link-relink_other l f t i j a (λ e. apart (sym e)) ∙ c.0, link-relink_ne l f i j b ne ∙ c.1)
  Chain-relink_from a (x ∷ xs) b i j out ne c = (
    link-relink_other l f t i j a (λ e. apart (sym e)) ∙ c.0,
    link-relink_ne l f i j x out.0 ∙ c.1,
    Chain-relink_from x xs b i j out.1 ne c.2,
  )

  pub Chain-first : (a : ℕ) (xs : List ℕ) (b : ℕ) → Chain l t f a xs b → link l t a ≡ first_of xs b
  Chain-first a [] b c = c.0
  Chain-first a (x ∷ xs) b c = c.0

  pub Chain-last : (a : ℕ) (xs : List ℕ) (b : ℕ) → Chain l t f a xs b → link l f b ≡ last_of a xs
  Chain-last a [] b c = c.1
  Chain-last a (x ∷ xs) b c = Chain-last x xs b c.2

  pub Chain-split :
      (a : ℕ) (xs : List ℕ) (y : ℕ) (ys : List ℕ) (b : ℕ)
      → Chain l t f a (xs ++ (y ∷ ys)) b
      → Chain l t f a xs y × Chain l t f y ys b
  Chain-split a [] y ys b c = ((c.0, c.1), c.2)
  Chain-split a (x ∷ xs) y ys b c =
      let rest = Chain-split x xs y ys b c.2 in ((c.0, c.1, rest.0), rest.1)

  pub Chain-join :
      (a : ℕ) (xs : List ℕ) (y : ℕ) (ys : List ℕ) (b : ℕ)
      → Chain l t f a xs y
      → Chain l t f y ys b
      → Chain l t f a (xs ++ (y ∷ ys)) b
  Chain-join a [] y ys b c d = (c.0, c.1, d)
  Chain-join a (x ∷ xs) y ys b c d = (c.0, c.1, Chain-join x xs y ys b c.2 d)
