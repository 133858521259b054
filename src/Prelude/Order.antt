-- ===== src/Prelude/Order.antt =====
-- Lists of numbers: membership, ascending order and sort.Ints.
use Prim.Native.Nat.{ℕ, zero, suc, ◌≤◌, ◌<◌}
use mathlib.Core.Path.{◌≡◌, refl, sym}
use mathlib.Core.Logic.{◌↔◌, ◌⊎◌, inl, inr}
use mathlib.Core.Bool.{true, false}
use mathlib.Core.List.{List, [], ◌∷◌, ◌++◌}
use native.Mathlib.Omega.{arith}
use swifty_go.Prelude.Tests.{leb, if◌then◌else◌, Bool-cases}
use swifty_go.Prelude.Lists.{length, get_or}

abbrev pub Has : ℕ → List ℕ → Type 0
Has i [] = ⊥
Has i (j ∷ js) = (i ≡ j) ⊎ Has i js

-- no element is below a number
abbrev pub AtLeast : ℕ → List ℕ → Type 0
AtLeast x [] = Unit {0}
AtLeast x (y ∷ ys) = (x ≤ y) × AtLeast x ys

abbrev pub Sorted : List ℕ → Type 0
Sorted [] = Unit {0}
Sorted (x ∷ xs) = AtLeast x xs × Sorted xs

pub AtLeast-Has : (x i : ℕ) (xs : List ℕ) → AtLeast x xs → Has i xs → x ≤ i
AtLeast-Has x i [] b h = absurd h
AtLeast-Has x i (y ∷ ys) b (inl e) = omega arith
AtLeast-Has x i (y ∷ ys) b (inr h) = AtLeast-Has x i ys b.1 h

AtLeast-weaken : (x y : ℕ) (xs : List ℕ) → x ≤ y → AtLeast y xs → AtLeast x xs
AtLeast-weaken x y [] h b = tt
AtLeast-weaken x y (z ∷ zs) h b = (omega arith, AtLeast-weaken x y zs h b.1)

unfoldable pub insert_sorted : ℕ → List ℕ → List ℕ
insert_sorted x [] = x ∷ []
insert_sorted x (y ∷ ys) = let rest = insert_sorted x ys in if leb x y then x ∷ y ∷ ys else y ∷ rest

unfoldable pub sort_asc : List ℕ → List ℕ
unfolding insert_sorted
sort_asc [] = []
sort_asc (x ∷ xs) = insert_sorted x (sort_asc xs)

AtLeast-insert : (z x : ℕ) (xs : List ℕ) → z ≤ x → AtLeast z xs → AtLeast z (insert_sorted x xs)
unfolding insert_sorted
AtLeast-insert z x [] h b = (h, tt)
AtLeast-insert z x (y ∷ ys) h b = elim (Bool-cases (leb x y)) [
  | inl q ↦ rw q (h, b)
  | inr q ↦ rw q (b.0, AtLeast-insert z x ys h b.1)
]

leb-cases : (x y : ℕ) → ((leb x y ≡ true) × (x ≤ y)) ⊎ ((leb x y ≡ false) × (y ≤ x))
leb-cases x y = ground arith

insert_sorted-Sorted : (x : ℕ) (xs : List ℕ) → Sorted xs → Sorted (insert_sorted x xs)
unfolding insert_sorted
insert_sorted-Sorted x [] s = (tt, tt)
insert_sorted-Sorted x (y ∷ ys) s = elim (leb-cases x y) [
  | inl (q, h) ↦ rw q ((h, AtLeast-weaken x y ys h s.0), s)
  | inr (q, h) ↦ rw q (AtLeast-insert y x ys h s.0, insert_sorted-Sorted x ys s.1)
]

pub sort_asc-Sorted : (xs : List ℕ) → Sorted (sort_asc xs)
unfolding sort_asc
sort_asc-Sorted [] = tt
sort_asc-Sorted (x ∷ xs) = insert_sorted-Sorted x (sort_asc xs) (sort_asc-Sorted xs)

Has-insert : (i x : ℕ) (xs : List ℕ) → Has i (insert_sorted x xs) ↔ Has i (x ∷ xs)
unfolding insert_sorted
Has-insert i x [] = (λ h. h, λ h. h)
Has-insert i x (y ∷ ys) =
    let rest = Has-insert i x ys in
    elim (Bool-cases (leb x y)) [
      | inl q ↦ rw q (λ h. h, λ h. h)
      | inr q ↦ rw q (
        λ h. elim h [
          | inl e ↦ inr (inl e)
          | inr t ↦ elim (rest.0 t) [ inl e ↦ inl e | inr u ↦ inr (inr u) ]
        ],
        λ h. elim h [
          | inl e ↦ inr (rest.1 (inl e))
          | inr (inl e) ↦ inl e
          | inr (inr u) ↦ inr (rest.1 (inr u))
        ],
      )
    ]

pub Has-sort_asc : (i : ℕ) (xs : List ℕ) → Has i (sort_asc xs) ↔ Has i xs
unfolding sort_asc
Has-sort_asc i [] = (λ h. h, λ h. h)
Has-sort_asc i (x ∷ xs) =
    let inner = Has-insert i x (sort_asc xs) in
    let rest = Has-sort_asc i xs in
    (
      λ h. elim (inner.0 h) [ inl e ↦ inl e | inr t ↦ inr (rest.0 t) ],
      λ h. inner.1 (elim h [ inl e ↦ inl e | inr t ↦ inr (rest.1 t) ]),
    )

-- membership in a list with one more element at its end
pub Has-last : (i x : ℕ) (xs : List ℕ) → Has i (xs ++ (x ∷ [])) ↔ (Has i xs ⊎ (i ≡ x))
Has-last i x [] = (
  λ h. elim h [ inl e ↦ inr e | inr f ↦ absurd f ],
  λ h. elim h [ inl f ↦ absurd f | inr e ↦ inl e ],
)
Has-last i x (y ∷ ys) =
    let rest = Has-last i x ys in
    (
      λ h. elim h [
        | inl e ↦ inl (inl e)
        | inr t ↦ elim (rest.0 t) [ inl u ↦ inl (inr u) | inr e ↦ inr e ]
      ],
      λ h. elim h [
        | inl (inl e) ↦ inl e
        | inl (inr u) ↦ inr (rest.1 (inl u))
        | inr e ↦ inr (rest.1 (inr e))
      ],
    )

pub Has-get_or : (xs : List ℕ) (a : ℕ) → a < length xs → Has (get_or xs a 0) xs
Has-get_or [] a lt = absurd (omega arith)
Has-get_or (x ∷ xs) zero lt = inl refl
Has-get_or (x ∷ xs) (suc a) lt = inr (Has-get_or xs a (omega arith))

-- the index of an element
pub Has-index : (xs : List ℕ) (i : ℕ) → Has i xs → (a : ℕ) × (a < length xs) × (get_or xs a 0 ≡ i)
Has-index [] i h = absurd h
Has-index (x ∷ xs) i (inl e) = (0, omega arith, sym e)
Has-index (x ∷ xs) i (inr h) = let r = Has-index xs i h in (suc r.0, omega (arith, r.1), r.2)

-- the elements in order of their indices
pub Sorted-get_or :
    (xs : List ℕ) (a b : ℕ) → Sorted xs → a ≤ b → b < length xs → get_or xs a 0 ≤ get_or xs b 0
Sorted-get_or [] a b s h lt = absurd (omega arith)
Sorted-get_or (x ∷ xs) zero zero s h lt = omega arith
Sorted-get_or (x ∷ xs) zero (suc b) s h lt =
    AtLeast-Has x (get_or xs b 0) xs s.0 (Has-get_or xs b (omega arith))
Sorted-get_or (x ∷ xs) (suc a) zero s h lt = absurd (omega arith)
Sorted-get_or (x ∷ xs) (suc a) (suc b) s h lt = Sorted-get_or xs a b s.1 (omega arith) (omega arith)
