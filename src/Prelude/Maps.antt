-- ===== src/Prelude/Maps.antt =====
-- Go maps as association lists in some iteration order, over keys with a Boolean equality.
use Prim.Native.Nat.{ℕ}
use mathlib.Core.Path.{◌≡◌, refl, ◌∙◌}
use mathlib.Core.Logic.{◌↔◌}
use mathlib.Core.Bool.{Bool, true, false, ◌&&◌}
use mathlib.Core.Option.{Option, none, some}
use mathlib.Core.List.{List, [], ◌∷◌}
use native.Mathlib.Omega.{arith}
use swifty_go.Prelude.Tests.{◌==◌, ==_iff, if◌then◌else◌}

-- What a Go map asks of its keys: a test of equality.
pub record Key {ℓ} (A : Type ℓ) : Type ℓ where
  pub same : A → A → Bool
  pub same_iff : (x y : A) → (same x y ≡ true) ↔ (x ≡ y)

abbrev id_beq : ℕ → ℕ → Bool
id_beq a b = a == b

instance abbrev pub nat_eq : Key ℕ
nat_eq = record { same = id_beq; same_iff = ==_iff }

-- a []byte, and the string made of it
abbrev pub Bytes : Type 0
Bytes = List ℕ

abbrev pub bytes_beq : Bytes → Bytes → Bool
bytes_beq [] [] = true
bytes_beq (x ∷ xs) (y ∷ ys) = x == y && bytes_beq xs ys
bytes_beq _ _ = false

pub bytes_beq_iff : (a b : Bytes) → (bytes_beq a b ≡ true) ↔ (a ≡ b)
bytes_beq_iff [] [] = ground arith
bytes_beq_iff [] (y ∷ ys) = ground arith
bytes_beq_iff (x ∷ xs) [] = ground arith
bytes_beq_iff (x ∷ xs) (y ∷ ys) = ground (arith, bytes_beq_iff xs ys)

instance abbrev pub bytes_eq : Key Bytes
bytes_eq = record { same = bytes_beq; same_iff = bytes_beq_iff }

module _ {ℓ κ} {K : Type ℓ} {V : Type κ} ⦃e : Key K⦄ where
  unfoldable pub lookup : K → List (K × V) → Option V
  lookup k [] = none
  lookup k ((j, v) ∷ m) = if e.same j k then some v else lookup k m

  -- `m[k] = v`: an existing key keeps its place, a new one takes the last
  unfoldable pub insert : K → V → List (K × V) → List (K × V)
  insert k v [] = (k, v) ∷ []
  insert k v ((j, w) ∷ m) = if e.same j k then (k, v) ∷ m else (j, w) ∷ insert k v m

  -- `delete(m, k)`
  unfoldable pub delete : K → List (K × V) → List (K × V)
  delete k [] = []
  delete k ((j, w) ∷ m) = let rest = delete k m in if e.same j k then rest else (j, w) ∷ rest

  pub lookup-insert :
      (k j : K) (v : V) (m : List (K × V))
      → lookup j (insert k v m) ≡ (if e.same k j then some v else lookup j m)
  unfolding lookup insert
  lookup-insert k j v [] = refl
  lookup-insert k j v ((i, w) ∷ m) =
      ground (arith, e.same_iff k j, e.same_iff i k, e.same_iff i j, lookup-insert k j v m)

  pub lookup-delete :
      (k j : K) (m : List (K × V))
      → lookup j (delete k m) ≡ (if e.same k j then none else lookup j m)
  unfolding lookup delete
  lookup-delete k j [] = ground arith
  lookup-delete k j ((i, w) ∷ m) =
      ground (arith, e.same_iff k j, e.same_iff i k, e.same_iff i j, lookup-delete k j m)

  pub lookup-insert_same :
      (k j : K) (v : V) (m : List (K × V)) → e.same k j ≡ true → lookup j (insert k v m) ≡ some v
  lookup-insert_same k j v m q = lookup-insert k j v m ∙ rw q refl

  pub lookup-insert_other :
      (k j : K) (v : V) (m : List (K × V))
      → e.same k j ≡ false
      → lookup j (insert k v m) ≡ lookup j m
  lookup-insert_other k j v m q = lookup-insert k j v m ∙ rw q refl

  pub lookup-delete_same :
      (k j : K) (m : List (K × V)) → e.same k j ≡ true → lookup j (delete k m) ≡ none
  lookup-delete_same k j m q = lookup-delete k j m ∙ rw q refl

  pub lookup-delete_other :
      (k j : K) (m : List (K × V)) → e.same k j ≡ false → lookup j (delete k m) ≡ lookup j m
  lookup-delete_other k j m q = lookup-delete k j m ∙ rw q refl
