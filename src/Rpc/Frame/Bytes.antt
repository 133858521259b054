-- ===== src/Rpc/Frame/Bytes.antt =====
-- The numbers and the buffers of a frame (encoding/binary and copy in
-- swifty_rpc/internal/protocol/message.go).
use swifty_go.Prelude.{
  ℕ, suc, zero, ◌+◌, ◌-◌, ◌≡◌, ◌≤◌, ◌<◌, refl, ap, ◌∙◌, arith, List, [], ◌∷◌, ◌++◌, length, take,
  drop, replicate, length-append, word32,
}
use swifty_go.Rpc.Frame.{ok, put32, uint32, overwrite, slice}

pub uint32-put32 : (n : ℕ) (rest : List ℕ) → n < word32 → uint32 (put32 n ++ rest) ≡ n
uint32-put32 n rest h = omega arith

-- a write into zeros that have room for it
pub overwrite-replicate :
    (p s : List ℕ) (n k off : ℕ)
    → off ≡ length p
    → n ≡ length s + k
    → overwrite (p ++ replicate n 0) off s ≡ (p ++ s) ++ replicate k 0
overwrite-replicate [] [] zero k zero o h =
    let none_left : 0 ≡ k = omega arith in ap (λ (j : ℕ). replicate j 0) none_left
overwrite-replicate [] [] (suc n) k zero o h =
    let all_left : suc n ≡ k = omega arith in ap (λ (j : ℕ). replicate j 0) all_left
overwrite-replicate [] s n k (suc off) o h = absurd (omega arith)
overwrite-replicate [] (x ∷ s) zero k zero o h = absurd (omega arith)
overwrite-replicate [] (x ∷ s) (suc n) k zero o h =
    ap (◌∷◌ x) (overwrite-replicate [] s n k zero refl (omega arith))
overwrite-replicate (y ∷ p) s n k zero o h = absurd (omega arith)
overwrite-replicate (y ∷ p) s n k (suc off) o h =
    ap (◌∷◌ y) (overwrite-replicate p s n k off (omega arith) (omega arith))

pub drop-append : {A : Type 0} (p q : List A) (n : ℕ) → n ≡ length p → drop n (p ++ q) ≡ q
drop-append [] q zero h = refl
drop-append [] q (suc n) h = absurd (omega arith)
drop-append (x ∷ p) q zero h = absurd (omega arith)
drop-append (x ∷ p) q (suc n) h = drop-append p q n (omega arith)

pub take-append : {A : Type 0} (p q : List A) (n : ℕ) → n ≡ length p → take n (p ++ q) ≡ p
take-append [] q zero h = refl
take-append [] q (suc n) h = absurd (omega arith)
take-append (x ∷ p) q zero h = absurd (omega arith)
take-append (x ∷ p) q (suc n) h = ap (◌∷◌ x) (take-append p q n (omega arith))

slice-take :
    (d : List ℕ) (lo hi : ℕ)
    → lo ≤ hi
    → hi ≤ length d
    → slice d lo hi ≡ ok (take (hi - lo) (drop lo d))
slice-take d lo hi h k = ground arith

-- the middle one of three parts
pub slice-middle :
    (p m q : List ℕ) (lo hi : ℕ)
    → lo ≡ length p
    → hi ≡ length p + length m
    → slice (p ++ (m ++ q)) lo hi ≡ ok m
slice-middle p m q lo hi l h =
    slice-take (p ++ (m ++ q)) lo hi (omega arith)
      (omega (arith, length-append p (m ++ q), length-append m q))
    ∙ ap (λ d. ok (take (hi - lo) d)) (drop-append p (m ++ q) lo l)
    ∙ ap ok (take-append m q (hi - lo) (omega arith))
