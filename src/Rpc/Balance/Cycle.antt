-- ===== src/Rpc/Balance/Cycle.antt =====
-- The order in which the round robin of swifty_rpc/internal/load_balance/round_robin.go selects.
use native.Mathlib.Nat.{mod-lt, mod-eq_of_lt, mod_self, suc-mod, mod-add-mod}
use swifty_go.Prelude.{
  ℕ, suc, zero, ◌+◌, ◌-◌, ◌%◌, ◌≡◌, ◌≤◌, ◌<◌, refl, sym, ap, ◌∙◌, arith, List, [], ◌∷◌, ◌++◌,
  length, get_or, take, drop, take_whole, length-drop, word64, add64, sub64, add64_exact,
  sub64_exact,
}
use swifty_go.Rpc.Balance.{Instance, no_instance, RoundRobin, select, selections}

-- one selection, while the counter does not overflow
select-next :
    (i : ℕ) (list : List Instance)
    → 0 < length list
    → suc i < word64
    → select (record { idx = i }) list
      ≡ (record { idx = suc i }, get_or list (i % length list) no_instance)
unfolding select
select-next i [] h k = absurd (omega arith)
select-next i (x ∷ xs) h k =
    let next : add64 i 1 ≡ suc i = add64_exact i 1 (omega arith) ∙ omega arith in
    let back : sub64 (suc i) 1 ≡ i = sub64_exact (suc i) 1 (omega arith) k ∙ omega arith in
    ap (λ (j : ℕ). (record { idx = j }, get_or (x ∷ xs) (sub64 j 1 % length (x ∷ xs)) no_instance))
      next
    ∙ ap (λ (j : ℕ). (record { idx = suc i }, get_or (x ∷ xs) (j % length (x ∷ xs)) no_instance))
        back

selections-zero : (r : RoundRobin) (list : List Instance) → selections r list zero ≡ []
unfolding selections
selections-zero r list = refl

take-drop-suc :
    {A : Type 0} (n i : ℕ) (xs : List A) (d : A)
    → i < length xs
    → take (suc n) (drop i xs) ≡ get_or xs i d ∷ take n (drop (suc i) xs)
take-drop-suc n i [] d h = elim h [ ]
take-drop-suc n zero (x ∷ xs) d h = refl
take-drop-suc n (suc i) (x ∷ xs) d h = take-drop-suc n i xs d (omega arith)

-- the remainder of the next counter, before a round is over and when it is
suc-mod_within : (i n : ℕ) → suc (i % n) < n → suc i % n ≡ suc (i % n)
suc-mod_within i n h = suc-mod i n ∙ mod-eq_of_lt h

round-mod : (i n : ℕ) → 0 < n → (i + (n - i % n)) % n ≡ 0
round-mod i n h =
    let below = mod-lt i h in
    sym (mod-add-mod i n (n - i % n)) ∙ ap (λ k. k % n) (omega arith) ∙ mod_self n

selections-suc :
    (n i : ℕ) (list : List Instance)
    → 0 < length list
    → suc i < word64
    → selections (record { idx = i }) list (suc n)
      ≡ get_or list (i % length list) no_instance ∷ selections (record { idx = suc i }) list n
unfolding selections
selections-suc n i list h b =
    ap (λ (s : RoundRobin × Instance). s.1 ∷ selections s.0 list n) (select-next i list h b)

selections-within :
    (k i : ℕ) (list : List Instance)
    → 0 < length list
    → i + k < word64
    → i % length list + k ≤ length list
    → selections (record { idx = i }) list k ≡ take k (drop (i % length list) list)
selections-within zero i list h b w = selections-zero (record { idx = i }) list
selections-within (suc zero) i list h b w =
    selections-suc 0 i list h (omega arith)
    ∙ ap (◌∷◌ (get_or list (i % length list) no_instance))
        (selections-zero (record { idx = suc i }) list)
    ∙ sym (take-drop-suc 0 (i % length list) list no_instance (omega arith))
selections-within (suc (suc k)) i list h b w =
    let next = suc-mod_within i (length list) (omega arith) in
    let rest = selections-within (suc k) (suc i) list h (omega arith) (omega arith) in
    selections-suc (suc k) i list h (omega arith)
    ∙ ap (◌∷◌ (get_or list (i % length list) no_instance))
        (rest ∙ ap (λ j. take (suc k) (drop j list)) next)
    ∙ sym (take-drop-suc (suc k) (i % length list) list no_instance (omega arith))

selections-add :
    (a b i j : ℕ) (list : List Instance)
    → 0 < length list
    → i + a < word64
    → j ≡ i + a
    → selections (record { idx = i }) list (a + b)
      ≡ selections (record { idx = i }) list a ++ selections (record { idx = j }) list b
selections-add zero b i j list h w e =
    let whole : zero + b ≡ b = omega arith in
    let same : i ≡ j = omega arith in
    ap (selections (record { idx = i }) list) whole
    ∙ ap (λ k. selections (record { idx = k }) list b) same
    ∙ ap (λ s. s ++ selections (record { idx = j }) list b)
        (sym (selections-zero (record { idx = i }) list))
selections-add (suc a) b i j list h w e =
    let whole : suc a + b ≡ suc (a + b) = omega arith in
    ap (selections (record { idx = i }) list) whole
    ∙ selections-suc (a + b) i list h (omega arith)
    ∙ ap (◌∷◌ (get_or list (i % length list) no_instance))
        (selections-add a b (suc i) j list h (omega arith) (omega arith))
    ∙ ap (λ s. s ++ selections (record { idx = j }) list b)
        (sym (selections-suc a i list h (omega arith)))

-- As many selections as there are instances go once around the list, from the counter's position:
-- every instance is selected once for each time it is listed. The list is not empty, and the counter
-- does not overflow on the way.
pub selections-rotates :
    (r : RoundRobin) (list : List Instance)
    → 0 < length list
    → r.idx + length list < word64
    → selections r list (length list)
      ≡ drop (r.idx % length list) list ++ take (r.idx % length list) list
selections-rotates r list h w =
    let n = length list in
    let i = r.idx % length list in
    let below = mod-lt r.idx h in
    let first = selections-within (n - i) r.idx list h (omega arith) (omega arith) in
    let second =
      selections-within i (r.idx + (n - i)) list h (omega arith)
        (omega (arith, round-mod r.idx n h)) in
    let split : n ≡ (n - i) + i = omega arith in
    let start = ap (λ k. take i (drop k list)) (round-mod r.idx n h) in
    ap (selections r list) split
    ∙ selections-add (n - i) i r.idx (r.idx + (n - i)) list h (omega arith) refl
    ∙ ap (λ s. s ++ selections (record { idx = r.idx + (n - i) }) list i)
        (first ∙ take_whole (drop i list) (n - i) (omega (arith, length-drop i list)))
    ∙ ap (λ s. drop i list ++ s) (second ∙ start)
