-- ===== src/Cache/Lru/Reverse.antt =====
-- The links of swifty_cache/lru.go read from the other end.
use mathlib.Core.List.{append_assoc}
use swifty_go.Prelude.{ℕ, ◌≡◌, ◌≢◌, ◌<◌, refl, sym, ap, subst, ◌∙◌, List, [], ◌∷◌, ◌++◌, append-nil}
use swifty_go.Cache.Lru.{Side, prev, next, Links, adjust}
use swifty_go.Cache.Lru.Chain.{IsSized, NotIn, Distinct, AllBelow, Chain, Chain-join}
use swifty_go.Cache.Lru.Move.{Apart, Distinct-join, AllBelow-join, NotIn-join, adjust-Chain}

abbrev rev : List ℕ → List ℕ
rev [] = []
rev (x ∷ xs) = rev xs ++ (x ∷ [])

rev-append : (xs ys : List ℕ) → rev (xs ++ ys) ≡ rev ys ++ rev xs
rev-append [] ys = sym (append-nil (rev ys))
rev-append (x ∷ xs) ys =
    ap (λ zs. zs ++ (x ∷ [])) (rev-append xs ys) ∙ append_assoc (rev ys) (rev xs) (x ∷ [])

rev-rev : (xs : List ℕ) → rev (rev xs) ≡ xs
rev-rev [] = refl
rev-rev (x ∷ xs) = rev-append (rev xs) (x ∷ []) ∙ ap (◌∷◌ x) (rev-rev xs)

rev-middle :
    (pre : List ℕ) (x : ℕ) (post : List ℕ) → rev (pre ++ (x ∷ post)) ≡ rev post ++ (x ∷ rev pre)
rev-middle pre x post = rev-append pre (x ∷ post) ∙ append_assoc (rev post) (x ∷ []) (rev pre)

NotIn-rev : (i : ℕ) (xs : List ℕ) → NotIn i xs → NotIn i (rev xs)
NotIn-rev i [] h = tt
NotIn-rev i (x ∷ xs) h = NotIn-join i (rev xs) (x ∷ []) (NotIn-rev i xs h.1) (h.0, tt)

AllBelow-rev : (n : ℕ) (xs : List ℕ) → AllBelow n xs → AllBelow n (rev xs)
AllBelow-rev n [] h = tt
AllBelow-rev n (x ∷ xs) h = AllBelow-join n (rev xs) (x ∷ []) (AllBelow-rev n xs h.1) (h.0, tt)

Apart-single : (x : ℕ) (xs : List ℕ) → NotIn x xs → Apart xs (x ∷ [])
Apart-single x [] h = tt
Apart-single x (y ∷ ys) h = ((λ q. h.0 (sym q), tt), Apart-single x ys h.1)

Distinct-end : (xs : List ℕ) (x : ℕ) → NotIn x xs → Distinct xs → Distinct (xs ++ (x ∷ []))
Distinct-end xs x h d = Distinct-join xs (x ∷ []) d (Apart-single x xs h) (tt, tt)

Distinct-rev : (xs : List ℕ) → Distinct xs → Distinct (rev xs)
Distinct-rev [] d = tt
Distinct-rev (x ∷ xs) d = Distinct-end (rev xs) x (NotIn-rev x xs d.0) (Distinct-rev xs d.1)

-- the element that was in front stands at the end
pub Distinct-back : (xs : List ℕ) (x : ℕ) → Distinct (0 ∷ x ∷ xs) → Distinct (0 ∷ (xs ++ (x ∷ [])))
Distinct-back xs x d = (NotIn-join 0 xs (x ∷ []) d.0.1 (d.0.0, tt), Distinct-end xs x d.1.0 d.1.1)

Chain-rev :
    (l : Links) (t f : Side)
    → t ≢ f
    → (a : ℕ) (xs : List ℕ) (b : ℕ) → Chain l t f a xs b
    → Chain l f t b (rev xs) a
Chain-rev l t f apart a [] b c = (c.1, c.0)
Chain-rev l t f apart a (x ∷ xs) b c =
    Chain-join l f t (λ q. apart (sym q)) b (rev xs) x [] a (Chain-rev l t f apart x xs b c.2)
      (c.1, c.0)

-- adjust with the sides exchanged moves an element to the end
pub adjust-Chain_back :
    (l : Links) (n : ℕ)
    → IsSized l n
    → (pre : List ℕ) (x : ℕ) (post : List ℕ) → 0 < n
    → AllBelow n (pre ++ (x ∷ post))
    → Distinct (0 ∷ (pre ++ (x ∷ post)))
    → Chain l next prev 0 (pre ++ (x ∷ post)) 0
    → Chain (adjust l x next prev) next prev 0 ((pre ++ post) ++ (x ∷ [])) 0
adjust-Chain_back l n z pre x post hn b d c =
    let whole = pre ++ (x ∷ post) in
    let turn = rev-middle pre x post in
    let below = subst (AllBelow n) turn (AllBelow-rev n whole b) in
    let distinct =
      subst (λ xs. Distinct (0 ∷ xs)) turn (NotIn-rev 0 whole d.0, Distinct-rev whole d.1) in
    let chain =
      subst (λ xs. Chain l prev next 0 xs 0) turn (Chain-rev l next prev (λ q. cc) 0 whole 0 c) in
    let moved =
      adjust-Chain l prev next (λ q. cc) n z (rev post) x (rev pre) hn below distinct chain in
    let turned =
      Chain-rev (adjust l x next prev) prev next (λ q. cc) 0 (x ∷ (rev post ++ rev pre)) 0 moved in
    subst (λ xs. Chain (adjust l x next prev) next prev 0 (xs ++ (x ∷ [])) 0)
      (ap rev (sym (rev-append pre post)) ∙ rev-rev (pre ++ post)) turned
