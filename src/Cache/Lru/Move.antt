-- ===== src/Cache/Lru/Move.antt =====
-- What adjust of swifty_cache/lru.go does to the sequence that the links stand for.
use swifty_go.Prelude.{
  ℕ, ◌≡◌, ◌≢◌, ◌<◌, refl, sym, subst, ◌∙◌, List, [], ◌∷◌, ◌++◌, append-nil, ◌==◌, inl, inr,
  Bool-cases, ==_iff,
}
use swifty_go.Cache.Lru.{Side, Links, link, relink, unlink, push, adjust}
use swifty_go.Cache.Lru.Chain.{
  IsSized, NotIn, Distinct, AllBelow, relink-IsSized, link-relink_self, link-relink_ne,
  link-relink_other, Chain, last_of, Chain-relink_to, Chain-relink_from, Chain-last, Chain-split,
  Chain-join,
}

-- no index is in both
abbrev pub Apart : List ℕ → List ℕ → Type 0
Apart [] ys = Unit {0}
Apart (x ∷ xs) ys = NotIn x ys × Apart xs ys

pub NotIn-split : (i : ℕ) (xs ys : List ℕ) → NotIn i (xs ++ ys) → NotIn i xs × NotIn i ys
NotIn-split i [] ys h = (tt, h)
NotIn-split i (x ∷ xs) ys h = let r = NotIn-split i xs ys h.1 in ((h.0, r.0), r.1)

pub NotIn-join : (i : ℕ) (xs ys : List ℕ) → NotIn i xs → NotIn i ys → NotIn i (xs ++ ys)
NotIn-join i [] ys h k = k
NotIn-join i (x ∷ xs) ys h k = (h.0, NotIn-join i xs ys h.1 k)

pub Distinct-split :
    (xs ys : List ℕ) → Distinct (xs ++ ys) → Distinct xs × Apart xs ys × Distinct ys
Distinct-split [] ys d = (tt, tt, d)
Distinct-split (x ∷ xs) ys d =
    let out = NotIn-split x xs ys d.0 in
    let r = Distinct-split xs ys d.1 in ((out.0, r.0), (out.1, r.1), r.2)

pub Distinct-join : (xs ys : List ℕ) → Distinct xs → Apart xs ys → Distinct ys → Distinct (xs ++ ys)
Distinct-join [] ys d a e = e
Distinct-join (x ∷ xs) ys d a e = (NotIn-join x xs ys d.0 a.0, Distinct-join xs ys d.1 a.1 e)

pub Apart-head : (xs : List ℕ) (y : ℕ) (ys : List ℕ) → Apart xs (y ∷ ys) → NotIn y xs × Apart xs ys
Apart-head [] y ys a = (tt, tt)
Apart-head (x ∷ xs) y ys a =
    let r = Apart-head xs y ys a.1 in ((λ e. a.0.0 (sym e), r.0), (a.0.1, r.1))

Apart-last : (a : ℕ) (xs ys : List ℕ) → Apart (a ∷ xs) ys → NotIn (last_of a xs) ys
Apart-last a [] ys p = p.0
Apart-last a (x ∷ xs) ys p = Apart-last x xs ys p.1

pub NotIn-last : (i a : ℕ) (xs : List ℕ) → NotIn i (a ∷ xs) → i ≢ last_of a xs
NotIn-last i a [] h = h.0
NotIn-last i a (x ∷ xs) h = NotIn-last i x xs h.1

last-below : (n a : ℕ) (xs : List ℕ) → a < n → AllBelow n xs → last_of a xs < n
last-below n a [] h b = h
last-below n a (x ∷ xs) h b = last-below n x xs b.0 b.1

pub AllBelow-split :
    (n : ℕ) (xs ys : List ℕ) → AllBelow n (xs ++ ys) → AllBelow n xs × AllBelow n ys
AllBelow-split n [] ys h = (tt, h)
AllBelow-split n (x ∷ xs) ys h = let r = AllBelow-split n xs ys h.1 in ((h.0, r.0), r.1)

module _ (l : Links) (t f : Side) (apart : t ≢ f) (n : ℕ) (z : IsSized l n) where
  -- a chain that is made to end at `r`
  retarget :
      (a : ℕ) (pre : List ℕ) (x r : ℕ)
      → a < n
      → AllBelow n pre
      → r < n
      → Distinct (a ∷ pre)
      → NotIn r pre
      → Chain l t f a pre x
      → Chain (relink (relink l f r (last_of a pre)) t (last_of a pre) r) t f a pre r
  retarget a [] x r ha hp hr d out c = (
    link-relink_self (relink l f r a) t a r n (relink-IsSized l f r a n z) ha,
    link-relink_other (relink l f r a) t f a r r apart ∙ link-relink_self l f r a n z hr,
  )
  retarget a (b ∷ pre) x r ha hp hr d out c =
      let e = last_of b pre in
      (
        link-relink_ne (relink l f r e) t e r a (λ q. NotIn-last a b pre d.0 (sym q))
            ∙ link-relink_other l f t r e a (λ q. apart (sym q))
            ∙ c.0,
        link-relink_other (relink l f r e) t f e r b apart ∙ link-relink_ne l f r e b out.0 ∙ c.1,
        retarget b pre x r hp.0 hp.1 hr d.1 out.1 c.2,
      )

  -- what unlink writes
  unlink-eq :
      (x r e : ℕ)
      → link l t x ≡ r
      → link l f x ≡ e
      → r ≢ x
      → unlink l x f t ≡ relink (relink l f r e) t e r
  unfolding unlink
  unlink-eq x r e hr he ne =
      let fx : link (relink l f r e) f x ≡ e = link-relink_ne l f r e x ne ∙ he in
      let tx : link (relink l f r e) t x ≡ r =
        link-relink_other l f t r e x (λ q. apart (sym q)) ∙ hr in
      rw (hr, he, fx, tx) refl

  pub unlink-Chain :
      (pre : List ℕ) (x : ℕ) (post : List ℕ)
      → 0 < n
      → AllBelow n (pre ++ (x ∷ post))
      → Distinct (0 ∷ (pre ++ (x ∷ post)))
      → Chain l t f 0 (pre ++ (x ∷ post)) 0
      → Chain (unlink l x f t) t f 0 (pre ++ post) 0
  unlink-Chain pre x [] hn b d c =
      let parts = Distinct-split (0 ∷ pre) (x ∷ []) d in
      let cut = Chain-split l t f apart 0 pre x [] 0 c in
      let e = last_of 0 pre in
      let zero_out = Apart-head (0 ∷ pre) x [] parts.1 in
      rw
        (
          append-nil pre,
          unlink-eq x 0 e cut.1.0 (Chain-last l t f apart 0 pre x cut.0)
              (λ q. zero_out.0.0 (sym q)),
        )
        (retarget 0 pre x 0 hn (AllBelow-split n pre (x ∷ []) b).0 hn parts.0 parts.0.0 cut.0)
  unlink-Chain pre x (r ∷ post) hn b d c =
      let parts = Distinct-split (0 ∷ pre) (x ∷ r ∷ post) d in
      let below = AllBelow-split n pre (x ∷ r ∷ post) b in
      let cut = Chain-split l t f apart 0 pre x (r ∷ post) 0 c in
      let e = last_of 0 pre in
      let out = Apart-head (0 ∷ pre) r post (Apart-head (0 ∷ pre) x (r ∷ post) parts.1).1 in
      let front = retarget 0 pre x r hn below.0 below.1.1.0 parts.0 out.0.1 cut.0 in
      let kept = Chain-relink_from l t f apart r post 0 r e parts.2.1.0 out.0.0 cut.1.2 in
      let back =
        Chain-relink_to (relink l f r e) t f apart r post 0 e r
          (Apart-last 0 pre (x ∷ r ∷ post) parts.1).1 kept in
      rw (unlink-eq x r e cut.1.0 (Chain-last l t f apart 0 pre x cut.0) (λ q. parts.2.0.0 (sym q)))
        (Chain-join (relink (relink l f r e) t e r) t f apart 0 pre r post 0 front back)

  -- what push writes
  pushed : ℕ → ℕ → Links
  pushed x h = relink (relink (relink (relink l f x 0) t x h) f h x) t 0 x

  push-eq : (x h : ℕ) → x ≢ 0 → h ≢ x → link l t 0 ≡ h → push l x f t ≡ pushed x h
  unfolding push pushed
  push-eq x h x0 hx e =
      let first : link (relink l f x 0) t 0 ≡ h =
        link-relink_other l f t x 0 0 (λ q. apart (sym q)) ∙ e in
      let second : link (relink (relink l f x 0) t x h) t 0 ≡ h =
        link-relink_ne (relink l f x 0) t x h 0 x0 ∙ first in
      rw (first, second) refl

  -- the four links that push sets
  pushed-reads :
      (x h : ℕ)
      → 0 < n
      → x < n
      → h < n
      → x ≢ 0
      → h ≢ x
      → (link (pushed x h) t 0 ≡ x)
        × (link (pushed x h) f x ≡ 0)
        × (link (pushed x h) t x ≡ h)
        × (link (pushed x h) f h ≡ x)
  unfolding pushed
  pushed-reads x h hn hx hh x0 ne =
      let one = relink l f x 0 in
      let two = relink one t x h in
      let three = relink two f h x in
      let z1 = relink-IsSized l f x 0 n z in
      let z2 = relink-IsSized one t x h n z1 in
      let z3 = relink-IsSized two f h x n z2 in
      (
        link-relink_self three t 0 x n z3 hn,
        link-relink_other three t f 0 x x apart
            ∙ link-relink_ne two f h x x ne
            ∙ link-relink_other one t f x h x apart
            ∙ link-relink_self l f x 0 n z hx,
        link-relink_ne three t 0 x x (λ q. x0 (sym q))
            ∙ link-relink_other two f t h x x (λ q. apart (sym q))
            ∙ link-relink_self one t x h n z1 hx,
        link-relink_other three t f 0 x h apart ∙ link-relink_self two f h x n z2 hh,
      )

  pushed-Chain :
      (x h : ℕ) (ys : List ℕ)
      → Distinct (0 ∷ x ∷ h ∷ ys)
      → Chain l t f h ys 0
      → Chain (pushed x h) t f h ys 0
  unfolding pushed
  pushed-Chain x h ys d c =
      let one = relink l f x 0 in
      let two = relink one t x h in
      let three = relink two f h x in
      Chain-relink_to three t f apart h ys 0 0 x d.0.1 (
        Chain-relink_from two t f apart h ys 0 h x d.1.1.0 (λ q. d.0.1.0 (sym q))
          (Chain-relink_to one t f apart h ys 0 x h d.1.0
            (Chain-relink_from l t f apart h ys 0 x 0 d.1.0.1 (λ q. d.0.0 (sym q)) c)))

  pub push-Chain :
      (x : ℕ) (xs : List ℕ)
      → 0 < n
      → x < n
      → AllBelow n xs
      → Distinct (0 ∷ x ∷ xs)
      → Chain l t f 0 xs 0
      → Chain (push l x f t) t f 0 (x ∷ xs) 0
  push-Chain x [] hn hx b d c =
      let x0 : x ≢ 0 = λ q. d.0.0 (sym q) in
      let r = pushed-reads x 0 hn hx hn x0 d.0.0 in
      subst (λ k. Chain k t f 0 (x ∷ []) 0) (sym (push-eq x 0 x0 d.0.0 c.0)) (r.0, r.1, (r.2, r.3))
  push-Chain x (h ∷ ys) hn hx b d c =
      let x0 : x ≢ 0 = λ q. d.0.0 (sym q) in
      let ne : h ≢ x = λ q. d.1.0.0 (sym q) in
      let r = pushed-reads x h hn hx b.0 x0 ne in
      subst (λ k. Chain k t f 0 (x ∷ h ∷ ys) 0) (sym (push-eq x h x0 ne c.0))
        (r.0, r.1, (r.2, r.3, pushed-Chain x h ys d c.2))

  unlink-IsSized : (x : ℕ) → IsSized (unlink l x f t) n
  unfolding unlink
  unlink-IsSized x =
      relink-IsSized (relink l f (link l t x) (link l f x)) t _ _ n
        (relink-IsSized l f (link l t x) (link l f x) n z)

pub push-IsSized : (l : Links) (x : ℕ) (f t : Side) (n : ℕ) → IsSized l n → IsSized (push l x f t) n
unfolding push
push-IsSized l x f t n z =
    relink-IsSized _ t _ _ n
      (relink-IsSized _ f _ _ n (relink-IsSized _ t _ _ n (relink-IsSized _ f _ _ n z)))

adjust-stays : (l : Links) (x : ℕ) (f t : Side) → link l f x ≡ 0 → adjust l x f t ≡ l
unfolding adjust
adjust-stays l x f t h = rw ((==_iff (link l f x) 0).1 h) refl

adjust-moves :
    (l : Links) (x : ℕ) (f t : Side) → link l f x ≢ 0 → adjust l x f t ≡ push (unlink l x f t) x f t
unfolding adjust
adjust-moves l x f t h = elim (Bool-cases (link l f x == 0)) [
  | inl stays ↦ absurd (h ((==_iff (link l f x) 0).0 stays))
  | inr moves ↦ rw moves refl
]

last-nonzero : (h : ℕ) (pre : List ℕ) → NotIn 0 (h ∷ pre) → last_of h pre ≢ 0
last-nonzero h pre d q = NotIn-last 0 h pre d (sym q)

pub AllBelow-join : (n : ℕ) (xs ys : List ℕ) → AllBelow n xs → AllBelow n ys → AllBelow n (xs ++ ys)
AllBelow-join n [] ys h k = k
AllBelow-join n (x ∷ xs) ys h k = (h.0, AllBelow-join n xs ys h.1 k)

-- the sequence with one element in front
pub Distinct-front :
    (pre : List ℕ) (x : ℕ) (post : List ℕ)
    → Distinct (0 ∷ (pre ++ (x ∷ post)))
    → Distinct (0 ∷ x ∷ (pre ++ post))
Distinct-front pre x post d =
    let parts = Distinct-split (0 ∷ pre) (x ∷ post) d in
    let out = Apart-head (0 ∷ pre) x post parts.1 in
    (
      (λ q. out.0.0 (sym q), NotIn-join 0 pre post parts.0.0 out.1.0),
      (NotIn-join x pre post out.0.1 parts.2.0, Distinct-join pre post parts.0.1 out.1.1 parts.2.1),
    )

module _ (l : Links) (t f : Side) (apart : t ≢ f) (n : ℕ) (z : IsSized l n) where
  pub adjust-IsSized : (x : ℕ) → IsSized (adjust l x f t) n
  unfolding adjust
  adjust-IsSized x = elim (Bool-cases (link l f x == 0)) [
    | inl stays ↦ rw stays z
    | inr moves ↦
        rw moves (push-IsSized (unlink l x f t) x f t n (unlink-IsSized l t f apart n z x))
  ]

  -- An element is moved to the end that side `t` reads first, and the rest keeps its order.
  pub adjust-Chain :
      (pre : List ℕ) (x : ℕ) (post : List ℕ)
      → 0 < n
      → AllBelow n (pre ++ (x ∷ post))
      → Distinct (0 ∷ (pre ++ (x ∷ post)))
      → Chain l t f 0 (pre ++ (x ∷ post)) 0
      → Chain (adjust l x f t) t f 0 (x ∷ (pre ++ post)) 0
  adjust-Chain [] x post hn b d c =
      subst (λ k. Chain k t f 0 (x ∷ post) 0) (sym (adjust-stays l x f t c.1)) c
  adjust-Chain (h ∷ pre) x post hn b d c =
      let parts = Distinct-split (0 ∷ h ∷ pre) (x ∷ post) d in
      let below = AllBelow-split n (h ∷ pre) (x ∷ post) b in
      let cut = Chain-split l t f apart 0 (h ∷ pre) x post 0 c in
      let e : link l f x ≡ last_of h pre = Chain-last l t f apart 0 (h ∷ pre) x cut.0 in
      let far : link l f x ≢ 0 = λ q. last-nonzero h pre parts.0.0 (sym e ∙ q) in
      subst (λ k. Chain k t f 0 (x ∷ ((h ∷ pre) ++ post)) 0) (sym (adjust-moves l x f t far))
        (push-Chain (unlink l x f t) t f apart n (unlink-IsSized l t f apart n z x) x
          ((h ∷ pre) ++ post) hn below.1.0 (AllBelow-join n (h ∷ pre) post below.0 below.1.1)
          (Distinct-front (h ∷ pre) x post d)
          (unlink-Chain l t f apart n z (h ∷ pre) x post hn b d c))
