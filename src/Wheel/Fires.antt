-- ===== src/Wheel/Fires.antt =====
-- When a task of apps/time_wheel/time_wheel.go runs.
use native.Mathlib.Nat.{mod-lt, mod-eq_of_lt, mod-add-mod, add-mod_right, mod-eq-sub-mod}
use swifty_go.Prelude.{
  ℕ, suc, zero, ◌+◌, ◌-◌, ◌*◌, ◌%◌, ◌≡◌, ◌≢◌, ◌≤◌, ◌<◌, ◌⊎◌, inl, inr, refl, sym, ap, subst, ◌∙◌,
  arith, Bool-cases, if◌then◌else◌, List, [], ◌∷◌, length, length-set, get_or, get_or-set_self,
  get_or-set_ne, set, ◌==◌, ==_iff, bytes_eq,
}
use swifty_go.Wheel.{TaskElement, TimeWheel, execute, circular_incr, tick}

-- the cycles of the elements with a number
abbrev pub cycles_of : ℕ → List TaskElement → List ℕ
cycles_of n [] = []
cycles_of n (e ∷ es) = let rest = cycles_of n es in if e.ident == n then e.cycle ∷ rest else rest

-- how often an element with a number is among them
abbrev pub runs_of : ℕ → List TaskElement → ℕ
runs_of n [] = 0
runs_of n (e ∷ es) = let rest = runs_of n es in if e.ident == n then suc rest else rest

execute-absent :
    (n : ℕ) (es : List TaskElement)
    → cycles_of n es ≡ []
    → (cycles_of n (execute es).0 ≡ []) × (runs_of n (execute es).1 ≡ 0)
unfolding execute
execute-absent n [] h = (refl, refl)
execute-absent n (e ∷ es) h = ground (arith, execute-absent n es)

execute-waits :
    (n c : ℕ) (es : List TaskElement)
    → cycles_of n es ≡ suc c ∷ []
    → (cycles_of n (execute es).0 ≡ c ∷ []) × (runs_of n (execute es).1 ≡ 0)
unfolding execute
execute-waits n c [] h = absurd (cc h)
execute-waits n c (e ∷ es) h = ground (arith, execute-waits n c es, execute-absent n es)

execute-runs :
    (n : ℕ) (es : List TaskElement)
    → cycles_of n es ≡ 0 ∷ []
    → (cycles_of n (execute es).0 ≡ []) × (runs_of n (execute es).1 ≡ 1)
unfolding execute
execute-runs n [] h = absurd (cc h)
execute-runs n (e ∷ es) h = ground (arith, execute-runs n es, execute-absent n es)

abbrev pub slot_at : TimeWheel → ℕ → List TaskElement
slot_at t q = get_or t.slots q []

-- the element with a number is in one slot, with a cycle
abbrev pub IsPlaced : ℕ → ℕ → ℕ → TimeWheel → Type 0
IsPlaced n p c t =
    (cycles_of n (slot_at t p) ≡ c ∷ []) × ((q : ℕ) → q ≢ p → cycles_of n (slot_at t q) ≡ [])

-- it is nowhere
abbrev pub IsGone : ℕ → TimeWheel → Type 0
IsGone n t = (q : ℕ) → cycles_of n (slot_at t q) ≡ []

abbrev pub IsTurning : TimeWheel → Type 0
IsTurning t = t.cur_slot < length t.slots

slot-tick :
    (t : TimeWheel) (q : ℕ)
    → IsTurning t
    → slot_at (tick t).0 q
      ≡ (if t.cur_slot == q then (execute (slot_at t t.cur_slot)).0 else slot_at t q)
unfolding tick
slot-tick t q h = elim (Bool-cases (t.cur_slot == q)) [
  | inl e ↦
      let same : t.cur_slot ≡ q = (==_iff t.cur_slot q).0 e in
      rw e (
        subst
          (λ k.
            get_or (set t.slots t.cur_slot (execute (slot_at t t.cur_slot)).0) k []
            ≡ (execute (slot_at t t.cur_slot)).0)
          same (get_or-set_self t.slots t.cur_slot (execute (slot_at t t.cur_slot)).0 [] h))
  | inr e ↦ rw e (get_or-set_ne t.slots t.cur_slot q _ [] (λ w. cc ((==_iff t.cur_slot q).1 w)))
]

length-tick : (t : TimeWheel) → length (tick t).0.slots ≡ length t.slots
unfolding tick circular_incr
length-tick t = length-set t.slots t.cur_slot (execute (slot_at t t.cur_slot)).0

cur_slot-tick : (t : TimeWheel) → (tick t).0.cur_slot ≡ (t.cur_slot + 1) % length t.slots
unfolding tick circular_incr
cur_slot-tick t =
    ap (λ (k : ℕ). (t.cur_slot + 1) % k)
      (length-set t.slots t.cur_slot (execute (slot_at t t.cur_slot)).0)

IsTurning-tick : (t : TimeWheel) → IsTurning t → IsTurning (tick t).0
IsTurning-tick t h = omega (
  arith,
  cur_slot-tick t,
  length-tick t,
  mod-lt (t.cur_slot + 1) {m = length t.slots} (omega arith),
)

ran-tick :
    (n : ℕ) (t : TimeWheel) → runs_of n (tick t).1 ≡ runs_of n (execute (slot_at t t.cur_slot)).1
unfolding tick
ran-tick n t = refl

here-tick :
    (t : TimeWheel)
    → IsTurning t
    → slot_at (tick t).0 t.cur_slot ≡ (execute (slot_at t t.cur_slot)).0
here-tick t h = slot-tick t t.cur_slot h ∙ (rw ((==_iff t.cur_slot t.cur_slot).1 refl) refl)

other-tick :
    (t : TimeWheel) (q : ℕ) → IsTurning t → q ≢ t.cur_slot → slot_at (tick t).0 q ≡ slot_at t q
other-tick t q h ne = elim (Bool-cases (t.cur_slot == q)) [
  | inl e ↦ absurd (ne (sym ((==_iff t.cur_slot q).0 e)))
  | inr e ↦ slot-tick t q h ∙ (rw e refl)
]

pub nat-cases : (i j : ℕ) → (i ≡ j) ⊎ (i ≢ j)
nat-cases i j = elim (Bool-cases (i == j)) [
  | inl same ↦ inl ((==_iff i j).0 same)
  | inr other ↦ inr (λ e. cc ((==_iff i j).1 e))
]

module _ (n : ℕ) (t : TimeWheel) (turning : IsTurning t) where
  absent-tick : (q : ℕ) → cycles_of n (slot_at t q) ≡ [] → cycles_of n (slot_at (tick t).0 q) ≡ []
  absent-tick q h = elim (nat-cases q t.cur_slot) [
    | inl e ↦
        ap (λ (k : ℕ). cycles_of n (slot_at (tick t).0 k)) e
        ∙ ap (cycles_of n) (here-tick t turning)
        ∙ (execute-absent n (slot_at t t.cur_slot)
            (ap (λ (k : ℕ). cycles_of n (slot_at t k)) (sym e) ∙ h)).0
    | inr e ↦ ap (cycles_of n) (other-tick t q turning e) ∙ h
  ]

  IsGone-tick : IsGone n t → IsGone n (tick t).0 × (runs_of n (tick t).1 ≡ 0)
  IsGone-tick g = (
    λ q. absent-tick q (g q),
    ran-tick n t ∙ (execute-absent n (slot_at t t.cur_slot) (g t.cur_slot)).1,
  )

  -- the slot is not the current one
  passed-tick :
      (p c : ℕ)
      → IsPlaced n p c t
      → p ≢ t.cur_slot
      → IsPlaced n p c (tick t).0 × (runs_of n (tick t).1 ≡ 0)
  passed-tick p c h ne = (
    (ap (cycles_of n) (other-tick t p turning ne) ∙ h.0, λ q w. absent-tick q (h.1 q w)),
    ran-tick n t ∙ (execute-absent n (slot_at t t.cur_slot) (h.1 t.cur_slot (λ e. ne (sym e)))).1,
  )

  -- the slot is the current one, and a round is left
  round-tick :
      (c : ℕ)
      → IsPlaced n t.cur_slot (suc c) t
      → IsPlaced n t.cur_slot c (tick t).0 × (runs_of n (tick t).1 ≡ 0)
  round-tick c h =
      let step = execute-waits n c (slot_at t t.cur_slot) h.0 in
      (
        (ap (cycles_of n) (here-tick t turning) ∙ step.0, λ q w. absent-tick q (h.1 q w)),
        ran-tick n t ∙ step.1,
      )

  -- none is left
  fire-tick : IsPlaced n t.cur_slot 0 t → IsGone n (tick t).0 × (runs_of n (tick t).1 ≡ 1)
  fire-tick h =
      let step = execute-runs n (slot_at t t.cur_slot) h.0 in
      (
        λ q. elim (nat-cases q t.cur_slot) [
          | inl e ↦
              ap (λ (k : ℕ). cycles_of n (slot_at (tick t).0 k)) e
              ∙ ap (cycles_of n) (here-tick t turning)
              ∙ step.0
          | inr e ↦ absent-tick q (h.1 q e)
        ],
        ran-tick n t ∙ step.1,
      )

-- so many ticks
unfoldable pub ticks : TimeWheel → ℕ → TimeWheel
ticks t zero = t
ticks t (suc j) = ticks (tick t).0 j

IsGone-ticks :
    (n : ℕ) (t : TimeWheel) (j : ℕ) → IsTurning t → IsGone n t → runs_of n (tick (ticks t j)).1 ≡ 0
unfolding ticks
IsGone-ticks n t zero turning g = (IsGone-tick n t turning g).1
IsGone-ticks n t (suc j) turning g =
    IsGone-ticks n (tick t).0 j (IsTurning-tick t turning) (IsGone-tick n t turning g).0

-- the slot after `s` more slots, seen from the next one
next-slot : (cur s size : ℕ) → 0 < size → ((cur + 1) % size + s) % size ≡ (cur + suc s) % size
next-slot cur s size h = mod-add-mod (cur + 1) size s ∙ ap (λ (k : ℕ). k % size) (omega arith)

whole-turn : (cur size : ℕ) → cur < size → (cur + suc (size - 1)) % size ≡ cur
whole-turn cur size h =
    let round : cur + suc (size - 1) ≡ cur + size = omega arith in
    ap (λ (k : ℕ). k % size) round ∙ add-mod_right cur size ∙ mod-eq_of_lt h

lt-or-le : (a b : ℕ) → (a < b) ⊎ (b ≤ a)
lt-or-le a b = ground arith

ahead-ne : (cur s size : ℕ) → cur < size → suc s < size → (cur + suc s) % size ≢ cur
ahead-ne cur s size h k e = elim (lt-or-le (cur + suc s) size) [
  | inl p ↦ absurd (omega (arith, mod-eq_of_lt p))
  | inr p ↦ absurd (
      omega (
        arith,
        mod-eq-sub-mod {n = cur + suc s} {m = size} p,
        mod-eq_of_lt {n = cur + suc s - size} {m = size} (omega arith),
      ))
]

-- when an element runs that is `s` slots ahead and has `c` rounds left
abbrev pub RunsAt : ℕ → TimeWheel → ℕ → ℕ → Type 0
RunsAt n t at j =
    (j ≡ at → runs_of n (tick (ticks t j)).1 ≡ 1) × (j ≢ at → runs_of n (tick (ticks t j)).1 ≡ 0)

pub placed-RunsAt :
    (n : ℕ) (t : TimeWheel) (size s c j : ℕ)
    → length t.slots ≡ size
    → t.cur_slot < size
    → s < size
    → IsPlaced n ((t.cur_slot + s) % size) c t
    → RunsAt n t (s + c * size) j
unfolding ticks
placed-RunsAt n t size zero zero zero z turning less h =
    let here : (t.cur_slot + 0) % size ≡ t.cur_slot =
      ap (λ (k : ℕ). k % size) (omega arith) ∙ mod-eq_of_lt turning in
    let run = fire-tick n t (omega arith) (subst (λ p. IsPlaced n p 0 t) here h) in
    (λ e. run.1, λ e. absurd (e (omega arith)))
placed-RunsAt n t size zero zero (suc j) z turning less h =
    let here : (t.cur_slot + 0) % size ≡ t.cur_slot =
      ap (λ (k : ℕ). k % size) (omega arith) ∙ mod-eq_of_lt turning in
    let run = fire-tick n t (omega arith) (subst (λ p. IsPlaced n p 0 t) here h) in
    (
      λ e. absurd (omega arith),
      λ e. IsGone-ticks n (tick t).0 j (IsTurning-tick t (omega arith)) run.0,
    )
placed-RunsAt n t size zero (suc c) zero z turning less h =
    let here : (t.cur_slot + 0) % size ≡ t.cur_slot =
      ap (λ (k : ℕ). k % size) (omega arith) ∙ mod-eq_of_lt turning in
    let run = round-tick n t (omega arith) c (subst (λ p. IsPlaced n p (suc c) t) here h) in
    (λ e. absurd (grind arith), λ e. run.1)
placed-RunsAt n t size zero (suc c) (suc j) z turning less h =
    let here : (t.cur_slot + 0) % size ≡ t.cur_slot =
      ap (λ (k : ℕ). k % size) (omega arith) ∙ mod-eq_of_lt turning in
    let run = round-tick n t (omega arith) c (subst (λ p. IsPlaced n p (suc c) t) here h) in
    let size' = length-tick t ∙ z in
    let cur : (tick t).0.cur_slot ≡ (t.cur_slot + 1) % size =
      cur_slot-tick t ∙ ap (λ (k : ℕ). (t.cur_slot + 1) % k) z in
    let at : t.cur_slot ≡ ((tick t).0.cur_slot + (size - 1)) % size =
      sym (whole-turn t.cur_slot size turning)
      ∙ sym (next-slot t.cur_slot (size - 1) size (omega arith))
      ∙ ap (λ (k : ℕ). (k + (size - 1)) % size) (sym cur) in
    let rest =
      placed-RunsAt n (tick t).0 size (size - 1) c j size'
        (omega (arith, IsTurning-tick t (omega arith), size')) (omega arith)
        (subst (λ p. IsPlaced n p c (tick t).0) at run.0) in
    (λ e. rest.0 (omega arith), λ e. rest.1 (λ q. e (omega arith)))
placed-RunsAt n t size (suc s) c zero z turning less h =
    let run = passed-tick n t (omega arith) _ c h (ahead-ne t.cur_slot s size turning less) in
    (λ e. absurd (omega arith), λ e. run.1)
placed-RunsAt n t size (suc s) c (suc j) z turning less h =
    let run = passed-tick n t (omega arith) _ c h (ahead-ne t.cur_slot s size turning less) in
    let size' = length-tick t ∙ z in
    let cur : (tick t).0.cur_slot ≡ (t.cur_slot + 1) % size =
      cur_slot-tick t ∙ ap (λ (k : ℕ). (t.cur_slot + 1) % k) z in
    let at : (t.cur_slot + suc s) % size ≡ ((tick t).0.cur_slot + s) % size =
      sym (next-slot t.cur_slot s size (omega arith)) ∙ ap (λ (k : ℕ). (k + s) % size) (sym cur) in
    let rest =
      placed-RunsAt n (tick t).0 size s c j size'
        (omega (arith, IsTurning-tick t (omega arith), size')) (omega arith)
        (subst (λ p. IsPlaced n p c (tick t).0) at run.0) in
    (λ e. rest.0 (omega arith), λ e. rest.1 (λ q. e (omega arith)))
