-- ===== src/Cache/Store/Rounds.antt =====
-- The rounds of the eviction loop of SetWithExpiration in swifty_cache/lru.go.
use swifty_go.Prelude.{
  some-inj, ℕ, suc, zero, ◌≡◌, ◌⊎◌, inl, inr, refl, sym, ap, subst, ◌∙◌, true, false, Bool-cases,
  none, some, Option-cases, List, [], ◌∷◌, ◌++◌, add64, Bytes, bytes_eq,
}
use swifty_go.Cache.Lru.{Slot, evict_oldest}
use swifty_go.Cache.Store.{Bucket, Event, lt_int64, evict_from_bucket, evict_loop}
use swifty_go.Cache.Store.Absent.{Missing, Holds, evict_oldest-Missing, evict_oldest-Holds}

-- the event is among the calls of onEvicted
abbrev pub Reported : Event → List Event → Type 0
Reported e [] = ⊥
Reported e (x ∷ xs) = (e ≡ x) ⊎ Reported e xs

pub Reported-right : (e : Event) (xs ys : List Event) → Reported e ys → Reported e (xs ++ ys)
Reported-right e [] ys h = h
Reported-right e (x ∷ xs) ys h = inr (Reported-right e xs ys h)

-- what the evictions leave of a key that the first level alone holds
abbrev pub Survives : Bytes → Slot → Bucket → Type 0
Survives key s b = Holds key s b.level1 × Missing key b.level2

abbrev pub Lost : Bytes → Bucket → Type 0
Lost key b = Missing key b.level1 × Missing key b.level2

evict_from_bucket-Lost : (b : Bucket) (key : Bytes) → Lost key b → Lost key (evict_from_bucket b).0
unfolding evict_from_bucket
evict_from_bucket-Lost b key h = elim (Option-cases (evict_oldest b.level1).1) [
  | inl q ↦ rw (q, evict_from_bucket) (h.0, evict_oldest-Missing b.level2 key h.1)
  | inr (e, q) ↦ rw (q, evict_from_bucket) (evict_oldest-Missing b.level1 key h.0, h.1)
]

evict_from_bucket-Survives :
    (b : Bucket) (key : Bytes) (s : Slot)
    → Survives key s b
    → Survives key s (evict_from_bucket b).0
      ⊎ (Lost key (evict_from_bucket b).0 × ((evict_from_bucket b).1 ≡ some (s.k, s.v)))
unfolding evict_from_bucket
evict_from_bucket-Survives b key s h = elim (Option-cases (evict_oldest b.level1).1) [
  | inl q ↦ rw (q, evict_from_bucket) (inl (h.0, evict_oldest-Missing b.level2 key h.1))
  | inr (e, q) ↦ elim (evict_oldest-Holds b.level1 key s e q h.0) [
    | inl k ↦ rw (q, evict_from_bucket) (inl (k, h.1))
    | inr (k, same) ↦ rw (q, evict_from_bucket) (inr ((k, h.1), ap some same))
  ]
]

-- a round of the loop
pub evict_loop_stops :
    (fuel budget : ℕ) (b : Bucket)
    → lt_int64 budget (add64 b.level1.bytes b.level2.bytes) ≡ false
    → evict_loop fuel budget b ≡ (b, [])
unfolding evict_loop
evict_loop_stops zero budget b q = refl
evict_loop_stops (suc fuel) budget b q = rw (q, evict_loop) refl

pub evict_loop_exits :
    (fuel budget : ℕ) (b : Bucket)
    → lt_int64 budget (add64 b.level1.bytes b.level2.bytes) ≡ true
    → (evict_from_bucket b).1 ≡ none
    → evict_loop (suc fuel) budget b ≡ ((evict_from_bucket b).0, [])
unfolding evict_loop
evict_loop_exits fuel budget b q n = rw (q, n, evict_loop) refl

pub evict_loop_goes :
    (fuel budget : ℕ) (b : Bucket) (e : Event)
    → lt_int64 budget (add64 b.level1.bytes b.level2.bytes) ≡ true
    → (evict_from_bucket b).1 ≡ some e
    → evict_loop (suc fuel) budget b ≡ (
      (evict_loop fuel budget (evict_from_bucket b).0).0,
      e ∷ (evict_loop fuel budget (evict_from_bucket b).0).1,
    )
unfolding evict_loop
evict_loop_goes fuel budget b e q n = rw (q, n, evict_loop) refl

evict_loop-Lost :
    (fuel budget : ℕ) (b : Bucket) (key : Bytes)
    → Lost key b
    → Lost key (evict_loop fuel budget b).0
unfolding evict_loop
evict_loop-Lost zero budget b key h = h
evict_loop-Lost (suc fuel) budget b key h =
    let step = evict_from_bucket-Lost b key h in
    let rest = evict_loop-Lost fuel budget (evict_from_bucket b).0 key step in
    elim (Bool-cases (lt_int64 budget (add64 b.level1.bytes b.level2.bytes))) [
      | inr q ↦ subst (λ r. Lost key r.0) (sym (evict_loop_stops (suc fuel) budget b q)) h
      | inl q ↦ elim (Option-cases (evict_from_bucket b).1) [
        | inl n ↦ subst (λ r. Lost key r.0) (sym (evict_loop_exits fuel budget b q n)) step
        | inr (e, n) ↦ subst (λ r. Lost key r.0) (sym (evict_loop_goes fuel budget b e q n)) rest
      ]
    ]

-- after the evictions: the slot is there, or lost and reported
abbrev pub Ends : Bytes → Slot → Bucket × List Event → Type 0
Ends key s r = Survives key s r.0 ⊎ (Lost key r.0 × Reported (s.k, s.v) r.1)

-- a round of it
evict_loop_goes-Ends :
    (b : Bucket) (key : Bytes) (s : Slot) (e : Event) (rest : Bucket × List Event)
    → Survives key s b
    → (evict_from_bucket b).1 ≡ some e
    → (Survives key s (evict_from_bucket b).0 → Ends key s rest)
    → (Lost key (evict_from_bucket b).0 → Lost key rest.0)
    → Ends key s (rest.0, e ∷ rest.1)
evict_loop_goes-Ends b key s e rest h n stay lose = elim (evict_from_bucket-Survives b key s h) [
  | inl k ↦ elim (stay k) [ inl z ↦ inl z | inr (l, z) ↦ inr (l, inr z) ]
  | inr (l, f) ↦ inr (lose l, inl (sym (some-inj (sym n ∙ f))))
]

evict_loop_exits-Ends :
    (b : Bucket) (key : Bytes) (s : Slot)
    → Survives key s b
    → (evict_from_bucket b).1 ≡ none
    → Ends key s ((evict_from_bucket b).0, [])
evict_loop_exits-Ends b key s h n = elim (evict_from_bucket-Survives b key s h) [
  | inl k ↦ inl k
  | inr (_, f) ↦ absurd (cc (n, f))
]

pub evict_loop-Ends :
    (fuel budget : ℕ) (b : Bucket) (key : Bytes) (s : Slot)
    → Survives key s b
    → Ends key s (evict_loop fuel budget b)
unfolding evict_loop
evict_loop-Ends zero budget b key s h = inl h
evict_loop-Ends (suc fuel) budget b key s h =
    let b' = (evict_from_bucket b).0 in
    let rest = evict_loop-Ends fuel budget b' key s in
    elim (Bool-cases (lt_int64 budget (add64 b.level1.bytes b.level2.bytes))) [
      | inr q ↦ subst (Ends key s) (sym (evict_loop_stops (suc fuel) budget b q)) (inl h)
      | inl q ↦ elim (Option-cases (evict_from_bucket b).1) [
        | inl n ↦
            subst (Ends key s) (sym (evict_loop_exits fuel budget b q n))
              (evict_loop_exits-Ends b key s h n)
        | inr (e, n) ↦ subst (Ends key s) (sym (evict_loop_goes fuel budget b e q n)) (
            evict_loop_goes-Ends b key s e (evict_loop fuel budget b') h n rest
              (evict_loop-Lost fuel budget b' key))
      ]
    ]
