-- ===== src/Cache/Store/Evict.antt =====
-- One eviction of evictOldest in swifty_cache/lru.go.
use swifty_go.Prelude.{
  some-inj, ℕ, suc, zero, ◌≡◌, ◌⊎◌, inl, inr, refl, sym, ap, ◌∙◌, arith, true, none, some,
  Option-cases, List, [], ◌∷◌, length, get_or, set, add64, bytes_eq,
}
use swifty_go.Cache.Lru.{
  Slot, no_slot, Cache, slot, slot_index, set_slot, is_live, bury, release, oldest_live,
  evict_oldest, prev, link, adjust_cache,
}
use swifty_go.Cache.Store.{Event}

-- a slot after another was set
get_or-set_cases :
    (xs : List Slot) (i j : ℕ) (s : Slot)
    → (get_or (set xs j s) i no_slot ≡ get_or xs i no_slot)
      ⊎ ((i ≡ j) × (get_or (set xs j s) i no_slot ≡ s))
get_or-set_cases [] i j s = inl refl
get_or-set_cases (x ∷ xs) zero zero s = inr (refl, refl)
get_or-set_cases (x ∷ xs) (suc i) zero s = inl refl
get_or-set_cases (x ∷ xs) zero (suc j) s = inl refl
get_or-set_cases (x ∷ xs) (suc i) (suc j) s = elim (get_or-set_cases xs i j s) [
  | inl e ↦ inl e
  | inr (e, f) ↦ inr (ap suc e, f)
]

-- the slot that was set is the new one, or out of range and dead
get_or-set_dead :
    (xs : List Slot) (j : ℕ) (s : Slot)
    → s.expire_at ≡ 0
    → (get_or (set xs j s) j no_slot).expire_at ≡ 0
get_or-set_dead [] j s e = refl
get_or-set_dead (x ∷ xs) zero s e = e
get_or-set_dead (x ∷ xs) (suc j) s e = get_or-set_dead xs j s e

-- the cache after the eviction of a slot
abbrev pub evicted : Cache → ℕ → Cache
evicted c idx = record (release (bury c idx) idx) { nevict = add64 c.nevict 1 }

abbrev pub buried : Cache → ℕ → List Slot
buried c idx = set c.m (slot_index idx) (record (slot c idx) { expire_at = 0 })

abbrev pub emptied : Cache → ℕ → Slot
emptied c idx = record (get_or (buried c idx) (slot_index idx) no_slot) { v = none }

pub evicted-m :
    (c : Cache) (idx : ℕ) → (evicted c idx).m ≡ set (buried c idx) (slot_index idx) (emptied c idx)
unfolding bury release set_slot slot adjust_cache
evicted-m c idx = refl

pub evicted-hash_map : (c : Cache) (idx : ℕ) → (evicted c idx).hash_map ≡ c.hash_map
unfolding bury release set_slot adjust_cache
evicted-hash_map c idx = refl

pub emptied_dead : (c : Cache) (idx : ℕ) → (emptied c idx).expire_at ≡ 0
emptied_dead c idx =
    get_or-set_dead c.m (slot_index idx) (record (slot c idx) { expire_at = 0 }) refl

pub evicted_dead : (c : Cache) (idx : ℕ) → (slot (evicted c idx) idx).expire_at ≡ 0
unfolding slot
evicted_dead c idx =
    ap (λ m. (get_or m (slot_index idx) no_slot).expire_at) (evicted-m c idx)
    ∙ get_or-set_dead (buried c idx) (slot_index idx) (emptied c idx) (emptied_dead c idx)

-- another slot is as it was
pub evicted-slot :
    (c : Cache) (idx i : ℕ) → (slot (evicted c idx) i ≡ slot c i) ⊎ (slot_index i ≡ slot_index idx)
unfolding slot
evicted-slot c idx i =
    elim (get_or-set_cases (buried c idx) (slot_index i) (slot_index idx) (emptied c idx)) [
      | inr (e, _) ↦ inr e
      | inl e ↦
          elim (get_or-set_cases c.m (slot_index i) (slot_index idx)
            (record (slot c idx) { expire_at = 0 })) [
              | inr (f, _) ↦ inr f
              | inl f ↦ inl (ap (λ m. get_or m (slot_index i) no_slot) (evicted-m c idx) ∙ e ∙ f)
            ]
    ]

pub same_slot : (c : Cache) (i j : ℕ) → slot_index i ≡ slot_index j → slot c i ≡ slot c j
unfolding slot
same_slot c i j e = ap (λ k. get_or c.m k no_slot) e

oldest_live-live :
    (fuel : ℕ) (c : Cache) (i idx : ℕ)
    → oldest_live fuel c i ≡ some idx
    → is_live (slot c idx).expire_at ≡ true
unfolding oldest_live
oldest_live-live zero c i idx e = absurd (cc e)
oldest_live-live (suc fuel) c i idx e =
    ground (arith, oldest_live-live fuel c (link c.double_link prev i) idx)

-- an eviction, where there is one
pub record IsEviction (c c' : Cache) (e : Event) : Type 0 where
  pub at : ℕ
  pub was_live : is_live (slot c at).expire_at ≡ true
  pub is_event : e ≡ ((slot c at).k, (slot c at).v)
  pub after : c' ≡ evicted c at

pub evict_oldest-IsEviction :
    (c : Cache) (e : Event) → (evict_oldest c).1 ≡ some e → IsEviction c (evict_oldest c).0 e
unfolding evict_oldest
evict_oldest-IsEviction c e h =
    elim (Option-cases (oldest_live (suc (length c.m)) c (link c.double_link prev 0))) [
      | inl q ↦
          let fails : (evict_oldest c).1 ≡ none = rw (q, evict_oldest) refl in
          absurd (cc (sym h ∙ fails))
      | inr (idx, q) ↦
          let works : evict_oldest c ≡ (evicted c idx, some ((slot c idx).k, (slot c idx).v)) =
            rw (q, evict_oldest) refl in
          record {
            at = idx;
            was_live = oldest_live-live (suc (length c.m)) c (link c.double_link prev 0) idx q;
            is_event = some-inj (sym h ∙ ap (λ x. x.1) works);
            after = ap (λ x. x.0) works;
          }
    ]

pub evict_oldest-none : (c : Cache) → (evict_oldest c).1 ≡ none → (evict_oldest c).0 ≡ c
unfolding evict_oldest
evict_oldest-none c h =
    elim (Option-cases (oldest_live (suc (length c.m)) c (link c.double_link prev 0))) [
      | inl q ↦ rw (q, evict_oldest) refl
      | inr (idx, q) ↦
          let works : (evict_oldest c).1 ≡ some ((slot c idx).k, (slot c idx).v) =
            rw (q, evict_oldest) refl in
          absurd (cc (sym h ∙ works))
    ]
