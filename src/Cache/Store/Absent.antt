-- ===== src/Cache/Store/Absent.antt =====
-- The slot of a key in a level, after an eviction and after drop of swifty_cache/lru.go.
use swifty_go.Prelude.{
  some-inj, ℕ, ◌≡◌, ◌⊎◌, inl, inr, refl, sym, ap, subst, ◌∙◌, true, false, Bool-cases, none, some,
  Option-cases, Bytes, bytes_eq, lookup,
}
use swifty_go.Cache.Lru.{Slot, Cache, slot, is_live, bury, release, del, drop_key, evict_oldest}
use swifty_go.Cache.Lru.Bury.{del-live}
use swifty_go.Cache.Store.{Event}
use swifty_go.Cache.Store.Evict.{
  evicted, evicted-hash_map, evicted_dead, evicted-slot, same_slot, evict_oldest-IsEviction,
  evict_oldest-none,
}

-- the level has no live slot of the key
abbrev pub Missing : Bytes → Cache → Type 0
Missing key c = (i : ℕ) → lookup key c.hash_map ≡ some i → is_live (slot c i).expire_at ≡ false

-- the slot of the key
abbrev pub Holds : Bytes → Slot → Cache → Type 0
Holds key s c = (i : ℕ) × (lookup key c.hash_map ≡ some i) × (slot c i ≡ s)

evicted-Missing : (c : Cache) (idx : ℕ) (key : Bytes) → Missing key c → Missing key (evicted c idx)
evicted-Missing c idx key h i e =
    let there : lookup key c.hash_map ≡ some i =
      ap (lookup key) (sym (evicted-hash_map c idx)) ∙ e in
    elim (evicted-slot c idx i) [
      | inl q ↦ ap (λ (t : Slot). is_live t.expire_at) q ∙ h i there
      | inr q ↦
          ap (λ (t : Slot). is_live t.expire_at) (same_slot (evicted c idx) i idx q)
          ∙ ap is_live (evicted_dead c idx)
    ]

evicted-Holds :
    (c : Cache) (idx : ℕ) (key : Bytes) (s : Slot)
    → Holds key s c
    → Holds key s (evicted c idx) ⊎ (Missing key (evicted c idx) × (slot c idx ≡ s))
evicted-Holds c idx key s h =
    let there : lookup key (evicted c idx).hash_map ≡ some h.0 =
      ap (lookup key) (evicted-hash_map c idx) ∙ h.1 in
    elim (evicted-slot c idx h.0) [
      | inl q ↦ inl (h.0, there, q ∙ h.2)
      | inr q ↦ inr (
        λ i e.
            ap (λ j. is_live (slot (evicted c idx) j).expire_at) (some-inj (sym e ∙ there))
            ∙ ap (λ (t : Slot). is_live t.expire_at) (same_slot (evicted c idx) h.0 idx q)
            ∙ ap is_live (evicted_dead c idx),
        sym (same_slot c h.0 idx q) ∙ h.2,
      )
    ]

pub evict_oldest-Missing :
    (c : Cache) (key : Bytes) → Missing key c → Missing key (evict_oldest c).0
evict_oldest-Missing c key h = elim (Option-cases (evict_oldest c).1) [
  | inl q ↦ subst (Missing key) (sym (evict_oldest-none c q)) h
  | inr (e, q) ↦
      let z = evict_oldest-IsEviction c e q in
      subst (Missing key) (sym z.after) (evicted-Missing c z.at key h)
]

-- what became of the slot of a key: it is there, or missing and reported
pub evict_oldest-Holds :
    (c : Cache) (key : Bytes) (s : Slot) (e : Event)
    → (evict_oldest c).1 ≡ some e
    → Holds key s c
    → Holds key s (evict_oldest c).0 ⊎ (Missing key (evict_oldest c).0 × (e ≡ (s.k, s.v)))
evict_oldest-Holds c key s e q h =
    let z = evict_oldest-IsEviction c e q in
    elim (evicted-Holds c z.at key s h) [
      | inl k ↦ inl (subst (Holds key s) (sym z.after) k)
      | inr (k, same) ↦
          inr (subst (Missing key) (sym z.after) k, z.is_event ∙ ap (λ (t : Slot). (t.k, t.v)) same)
    ]

pub del-none : (c : Cache) (key : Bytes) → Missing key c → del c key ≡ (c, none)
unfolding del
del-none c key h = elim (Option-cases (lookup key c.hash_map)) [
  | inl q ↦ rw (q, del) refl
  | inr (i, q) ↦ let dead = h i q in rw (q, del, dead) refl
]

released-Missing :
    (c : Cache) (key : Bytes) (i : ℕ) → lookup key c.hash_map ≡ some i → Missing key (evicted c i)
released-Missing c key i q j e =
    let there : lookup key (evicted c i).hash_map ≡ some i =
      ap (lookup key) (evicted-hash_map c i) ∙ q in
    ap (λ k. is_live (slot (evicted c i) k).expire_at) (some-inj (sym e ∙ there))
    ∙ ap is_live (evicted_dead c i)

-- drop_key of a key that is not live, and of one that is
drop_key_absent : (c : Cache) (key : Bytes) → Missing key c → drop_key c key ≡ c
unfolding drop_key
drop_key_absent c key h = let gone = del-none c key h in rw (gone, drop_key) (ap (λ d. d.0) gone)

drop_key_live :
    (c : Cache) (key : Bytes) (i : ℕ)
    → lookup key c.hash_map ≡ some i
    → is_live (slot c i).expire_at ≡ true
    → drop_key c key ≡ release (bury c i) i
unfolding drop_key
drop_key_live c key i q live =
    let gone = del-live c key i q live in rw (gone, drop_key) (ap (λ d. release d.0 i) gone)

pub drop_key_cases :
    (c : Cache) (key : Bytes)
    → (Missing key c × (drop_key c key ≡ c))
      ⊎ ((i : ℕ) × (lookup key c.hash_map ≡ some i) × (drop_key c key ≡ release (bury c i) i))
drop_key_cases c key = elim (Option-cases (lookup key c.hash_map)) [
  | inl q ↦ inl (absent (λ i e. absurd (cc (q, e))))
  | inr (i, q) ↦ elim (Bool-cases (is_live (slot c i).expire_at)) [
    | inl live ↦ inr (i, q, drop_key_live c key i q live)
    | inr dead ↦
        inl (absent (λ j e. ap (λ k. is_live (slot c k).expire_at) (some-inj (sym e ∙ q)) ∙ dead))
  ]
]
  where
    absent : Missing key c → Missing key c × (drop_key c key ≡ c)
    absent h = (h, drop_key_absent c key h)

-- drop_key leaves no live slot of the key
pub drop_key-Missing : (c : Cache) (key : Bytes) → Missing key (drop_key c key)
unfolding slot
drop_key-Missing c key = elim (drop_key_cases c key) [
  | inl (h, same) ↦ subst (Missing key) (sym same) h
  | inr (i, q, same) ↦ subst (Missing key) (sym same) (released-Missing c key i q)
]
