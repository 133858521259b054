-- ===== src/Cache/Lru/Update.antt =====
-- A slot of a well-formed cache is rewritten and moved in the order of use
-- (swifty_cache/lru.go).
use swifty_go.Prelude.{
  Has, ℕ, suc, zero, ◌≡◌, ◌≢◌, ◌<◌, ◌≤◌, ◌⊎◌, inl, inr, refl, sym, ap, subst, ◌∙◌, arith, List, [],
  ◌∷◌, ◌++◌, length, length-set, length-append, append-nil, set, bytes_eq, lookup, Bool-cases,
  ==_iff, ◌==◌,
}
use swifty_go.Cache.Lru.{Slot, prev, next, Links, Cache, slot_index, slot, set_slot, adjust}
use swifty_go.Cache.Lru.Chain.{IsSized, NotIn, Distinct, AllBelow, Chain}
use swifty_go.Cache.Lru.Move.{
  adjust-IsSized, adjust-Chain, Distinct-front, AllBelow-split, AllBelow-join,
}
use swifty_go.Cache.Lru.Reverse.{adjust-Chain_back, Distinct-back}
use swifty_go.Cache.Lru.Valid.{
  Has-front, Has-back, Has-middle, not-Has, below_of_Has, IsLru, slots, slot-set_self, slot-set_ne,
}

abbrev pub updated : Cache → ℕ → Slot → Links → ℕ → ℕ → Cache
updated c i s l b e = record c {
  double_link = l;
  m = set c.m (slot_index i) s;
  bytes = b;
  nevict = e;
}

pub AllBelow-weaken : (n k : ℕ) (js : List ℕ) → n ≤ k → AllBelow n js → AllBelow k js
AllBelow-weaken n k [] h b = tt
AllBelow-weaken n k (j ∷ js) h b = (omega arith, AllBelow-weaken n k js h b.1)

pub nat-cases : (i j : ℕ) → (i ≡ j) ⊎ (i ≢ j)
nat-cases i j = elim (Bool-cases (i == j)) [
  | inl same ↦ inl ((==_iff i j).0 same)
  | inr other ↦ inr (λ e. cc ((==_iff i j).1 e))
]

module _ (c : Cache) (order : List ℕ) (v : IsLru c order) where
  pub positive : (i : ℕ) → Has i order → 0 < i
  positive zero h = absurd (not-Has 0 order v.distinct.0 h)
  positive (suc i) h = omega arith

  pub within : (i : ℕ) → Has i order → i ≤ length c.m
  within i h = omega (arith, below_of_Has (suc c.last) i order v.below h, v.room)

  pub slot-updated_self :
      (i : ℕ) (s : Slot) (l : Links) (b e : ℕ) → Has i order → slot (updated c i s l b e) i ≡ s
  unfolding slot set_slot
  slot-updated_self i s l b e h = slot-set_self c i s (positive i h) (within i h) v.small

  pub slot-updated_ne :
      (i j : ℕ) (s : Slot) (l : Links) (b e : ℕ)
      → Has i order
      → Has j order
      → i ≢ j
      → slot (updated c i s l b e) j ≡ slot c j
  unfolding slot set_slot
  slot-updated_ne i j s l b e hi hj ne =
      slot-set_ne c i j s (positive i hi) (positive j hj) (omega (arith, within i hi, v.small))
        (omega (arith, within j hj, v.small)) ne

  key-updated :
      (i j : ℕ) (s : Slot) (l : Links) (b e : ℕ)
      → s.k ≡ (slot c i).k
      → Has i order
      → Has j order
      → (slot (updated c i s l b e) j).k ≡ (slot c j).k
  key-updated i j s l b e same hi hj = elim (nat-cases i j) [
    | inl q ↦
        ap (λ (n : ℕ). (slot (updated c i s l b e) n).k) (sym q)
        ∙ ap (λ (t : Slot). t.k) (slot-updated_self i s l b e hi)
        ∙ same
        ∙ ap (λ (n : ℕ). (slot c n).k) q
    | inr q ↦ ap (λ (t : Slot). t.k) (slot-updated_ne i j s l b e hi hj q)
  ]

  -- The slot keeps its key, and the sequence is another order of the same slots.
  pub updated-IsLru :
      (i : ℕ) (s : Slot) (l : Links) (b e : ℕ) (order' : List ℕ)
      → Has i order
      → s.k ≡ (slot c i).k
      → IsSized l (suc (length c.m))
      → Chain l next prev 0 order' 0
      → Distinct (0 ∷ order')
      → AllBelow (suc c.last) order'
      → length order' ≡ length order
      → ((j : ℕ) → Has j order → Has j order')
      → ((j : ℕ) → Has j order' → Has j order)
      → IsLru (updated c i s l b e) order'
  updated-IsLru i s l b e order' hi same z chain d below len to from = record {
    sized = (
      z.0 ∙ ap suc (sym (length-set c.m (slot_index i) s)),
      z.1 ∙ ap suc (sym (length-set c.m (slot_index i) s)),
    );
    small = omega (arith, v.small, length-set c.m (slot_index i) s);
    linked = chain;
    distinct = d;
    below = below;
    used = len ∙ v.used;
    room = omega (arith, v.room, length-set c.m (slot_index i) s);
    indexed = λ key j h.
        let r = v.indexed key j h in (to j r.0, key-updated i j s l b e same hi r.0 ∙ r.1);
    found = λ j h.
        ap (λ key. lookup key c.hash_map) (key-updated i j s l b e same hi (from j h))
        ∙ v.found j (from j h);
  }

  -- the slots that are not rewritten
  pub slots-updated :
      (i : ℕ) (s : Slot) (l : Links) (b e : ℕ) (js : List ℕ)
      → Has i order
      → ((j : ℕ) → Has j js → Has j order)
      → NotIn i js
      → slots (updated c i s l b e) js ≡ slots c js
  slots-updated i s l b e [] hi sub out = refl
  slots-updated i s l b e (j ∷ js) hi sub out =
      ap (λ (t : Slot). t ∷ slots (updated c i s l b e) js)
        (slot-updated_ne i j s l b e hi (sub j (inl refl)) out.0)
      ∙ ap (◌∷◌ (slot c j)) (slots-updated i s l b e js hi (λ k h. sub k (inr h)) out.1)

-- to the front
module _ (c : Cache) (pre : List ℕ) (i : ℕ) (post : List ℕ) (v : IsLru c (pre ++ (i ∷ post))) where
  pub front-below : AllBelow (suc c.last) (i ∷ (pre ++ post))
  front-below =
      let b = AllBelow-split (suc c.last) pre (i ∷ post) v.below in
      (b.1.0, AllBelow-join (suc c.last) pre post b.0 b.1.1)

  pub front-length : length (i ∷ (pre ++ post)) ≡ length (pre ++ (i ∷ post))
  front-length = omega (arith, length-append pre post, length-append pre (i ∷ post))

  pub front-IsLru :
      (s : Slot) (b e : ℕ)
      → s.k ≡ (slot c i).k
      → IsLru (updated c i s (adjust c.double_link i prev next) b e) (i ∷ (pre ++ post))
  front-IsLru s b e same =
      let n = suc (length c.m) in
      let inside =
        AllBelow-weaken (suc c.last) n (pre ++ (i ∷ post)) (omega (arith, v.room)) v.below in
      let apart : next ≢ prev = λ q. cc in
      updated-IsLru c (pre ++ (i ∷ post)) v i s (adjust c.double_link i prev next) b e
        (i ∷ (pre ++ post)) (Has-middle pre i post) same
        (adjust-IsSized c.double_link next prev apart n v.sized i)
        (adjust-Chain c.double_link next prev apart n v.sized pre i post (omega arith) inside
          v.distinct v.linked)
        (Distinct-front pre i post v.distinct) front-below front-length
        (λ j h. Has-front j pre i post h) (λ j h. Has-back j pre i post h)

  -- and the slots in the new order
  pub front-slots :
      (s : Slot) (l : Links) (b e : ℕ)
      → slots (updated c i s l b e) (i ∷ (pre ++ post)) ≡ s ∷ slots c (pre ++ post)
  front-slots s l b e =
      let order = pre ++ (i ∷ post) in
      ap (λ (t : Slot). t ∷ slots (updated c i s l b e) (pre ++ post))
        (slot-updated_self c order v i s l b e (Has-middle pre i post))
      ∙ ap (◌∷◌ s) (
          slots-updated c order v i s l b e (pre ++ post) (Has-middle pre i post)
            (λ j h. Has-back j pre i post (inr h)) (Distinct-front pre i post v.distinct).1.0)

-- to the back
module _ (c : Cache) (pre : List ℕ) (i : ℕ) (post : List ℕ) (v : IsLru c (pre ++ (i ∷ post))) where
  pub back-IsLru :
      (s : Slot) (b e : ℕ)
      → s.k ≡ (slot c i).k
      → IsLru (updated c i s (adjust c.double_link i next prev) b e) ((pre ++ post) ++ (i ∷ []))
  back-IsLru s b e same =
      let n = suc (length c.m) in
      let inside =
        AllBelow-weaken (suc c.last) n (pre ++ (i ∷ post)) (omega (arith, v.room)) v.below in
      let front = Distinct-front pre i post v.distinct in
      let below = AllBelow-split (suc c.last) pre (i ∷ post) v.below in
      updated-IsLru c (pre ++ (i ∷ post)) v i s (adjust c.double_link i next prev) b e
        ((pre ++ post) ++ (i ∷ [])) (Has-middle pre i post) same
        (adjust-IsSized c.double_link prev next (λ q. cc) n v.sized i)
        (adjust-Chain_back c.double_link n v.sized pre i post (omega arith) inside v.distinct
          v.linked)
        (Distinct-back (pre ++ post) i front)
        (AllBelow-join (suc c.last) (pre ++ post) (i ∷ [])
          (AllBelow-join (suc c.last) pre post below.0 below.1.1) (below.1.0, tt))
        (omega (
          arith,
          length-append pre post,
          length-append pre (i ∷ post),
          length-append (pre ++ post) (i ∷ []),
        ))
        (λ j h. Has-back j (pre ++ post) i [] (elim (Has-front j pre i post h) [
          | inl q ↦ inl q
          | inr r ↦ inr (subst (Has j) (sym (append-nil (pre ++ post))) r)
        ]))
        (λ j h. Has-back j pre i post (elim (Has-front j (pre ++ post) i [] h) [
          | inl q ↦ inl q
          | inr r ↦ inr (subst (Has j) (append-nil (pre ++ post)) r)
        ]))
