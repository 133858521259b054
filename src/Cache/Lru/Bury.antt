-- ===== src/Cache/Lru/Bury.antt =====
-- del of swifty_cache/lru.go against its specification.
use swifty_go.Prelude.{
  some-inj, Has, ℕ, ◌≡◌, inl, inr, refl, sym, ap, subst, ◌∙◌, Option, none, some, Option-cases,
  true, false, Bool-cases, if◌then◌else◌, List, [], ◌∷◌, ◌++◌, Bytes, bytes_eq, lookup, sub64,
}
use swifty_go.Cache.Lru.{
  Slot, prev, next, Cache, slot, set_slot, is_live, entry_bytes, adjust, adjust_cache, bury, del,
}
use swifty_go.Cache.Lru.Move.{Distinct-split, Apart-head, Distinct-front}
use swifty_go.Cache.Lru.Spec.{bury_spec, live_slot, del_spec}
use swifty_go.Cache.Lru.Update.{updated, back-IsLru, slots-updated, slot-updated_self}
use swifty_go.Cache.Lru.Fresh.{same_iff}
use swifty_go.Cache.Lru.Refine.{same-false, OtherKeys, Refines, new-OtherKeys}
use swifty_go.Cache.Lru.Valid.{Has-left, Has-split, Has-middle, Has-back, not-Has, IsLru, slots}

slots-append : (c : Cache) (xs ys : List ℕ) → slots c (xs ++ ys) ≡ slots c xs ++ slots c ys
slots-append c [] ys = refl
slots-append c (x ∷ xs) ys = ap (◌∷◌ (slot c x)) (slots-append c xs ys)

-- the specification's functions where the key stands
at-middle :
    (c : Cache) (key : Bytes) (pre : List ℕ) (i : ℕ) (post : List ℕ)
    → OtherKeys c key pre
    → (slot c i).k ≡ key
    → (live_slot key (slots c (pre ++ (i ∷ post)))
        ≡ (if is_live (slot c i).expire_at then some (slot c i) else none))
      × (bury_spec key (slots c (pre ++ (i ∷ post)))
          ≡ slots c (pre ++ post) ++ (record (slot c i) { expire_at = 0 } ∷ []))
at-middle c key [] i post h e = rw ((same_iff (slot c i).k key).1 e) (refl, refl)
at-middle c key (j ∷ pre) i post h e =
    let rest = at-middle c key pre i post (λ k g. h k (inr g)) e in
    rw (same-false (slot c j).k key (h j (inl refl))) (rest.0, ap (◌∷◌ (slot c j)) rest.1)

live_slot-none :
    (c : Cache) (key : Bytes) (js : List ℕ) → OtherKeys c key js → live_slot key (slots c js) ≡ none
live_slot-none c key [] h = refl
live_slot-none c key (j ∷ js) h =
    rw (same-false (slot c j).k key (h j (inl refl))) (live_slot-none c key js (λ k g. h k (inr g)))

pub bury-IsLru :
    (c : Cache) (pre : List ℕ) (i : ℕ) (post : List ℕ)
    → IsLru c (pre ++ (i ∷ post))
    → IsLru (bury c i) ((pre ++ post) ++ (i ∷ []))
      × (slots (bury c i) ((pre ++ post) ++ (i ∷ []))
          ≡ slots c (pre ++ post) ++ (record (slot c i) { expire_at = 0 } ∷ []))
unfolding bury set_slot adjust_cache
bury-IsLru c pre i post v =
    let s : Slot = record (slot c i) { expire_at = 0 } in
    let b = sub64 c.bytes (entry_bytes (slot c i).k (slot c i).v) in
    let l = adjust c.double_link i next prev in
    let order = pre ++ (i ∷ post) in
    (
      back-IsLru c pre i post v s b c.nevict refl,
      slots-append (updated c i s l b c.nevict) (pre ++ post) (i ∷ [])
          ∙ ap (λ ss. ss ++ (slot (updated c i s l b c.nevict) i ∷ []))
              (slots-updated c order v i s l b c.nevict (pre ++ post) (Has-middle pre i post)
                (λ j h. Has-back j pre i post (inr h)) (Distinct-front pre i post v.distinct).1.0)
          ∙ ap (λ (t : Slot). slots c (pre ++ post) ++ (t ∷ []))
              (slot-updated_self c order v i s l b c.nevict (Has-middle pre i post)),
    )

-- the keys before a known slot are others
pub before-OtherKeys :
    (c : Cache) (key : Bytes) (pre : List ℕ) (i : ℕ) (post : List ℕ)
    → IsLru c (pre ++ (i ∷ post))
    → lookup key c.hash_map ≡ some i
    → OtherKeys c key pre
before-OtherKeys c key pre i post v h j g q =
    let parts = Distinct-split pre (i ∷ post) v.distinct.1 in
    not-Has i pre (Apart-head pre i post parts.1).0 (
      subst (λ n. Has n pre)
        (some-inj
          (sym (v.found j (Has-left j pre (i ∷ post) g)) ∙ ap (λ k. lookup k c.hash_map) q ∙ h))
        g)

-- the slot that del returns
abbrev pub returned : Option (ℕ × Slot) → Option Slot
returned none = none
returned (some (i, s)) = some s

abbrev Deletes : Bytes → Cache × Option (ℕ × Slot) → List Slot → Type 0
Deletes key r ss = Refines r.0 (del_spec key ss) × (returned r.1 ≡ live_slot key ss)

del-none : (c : Cache) (key : Bytes) → lookup key c.hash_map ≡ none → del c key ≡ (c, none)
unfolding del
del-none c key h = rw (h, del) refl

del-dead :
    (c : Cache) (key : Bytes) (i : ℕ)
    → lookup key c.hash_map ≡ some i
    → is_live (slot c i).expire_at ≡ false
    → del c key ≡ (c, none)
unfolding del
del-dead c key i h q = rw (h, del, q) refl

pub del-live :
    (c : Cache) (key : Bytes) (i : ℕ)
    → lookup key c.hash_map ≡ some i
    → is_live (slot c i).expire_at ≡ true
    → del c key ≡ (bury c i, some (i, slot c i))
unfolding del
del-live c key i h q = rw (h, del, q) refl

stays :
    (c : Cache) (order : List ℕ) (key : Bytes)
    → IsLru c order
    → live_slot key (slots c order) ≡ none
    → Deletes key (c, none) (slots c order)
stays c order key v h = ((order, v, rw (h, del_spec) refl), sym h)

del_known :
    (c : Cache) (key : Bytes) (pre : List ℕ) (i : ℕ) (post : List ℕ)
    → IsLru c (pre ++ (i ∷ post))
    → lookup key c.hash_map ≡ some i
    → Deletes key (del c key) (slots c (pre ++ (i ∷ post)))
del_known c key pre i post v h =
    let ss = slots c (pre ++ (i ∷ post)) in
    let here =
      at-middle c key pre i post (before-OtherKeys c key pre i post v h) (v.indexed key i h).1 in
    elim (Bool-cases (is_live (slot c i).expire_at)) [
      | inl q ↦
          let alive : live_slot key ss ≡ some (slot c i) = here.0 ∙ rw q refl in
          let done = bury-IsLru c pre i post v in
          subst (λ r. Deletes key r ss) (sym (del-live c key i h q))
            (
              ((pre ++ post) ++ (i ∷ []), done.0, rw (alive, del_spec) (done.1 ∙ sym here.1)),
              sym alive,
            )
      | inr q ↦
          subst (λ r. Deletes key r ss) (sym (del-dead c key i h q))
            (stays c (pre ++ (i ∷ post)) key v (here.0 ∙ rw q refl))
    ]

-- Deleting a key from a well-formed cache leaves a well-formed one, whose slots in the order of use
-- are what the specification says: a live slot of the key dies and goes to the end, anything else
-- stays. The slot that is returned is the live slot of the key.
pub del_refines :
    (c : Cache) (order : List ℕ) (key : Bytes)
    → IsLru c order
    → ((order' : List ℕ) × IsLru (del c key).0 order'
        × (slots (del c key).0 order' ≡ del_spec key (slots c order)))
      × (returned (del c key).1 ≡ live_slot key (slots c order))
del_refines c order key v = elim (Option-cases (lookup key c.hash_map)) [
  | inl new ↦
      subst (λ r. Deletes key r (slots c order)) (sym (del-none c key new))
        (stays c order key v (live_slot-none c key order (new-OtherKeys c order v key new)))
  | inr (i, known) ↦
      let cut = Has-split i order (v.indexed key i known).0 in
      subst (λ js. Deletes key (del c key) (slots c js)) (sym cut.2)
        (del_known c key cut.0 i cut.1 (subst (IsLru c) cut.2 v) known)
]
