-- ===== src/Cache/Lru/Refine.antt =====
-- put of swifty_cache/lru.go against its specification.
use swifty_go.Prelude.{
  some-inj, Has, ℕ, suc, ◌+◌, ◌%◌, ◌≡◌, ◌≢◌, ◌<◌, inl, inr, refl, sym, ap, subst, ◌∙◌, arith,
  Option, none, some, Option-cases, true, false, Bool-cases, List, [], ◌∷◌, ◌++◌, length,
  length-map, append-nil, Bytes, bytes_eq, lookup, insert, delete, ◌==◌, ==_iff, add64,
}
use swifty_go.Cache.Lru.{
  Value, Slot, prev, next, Links, link, Cache, slot, set_slot, is_live, entry_bytes, adjust,
  adjust_cache, put_known, put_full, put_fresh, put,
}
use swifty_go.Cache.Lru.Chain.{NotIn, Chain-last, last_of}
use swifty_go.Cache.Lru.Move.{
  Distinct-split, Apart-head, adjust-IsSized, adjust-Chain, Distinct-front,
}
use swifty_go.Cache.Lru.Spec.{has_key, remove_key, but_last, put_spec}
use swifty_go.Cache.Lru.Update.{
  front-IsLru, front-slots, AllBelow-weaken, nat-cases, front-below, front-length,
}
use swifty_go.Cache.Lru.Fresh.{none-ne, same_iff, rekeyed, rekeyed-IsLru}
use swifty_go.Cache.Lru.Grow.{grown, grown-IsLru, grown-slots}
use swifty_go.Cache.Lru.Valid.{
  Has-left, Has-split, Has-middle, Has-front, Has-back, not-Has, IsLru, slots,
}

pub same-false : (a b : Bytes) → a ≢ b → bytes_eq.same a b ≡ false
same-false a b h = elim (Bool-cases (bytes_eq.same a b)) [
  | inl q ↦ absurd (h ((same_iff a b).0 q))
  | inr q ↦ q
]

-- slots of other keys
abbrev pub OtherKeys : Cache → Bytes → List ℕ → Type 0
OtherKeys c key js = (j : ℕ) → Has j js → (slot c j).k ≢ key

pub has_key_none :
    (c : Cache) (key : Bytes) (js : List ℕ) → OtherKeys c key js → has_key key (slots c js) ≡ false
has_key_none c key [] h = refl
has_key_none c key (j ∷ js) h =
    rw (same-false (slot c j).k key (h j (inl refl))) (has_key_none c key js (λ k g. h k (inr g)))

pub remove_key-middle :
    (c : Cache) (key : Bytes) (pre : List ℕ) (i : ℕ) (post : List ℕ)
    → OtherKeys c key pre
    → (slot c i).k ≡ key
    → (has_key key (slots c (pre ++ (i ∷ post))) ≡ true)
      × (remove_key key (slots c (pre ++ (i ∷ post))) ≡ slots c (pre ++ post))
remove_key-middle c key [] i post h e = rw ((same_iff (slot c i).k key).1 e) (refl, refl)
remove_key-middle c key (j ∷ pre) i post h e =
    let rest = remove_key-middle c key pre i post (λ k g. h k (inr g)) e in
    rw (same-false (slot c j).k key (h j (inl refl))) (rest.0, ap (◌∷◌ (slot c j)) rest.1)

but_last-slots :
    (c : Cache) (js : List ℕ) (i : ℕ) → but_last (slots c (js ++ (i ∷ []))) ≡ slots c js
but_last-slots c [] i = refl
but_last-slots c (j ∷ []) i = refl
but_last-slots c (j ∷ k ∷ js) i = ap (◌∷◌ (slot c j)) (but_last-slots c (k ∷ js) i)

-- a sequence ends with its last element
split-last : (a : ℕ) (xs : List ℕ) → (pre : List ℕ) × (a ∷ xs ≡ pre ++ (last_of a xs ∷ []))
split-last a [] = ([], refl)
split-last a (x ∷ xs) = let r = split-last x xs in (a ∷ r.0, ap (◌∷◌ a) r.1)

module _ (c : Cache) (order : List ℕ) (v : IsLru c order) (key : Bytes) where
  pub new-OtherKeys : lookup key c.hash_map ≡ none → OtherKeys c key order
  new-OtherKeys new j h q = none-ne (sym new ∙ ap (λ k. lookup k c.hash_map) (sym q) ∙ v.found j h)

-- what a put makes of the cache and its order, against the specification
abbrev pub Refines : Cache → List Slot → Type 0
Refines c spec = (order : List ℕ) × IsLru c order × (slots c order ≡ spec)

abbrev new_slot : Bytes → Option Value → ℕ → Slot
new_slot key val e = record { k = key; v = val; expire_at = e }

-- the specification in the three cases
put_spec-known :
    (n : ℕ) (key : Bytes) (val : Option Value) (e : ℕ) (ss : List Slot)
    → has_key key ss ≡ true
    → put_spec n key val e ss ≡ new_slot key val e ∷ remove_key key ss
put_spec-known n key val e ss h = rw h refl

put_spec-full :
    (n : ℕ) (key : Bytes) (val : Option Value) (e : ℕ) (ss : List Slot)
    → has_key key ss ≡ false
    → length ss ≡ n
    → put_spec n key val e ss ≡ new_slot key val e ∷ but_last ss
put_spec-full n key val e ss h g = rw (h, (==_iff (length ss) n).1 g) refl

put_spec-room :
    (n : ℕ) (key : Bytes) (val : Option Value) (e : ℕ) (ss : List Slot)
    → has_key key ss ≡ false
    → length ss ≢ n
    → put_spec n key val e ss ≡ new_slot key val e ∷ ss
put_spec-room n key val e ss h g = elim (Bool-cases (length ss == n)) [
  | inl q ↦ absurd (g ((==_iff (length ss) n).0 q))
  | inr q ↦ rw (h, q) refl
]

put_known-Refines :
    (c : Cache) (pre : List ℕ) (i : ℕ) (post : List ℕ) (key : Bytes) (val : Option Value) (e : ℕ)
    → IsLru c (pre ++ (i ∷ post))
    → lookup key c.hash_map ≡ some i
    → Refines
        (put_known c i key val e)
        (put_spec (length c.m) key val e (slots c (pre ++ (i ∷ post))))
unfolding put_known set_slot adjust_cache
put_known-Refines c pre i post key val e v h =
    let at = v.indexed key i h in
    let parts = Distinct-split pre (i ∷ post) v.distinct.1 in
    let out : NotIn i pre = (Apart-head pre i post parts.1).0 in
    let others : OtherKeys c key pre = λ j g q. not-Has i pre out (
      subst (λ n. Has n pre)
        (some-inj
          (sym (v.found j (Has-left j pre (i ∷ post) g)) ∙ ap (λ k. lookup k c.hash_map) q ∙ h))
        g) in
    let removed = remove_key-middle c key pre i post others at.1 in
    let s : Slot = record { k = (slot c i).k; v = val; expire_at = e } in
    (
      i ∷ (pre ++ post),
      front-IsLru c pre i post v s _ _ refl,
      front-slots c pre i post v s _ _ _
          ∙ ap (λ (k : Bytes). new_slot k val e ∷ slots c (pre ++ post)) at.1
          ∙ ap (◌∷◌ (new_slot key val e)) (sym removed.1)
          ∙ sym (put_spec-known (length c.m) key val e (slots c (pre ++ (i ∷ post))) removed.0),
    )

put_fresh-grown :
    (c : Cache) (key : Bytes) (val : Option Value) (e : ℕ)
    → suc c.last < 65536
    → put_fresh c key val e
      ≡ grown c (suc c.last) (new_slot key val e) (add64 c.bytes (entry_bytes key val))
unfolding put_fresh set_slot
put_fresh-grown c key val e h =
    let next_one : (c.last + 1) % 65536 ≡ suc c.last = omega arith in rw next_one refl

put_fresh-Refines :
    (c : Cache) (order : List ℕ) (key : Bytes) (val : Option Value) (e : ℕ)
    → IsLru c order
    → lookup key c.hash_map ≡ none
    → c.last ≢ length c.m
    → Refines (put_fresh c key val e) (put_spec (length c.m) key val e (slots c order))
put_fresh-Refines c order key val e v new room =
    let s = new_slot key val e in
    let b = add64 c.bytes (entry_bytes key val) in
    let same : put_fresh c key val e ≡ grown c (suc c.last) s b =
      put_fresh-grown c key val e (omega (arith, v.room, v.small)) in
    subst (λ d. Refines d (put_spec (length c.m) key val e (slots c order))) (sym same)
      (
        suc c.last ∷ order,
        grown-IsLru c order v room s b new,
        grown-slots c order v room s b order (λ j h. h)
            ∙ sym (
                put_spec-room (length c.m) key val e (slots c order)
                  (has_key_none c key order (new-OtherKeys c order v key new))
                  (λ q. room (omega (arith, q, length-map order (slot c), v.used)))),
      )

-- put_full with its branches on the old slot decided
put_full-rekeyed :
    (c : Cache) (i : ℕ) (key : Bytes) (val : Option Value) (e : ℕ)
    → link c.double_link prev 0 ≡ i
    → (b : ℕ) × (n : ℕ) × ((put_full c key val e).0
        ≡ rekeyed c i
            (new_slot key val e)
            (adjust c.double_link i prev next)
            b
            n
            (insert key i (delete (slot c i).k c.hash_map)))
unfolding put_full set_slot adjust_cache
put_full-rekeyed c i key val e h = elim (Bool-cases (is_live (slot c i).expire_at)) [
  | inl q ↦ ((put_full c key val e).0.bytes, (put_full c key val e).0.nevict, rw (h, q) refl)
  | inr q ↦ ((put_full c key val e).0.bytes, (put_full c key val e).0.nevict, rw (h, q) refl)
]

rekeyed-slots :
    (c : Cache) (pre : List ℕ) (i : ℕ)
    → IsLru c (pre ++ (i ∷ []))
    → (s : Slot) (l : Links) (b n : ℕ) (index : List (Bytes × ℕ))
    → slots (rekeyed c i s l b n index) (i ∷ (pre ++ [])) ≡ s ∷ slots c (pre ++ [])
unfolding slot
rekeyed-slots c pre i v s l b n index = front-slots c pre i [] v s l b n

test-false : (a b : ℕ) → a ≢ b → (a == b) ≡ false
test-false a b h = elim (Bool-cases (a == b)) [ inl q ↦ absurd (h ((==_iff a b).0 q)) | inr q ↦ q ]

put_full_last :
    (c : Cache) (pre : List ℕ) (i : ℕ) (key : Bytes) (val : Option Value) (e : ℕ)
    → IsLru c (pre ++ (i ∷ []))
    → link c.double_link prev 0 ≡ i
    → lookup key c.hash_map ≡ none
    → c.last ≡ length c.m
    → Refines (put_full c key val e).0 (put_spec (length c.m) key val e (slots c (pre ++ (i ∷ []))))
put_full_last c pre i key val e v at new full =
    let order = pre ++ (i ∷ []) in
    let s = new_slot key val e in
    let n = suc (length c.m) in
    let l = adjust c.double_link i prev next in
    let index = insert key i (delete (slot c i).k c.hash_map) in
    let done = put_full-rekeyed c i key val e at in
    let inside = AllBelow-weaken (suc c.last) n order (omega (arith, v.room)) v.below in
    let apart : next ≢ prev = λ q. cc in
    subst (λ d. Refines d (put_spec (length c.m) key val e (slots c order))) (sym done.2)
      (
        i ∷ (pre ++ []),
        rekeyed-IsLru c order v i s l done.0 done.1 (i ∷ (pre ++ [])) (Has-middle pre i []) new
            (adjust-IsSized c.double_link next prev apart n v.sized i)
            (adjust-Chain c.double_link next prev apart n v.sized pre i [] (omega arith) inside
              v.distinct v.linked)
            (Distinct-front pre i [] v.distinct) (front-below c pre i [] v)
            (front-length c pre i [] v) (λ j h. Has-front j pre i [] h)
            (λ j h. Has-back j pre i [] h),
        rekeyed-slots c pre i v s l done.0 done.1 index
            ∙ ap (◌∷◌ s) (ap (slots c) (append-nil pre) ∙ sym (but_last-slots c pre i))
            ∙ sym (
                put_spec-full (length c.m) key val e (slots c order)
                  (has_key_none c key order (new-OtherKeys c order v key new))
                  (length-map order (slot c) ∙ v.used ∙ full)),
      )

put_full-Refines :
    (c : Cache) (order : List ℕ) (key : Bytes) (val : Option Value) (e : ℕ)
    → IsLru c order
    → 0 < length c.m
    → lookup key c.hash_map ≡ none
    → c.last ≡ length c.m
    → Refines (put_full c key val e).0 (put_spec (length c.m) key val e (slots c order))
put_full-Refines c [] key val e v some_room new full = absurd (omega (arith, v.used))
put_full-Refines c (x ∷ xs) key val e v some_room new full =
    let cut = split-last x xs in
    let last_one = Chain-last c.double_link next prev (λ q. cc) 0 (x ∷ xs) 0 v.linked in
    subst
      (λ order. Refines (put_full c key val e).0 (put_spec (length c.m) key val e (slots c order)))
      (sym cut.1)
      (put_full_last c cut.0 (last_of x xs) key val e (subst (IsLru c) cut.1 v) last_one new full)

-- put in its three cases
put-known :
    (c : Cache) (key : Bytes) (val : Option Value) (e i : ℕ)
    → lookup key c.hash_map ≡ some i
    → (put c key val e).0 ≡ put_known c i key val e
unfolding put
put-known c key val e i h = rw (h, put) refl

put-full :
    (c : Cache) (key : Bytes) (val : Option Value) (e : ℕ)
    → lookup key c.hash_map ≡ none
    → c.last ≡ length c.m
    → (put c key val e).0 ≡ (put_full c key val e).0
unfolding put
put-full c key val e h q = rw (h, put, (==_iff c.last (length c.m)).1 q) refl

put-room :
    (c : Cache) (key : Bytes) (val : Option Value) (e : ℕ)
    → lookup key c.hash_map ≡ none
    → c.last ≢ length c.m
    → (put c key val e).0 ≡ put_fresh c key val e
unfolding put
put-room c key val e h q = rw (h, put, test-false c.last (length c.m) q) refl

-- A put into a well-formed cache that has slots leaves a well-formed one, whose slots in the order of
-- use are what the specification says: the key is in front with its value, the others keep their
-- order and contents, and only if the key is new and no slot is free does the last of them go.
pub put_refines :
    (c : Cache) (order : List ℕ) (key : Bytes) (val : Option Value) (expire_at : ℕ)
    → IsLru c order
    → 0 < length c.m
    → (order' : List ℕ) × IsLru (put c key val expire_at).0 order'
      × (slots (put c key val expire_at).0 order'
          ≡ put_spec (length c.m) key val expire_at (slots c order))
put_refines c order key val e v some_room =
    let spec = put_spec (length c.m) key val e (slots c order) in
    elim (Option-cases (lookup key c.hash_map)) [
      | inl new ↦ elim (nat-cases c.last (length c.m)) [
        | inl full ↦
            subst (λ d. Refines d spec) (sym (put-full c key val e new full))
              (put_full-Refines c order key val e v some_room new full)
        | inr room ↦
            subst (λ d. Refines d spec) (sym (put-room c key val e new room))
              (put_fresh-Refines c order key val e v new room)
      ]
      | inr (i, known) ↦
          let cut = Has-split i order (v.indexed key i known).0 in
          subst (λ d. Refines d spec) (sym (put-known c key val e i known))
            (subst
              (λ js.
                Refines (put_known c i key val e) (put_spec (length c.m) key val e (slots c js)))
              (sym cut.2)
              (put_known-Refines c cut.0 i cut.1 key val e (subst (IsLru c) cut.2 v) known))
    ]
