-- ===== src/Cache/Lru/Grow.antt =====
-- A key that is new gets a slot that was never used (swifty_cache/lru.go).
use swifty_go.Prelude.{
  some-inj, Has, ℕ, suc, zero, ◌≡◌, ◌≢◌, inl, inr, refl, sym, ap, subst, ◌∙◌, arith, none, some,
  Bool, true, false, Bool-cases, if◌then◌else◌, List, [], ◌∷◌, length, length-set, set, get_or,
  Bytes, bytes_eq, lookup, insert, lookup-insert, ◌==◌, ==_iff,
}
use swifty_go.Cache.Lru.{
  Slot, prev, next, Links, link, relink, Cache, slot_index, slot, set_slot, push, link_fresh,
}
use swifty_go.Cache.Lru.Chain.{IsSized, NotIn, AllBelow, Chain, Chain-first, first_of}
use swifty_go.Cache.Lru.Move.{push-Chain, push-IsSized}
use swifty_go.Cache.Lru.Update.{positive, AllBelow-weaken}
use swifty_go.Cache.Lru.Fresh.{none-ne, same_iff}
use swifty_go.Cache.Lru.Valid.{
  NotIn-of_not-Has, below_of_Has, IsLru, slots, slot-set_self, slot-set_ne,
}

set-set_comm : (xs : List ℕ) (i j v w : ℕ) → i ≢ j → set (set xs i v) j w ≡ set (set xs j w) i v
set-set_comm [] i j v w h = refl
set-set_comm (x ∷ xs) zero zero v w h = absurd (h refl)
set-set_comm (x ∷ xs) zero (suc j) v w h = refl
set-set_comm (x ∷ xs) (suc i) zero v w h = refl
set-set_comm (x ∷ xs) (suc i) (suc j) v w h =
    ap (◌∷◌ x) (set-set_comm xs i j v w (λ e. h (ap suc e)))

get_or-set_head : (xs : List ℕ) (i v : ℕ) → i ≢ 0 → get_or (set xs i v) 0 0 ≡ get_or xs 0 0
get_or-set_head [] i v h = refl
get_or-set_head (x ∷ xs) zero v h = absurd (h refl)
get_or-set_head (x ∷ xs) (suc i) v h = refl

-- put writes the links of a fresh slot in another order than adjust
link_fresh-push :
    (l : Links) (none_used : Bool) (idx h : ℕ)
    → idx ≢ 0
    → h ≢ idx
    → link l next 0 ≡ h
    → (none_used ≡ true → h ≡ 0)
    → link_fresh l none_used idx ≡ push l idx prev next
unfolding link_fresh push link relink
link_fresh-push l true idx h x0 ne e u =
    let head : get_or (set l.nexts idx (get_or l.nexts 0 0)) 0 0 ≡ 0 =
      get_or-set_head l.nexts idx (get_or l.nexts 0 0) x0 ∙ e ∙ u refl in
    ap
      (λ (ps : List ℕ). record {
        prevs = ps;
        nexts = set (set l.nexts idx (get_or l.nexts 0 0)) 0 idx;
      })
      (set-set_comm l.prevs 0 idx idx 0 (λ q. x0 (sym q))
        ∙ ap (λ (k : ℕ). set (set l.prevs idx 0) k idx) (sym head))
link_fresh-push l false idx h x0 ne e u =
    let first = get_or l.nexts 0 0 in
    let head : get_or (set l.nexts idx first) 0 0 ≡ first = get_or-set_head l.nexts idx first x0 in
    ap (λ (ps : List ℕ). record { prevs = ps; nexts = set (set l.nexts idx first) 0 idx })
      (set-set_comm l.prevs first idx idx 0 (λ q. ne (sym e ∙ q))
        ∙ ap (λ (k : ℕ). set (set l.prevs idx 0) k idx) (sym head))

-- the cache with a fresh slot
abbrev pub grown : Cache → ℕ → Slot → ℕ → Cache
grown c idx s b = record c {
  double_link = link_fresh c.double_link (length c.hash_map == 0) idx;
  m = set c.m (slot_index idx) s;
  hash_map = insert s.k idx c.hash_map;
  bytes = b;
  last = idx;
}

lookup-empty : (k : Bytes) (m : List (Bytes × ℕ)) → length m ≡ 0 → lookup k m ≡ none
unfolding lookup
lookup-empty k [] h = refl
lookup-empty k (x ∷ m) h = absurd (omega arith)

module _ (c : Cache) (order : List ℕ) (v : IsLru c order) (room : c.last ≢ length c.m) where
  fresh-NotIn : NotIn (suc c.last) order
  fresh-NotIn =
      NotIn-of_not-Has (suc c.last) order
        (λ h. absurd (omega (arith, below_of_Has (suc c.last) (suc c.last) order v.below h)))

  slot-grown_ne : (s : Slot) (b j : ℕ) → Has j order → slot (grown c (suc c.last) s b) j ≡ slot c j
  unfolding slot set_slot
  slot-grown_ne s b j h =
      let less = below_of_Has (suc c.last) j order v.below h in
      slot-set_ne c (suc c.last) j s (omega arith) (positive c order v j h)
        (omega (arith, v.room, v.small)) (omega (arith, less, v.room, v.small))
        (λ q. absurd (omega arith))

  slot-grown_self : (s : Slot) (b : ℕ) → slot (grown c (suc c.last) s b) (suc c.last) ≡ s
  unfolding slot set_slot
  slot-grown_self s b = slot-set_self c (suc c.last) s (omega arith) (omega (arith, v.room)) v.small

  grown-lookup :
      (s : Slot) (k : Bytes)
      → lookup k (insert s.k (suc c.last) c.hash_map)
        ≡ (if bytes_eq.same s.k k then some (suc c.last) else lookup k c.hash_map)
  grown-lookup s k = lookup-insert s.k k (suc c.last) c.hash_map

  grown-indexed :
      (s : Slot) (b : ℕ) (k : Bytes) (j : ℕ)
      → lookup k (insert s.k (suc c.last) c.hash_map) ≡ some j
      → Has j (suc c.last ∷ order) × ((slot (grown c (suc c.last) s b) j).k ≡ k)
  grown-indexed s b k j h = elim (Bool-cases (bytes_eq.same s.k k)) [
    | inl q ↦
        let e : suc c.last ≡ j = some-inj (sym (grown-lookup s k ∙ (rw q refl)) ∙ h) in
        (
          inl (sym e),
          ap (λ (n : ℕ). (slot (grown c (suc c.last) s b) n).k) (sym e)
              ∙ ap (λ (t : Slot). t.k) (slot-grown_self s b)
              ∙ (same_iff s.k k).0 q,
        )
    | inr q ↦
        let w : lookup k c.hash_map ≡ some j = sym (grown-lookup s k ∙ (rw q refl)) ∙ h in
        let old = v.indexed k j w in
        (inr old.0, ap (λ (t : Slot). t.k) (slot-grown_ne s b j old.0) ∙ old.1)
  ]

  grown-found :
      (s : Slot) (b j : ℕ)
      → lookup s.k c.hash_map ≡ none
      → Has j (suc c.last ∷ order)
      → lookup (slot (grown c (suc c.last) s b) j).k (insert s.k (suc c.last) c.hash_map) ≡ some j
  grown-found s b j new (inl e) =
      let index = insert s.k (suc c.last) c.hash_map in
      subst (λ n. lookup (slot (grown c (suc c.last) s b) n).k index ≡ some n) (sym e)
        (ap (λ (t : Slot). lookup t.k index) (slot-grown_self s b)
          ∙ grown-lookup s s.k
          ∙ (rw ((same_iff s.k s.k).1 refl) refl))
  grown-found s b j new (inr h) =
      let index = insert s.k (suc c.last) c.hash_map in
      let old = v.found j h in
      ap (λ (t : Slot). lookup t.k index) (slot-grown_ne s b j h)
      ∙ grown-lookup s (slot c j).k
      ∙ other-key (bytes_eq.same s.k (slot c j).k) (λ q.
        none-ne (sym new ∙ ap (λ k. lookup k c.hash_map) ((same_iff s.k (slot c j).k).0 q) ∙ old))
      ∙ old
    where
      other-key :
          (t : Bool)
          → (t ≡ true → ⊥)
          → (if t then some (suc c.last) else lookup (slot c j).k c.hash_map)
            ≡ lookup (slot c j).k c.hash_map
      other-key true no_way = absurd (no_way refl)
      other-key false no_way = refl

  first-ne : (js : List ℕ) → AllBelow (suc c.last) js → first_of js 0 ≢ suc c.last
  first-ne [] b q = absurd (omega arith)
  first-ne (j ∷ js) b q = absurd (omega (arith, b.0, q))

  none_used-first :
      (js : List ℕ)
      → ((j : ℕ) → Has j js → Has j order)
      → (length c.hash_map == 0) ≡ true
      → first_of js 0 ≡ 0
  none_used-first [] sub u = refl
  none_used-first (j ∷ js) sub u = absurd (
      none-ne (
        sym (lookup-empty (slot c j).k c.hash_map ((==_iff (length c.hash_map) 0).0 u))
        ∙ v.found j (sub j (inl refl))))

  grown-links :
      IsSized (link_fresh c.double_link (length c.hash_map == 0) (suc c.last)) (suc (length c.m))
      × Chain
          (link_fresh c.double_link (length c.hash_map == 0) (suc c.last))
          next
          prev
          0
          (suc c.last ∷ order)
          0
  grown-links =
      let n = suc (length c.m) in
      let fresh = suc c.last in
      let apart : next ≢ prev = λ q. cc in
      let none_used = length c.hash_map == 0 in
      let same : link_fresh c.double_link none_used fresh ≡ push c.double_link fresh prev next =
        link_fresh-push c.double_link none_used fresh (first_of order 0) (λ q. absurd (omega arith))
          (first-ne order v.below) (Chain-first c.double_link next prev apart 0 order 0 v.linked)
          (none_used-first order (λ x h. h)) in
      let inside = AllBelow-weaken (suc c.last) n order (omega (arith, v.room)) v.below in
      subst (λ l. IsSized l n × Chain l next prev 0 (fresh ∷ order) 0) (sym same)
        (
          push-IsSized c.double_link fresh prev next n v.sized,
          push-Chain c.double_link next prev apart n v.sized fresh order (omega arith)
              (omega (arith, v.room)) inside
              ((λ q. absurd (omega arith), v.distinct.0), (fresh-NotIn, v.distinct.1)) v.linked,
        )

  pub grown-IsLru :
      (s : Slot) (b : ℕ)
      → lookup s.k c.hash_map ≡ none
      → IsLru (grown c (suc c.last) s b) (suc c.last ∷ order)
  grown-IsLru s b new = record {
    sized = (
      grown-links.0.0 ∙ ap suc (sym (length-set c.m (slot_index (suc c.last)) s)),
      grown-links.0.1 ∙ ap suc (sym (length-set c.m (slot_index (suc c.last)) s)),
    );
    small = omega (arith, v.small, length-set c.m (slot_index (suc c.last)) s);
    linked = grown-links.1;
    distinct = ((λ q. absurd (omega arith), v.distinct.0), (fresh-NotIn, v.distinct.1));
    below =
        (omega arith, AllBelow-weaken (suc c.last) (suc (suc c.last)) order (omega arith) v.below);
    used = omega (arith, v.used);
    room = omega (arith, v.room, length-set c.m (slot_index (suc c.last)) s);
    indexed = grown-indexed s b;
    found = λ j h. grown-found s b j new h;
  }

  pub grown-slots :
      (s : Slot) (b : ℕ) (js : List ℕ)
      → ((j : ℕ) → Has j js → Has j order)
      → slots (grown c (suc c.last) s b) (suc c.last ∷ js) ≡ s ∷ slots c js
  grown-slots s b js sub =
      ap (λ (t : Slot). t ∷ slots (grown c (suc c.last) s b) js) (slot-grown_self s b)
      ∙ ap (◌∷◌ s) (others js sub)
    where
      others :
          (ks : List ℕ)
          → ((j : ℕ) → Has j ks → Has j order)
          → slots (grown c (suc c.last) s b) ks ≡ slots c ks
      others [] h = refl
      others (k ∷ ks) h =
          ap (λ (t : Slot). t ∷ slots (grown c (suc c.last) s b) ks)
            (slot-grown_ne s b k (h k (inl refl)))
          ∙ ap (◌∷◌ (slot c k)) (others ks (λ j g. h j (inr g)))
