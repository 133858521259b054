-- ===== src/Hash/Parting.antt =====
-- migrateOut of apps/consistent_hash/migration.go hands on the keys of a virtual node that goes.
use swifty_go.Prelude.{
  ℕ, ◌≡◌, ◌≢◌, ◌<◌, ◌⊎◌, ◌↔◌, inl, inr, refl, sym, ap, subst, ◌∙◌, arith, Bool, true, false, not,
  ◌&&◌, ◌||◌, some, List, [], ◌∷◌, if◌then◌else◌, ltb-cases, leb_int32, sub32, add32, Bytes,
  bytes_eq,
}
use swifty_go.Hash.{HashRing, Options, Move, max_int32, lt_int32, in_range}
use swifty_go.Hash.Arc.{Next}
use swifty_go.Hash.Range.{InArc, in_range-plain, in_range-one, in_range_iff, lt_int32_small}
use swifty_go.Hash.Contract.{IsHashRing, has_key}
use swifty_go.Hash.Owned.{Keeps}
use swifty_go.Hash.Migrate.{and-true, or-true, HasMoved, move_keys-HasMoved, moved-Keeps}
use swifty_go.Hash.Passing.{OtherOwner}
use swifty_go.Hash.Leaving.{nat-cases, IsParting, IsSafe, IsReady, kept_elsewhere}
use swifty_go.Hash.Removal.{out_range, finish}

-- the test of migrateOut is that of migrateIn where the ring does not wrap around after the score
out_range-plain :
    (last cur s : ℕ)
    → lt_int32 cur last ≡ false
    → out_range last cur s ≡ not (leb_int32 s last || lt_int32 cur s)
unfolding out_range
out_range-plain last cur s p = rw (p, out_range) refl

out_range-one :
    (last cur s : ℕ)
    → lt_int32 cur last ≡ true
    → out_range last cur s ≡ (
        let l = sub32 last max_int32 in
        let x = if lt_int32 (add32 l max_int32) s then sub32 s max_int32 else s in
        not (leb_int32 x l || lt_int32 cur x))
unfolding out_range
out_range-one last cur s p = rw (p, out_range) refl

pub out_range_iff :
    (last cur s : ℕ)
    → last < max_int32
    → cur < max_int32
    → s < max_int32
    → (out_range last cur s ≡ true) ↔ InArc last cur s
out_range_iff last cur s hl hc hs =
    let same : lt_int32 cur cur ≡ false = lt_int32_small cur cur hc hc ∙ ground arith in
    elim (ltb-cases cur last) [
      | inl (p, lt) ↦
          let at = lt_int32_small cur last hc hl ∙ p in
          let e : out_range last cur s ≡ in_range last cur cur s =
            out_range-one last cur s at ∙ sym (in_range-one last cur cur s at same) in
          rw e (in_range_iff last cur cur s hl hc hc hs (λ z. omega arith))
      | inr (p, le) ↦
          let at = lt_int32_small cur last hc hl ∙ p in
          let e : out_range last cur s ≡ in_range last cur cur s =
            out_range-plain last cur s at ∙ sym (in_range-plain last cur cur s at same) in
          rw e (in_range_iff last cur cur s hl hc hc hs (λ z. omega arith))
    ]

module _ {W : Type 0} (r : HashRing W) (IsValid : W → Type 0) (at : W → ℕ → List Bytes)
    (recorded : W → Bytes → Bytes → Bool) (h : IsHashRing r IsValid at recorded)
    (encrypt : Bytes → ℕ) (small : (k : Bytes) → encrypt k < max_int32) (o : Options) (node : Bytes)
    (w : W) (valid : IsValid w) (cur : ℕ) (key : Bytes)
    (parting : IsParting r IsValid at recorded h encrypt small node w) where
  abbrev pub Safe : Bytes → Type 0
  Safe k = IsSafe r IsValid at recorded h encrypt small node w valid cur key k

  abbrev pub Cur : Bytes → Type 0
  Cur k = Next (λ j. at w j ≢ []) (encrypt k) cur

  -- what migrateOut does, where it ends well
  pub record HasParted (w₁ : W) : Type 0 where
    pub parted_valid : IsValid w₁
    pub parted_at : (j : ℕ) → at w₁ j ≡ at w j
    pub ready : IsReady r IsValid at recorded h encrypt small node w valid cur key w₁
    pub parted_keeps : Keeps r IsValid at recorded h encrypt w w₁

  -- where a key of the score goes
  abbrev pub Target : Bytes → Bytes → Type 0
  Target to k = ((to ≢ node) × OtherOwner at encrypt node w k to) ⊎ ((to ≡ node) × Safe k)

  -- the set has the keys of the score, and each goes where it belongs
  pub moved-HasParted :
      (w₁ : W) (to : Bytes) (ks : List Bytes)
      → HasMoved r IsValid at recorded h encrypt small o w w₁ node to ks
      → ((k : Bytes) → recorded w node k ≡ true → Cur k → has_key k ks ≡ true)
      → ((k : Bytes) → has_key k ks ≡ true → Target to k)
      → HasParted w₁
  moved-HasParted w₁ to ks f all target = record {
    parted_valid = f.moved_valid;
    parted_at = f.moved_at;
    parted_keeps = moved-Keeps r IsValid at recorded h encrypt small o w w₁ node to ks f;
    ready = λ n k e.
        let out = bytes_eq.same node n && has_key k ks in
        elim (or-true (recorded w n k && not out) (bytes_eq.same to n && has_key k ks)
          (sym (f.moved_recorded n k) ∙ e)) [
            | inr new ↦
                let (same, set) = and-true (bytes_eq.same to n) (has_key k ks) new in
                let is : to ≡ n = (bytes_eq.same_iff to n).0 same in
                subst (λ m. ((m ≢ node) × OtherOwner at encrypt node w k m) ⊎ ((m ≡ node) × Safe k))
                  is (target k set)
            | inl old ↦
                let (before, kept) = and-true (recorded w n k) (not out) old in
                elim (parting n k before) [
                  | inl other ↦ inl other
                  | inr (self, (q, (next, heads))) ↦ elim (nat-cases q cur) [
                    | inr ne ↦ inr (
                      self,
                      kept_elsewhere r IsValid at recorded h encrypt small node w valid cur key k q
                          next heads ne,
                    )
                    | inl same ↦
                        let at_cur : Cur k =
                          subst (Next (λ j. at w j ≢ []) (encrypt k)) same next in
                        let here = all k (subst (λ m. recorded w m k ≡ true) self before) at_cur in
                        let gone : out ≡ true =
                          rw ((bytes_eq.same_iff node n).1 (sym self), here) refl in
                        absurd (cc (sym kept ∙ ap not gone))
                  ]
                ]
          ];
  }

  unmoved : HasMoved r IsValid at recorded h encrypt small o w w node [] []
  unmoved = record {
    moved_valid = valid;
    moved_at = λ j. refl;
    moved_recorded = λ n k. ground arith;
  }

  -- nothing moves where no key of the node has the score
  pub none-HasParted : ((k : Bytes) → recorded w node k ≡ true → ¬ Cur k) → HasParted w
  none-HasParted never =
      moved-HasParted w [] [] unmoved (λ k e c. absurd (never k e c)) (λ k e. absurd (cc e))

  pub finish-HasMoved :
      (to : Bytes) (ks : List Bytes) (m : Move)
      → to ≢ []
      → (finish r encrypt o w node to ks).1 ≡ some m
      → HasMoved r IsValid at recorded h encrypt small o w
          (finish r encrypt o w node to ks).0
          node
          to
          ks
  finish-HasMoved [] ks m ne e = absurd (ne refl)
  finish-HasMoved (x ∷ to) [] m ne e = record {
    moved_valid = valid;
    moved_at = λ j. refl;
    moved_recorded = λ n k. ground arith;
  }
  finish-HasMoved (x ∷ to) (k ∷ ks) m ne e =
      move_keys-HasMoved r IsValid at recorded h encrypt small o w node (x ∷ to) (k ∷ ks) m valid e
