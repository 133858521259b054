-- ===== src/Cache/Lru/Walk.antt =====
-- walk and evictOldest of swifty_cache/lru.go, and a new cache.
use swifty_go.Prelude.{
  ℕ, suc, zero, ◌+◌, ◌%◌, ◌≡◌, ◌<◌, refl, sym, ap, ◌∙◌, arith, List, [], ◌∷◌, length,
  length-replicate, get_or, replicate, lookup,
}
use swifty_go.Cache.Lru.{no_slot, prev, next, link, Cache, create, walk_from, walk}
use swifty_go.Cache.Lru.Chain.{NotIn, Chain, Chain-first, first_of}
use swifty_go.Cache.Lru.Spec.{live}
use swifty_go.Cache.Lru.Valid.{IsLru, slots}

walk_from-live :
    (fuel : ℕ) (c : Cache) (a : ℕ) (xs : List ℕ)
    → length xs < fuel
    → NotIn 0 xs
    → Chain c.double_link next prev a xs 0
    → walk_from fuel c (first_of xs 0) ≡ live (slots c xs)
unfolding walk_from
walk_from-live zero c a xs h out chain = absurd (omega arith)
walk_from-live (suc fuel) c a [] h out chain = refl
walk_from-live (suc fuel) c a (x ∷ xs) h out chain =
    let rest = walk_from-live fuel c x xs (omega arith) out.1 chain.2 in
    let on = Chain-first c.double_link next prev (λ q. cc) x xs 0 chain.2 in
    ground (arith, rest, on, out.0)

-- walk visits the live slots of a well-formed cache in their order of use, and ends: its steps are
-- bounded by the number of slots.
pub walk-live : (c : Cache) (order : List ℕ) → IsLru c order → walk c ≡ live (slots c order)
unfolding walk
walk-live c order v =
    ap (walk_from (suc (length c.m)) c)
      (Chain-first c.double_link next prev (λ q. cc) 0 order 0 v.linked)
    ∙ walk_from-live (suc (length c.m)) c 0 order (omega (arith, v.used, v.room)) v.distinct.0
        v.linked

get_or-replicate : (n i : ℕ) → ◌≡◌ {A = ℕ} (get_or (replicate n 0) i 0) 0
get_or-replicate zero i = refl
get_or-replicate (suc n) zero = refl
get_or-replicate (suc n) (suc i) = get_or-replicate n i

-- A new cache of fewer than 65535 slots is well formed, and none of its slots is used.
pub create-IsLru : (cap : ℕ) → cap < 65535 → IsLru (create cap) []
unfolding create link lookup
create-IsLru cap h =
    let elements : (cap + 1) % 65536 ≡ suc cap = omega arith in
    record {
      sized = (
        length-replicate ((cap + 1) % 65536) 0
            ∙ elements
            ∙ ap suc (sym (length-replicate cap no_slot)),
        length-replicate ((cap + 1) % 65536) 0
            ∙ elements
            ∙ ap suc (sym (length-replicate cap no_slot)),
      );
      small = omega (arith, length-replicate cap no_slot);
      linked = (get_or-replicate ((cap + 1) % 65536) 0, get_or-replicate ((cap + 1) % 65536) 0);
      distinct = (tt, tt);
      below = tt;
      used = refl;
      room = omega arith;
      indexed = λ key i e. absurd (cc e);
      found = λ i e. absurd e;
    }
