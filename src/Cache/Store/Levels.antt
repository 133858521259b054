-- ===== src/Cache/Store/Levels.antt =====
-- What put leaves in front, and Get of a key of the first level, in swifty_cache/lru.go.
use swifty_go.Prelude.{
  ℕ, ◌≡◌, ◌<◌, refl, sym, ap, ◌∙◌, Option, none, some, true, false, List, [], ◌∷◌, length, inl,
  get_or, Bytes, bytes_eq, lookup,
}
use swifty_go.Cache.Lru.{Value, Slot, no_slot, Cache, slot, is_live, put}
use swifty_go.Cache.Lru.Refine.{put_refines}
use swifty_go.Cache.Lru.Spec.{put_spec}
use swifty_go.Cache.Lru.Bury.{del-live}
use swifty_go.Cache.Lru.Valid.{IsLru, slots}
use swifty_go.Cache.Store.{Bucket, le_int64, get_bucket, promote}

-- the slot in front after a put
pub put-head :
    (c : Cache) (order : List ℕ) (key : Bytes) (val : Option Value) (e : ℕ)
    → IsLru c order
    → 0 < length c.m
    → (i : ℕ) × (lookup key (put c key val e).0.hash_map ≡ some i)
      × (slot (put c key val e).0 i ≡ record { k = key; v = val; expire_at = e })
put-head c order key val e v h =
    let done = put_refines c order key val e v h in head_of done.0 done.1 done.2
  where
    head_of :
        (order' : List ℕ)
        → IsLru (put c key val e).0 order'
        → slots (put c key val e).0 order' ≡ put_spec (length c.m) key val e (slots c order)
        → (i : ℕ) × (lookup key (put c key val e).0.hash_map ≡ some i)
          × (slot (put c key val e).0 i ≡ record { k = key; v = val; expire_at = e })
    head_of [] w q = absurd (cc q)
    head_of (i ∷ is) w q =
        let here : slot (put c key val e).0 i ≡ record { k = key; v = val; expire_at = e } =
          ap (λ ss. get_or ss 0 no_slot) q in
        (
          i,
          ap (λ (t : Slot). lookup t.k (put c key val e).0.hash_map) (sym here)
              ∙ w.found i (inl refl),
          here,
        )

-- Get where the key is live in the first level
pub get-promotes :
    (b : Bucket) (key : Bytes) (now i : ℕ)
    → lookup key b.level1.hash_map ≡ some i
    → is_live (slot b.level1 i).expire_at ≡ true
    → le_int64 (slot b.level1 i).expire_at now ≡ false
    → (get_bucket b key now).1 ≡ some (slot b.level1 i).v
unfolding get_bucket promote
get-promotes b key now i h alive fresh =
    let found = del-live b.level1 key i h alive in rw (found, get_bucket, promote, fresh) refl

pub get-expires :
    (b : Bucket) (key : Bytes) (now i : ℕ)
    → lookup key b.level1.hash_map ≡ some i
    → is_live (slot b.level1 i).expire_at ≡ true
    → le_int64 (slot b.level1 i).expire_at now ≡ true
    → (get_bucket b key now).1 ≡ none
unfolding get_bucket promote
get-expires b key now i h alive late =
    let found = del-live b.level1 key i h alive in rw (found, get_bucket, promote, late) refl
