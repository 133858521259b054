-- ===== src/Cache/Tests.antt =====
-- Runs of the store of swifty_cache/lru.go on concrete inputs.
use swifty_go.Prelude.{
  ◌≡◌, refl, arith, delete, inl, inr, true, Option, none, some, [], ◌∷◌, lookup, insert, Bytes,
  bytes_eq,
}
use swifty_go.Cache.Lru.{
  Value, no_slot, link, relink, Cache, create, slot, is_live, entry_bytes, put, put_fresh,
  link_fresh, set_slot, del, walk, peek, evict_oldest, oldest_live, put_known, drop_key, bury,
  release, adjust, adjust_cache, push, unlink,
}
use swifty_go.Cache.Lru.Fresh.{same_iff}
use swifty_go.Cache.Lru.Valid.{IsLru, slots}
use swifty_go.Cache.Lru.Spec.{put_spec, del_spec, live_slot, live}
use swifty_go.Cache.Lru.Refine.{Refines, put_refines}
use swifty_go.Cache.Lru.Bury.{returned, del_refines}
use swifty_go.Cache.Lru.Walk.{walk-live, create-IsLru}
use swifty_go.Cache.Store.{
  StoreOptions, Bucket, new_store, get_bucket, get_level2, promote, evict_loop, evict_from_bucket,
  set_levels, set_bucket, expire_time,
}
use swifty_go.Cache.Store.Mask.{buckets_of, new_store-no_buckets}

abbrev key_a : Bytes
key_a = 97 ∷ []

abbrev key_b : Bytes
key_b = 98 ∷ []

abbrev value_1 : Option Value
value_1 = some (record { ident = 1; len = 10 })

abbrev value_2 : Option Value
value_2 = some (record { ident = 2; len = 20 })

-- a level of two slots, with one key
abbrev one_key : Cache
one_key = record {
  double_link = record { prevs = 1 ∷ 0 ∷ 0 ∷ []; nexts = 1 ∷ 0 ∷ 0 ∷ [] };
  m = record { k = key_a; v = value_1; expire_at = 50 } ∷ no_slot ∷ [];
  hash_map = (key_a, 1) ∷ [];
  bytes = 11;
  nevict = 0;
  last = 1;
}

one_key-put : (put (create 2) key_a value_1 50).0 ≡ one_key
unfolding put create put_fresh link_fresh link relink set_slot lookup insert entry_bytes
one_key-put = refl

one_key-IsLru : IsLru one_key (1 ∷ [])
unfolding link slot lookup
one_key-IsLru = record {
  sized = (refl, refl);
  small = omega arith;
  linked = (refl, refl, (refl, refl));
  distinct = (((λ e. omega (arith, e)), tt), (tt, tt));
  below = (omega arith, tt);
  used = refl;
  room = omega arith;
  indexed = λ key i e. ground (arith, same_iff key_a key);
  found = λ i h. elim h [ inl e ↦ rw e refl | inr f ↦ absurd f ];
}

put_refines_example :
    Refines (put one_key key_b value_2 60).0 (put_spec 2 key_b value_2 60 (slots one_key (1 ∷ [])))
put_refines_example = put_refines one_key (1 ∷ []) key_b value_2 60 one_key-IsLru (omega arith)

del_refines_example :
    Refines (del one_key key_a).0 (del_spec key_a (slots one_key (1 ∷ [])))
    × (returned (del one_key key_a).1 ≡ live_slot key_a (slots one_key (1 ∷ [])))
del_refines_example = del_refines one_key (1 ∷ []) key_a one_key-IsLru

walk-live_example : walk one_key ≡ live (slots one_key (1 ∷ []))
walk-live_example = walk-live one_key (1 ∷ []) one_key-IsLru

new_level-IsLru : IsLru (create 512) []
new_level-IsLru = create-IsLru 512 (omega arith)

abbrev many_buckets : StoreOptions
many_buckets = record { max_bytes = 0; bucket_count = 40000; cap_per_bucket = 8; level2_cap = 8 }

new_store-no_buckets_example :
    (is_live many_buckets.max_bytes ≡ true → new_store many_buckets true ≡ none)
    × (many_buckets.max_bytes ≡ 0 → buckets_of (new_store many_buckets true) ≡ some [])
new_store-no_buckets_example = new_store-no_buckets many_buckets true (omega arith) (omega arith)

abbrev two_levels : Bucket
two_levels = record { level1 = one_key; level2 = one_key }

-- a Set over the budget evicts the new value too
set_over_budget :
    ((set_bucket 1 two_levels key_b value_2 10 50).1
      ≡ (key_a, value_1) ∷ (key_b, value_2) ∷ (key_a, value_1) ∷ [])
    × ((get_bucket (set_bucket 1 two_levels key_b value_2 10 50).0 key_b 55).1 ≡ none)
unfolding get_bucket get_level2 promote peek del lookup delete set_bucket evict_loop
    evict_from_bucket evict_oldest oldest_live set_levels put put_fresh put_known link_fresh link
    relink entry_bytes drop_key bury release adjust adjust_cache push unlink insert slot set_slot
    expire_time
set_over_budget = (refl, refl)

set_within_budget :
    ((set_bucket 40 two_levels key_b value_2 10 50).1 ≡ (key_a, value_1) ∷ [])
    × ((get_bucket (set_bucket 40 two_levels key_b value_2 10 50).0 key_b 55).1 ≡ some value_2)
unfolding get_bucket get_level2 promote peek del lookup delete set_bucket evict_loop
    evict_from_bucket evict_oldest oldest_live set_levels put put_fresh put_known link_fresh link
    relink entry_bytes drop_key bury release adjust adjust_cache push unlink insert slot set_slot
    expire_time
set_within_budget = (refl, refl)
