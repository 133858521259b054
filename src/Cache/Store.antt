-- ===== src/Cache/Store.antt =====
-- The store of swifty_cache/lru.go, `lruStore`: buckets of two levels each. A method holds the lock of
-- a bucket while it works on it, so that is one step; the clock's value is an argument. The calls of
-- onEvicted are returned; where it is nil, which is `notifies` with value false, none is made.
pub mod Ending
pub mod Absent
pub mod Evict
pub mod Rounds
pub mod Levels
pub mod Sets
pub mod Mask
pub mod Totals
use Prim.Native.Nat.{bit_and, bit_or}
use swifty_go.Prelude.{
  ℕ, suc, zero, ◌+◌, ◌-◌, ◌*◌, ◌/◌, ◌%◌, ◌^◌, Bool, true, false, Option, none, some, List, [], ◌∷◌,
  ◌++◌, ◌&&◌, ◌||◌, not, if◌then◌else◌, length, get_or, set, replicate, map, ltb, leb, ◌==◌, add64,
  half64, word64, word32, Bytes, bytes_eq,
}
use swifty_go.Cache.Lru.{
  Value, Slot, prev, next, Cache, create, is_live, slot, adjust_cache, put, peek, del, drop_key,
  release, evict_oldest, walk,
}

-- caches[i]
pub record Bucket : Type 0 where
  pub level1 : Cache
  pub level2 : Cache

pub record Store : Type 0 where
  pub caches : List Bucket
  pub notifies : Bool
  pub max_bucket_bytes : ℕ
  pub mask : ℕ

abbrev pub Event : Type 0
Event = Bytes × Option Value

-- a <= b and a < b in int64
abbrev pub le_int64 : ℕ → ℕ → Bool
le_int64 a b = leb ((a + half64) % word64) ((b + half64) % word64)

abbrev pub lt_int64 : ℕ → ℕ → Bool
lt_int64 a b = ltb ((a + half64) % word64) ((b + half64) % word64)

-- the hash of a key, in int32
unfoldable pub hash_from : ℕ → Bytes → ℕ
hash_from hash [] = hash
hash_from hash (x ∷ xs) = hash_from ((hash * 131 + x) % word32) xs

unfoldable pub hash_bkrd : Bytes → ℕ
unfolding hash_from
hash_bkrd s = hash_from 0 s

unfoldable pub mask_of_next_pow_of2 : ℕ → ℕ
mask_of_next_pow_of2 cap =
    if ltb 0 cap && bit_and cap (cap - 1) == 0
    then cap - 1
    else let a = bit_or cap (cap / 2) in
      let b = bit_or a (a / 4) in let c = bit_or b (b / 16) in bit_or c (c / 256)

pub record StoreOptions : Type 0 where
  pub max_bytes : ℕ
  pub bucket_count : ℕ
  pub cap_per_bucket : ℕ
  pub level2_cap : ℕ

abbrev or_default : ℕ → ℕ → ℕ
or_default n d = if n == 0 then d else n

-- NewStore without its ticker; `none` is the panic of a division by 0. The number of buckets,
-- mask + 1, is in uint16.
unfoldable pub new_store : StoreOptions → Bool → Option Store
new_store opts notifies =
    let mask = mask_of_next_pow_of2 (or_default opts.bucket_count 16) in
    let count = (mask + 1) % 65536 in
    let budget = if ltb 0 (opts.max_bytes / count) then opts.max_bytes / count else 1 in
    let buckets : List Bucket = replicate count (record {
      level1 = create (or_default opts.cap_per_bucket 512);
      level2 = create (or_default opts.level2_cap 256);
    }) in
    let made : ℕ → Store =
      λ b. record { caches = buckets; notifies = notifies; max_bucket_bytes = b; mask = mask } in
    if is_live opts.max_bytes
    then (if count == 0 then none else some (made budget))
    else some (made 0)

unfoldable pub bucket_index : Store → Bytes → ℕ
bucket_index s key = bit_and (hash_bkrd key) s.mask

-- Get on the bucket of the key: the value, and the calls of onEvicted
unfoldable pub get_level2 : Bucket → Bytes → ℕ → Bucket × Option (Option Value) × List Event
get_level2 b key now = elim (peek b.level2 key) [
  | none ↦ (b, none, [])
  | some (n2, idx2) ↦
      if is_live n2.expire_at
      then if le_int64 n2.expire_at now
        then (record b { level2 = drop_key b.level2 key }, none, (key, n2.v) ∷ [])
        else (record b { level2 = adjust_cache b.level2 idx2 prev next }, some n2.v, [])
      else (b, none, [])
]

unfoldable pub promote :
    Bucket → Cache → ℕ → Slot → Bytes → ℕ → Bucket × Option (Option Value) × List Event
promote b level1 idx n1 key now =
    let b' = record b { level1 = release level1 idx } in
    if le_int64 n1.expire_at now
    then (record b' { level2 = drop_key b.level2 key }, none, (key, n1.v) ∷ [])
    else (
      record b' { level2 = (put b.level2 key n1.v n1.expire_at).0 },
      some n1.v,
      (put b.level2 key n1.v n1.expire_at).1,
    )

unfoldable pub get_bucket : Bucket → Bytes → ℕ → Bucket × Option (Option Value) × List Event
get_bucket b key now = elim ((del b.level1 key).1) [
  | some (idx, n1) ↦ promote b (del b.level1 key).0 idx n1 key now
  | none ↦ get_level2 (record b { level1 = (del b.level1 key).0 }) key now
]

abbrev pub max_expire_at : ℕ
max_expire_at = 9223372036854775807

unfoldable pub expire_time : ℕ → ℕ → ℕ
expire_time expiration now = if is_live expiration then add64 now expiration else max_expire_at

unfoldable pub evict_from_bucket : Bucket → Bucket × Option Event
evict_from_bucket b = elim ((evict_oldest b.level1).1) [
  | some e ↦ (record b { level1 = (evict_oldest b.level1).0 }, some e)
  | none ↦ (record b { level2 = (evict_oldest b.level2).0 }, (evict_oldest b.level2).1)
]

-- the loop of SetWithExpiration: it evicts while the bucket is over its budget
unfoldable pub evict_loop : ℕ → ℕ → Bucket → Bucket × List Event
evict_loop zero budget b = (b, [])
evict_loop (suc fuel) budget b = elim (lt_int64 budget (add64 b.level1.bytes b.level2.bytes)) [
  | false ↦ (b, [])
  | true ↦ elim ((evict_from_bucket b).1) [
    | none ↦ ((evict_from_bucket b).0, [])
    | some e ↦ let rest = evict_loop fuel budget (evict_from_bucket b).0 in (rest.0, e ∷ rest.1)
  ]
]

-- the put of SetWithExpiration, and the drop of a stale copy
unfoldable pub set_levels : Bucket → Bytes → Option Value → ℕ → Bucket × List Event
set_levels b key value expire_at =
    let done = put b.level1 key value expire_at in
    (record { level1 = done.0; level2 = drop_key b.level2 key }, done.1)

unfoldable pub set_bucket : ℕ → Bucket → Bytes → Option Value → ℕ → ℕ → Bucket × List Event
set_bucket budget b key value expiration now =
    let b' = (set_levels b key value (expire_time expiration now)).0 in
    let events = (set_levels b key value (expire_time expiration now)).1 in
    let evicted = evict_loop (suc (length b.level1.m + length b.level2.m)) budget b' in
    if is_live budget then (evicted.0, events ++ evicted.1) else (b', events)

abbrev pub release_found : Cache → Option (ℕ × Slot) → Cache
release_found c none = c
release_found c (some (idx, nd)) = release c idx

-- which value `delete` reports
unfoldable pub deleted_value : Option (ℕ × Slot) → Option (ℕ × Slot) → Option (Option Value)
deleted_value (some (i, n1)) r2 = elim n1.v [
  | some v ↦ some (some v)
  | none ↦ elim r2 [
    | some (j, n2) ↦ elim n2.v [ some v ↦ some (some v) | none ↦ none ]
    | none ↦ none
  ]
]
deleted_value none (some (j, n2)) = elim n2.v [ some v ↦ some (some v) | none ↦ none ]
deleted_value none none = none

unfoldable pub delete_bucket : Bucket → Bytes → Bucket × Bool × List Event
delete_bucket b key =
    let r1 = del b.level1 key in
    let r2 = del b.level2 key in
    let b' : Bucket = record {
      level1 = release_found r1.0 r1.1;
      level2 = release_found r2.0 r2.1;
    } in
    let found : Bool = elim r1.1 [
      | some _ ↦ true
      | none ↦ elim r2.1 [ some _ ↦ true | none ↦ false ]
    ] in
    (b', found, elim (deleted_value r1.1 r2.1) [ some v ↦ (key, v) ∷ [] | none ↦ [] ])

-- the keys of the live slots, each once
unfoldable pub has_bytes : Bytes → List Bytes → Bool
has_bytes k [] = false
has_bytes k (j ∷ js) = bytes_eq.same j k || has_bytes k js

unfoldable pub add_keys : List Slot → List Bytes → List Bytes
unfolding has_bytes
add_keys [] seen = seen
add_keys (s ∷ ss) seen = add_keys ss (if has_bytes s.k seen then seen else seen ++ (s.k ∷ []))

unfoldable pub live_keys : Bucket → List Bytes
live_keys b = add_keys (walk b.level2) (add_keys (walk b.level1) [])

unfoldable pub delete_all : Bucket → List Bytes → Bucket × List Event
delete_all b [] = (b, [])
delete_all b (k ∷ ks) =
    let rest = delete_all (delete_bucket b k).0 ks in (rest.0, (delete_bucket b k).2 ++ rest.1)

unfoldable pub clear_bucket : Bucket → Bucket × List Event
clear_bucket b = delete_all b (live_keys b)

-- the slots that a round of cleanupLoop finds expired
unfoldable pub expired : ℕ → List Slot → List Slot
expired now [] = []
expired now (s ∷ ss) =
    let rest = expired now ss in if le_int64 s.expire_at now then s ∷ rest else rest

unfoldable pub cleanup_bucket : Bucket → ℕ → Bucket × List Event
cleanup_bucket b now =
    delete_all b
      (add_keys (expired now (walk b.level2)) (add_keys (expired now (walk b.level1)) []))
