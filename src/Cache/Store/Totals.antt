-- ===== src/Cache/Store/Totals.antt =====
-- Len, Walk, Bytes, Evictions and Clear over the buckets of the store of swifty_cache/lru.go. Each
-- bucket is locked by itself: these are the results where nothing comes between two buckets.
use swifty_go.Prelude.{
  ℕ, Option, none, some, List, [], ◌∷◌, ◌++◌, length, if◌then◌else◌, add64, Bytes,
}
use swifty_go.Cache.Lru.{Value, Slot, walk}
use swifty_go.Cache.Store.{Bucket, Event, has_bytes, live_keys, clear_bucket}

unfoldable pub count : List Bucket → ℕ
count [] = 0
count (b ∷ bs) = add64 (length (live_keys b)) (count bs)

-- what Walk shows of an element
pub record Entry : Type 0 where
  pub key : Bytes
  pub size : ℕ
  pub expire_at : ℕ
  pub level : ℕ

-- the size of a value; Len of a nil value, a panic in the source, is 0
abbrev size_of : Option Value → ℕ
size_of none = 0
size_of (some v) = v.len

abbrev entry_of : ℕ → Slot → Entry
entry_of level s = record { key = s.k; size = size_of s.v; expire_at = s.expire_at; level = level }

unfoldable pub level2_entries : List Slot → List Entry
level2_entries [] = []
level2_entries (s ∷ ss) = entry_of 1 s ∷ level2_entries ss

abbrev keys_of : List Slot → List Bytes
keys_of [] = []
keys_of (s ∷ ss) = s.k ∷ keys_of ss

unfoldable pub level1_entries : List Bytes → List Slot → List Entry
level1_entries seen [] = []
level1_entries seen (s ∷ ss) =
    let rest = level1_entries seen ss in if has_bytes s.k seen then rest else entry_of 0 s ∷ rest

-- the entries of a bucket, for a function that never stops the walk
unfoldable pub bucket_entries : Bucket → List Entry
bucket_entries b =
    level2_entries (walk b.level2) ++ level1_entries (keys_of (walk b.level2)) (walk b.level1)

unfoldable pub entries : List Bucket → List Entry
entries [] = []
entries (b ∷ bs) = bucket_entries b ++ entries bs

unfoldable pub bytes : List Bucket → ℕ
bytes [] = 0
bytes (b ∷ bs) = add64 (add64 b.level1.bytes b.level2.bytes) (bytes bs)

unfoldable pub evictions : List Bucket → ℕ
evictions [] = 0
evictions (b ∷ bs) = add64 (add64 b.level1.nevict b.level2.nevict) (evictions bs)

unfoldable pub clear : List Bucket → List Bucket × List Event
clear [] = ([], [])
clear (b ∷ bs) =
    let rest = clear bs in let done = clear_bucket b in (done.0 ∷ rest.0, done.1 ++ rest.1)
