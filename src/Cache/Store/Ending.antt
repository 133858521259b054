-- ===== src/Cache/Store/Ending.antt =====
-- The eviction loop of SetWithExpiration in swifty_cache/lru.go ends by itself.
use swifty_go.Prelude.{
  ℕ, suc, ◌+◌, ◌≡◌, ◌⊎◌, false, none, List, [], ◌∷◌, add64, if◌then◌else◌, bytes_eq,
}
use swifty_go.Cache.Lru.{Slot, Cache, is_live, evict_oldest}
use swifty_go.Cache.Store.{Bucket, lt_int64}

-- how many slots are live
live_count : List Slot → ℕ
live_count [] = 0
live_count (s ∷ ss) = let rest = live_count ss in if is_live s.expire_at then suc rest else rest

abbrev live_slots : Bucket → ℕ
live_slots b = live_count b.level1.m + live_count b.level2.m

-- the loop's own exits: the bucket is within its budget, or no entry is left to evict
abbrev pub Stops : ℕ → Bucket → Type 0
Stops budget b =
    (lt_int64 budget (add64 b.level1.bytes b.level2.bytes) ≡ false)
    ⊎ (((evict_oldest b.level1).1 ≡ none) × ((evict_oldest b.level2).1 ≡ none))
