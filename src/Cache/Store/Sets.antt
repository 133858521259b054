-- ===== src/Cache/Store/Sets.antt =====
-- A Set of swifty_cache/lru.go with its eviction loop, and the Get that follows it.
use swifty_go.Prelude.{ℕ, Bool, add64, not, ◌&&◌, bytes_eq}
use swifty_go.Cache.Lru.{is_live}
use swifty_go.Cache.Store.{Bucket, lt_int64}

-- whether the evictions of a Set have nothing to do
abbrev pub fits : ℕ → Bucket → Bool
fits budget b = not (is_live budget && lt_int64 budget (add64 b.level1.bytes b.level2.bytes))
