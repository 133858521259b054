-- ===== src/Cache.antt =====
-- The cache (swifty_cache): the two-level store of lru.go.
pub mod Lru
pub mod Store
pub mod Ring
mod Tests
