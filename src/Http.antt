-- ===== src/Http.antt =====
-- The HTTP framework (swifty_http): its routes.
pub mod Trie
pub mod Router
mod Tests
