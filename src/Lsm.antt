-- ===== src/Lsm.antt =====
-- The LSM tree (apps/lsm_tree): its Bloom filter and its write-ahead log.
pub mod Bloom
pub mod Wal
