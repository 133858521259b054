-- ===== src/Lsm/Bloom/Tests.antt =====
-- A Bloom filter of apps/lsm_tree/filter/bloom_filter.go of 20 bits and two keys.
use swifty_go.Prelude.{ℕ, ◌≡◌, refl, arith, inl, inr, true, false, some, List, [], ◌∷◌, Bytes}
use swifty_go.Lsm.Bloom.{
  BloomFilter, new_bloom_filter, hash_key, fnv_from, add, best_k, bitmap, delta_of, target_bit,
  set_bit, has_bit, set_bits, set_keys, hash, has_bits, exist, exist_now,
}
use swifty_go.Lsm.Bloom.Members.{add_all, add_all-exist}

abbrev filter : BloomFilter
filter = record { m = 20; hashed_keys = [] }

abbrev two_keys : List Bytes
two_keys = (97 ∷ []) ∷ (98 ∷ 99 ∷ []) ∷ []

filter_new : new_bloom_filter 20 ≡ some filter
unfolding new_bloom_filter
filter_new = refl

-- the FNV-1a hash of "a"
hash_a : hash_key (97 ∷ []) ≡ 3826002220
unfolding hash_key fnv_from
hash_a = refl

-- a key that was not added
absent_key : exist_now (add_all filter two_keys) (120 ∷ []) ≡ some false
unfolding exist_now exist hash best_k bitmap set_keys set_bits set_bit has_bits has_bit target_bit
    delta_of add add_all hash_key fnv_from
absent_key = refl

add_all-exist_example :
    (bits : List ℕ) × (hash (add_all filter two_keys) ≡ some bits)
    × (exist (add_all filter two_keys) bits (98 ∷ 99 ∷ []) ≡ true)
add_all-exist_example =
    add_all-exist filter two_keys (98 ∷ 99 ∷ []) (omega arith) (omega arith) (inr (inl refl))
