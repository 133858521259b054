-- ===== src/Lsm/Bloom/Members.antt =====
-- What Exist of apps/lsm_tree/filter/bloom_filter.go says of the keys that were added.
use swifty_go.Prelude.{
  ℕ, suc, zero, ◌+◌, ◌-◌, ◌*◌, ◌/◌, ◌%◌, ◌≡◌, ◌≢◌, ◌<◌, ◌⊎◌, inl, inr, refl, ap, ◌∙◌, arith, true,
  false, some, List, [], ◌∷◌, ◌++◌, length, get_or, replicate, ◌==◌, min, max, word32, Bytes, Has,
  Has-last,
}
use swifty_go.Lsm.Bloom.{
  BloomFilter, hash_key, add, best_k, bitmap, target_bit, has_bit, set_keys, hash, has_bits, exist,
}
use swifty_go.Lsm.Bloom.Bits.{IsBitmap}
use swifty_go.Lsm.Bloom.Sets.{set_keys-IsBitmap, set_keys-sets, has_bits-all}

get_or-end : (n k : ℕ) → get_or (replicate n 0 ++ (k ∷ [])) n 0 ≡ k
get_or-end zero k = refl
get_or-end (suc n) k = get_or-end n k

get_or-small : (n k i : ℕ) → k < 256 → get_or (replicate n 0 ++ (k ∷ [])) i 0 < 256
get_or-small zero k zero h = h
get_or-small zero k (suc i) h = omega arith
get_or-small (suc n) k zero h = omega arith
get_or-small (suc n) k (suc i) h = get_or-small n k i h

length-end : (n k : ℕ) → length (replicate n 0 ++ (k ∷ [])) ≡ suc n
length-end zero k = refl
length-end (suc n) k = ap suc (length-end n k)

bitmap-IsBitmap : (m k : ℕ) → k < 256 → IsBitmap m k (bitmap m k)
unfolding bitmap
bitmap-IsBitmap m k h = record {
  sized = length-end ((m + 7) / 8) k;
  bytes = λ i. get_or-small ((m + 7) / 8) k i h;
  last = get_or-end ((m + 7) / 8) k;
}

some_keys : (xs : List ℕ) → xs ≢ [] → (length xs == 0) ≡ false
some_keys [] ne = absurd (ne refl)
some_keys (x ∷ xs) ne = ground arith

bounded : (x : ℕ) → min (max x 1) 30 < 256
bounded x = omega arith

-- the number of hash functions of a filter that has keys
best_k-some : (bf : BloomFilter) → bf.hashed_keys ≢ [] → (k : ℕ) × (k < 256) × (best_k bf ≡ some k)
unfolding best_k
best_k-some bf ne =
    let found = some_keys bf.hashed_keys ne in
    (min (max ((69 * bf.m / 100 / length bf.hashed_keys) % 256) 1) 30, bounded _, rw found refl)

-- the bitmap of such a filter
hash-made :
    (bf : BloomFilter) (k : ℕ)
    → best_k bf ≡ some k
    → hash bf ≡ some (set_keys bf.m k bf.hashed_keys (bitmap bf.m k))
unfolding hash
hash-made bf k e = rw (e, hash) refl

Has-keys : (h : ℕ) (hs : List ℕ) → Has h hs → hs ≢ []
Has-keys h [] t = absurd t
Has-keys h (x ∷ hs) t = λ e. cc e

exist-all :
    (bf : BloomFilter) (key : Bytes) (k : ℕ) (bits : List ℕ)
    → IsBitmap bf.m k bits
    → ((j : ℕ) → j < k → has_bit bits (target_bit bf.m (hash_key key) j) ≡ true)
    → exist bf bits key ≡ true
unfolding exist
exist-all bf key k bits v all =
    let end : length bits - 1 ≡ (bf.m + 7) / 8 = omega (arith, v.sized) in
    let stored : get_or bits (length bits - 1) 0 ≡ k =
      ap (λ (i : ℕ). get_or bits i 0) end ∙ v.last in
    ap (λ (n : ℕ). has_bits bf.m (hash_key key) n 0 bits) stored
    ∙ has_bits-all bf.m (hash_key key) k 0 bits (λ j le lt. all j (omega arith))

-- a key whose hash the filter has
hash-exist :
    (bf : BloomFilter) (key : Bytes)
    → 0 < bf.m
    → bf.m < word32
    → Has (hash_key key) bf.hashed_keys
    → (bits : List ℕ) × (hash bf ≡ some bits) × (exist bf bits key ≡ true)
hash-exist bf key some_bits small h =
    let chosen = best_k-some bf (Has-keys (hash_key key) bf.hashed_keys h) in
    let k = chosen.0 in
    let start = bitmap-IsBitmap bf.m k chosen.1 in
    let bits = set_keys bf.m k bf.hashed_keys (bitmap bf.m k) in
    (
      bits,
      hash-made bf k chosen.2,
      exist-all bf key k bits
          (set_keys-IsBitmap bf.m k some_bits small bf.hashed_keys (bitmap bf.m k) start)
          (λ j lt.
            set_keys-sets bf.m k some_bits small bf.hashed_keys (bitmap bf.m k) (hash_key key) j
              start h lt),
    )

-- the additions of keys, in turn
unfoldable pub add_all : BloomFilter → List Bytes → BloomFilter
add_all bf [] = bf
add_all bf (key ∷ keys) = add_all (add bf key) keys

abbrev pub Listed : Bytes → List Bytes → Type 0
Listed key [] = ⊥
Listed key (k ∷ ks) = (key ≡ k) ⊎ Listed key ks

stays_added :
    (bf : BloomFilter) (keys : List Bytes) (h : ℕ)
    → Has h bf.hashed_keys
    → Has h (add_all bf keys).hashed_keys
unfolding add_all add
stays_added bf [] h t = t
stays_added bf (key ∷ keys) h t =
    stays_added (add bf key) keys h ((Has-last h (hash_key key) bf.hashed_keys).1 (inl t))

Listed-Has :
    (bf : BloomFilter) (keys : List Bytes) (key : Bytes)
    → Listed key keys
    → Has (hash_key key) (add_all bf keys).hashed_keys
unfolding add_all add
Listed-Has bf [] key t = absurd t
Listed-Has bf (k ∷ keys) key (inl e) =
    stays_added (add bf k) keys (hash_key key)
      ((Has-last (hash_key key) (hash_key k) bf.hashed_keys).1 (inr (ap hash_key e)))
Listed-Has bf (k ∷ keys) key (inr t) = Listed-Has (add bf k) keys key t

add_all-m : (bf : BloomFilter) (keys : List Bytes) → (add_all bf keys).m ≡ bf.m
unfolding add_all add
add_all-m bf [] = refl
add_all-m bf (key ∷ keys) = add_all-m (add bf key) keys

-- There are no false negatives: after keys have been added to a filter of at least one and fewer than
-- 2 ^ 32 bits, whatever it had before, the filter has a bitmap, and Exist says true of the bitmap and
-- each of the keys.
pub add_all-exist :
    (bf : BloomFilter) (keys : List Bytes) (key : Bytes)
    → 0 < bf.m
    → bf.m < word32
    → Listed key keys
    → (bits : List ℕ) × (hash (add_all bf keys) ≡ some bits)
      × (exist (add_all bf keys) bits key ≡ true)
add_all-exist bf keys key some_bits small t =
    let same = add_all-m bf keys in
    hash-exist (add_all bf keys) key (omega (arith, same)) (omega (arith, same))
      (Listed-Has bf keys key t)
