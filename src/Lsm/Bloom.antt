-- ===== src/Lsm/Bloom.antt =====
-- The Bloom filter of apps/lsm_tree/filter/bloom_filter.go. A uint32 is a number below 2 ^ 32, with the
-- wrap-around written out; the product 69 * m is taken to stay within int64.
pub mod Bits
pub mod Sets
pub mod Members
mod Tests
use Prim.Native.Nat.{bit_and, bit_or, bit_xor}
use swifty_go.Prelude.{
  ℕ, suc, zero, ◌+◌, ◌-◌, ◌*◌, ◌/◌, ◌%◌, ◌^◌, min, max, Bool, true, false, Option, none, some, List,
  [], ◌∷◌, ◌++◌, if◌then◌else◌, length, get_or, set, replicate, ◌==◌, word32, Bytes,
}

-- FNV-1a of 32 bits, the algorithm of hash/fnv
unfoldable pub fnv_from : ℕ → Bytes → ℕ
fnv_from hash [] = hash
fnv_from hash (x ∷ xs) = fnv_from ((bit_xor hash x * 16777619) % word32) xs

unfoldable pub hash_key : Bytes → ℕ
unfolding fnv_from
hash_key key = fnv_from 2166136261 key

pub record BloomFilter : Type 0 where
  pub m : ℕ
  pub hashed_keys : List ℕ

-- NewBloomFilter; `none` is its error
unfoldable pub new_bloom_filter : ℕ → Option BloomFilter
new_bloom_filter m = if m == 0 then none else some (record { m = m; hashed_keys = [] })

unfoldable pub add : BloomFilter → Bytes → BloomFilter
unfolding hash_key
add bf key = record bf { hashed_keys = bf.hashed_keys ++ (hash_key key ∷ []) }

unfoldable pub reset : BloomFilter → BloomFilter
reset bf = record bf { hashed_keys = [] }

unfoldable pub key_len : BloomFilter → ℕ
key_len bf = length bf.hashed_keys

-- bestK; `none` is the panic of a division by 0
unfoldable pub best_k : BloomFilter → Option ℕ
best_k bf =
    if length bf.hashed_keys == 0
    then none
    else some (min (max ((69 * bf.m / 100 / length bf.hashed_keys) % 256) 1) 30)

unfoldable pub bitmap : ℕ → ℕ → List ℕ
bitmap m k = replicate ((m + 7) / 8) 0 ++ (k ∷ [])

-- h2 of h1
unfoldable pub delta_of : ℕ → ℕ
delta_of h = bit_or (h / 2 ^ 17) ((h * 2 ^ 15) % word32)

-- the bit of the i-th hash function
unfoldable pub target_bit : ℕ → ℕ → ℕ → ℕ
unfolding delta_of
target_bit m h i = (h + i * delta_of h) % word32 % (m % word32)

unfoldable pub set_bit : List ℕ → ℕ → List ℕ
set_bit bits t = set bits (t / 8) (bit_or (get_or bits (t / 8) 0) (2 ^ (t % 8)))

unfoldable pub has_bit : List ℕ → ℕ → Bool
has_bit bits t = if bit_and (get_or bits (t / 8) 0) (2 ^ (t % 8)) == 0 then false else true

-- the inner loop of Hash, for n hash functions from the i-th on
unfoldable pub set_bits : ℕ → ℕ → ℕ → ℕ → List ℕ → List ℕ
unfolding target_bit set_bit
set_bits m h zero i bits = bits
set_bits m h (suc n) i bits = set_bits m h n (suc i) (set_bit bits (target_bit m h i))

-- the outer loop
unfoldable pub set_keys : ℕ → ℕ → List ℕ → List ℕ → List ℕ
unfolding set_bits
set_keys m k [] bits = bits
set_keys m k (h ∷ hs) bits = set_keys m k hs (set_bits m h k 0 bits)

unfoldable pub hash : BloomFilter → Option (List ℕ)
unfolding best_k bitmap set_keys
hash bf = elim (best_k bf) [
  | none ↦ none
  | some k ↦ some (set_keys bf.m k bf.hashed_keys (bitmap bf.m k))
]

-- the loop of Exist
unfoldable pub has_bits : ℕ → ℕ → ℕ → ℕ → List ℕ → Bool
unfolding target_bit has_bit
has_bits m h zero i bits = true
has_bits m h (suc n) i bits =
    let rest = has_bits m h n (suc i) bits in
    if has_bit bits (target_bit m h i) then rest else false

-- Exist of a bitmap that is not nil
unfoldable pub exist : BloomFilter → List ℕ → Bytes → Bool
unfolding has_bits hash_key
exist bf bits key = has_bits bf.m (hash_key key) (get_or bits (length bits - 1) 0) 0 bits

-- Exist of the nil bitmap
unfoldable pub exist_now : BloomFilter → Bytes → Option Bool
unfolding hash exist
exist_now bf key = elim (hash bf) [ none ↦ none | some bits ↦ some (exist bf bits key) ]
