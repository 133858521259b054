-- ===== src/Cache/Store/Mask.antt =====
-- The number of buckets of the store of swifty_cache/lru.go.
use Prim.Native.Nat.{bit_and}
use swifty_go.Prelude.{
  refused, accepted, ℕ, ◌+◌, ◌*◌, ◌≡◌, ◌<◌, ◌≤◌, refl, arith, Bool, true, false, ◌&&◌, ◌||◌, leb,
  ltb, ◌==◌, Option, none, some, List, [],
}
use swifty_go.Cache.Lru.{is_live}
use swifty_go.Cache.Store.{mask_of_next_pow_of2, StoreOptions, Bucket, Store, new_store}

-- what is checked of each capacity
fits : ℕ → Bool
fits cap =
    let mask = mask_of_next_pow_of2 cap in
    leb cap (mask + 1)
    && (cap == 0 || ltb (mask + 1) (2 * cap))
    && bit_and mask (mask + 1) == 0
    && (leb cap 32768 || mask == 65535)

every_fits : refused fits 65536 ≡ none
unfolding refused fits mask_of_next_pow_of2
every_fits = refl

fits-means :
    (n : ℕ)
    → 0 < n
    → fits n ≡ true
    → (n ≤ mask_of_next_pow_of2 n + 1)
      × (mask_of_next_pow_of2 n + 1 < 2 * n)
      × (bit_and (mask_of_next_pow_of2 n) (mask_of_next_pow_of2 n + 1) ≡ 0)
      × (32768 < n → mask_of_next_pow_of2 n ≡ 65535)
unfolding fits
fits-means n p f = ground arith

-- For every uint16 above 0 the mask is one below a power of two, the least one that is not below the
-- given number of buckets; and from 32769 buckets on it is the greatest uint16.
pub mask_bounds :
    (cap : ℕ)
    → 0 < cap
    → cap < 65536
    → (cap ≤ mask_of_next_pow_of2 cap + 1)
      × (mask_of_next_pow_of2 cap + 1 < 2 * cap)
      × (bit_and (mask_of_next_pow_of2 cap) (mask_of_next_pow_of2 cap + 1) ≡ 0)
      × (32768 < cap → mask_of_next_pow_of2 cap ≡ 65535)
mask_bounds cap h lt = fits-means cap h (accepted fits 65536 cap every_fits lt)

-- the buckets of a store that was made
abbrev pub buckets_of : Option Store → Option (List Bucket)
buckets_of none = none
buckets_of (some s) = some s.caches

-- With more than 32768 buckets the number of buckets, mask + 1 in uint16, is 0: NewStore panics if
-- there is a budget of bytes, and without one it makes a store that has no bucket at all.
pub new_store-no_buckets :
    (opts : StoreOptions) (notifies : Bool)
    → 32768 < opts.bucket_count
    → opts.bucket_count < 65536
    → (is_live opts.max_bytes ≡ true → new_store opts notifies ≡ none)
      × (opts.max_bytes ≡ 0 → buckets_of (new_store opts notifies) ≡ some [])
unfolding new_store
new_store-no_buckets opts notifies h lt =
    let set_count : opts.bucket_count == 0 ≡ false = ground arith in
    let greatest = (mask_bounds opts.bucket_count (omega arith) lt).3 h in
    (λ live. rw (set_count, greatest, live) refl, λ unset. rw (set_count, greatest, unset) refl)
