-- ===== src/Cache/Lru.antt =====
-- One level of the store, `cache` of swifty_cache/lru.go: slots in an array, an index of their keys,
-- and the order of use as a list that is linked both ways by uint16 indices. Slot i of the links is
-- m[i - 1], and 0 is the head of the list. A read out of range, a panic in the source, gives a
-- default; the theorems are about caches whose indices are in range. An int64 is its bit pattern.
-- The calls of onEvicted are a list; a nil onEvicted makes none of them.
pub mod Chain
pub mod Move
pub mod Spec
pub mod Valid
pub mod Reverse
pub mod Update
pub mod Fresh
pub mod Grow
pub mod Refine
pub mod Bury
pub mod Walk
use swifty_go.Prelude.{
  ℕ, suc, zero, ◌+◌, ◌%◌, Bool, true, false, Option, none, some, List, [], ◌∷◌, ◌++◌, ◌&&◌,
  if◌then◌else◌, length, get_or, set, replicate, ltb, ◌==◌, add64, sub64, half64, word64, Bytes,
  bytes_eq, lookup, insert, delete,
}

-- a value of the interface Value: which one it is, and what its Len gives
pub record Value : Type 0 where
  pub ident : ℕ
  pub len : ℕ

-- the struct `node`
pub record Slot : Type 0 where
  pub k : Bytes
  pub v : Option Value
  pub expire_at : ℕ

abbrev pub no_slot : Slot
no_slot = record { k = []; v = none; expire_at = 0 }

-- the two indices of an element of doubleLink
pub data Side : Type 0 where
  prev next : Side

pub record Links : Type 0 where
  pub prevs : List ℕ
  pub nexts : List ℕ

unfoldable pub link : Links → Side → ℕ → ℕ
link l prev i = get_or l.prevs i 0
link l next i = get_or l.nexts i 0

unfoldable pub relink : Links → Side → ℕ → ℕ → Links
relink l prev i j = record l { prevs = set l.prevs i j }
relink l next i j = record l { nexts = set l.nexts i j }

pub record Cache : Type 0 where
  pub double_link : Links
  pub m : List Slot
  pub hash_map : List (Bytes × ℕ)
  pub bytes : ℕ
  pub nevict : ℕ
  pub last : ℕ

unfoldable pub create : ℕ → Cache
create cap = record {
  double_link = record {
    prevs = replicate ((cap + 1) % 65536) 0;
    nexts = replicate ((cap + 1) % 65536) 0;
  };
  m = replicate cap no_slot;
  hash_map = [];
  bytes = 0;
  nevict = 0;
  last = 0;
}

-- expireAt > 0
abbrev pub is_live : ℕ → Bool
is_live expire_at = ltb 0 expire_at && ltb expire_at half64

unfoldable pub entry_bytes : Bytes → Option Value → ℕ
entry_bytes key none = length key % word64
entry_bytes key (some v) = add64 (length key) v.len

-- m[idx - 1], with idx - 1 in uint16
abbrev pub slot_index : ℕ → ℕ
slot_index idx = (idx + 65535) % 65536

unfoldable pub slot : Cache → ℕ → Slot
slot c idx = get_or c.m (slot_index idx) no_slot

unfoldable pub set_slot : Cache → ℕ → Slot → Cache
set_slot c idx s = record c { m = set c.m (slot_index idx) s }

-- the first two assignments of adjust: idx leaves the list
unfoldable pub unlink : Links → ℕ → Side → Side → Links
unlink l idx f t =
    let l' = relink l f (link l t idx) (link l f idx) in relink l' t (link l' f idx) (link l' t idx)

-- the other four: idx comes to the end that is read by t
unfoldable pub push : Links → ℕ → Side → Side → Links
push l idx f t =
    let l' = relink (relink l f idx 0) t idx (link (relink l f idx 0) t 0) in
    relink (relink l' f (link l' t 0) idx) t 0 idx

unfoldable pub adjust : Links → ℕ → Side → Side → Links
adjust l idx f t = if link l f idx == 0 then l else push (unlink l idx f t) idx f t

unfoldable pub adjust_cache : Cache → ℕ → Side → Side → Cache
adjust_cache c idx f t = record c { double_link = adjust c.double_link idx f t }

-- put, where the key has a slot
unfoldable pub put_known : Cache → ℕ → Bytes → Option Value → ℕ → Cache
put_known c idx key val expire_at =
    let nd = slot c idx in
    let bytes =
      if is_live nd.expire_at
      then add64 c.bytes (sub64 (entry_bytes key val) (entry_bytes nd.k nd.v))
      else add64 c.bytes (entry_bytes key val) in
    let c' = set_slot c idx (record { k = nd.k; v = val; expire_at = expire_at }) in
    adjust_cache (record c' { bytes = bytes }) idx prev next

-- put, where no slot is free: the last one in the order of use is taken
unfoldable pub put_full : Cache → Bytes → Option Value → ℕ → Cache × List (Bytes × Option Value)
put_full c key val expire_at =
    let idx = link c.double_link prev 0 in
    let tail = slot c idx in
    let freed =
      if is_live tail.expire_at
      then record c { bytes = sub64 c.bytes (entry_bytes tail.k tail.v); nevict = add64 c.nevict 1 }
      else c in
    let c' = set_slot freed idx (record { k = key; v = val; expire_at = expire_at }) in
    let filled = record c' {
      bytes = add64 freed.bytes (entry_bytes key val);
      hash_map = insert key idx (delete tail.k c.hash_map);
    } in
    (
      adjust_cache filled idx prev next,
      if is_live tail.expire_at then (tail.k, tail.v) ∷ [] else [],
    )

-- the links when a fresh slot comes to the front
unfoldable pub link_fresh : Links → Bool → ℕ → Links
link_fresh l none_used idx =
    let l' = if none_used then relink l prev 0 idx else relink l prev (link l next 0) idx in
    relink (relink (relink l' prev idx 0) next idx (link l' next 0)) next 0 idx

-- put, where a slot is free
unfoldable pub put_fresh : Cache → Bytes → Option Value → ℕ → Cache
put_fresh c key val expire_at =
    let idx = (c.last + 1) % 65536 in
    let c' = set_slot c idx (record { k = key; v = val; expire_at = expire_at }) in
    record c' {
      double_link = link_fresh c.double_link (length c.hash_map == 0) idx;
      hash_map = insert key idx c.hash_map;
      bytes = add64 c.bytes (entry_bytes key val);
      last = idx;
    }

-- put, with the calls of onEvicted and whether the key is new
unfoldable pub put : Cache → Bytes → Option Value → ℕ → Cache × List (Bytes × Option Value) × Bool
put c key val expire_at = elim (lookup key c.hash_map) [
  | some idx ↦ (put_known c idx key val expire_at, [], false)
  | none ↦
      if c.last == length c.m
      then ((put_full c key val expire_at).0, (put_full c key val expire_at).1, true)
      else (put_fresh c key val expire_at, [], true)
]

unfoldable pub peek : Cache → Bytes → Option (Slot × ℕ)
peek c key = elim (lookup key c.hash_map) [ some idx ↦ some (slot c idx, idx) | none ↦ none ]

-- what del does to the slot: it stays, as a dead one at the end of the order
unfoldable pub bury : Cache → ℕ → Cache
bury c idx =
    let nd = slot c idx in
    let c' = set_slot c idx (record nd { expire_at = 0 }) in
    adjust_cache (record c' { bytes = sub64 c.bytes (entry_bytes nd.k nd.v) }) idx next prev

-- del, with the slot's index and value and the time at which it would have expired
unfoldable pub del : Cache → Bytes → Cache × Option (ℕ × Slot)
del c key = elim (lookup key c.hash_map) [
  | some idx ↦
      if is_live (slot c idx).expire_at then (bury c idx, some (idx, slot c idx)) else (c, none)
  | none ↦ (c, none)
]

-- n.v = nil for the slot that del returned
unfoldable pub release : Cache → ℕ → Cache
release c idx = set_slot c idx (record (slot c idx) { v = none })

unfoldable pub drop_key : Cache → Bytes → Cache
drop_key c key = elim ((del c key).1) [
  | some (idx, nd) ↦ release (del c key).0 idx
  | none ↦ (del c key).0
]

-- the loop of evictOldest: the first live slot from idx on, towards the front
unfoldable pub oldest_live : ℕ → Cache → ℕ → Option ℕ
oldest_live zero c idx = none
oldest_live (suc fuel) c idx =
    let rest = oldest_live fuel c (link c.double_link prev idx) in
    if idx == 0 then none else if is_live (slot c idx).expire_at then some idx else rest

unfoldable pub evict_oldest : Cache → Cache × Option (Bytes × Option Value)
evict_oldest c = elim (oldest_live (suc (length c.m)) c (link c.double_link prev 0)) [
  | none ↦ (c, none)
  | some idx ↦ (
    record (release (bury c idx) idx) { nevict = add64 c.nevict 1 },
    some ((slot c idx).k, (slot c idx).v),
  )
]

-- the live slots that walk visits, from idx on, for a walker that never stops
unfoldable pub walk_from : ℕ → Cache → ℕ → List Slot
walk_from zero c idx = []
walk_from (suc fuel) c idx =
    let rest = walk_from fuel c (link c.double_link next idx) in
    if idx == 0 then [] else if is_live (slot c idx).expire_at then slot c idx ∷ rest else rest

unfoldable pub walk : Cache → List Slot
walk c = walk_from (suc (length c.m)) c (link c.double_link next 0)
