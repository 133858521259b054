-- ===== src/Lsm/Wal.antt =====
-- The write-ahead log of apps/lsm_tree/wal: the records that WALWriter appends to a file, and what
-- WALReader reads from it. The file is its bytes; opening, closing and failures of the file are not in
-- the model. A memtable is any state with a Put.
pub mod RoundTrip
mod Tests
use swifty_go.Prelude.{
  ℕ, suc, zero, ◌+◌, ◌*◌, ◌/◌, ◌%◌, Bool, true, false, Option, none, some, List, [], ◌∷◌, ◌++◌,
  ◌&&◌, if◌then◌else◌, length, ltb, ◌==◌, word64, Bytes,
}

-- binary.PutUvarint: groups of 7 bits, the lowest first, in at most ten bytes
unfoldable pub put_uvarint : ℕ → ℕ → Bytes
put_uvarint zero n = []
put_uvarint (suc fuel) n =
    let rest = put_uvarint fuel (n / 128) in if ltb n 128 then n ∷ [] else (n % 128 + 128) ∷ rest

pub data ReadError : Type 0 where
  eof unexpected_eof overflow : ReadError

pub data Uvarint : Type 0 where
  got : ℕ → Bytes → Uvarint
  failed : ReadError → Uvarint

abbrev pub above : ℕ → Uvarint → Uvarint
above low (got n rest) = got (low + 128 * n) rest
above low (failed e) = failed e

-- binary.ReadUvarint, with the bytes that are left of the ten and whether none was read
unfoldable pub read_uvarint : ℕ → Bool → Bytes → Uvarint
read_uvarint zero first bytes = failed overflow
read_uvarint (suc left) first [] = failed (if first then eof else unexpected_eof)
read_uvarint (suc left) first (b ∷ bytes) =
    let rest = read_uvarint left false bytes in
    if ltb b 128
    then (if left == 0 && ltb 1 b then failed overflow else got b bytes)
    else above (b % 128) rest

-- what Write appends to the file
unfoldable pub record_bytes : Bytes → Bytes → Bytes
unfolding put_uvarint
record_bytes key value =
    put_uvarint 10 (length key % word64)
    ++ (put_uvarint 10 (length value % word64) ++ (key ++ value))

unfoldable pub write : Bytes → Bytes → Bytes → Bytes
unfolding record_bytes
write file key value = file ++ record_bytes key value

-- io.ReadFull
unfoldable pub read_full : ℕ → Bytes → Option (Bytes × Bytes)
read_full zero bytes = some ([], bytes)
read_full (suc n) [] = none
read_full (suc n) (b ∷ bytes) = elim (read_full n bytes) [
  | none ↦ none
  | some (taken, rest) ↦ some (b ∷ taken, rest)
]

abbrev pub Entry : Type 0
Entry = Bytes × Bytes

abbrev pub entry_and : Entry → Option (List Entry) → Option (List Entry)
entry_and kv none = none
entry_and kv (some kvs) = some (kv ∷ kvs)

-- the two ReadFull of readAll; a length so large that make panics is an error here
unfoldable pub read_pair : ℕ → ℕ → Bytes → Option (Entry × Bytes)
unfolding read_full
read_pair key_len val_len bytes = elim (read_full key_len bytes) [
  | none ↦ none
  | some (key, rest) ↦ elim (read_full val_len rest) [
    | none ↦ none
    | some (value, rest') ↦ some ((key, value), rest')
  ]
]

-- what a round of the loop of readAll finds: the end, an error, or an entry
pub data Round : Type 0 where
  ended broken : Round
  entry : Entry → Bytes → Round

abbrev pub pair_round : Option (Entry × Bytes) → Round
pair_round none = broken
pair_round (some (kv, rest)) = entry kv rest

abbrev pub value_round : ℕ → Uvarint → Round
value_round key_len (failed e) = broken
value_round key_len (got val_len bytes) = pair_round (read_pair key_len val_len bytes)

abbrev pub key_round : Uvarint → Round
key_round (failed eof) = ended
key_round (failed unexpected_eof) = broken
key_round (failed overflow) = broken
key_round (got key_len bytes) = value_round key_len (read_uvarint 10 true bytes)

-- readAll, with fuel for its rounds
unfoldable pub read_all : ℕ → Bytes → Option (List Entry)
read_all zero bytes = none
read_all (suc fuel) bytes = elim (key_round (read_uvarint 10 true bytes)) [
  | ended ↦ some []
  | broken ↦ none
  | entry kv rest ↦ entry_and kv (read_all fuel rest)
]

-- RestoreToMemtable; `none` is an error of the log
unfoldable pub put_all {ℓ} : {M : Type ℓ} → (M → Bytes → Bytes → M) → M → List Entry → M
put_all put memtable [] = memtable
put_all put memtable ((key, value) ∷ kvs) = put_all put (put memtable key value) kvs

unfoldable pub restore_to_memtable {ℓ} :
    {M : Type ℓ} → (M → Bytes → Bytes → M) → Bytes → M → Option M
unfolding read_all put_all
restore_to_memtable put file memtable = elim (read_all (suc (length file)) file) [
  | none ↦ none
  | some kvs ↦ some (put_all put memtable kvs)
]
