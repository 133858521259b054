-- ===== src/Lsm/Wal/RoundTrip.antt =====
-- A write-ahead log of apps/lsm_tree/wal is read as it was written.
use native.Mathlib.Nat.{mod-eq_of_lt}
use swifty_go.Prelude.{
  ltb-cases, append-nil, ℕ, suc, zero, ◌+◌, ◌*◌, ◌/◌, ◌%◌, ◌≡◌, ◌≤◌, ◌<◌, inl, inr, refl, sym, ap,
  subst, ◌∙◌, arith, Bool, true, false, some, List, [], ◌∷◌, ◌++◌, ◌&&◌, length, length-append, ltb,
  ◌==◌, word64, Bytes,
}
use swifty_go.Lsm.Wal.{
  put_uvarint, got, above, read_uvarint, record_bytes, write, read_full, Entry, entry_and,
  read_pair, entry, pair_round, value_round, key_round, read_all, put_all, restore_to_memtable,
}

-- the numbers that fit into some bytes, of which the last is the tenth
abbrev limit : ℕ → ℕ
limit zero = 0
limit (suc zero) = 2
limit (suc (suc n)) = 128 * limit (suc n)

append_assoc : (xs ys zs : Bytes) → (xs ++ ys) ++ zs ≡ xs ++ (ys ++ zs)
append_assoc [] ys zs = refl
append_assoc (x ∷ xs) ys zs = ap (◌∷◌ x) (append_assoc xs ys zs)

put_short : (f n : ℕ) → ltb n 128 ≡ true → put_uvarint (suc f) n ≡ n ∷ []
unfolding put_uvarint
put_short f n q = rw (q, put_uvarint) refl

put_long :
    (f n : ℕ)
    → ltb n 128 ≡ false
    → put_uvarint (suc f) n ≡ (n % 128 + 128) ∷ put_uvarint f (n / 128)
unfolding put_uvarint
put_long f n q = rw (q, put_uvarint) refl

read_short :
    (left b : ℕ) (first : Bool) (bytes : Bytes)
    → ltb b 128 ≡ true
    → (left == 0 && ltb 1 b) ≡ false
    → read_uvarint (suc left) first (b ∷ bytes) ≡ got b bytes
unfolding read_uvarint
read_short left b first bytes q fits = rw (q, fits, read_uvarint) refl

read_long :
    (left b : ℕ) (first : Bool) (bytes : Bytes)
    → ltb b 128 ≡ false
    → read_uvarint (suc left) first (b ∷ bytes) ≡ above (b % 128) (read_uvarint left false bytes)
unfolding read_uvarint
read_long left b first bytes q = rw (q, read_uvarint) refl

-- a number that fits is read as it was put, and what follows it is left
read_uvarint-put :
    (left n : ℕ) (first : Bool) (rest : Bytes)
    → n < limit left
    → read_uvarint left first (put_uvarint left n ++ rest) ≡ got n rest
read_uvarint-put zero n first rest h = absurd (omega arith)
read_uvarint-put (suc zero) n first rest h =
    ap (λ (bs : Bytes). read_uvarint 1 first (bs ++ rest)) (put_short 0 n (ground arith))
    ∙ read_short 0 n first rest (ground arith) (ground arith)
read_uvarint-put (suc (suc left)) n first rest h = elim (ltb-cases n 128) [
  | inl (short, lt) ↦
      ap (λ (bs : Bytes). read_uvarint (suc (suc left)) first (bs ++ rest))
        (put_short (suc left) n short)
      ∙ read_short (suc left) n first rest short (ground arith)
  | inr (long, le) ↦
      let low = n % 128 + 128 in
      let high : n / 128 < limit (suc left) = omega (arith, h) in
      let big : ltb low 128 ≡ false = ground arith in
      let whole : low % 128 + 128 * (n / 128) ≡ n = omega arith in
      ap (λ (bs : Bytes). read_uvarint (suc (suc left)) first (bs ++ rest))
        (put_long (suc left) n long)
      ∙ read_long (suc left) low first (put_uvarint (suc left) (n / 128) ++ rest) big
      ∙ ap (above (low % 128)) (read_uvarint-put (suc left) (n / 128) false rest high)
      ∙ ap (λ (k : ℕ). got k rest) whole
]

read_full-append : (xs rest : Bytes) → read_full (length xs) (xs ++ rest) ≡ some (xs, rest)
unfolding read_full
read_full-append [] rest = refl
read_full-append (x ∷ xs) rest = rw (read_full-append xs rest) refl

read_pair-append :
    (key value rest : Bytes)
    → read_pair (length key) (length value) (key ++ (value ++ rest)) ≡ some ((key, value), rest)
unfolding read_pair
read_pair-append key value rest =
    rw (read_full-append key (value ++ rest), read_pair, read_full-append value rest) refl

-- the lengths fit into a uint64
abbrev pub EachFits : List Entry → Type 0
EachFits [] = Unit {0}
EachFits ((key, value) ∷ kvs) = (length key < word64) × (length value < word64) × EachFits kvs

record_bytes-round :
    (key value rest : Bytes)
    → length key < word64
    → length value < word64
    → key_round (read_uvarint 10 true (record_bytes key value ++ rest)) ≡ entry (key, value) rest
unfolding record_bytes
record_bytes-round key value rest hk hv =
    let a = put_uvarint 10 (length key % word64) in
    let b = put_uvarint 10 (length value % word64) in
    let flat : (a ++ (b ++ (key ++ value))) ++ rest ≡ a ++ (b ++ (key ++ (value ++ rest))) =
      append_assoc a (b ++ (key ++ value)) rest
      ∙ ap (λ (t : Bytes). a ++ t)
          (append_assoc b (key ++ value) rest
            ∙ ap (λ (t : Bytes). b ++ t) (append_assoc key value rest)) in
    ap (λ (t : Bytes). key_round (read_uvarint 10 true t)) flat
    ∙ ap key_round (
        read_uvarint-put 10 (length key % word64) true (b ++ (key ++ (value ++ rest)))
          (omega arith))
    ∙ ap (value_round (length key % word64))
        (read_uvarint-put 10 (length value % word64) true (key ++ (value ++ rest)) (omega arith))
    ∙ ap (λ (n : ℕ). pair_round (read_pair n (length value % word64) (key ++ (value ++ rest))))
        (mod-eq_of_lt hk)
    ∙ ap (λ (n : ℕ). pair_round (read_pair (length key) n (key ++ (value ++ rest))))
        (mod-eq_of_lt hv)
    ∙ ap pair_round (read_pair-append key value rest)

-- the file of some entries
abbrev log : List Entry → Bytes
log [] = []
log ((key, value) ∷ kvs) = record_bytes key value ++ log kvs

read_all-entry :
    (fuel : ℕ) (bytes : Bytes) (kv : Entry) (rest : Bytes)
    → key_round (read_uvarint 10 true bytes) ≡ entry kv rest
    → read_all (suc fuel) bytes ≡ entry_and kv (read_all fuel rest)
unfolding read_all
read_all-entry fuel bytes kv rest e = rw (e, read_all) refl

read_all-end : (fuel : ℕ) → read_all (suc fuel) [] ≡ some []
unfolding read_all read_uvarint
read_all-end fuel = refl

read_all-log :
    (kvs : List Entry) (fuel : ℕ)
    → EachFits kvs
    → length kvs < fuel
    → read_all fuel (log kvs) ≡ some kvs
read_all-log kvs zero f h = absurd (omega arith)
read_all-log [] (suc fuel) f h = read_all-end fuel
read_all-log ((key, value) ∷ kvs) (suc fuel) f h =
    read_all-entry fuel (record_bytes key value ++ log kvs) (key, value) (log kvs)
      (record_bytes-round key value (log kvs) f.0 f.1)
    ∙ ap (entry_and (key, value)) (read_all-log kvs fuel f.2 (omega arith))

put_uvarint-some : (f n : ℕ) → 1 ≤ length (put_uvarint (suc f) n)
put_uvarint-some f n = elim (ltb-cases n 128) [
  | inl (q, lt) ↦ subst (λ (bs : Bytes). 1 ≤ length bs) (sym (put_short f n q)) (omega arith)
  | inr (q, le) ↦ subst (λ (bs : Bytes). 1 ≤ length bs) (sym (put_long f n q)) (omega arith)
]

length-log : (kvs : List Entry) → length kvs ≤ length (log kvs)
unfolding record_bytes
length-log [] = omega arith
length-log ((key, value) ∷ kvs) =
    let a = put_uvarint 10 (length key % word64) in
    let b = put_uvarint 10 (length value % word64) ++ (key ++ value) in
    omega (
      arith,
      length-log kvs,
      length-append (a ++ b) (log kvs),
      length-append a b,
      put_uvarint-some 9 (length key % word64),
    )

-- the writes of entries, in turn
abbrev pub write_all : Bytes → List Entry → Bytes
write_all file [] = file
write_all file ((key, value) ∷ kvs) = write_all (write file key value) kvs

write_all-log : (file : Bytes) (kvs : List Entry) → write_all file kvs ≡ file ++ log kvs
unfolding write
write_all-log file [] = sym (append-nil file)
write_all-log file ((key, value) ∷ kvs) =
    write_all-log (file ++ record_bytes key value) kvs
    ∙ append_assoc file (record_bytes key value) (log kvs)

-- A log to which entries were written, from the empty file on, is read without an error, and the
-- memtable that is restored is the one that had the same puts in the same order: for every state and
-- every Put, and all entries whose lengths fit into a uint64.
pub restore_to_memtable-write_all :
    {M : Type 0} (put : M → Bytes → Bytes → M) (kvs : List Entry) (memtable : M)
    → EachFits kvs
    → restore_to_memtable put (write_all [] kvs) memtable ≡ some (put_all put memtable kvs)
unfolding restore_to_memtable
restore_to_memtable-write_all put kvs memtable f =
    let file : write_all [] kvs ≡ log kvs = write_all-log [] kvs in
    let read = read_all-log kvs (suc (length (log kvs))) f (omega (arith, length-log kvs)) in
    ap (λ (bs : Bytes). restore_to_memtable put bs memtable) file
    ∙ rw (read, restore_to_memtable) refl
