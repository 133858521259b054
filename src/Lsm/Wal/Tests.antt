-- ===== src/Lsm/Wal/Tests.antt =====
-- The write-ahead log of apps/lsm_tree/wal on concrete inputs.
use swifty_go.Prelude.{◌≡◌, refl, arith, none, some, List, [], ◌∷◌, Bytes}
use swifty_go.Lsm.Wal.{
  Entry, put_uvarint, read_uvarint, read_full, read_pair, read_all, put_all, restore_to_memtable,
}
use swifty_go.Lsm.Wal.RoundTrip.{write_all, restore_to_memtable-write_all}

-- a memtable that keeps its puts
abbrev keep : List Entry → Bytes → Bytes → List Entry
keep puts key value = (key, value) ∷ puts

abbrev two_entries : List Entry
two_entries = (97 ∷ [], 1 ∷ 2 ∷ []) ∷ ([], 3 ∷ []) ∷ []

put_300 : put_uvarint 10 300 ≡ 172 ∷ 2 ∷ []
unfolding put_uvarint
put_300 = refl

-- a record that was cut off
torn_record : restore_to_memtable keep (1 ∷ 2 ∷ 97 ∷ 1 ∷ []) [] ≡ none
unfolding restore_to_memtable read_all read_uvarint read_pair read_full
torn_record = refl

restore_to_memtable-write_all_example :
    restore_to_memtable keep (write_all [] two_entries) [] ≡ some (put_all keep [] two_entries)
restore_to_memtable-write_all_example =
    restore_to_memtable-write_all keep two_entries []
      (omega arith, omega arith, (omega arith, omega arith, tt))
