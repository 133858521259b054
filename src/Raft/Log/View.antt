-- ===== src/Raft/Log/View.antt =====
-- The log as one sequence of terms, whatever part of it is persisted: `raftLog` and `unstable` of
-- apps/raft_demo/raft/log.go over MemoryStorage.
use swifty_go.Prelude.{
  ℕ, zero, suc, ◌+◌, ◌-◌, ◌<◌, ◌≤◌, ◌≡◌, arith, List, [], ◌∷◌, if◌then◌else◌, ltb, length,
  get_elem?, some, none, Option, half64, sub64, get_elem?_of_lt, lt_of_get_elem?, Bool-cases, ◌⊎◌,
  inl, inr,
}
use swifty_go.Raft.Model.{Entry, ok}
use swifty_go.Raft.Storage
use swifty_go.Raft.Storage.{MemoryStorage, index, base}
use swifty_go.Raft.Unstable
use swifty_go.Raft.Unstable.{Unstable}
use swifty_go.Raft.Log.{RaftLog, first_index, last_index, term, stored_term}

-- the index of the dummy entry
abbrev pub dummy : RaftLog → ℕ
dummy l = elim l.storage.entries [ [] ↦ 0 | e ∷ _ ↦ e.index ]

-- the index of the last entry
abbrev pub last : RaftLog → ℕ
last l = l.unstable.offset + length l.unstable.entries - 1

abbrev pub AllPositive : List Entry → Type 0
AllPositive [] = Unit {0}
AllPositive (e ∷ es) = (0 < e.term) × AllPositive es

-- the entries carry the indices from `i` on
abbrev pub IsContiguous : ℕ → List Entry → Type 0
IsContiguous i [] = Unit {0}
IsContiguous i (e ∷ es) = (e.index ≡ i) × IsContiguous (suc i) es

-- The unpersisted part begins behind the dummy entry and leaves no gap; what is applied is
-- committed, and what is committed is in the log.
pub record IsValid (l : RaftLog) : Type 0 where
  pub stored : 0 < length l.storage.entries
  pub above : dummy l < l.unstable.offset
  pub no_gap : l.unstable.offset ≤ dummy l + length l.storage.entries
  pub persisted :
      length l.unstable.entries ≡ 0 → l.unstable.offset ≡ dummy l + length l.storage.entries
  pub bounded : l.unstable.offset + length l.unstable.entries < half64
  pub stored_bounded : dummy l + length l.storage.entries < half64
  pub contiguous : IsContiguous l.unstable.offset l.unstable.entries
  pub positive : AllPositive l.unstable.entries
  pub applied : l.apply_index ≤ l.commit_index
  pub from_dummy : dummy l ≤ l.apply_index
  pub committed : l.commit_index ≤ last l

abbrev pub term_of : Option Entry → ℕ
term_of none = 0
term_of (some e) = e.term

-- the term at an index
unfoldable pub view : RaftLog → ℕ → ℕ
view l i =
    if ltb i l.unstable.offset
    then term_of (get_elem? l.storage.entries (i - dummy l))
    else term_of (get_elem? l.unstable.entries (i - l.unstable.offset))

pub base-dummy : (l : RaftLog) → IsValid l → base l.storage ≡ ok (dummy l)
unfolding base
base-dummy l v = ground (arith, v.stored)

pub first_index-dummy : (l : RaftLog) → IsValid l → first_index l ≡ ok (dummy l + 1)
unfolding first_index Storage.first_index
first_index-dummy l v = ground (arith, base-dummy l v)

pub last_index-last : (l : RaftLog) → IsValid l → last_index l ≡ ok (last l)
unfolding last_index Storage.last_index Unstable.maybe_last_index
last_index-last l v = ground (arith, base-dummy l v)

AllPositive-get_elem? :
    (es : List Entry) (i : ℕ) {e : Entry} → AllPositive es → get_elem? es i ≡ some e → 0 < e.term
AllPositive-get_elem? [] i p h = cc
AllPositive-get_elem? (x ∷ xs) zero p h = ground arith
AllPositive-get_elem? (x ∷ xs) (suc i) p h = AllPositive-get_elem? xs i p.1 h

storage_term-view :
    (l : RaftLog) (i : ℕ)
    → IsValid l
    → dummy l ≤ i
    → i < l.unstable.offset
    → Storage.term l.storage i ≡ ok (view l i)
unfolding Storage.term view index
storage_term-view l i v low h =
    let (e, found) = get_elem?_of_lt l.storage.entries (i - dummy l) (omega arith) in
    ground (arith, base-dummy l v)

maybe_term_below : (u : Unstable) (i : ℕ) → i < u.offset → Unstable.maybe_term u i ≡ ok none
unfolding Unstable.maybe_term
maybe_term_below u i h = ground arith

maybe_term_inside :
    (u : Unstable) (i : ℕ) {e : Entry}
    → u.offset ≤ i
    → u.offset + length u.entries < half64
    → get_elem? u.entries (i - u.offset) ≡ some e
    → Unstable.maybe_term u i ≡ ok (some e.term)
unfolding Unstable.maybe_term Unstable.maybe_last_index index
maybe_term_inside u i {e} low small found =
    let exact : sub64 i u.offset ≡ i - u.offset =
      omega (arith, lt_of_get_elem? u.entries (i - u.offset) found) in
    ground (arith, lt_of_get_elem? u.entries (i - u.offset) found)

stored_term-view :
    (l : RaftLog) (i : ℕ) → IsValid l → dummy l ≤ i → i ≤ last l → stored_term l i ≡ ok (view l i)
unfolding stored_term
stored_term-view l i v low high = elim (Bool-cases (ltb i l.unstable.offset)) [
  | inl below ↦ ground (arith, maybe_term_below l.unstable i, storage_term-view l i v low)
  | inr inside ↦
      let (e, found) =
        get_elem?_of_lt l.unstable.entries (i - l.unstable.offset) (ground (arith, v.persisted)) in
      let pos = AllPositive-get_elem? l.unstable.entries (i - l.unstable.offset) v.positive found in
      rw (maybe_term_inside l.unstable i (ground arith) v.bounded found)
        (unfold view in ground arith)
]

-- Between the dummy entry and the last one, `term` reads the sequence.
pub term-view :
    (l : RaftLog) (i : ℕ) → IsValid l → dummy l ≤ i → i ≤ last l → term l i ≡ ok (view l i)
unfolding term
term-view l i v low high =
    ground (arith, first_index-dummy l v, last_index-last l v, stored_term-view l i v low high)

-- Outside, it answers 0.
pub term_outside :
    (l : RaftLog) (i : ℕ) → IsValid l → (i < dummy l) ⊎ (last l < i) → term l i ≡ ok 0
unfolding term
term_outside l i v h = ground (arith, first_index-dummy l v, last_index-last l v)
