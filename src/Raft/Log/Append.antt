-- ===== src/Raft/Log/Append.antt =====
-- Writing to the log: `truncateAndAppend` and `append` of apps/raft_demo/raft/log.go, as a splice
-- of the sequence of terms.
use swifty_go.Prelude.{
  ℕ, zero, suc, ◌+◌, ◌-◌, ◌<◌, ◌≤◌, ◌≡◌, arith, List, [], ◌∷◌, ◌++◌, true, false, ltb, leb, length,
  get_elem?, take, some, half64, sub64, ap, ◌∙◌, min, get_elem?-take, get_elem?-append_left,
  get_elem?-append_right, take_whole, length-take, length-append, Bool-cases, inl, inr,
}
use swifty_go.Raft.Model.{Entry, ok}
use swifty_go.Raft.Storage.{slice as slice_list}
use swifty_go.Raft.Unstable
use swifty_go.Raft.Unstable.{Unstable, truncate_and_append}
use swifty_go.Raft.Log.{RaftLog, append}
use swifty_go.Raft.Log.View.{
  IsValid, last, view, term_of, AllPositive, IsContiguous, last_index-last,
}

-- the entries from `start` on replaced by `es`
abbrev pub spliced : Unstable → ℕ → List Entry → Unstable
spliced u start es = record {
  entries = take (start - u.offset) u.entries ++ es;
  offset = min u.offset start;
}

abbrev pub splice : RaftLog → ℕ → List Entry → RaftLog
splice l start es = record l { unstable = spliced l.unstable start es }

whole_slice :
    (u : Unstable) (i : ℕ)
    → u.offset ≤ i
    → i ≤ u.offset + length u.entries
    → u.offset + length u.entries < half64
    → Unstable.slice u u.offset i ≡ ok (take (i - u.offset) u.entries)
unfolding Unstable.slice Unstable.must_check_out_of_bounds slice_list
whole_slice u i low high small =
    let zero_offset : sub64 u.offset u.offset ≡ 0 = omega arith in
    let exact : sub64 i u.offset ≡ i - u.offset = omega arith in
    rw (zero_offset, exact) (ground arith)

take_all : (u : Unstable) (n : ℕ) → length u.entries ≤ n → take n u.entries ≡ u.entries
take_all u n h = take_whole u.entries n h

pub truncate_and_append-spliced :
    (u : Unstable) (e : Entry) (es : List Entry)
    → e.index ≤ u.offset + length u.entries
    → u.offset + length u.entries < half64
    → truncate_and_append u (e ∷ es) ≡ ok (spliced u e.index (e ∷ es))
unfolding truncate_and_append
truncate_and_append-spliced u e es high small =
    let n = e.index - u.offset in
    elim (Bool-cases (leb e.index u.offset)) [
      | inl low ↦
          let none_kept : n ≡ 0 = ground arith in
          let start : min u.offset e.index ≡ e.index = ground arith in
          rw (none_kept, start) (ground (arith, take_all u n))
      | inr above ↦
          let start : min u.offset e.index ≡ u.offset = ground arith in
          rw start (ground (arith, take_all u n, whole_slice u e.index))
    ]

min-take :
    (u : Unstable) (start : ℕ)
    → start ≤ u.offset + length u.entries
    → min u.offset start + length (take (start - u.offset) u.entries) ≡ start
min-take u start h = omega (arith, length-take (start - u.offset) u.entries)

-- below the splice the sequence is what it was
pub view-splice_below :
    (l : RaftLog) (start : ℕ) (es : List Entry) (i : ℕ)
    → i < start
    → start ≤ l.unstable.offset + length l.unstable.entries
    → view (splice l start es) i ≡ view l i
unfolding view
view-splice_below l start es i h top = elim (Bool-cases (ltb i l.unstable.offset)) [
  | inl stable ↦
      let before : ltb i (min l.unstable.offset start) ≡ true = ground arith in rw (before, stable)
  | inr unstable ↦
      let n = start - l.unstable.offset in
      let offset : min l.unstable.offset start ≡ l.unstable.offset = ground arith in
      rw (offset, unstable)
        (ap term_of (
          get_elem?-append_left (take n l.unstable.entries) es (i - l.unstable.offset)
            (ground (arith, length-take n l.unstable.entries))
          ∙ get_elem?-take n l.unstable.entries (i - l.unstable.offset) (ground arith)))
]

-- and from there on it is that of the new entries
pub view-splice_from :
    (l : RaftLog) (start : ℕ) (es : List Entry) (k : ℕ) {e : Entry}
    → start ≤ l.unstable.offset + length l.unstable.entries
    → get_elem? es k ≡ some e
    → view (splice l start es) (start + k) ≡ e.term
unfolding view
view-splice_from l start es k top found =
    let kept = take (start - l.unstable.offset) l.unstable.entries in
    let low = min l.unstable.offset start in
    let at : start + k - low - length kept ≡ k = omega (arith, min-take l.unstable start top) in
    let inside : ltb (start + k) low ≡ false = ground arith in
    rw inside (
      ap term_of (
        get_elem?-append_right kept es (start + k - low)
          (omega (arith, min-take l.unstable start top))
        ∙ ap (get_elem? es) at
        ∙ found))

IsContiguous-append :
    (i j : ℕ) (xs ys : List Entry)
    → i + length xs ≡ j
    → IsContiguous i xs
    → IsContiguous j ys
    → IsContiguous i (xs ++ ys)
IsContiguous-append i j [] ys h p q = let e : i ≡ j = omega arith in rw e q
IsContiguous-append i j (x ∷ xs) ys h p q =
    (p.0, IsContiguous-append (suc i) j xs ys (omega arith) p.1 q)

pub IsContiguous-take : (i n : ℕ) (xs : List Entry) → IsContiguous i xs → IsContiguous i (take n xs)
IsContiguous-take i zero xs p = tt
IsContiguous-take i (suc n) [] p = tt
IsContiguous-take i (suc n) (x ∷ xs) p = (p.0, IsContiguous-take (suc i) n xs p.1)

AllPositive-append : (xs ys : List Entry) → AllPositive xs → AllPositive ys → AllPositive (xs ++ ys)
AllPositive-append [] ys p q = q
AllPositive-append (x ∷ xs) ys p q = (p.0, AllPositive-append xs ys p.1 q)

AllPositive-take : (n : ℕ) (xs : List Entry) → AllPositive xs → AllPositive (take n xs)
AllPositive-take zero xs p = tt
AllPositive-take (suc n) [] p = tt
AllPositive-take (suc n) (x ∷ xs) p = (p.0, AllPositive-take n xs p.1)

-- What `append` may be given: entries with their indices in a row, of terms that are not 0, behind
-- the commit index, that leave no gap and fit.
pub record IsAppendable (l : RaftLog) (start : ℕ) (es : List Entry) : Type 0 where
  pub some_entry : 0 < length es
  pub uncommitted : l.commit_index < start
  pub adjacent : start ≤ last l + 1
  pub in_a_row : IsContiguous start es
  pub all_positive : AllPositive es
  pub fits : start + length es < half64

length-spliced :
    (l : RaftLog) (start : ℕ) (es : List Entry)
    → start ≤ l.unstable.offset + length l.unstable.entries
    → (splice l start es).unstable.offset + length (splice l start es).unstable.entries
      ≡ start + length es
length-spliced l start es top = omega (
  arith,
  min-take l.unstable start top,
  length-append (take (start - l.unstable.offset) l.unstable.entries) es,
)

pub last-splice :
    (l : RaftLog) (start : ℕ) (es : List Entry)
    → IsValid l
    → IsAppendable l start es
    → last (splice l start es) ≡ start + length es - 1
last-splice l start es v a =
    let size = length-spliced l start es (omega (arith, v.above, a.adjacent)) in omega (arith, size)

kept-IsContiguous :
    (u : Unstable) (start : ℕ)
    → IsContiguous u.offset u.entries
    → IsContiguous (min u.offset start) (take (start - u.offset) u.entries)
kept-IsContiguous u start c = elim (Bool-cases (leb u.offset start)) [
  | inl above ↦
      let e : min u.offset start ≡ u.offset = ground arith in
      rw e (IsContiguous-take u.offset (start - u.offset) u.entries c)
  | inr below ↦ let e : start - u.offset ≡ 0 = ground arith in rw e tt
]

-- A splice keeps the log well formed.
pub splice-IsValid :
    (l : RaftLog) (start : ℕ) (es : List Entry)
    → IsValid l
    → IsAppendable l start es
    → IsValid (splice l start es)
splice-IsValid l start es v a =
    let top : start ≤ l.unstable.offset + length l.unstable.entries =
      omega (arith, a.adjacent, v.above) in
    let size = length-spliced l start es top in
    let kept = take (start - l.unstable.offset) l.unstable.entries in
    record {
      stored = v.stored;
      above = omega (arith, v.above, v.applied, v.from_dummy, a.uncommitted);
      no_gap = omega (arith, v.no_gap);
      persisted = λ e. absurd (omega (arith, length-append kept es, a.some_entry));
      bounded = omega (arith, size, a.fits);
      stored_bounded = v.stored_bounded;
      contiguous =
          IsContiguous-append (min l.unstable.offset start) start kept es
            (min-take l.unstable start top) (kept-IsContiguous l.unstable start v.contiguous)
            a.in_a_row;
      positive =
          AllPositive-append kept es
            (AllPositive-take (start - l.unstable.offset) l.unstable.entries v.positive)
            a.all_positive;
      applied = v.applied;
      from_dummy = v.from_dummy;
      committed = omega (arith, last-splice l start es v a, a.uncommitted, a.some_entry);
    }

-- In a valid log, for entries that it can take (IsAppendable: in a row, with positive terms, from an
-- index after what is committed to the one after the last, and the log stays below 2 ^ 63), `append`
-- returns the last index of the new log, and writes the entries over what stands from the first
-- one's index on.
pub append-splice :
    (l : RaftLog) (e : Entry) (es : List Entry)
    → IsValid l
    → IsAppendable l e.index (e ∷ es)
    → append l (e ∷ es) ≡ ok (splice l e.index (e ∷ es), last (splice l e.index (e ∷ es)))
unfolding append
append-splice l e es v a = ground (
  arith,
  v.bounded,
  a.uncommitted,
  a.adjacent,
  v.above,
  a.fits,
  truncate_and_append-spliced l.unstable e es,
  last_index-last (splice l e.index (e ∷ es)) (splice-IsValid l e.index (e ∷ es) v a),
)
