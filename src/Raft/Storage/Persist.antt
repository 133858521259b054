-- ===== src/Raft/Storage/Persist.antt =====
-- Writing to and reading from MemoryStorage (apps/raft_demo/raft/storage.go).
use swifty_go.Prelude.{
  ℕ, suc, zero, ◌+◌, ◌-◌, ◌≡◌, ◌<◌, ◌≤◌, refl, arith, List, [], ◌∷◌, ◌++◌, if◌then◌else◌, length,
  sub64, half64, get_elem?, take, Option, some, none, ltb, Bool-cases, inl, inr, length-take,
  length-append, get_elem?-append_left, get_elem?-append_right, get_elem?-take, ap, ◌∙◌,
  lt_of_get_elem?, get_elem?_of_lt, get_elem?_of_le, sym,
}
use swifty_go.Raft.Model.{Entry, Outcome, ok, err, compacted, unavailable}
use swifty_go.Raft.Storage.{MemoryStorage, term, append, base, last_index, slice, index}

-- the index of the dummy entry, which the storage always has
abbrev pub first : MemoryStorage → ℕ
first m = elim m.entries [ [] ↦ 0 | e ∷ _ ↦ e.index ]

pub record IsValid (m : MemoryStorage) : Type 0 where
  pub stored : 0 < length m.entries
  pub bounded : first m + length m.entries < half64

-- the stored entry at an index
abbrev pub stored_at : MemoryStorage → ℕ → Outcome ℕ
stored_at m i = elim (get_elem? m.entries (i - first m)) [
  | none ↦ err unavailable
  | some e ↦ ok e.term
]

base-first : (m : MemoryStorage) → IsValid m → base m ≡ ok (first m)
unfolding base
base-first m v = ground (arith, v.stored)

-- `Term` answers with the stored entry, ErrCompacted below the dummy entry and ErrUnavailable
-- beyond the last one.
pub term-stored_at :
    (m : MemoryStorage) (i : ℕ)
    → IsValid m
    → i < half64
    → term m i ≡ (if ltb i (first m) then err compacted else stored_at m i)
unfolding term index
term-stored_at m i v h =
    let offset = base-first m v in
    elim (Bool-cases (ltb i (first m))) [
      | inl below ↦ ground arith
      | inr above ↦
          let exact : sub64 i (first m) ≡ i - first m = ground arith in
          rw (offset, exact)
            (elim (Bool-cases (ltb (i - first m) (length m.entries))) [
              | inl inside ↦
                  let (e, found) = get_elem?_of_lt m.entries (i - first m) (ground arith) in
                  ground arith
              | inr beyond ↦
                  let missing = get_elem?_of_le m.entries (i - first m) (ground arith) in
                  ground arith
            ])
    ]

-- what `Append` leaves: the entries below the batch, then the batch
abbrev pub appended : MemoryStorage → Entry → List Entry → MemoryStorage
appended m e es = record m { entries = take (e.index - first m) m.entries ++ (e ∷ es) }

-- `Append` of a batch that begins behind the dummy entry, and leaves no gap, replaces what stood
-- from its first index on.
pub append-appended :
    (m : MemoryStorage) (e : Entry) (es : List Entry)
    → IsValid m
    → first m ≤ e.index
    → e.index ≤ first m + length m.entries
    → append m (e ∷ es) ≡ ok (appended m e es)
unfolding append last_index slice
append-appended m e es v low high =
    let exact : sub64 e.index (first m) ≡ e.index - first m = omega (arith, v.bounded) in
    rw (base-first m v, exact) (ground (arith, base-first m v, v.stored, v.bounded))

first-appended :
    (m : MemoryStorage) (e : Entry) (es : List Entry)
    → IsValid m
    → first m < e.index
    → first (appended m e es) ≡ first m
first-appended m e es v low =
    go m.entries (e.index - first m) (omega (arith, v.stored)) (omega arith)
  where
    head : List Entry → ℕ
    head xs = elim xs [ [] ↦ 0 | x ∷ _ ↦ x.index ]

    go : (xs : List Entry) (n : ℕ) → 0 < length xs → 0 < n → head (take n xs ++ (e ∷ es)) ≡ head xs
    go [] n h k = absurd (omega arith)
    go (x ∷ xs) zero h k = absurd (omega arith)
    go (x ∷ xs) (suc n) h k = refl

appended-IsValid :
    (m : MemoryStorage) (e : Entry) (es : List Entry)
    → IsValid m
    → first m < e.index
    → e.index ≤ first m + length m.entries
    → e.index + length (e ∷ es) < half64
    → IsValid (appended m e es)
appended-IsValid m e es v low high fits =
    let kept = take (e.index - first m) m.entries in
    let size = length-append kept (e ∷ es) in
    record {
      stored = omega (arith, size);
      bounded =
          omega
            (arith, size, length-take (e.index - first m) m.entries, first-appended m e es v low);
    }

below :
    (m : MemoryStorage) (e : Entry) (es : List Entry)
    → IsValid m
    → first m < e.index
    → e.index ≤ first m + length m.entries
    → (i : ℕ) → i < e.index
    → (if ltb i (first (appended m e es)) then err compacted else stored_at (appended m e es) i)
      ≡ (if ltb i (first m) then err compacted else stored_at m i)
below m e es v low high i h =
    let m' = appended m e es in
    let n = e.index - first m in
    let kept = take n m.entries in
    ap
      (λ b.
        if ltb i b
        then err compacted
        else elim (get_elem? m'.entries (i - b)) [ none ↦ err unavailable | some f ↦ ok f.term ])
      (first-appended m e es v low)
    ∙ elim (Bool-cases (ltb i (first m))) [
      | inl lower ↦ rw lower
      | inr inside ↦ rw inside (
          ap answer (
            get_elem?-append_left kept (e ∷ es) (i - first m)
              (ground (arith, length-take n m.entries))
            ∙ get_elem?-take n m.entries (i - first m) (ground arith)))
    ]
  where
    answer : Option Entry → Outcome ℕ
    answer o = elim o [ none ↦ err unavailable | some f ↦ ok f.term ]

-- After `Append` of a batch behind the dummy entry that leaves no gap, `Term` answers from the
-- batch for the indices of the batch, and for those below it as before.
pub term-append :
    (m : MemoryStorage) (e : Entry) (es : List Entry)
    → IsValid m
    → first m < e.index
    → e.index ≤ first m + length m.entries
    → e.index + length (e ∷ es) < half64
    → (m' : MemoryStorage) × (append m (e ∷ es) ≡ ok m')
      × ((k : ℕ) (f : Entry) → get_elem? (e ∷ es) k ≡ some f → term m' (e.index + k) ≡ ok f.term)
      × ((i : ℕ) → i < e.index → term m' i ≡ term m i)
term-append m e es v low high fits =
    let m' = appended m e es in
    let kept = take (e.index - first m) m.entries in
    let same = first-appended m e es v low in
    let v' = appended-IsValid m e es v low high fits in
    (
      m',
      append-appended m e es v (omega arith) high,
      (λ k f found.
          let inside = lt_of_get_elem? (e ∷ es) k found in
          let at : e.index + k - first m ≡ length kept + k =
            omega (arith, length-take (e.index - first m) m.entries) in
          let read : get_elem? m'.entries (e.index + k - first m') ≡ some f =
            ap (λ b. get_elem? m'.entries (e.index + k - b)) same
            ∙ ap (get_elem? m'.entries) at
            ∙ get_elem?-append_right kept (e ∷ es) (length kept + k) (omega arith)
            ∙ ap (get_elem? (e ∷ es)) (plus_minus (length kept) k)
            ∙ found in
          term-stored_at m' (e.index + k) v' (omega arith) ∙ ground arith),
      (λ i h.
          term-stored_at m' i v' (omega arith)
          ∙ below m e es v low high i h
          ∙ sym (term-stored_at m i v (omega arith))),
    )
  where
    plus_minus : (a b : ℕ) → a + b - a ≡ b
    plus_minus a b = omega arith
