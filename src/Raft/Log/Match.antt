-- ===== src/Raft/Log/Match.antt =====
-- Comparing the log with entries of a leader: `matchTerm` and `findConflict` of
-- apps/raft_demo/raft/log.go.
use swifty_go.Prelude.{
  ℕ, suc, ◌+◌, ◌<◌, ◌≤◌, ◌≡◌, refl, arith, List, [], ◌∷◌, true, false, ◌==◌, leb, length, get_elem?,
  take, some, Bool-cases, inl, inr, ◌⊎◌, ◌∙◌,
}
use swifty_go.Raft.Model.{Entry, ok}
use swifty_go.Raft.Log.{RaftLog, match_term, find_conflict}
use swifty_go.Raft.Log.View.{
  IsValid, dummy, last, view, AllPositive, IsContiguous, term-view, term_outside,
}

-- the log has an entry of the term `t` at the index `i`
abbrev pub Holds : RaftLog → ℕ → ℕ → Type 0
Holds l i t = (dummy l ≤ i) × (i ≤ last l) × (view l i ≡ t)

abbrev pub AllHold : RaftLog → List Entry → Type 0
AllHold l [] = Unit {0}
AllHold l (e ∷ es) = Holds l e.index e.term × AllHold l es

pub match_term_inside :
    (l : RaftLog) (i t : ℕ)
    → IsValid l
    → dummy l ≤ i
    → i ≤ last l
    → match_term l i t ≡ ok (view l i == t)
unfolding match_term
match_term_inside l i t v low high = rw (term-view l i v low high, match_term)

pub match_term_outside :
    (l : RaftLog) (i t : ℕ)
    → IsValid l
    → 0 < t
    → (i < dummy l) ⊎ (last l < i)
    → match_term l i t ≡ ok false
unfolding match_term
match_term_outside l i t v pos h = rw (term_outside l i v h, match_term) (ground arith)

-- `matchTerm` decides whether the log holds an entry, if the term is not 0.
pub match_term-Holds :
    (l : RaftLog) (i t : ℕ)
    → IsValid l
    → (0 < t) ⊎ (i ≡ dummy l)
    → ((match_term l i t ≡ ok true) × Holds l i t)
      ⊎ ((match_term l i t ≡ ok false) × (¬ Holds l i t))
match_term-Holds l i t v (inr e) = ground (arith, v.above, match_term_inside l i t v)
match_term-Holds l i t v (inl pos) = elim (Bool-cases (leb (dummy l) i)) [
  | inl low ↦ elim (Bool-cases (leb i (last l))) [
    | inl high ↦ ground (arith, match_term_inside l i t v)
    | inr beyond ↦
        inr (match_term_outside l i t v pos (inr (ground arith)), λ h. absurd (ground arith))
  ]
  | inr below ↦
      inr (match_term_outside l i t v pos (inl (ground arith)), λ h. absurd (ground arith))
]

-- where `findConflict` stops in entries from `i` on
pub data Found (l : RaftLog) (i : ℕ) (es : List Entry) (c : ℕ) : Type 0 where
  no_conflict : c ≡ 0 → AllHold l es → Found l i es c
  conflict_at :
      (k : ℕ)
      → c ≡ i + k
      → (e : Entry) → get_elem? es k ≡ some e
      → (¬ Holds l e.index e.term)
      → AllHold l (take k es)
      → c ≤ last l + 1
      → Found l i es c

find_conflict_same :
    (l : RaftLog) (e : Entry) (es : List Entry)
    → match_term l e.index e.term ≡ ok true
    → find_conflict l (e ∷ es) ≡ find_conflict l es
unfolding find_conflict
find_conflict_same l e es h = ground arith

find_conflict_differs :
    (l : RaftLog) (e : Entry) (es : List Entry)
    → match_term l e.index e.term ≡ ok false
    → find_conflict l (e ∷ es) ≡ ok e.index
unfolding find_conflict
find_conflict_differs l e es h = ground arith

pub find_conflict-Found :
    (l : RaftLog) (i : ℕ) (es : List Entry)
    → IsValid l
    → IsContiguous i es
    → AllPositive es
    → i ≤ last l + 1
    → (c : ℕ) × (find_conflict l es ≡ ok c) × Found l i es c
find_conflict-Found l i [] v row pos top = (0, unfold find_conflict in refl, no_conflict refl tt)
find_conflict-Found l i (e ∷ es) v row pos top =
    elim (match_term-Holds l e.index e.term v (inl pos.0)) [
      | inl (same, h) ↦
          let (c, stops, found) =
            find_conflict-Found l (suc i) es v row.1 pos.1 (omega (arith, row.0)) in
          (c, find_conflict_same l e es same ∙ stops, later l i e es c h found)
      | inr (differs, h) ↦ (
        e.index,
        find_conflict_differs l e es differs,
        conflict_at 0 (omega (arith, row.0)) e refl h tt (omega (arith, row.0)),
      )
    ]
  where
    later :
        (l : RaftLog) (i : ℕ) (e : Entry) (es : List Entry) (c : ℕ)
        → Holds l e.index e.term
        → Found l (suc i) es c
        → Found l i (e ∷ es) c
    later l i e es c h (no_conflict z all) = no_conflict z (h, all)
    later l i e es c h (conflict_at k at f found differs all beyond) =
        conflict_at (suc k) (omega arith) f found differs (h, all) beyond

-- Entries in a row that the log holds end in the log.
pub AllHold-end :
    (l : RaftLog) (i : ℕ) (es : List Entry)
    → IsContiguous i es
    → AllHold l es
    → i ≤ last l + 1
    → i + length es ≤ last l + 1
AllHold-end l i [] row all top = omega arith
AllHold-end l i (e ∷ es) row all top =
    omega (arith, AllHold-end l (suc i) es row.1 all.1 (omega (arith, row.0, all.0)))
