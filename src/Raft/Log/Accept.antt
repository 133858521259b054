-- ===== src/Raft/Log/Accept.antt =====
-- A follower's log after an append request: `maybeAppend` and `commitTo` of
-- apps/raft_demo/raft/log.go.
use swifty_go.Prelude.{
  ℕ, zero, suc, ◌+◌, ◌-◌, ◌<◌, ◌≤◌, ◌≡◌, refl, arith, List, [], ◌∷◌, ◌++◌, length, drop, get_elem?,
  some, ◌⊎◌, ◌∙◌, ap, subst, add64, sub64, half64, max, length-drop, take_whole,
}
use swifty_go.Raft.Model.{Entry, ok}
use swifty_go.Raft.Storage.{slice as slice_list}
use swifty_go.Raft.Log.{RaftLog, append, commit_to}
use swifty_go.Raft.Log.View.{IsValid, dummy, last, view, AllPositive, IsContiguous, last_index-last}
use swifty_go.Raft.Log.Append.{splice, IsAppendable, last-splice, append-splice, view-splice_below}
use swifty_go.Raft.Log.Match.{Holds, AllHold}

-- `commitTo` within the log raises the commit index to the given one.
pub commit_to-max :
    (l : RaftLog) (n : ℕ)
    → IsValid l
    → n ≤ last l
    → (commit_to l n ≡ ok (record l { commit_index = max l.commit_index n }))
      × IsValid (record l { commit_index = max l.commit_index n })
unfolding commit_to
commit_to-max l n v h = (
  ground (arith, last_index-last l v),
  record {
    stored = v.stored;
    above = v.above;
    no_gap = v.no_gap;
    persisted = v.persisted;
    bounded = v.bounded;
    stored_bounded = v.stored_bounded;
    contiguous = v.contiguous;
    positive = v.positive;
    applied = omega (arith, v.applied);
    from_dummy = v.from_dummy;
    committed = omega (arith, v.committed, h);
  },
)

-- An append request as a leader sends it: its entries follow the one at `log_index` in a row.
pub record IsRequest (l : RaftLog) (log_index log_term : ℕ) (es : List Entry) : Type 0 where
  pub genuine : (0 < log_term) ⊎ (log_index ≡ dummy l)
  pub in_a_row : IsContiguous (suc log_index) es
  pub all_positive : AllPositive es
  pub fits : log_index + length es + 1 < half64

-- no entry of the request contradicts what is committed here
abbrev pub AgreesWithCommitted : RaftLog → List Entry → Type 0
AgreesWithCommitted l [] = Unit {0}
AgreesWithCommitted l (e ∷ es) =
    (e.index ≤ l.commit_index → Holds l e.index e.term) × AgreesWithCommitted l es

IsContiguous-drop :
    (i k : ℕ) (es : List Entry)
    → IsContiguous i es
    → k ≤ length es
    → IsContiguous (i + k) (drop k es)
IsContiguous-drop i zero es row h = let e : i + 0 ≡ i = omega arith in rw e row
IsContiguous-drop i (suc k) [] row h = tt
IsContiguous-drop i (suc k) (e ∷ es) row h =
    let at : i + suc k ≡ suc i + k = omega arith in
    rw at (IsContiguous-drop (suc i) k es row.1 (omega arith))

AllPositive-drop : (k : ℕ) (es : List Entry) → AllPositive es → AllPositive (drop k es)
AllPositive-drop zero es p = p
AllPositive-drop (suc k) [] p = tt
AllPositive-drop (suc k) (e ∷ es) p = AllPositive-drop k es p.1

pub AllHold-append :
    (l : RaftLog) (xs ys : List Entry) → AllHold l xs → AllHold l ys → AllHold l (xs ++ ys)
AllHold-append l [] ys p q = q
AllHold-append l (x ∷ xs) ys p q = (p.0, AllHold-append l xs ys p.1 q)

-- the entries that a splice writes are held afterwards
pub AllHold-written :
    (l : RaftLog) (start i : ℕ) (es fs : List Entry)
    → IsContiguous (start + i) fs
    → ((k : ℕ) (e : Entry) → get_elem? fs k ≡ some e → view l (start + i + k) ≡ e.term)
    → dummy l ≤ start
    → start + i + length fs ≤ last l + 1
    → AllHold l fs
AllHold-written l start i es [] row h low high = tt
AllHold-written l start i es (f ∷ fs) row h low high = (
  (
    omega (arith, row.0),
    omega (arith, row.0),
    rw row.0 (ap (view l) (plus_zero (start + i)) ∙ h 0 f refl),
  ),
  AllHold-written l start (suc i) es fs (rw (plus_suc start i) row.1)
      (λ k e found. ap (view l) (shift start i k) ∙ h (suc k) e found) low (omega arith),
)
  where
    plus_zero : (n : ℕ) → n ≡ n + 0
    plus_zero n = omega arith

    plus_suc : (a b : ℕ) → a + suc b ≡ suc (a + b)
    plus_suc a b = omega arith

    shift : (a b c : ℕ) → a + suc b + c ≡ a + b + suc c
    shift a b c = omega arith

-- the entries below a splice that were held still are
pub AllHold-below :
    (l : RaftLog) (start : ℕ) (es : List Entry) (i : ℕ) (fs : List Entry)
    → IsValid l
    → IsAppendable l start es
    → IsContiguous i fs
    → i + length fs ≤ start
    → AllHold l fs
    → AllHold (splice l start es) fs
AllHold-below l start es i [] v a row h all = tt
AllHold-below l start es i (f ∷ fs) v a row h all = (
  (
    all.0.0,
    omega (arith, last-splice l start es v a, row.0, a.some_entry),
    view-splice_below l start es f.index (omega (arith, row.0)) (omega (arith, a.adjacent, v.above))
        ∙ all.0.2,
  ),
  AllHold-below l start es (suc i) fs v a row.1 (omega arith) all.1,
)

pub append_of_IsAppendable :
    (l : RaftLog) (start : ℕ) (es : List Entry)
    → IsValid l
    → IsAppendable l start es
    → append l es ≡ ok (splice l start es, last (splice l start es))
append_of_IsAppendable l start [] v a = absurd (omega (arith, a.some_entry))
append_of_IsAppendable l start (e ∷ es) v a =
    subst
      (λ s.
        IsAppendable l s (e ∷ es)
        → append l (e ∷ es) ≡ ok (splice l s (e ∷ es), last (splice l s (e ∷ es))))
      a.in_a_row.0 (append-splice l e es v) a

-- what the entries of a request do to the log: it holds them all, and keeps what is committed
pub record Grown (l l' : RaftLog) (log_index log_term : ℕ) (es : List Entry) : Type 0 where
  pub valid : IsValid l'
  pub previous : Holds l' log_index log_term
  pub holds : AllHold l' es
  pub kept : (i : ℕ) → i ≤ l.commit_index → view l' i ≡ view l i
  pub same_commit : l'.commit_index ≡ l.commit_index
  pub reaches : log_index + length es ≤ last l'

pub agrees_at :
    (l : RaftLog) (es : List Entry) (k : ℕ) {e : Entry}
    → AgreesWithCommitted l es
    → get_elem? es k ≡ some e
    → e.index ≤ l.commit_index
    → Holds l e.index e.term
agrees_at l [] k a found h = cc
agrees_at l (f ∷ fs) zero a found h = ground arith
agrees_at l (f ∷ fs) (suc k) a found h = agrees_at l fs k a.1 found h

pub index_at :
    (i : ℕ) (es : List Entry) (k : ℕ) {e : Entry}
    → IsContiguous i es
    → get_elem? es k ≡ some e
    → e.index ≡ i + k
index_at i [] k row found = cc
index_at i (f ∷ fs) zero row found = ground arith
index_at i (f ∷ fs) (suc k) row found = omega (arith, index_at (suc i) fs k row.1 found)

-- the suffix of a request that is appended
pub suffix-IsAppendable :
    (l : RaftLog) (log_index log_term k : ℕ) (es : List Entry)
    → IsRequest l log_index log_term es
    → k < length es
    → l.commit_index < suc log_index + k
    → suc log_index + k ≤ last l + 1
    → IsAppendable l (suc log_index + k) (drop k es)
suffix-IsAppendable l log_index log_term k es q inside new top = record {
  some_entry = omega (arith, length-drop k es);
  uncommitted = new;
  adjacent = top;
  in_a_row = IsContiguous-drop (suc log_index) k es q.in_a_row (omega arith);
  all_positive = AllPositive-drop k es q.all_positive;
  fits = omega (arith, length-drop k es, q.fits);
}

pub drop_slice :
    (es : List Entry) (log_index k : ℕ)
    → k < length es
    → log_index + length es + 1 < half64
    → slice_list es (sub64 (suc log_index + k) (add64 log_index 1)) (length es) ≡ ok (drop k es)
unfolding slice_list
drop_slice es log_index k inside fits =
    let at : sub64 (suc log_index + k) (add64 log_index 1) ≡ k = omega arith in
    rw at (ground (arith, take_whole (drop k es) (length es - k), length-drop k es))
