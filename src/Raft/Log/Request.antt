-- ===== src/Raft/Log/Request.antt =====
-- The answer to an append request: `maybeAppend` of apps/raft_demo/raft/log.go.
use swifty_go.Prelude.{
  ==_iff, leb, ◌&&◌, ◌==◌, ◌≢◌, if◌then◌else◌, ℕ, suc, ◌+◌, ◌<◌, ◌≤◌, ◌≡◌, refl, arith, List, [],
  ◌∷◌, true, ltb, length, take, drop, get_elem?, some, none, Bool-cases, inl, inr, ◌∙◌, ap, add64,
  min, max, take-append-drop, length-drop, length-take, lt_of_get_elem?,
}
use native.Mathlib.Nat.{add-zero}
use swifty_go.Raft.Model.{Entry, ok}
use swifty_go.Raft.Log.{
  RaftLog, match_term, find_conflict, append_conflicting, commit_to, maybe_append,
}
use swifty_go.Raft.Log.View.{IsValid, view, IsContiguous, dummy, last, term_outside}
use swifty_go.Raft.Log.Append.{
  splice, IsAppendable, last-splice, splice-IsValid, view-splice_below, view-splice_from,
  IsContiguous-take,
}
use swifty_go.Raft.Log.Match.{
  Holds, AllHold, Found, no_conflict, conflict_at, match_term_inside, find_conflict-Found,
  AllHold-end,
}
use swifty_go.Raft.Log.Accept.{
  commit_to-max, IsRequest, Grown, AgreesWithCommitted, AllHold-append, AllHold-written,
  AllHold-below, append_of_IsAppendable, agrees_at, index_at, suffix-IsAppendable, drop_slice,
}

-- the entries of a spliced suffix are all held
spliced-AllHold :
    (l : RaftLog) (log_index log_term k : ℕ) (es : List Entry)
    → IsValid l
    → IsRequest l log_index log_term es
    → k < length es
    → IsAppendable l (suc log_index + k) (drop k es)
    → AllHold l (take k es)
    → AllHold (splice l (suc log_index + k) (drop k es)) es
spliced-AllHold l log_index log_term k es v q inside a all =
    let start = suc log_index + k in
    let l' = splice l start (drop k es) in
    let top : start ≤ l.unstable.offset + length l.unstable.entries =
      omega (arith, a.adjacent, v.above) in
    let below : AllHold l' (take k es) =
      AllHold-below l start (drop k es) (suc log_index) (take k es) v a
        (IsContiguous-take (suc log_index) k es q.in_a_row) (omega (arith, length-take k es)) all in
    let written : AllHold l' (drop k es) =
      AllHold-written l' start 0 (drop k es) (drop k es) (rw add-zero a.in_a_row)
        (λ j e found. rw add-zero (view-splice_from l start (drop k es) j top found))
        (omega (arith, v.applied, v.from_dummy, a.uncommitted))
        (omega (arith, last-splice l start (drop k es) v a, length-drop k es)) in
    rw (take-append-drop k es) at (AllHold-append l' (take k es) (drop k es) below written)

-- a conflict lies beyond what is committed
conflict_uncommitted :
    (l : RaftLog) (i k : ℕ) (es : List Entry) {e : Entry}
    → AgreesWithCommitted l es
    → IsContiguous i es
    → get_elem? es k ≡ some e
    → (¬ Holds l e.index e.term)
    → l.commit_index < i + k
conflict_uncommitted l i k es {e} agrees row found differs =
    elim (Bool-cases (ltb l.commit_index (i + k))) [
      | inl new ↦ ground arith
      | inr old ↦
          absurd
            (differs (agrees_at l es k agrees found (ground (arith, index_at i es k row found))))
    ]

append_conflicting-Grown :
    (l : RaftLog) (log_index log_term c : ℕ) (es : List Entry)
    → IsValid l
    → IsRequest l log_index log_term es
    → Holds l log_index log_term
    → AgreesWithCommitted l es
    → Found l (suc log_index) es c
    → (l' : RaftLog) × (append_conflicting l log_index c es ≡ ok l')
      × Grown l l' log_index log_term es
unfolding append_conflicting
append_conflicting-Grown l log_index log_term c es v q prev agrees (no_conflict z all) = (
  l,
  rw z refl,
  record {
    valid = v;
    previous = prev;
    holds = all;
    kept = λ i h. refl;
    same_commit = refl;
    reaches =
        omega (arith, AllHold-end l (suc log_index) es q.in_a_row all (omega (arith, prev.1)));
  },
)
append_conflicting-Grown l log_index log_term c es v q prev agrees
      (conflict_at k at e found differs all top) =
    let start = suc log_index + k in
    let inside = lt_of_get_elem? es k found in
    let new = conflict_uncommitted l (suc log_index) k es agrees q.in_a_row found differs in
    let a = suffix-IsAppendable l log_index log_term k es q inside new (omega (arith, top, at)) in
    let l' = splice l start (drop k es) in
    (
      l',
      rw at (
          ground (
            arith,
            drop_slice es log_index k inside q.fits,
            append_of_IsAppendable l start (drop k es) v a,
          )),
      record {
        valid = splice-IsValid l start (drop k es) v a;
        previous = (
          prev.0,
          omega (arith, last-splice l start (drop k es) v a, length-drop k es),
          view-splice_below l start (drop k es) log_index (omega arith)
                (omega (arith, a.adjacent, v.above))
              ∙ prev.2,
        );
        holds = spliced-AllHold l log_index log_term k es v q inside a all;
        kept = λ i h.
            view-splice_below l start (drop k es) i (omega arith)
              (omega (arith, a.adjacent, v.above));
        same_commit = refl;
        reaches = omega (arith, last-splice l start (drop k es) v a, length-drop k es);
      },
    )

AllHold-commit :
    (l : RaftLog) (n : ℕ) (es : List Entry)
    → AllHold l es
    → AllHold (record l { commit_index = n }) es
unfolding view
AllHold-commit l n [] all = tt
AllHold-commit l n (e ∷ es) all = (all.0, AllHold-commit l n es all.1)

-- What a follower's log is after a request that it accepts: it holds the entry before the request
-- and all of its entries, what was committed is unchanged, and the commit index follows the
-- leader's as far as the request reaches, and never back.
pub record IsAccepted (l l' : RaftLog) (log_index log_term commit : ℕ) (es : List Entry)
    : Type 0 where
  pub valid : IsValid l'
  pub previous : Holds l' log_index log_term
  pub holds : AllHold l' es
  pub kept : (i : ℕ) → i ≤ l.commit_index → view l' i ≡ view l i
  pub committed : l'.commit_index ≡ max l.commit_index (min commit (log_index + length es))

Grown-IsAccepted :
    (l l' : RaftLog) (log_index log_term commit : ℕ) (es : List Entry)
    → Grown l l' log_index log_term es
    → (l'' : RaftLog) × (commit_to l' (min commit (log_index + length es)) ≡ ok l'')
      × IsAccepted l l'' log_index log_term commit es
unfolding view
Grown-IsAccepted l l' log_index log_term commit es g =
    let n = min commit (log_index + length es) in
    let (done, valid) = commit_to-max l' n g.valid (omega (arith, g.reaches)) in
    (
      record l' { commit_index = max l'.commit_index n },
      done,
      record {
        valid = valid;
        previous = g.previous;
        holds = AllHold-commit l' (max l'.commit_index n) es g.holds;
        kept = g.kept;
        committed = ap (λ c. max c n) g.same_commit;
      },
    )

maybe_append_steps :
    (l l' l'' : RaftLog) (log_index log_term commit c n : ℕ) (es : List Entry)
    → match_term l log_index log_term ≡ ok true
    → find_conflict l es ≡ ok c
    → append_conflicting l log_index c es ≡ ok l'
    → add64 log_index (length es) ≡ n
    → commit_to l' (min commit n) ≡ ok l''
    → maybe_append l log_index log_term commit es ≡ ok (l'', some n)
unfolding maybe_append
maybe_append_steps l l' l'' log_index log_term commit c n es same stops appended exact done =
    rw (same, stops, exact, appended, done)

match_term_of_Holds : (l : RaftLog) (i t : ℕ) → IsValid l → Holds l i t → match_term l i t ≡ ok true
match_term_of_Holds l i t v h = rw (match_term_inside l i t v h.0 h.1, h.2) (ground arith)

-- A request whose entries do not contradict what is committed here, and whose previous entry the
-- log holds, is accepted without a panic, and answered with the index of its last entry.
pub maybe_append-accepts :
    (l : RaftLog) (log_index log_term commit : ℕ) (es : List Entry)
    → IsValid l
    → IsRequest l log_index log_term es
    → AgreesWithCommitted l es
    → Holds l log_index log_term
    → (l' : RaftLog) × (maybe_append l log_index log_term commit es
        ≡ ok (l', some (log_index + length es)))
      × IsAccepted l l' log_index log_term commit es
maybe_append-accepts l log_index log_term commit es v q agrees prev =
    let (c, stops, found) =
      find_conflict-Found l (suc log_index) es v q.in_a_row q.all_positive
        (omega (arith, prev.1)) in
    let (l', appended, grown) =
      append_conflicting-Grown l log_index log_term c es v q prev agrees found in
    let (l'', done, accepted) = Grown-IsAccepted l l' log_index log_term commit es grown in
    (
      l'',
      maybe_append_steps l l' l'' log_index log_term commit c (log_index + length es) es
          (match_term_of_Holds l log_index log_term v prev) stops appended (omega (arith, q.fits))
          done,
      accepted,
    )

-- the term at an index, which is 0 where the log has no entry
unfoldable pub term_or_zero : RaftLog → ℕ → ℕ
unfolding view
term_or_zero l i = if leb (dummy l) i && leb i (last l) then view l i else 0

match_term-term_or_zero :
    (l : RaftLog) (i t : ℕ) → IsValid l → match_term l i t ≡ ok (term_or_zero l i == t)
unfolding term_or_zero match_term
match_term-term_or_zero l i t v = elim (Bool-cases (leb (dummy l) i && leb i (last l))) [
  | inl q ↦ rw q (ground (arith, match_term_inside l i t v))
  | inr q ↦ rw q (ground (arith, term_outside l i v))
]

-- In a valid log a request is rejected, and changes nothing, exactly when the term at its previous
-- index is not the one that it names, where an index without an entry has the term 0: so the request is
-- rejected if its previous entry is not in the log and its term is not 0, and a request that names the
-- term 0 beyond the log's end is not.
pub maybe_append-rejects :
    (l : RaftLog) (log_index log_term commit : ℕ) (es : List Entry)
    → IsValid l
    → (term_or_zero l log_index ≢ log_term
        → maybe_append l log_index log_term commit es ≡ ok (l, none))
      × (term_or_zero l log_index ≡ log_term
          → (l' : RaftLog) → maybe_append l log_index log_term commit es ≢ ok (l', none))
unfolding maybe_append
maybe_append-rejects l log_index log_term commit es v = (
  λ differs. ground (
    arith,
    match_term-term_or_zero l log_index log_term v,
    ==_iff (term_or_zero l log_index) log_term,
  ),
  λ same l' e. ground (
    arith,
    match_term-term_or_zero l log_index log_term v,
    ==_iff (term_or_zero l log_index) log_term,
  ),
)
