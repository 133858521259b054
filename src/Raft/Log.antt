-- ===== src/Raft/Log.antt =====
-- `raftLog` of apps/raft_demo/raft/log.go, over MemoryStorage, the one Storage of the package.
-- A method that changes the log returns the new one beside its result.
pub mod View
pub mod Append
pub mod Match
pub mod Accept
pub mod Request
use swifty_go.Prelude.{
  ℕ, ◌+◌, ◌&&◌, ◌||◌, Bool, true, false, Option, none, some, List, [], ◌∷◌, ◌++◌, ltb, leb, ◌==◌,
  if◌then◌else◌, length, add64, sub64, min, max, not,
}
use swifty_go.Raft.Model.{Entry, compacted, unavailable, Outcome, ok, err, panic, ◌>>=◌, must}
use swifty_go.Raft.Storage
use swifty_go.Raft.Storage.{MemoryStorage, slice as slice_list}
use swifty_go.Raft.Unstable
use swifty_go.Raft.Unstable.{Unstable}

pub record RaftLog : Type 0 where
  pub storage : MemoryStorage
  pub unstable : Unstable
  pub commit_index : ℕ
  pub apply_index : ℕ

-- `newRaftLog`; the nil storage that it refuses has no counterpart here.
unfoldable pub new_raft_log : MemoryStorage → Outcome RaftLog
new_raft_log storage = do
  first ← must (Storage.first_index storage)
  last ← must (Storage.last_index storage)
  ok (record {
    storage = storage;
    unstable = record { entries = []; offset = add64 last 1 };
    commit_index = sub64 first 1;
    apply_index = sub64 first 1;
  })

unfoldable pub stable_to : RaftLog → ℕ → ℕ → Outcome RaftLog
stable_to r i t = do u ← Unstable.stable_to r.unstable i t; ok (record r { unstable = u })

unfoldable pub unstable_entries : RaftLog → List Entry
unstable_entries r = r.unstable.entries

unfoldable pub first_index : RaftLog → Outcome ℕ
first_index r = must (Storage.first_index r.storage)

unfoldable pub last_index : RaftLog → Outcome ℕ
last_index r = elim (Unstable.maybe_last_index r.unstable) [
  | some i ↦ ok i
  | none ↦ must (Storage.last_index r.storage)
]

unfoldable pub must_check_out_of_bounds : RaftLog → ℕ → ℕ → Outcome (Unit {0})
must_check_out_of_bounds r lo hi = if ltb hi lo then panic else (do
  first ← first_index r
  if ltb lo first
      then panic
      else last_index r >>= λ last. if ltb (add64 last 1) hi then panic else ok tt)

-- the persisted part of `slice`
unfoldable pub stable_part : RaftLog → ℕ → ℕ → Outcome (List Entry)
stable_part r lo hi =
    if ltb lo r.unstable.offset
    then must (Storage.entries r.storage lo (min r.unstable.offset hi))
    else ok []

-- the unpersisted part of `slice`
unfoldable pub unstable_part : RaftLog → ℕ → ℕ → Outcome (List Entry)
unstable_part r lo hi =
    if ltb r.unstable.offset hi
    then Unstable.slice r.unstable (max lo r.unstable.offset) hi
    else ok []

unfoldable pub slice : RaftLog → ℕ → ℕ → Outcome (List Entry)
slice r lo hi = must_check_out_of_bounds r lo hi >>= λ _.
    if lo == hi
    then ok []
    else (do stable ← stable_part r lo hi; new ← unstable_part r lo hi; ok (stable ++ new))

-- committed entries that are not applied yet
unfoldable pub next_entries : RaftLog → Outcome (List Entry)
next_entries r = do
  first ← first_index r
  let off = max (add64 r.apply_index 1) first
  if ltb off (add64 r.commit_index 1) then must (slice r off (add64 r.commit_index 1)) else ok []

unfoldable pub append : RaftLog → List Entry → Outcome (RaftLog × ℕ)
append r [] = last_index r >>= λ last. ok (r, last)
append r (e ∷ es) = if ltb (sub64 e.index 1) r.commit_index then panic else (do
  u ← Unstable.truncate_and_append r.unstable (e ∷ es)
  let r' = record r { unstable = u }
  last ← last_index r'
  ok (r', last))

-- `term`, after the bounds are tested
unfoldable pub stored_term : RaftLog → ℕ → Outcome ℕ
stored_term r i = Unstable.maybe_term r.unstable i >>= elim [
  | none ↦ Storage.term r.storage i
  | some t ↦ if t == 0 then Storage.term r.storage i else ok t
]

unfoldable pub term : RaftLog → ℕ → Outcome ℕ
term r i = do
  first ← first_index r
  last ← last_index r
  if ltb i (sub64 first 1) || ltb last i then ok 0 else stored_term r i

unfoldable pub last_term : RaftLog → Outcome ℕ
last_term r = last_index r >>= λ last. must (term r last)

unfoldable pub is_up_to_date : RaftLog → ℕ → ℕ → Outcome Bool
is_up_to_date r index term = do
  t ← last_term r
  last ← last_index r
  ok (ltb t term || term == t && leb last index)

unfoldable pub applied_to : RaftLog → ℕ → Outcome RaftLog
applied_to r i =
    if i == 0
    then ok r
    else if ltb r.commit_index i || ltb i r.apply_index
    then panic
    else ok (record r { apply_index = i })

unfoldable pub entries : RaftLog → ℕ → Outcome (List Entry)
entries r i = last_index r >>= λ last. if ltb last i then ok [] else slice r i (add64 last 1)

unfoldable pub commit_to : RaftLog → ℕ → Outcome RaftLog
commit_to r to =
    if leb to r.commit_index
    then ok r
    else last_index r >>= λ last. if ltb last to then panic else ok (record r { commit_index = to })

unfoldable pub zero_term_on_err_compacted : Outcome ℕ → Outcome ℕ
zero_term_on_err_compacted (ok t) = ok t
zero_term_on_err_compacted (err compacted) = ok 0
zero_term_on_err_compacted (err unavailable) = panic
zero_term_on_err_compacted panic = panic

unfoldable pub maybe_commit : RaftLog → ℕ → ℕ → Outcome (RaftLog × Bool)
maybe_commit r max_index t =
    if ltb r.commit_index max_index
    then (do
      found ← zero_term_on_err_compacted (term r max_index)
      if found == t then (do r' ← commit_to r max_index; ok (r', true)) else ok (r, false))
    else ok (r, false)

unfoldable pub match_term : RaftLog → ℕ → ℕ → Outcome Bool
match_term r log_index log_term = elim (term r log_index) [
  | ok t ↦ ok (t == log_term)
  | err _ ↦ ok false
  | panic ↦ panic
]

unfoldable pub find_conflict : RaftLog → List Entry → Outcome ℕ
find_conflict r [] = ok 0
find_conflict r (e ∷ es) = elim (match_term r e.index e.term) [
  | ok true ↦ find_conflict r es
  | ok false ↦ ok e.index
  | err x ↦ err x
  | panic ↦ panic
]

-- the `switch` of `maybeAppend`
unfoldable pub append_conflicting : RaftLog → ℕ → ℕ → List Entry → Outcome RaftLog
append_conflicting r log_index conflict_start es =
    if conflict_start == 0 then ok r else if leb conflict_start r.commit_index then panic else (do
      new ← slice_list es (sub64 conflict_start (add64 log_index 1)) (length es)
      r' ← append r new
      ok r'.0)

-- `none` is the rejection, `(0, false)`.
unfoldable pub maybe_append : RaftLog → ℕ → ℕ → ℕ → List Entry → Outcome (RaftLog × Option ℕ)
maybe_append r log_index log_term commit_index es = do
  matches ← match_term r log_index log_term
  if not matches then ok (r, none) else (do
    conflict_start ← find_conflict r es
    r' ← append_conflicting r log_index conflict_start es
    r'' ← commit_to r' (min commit_index (add64 log_index (length es)))
    ok (r'', some (add64 log_index (length es))))
