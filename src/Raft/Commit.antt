-- ===== src/Raft/Commit.antt =====
-- The leader's commit rule, `maybeCommit` of apps/raft_demo/raft/raft.go, against a majority.
use swifty_go.Prelude.{
  ℕ, zero, suc, ◌-◌, ◌<◌, ◌≤◌, ◌≡◌, ◌≢◌, refl, arith, List, [], ◌∷◌, Bool, true, false,
  if◌then◌else◌, leb, length, map, get_elem?, some, ap, sym, ◌∙◌,
}
use swifty_go.Raft.Model.{Outcome, ok, err, panic, ◌>>=◌}
use swifty_go.Raft.Storage.{index}
use swifty_go.Raft.Log
use swifty_go.Raft.Log.{RaftLog, zero_term_on_err_compacted}
use swifty_go.Raft.Progress.{Progress}
use swifty_go.Raft.Core.{Raft, insert_desc, sort_desc, maybe_commit, quorum}

-- how many of the numbers are at least `n`
abbrev pub count_ge : ℕ → List ℕ → ℕ
count_ge n [] = 0
count_ge n (x ∷ xs) = if leb n x then suc (count_ge n xs) else count_ge n xs

-- how many peers have matched the log up to `n`
abbrev pub supporters : ℕ → List (ℕ × Progress) → ℕ
supporters n [] = 0
supporters n ((id, pr) ∷ prs) =
    if leb n pr.matched then suc (supporters n prs) else supporters n prs

abbrev AllLe : ℕ → List ℕ → Type 0
AllLe b [] = Unit {0}
AllLe b (x ∷ xs) = (x ≤ b) × AllLe b xs

abbrev IsDescending : List ℕ → Type 0
IsDescending [] = Unit {0}
IsDescending (x ∷ xs) = AllLe x xs × IsDescending xs

AllLe-trans : (a b : ℕ) (xs : List ℕ) → a ≤ b → AllLe a xs → AllLe b xs
AllLe-trans a b [] h p = tt
AllLe-trans a b (x ∷ xs) h p = (omega (arith, p.0), AllLe-trans a b xs h p.1)

AllLe-insert_desc : (b x : ℕ) (xs : List ℕ) → x ≤ b → AllLe b xs → AllLe b (insert_desc x xs)
unfolding insert_desc
AllLe-insert_desc b x [] h p = (h, tt)
AllLe-insert_desc b x (y ∷ ys) h p = ground (arith, AllLe-insert_desc b x ys h)

insert_desc-IsDescending : (x : ℕ) (xs : List ℕ) → IsDescending xs → IsDescending (insert_desc x xs)
unfolding insert_desc
insert_desc-IsDescending x [] p = (tt, tt)
insert_desc-IsDescending x (y ∷ ys) p =
    ground (arith, insert_desc-IsDescending x ys, AllLe-trans y x ys, AllLe-insert_desc y x ys)

sort_desc-IsDescending : (xs : List ℕ) → IsDescending (sort_desc xs)
unfolding sort_desc
sort_desc-IsDescending [] = tt
sort_desc-IsDescending (x ∷ xs) =
    insert_desc-IsDescending x (sort_desc xs) (sort_desc-IsDescending xs)

count_ge-insert_desc : (n x : ℕ) (xs : List ℕ) → count_ge n (insert_desc x xs) ≡ count_ge n (x ∷ xs)
unfolding insert_desc
count_ge-insert_desc n x [] = refl
count_ge-insert_desc n x (y ∷ ys) = ground (arith, count_ge-insert_desc n x ys)

count_ge-sort_desc : (n : ℕ) (xs : List ℕ) → count_ge n (sort_desc xs) ≡ count_ge n xs
unfolding sort_desc
count_ge-sort_desc n [] = refl
count_ge-sort_desc n (x ∷ xs) =
    ground (arith, count_ge-insert_desc n x (sort_desc xs), count_ge-sort_desc n xs)

length-insert_desc : (x : ℕ) (xs : List ℕ) → length (insert_desc x xs) ≡ suc (length xs)
unfolding insert_desc
length-insert_desc x [] = refl
length-insert_desc x (y ∷ ys) = ground (arith, length-insert_desc x ys)

length-sort_desc : (xs : List ℕ) → length (sort_desc xs) ≡ length xs
unfolding sort_desc
length-sort_desc [] = refl
length-sort_desc (x ∷ xs) = ground (arith, length-insert_desc x (sort_desc xs), length-sort_desc xs)

-- In a descending list the k-th number is a lower bound of the first k + 1, and no greater number is.
count_ge_of_get_elem? :
    (xs : List ℕ) (k v : ℕ) → IsDescending xs → get_elem? xs k ≡ some v → k < count_ge v xs
count_ge_of_get_elem? [] k v p e = cc
count_ge_of_get_elem? (x ∷ xs) zero v p e = ground arith
count_ge_of_get_elem? (x ∷ xs) (suc k) v p e =
    ground (arith, count_ge_of_get_elem? xs k v p.1 e, le_of_get_elem? x xs k v p.0 e)
  where
    le_of_get_elem? : (b : ℕ) (ys : List ℕ) (i w : ℕ) → AllLe b ys → get_elem? ys i ≡ some w → w ≤ b
    le_of_get_elem? b [] i w q f = cc
    le_of_get_elem? b (y ∷ ys) zero w q f = ground arith
    le_of_get_elem? b (y ∷ ys) (suc i) w q f = le_of_get_elem? b ys i w q.1 f

count_ge_of_AllLe : (b n : ℕ) (xs : List ℕ) → AllLe b xs → b < n → count_ge n xs ≡ 0
count_ge_of_AllLe b n [] p h = refl
count_ge_of_AllLe b n (x ∷ xs) p h = ground (arith, count_ge_of_AllLe b n xs p.1 h)

le_of_count_ge :
    (xs : List ℕ) (k v n : ℕ)
    → IsDescending xs
    → get_elem? xs k ≡ some v
    → k < count_ge n xs
    → n ≤ v
le_of_count_ge [] k v n p e h = cc
le_of_count_ge (x ∷ xs) zero v n p e h = ground (arith, count_ge_of_AllLe x n xs p.0)
le_of_count_ge (x ∷ xs) (suc k) v n p e h = le_of_count_ge xs k v n p.1 e (ground arith)

count_ge-map :
    (n : ℕ) (prs : List (ℕ × Progress)) → count_ge n (map (λ p. p.1.matched) prs) ≡ supporters n prs
count_ge-map n [] = refl
count_ge-map n (p ∷ prs) = ground (arith, count_ge-map n prs)

length-map_matched : (prs : List (ℕ × Progress)) → length (map (λ p. p.1.matched) prs) ≡ length prs
length-map_matched [] = refl
length-map_matched (p ∷ prs) = ap suc (length-map_matched prs)

index_of_lt :
    (xs : List ℕ) (k : ℕ)
    → k < length xs
    → (v : ℕ) × (index xs k ≡ ok v) × (get_elem? xs k ≡ some v)
unfolding index
index_of_lt [] k h = elim h [ ]
index_of_lt (x ∷ xs) zero h = (x, refl, refl)
index_of_lt (x ∷ xs) (suc k) h = index_of_lt xs k (omega arith)

abbrev matches : Raft → List ℕ
matches r = map (λ p. p.1.matched) r.prs

length-positive {ℓ} : {A : Type ℓ} (xs : List A) → xs ≢ [] → 0 < length xs
length-positive [] n = absurd (n refl)
length-positive (x ∷ xs) n = omega arith

quorum-inside : (r : Raft) → r.prs ≢ [] → quorum r - 1 < length (sort_desc (matches r))
unfolding quorum
quorum-inside r h =
    omega (arith, length-sort_desc (matches r), length-map_matched r.prs, length-positive r.prs h)

quorum-pos : (r : Raft) → 0 < quorum r
unfolding quorum
quorum-pos r = omega arith

-- The index that a majority has matched, and that no greater one can replace.
pub record IsMajorityIndex (r : Raft) (mid : ℕ) : Type 0 where
  pub supported : quorum r ≤ supporters mid r.prs
  pub greatest : (n : ℕ) → quorum r ≤ supporters n r.prs → n ≤ mid

majority_index :
    (r : Raft)
    → r.prs ≢ []
    → (mid : ℕ) × (index (sort_desc (matches r)) (quorum r - 1) ≡ ok mid) × IsMajorityIndex r mid
majority_index r h =
    let sorted = sort_desc (matches r) in
    let ordered = sort_desc-IsDescending (matches r) in
    let (mid, read, found) = index_of_lt sorted (quorum r - 1) (quorum-inside r h) in
    (
      mid,
      read,
      record {
        supported = omega (
          arith,
          quorum-pos r,
          count_ge_of_get_elem? sorted (quorum r - 1) mid ordered found,
          count_ge-sort_desc mid (matches r),
          count_ge-map mid r.prs,
        );
        greatest = λ n s.
            le_of_count_ge sorted (quorum r - 1) mid n ordered found
              (omega (arith, quorum-pos r, count_ge-sort_desc n (matches r), count_ge-map n r.prs));
      },
    )

-- What `maybeCommit` may do to a leader: nothing, or a commit that is backed.
pub record IsBacked (r r' : Raft) : Type 0 where
  pub moved : r.raft_log.commit_index < r'.raft_log.commit_index
  pub supported : quorum r ≤ supporters r'.raft_log.commit_index r.prs
  pub own_term : Log.term r.raft_log r'.raft_log.commit_index ≡ ok r.term
  pub log_kept :
      r' ≡ record r { raft_log = record (r.raft_log) { commit_index = r'.raft_log.commit_index } }

log_maybe_commit-true :
    (l l' : RaftLog) (mid t : ℕ)
    → 0 < t
    → Log.maybe_commit l mid t ≡ ok (l', true)
    → (l' ≡ record l { commit_index = mid }) × (l.commit_index < mid) × (Log.term l mid ≡ ok t)
unfolding Log.maybe_commit Log.commit_to zero_term_on_err_compacted
log_maybe_commit-true l l' mid t h e = ground arith

log_maybe_commit-false :
    (l l' : RaftLog) (mid t : ℕ) → Log.maybe_commit l mid t ≡ ok (l', false) → l' ≡ l
unfolding Log.maybe_commit
log_maybe_commit-false l l' mid t e = ground arith

abbrev with_log : Raft → RaftLog × Bool → Outcome (Raft × Bool)
with_log r p = ok (record r { raft_log = p.0 }, p.1)

maybe_commit_at :
    (r : Raft) (mid : ℕ)
    → index (sort_desc (matches r)) (quorum r - 1) ≡ ok mid
    → maybe_commit r ≡ (Log.maybe_commit r.raft_log mid r.term >>= with_log r)
unfolding maybe_commit
maybe_commit_at r mid e = rw e

inversion :
    (r r' : Raft) (mid : ℕ) (b : Bool) (o : Outcome (RaftLog × Bool))
    → (o >>= with_log r) ≡ ok (r', b)
    → (o ≡ ok (r'.raft_log, b)) × (r' ≡ record r { raft_log = r'.raft_log })
inversion r r' mid b (ok p) e = ground arith
inversion r r' mid b (err x) e = cc
inversion r r' mid b panic e = cc

not_committed :
    (l l' : RaftLog) (mid t : ℕ)
    → l.commit_index < mid
    → Log.term l mid ≡ ok t
    → Log.maybe_commit l mid t ≢ ok (l', false)
unfolding Log.maybe_commit zero_term_on_err_compacted
not_committed l l' mid t h own e = ground arith

-- A leader that moves its commit index moves it forward, to an index that a quorum of the members
-- has matched and whose entry is of the leader's own term, and changes nothing else.
pub maybe_commit-IsBacked :
    (r r' : Raft) → r.prs ≢ [] → 0 < r.term → maybe_commit r ≡ ok (r', true) → IsBacked r r'
maybe_commit-IsBacked r r' n h e =
    let (mid, read, majority) = majority_index r n in
    let (done, rest) =
      inversion r r' mid true (Log.maybe_commit r.raft_log mid r.term)
        (sym (maybe_commit_at r mid read) ∙ e) in
    let (l, moved, own) = log_maybe_commit-true r.raft_log r'.raft_log mid r.term h done in
    let here : r'.raft_log.commit_index ≡ mid = ap (λ x. x.commit_index) l in
    record {
      moved = omega arith;
      supported = rw here majority.supported;
      own_term = rw here own;
      log_kept = ground arith;
    }

-- A leader that leaves its commit index alone is unchanged, and no index beyond it is both the
-- greatest that a quorum has matched and that of an entry of the leader's own term.
pub maybe_commit-unchanged :
    (r r' : Raft)
    → r.prs ≢ []
    → maybe_commit r ≡ ok (r', false)
    → (r' ≡ r)
      × ((n : ℕ)
          → r.raft_log.commit_index < n
          → IsMajorityIndex r n
          → Log.term r.raft_log n ≢ ok r.term)
maybe_commit-unchanged r r' n e =
    let (mid, read, majority) = majority_index r n in
    let (done, rest) =
      inversion r r' mid false (Log.maybe_commit r.raft_log mid r.term)
        (sym (maybe_commit_at r mid read) ∙ e) in
    let kept = log_maybe_commit-false r.raft_log r'.raft_log mid r.term done in
    (
      ground arith,
      λ k beyond best own.
          let same : k ≡ mid =
            omega
              (arith, majority.greatest k best.supported, best.greatest mid majority.supported) in
          not_committed r.raft_log r'.raft_log mid r.term (omega arith) (rw same at own) done,
    )
