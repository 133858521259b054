-- ===== src/Raft/Unstable.antt =====
-- The part of the log that is not persisted yet: `unstable` of apps/raft_demo/raft/log.go.
use swifty_go.Prelude.{
  ℕ, ◌&&◌, ◌||◌, Option, none, some, List, [], ◌∷◌, ◌++◌, ltb, leb, ◌==◌, if◌then◌else◌, length,
  add64, sub64,
}
use swifty_go.Raft.Model.{Entry, Outcome, ok, panic, ◌>>=◌}
use swifty_go.Raft.Storage.{slice as slice_list, index}

pub record Unstable : Type 0 where
  pub entries : List Entry
  pub offset : ℕ

-- `mustCheckOutOfBounds`
unfoldable pub must_check_out_of_bounds : Unstable → ℕ → ℕ → Outcome (Unit {0})
must_check_out_of_bounds u l r =
    if ltb r l
    then panic
    else if ltb l u.offset || ltb (add64 u.offset (length u.entries)) r
    then panic
    else ok tt

unfoldable pub slice : Unstable → ℕ → ℕ → Outcome (List Entry)
slice u l r = must_check_out_of_bounds u l r >>= λ _.
    slice_list u.entries (sub64 l u.offset) (sub64 r u.offset)

-- `entries[0]` of an empty argument panics.
unfoldable pub truncate_and_append : Unstable → List Entry → Outcome Unstable
truncate_and_append u [] = panic
truncate_and_append u (e ∷ es) =
    if e.index == add64 u.offset (length u.entries)
    then ok (record u { entries = u.entries ++ (e ∷ es) })
    else if leb e.index u.offset
    then ok (record { entries = e ∷ es; offset = e.index })
    else slice u u.offset e.index >>= λ kept. ok (record u { entries = kept ++ (e ∷ es) })

unfoldable pub maybe_last_index : Unstable → Option ℕ
maybe_last_index u =
    if length u.entries == 0 then none else some (sub64 (add64 u.offset (length u.entries)) 1)

unfoldable pub maybe_term : Unstable → ℕ → Outcome (Option ℕ)
maybe_term u i = if ltb i u.offset then ok none else elim (maybe_last_index u) [
  | none ↦ ok none
  | some last ↦
      if ltb last i then ok none else index u.entries (sub64 i u.offset) >>= λ e. ok (some e.term)
]

-- `u.entries[i-u.offset+1:]`: the whole is kept from that position on, and past the end Go panics.
unfoldable pub stable_to : Unstable → ℕ → ℕ → Outcome Unstable
stable_to u i t = do
  found ← maybe_term u i
  elim found [
    | none ↦ ok u
    | some gt ↦
        if t == gt && leb u.offset i
        then (slice_list u.entries (add64 (sub64 i u.offset) 1) (length u.entries) >>= λ rest.
            ok (record { entries = rest; offset = add64 i 1 }))
        else ok u
  ]
