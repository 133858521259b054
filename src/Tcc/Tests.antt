-- ===== src/Tcc/Tests.antt =====
-- The transaction manager of apps/tcc_demo with a log and components in memory.
use swifty_go.Prelude.{
  ℕ, ◌≡◌, ◌≢◌, refl, sym, ap, Bool, true, false, Bool-cases, inl, inr, Option, none, some, List, [],
  ◌∷◌, if◌then◌else◌, Bytes, bytes_eq, lookup, insert, lookup-insert_same, lookup-insert_other,
  some-inj,
}
use swifty_go.Tcc.{
  TryStatus, try_hanging, try_successful, try_failure, Reply, refused, acked, Services,
  confirm_call, cancel_call, submit_call, register,
}
use swifty_go.Tcc.Manager.{rejected, committed, transaction}
use swifty_go.Tcc.Contract.{IsLog, with_status, ids_of}
use swifty_go.Tcc.Registry.{IsRegistry, register-IsRegistry}
use swifty_go.Tcc.Outcome.{IsAtomic, transaction-IsAtomic}

-- a component that answers its tries with one reply
record Account : Type 0 where
  account_id : Bytes
  answer : Reply

record Memory : Type 0 where
  ids : List Bytes
  statuses : List (Bytes × TryStatus)

abbrev or_hanging : Option TryStatus → TryStatus
or_hanging none = try_hanging
or_hanging (some st) = st

abbrev members_in : Memory → Bytes → List Bytes
members_in w t = w.ids

abbrev status_in : Memory → Bytes → Bytes → TryStatus
status_in w t i = or_hanging (lookup i w.statuses)

abbrev account_ids : List Account → List Bytes
account_ids [] = []
account_ids (c ∷ cs) = c.account_id ∷ account_ids cs

abbrev stored : Memory → Bytes → Bool → Memory
stored w i b = record w {
  statuses = insert i (if b then try_successful else try_failure) w.statuses;
}

abbrev in_memory : Services Account ℕ Memory
in_memory = record {
  id = λ c. c.account_id;
  try_first = λ w c t d. (w, c.answer);
  confirm = λ w c t. (w, acked);
  cancel = λ w c t. (w, acked);
  create_tx = λ w cs. (record { ids = account_ids cs; statuses = [] }, some (7 ∷ []));
  tx_update = λ w t i b. (stored w i b, true);
  tx_submit = λ w t b. (w, true);
  get_tx = λ w t.
      some (record { tx_id = t; components = with_status (status_in w t) w.ids; created_at = 100 });
  get_hanging_txs = λ w. some [];
  lock = λ w. (w, true);
  unlock = λ w. w;
}

account_ids-ids_of : (cs : List Account) → account_ids cs ≡ ids_of in_memory cs
account_ids-ids_of [] = refl
account_ids-ids_of (c ∷ cs) = ap (λ is. c.account_id ∷ is) (account_ids-ids_of cs)

stored-other :
    (w : Memory) (t i j : Bytes) (b : Bool) → i ≢ j → status_in (stored w i b) t j ≡ status_in w t j
stored-other w t i j b ne = elim (Bool-cases (bytes_eq.same i j)) [
  | inl q ↦ absurd (ne ((bytes_eq.same_iff i j).0 q))
  | inr q ↦
      ap or_hanging
        (lookup-insert_other i j (if b then try_successful else try_failure) w.statuses q)
]

in_memory-IsLog : IsLog in_memory members_in status_in
unfolding lookup
in_memory-IsLog = record {
  read = λ w t tx e. ap (λ x. x.components) (sym (some-inj e));
  created = λ w cs t e. account_ids-ids_of cs;
  created_hanging = λ w cs t i e. refl;
  tries_members = λ w c t d. refl;
  tries_status = λ w c t i d. refl;
  updates_members = λ w t i b. refl;
  updated = λ w t i b e. ap or_hanging (
      lookup-insert_same i i (if b then try_successful else try_failure) w.statuses
        ((bytes_eq.same_iff i i).1 refl));
  not_updated = λ w t i b e. absurd (cc e);
  updates_others = λ w t i j b ne. stored-other w t i j b ne;
}

abbrev payer : Account
payer = record { account_id = 1 ∷ []; answer = acked }

abbrev shop : Account
shop = record { account_id = 2 ∷ []; answer = acked }

abbrev broke : Account
broke = record { account_id = 2 ∷ []; answer = refused }

abbrev registry_of : Account → List (Bytes × Account)
registry_of c = insert (2 ∷ []) c (insert (1 ∷ []) payer [])

abbrev fresh_memory : Memory
fresh_memory = record { ids = []; statuses = [] }

abbrev requests : List (Bytes × ℕ)
requests = (1 ∷ [], 30) ∷ (2 ∷ [], 40) ∷ []

-- both are confirmed
bought :
    (transaction in_memory (registry_of shop) 50 (1 ∷ 0 ∷ 1 ∷ []) fresh_memory requests).1
    ≡ committed
        (7 ∷ [])
        (confirm_call (1 ∷ []) ∷ confirm_call (2 ∷ []) ∷ submit_call true ∷ [])
        true
unfolding transaction lookup insert
bought = refl

-- one refuses, and both are cancelled
refused_purchase :
    (transaction in_memory (registry_of broke) 50 (1 ∷ 0 ∷ 1 ∷ []) fresh_memory requests).1
    ≡ committed
        (7 ∷ [])
        (cancel_call (1 ∷ []) ∷ cancel_call (2 ∷ []) ∷ submit_call false ∷ [])
        false
unfolding transaction lookup insert
refused_purchase = refl

-- a component that is not registered
unknown_component :
    (transaction in_memory (registry_of shop) 50 [] fresh_memory ((9 ∷ [], 1) ∷ [])).1 ≡ rejected
unfolding transaction lookup insert
unknown_component = refl

no_components : IsRegistry in_memory []
unfolding lookup
no_components = λ i c e. absurd (cc e)

payer_works : register in_memory [] payer ≡ some (insert (1 ∷ []) payer [])
unfolding register lookup
payer_works = refl

broke_works : register in_memory (insert (1 ∷ []) payer []) broke ≡ some (registry_of broke)
unfolding register lookup insert
broke_works = refl

registry_of-IsRegistry : IsRegistry in_memory (registry_of broke)
registry_of-IsRegistry =
    register-IsRegistry in_memory (insert (1 ∷ []) payer []) (registry_of broke) broke
      (register-IsRegistry in_memory [] (insert (1 ∷ []) payer []) payer no_components payer_works)
      broke_works

transaction-IsAtomic_example :
    IsAtomic (transaction in_memory (registry_of broke) 50 (1 ∷ 0 ∷ 1 ∷ []) fresh_memory requests).1
transaction-IsAtomic_example =
    transaction-IsAtomic in_memory members_in status_in in_memory-IsLog (registry_of broke) 50
      (1 ∷ 0 ∷ 1 ∷ []) fresh_memory requests registry_of-IsRegistry
