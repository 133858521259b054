-- ===== src/Tcc/Contract.antt =====
-- What the transaction manager of apps/tcc_demo relies on of the log of transactions (the interface
-- TXStore of txstore.go) and of the components' calls.
use swifty_go.Prelude.{◌≡◌, ◌≢◌, Bool, true, false, some, List, [], ◌∷◌, if◌then◌else◌, Bytes}
use swifty_go.Tcc.{TryStatus, try_hanging, try_successful, try_failure, Transaction, Services}

-- the components of a transaction with their status
abbrev pub with_status : (Bytes → TryStatus) → List Bytes → List (Bytes × TryStatus)
with_status f [] = []
with_status f (i ∷ is) = (i, f i) ∷ with_status f is

abbrev pub ids_of : {C D W : Type 0} → Services C D W → List C → List Bytes
ids_of s [] = []
ids_of s (c ∷ cs) = s.id c ∷ ids_of s cs

-- The log has, for each transaction, the ids of its components and a status of each. It is read as it
-- is; a new transaction has all of them hanging; an update that succeeds sets one status, one that
-- fails sets none; and a try leaves the log as it is.
pub record IsLog {C D W : Type 0} (s : Services C D W) (members : W → Bytes → List Bytes)
    (status : W → Bytes → Bytes → TryStatus) : Type 0 where
  pub read :
      (w : W) (t : Bytes) (tx : Transaction)
      → s.get_tx w t ≡ some tx
      → tx.components ≡ with_status (status w t) (members w t)
  pub created :
      (w : W) (cs : List C) (t : Bytes)
      → (s.create_tx w cs).1 ≡ some t
      → members (s.create_tx w cs).0 t ≡ ids_of s cs
  pub created_hanging :
      (w : W) (cs : List C) (t i : Bytes)
      → (s.create_tx w cs).1 ≡ some t
      → status (s.create_tx w cs).0 t i ≡ try_hanging
  pub tries_members :
      (w : W) (c : C) (t : Bytes) (d : D) → members (s.try_first w c t d).0 t ≡ members w t
  pub tries_status :
      (w : W) (c : C) (t i : Bytes) (d : D) → status (s.try_first w c t d).0 t i ≡ status w t i
  pub updates_members :
      (w : W) (t i : Bytes) (b : Bool) → members (s.tx_update w t i b).0 t ≡ members w t
  pub updated :
      (w : W) (t i : Bytes) (b : Bool)
      → (s.tx_update w t i b).1 ≡ true
      → status (s.tx_update w t i b).0 t i ≡ (if b then try_successful else try_failure)
  pub not_updated :
      (w : W) (t i : Bytes) (b : Bool)
      → (s.tx_update w t i b).1 ≡ false
      → status (s.tx_update w t i b).0 t i ≡ status w t i
  pub updates_others :
      (w : W) (t i j : Bytes) (b : Bool) → i ≢ j → status (s.tx_update w t i b).0 t j ≡ status w t j
