-- ===== src/Transaction/Clearing.antt =====
-- BatchDeleteTransactions (server/internal/transaction/service.go): whose transactions it deletes.
use family_ledger.Transaction.Marking.{Marks}
use Prim.Native.String.{String}
use family_ledger.Base.{ℕ, ◌≡◌, ◌⊎◌, Option, some, List}
use family_ledger.Db.Triple.{Triple}
use family_ledger.Store.{Uuid, Transaction, Store}
use family_ledger.Permission.{can_delete}
use family_ledger.Permission.Granted.{Passes}
use family_ledger.Account.{find_live}
use family_ledger.Transaction.{family_id_of}
use family_ledger.Transaction.Batch.{parse_all}

-- The user has made the transaction, or its account has no family, or the user may delete there.
abbrev pub MayClear : Uuid → String → ℕ → Store → Transaction → Type 0
MayClear ids user_id uid s t =
    (t.user_id ≡ uid)
    ⊎ Passes ids user_id (family_id_of ids (find_live t.account_id s)) can_delete s

abbrev TransactionsAre : List Transaction → Store → Type 0
TransactionsAre l s = s.transactions ≡ l

-- Some live transactions were marked as deleted, each of which the user may clear.
pub record IsCleared (ids : Uuid) (ctx : Option String) (transaction_ids : List String) (s : Store)
    (n : ℕ) (s' : Store) : Type 0 where
  pub caller_id : String
  pub uid : ℕ
  pub txn_ids : List ℕ
  pub caller : ctx ≡ some caller_id
  pub user_is : ids.parse caller_id ≡ some uid
  pub transactions_are : parse_all ids transaction_ids ≡ some txn_ids
  pub cleared : Marks (MayClear ids caller_id uid s) txn_ids s.transactions s'.transactions n
