-- ===== src/Transaction.antt =====
-- The transaction service, server/internal/transaction: what its handlers share.
pub mod Input
pub mod Create
pub mod Change
pub mod Net
pub mod Resolving
pub mod Booking
pub mod Asking
pub mod Creation
pub mod Openings
pub mod Access
pub mod Removal
pub mod Revising
pub mod Adjusting
pub mod Updating
pub mod Rows
pub mod Reversal
pub mod HomeBooks
pub mod Requests
pub mod Batch
pub mod Importing
pub mod Marking
pub mod Clearing
pub mod SmallBooks
pub mod Examples
use Prim.Native.String.{String, ◌++◌, count}
use family_ledger.Base.{
  ⊤, ℕ, Bool, true, false, not, ◌&&◌, ◌||◌, Option, none, some, List, [], ◌∷◌, ◌==◌, ltb,
  if◌then◌else◌,
}
use text.Mathlib.Text.{◌==◌ as str_eq}
use family_ledger.Base.Int.{ℤ, pos, ltb_ℤ}
use family_ledger.Base.Int64.{◌-64◌}
use family_ledger.Db.{
  M, Outcome, violates, done, Code, invalid_argument, pure, ◌>>=◌, ◌>>◌, statement, raise_if,
  or_raise,
}
use family_ledger.Store.{
  is_empty, Uuid, TransactionKind, income, expense, Transaction, Category, SyncOpType, op_create,
  op_update, op_delete, SyncOperation, Account, Store,
}
use family_ledger.Account.{family_text, find_live}

-- A `timestamppb.Timestamp` of a request: what `CheckValid` says of it, and the time that it
-- stands for, in nanoseconds since 1970.
pub record Timestamp : Type 0 where
  pub is_valid : Bool
  pub instant : ℤ

-- What the server draws for a request: the time, the time a day later (`AddDate(0, 0, 1)`), the
-- id of a new row, and the id in the `client_id` of a row of `sync_operations`.
pub record Drawn : Type 0 where
  pub now : ℤ
  pub tomorrow : ℤ
  pub new_id : ℕ
  pub sync_id : ℕ

-- 2000-01-01 in UTC
abbrev pub txn_date_earliest : ℤ
txn_date_earliest = pos 946684800000000000

-- `validateTxnDate`
unfoldable pub validate_txn_date : Drawn → Timestamp → M Store ℤ
validate_txn_date drawn ts = do
  raise_if (not ts.is_valid) invalid_argument
  raise_if (ltb_ℤ ts.instant txn_date_earliest || ltb_ℤ drawn.tomorrow ts.instant) invalid_argument
  pure ts.instant

-- `pb.TransactionType`
pub data TransactionType : Type 0 where
  type_unspecified type_income type_expense : TransactionType

abbrev pub same_kind : TransactionKind → TransactionKind → Bool
same_kind income income = true
same_kind expense expense = true
same_kind _ _ = false

-- `syncClientID`
unfoldable pub sync_client_id : Uuid → String → ℕ → String
sync_client_id ids op u = "grpc-" ++ op ++ "-" ++ ids.text u

unfoldable pub has_client_id : String → List SyncOperation → Bool
has_client_id c [] = false
has_client_id c (o ∷ l) = str_eq o.client_id c || has_client_id c l

-- `INSERT INTO sync_operations …`: a `client_id` that is not empty is there only once.
unfoldable pub insert_sync_operation : SyncOperation → Store → Outcome Store ⊤
unfolding has_client_id
insert_sync_operation o s =
    if not (is_empty o.client_id) && has_client_id o.client_id s.sync_operations
    then violates
    else done tt (record s { sync_operations = o ∷ s.sync_operations })

abbrev pub op_text : SyncOpType → String
op_text op_create = "create"
op_text op_update = "update"
op_text op_delete = "delete"

-- `insertTransactionSyncOp`, with the code that the caller gives to its error
unfoldable pub insert_transaction_sync_op : Uuid → ℕ → ℕ → ℕ → SyncOpType → Code → M Store ⊤
unfolding insert_sync_operation sync_client_id
insert_transaction_sync_op ids sync_id uid txn_id op code =
    statement
      (insert_sync_operation (record {
        user_id = uid;
        entity_type = "transaction";
        entity_id = txn_id;
        op_type = op;
        client_id = sync_client_id ids (op_text op) sync_id;
      }))
      code code

-- How a transaction of this kind changes a balance: by its amount, or by the negated one.
abbrev pub delta_of : TransactionKind → ℤ → ℤ
delta_of income x = x
delta_of expense x = pos 0 -64 x

-- `getAccountFamilyIDFrom`: an account that is not there has no family.
abbrev pub family_id_of : Uuid → Option Account → String
family_id_of ids none = String.[]
family_id_of ids (some a) = family_text ids a.family_id

unfoldable pub get_account_family_id : Uuid → ℕ → Code → M Store String
get_account_family_id ids account_id failed =
    statement (λ s. done (family_id_of ids (find_live account_id s)) s) failed failed

pub find_transaction_row : ℕ → List Transaction → Option Transaction
find_transaction_row i [] = none
find_transaction_row i (t ∷ l) = if t.id == i then some t else find_transaction_row i l

-- `… FROM transactions WHERE id = $1 AND deleted_at IS NULL`
unfoldable pub find_transaction : ℕ → Store → Option Transaction
unfolding find_transaction_row
find_transaction i s = elim (find_transaction_row i s.transactions) [
  | none ↦ none
  | some t ↦ if t.deleted then none else some t
]

-- `UPDATE transactions … WHERE id = $1`, where `id` is the primary key
unfoldable pub update_transaction_row :
    ℕ → (Transaction → Transaction) → List Transaction → List Transaction
update_transaction_row i f [] = []
update_transaction_row i f (t ∷ l) = if t.id == i then f t ∷ l else t ∷ update_transaction_row i f l

-- `currency` is a VARCHAR(10).
abbrev pub is_long : String → Bool
is_long c = ltb 10 (count c)

unfoldable pub find_category : ℕ → List Category → Option Category
find_category i [] = none
find_category i (c ∷ l) = if c.id == i then some c else find_category i l

-- `… FROM categories WHERE id = $1 AND deleted_at IS NULL`
unfoldable pub find_live_category : ℕ → Store → Option Category
unfolding find_category
find_live_category i s = elim (find_category i s.categories) [
  | none ↦ none
  | some c ↦ if c.deleted then none else some c
]
