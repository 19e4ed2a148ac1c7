-- ===== src/Transaction/Change.antt =====
-- UpdateTransaction and DeleteTransaction of server/internal/transaction/service.go.
use Prim.Native.String.{String}
use family_ledger.Base.{
  ⊤, ℕ, Bool, true, not, ◌&&◌, ◌||◌, Option, none, some, List, ◌==◌, if◌then◌else◌,
}
use text.Mathlib.Text.{◌==◌ as str_eq}
use family_ledger.Base.Int.{ℤ, pos, leb_ℤ, eqb_ℤ}
use family_ledger.Base.Int64.{◌-64◌}
use family_ledger.Db.{
  M, Outcome, violates, done, internal, invalid_argument, not_found, permission_denied, pure, raise,
  ◌>>=◌, ◌>>◌, statement, read, query, exec, raise_if, or_raise, atomically, ignore_error,
}
use family_ledger.Store.{
  is_empty, Uuid, Permissions, TransactionKind, income, expense, Transaction, op_update, op_delete,
  Store, get_user_id,
}
use family_ledger.Permission.{check, can_edit, can_delete}
use family_ledger.Account.{credit}
use family_ledger.Family.{log_audit}
use family_ledger.Transaction.Create.{is_some}
use family_ledger.Transaction.{
  Timestamp, Drawn, validate_txn_date, TransactionType, type_unspecified, type_income, type_expense,
  same_kind, insert_transaction_sync_op, delta_of, get_account_family_id, find_transaction_row,
  find_transaction, update_transaction_row, find_category, is_long,
}

-- `int64(float64(amount) * exchangeRate)`, of an amount and the bit pattern of a rate
abbrev pub Convert : Type 0
Convert = ℤ → ℕ → ℤ

-- `pb.UpdateTransactionRequest`; `tags` is the list that the code makes of the text.
pub record UpdateTransactionRequest : Type 0 where
  pub transaction_id : String
  pub category_id : Option String
  pub amount : Option ℤ
  pub note : Option String
  pub tags : Option (List String)
  pub type : Option TransactionType
  pub currency : Option String
  pub txn_date : Option Timestamp

-- The check of a caller who has not made the transaction.
abbrev pub require_in_family : Uuid → String → String → (Permissions → Bool) → M Store ⊤
require_in_family ids user_id family_id required =
    if is_empty family_id then raise permission_denied else check ids user_id family_id required

-- The permission check of `UpdateTransaction` and `DeleteTransaction`.
unfoldable pub check_transaction :
    Uuid → String → ℕ → Transaction → (Permissions → Bool) → M Store ⊤
check_transaction ids user_id uid t required =
    if not (t.user_id == uid)
    then (do
      family_id ← get_account_family_id ids t.account_id internal
      require_in_family ids user_id family_id required)
    else (do
      family_id ← ignore_error String.[] (get_account_family_id ids t.account_id internal)
      if is_empty family_id then pure tt else check ids user_id family_id required)

-- `currency == "CNY" || currency == ""`
abbrev pub is_home : String → Bool
is_home c = str_eq c "CNY" || is_empty c

abbrev pub to_cny : Convert → Transaction → ℤ → ℤ
to_cny convert t x = if is_home t.currency then x else convert x t.exchange_rate

unfoldable pub set_amount : Convert → Option ℤ → Transaction → M Store Transaction
set_amount convert none t = pure t
set_amount convert (some x) t = do
  raise_if (leb_ℤ x (pos 0)) invalid_argument
  pure (record t { amount = x; amount_cny = to_cny convert t x })

-- The category may also be one that is marked as deleted.
unfoldable pub set_category : Uuid → Option String → Transaction → M Store Transaction
set_category ids none t = pure t
set_category ids (some c) t = do
  category ← or_raise (ids.parse c) invalid_argument
  found ←
      statement (λ (s : Store). done (is_some (find_category category s.categories)) s)
        invalid_argument invalid_argument
  raise_if (not found) invalid_argument
  pure (record t { category_id = category })

abbrev pub set_note : Option String → Transaction → Transaction
set_note none t = t
set_note (some n) t = record t { note = n }

abbrev pub set_tags : Option (List String) → Transaction → Transaction
set_tags none t = t
set_tags (some l) t = record t { tags = l }

unfoldable pub set_type : Option TransactionType → Transaction → M Store Transaction
set_type none t = pure t
set_type (some type_income) t = pure (record t { kind = income })
set_type (some type_expense) t = pure (record t { kind = expense })
set_type (some type_unspecified) t = raise invalid_argument

abbrev pub set_currency : Option String → Transaction → Transaction
set_currency none t = t
set_currency (some c) t = record t { currency = c }

unfoldable pub set_date : Drawn → Option Timestamp → Transaction → M Store Transaction
set_date drawn none t = pure t
set_date drawn (some ts) t = do d ← validate_txn_date drawn ts; pure (record t { txn_date = d })

-- The columns of the `UPDATE` that the code puts together.
unfoldable pub changed_row :
    Uuid → Convert → Drawn → UpdateTransactionRequest → Transaction → M Store Transaction
changed_row ids convert drawn req t = do
  t1 ← set_amount convert req.amount t
  t2 ← set_category ids req.category_id t1
  t3 ← set_type req.type (set_tags req.tags (set_note req.note t2))
  set_date drawn req.txn_date (set_currency req.currency t3)

-- `UPDATE transactions SET …`, on the row that has been locked since it was read
unfoldable pub store_transaction : Transaction → Store → Outcome Store ⊤
store_transaction t s =
    if is_long t.currency
    then violates
    else done tt (record s { transactions = update_transaction_row t.id (λ _. t) s.transactions })

-- What the balance takes the new row to be worth.
abbrev pub new_amount_cny : Convert → Transaction → Transaction → ℤ
new_amount_cny convert old new =
    if eqb_ℤ new.amount old.amount && same_kind new.kind old.kind
    then old.amount_cny
    else to_cny convert old new.amount

abbrev pub balance_adjust : Convert → Transaction → Transaction → ℤ
balance_adjust convert old new =
    delta_of new.kind (new_amount_cny convert old new) -64 delta_of old.kind old.amount_cny

unfoldable pub adjust_balance : ℕ → ℤ → M Store ⊤
adjust_balance account_id x =
    if eqb_ℤ x (pos 0) then pure tt else statement (credit account_id x) internal internal

-- what `UpdateTransaction` does in its transaction
unfoldable pub update_in_tx :
    Uuid → Convert → Drawn → String → ℕ → ℕ → UpdateTransactionRequest → M Store ⊤
update_in_tx ids convert drawn user_id uid txn_id req = do
  old ← query (find_transaction txn_id) not_found
  check_transaction ids user_id uid old can_edit
  new ← changed_row ids convert drawn req old
  statement (store_transaction new) internal internal
  adjust_balance old.account_id (balance_adjust convert old new)
  statement (read (λ (s : Store). find_transaction_row txn_id s.transactions)) internal internal
  insert_transaction_sync_op ids drawn.sync_id uid txn_id op_update internal

-- `UpdateTransaction`, less the messages to other devices
unfoldable pub update_transaction :
    Uuid → Convert → Option String → Drawn → UpdateTransactionRequest → M Store Transaction
update_transaction ids convert ctx drawn req = do
  user_id ← get_user_id ctx
  uid ← or_raise (ids.parse user_id) internal
  txn_id ← or_raise (ids.parse req.transaction_id) invalid_argument
  atomically (update_in_tx ids convert drawn user_id uid txn_id req)
  statement (read (λ (s : Store). find_transaction_row txn_id s.transactions)) internal internal

abbrev pub mark_deleted : Transaction → Transaction
mark_deleted t = record t { deleted = true }

abbrev pub revert_of : TransactionKind → ℤ → ℤ
revert_of income x = pos 0 -64 x
revert_of expense x = x

-- what `DeleteTransaction` does in its transaction; it gives the account
unfoldable pub delete_in_tx : Uuid → Drawn → String → ℕ → ℕ → M Store ℕ
delete_in_tx ids drawn user_id uid txn_id = do
  t ← query (find_transaction txn_id) not_found
  check_transaction ids user_id uid t can_delete
  exec (λ (s : Store). record s {
    transactions = update_transaction_row txn_id mark_deleted s.transactions;
  })
  statement (credit t.account_id (revert_of t.kind t.amount_cny)) internal internal
  insert_transaction_sync_op ids drawn.sync_id uid txn_id op_delete internal
  pure t.account_id

-- `DeleteTransaction`, less the messages to other devices
unfoldable pub delete_transaction : Uuid → Option String → Drawn → String → M Store ⊤
delete_transaction ids ctx drawn transaction_id = do
  user_id ← get_user_id ctx
  uid ← or_raise (ids.parse user_id) internal
  txn_id ← or_raise (ids.parse transaction_id) invalid_argument
  account_id ← atomically (delete_in_tx ids drawn user_id uid txn_id)
  family_id ← ignore_error String.[] (get_account_family_id ids account_id internal)
  log_audit ids family_id user_id "delete" (ids.text txn_id)
