-- ===== src/Transaction/Batch.antt =====
-- BatchCreateTransactions and BatchDeleteTransactions of
-- server/internal/transaction/service.go.
use Prim.Native.String.{String}
use family_ledger.Base.{
  ⊤, ℕ, suc, Bool, true, false, not, ◌&&◌, ◌||◌, Option, none, some, List, [], ◌∷◌, ◌==◌, ltb,
  if◌then◌else◌,
}
use family_ledger.Base.Lists.{length}
use family_ledger.Base.Int.{ℤ, pos, ltb_ℤ}
use family_ledger.Base.Int64.{◌-64◌, ◌+64◌}
use family_ledger.Db.{
  M, Result, ok, err, done, Code, internal, invalid_argument, permission_denied, pure, ◌>>=◌, ◌>>◌,
  statement, exec, raise_if, or_raise, atomically, with_code, ignore_error,
}
use family_ledger.Store.{
  is_empty, Uuid, income, expense, TransactionKind, Transaction, op_delete, Account, Store,
  get_user_id,
}
use family_ledger.Permission.{check, can_delete}
use family_ledger.Account.{credit}
use family_ledger.Transaction.{Drawn, insert_transaction_sync_op, get_account_family_id}
use family_ledger.Transaction.Input.{CreateTransactionRequest}
use family_ledger.Transaction.Create.{create_transaction}
use family_ledger.Transaction.Change.{mark_deleted}

-- `pb.BatchCreateTransactionsRequest`, with what the server draws for each transaction
pub record BatchCreateRequest : Type 0 where
  pub account_id : String
  pub transactions : List (Drawn × CreateTransactionRequest)

-- `pb.BatchCreateTransactionsResponse`: the codes of the errors in place of their texts, and the
-- accounts that the warnings name.
pub record BatchCreateResponse : Type 0 where
  pub created : List Transaction
  pub errors : List Code
  pub warnings : List ℕ

-- The account of the batch, for a transaction without one.
abbrev pub with_account : String → CreateTransactionRequest → CreateTransactionRequest
with_account a req =
    if is_empty req.account_id && not (is_empty a) then record req { account_id = a } else req

abbrev pub no_response : BatchCreateResponse
no_response = record { created = []; errors = []; warnings = [] }

-- One round of the loop: an error is recorded and passed over.
abbrev pub note_item : Result Transaction → BatchCreateResponse → BatchCreateResponse
note_item (ok t) r = record r { created = t ∷ r.created }
note_item (err c) r = record r { errors = c ∷ r.errors }

-- A handler with its error as a value.
abbrev pub caught : {A : Type 0} → M Store A → M Store (Result A)
caught m w = let (r, w') = m w in (ok r, w')

-- the loop of `BatchCreateTransactions`
unfoldable pub create_items :
    Uuid
    → Option String
    → String
    → List (Drawn × CreateTransactionRequest)
    → M Store BatchCreateResponse
create_items ids ctx account_id [] = pure no_response
create_items ids ctx account_id ((drawn, req) ∷ l) = do
  r ← caught (create_transaction ids ctx true drawn (with_account account_id req))
  rest ← create_items ids ctx account_id l
  pure (note_item r rest)

abbrev pub is_among : ℕ → List Transaction → Bool
is_among i [] = false
is_among i (t ∷ l) = (t.account_id == i) || is_among i l

-- `SELECT id, balance FROM accounts WHERE id = ANY($1) AND balance < 0`
unfoldable pub negative_accounts : List Transaction → List Account → List ℕ
negative_accounts created [] = []
negative_accounts created (a ∷ l) =
    let rest = negative_accounts created l in
    if is_among a.id created && ltb_ℤ a.balance (pos 0) then a.id ∷ rest else rest

-- the part of `BatchCreateTransactions` after the loop
abbrev pub warn : BatchCreateResponse → List Transaction → M Store BatchCreateResponse
warn r [] = pure r
warn r (t ∷ l) = do
  found ←
      ignore_error []
        (statement (λ (s : Store). done (negative_accounts (t ∷ l) s.accounts) s) internal internal)
  pure (record r { warnings = found })

-- `BatchCreateTransactions`
unfoldable pub batch_create_transactions :
    Uuid → Option String → BatchCreateRequest → M Store BatchCreateResponse
batch_create_transactions ids ctx req = do
  user_id ← get_user_id ctx
  raise_if (ltb 100 (length req.transactions)) invalid_argument
  r ← create_items ids ctx req.account_id req.transactions
  warn r r.created

unfoldable pub parse_all : Uuid → List String → Option (List ℕ)
parse_all ids [] = some []
parse_all ids (i ∷ l) = elim (ids.parse i) [
  | none ↦ none
  | some n ↦ elim (parse_all ids l) [ none ↦ none | some ns ↦ some (n ∷ ns) ]
]

abbrev pub is_id : ℕ → List ℕ → Bool
is_id i [] = false
is_id i (n ∷ l) = (n == i) || is_id i l

-- `… FROM transactions WHERE id = ANY($1) AND deleted_at IS NULL`
unfoldable pub live_among : List ℕ → List Transaction → List Transaction
live_among txn_ids [] = []
live_among txn_ids (t ∷ l) =
    let rest = live_among txn_ids l in
    if is_id t.id txn_ids && not t.deleted then t ∷ rest else rest

-- the permission check of one row, for a caller who has not made the transaction
unfoldable pub check_batch_row : Uuid → String → ℕ → Transaction → M Store ⊤
check_batch_row ids user_id uid t = if t.user_id == uid then pure tt else do
  family_id ← get_account_family_id ids t.account_id internal
  with_code permission_denied (check ids user_id family_id can_delete)

unfoldable pub check_batch : Uuid → String → ℕ → List Transaction → M Store ⊤
check_batch ids user_id uid [] = pure tt
check_batch ids user_id uid (t ∷ l) = do
  check_batch_row ids user_id uid t
  check_batch ids user_id uid l

-- `deleteIDs`
abbrev pub ids_of : List Transaction → List ℕ
ids_of [] = []
ids_of (t ∷ l) = t.id ∷ ids_of l

-- `UPDATE transactions SET deleted_at = NOW() WHERE id = ANY($1)`
unfoldable pub delete_rows_of : List ℕ → List Transaction → List Transaction
delete_rows_of delete_ids [] = []
delete_rows_of delete_ids (t ∷ l) =
    (if is_id t.id delete_ids then mark_deleted t else t) ∷ delete_rows_of delete_ids l

-- `balanceReverts[accountID] += x`, on a map that starts at 0
unfoldable pub add_revert : ℕ → ℤ → List (ℕ × ℤ) → List (ℕ × ℤ)
add_revert i x [] = (i, x) ∷ []
add_revert i x ((j, y) ∷ l) = if j == i then (j, y +64 x) ∷ l else (j, y) ∷ add_revert i x l

abbrev pub revert_one : Transaction → List (ℕ × ℤ) → List (ℕ × ℤ)
revert_one t l = add_revert t.account_id (if_income t.kind) l
  where
    if_income : TransactionKind → ℤ
    if_income income = pos 0 -64 t.amount_cny
    if_income expense = t.amount_cny

unfoldable pub balance_reverts : List Transaction → List (ℕ × ℤ)
balance_reverts [] = []
balance_reverts (t ∷ l) = revert_one t (balance_reverts l)

-- one `UPDATE accounts` for each account of the map, in whatever order
unfoldable pub revert_balances : List (ℕ × ℤ) → M Store ⊤
revert_balances [] = pure tt
revert_balances ((i, x) ∷ l) = do statement (credit i x) internal internal; revert_balances l

-- one row of `sync_operations` for each transaction; `sync_id` and the numbers after it are drawn
unfoldable pub sync_deletes : Uuid → ℕ → ℕ → List Transaction → M Store ⊤
sync_deletes ids sync_id uid [] = pure tt
sync_deletes ids sync_id uid (t ∷ l) = do
  insert_transaction_sync_op ids sync_id uid t.id op_delete internal
  sync_deletes ids (suc sync_id) uid l

abbrev pub delete_all : Uuid → ℕ → ℕ → List Transaction → M Store ℕ
delete_all ids sync_id uid [] = pure 0
delete_all ids sync_id uid (t ∷ l) = do
  exec (λ (s : Store). record s { transactions = delete_rows_of (ids_of (t ∷ l)) s.transactions })
  revert_balances (balance_reverts (t ∷ l))
  sync_deletes ids sync_id uid (t ∷ l)
  pure (length (t ∷ l))

-- what `BatchDeleteTransactions` does in its transaction
unfoldable pub batch_delete_in_tx : Uuid → ℕ → String → ℕ → List ℕ → M Store ℕ
batch_delete_in_tx ids sync_id user_id uid txn_ids = do
  to_delete ←
      statement (λ (s : Store). done (live_among txn_ids s.transactions) s) internal internal
  check_batch ids user_id uid to_delete
  delete_all ids sync_id uid to_delete

-- `BatchDeleteTransactions`, less the messages to other devices; the answer is the count.
unfoldable pub batch_delete_transactions : Uuid → Option String → ℕ → List String → M Store ℕ
batch_delete_transactions ids ctx sync_id transaction_ids = do
  user_id ← get_user_id ctx
  raise_if (length transaction_ids == 0) invalid_argument
  raise_if (ltb 100 (length transaction_ids)) invalid_argument
  uid ← or_raise (ids.parse user_id) internal
  txn_ids ← or_raise (parse_all ids transaction_ids) invalid_argument
  atomically (batch_delete_in_tx ids sync_id user_id uid txn_ids)
