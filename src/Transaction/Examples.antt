-- ===== src/Transaction/Examples.antt =====
-- Transactions on a small database.
use family_ledger.Transaction.SmallBooks.{
  lunch_row, lunch, abroad, drawn, foreign_books, on, times, no_change, books,
}
use family_ledger.Permission.{check, check_row}
use family_ledger.Account.{find_live, credit}
use family_ledger.Family.{log_audit}
use family_ledger.Base.Int64.{◌-64◌, ◌+64◌, wrap}
use family_ledger.Base.{◌⊎◌, ℕ, ◌≡◌, refl, false, none, some, [], ◌∷◌, arith}
use family_ledger.Base.Int.{pos, negsuc, ◌≤ℤ◌, ◌+ℤ◌, ◌-ℤ◌}
use family_ledger.Db.{
  pure, raise, statement, atomically_with, atomically, ignore_error, with_code, ◌>>=◌, ◌>>◌, query,
  exec, raise_if, or_raise, ok, err, permission_denied, failed_precondition, World,
}
use family_ledger.Db.Triple.{Post}
use family_ledger.Store.{
  update_account, find_member, find_family, get_user_id, Account, Store, find_account,
}
use family_ledger.Account.Examples.{ids, strokes, row}
use family_ledger.Account.Rows.{with_balance}
use family_ledger.Transaction.{
  validate_txn_date, insert_transaction_sync_op, get_account_family_id, find_transaction,
  update_transaction_row, find_live_category, sync_client_id, has_client_id, insert_sync_operation,
  find_category, type_expense, find_transaction_row,
}
use family_ledger.Transaction.Input.{home_amount, date_asked, validate_create_input}
use family_ledger.Transaction.Create.{
  check_account_permission, verify_account_in_tx, default_category, add_category,
  resolve_batch_category, verify_category, check_overdraft, insert_transaction, persist, book,
  placeholder, take_text, better_category, create_transaction,
}
use family_ledger.Transaction.Change.{
  check_transaction, set_amount, set_category, set_type, set_date, changed_row, store_transaction,
  adjust_balance, update_in_tx, delete_in_tx, UpdateTransactionRequest, update_transaction,
  delete_transaction,
}
use family_ledger.Transaction.Batch.{
  create_items, parse_all, live_among, check_batch_row, check_batch, delete_rows_of, add_revert,
  balance_reverts, revert_balances, sync_deletes, batch_delete_in_tx, negative_accounts,
  BatchCreateRequest, batch_create_transactions, batch_delete_transactions,
}
use family_ledger.Transaction.Net.{part, opening, net, KeepsOpenings}
use family_ledger.Transaction.Creation.{IsEntered, create_transaction-IsEntered}
use family_ledger.Transaction.Openings.{
  create_transaction-KeepsOpenings, create_transaction-no_overdraft,
}
use family_ledger.Transaction.Removal.{IsDeleted, delete_transaction-IsDeleted}
use family_ledger.Transaction.Reversal.{delete_transaction-KeepsOpenings}
use family_ledger.Transaction.Updating.{IsChanged, update_transaction-IsChanged}
use family_ledger.Transaction.Importing.{IsAnswered, batch_create_transactions-IsAnswered}
use family_ledger.Transaction.Requests.{
  enter, change, remove, Reachable, start, request, serve, Reachable-balance,
}

abbrev after_lunch : World Store
after_lunch = (create_transaction ids (some "1") false drawn (lunch (pos 20)) (on books)).1

methods : Unit {0}
unfolding validate_txn_date insert_transaction_sync_op get_account_family_id find_transaction
    update_transaction_row find_live_category create_items batch_create_transactions parse_all
    live_among check_batch_row check_batch delete_rows_of add_revert balance_reverts revert_balances
    sync_deletes batch_delete_in_tx batch_delete_transactions check_transaction set_amount
    set_category set_type set_date changed_row store_transaction adjust_balance update_in_tx
    update_transaction delete_in_tx delete_transaction home_amount date_asked validate_create_input
    check_account_permission verify_account_in_tx default_category add_category
    resolve_batch_category verify_category check_overdraft insert_transaction persist book
    create_transaction pure raise statement atomically_with atomically ignore_error with_code ◌>>=◌
    ◌>>◌ query exec raise_if or_raise find_account update_account find_member find_family
    get_user_id check_row check find_live credit log_audit placeholder take_text better_category
    negative_accounts sync_client_id has_client_id insert_sync_operation find_transaction_row
    find_category ◌+ℤ◌ ◌-ℤ◌ ◌-64◌ ◌+64◌ wrap part net opening
methods = tt

had_lunch :
    create_transaction ids (some "1") false drawn (lunch (pos 20)) (on books)
    ≡ (ok lunch_row, after_lunch)
unfolding methods
had_lunch = refl

-- More than the account has; an account of somebody else.
refused :
    ((create_transaction ids (some "1") false drawn (lunch (pos 51)) (on books)).0
      ≡ err failed_precondition)
    × ((create_transaction ids
          (some "1")
          false
          drawn
          (record (lunch (pos 2)) { account_id = strokes 2 })
          (on books)).0
        ≡ err permission_denied)
unfolding methods
refused = (refl, refl)

-- Any user deletes, in a batch, the transaction of another on the other's own account.
deletes_of_others :
    ((delete_transaction ids (some "1") drawn (strokes 8) (on foreign_books)).0
      ≡ err permission_denied)
    × ((batch_delete_transactions ids (some "1") 1 (strokes 8 ∷ []) (on foreign_books)).0 ≡ ok 1)
unfolding methods
deletes_of_others = (refl, refl)

-- The expense of a row abroad, with the type changed, weighs on the balance what the rate gives for
-- the amount, and not what the row says.
abbrev turned : World Store
turned =
    (update_transaction ids times (some (strokes 5)) drawn
      (record no_change {
        transaction_id = strokes 8;
        type = some type_expense;
        currency = some "CNY";
      })
      (on (record foreign_books { transactions = record abroad { amount_cny = pos 65 } ∷ [] }))).1

drift :
    (opening 2 turned.store ≡ some (negsuc 60))
    × (opening 2
          (record foreign_books { transactions = record abroad { amount_cny = pos 65 } ∷ [] })
        ≡ some (negsuc 55))
unfolding methods
drift = (refl, refl)

create_transaction-IsEntered_example :
    Post
      (IsEntered ids (some "1") false drawn (lunch (pos 20)) books)
      (λ s. s ≡ books)
      (create_transaction ids (some "1") false drawn (lunch (pos 20)) (on books)).0
      after_lunch.store
create_transaction-IsEntered_example =
    create_transaction-IsEntered ids (some "1") false drawn (lunch (pos 20)) (on books)

create_transaction-KeepsOpenings_example : KeepsOpenings books after_lunch.store
create_transaction-KeepsOpenings_example =
    create_transaction-KeepsOpenings ids (some "1") false drawn (lunch (pos 20)) (on books)
      (omega arith)

purse_there : find_account 0 books.accounts ≡ some (row 0 0 none (pos 50))
unfolding find_account
purse_there = refl

create_transaction-no_overdraft_example :
    (pos 20 ≤ℤ pos 50)
    × (find_account 0 after_lunch.store.accounts
        ≡ some (with_balance (row 0 0 none (pos 50)) (pos 50 -ℤ pos 20)))
create_transaction-no_overdraft_example =
    create_transaction-no_overdraft ids (some "1") drawn (lunch (pos 20)) (on books) after_lunch
      lunch_row (row 0 0 none (pos 50)) had_lunch (omega arith) refl purse_there refl

delete_transaction-IsDeleted_example :
    Post
      (λ _. IsDeleted ids (some (strokes 5)) drawn (strokes 8) foreign_books)
      (λ s. s ≡ foreign_books)
      (delete_transaction ids (some (strokes 5)) drawn (strokes 8) (on foreign_books)).0
      (delete_transaction ids (some (strokes 5)) drawn (strokes 8) (on foreign_books)).1.store
delete_transaction-IsDeleted_example =
    delete_transaction-IsDeleted ids (some (strokes 5)) drawn (strokes 8) (on foreign_books)

delete_transaction-KeepsOpenings_example :
    KeepsOpenings foreign_books
      (delete_transaction ids (some (strokes 5)) drawn (strokes 8) (on foreign_books)).1.store
delete_transaction-KeepsOpenings_example =
    delete_transaction-KeepsOpenings ids (some (strokes 5)) drawn (strokes 8) (on foreign_books)
      (omega arith, tt)

abbrev dearer : UpdateTransactionRequest
dearer = record no_change { amount = some (pos 30) }

update_transaction-IsChanged_example :
    Post
      (λ t s'.
        IsChanged ids times (some "1") drawn dearer after_lunch.store s'
        × ((i : ℕ) × (ids.parse (strokes 9) ≡ some i)
            × (find_transaction_row i s'.transactions ≡ some t)))
      (λ s'.
        (s' ≡ after_lunch.store) ⊎ IsChanged ids times (some "1") drawn dearer after_lunch.store s')
      (update_transaction ids times (some "1") drawn dearer after_lunch).0
      (update_transaction ids times (some "1") drawn dearer after_lunch).1.store
update_transaction-IsChanged_example =
    update_transaction-IsChanged ids times (some "1") drawn dearer after_lunch

-- A dinner that cannot be paid twice, and one on somebody else's account.
abbrev batch : BatchCreateRequest
batch = record {
  account_id = "";
  transactions =
      (drawn, lunch (pos 60)) ∷ (drawn, record (lunch (pos 1)) { account_id = strokes 2 }) ∷ [];
}

batch_create_transactions-IsAnswered_example :
    Post
      (λ r s'. KeepsOpenings books s' × IsAnswered batch.transactions r)
      (λ s'. s' ≡ books)
      (batch_create_transactions ids (some "1") batch (on books)).0
      (batch_create_transactions ids (some "1") batch (on books)).1.store
batch_create_transactions-IsAnswered_example =
    batch_create_transactions-IsAnswered ids (some "1") batch (on books)
      (omega arith, (omega arith, tt))

warned :
    (batch_create_transactions ids (some "1") batch (on books)).0
    ≡ ok (record {
      created = record lunch_row { amount = pos 60; amount_cny = pos 60 } ∷ [];
      errors = permission_denied ∷ [];
      warnings = 0 ∷ [];
    })
unfolding methods
warned = refl

-- Lunch is entered, becomes dearer, and is deleted.
abbrev after_all : Store
after_all = serve ids times (some "1") (remove (record drawn { sync_id = 3 }) (strokes 9)) (
    on (
      serve ids times (some "1") (change (record drawn { sync_id = 2 }) dearer)
        (on (serve ids times (some "1") (enter false drawn (lunch (pos 20))) (on books)))))

three_requests : Reachable ids times books after_all
three_requests =
    request _ (some "1") (remove (record drawn { sync_id = 3 }) (strokes 9)) []
      (request _ (some "1") (change (record drawn { sync_id = 2 }) dearer) []
        (request _ (some "1") (enter false drawn (lunch (pos 20))) [] start refl)
        ((λ c e. absurd (ground arith)), λ x e. ground (arith, e)))
      tt

Reachable-balance_example :
    (a : Account) × (find_account 0 after_all.accounts ≡ some a)
    × (a.balance +ℤ net 0 books.transactions ≡ pos 50 +ℤ net 0 after_all.transactions)
Reachable-balance_example =
    Reachable-balance ids times books after_all 0 (row 0 0 none (pos 50)) tt three_requests
      purse_there
