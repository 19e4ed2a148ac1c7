-- ===== src/Transaction/Removal.antt =====
-- DeleteTransaction (server/internal/transaction/service.go): who may delete what, and what becomes
-- of the balances.
use family_ledger.Transaction.Rows.{find_transaction-some, find-update_transaction_row}
use Prim.Native.String.{String}
use mathlib.Core.Path.{subst}
use family_ledger.Base.{◌∙◌, arith, none, true, ⊤, ℕ, ◌≡◌, refl, ap, Option, some, ◌∷◌}
use family_ledger.Base.Int.{pos, ◌+ℤ◌}
use family_ledger.Db.{World, done}
use family_ledger.Db.Triple.{
  Triple, Post, pure-Triple, bind-Triple, then-Triple, query-Triple, peek-Triple, or_raise-Triple,
  done-Triple, exec_eq-Triple, atomically-Triple, facts-Triple, strengthen-Triple,
}
use family_ledger.Store.{
  expense, income, Uuid, Transaction, Store, op_delete, SyncOperation, update_account,
}
use family_ledger.Store.Context.{get_user_id-Triple}
use family_ledger.Permission.{can_delete}
use family_ledger.Account.{credit}
use family_ledger.Account.Rows.{with_balance, credit-done}
use family_ledger.Family.Auditing.{IgnoresLog, log_audit-Triple}
use family_ledger.Transaction.{
  ◌-64◌, find_transaction_row, Drawn, insert_transaction_sync_op, insert_sync_operation,
  get_account_family_id, sync_client_id, find_transaction, update_transaction_row,
}
use family_ledger.Transaction.Change.{mark_deleted, revert_of, delete_in_tx, delete_transaction}
use family_ledger.Transaction.Booking.{insert_sync_operation-done}
use family_ledger.Transaction.Creation.{add_to_balance, OnlyLog}
use family_ledger.Transaction.Access.{MayChange, check_transaction-Triple}

abbrev delete_op : Uuid → Drawn → ℕ → ℕ → SyncOperation
delete_op ids drawn uid txn_id = record {
  user_id = uid;
  entity_type = "transaction";
  entity_id = txn_id;
  op_type = op_delete;
  client_id = sync_client_id ids "delete" drawn.sync_id;
}

-- A live transaction was marked as deleted, its amount taken back from the balance of its account,
-- and the operation to synchronise stored.
pub record IsRemoved (ids : Uuid) (drawn : Drawn) (user_id : String) (uid txn_id : ℕ) (s s' : Store)
    : Type 0 where
  pub removed : Transaction
  pub found : find_transaction txn_id s ≡ some removed
  pub may_delete : MayChange ids user_id uid removed can_delete s
  pub tables : s' ≡ record s {
    accounts =
        update_account removed.account_id
          (λ a. with_balance a (a.balance +ℤ revert_of removed.kind removed.amount_cny))
          s.accounts;
    transactions = update_transaction_row txn_id (λ t. record t { deleted = true }) s.transactions;
    sync_operations = delete_op ids drawn uid txn_id ∷ s.sync_operations;
  }
  pub lowered :
      removed.kind ≡ income
      → s'.accounts ≡ add_to_balance removed.account_id (pos 0 -64 removed.amount_cny) s.accounts
  pub raised :
      removed.kind ≡ expense
      → s'.accounts ≡ add_to_balance removed.account_id removed.amount_cny s.accounts
  pub marked :
      find_transaction_row txn_id s'.transactions ≡ some (record removed { deleted = true })
  pub gone : find_transaction txn_id s' ≡ none

-- The tables after the deletion of the row `t`.
abbrev removal : Uuid → Drawn → ℕ → ℕ → Transaction → Store → Store
removal ids drawn uid txn_id t s = record s {
  accounts =
      update_account t.account_id (λ a. with_balance a (a.balance +ℤ revert_of t.kind t.amount_cny))
        s.accounts;
  transactions = update_transaction_row txn_id mark_deleted s.transactions;
  sync_operations = delete_op ids drawn uid txn_id ∷ s.sync_operations;
}

deleted_gone :
    (i : ℕ) (s : Store) (t : Transaction)
    → find_transaction_row i s.transactions ≡ some t
    → t.deleted ≡ true
    → find_transaction i s ≡ none
unfolding find_transaction
deleted_gone i s t e d = ground arith

three_changes :
    (ids : Uuid) (drawn : Drawn) (user_id : String) (uid txn_id : ℕ) (t : Transaction)
    (s s1 s2 s3 : Store)
    → find_transaction txn_id s ≡ some t
    → MayChange ids user_id uid t can_delete s
    → s1 ≡ record s { transactions = update_transaction_row txn_id mark_deleted s.transactions }
    → credit t.account_id (revert_of t.kind t.amount_cny) s1 ≡ done tt s2
    → insert_sync_operation (delete_op ids drawn uid txn_id) s2 ≡ done tt s3
    → IsRemoved ids drawn user_id uid txn_id s s3
three_changes ids drawn user_id uid txn_id t s s1 s2 s3 found may e1 c o =
    let e2 = credit-done t.account_id (revert_of t.kind t.amount_cny) s1 s2 c in
    let e3 = insert_sync_operation-done (delete_op ids drawn uid txn_id) s2 s3 o in
    let tables : s3 ≡ removal ids drawn uid txn_id t s = rw (e3, e2, e1) refl in
    let accounts = ap (λ (u : Store). u.accounts) tables in
    let marked =
      ap (λ (u : Store). find_transaction_row txn_id u.transactions) tables
      ∙ find-update_transaction_row txn_id mark_deleted s.transactions t
          (find_transaction-some txn_id s t found).0 refl in
    record {
      removed = t;
      found = found;
      may_delete = may;
      tables = tables;
      lowered = λ e. accounts ∙ rw e refl;
      raised = λ e. accounts ∙ rw e refl;
      marked = marked;
      gone = deleted_gone txn_id s3 (record t { deleted = true }) marked refl;
    }

delete_in_tx-Triple :
    (ids : Uuid) (drawn : Drawn) (user_id : String) (uid txn_id : ℕ) (s : Store)
    → Triple
        (λ s'. s' ≡ s)
        (delete_in_tx ids drawn user_id uid txn_id)
        (λ _ s'. IsRemoved ids drawn user_id uid txn_id s s')
        (λ _. ⊤)
unfolding delete_in_tx insert_transaction_sync_op
delete_in_tx-Triple ids drawn user_id uid txn_id s = bind-Triple (query-Triple (λ _ _. tt) _ _) λ t.
    then-Triple (check_transaction-Triple ids user_id uid t can_delete) λ _.
      then-Triple (exec_eq-Triple (λ _ _. tt) _) λ _.
        then-Triple (done-Triple (λ _ _. tt) _ _ _) λ _.
          then-Triple (done-Triple (λ _ _. tt) _ _ _) λ _. pure-Triple t.account_id λ s' p.
            let (s2, (s1, (s0, ((e0, found), may), e1), c), o) = p in
            subst (λ (u : Store). IsRemoved ids drawn user_id uid txn_id u s') e0
              (three_changes ids drawn user_id uid txn_id t s0 s1 s2 s' found may e1 c o)

-- A transaction was deleted for a request.
pub record IsDeleted (ids : Uuid) (ctx : Option String) (drawn : Drawn) (transaction_id : String)
    (s s' : Store) : Type 0 where
  pub caller_id : String
  pub uid : ℕ
  pub txn_id : ℕ
  pub committed : Store
  pub caller : ctx ≡ some caller_id
  pub user_is : ids.parse caller_id ≡ some uid
  pub transaction_is : ids.parse transaction_id ≡ some txn_id
  pub removed : IsRemoved ids drawn caller_id uid txn_id s committed
  pub only_log : OnlyLog committed s'

IsDeleted-IgnoresLog :
    (ids : Uuid) (ctx : Option String) (drawn : Drawn) (transaction_id : String) (s : Store)
    → IgnoresLog (IsDeleted ids ctx drawn transaction_id s)
IsDeleted-IgnoresLog ids ctx drawn transaction_id s s' l d = record {
  caller_id = d.caller_id;
  uid = d.uid;
  txn_id = d.txn_id;
  committed = d.committed;
  caller = d.caller;
  user_is = d.user_is;
  transaction_is = d.transaction_is;
  removed = d.removed;
  only_log = ap (λ (u : Store). record u { audit_logs = l }) d.only_log;
}

delete_transaction-Triple :
    (ids : Uuid) (ctx : Option String) (drawn : Drawn) (transaction_id : String) (s : Store)
    → Triple
        (λ s'. s' ≡ s)
        (delete_transaction ids ctx drawn transaction_id)
        (λ _. IsDeleted ids ctx drawn transaction_id s)
        (λ s'. s' ≡ s)
unfolding delete_transaction get_account_family_id
delete_transaction-Triple ids ctx drawn transaction_id s =
    bind-Triple (get_user_id-Triple ctx (λ s' p. p)) λ user_id.
      bind-Triple (or_raise-Triple (λ s' p. p.0) _ _) λ uid.
        bind-Triple (or_raise-Triple (λ s' p. p.0.0) _ _) λ txn_id.
          facts-Triple
            {C = (ctx ≡ some user_id)
              × (ids.parse user_id ≡ some uid)
              × (ids.parse transaction_id ≡ some txn_id)}
            (λ s' p. (p.0.0.1, p.0.1, p.1))
            λ c.
              strengthen-Triple {P' = λ s'. s' ≡ s} (λ s' p. p.0.0.0)
                (bind-Triple
                  (atomically-Triple (λ s' p. p)
                    (delete_in_tx-Triple ids drawn user_id uid txn_id s))
                  λ account_id.
                    strengthen-Triple {P' = IsDeleted ids ctx drawn transaction_id s}
                      (λ s' r. record {
                        caller_id = user_id;
                        uid = uid;
                        txn_id = txn_id;
                        committed = s';
                        caller = c.0;
                        user_is = c.1;
                        transaction_is = c.2;
                        removed = r;
                        only_log = refl;
                      })
                      (bind-Triple (peek-Triple _ _ _ _) λ family_id.
                        log_audit-Triple ids _ _ _ _
                          (IsDeleted-IgnoresLog ids ctx drawn transaction_id s)))

-- `DeleteTransaction` either fails and changes no table, or was asked for by a user of the context
-- who has made the transaction, or may delete in the family of its account. Then the transaction,
-- which was live, is marked as deleted and no longer found, the balance of its account is less by the
-- amount in CNY of an income, and more by that of an expense (as int64), the operation to synchronise has been stored, and apart from the audit log nothing
-- else has changed.
pub delete_transaction-IsDeleted :
    (ids : Uuid) (ctx : Option String) (drawn : Drawn) (transaction_id : String) (w : World Store)
    → let (r, w') = delete_transaction ids ctx drawn transaction_id w in
      Post (λ _. IsDeleted ids ctx drawn transaction_id w.store) (λ s'. s' ≡ w.store) r w'.store
delete_transaction-IsDeleted ids ctx drawn transaction_id w =
    (delete_transaction-Triple ids ctx drawn transaction_id w.store).run w refl
