-- ===== src/Transaction/Reversal.antt =====
-- What becomes of the balances when a transaction is deleted
-- (DeleteTransaction of server/internal/transaction/service.go).
use Prim.Native.String.{String}
use family_ledger.Base.{◌≡◌, refl, ap, ◌∙◌, Option}
use family_ledger.Db.{World}
use family_ledger.Db.Triple.{Post-elim}
use family_ledger.Store.{Uuid, Transaction, Store}
use family_ledger.Transaction.{Drawn}
use family_ledger.Transaction.Change.{delete_transaction}
use family_ledger.Transaction.Net.{IsNegatable, KeepsOpenings, remove-openings}
use family_ledger.Transaction.Removal.{IsDeleted, delete_transaction-IsDeleted}
use family_ledger.Transaction.Rows.{All, All-found, find_transaction-some}

-- The amounts of all rows can be negated.
abbrev pub AllNegatable : Store → Type 0
AllNegatable s = All (λ (t : Transaction). IsNegatable t.amount_cny) s.transactions

pub deleted-KeepsOpenings :
    {ids : Uuid} {ctx : Option String} {drawn : Drawn} {transaction_id : String} {s s' : Store}
    → IsDeleted ids ctx drawn transaction_id s s'
    → AllNegatable s
    → KeepsOpenings s s'
deleted-KeepsOpenings {s} {s'} d fits =
    let t = d.removed.removed in
    let (found, live) = find_transaction-some d.txn_id s t d.removed.found in
    remove-openings d.txn_id t s s' found live
      (All-found (λ (t : Transaction). IsNegatable t.amount_cny) d.txn_id s.transactions t fits
        found)
      (ap (λ (u : Store). u.accounts) d.only_log ∙ ap (λ (u : Store). u.accounts) d.removed.tables)
      (ap (λ (u : Store). u.transactions) d.only_log
        ∙ ap (λ (u : Store). u.transactions) d.removed.tables)

-- Whatever `DeleteTransaction` comes to on tables whose transactions have amounts in CNY that can be
-- negated as int64, with any failures of the database: the balance of each account less what its
-- live transactions come to is what it was.
pub delete_transaction-KeepsOpenings :
    (ids : Uuid) (ctx : Option String) (drawn : Drawn) (transaction_id : String) (w : World Store)
    → AllNegatable w.store
    → KeepsOpenings w.store (delete_transaction ids ctx drawn transaction_id w).1.store
delete_transaction-KeepsOpenings ids ctx drawn transaction_id w fits =
    Post-elim (λ _. IsDeleted ids ctx drawn transaction_id w.store) (λ s'. s' ≡ w.store) _ _
      (λ _ d. deleted-KeepsOpenings d fits) (λ e. rw e (λ j. refl))
      (delete_transaction-IsDeleted ids ctx drawn transaction_id w)
