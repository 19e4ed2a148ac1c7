-- ===== src/Transaction/Openings.antt =====
-- What becomes of the balances when transactions are entered, one by one
-- (server/internal/transaction/service.go).
use Prim.Native.String.{String}
use family_ledger.Base.{
  sym, some_inj, some, false, ◌≡◌, ◌⊎◌, inl, inr, refl, ap, ◌∙◌, Bool, Option, ◌∷◌, arith,
}
use family_ledger.Base.Int.{◌-ℤ◌, int_laws, ℤ, pos, ◌≤ℤ◌, ◌+ℤ◌}
use family_ledger.Base.Int64.{InRange}
use family_ledger.Db.{ok, World}
use family_ledger.Db.Triple.{Post-elim}
use family_ledger.Store.{
  TransactionKind, find_account, Account, expense, Uuid, Transaction, Store, update_account,
}
use family_ledger.Account.Rows.{with_balance, find_live-some, find-update_self}
use family_ledger.Transaction.{str_eq, Drawn, delta_of}
use family_ledger.Transaction.Input.{CreateTransactionRequest}
use family_ledger.Transaction.Create.{create_transaction}
use family_ledger.Transaction.Net.{delta_of-effect, KeepsOpenings, IsNegatable, insert-openings}
use family_ledger.Transaction.Creation.{IsEntered, create_transaction-IsEntered}

positive-IsNegatable :
    (x y : ℤ) → pos 1 ≤ℤ x → (x ≡ y) ⊎ (x ≤ℤ pos 99999999999) → InRange y → IsNegatable x
positive-IsNegatable x y h (inl e) r = rw e (ground (arith, rw e at h))
positive-IsNegatable x y h (inr b) r = ground arith

module _ {ids : Uuid} {ctx : Option String} {batch : Bool} {drawn : Drawn}
    {req : CreateTransactionRequest} {s s' : Store} {t : Transaction}
    (h : IsEntered ids ctx batch drawn req s t s') where
  entered_amount : InRange req.amount_cny → IsNegatable h.asked.amount_cny
  entered_amount r = positive-IsNegatable _ _ h.as_asked.cny_positive (bound h.as_asked.cny_is) r
    where
      bound :
          (h.asked.amount_cny ≡ req.amount_cny) ⊎ (h.asked.amount_cny ≡ h.asked.amount)
          → (h.asked.amount_cny ≡ req.amount_cny) ⊎ (h.asked.amount_cny ≤ℤ pos 99999999999)
      bound (inl e) = inl e
      bound (inr e) = inr (rw e h.as_asked.at_most)

  entered_accounts :
      s'.accounts
      ≡ update_account h.asked.account_id
          (λ a. with_balance a (a.balance +ℤ delta_of h.asked.kind h.asked.amount_cny))
          s.accounts
  entered_accounts =
      ap (λ (u : Store). u.accounts) h.only_log ∙ ap (λ (u : Store). u.accounts) h.booked.tables

  pub entered_transactions : s'.transactions ≡ t ∷ s.transactions
  entered_transactions =
      ap (λ (u : Store). u.transactions) h.only_log
      ∙ ap (λ (u : Store). u.transactions) h.booked.tables

  pub entered-KeepsOpenings : IsNegatable h.asked.amount_cny → KeepsOpenings s s'
  entered-KeepsOpenings r =
      insert-openings h.asked t t.category_id s s' h.booked.row h.as_asked.is_live r
        entered_accounts entered_transactions

-- Whatever `CreateTransaction` comes to for a request whose amount in CNY is an int64, also in a
-- batch and with any failures of the database: the balance of each account less what its live
-- transactions come to is what it was.
pub create_transaction-KeepsOpenings :
    (ids : Uuid) (ctx : Option String) (batch : Bool) (drawn : Drawn)
    (req : CreateTransactionRequest) (w : World Store)
    → InRange req.amount_cny
    → KeepsOpenings w.store (create_transaction ids ctx batch drawn req w).1.store
create_transaction-KeepsOpenings ids ctx batch drawn req w fits =
    Post-elim (IsEntered ids ctx batch drawn req w.store) (λ s'. s' ≡ w.store) _ _
      (λ t h. entered-KeepsOpenings h (entered_amount h fits)) (λ e. rw e (λ j. refl))
      (create_transaction-IsEntered ids ctx batch drawn req w)

balance_less_cny :
    (k : TransactionKind) (b x : ℤ) → k ≡ expense → IsNegatable x → b +ℤ delta_of k x ≡ b -ℤ x
balance_less_cny k b x e h = rw (delta_of-effect k x h, e) (grind int_laws)

entered-no_overdraft :
    {ids : Uuid} {ctx : Option String} {drawn : Drawn} {req : CreateTransactionRequest}
    {s s' : Store} {t : Transaction} (h : IsEntered ids ctx false drawn req s t s')
    → InRange req.amount_cny
    → h.asked.kind ≡ expense
    → (a : Account) → find_account h.asked.account_id s.accounts ≡ some a
    → str_eq a.kind "credit_card" ≡ false
    → (h.asked.amount_cny ≤ℤ a.balance)
      × (find_account h.asked.account_id s'.accounts
          ≡ some (with_balance a (a.balance -ℤ h.asked.amount_cny)))
entered-no_overdraft {s} h fits k a there no_card =
    let same : h.account ≡ a = some_inj (sym (find_live-some _ s _ h.booked.found).0 ∙ there) in
    (
      rw same at (h.booked.covered (refl, k, rw same no_card)),
      ap (find_account h.asked.account_id) (entered_accounts h)
          ∙ find-update_self h.asked.account_id _ s.accounts a (λ a. refl) there
          ∙ ap (λ z. some (with_balance a z))
              (balance_less_cny h.asked.kind a.balance h.asked.amount_cny k
                (entered_amount h fits)),
    )

-- A transaction of type expense that `CreateTransaction` enters outside a batch, with an amount in
-- CNY that is an int64, on an account that is not a credit card: the balance covered the amount in
-- CNY, and is now less by it.
pub create_transaction-no_overdraft :
    (ids : Uuid) (ctx : Option String) (drawn : Drawn) (req : CreateTransactionRequest)
    (w w' : World Store) (t : Transaction) (a : Account)
    → create_transaction ids ctx false drawn req w ≡ (ok t, w')
    → InRange req.amount_cny
    → t.kind ≡ expense
    → find_account t.account_id w.store.accounts ≡ some a
    → str_eq a.kind "credit_card" ≡ false
    → (t.amount_cny ≤ℤ a.balance)
      × (find_account t.account_id w'.store.accounts
          ≡ some (with_balance a (a.balance -ℤ t.amount_cny)))
create_transaction-no_overdraft ids ctx drawn req w w' t a e fits k there no_card =
    let h : IsEntered ids ctx false drawn req w.store t w'.store =
      rw e at (create_transaction-IsEntered ids ctx false drawn req w) in
    let row = h.booked.row in
    let (enough, after) =
      entered-no_overdraft h fits (rw (ap (λ (u : Transaction). u.kind) row) at k) a
        (rw (ap (λ (u : Transaction). u.account_id) row) at there) no_card in
    (
      rw (ap (λ (u : Transaction). u.amount_cny) row) enough,
      rw (ap (λ (u : Transaction). u.amount_cny) row, ap (λ (u : Transaction). u.account_id) row)
          after,
    )
