-- ===== src/Transaction/Booking.antt =====
-- The stages of CreateTransaction within its database transaction
-- (server/internal/transaction/pipeline_stages.go): what they find out and what they write.
use family_ledger.Transaction.Resolving.{
  verify_category-Triple, Resolved, verify_account_in_tx-Triple,
}
use Prim.Native.String.{String}
use family_ledger.Base.{
  ⊤, ℕ, ◌≡◌, refl, ap, sym, ◌∙◌, Bool, true, false, none, some, ◌∷◌, arith, some_inj,
}
use text.Mathlib.Text.{◌==◌ as str_eq}
use family_ledger.Base.Int.{◌≤ℤ◌, ◌+ℤ◌}
use family_ledger.Db.{done}
use family_ledger.Db.Triple.{
  Triple, pure-Triple, bind-Triple, then-Triple, query-Triple, if-Triple, weaken-Triple,
  done-Triple, raise_if-Triple, strengthen-Triple, facts-Triple,
}
use family_ledger.Store.{
  Uuid, TransactionKind, income, expense, Transaction, op_create, SyncOperation, Account, Store,
  find_account, update_account,
}
use family_ledger.Account.{find_live, credit}
use family_ledger.Account.Rows.{with_balance, credit-done, find_live-some}
use family_ledger.Transaction.{
  Drawn, insert_transaction_sync_op, insert_sync_operation, sync_client_id, delta_of,
  find_transaction_row,
}
use family_ledger.Transaction.Create.{
  overdraft_stage, check_overdraft, insert_transaction, persist, book,
}

abbrev pub create_op : Uuid → Drawn → Transaction → SyncOperation
create_op ids drawn t = record {
  user_id = t.user_id;
  entity_type = "transaction";
  entity_id = t.id;
  op_type = op_create;
  client_id = sync_client_id ids "create" drawn.sync_id;
}

-- Whether the balance of an account has to cover a transaction.
abbrev pub NeedsCover : Bool → Transaction → Account → Type 0
NeedsCover batch t a = (batch ≡ false) × (t.kind ≡ expense) × (str_eq a.kind "credit_card" ≡ false)

-- What the stages have done for the transaction `t` that was asked for.
pub record IsBooked (ids : Uuid) (batch : Bool) (drawn : Drawn) (s : Store) (t : Transaction)
    (a : Account) (booked : Transaction) (s' : Store) : Type 0 where
  pub found : find_live t.account_id s ≡ some a
  pub row : booked ≡ record t { category_id = booked.category_id }
  pub same_category : batch ≡ false → booked.category_id ≡ t.category_id
  pub covered : NeedsCover batch t a → t.amount_cny ≤ℤ a.balance
  pub fresh : find_transaction_row t.id s.transactions ≡ none
  pub tables : s' ≡ record s {
    accounts =
        update_account t.account_id
          (λ a. with_balance a (a.balance +ℤ delta_of t.kind t.amount_cny))
          s.accounts;
    transactions = booked ∷ s.transactions;
    categories = s'.categories;
    sync_operations = create_op ids drawn t ∷ s.sync_operations;
  }

check_overdraft-Triple :
    (t : Transaction) (acct_type : String) {P : Store → Type 0}
    → Triple P
        (check_overdraft t acct_type)
        (λ _ s.
          P s
          × (str_eq acct_type "credit_card" ≡ false
              → (a : Account) × (find_account t.account_id s.accounts ≡ some a)
                × (t.amount_cny ≤ℤ a.balance)))
        (λ _. ⊤)
unfolding check_overdraft
check_overdraft-Triple t acct_type =
    if-Triple (str_eq acct_type "credit_card")
      (λ c. pure-Triple tt (λ s p. (p, λ n. absurd (ground (arith, c, n)))))
      (λ _. bind-Triple (query-Triple (λ _ _. tt) _ _) λ a.
        weaken-Triple (raise_if-Triple (λ _ _. tt) _ _)
          λ _ s p. (p.0.0, λ _. (a, p.0.1, ground (arith, p.1))))

-- Where the balance has to cover the transaction, it does.
abbrev IsCovered : Bool → Transaction → TransactionKind → String → Store → Type 0
IsCovered batch t k acct_type s =
    (batch ≡ false) × (k ≡ expense) × (str_eq acct_type "credit_card" ≡ false)
    → (a : Account) × (find_account t.account_id s.accounts ≡ some a) × (t.amount_cny ≤ℤ a.balance)

overdraft_stage-Triple :
    (batch : Bool) (t : Transaction) (k : TransactionKind) (acct_type : String) {P : Store → Type 0}
    → Triple P
        (overdraft_stage batch t k acct_type)
        (λ _ s. P s × IsCovered batch t k acct_type s)
        (λ _. ⊤)
overdraft_stage-Triple batch t income acct_type =
    pure-Triple tt (λ s p. (p, λ n. absurd (not_expense n.1)))
  where
    not_expense : income ≡ expense → ⊥
    not_expense e = cc
overdraft_stage-Triple true t expense acct_type =
    pure-Triple tt (λ s p. (p, λ n. absurd (ground (arith, n.0))))
overdraft_stage-Triple false t expense acct_type =
    weaken-Triple (check_overdraft-Triple t acct_type) λ _ s p. (p.0, λ n. p.1 n.2)

insert_transaction-done :
    (t : Transaction) (s s' : Store)
    → insert_transaction t s ≡ done tt s'
    → (find_transaction_row t.id s.transactions ≡ none)
      × (s' ≡ record s { transactions = t ∷ s.transactions })
unfolding insert_transaction
insert_transaction-done t s s' e = ground arith

pub insert_sync_operation-done :
    (o : SyncOperation) (s s' : Store)
    → insert_sync_operation o s ≡ done tt s'
    → s' ≡ record s { sync_operations = o ∷ s.sync_operations }
unfolding insert_sync_operation
insert_sync_operation-done o s s' e = ground arith

-- The tables after the stages `persist` and `sync`.
abbrev Persisted : Uuid → Drawn → Transaction → Store → Store → Type 0
Persisted ids drawn t s s' =
    (find_transaction_row t.id s.transactions ≡ none)
    × (s' ≡ record s {
      accounts =
          update_account t.account_id
            (λ a. with_balance a (a.balance +ℤ delta_of t.kind t.amount_cny)) s.accounts;
      transactions = t ∷ s.transactions;
      sync_operations = create_op ids drawn t ∷ s.sync_operations;
    })

three_writes :
    (ids : Uuid) (drawn : Drawn) (t : Transaction) (s s1 s2 s3 : Store)
    → insert_transaction t s ≡ done tt s1
    → credit t.account_id (delta_of t.kind t.amount_cny) s1 ≡ done tt s2
    → insert_sync_operation (create_op ids drawn t) s2 ≡ done tt s3
    → Persisted ids drawn t s s3
three_writes ids drawn t s s1 s2 s3 i c o =
    let (fresh, e1) = insert_transaction-done t s s1 i in
    let e2 = credit-done t.account_id (delta_of t.kind t.amount_cny) s1 s2 c in
    let e3 = insert_sync_operation-done (create_op ids drawn t) s2 s3 o in
    (fresh, rw (e3, e2, e1) refl)

persist-Triple :
    (ids : Uuid) (drawn : Drawn) (t : Transaction) {P : Store → Type 0}
    → Triple P
        (persist ids drawn t)
        (λ _ s'. (s : Store) × P s × Persisted ids drawn t s s')
        (λ _. ⊤)
unfolding persist insert_transaction_sync_op
persist-Triple ids drawn t = then-Triple (done-Triple (λ _ _. tt) _ _ _) λ _.
    then-Triple (done-Triple (λ _ _. tt) _ _ _) λ _.
      weaken-Triple (done-Triple (λ _ _. tt) _ _ _) λ _ s' p.
        let (s2, (s1, (s0, q, i), c), o) = p in (s0, q, three_writes ids drawn t s0 s1 s2 s' i c o)

all_stages :
    (ids : Uuid) (batch : Bool) (drawn : Drawn) (t : Transaction) (a : Account) (c : ℕ)
    (s s1 s' : Store)
    → find_live t.account_id s ≡ some a
    → Resolved batch s t c s1
    → IsCovered batch t t.kind a.kind s1
    → Persisted ids drawn (record t { category_id = c }) s1 s'
    → IsBooked ids batch drawn s t a (record t { category_id = c }) s'
all_stages ids batch drawn t a c s s1 s' found (only, same) covers (fresh, e) = record {
  found = found;
  row = refl;
  same_category = same;
  covered = λ n.
      let (b, there, enough) = covers n in
      let there' = sym (ap (λ (u : Store). find_account t.account_id u.accounts) only) ∙ there in
      rw (some_inj (sym (find_live-some t.account_id s a found).0 ∙ there')) enough;
  fresh = rw (← ap (λ (u : Store). u.transactions) only) fresh;
  tables = rw e (
      ap
        (λ (u : Store). record u {
          accounts =
              update_account t.account_id
                (λ a. with_balance a (a.balance +ℤ delta_of t.kind t.amount_cny)) u.accounts;
          transactions = record t { category_id = c } ∷ u.transactions;
          sync_operations = create_op ids drawn t ∷ u.sync_operations;
        })
        only);
}

-- What the stages from `begin_tx` on have done for the transaction `t` that was asked for.
pub book-Triple :
    (ids : Uuid) (batch : Bool) (drawn : Drawn) (t : Transaction) (s : Store)
    → Triple
        (λ s'. s' ≡ s)
        (book ids batch drawn t)
        (λ r s'. IsBooked ids batch drawn s t r.0 r.1 s')
        (λ _. ⊤)
unfolding book
book-Triple ids batch drawn t s = bind-Triple (verify_account_in_tx-Triple ids _ _) λ a.
    facts-Triple {C = find_live t.account_id s ≡ some a} (λ s' p. rw p.0 at p.1)
      λ found.
        strengthen-Triple {P' = λ s'. s' ≡ s} (λ s' p. p.0)
          (bind-Triple (verify_category-Triple ids t s batch) λ c.
            then-Triple (overdraft_stage-Triple batch t t.kind a.kind) λ _.
              then-Triple (persist-Triple ids drawn (record t { category_id = c })) λ _.
                pure-Triple (a, record t { category_id = c })
                  λ s' p.
                    let (s1, (resolved, covers), persisted) = p in
                    all_stages ids batch drawn t a c s s1 s' found resolved covers persisted)
