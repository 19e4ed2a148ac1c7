-- ===== src/Transaction/Updating.antt =====
-- UpdateTransaction (server/internal/transaction/service.go): what an answer means.
use family_ledger.Transaction.Adjusting.{IsAdjustment, balance_adjust-IsAdjustment}
use family_ledger.Transaction.Rows.{
  find_transaction-some, find_transaction_row-id, find-update_transaction_row,
}
use family_ledger.Transaction.Creation.{add_to_balance}
use Prim.Native.String.{String}
use mathlib.Core.Path.{subst}
use family_ledger.Base.{
  sym, ◌∙◌, ⊤, ℕ, ◌≡◌, ◌⊎◌, inl, inr, refl, ap, true, Option, some, List, [], ◌∷◌, arith,
}
use family_ledger.Base.Int.{ℤ, pos, ◌+ℤ◌, eqb_ℤ, int_laws}
use family_ledger.Db.{World, done}
use family_ledger.Db.Triple.{
  Triple, Post, pure-Triple, bind-Triple, then-Triple, query-Triple, read-Triple, if-Triple,
  or_raise-Triple, weaken-Triple, done-Triple, atomically-Triple, facts-Triple, strengthen-Triple,
}
use family_ledger.Store.{
  Uuid, Transaction, Store, op_update, SyncOperation, Account, update_account,
}
use family_ledger.Store.Context.{get_user_id-Triple}
use family_ledger.Permission.{can_edit}
use family_ledger.Account.Rows.{with_balance, credit-done}
use family_ledger.Transaction.{
  Drawn, insert_transaction_sync_op, insert_sync_operation, sync_client_id, find_transaction,
  find_transaction_row, update_transaction_row,
}
use family_ledger.Transaction.Change.{
  Convert, UpdateTransactionRequest, store_transaction, balance_adjust, adjust_balance,
  update_in_tx, update_transaction,
}
use family_ledger.Transaction.Access.{MayChange, check_transaction-Triple}
use family_ledger.Transaction.Booking.{insert_sync_operation-done}
use family_ledger.Transaction.Revising.{IsRevised, changed_row-Triple}

unchanged_balance :
    (a : Account) (x : ℤ) → eqb_ℤ x (pos 0) ≡ true → with_balance a (a.balance +ℤ x) ≡ a
unchanged_balance a x e = ap (with_balance a) (same a.balance x e)
  where
    same : (z x : ℤ) → eqb_ℤ x (pos 0) ≡ true → z +ℤ x ≡ z
    same z x e = grind (int_laws, e)

add_nothing : (i : ℕ) (x : ℤ) (l : List Account) → eqb_ℤ x (pos 0) ≡ true → add_to_balance i x l ≡ l
unfolding update_account
add_nothing i x [] e = refl
add_nothing i x (a ∷ l) e = ground (arith, unchanged_balance a x e, add_nothing i x l e)

abbrev update_op : Uuid → Drawn → ℕ → ℕ → SyncOperation
update_op ids drawn uid txn_id = record {
  user_id = uid;
  entity_type = "transaction";
  entity_id = txn_id;
  op_type = op_update;
  client_id = sync_client_id ids "update" drawn.sync_id;
}

-- The columns of a live transaction were set, the balance of its account adjusted, and the operation
-- to synchronise stored.
pub record IsUpdated (ids : Uuid) (convert : Convert) (drawn : Drawn) (user_id : String) (uid : ℕ)
    (txn_id : ℕ) (req : UpdateTransactionRequest) (s s' : Store) : Type 0 where
  pub old : Transaction
  pub new : Transaction
  pub found : find_transaction txn_id s ≡ some old
  pub may_edit : MayChange ids user_id uid old can_edit s
  pub revised : IsRevised ids convert drawn req old new
  pub adjusts : IsAdjustment convert old new (balance_adjust convert old new)
  pub stored : find_transaction_row txn_id s'.transactions ≡ some new
  pub tables : s' ≡ record s {
    accounts = add_to_balance old.account_id (balance_adjust convert old new) s.accounts;
    transactions = update_transaction_row new.id (λ _. new) s.transactions;
    sync_operations = update_op ids drawn uid txn_id ∷ s.sync_operations;
  }

store_transaction-done :
    (t : Transaction) (s s' : Store)
    → store_transaction t s ≡ done tt s'
    → s' ≡ record s { transactions = update_transaction_row t.id (λ _. t) s.transactions }
unfolding store_transaction
store_transaction-done t s s' e = ground arith

adjust_balance-Triple :
    (i : ℕ) (x : ℤ) {P : Store → Type 0}
    → Triple P
        (adjust_balance i x)
        (λ _ s'. (s : Store) × P s × (s' ≡ record s { accounts = add_to_balance i x s.accounts }))
        (λ _. ⊤)
unfolding adjust_balance
adjust_balance-Triple i x =
    if-Triple (eqb_ℤ x (pos 0))
      (λ e. pure-Triple tt (λ s p. (s, p, rw (add_nothing i x s.accounts e) refl)))
      (λ _.
        weaken-Triple (done-Triple (λ _ _. tt) _ _ _)
          λ _ s' p. (p.0, p.1, credit-done i x p.0 s' p.2))

three_updates :
    (ids : Uuid) (convert : Convert) (drawn : Drawn) (user_id : String) (uid txn_id : ℕ)
    (req : UpdateTransactionRequest) (old new : Transaction) (s s1 s2 s3 : Store)
    → find_transaction txn_id s ≡ some old
    → MayChange ids user_id uid old can_edit s
    → IsRevised ids convert drawn req old new
    → store_transaction new s ≡ done tt s1
    → s2 ≡ record s1 {
      accounts = add_to_balance old.account_id (balance_adjust convert old new) s1.accounts;
    }
    → insert_sync_operation (update_op ids drawn uid txn_id) s2 ≡ done tt s3
    → IsUpdated ids convert drawn user_id uid txn_id req s s3
three_updates ids convert drawn user_id uid txn_id req old new s s1 s2 s3 found may revised t e2 o =
    let e1 = store_transaction-done new s s1 t in
    let e3 = insert_sync_operation-done (update_op ids drawn uid txn_id) s2 s3 o in
    let row = (find_transaction-some txn_id s old found).0 in
    let same_id = ap (λ (t : Transaction). t.id) revised.row in
    let after : s3.transactions ≡ update_transaction_row new.id (λ _. new) s.transactions =
      rw (e3, e2, e1) refl in
    record {
      old = old;
      new = new;
      found = found;
      may_edit = may;
      revised = revised;
      adjusts = balance_adjust-IsAdjustment convert old new;
      stored =
          ap (find_transaction_row txn_id) after
          ∙ subst
              (λ (i : ℕ).
                find_transaction_row txn_id (update_transaction_row i (λ _. new) s.transactions)
                ≡ some new)
              (sym (same_id ∙ find_transaction_row-id txn_id s.transactions old row))
              (find-update_transaction_row txn_id (λ _. new) s.transactions old row same_id);
      tables = rw (e3, e2, e1) refl;
    }

update_in_tx-Triple :
    (ids : Uuid) (convert : Convert) (drawn : Drawn) (user_id : String) (uid txn_id : ℕ)
    (req : UpdateTransactionRequest) (s : Store)
    → Triple
        (λ s'. s' ≡ s)
        (update_in_tx ids convert drawn user_id uid txn_id req)
        (λ _ s'. IsUpdated ids convert drawn user_id uid txn_id req s s')
        (λ _. ⊤)
unfolding update_in_tx insert_transaction_sync_op
update_in_tx-Triple ids convert drawn user_id uid txn_id req s =
    bind-Triple (query-Triple (λ _ _. tt) _ _) λ old.
      then-Triple (check_transaction-Triple ids user_id uid old can_edit) λ _.
        bind-Triple (changed_row-Triple ids convert drawn req old) λ new.
          then-Triple (done-Triple (λ _ _. tt) _ _ _) λ _.
            then-Triple (adjust_balance-Triple _ _) λ _.
              then-Triple (read-Triple (λ _ _. tt) _ _ _) λ row.
                weaken-Triple (done-Triple (λ _ _. tt) _ _ _) λ _ s' p.
                  let (s2, ((s1, (s0, (((e0, found), may), revised), t), e2), _), o) = p in
                  subst (λ (u : Store). IsUpdated ids convert drawn user_id uid txn_id req u s') e0
                    (three_updates ids convert drawn user_id uid txn_id req old new s0 s1 s2 s'
                      found may revised t e2 o)

-- A transaction was changed for a request.
pub record IsChanged (ids : Uuid) (convert : Convert) (ctx : Option String) (drawn : Drawn)
    (req : UpdateTransactionRequest) (s s' : Store) : Type 0 where
  pub caller_id : String
  pub uid : ℕ
  pub txn_id : ℕ
  pub caller : ctx ≡ some caller_id
  pub user_is : ids.parse caller_id ≡ some uid
  pub transaction_is : ids.parse req.transaction_id ≡ some txn_id
  pub updated : IsUpdated ids convert drawn caller_id uid txn_id req s s'

update_transaction-Triple :
    (ids : Uuid) (convert : Convert) (ctx : Option String) (drawn : Drawn)
    (req : UpdateTransactionRequest) (s : Store)
    → Triple
        (λ s'. s' ≡ s)
        (update_transaction ids convert ctx drawn req)
        (λ t s'.
          IsChanged ids convert ctx drawn req s s'
          × ((i : ℕ) × (ids.parse req.transaction_id ≡ some i)
              × (find_transaction_row i s'.transactions ≡ some t)))
        (λ s'. (s' ≡ s) ⊎ IsChanged ids convert ctx drawn req s s')
unfolding update_transaction
update_transaction-Triple ids convert ctx drawn req s =
    bind-Triple (get_user_id-Triple ctx (λ s' p. inl p)) λ user_id.
      bind-Triple (or_raise-Triple (λ s' p. inl p.0) _ _) λ uid.
        bind-Triple (or_raise-Triple (λ s' p. inl p.0.0) _ _) λ txn_id.
          facts-Triple
            {C = (ctx ≡ some user_id)
              × (ids.parse user_id ≡ some uid)
              × (ids.parse req.transaction_id ≡ some txn_id)}
            (λ s' p. (p.0.0.1, p.0.1, p.1))
            λ c.
              strengthen-Triple {P' = λ s'. s' ≡ s} (λ s' p. p.0.0.0)
                (then-Triple
                  (atomically-Triple (λ s' p. inl p)
                    (update_in_tx-Triple ids convert drawn user_id uid txn_id req s))
                  λ _.
                    strengthen-Triple {P' = IsChanged ids convert ctx drawn req s}
                      (λ s' u. record {
                        caller_id = user_id;
                        uid = uid;
                        txn_id = txn_id;
                        caller = c.0;
                        user_is = c.1;
                        transaction_is = c.2;
                        updated = u;
                      })
                      (weaken-Triple (read-Triple (λ s' u. inr u) _ _ _)
                        λ t s' p. (p.0, (txn_id, c.2, p.1))))

-- `UpdateTransaction` that succeeds was asked for by a user of the context who has made the
-- transaction, or may edit in the family of its account. Then the transaction was live, the columns
-- that the request names, and no others, have been set to what it names: the amount to a positive
-- one, and with it the amount in CNY, the date to one in range. The balance of its account has not
-- changed where amount and kind stay; else it has changed by the new amount (in CNY at the old rate)
-- with the sign of the new kind, less what the old row was worth (as int64). The operation to synchronise has been
-- stored, and nothing else has changed; the answer is the row. Where it fails, either all of this has
-- been done (only the row could not be read again), or no table has changed.
pub update_transaction-IsChanged :
    (ids : Uuid) (convert : Convert) (ctx : Option String) (drawn : Drawn)
    (req : UpdateTransactionRequest) (w : World Store)
    → let (r, w') = update_transaction ids convert ctx drawn req w in
      Post
        (λ t s'.
          IsChanged ids convert ctx drawn req w.store s'
          × ((i : ℕ) × (ids.parse req.transaction_id ≡ some i)
              × (find_transaction_row i s'.transactions ≡ some t)))
        (λ s'. (s' ≡ w.store) ⊎ IsChanged ids convert ctx drawn req w.store s')
        r
        w'.store
update_transaction-IsChanged ids convert ctx drawn req w =
    (update_transaction-Triple ids convert ctx drawn req w.store).run w refl
