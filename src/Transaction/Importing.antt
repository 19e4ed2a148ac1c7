-- ===== src/Transaction/Importing.antt =====
-- BatchCreateTransactions (server/internal/transaction/service.go): counts and balances.
use Prim.Native.String.{String}
use family_ledger.Base.{⊤, ◌+◌, ◌≡◌, refl, ◌∙◌, true, Option, List, [], ◌∷◌, arith}
use family_ledger.Base.Lists.{length}
use family_ledger.Base.Int64.{InRange}
use family_ledger.Db.{World, Result, ok, err}
use family_ledger.Db.Triple.{
  Triple, Post, pure-Triple, bind-Triple, then-Triple, raise_if-Triple, strengthen-Triple,
  peek-Triple,
}
use family_ledger.Store.{Uuid, Transaction, Store}
use family_ledger.Store.Context.{get_user_id-Triple}
use family_ledger.Transaction.{Drawn}
use family_ledger.Transaction.Input.{CreateTransactionRequest}
use family_ledger.Transaction.Create.{create_transaction}
use family_ledger.Transaction.Batch.{
  BatchCreateRequest, BatchCreateResponse, with_account, note_item, caught, create_items, warn,
  batch_create_transactions,
}
use family_ledger.Transaction.Net.{KeepsOpenings}
use family_ledger.Transaction.Openings.{create_transaction-KeepsOpenings}

-- The amounts in CNY of all requests are int64.
abbrev pub AllInRange : List (Drawn × CreateTransactionRequest) → Type 0
AllInRange [] = ⊤
AllInRange ((drawn, req) ∷ l) = InRange req.amount_cny × AllInRange l

with_account-amount :
    (a : String) (req : CreateTransactionRequest) → (with_account a req).amount_cny ≡ req.amount_cny
with_account-amount a req = ground arith

-- Every request is either among the created or among the errors.
abbrev pub IsAnswered : List (Drawn × CreateTransactionRequest) → BatchCreateResponse → Type 0
IsAnswered l r = length r.created + length r.errors ≡ length l

create_one-Triple :
    (ids : Uuid) (ctx : Option String) (drawn : Drawn) (req : CreateTransactionRequest) (s : Store)
    {E : Store → Type 0}
    → InRange req.amount_cny
    → Triple
        (KeepsOpenings s)
        (caught (create_transaction ids ctx true drawn req))
        (λ _. KeepsOpenings s)
        E
create_one-Triple ids ctx drawn req s fits = record {
  run = λ w p j. create_transaction-KeepsOpenings ids ctx true drawn req w fits j ∙ p j;
}

note_item-IsAnswered :
    (l : List (Drawn × CreateTransactionRequest)) (x : Drawn × CreateTransactionRequest)
    (r : Result Transaction) (rest : BatchCreateResponse)
    → IsAnswered l rest
    → IsAnswered (x ∷ l) (note_item r rest)
note_item-IsAnswered l x (ok t) rest h = omega (arith, h)
note_item-IsAnswered l x (err c) rest h = omega (arith, h)

create_items-Triple :
    (ids : Uuid) (ctx : Option String) (a : String) (l : List (Drawn × CreateTransactionRequest))
    (s : Store) {E : Store → Type 0}
    → AllInRange l
    → Triple
        (KeepsOpenings s)
        (create_items ids ctx a l)
        (λ r s'. KeepsOpenings s s' × IsAnswered l r)
        E
unfolding create_items
create_items-Triple ids ctx a [] s fits = pure-Triple _ (λ s' p. (p, refl))
create_items-Triple ids ctx a ((drawn, req) ∷ l) s fits =
    bind-Triple
      (create_one-Triple ids ctx drawn (with_account a req) s
        (rw (with_account-amount a req) fits.0))
      λ r. bind-Triple (create_items-Triple ids ctx a l s fits.1) λ rest.
        pure-Triple (note_item r rest)
          (λ s' p. (p.0, note_item-IsAnswered l (drawn, req) r rest p.1))

warn-Triple :
    (r : BatchCreateResponse) (created : List Transaction)
    (l : List (Drawn × CreateTransactionRequest)) (s : Store) {E : Store → Type 0}
    → Triple
        (λ s'. KeepsOpenings s s' × IsAnswered l r)
        (warn r created)
        (λ r s'. KeepsOpenings s s' × IsAnswered l r)
        E
warn-Triple r [] l s = pure-Triple r (λ s' p. p)
warn-Triple r (t ∷ created) l s =
    bind-Triple (peek-Triple [] _ _ _) λ found. pure-Triple _ (λ s' p. p)

-- `BatchCreateTransactions` of requests whose amounts in CNY are int64, whatever becomes of the
-- single requests and with any failures of the database: the balance of each account less what its
-- live transactions come to is what it was, and an answer has a transaction or an error for each
-- request. An error of the whole batch changes no table.
pub batch_create_transactions-IsAnswered :
    (ids : Uuid) (ctx : Option String) (req : BatchCreateRequest) (w : World Store)
    → AllInRange req.transactions
    → let (r, w') = batch_create_transactions ids ctx req w in
      Post
        (λ r s'. KeepsOpenings w.store s' × IsAnswered req.transactions r)
        (λ s'. s' ≡ w.store)
        r
        w'.store
unfolding batch_create_transactions
batch_create_transactions-IsAnswered ids ctx req w fits =
    (bind-Triple (get_user_id-Triple ctx {P = λ s'. s' ≡ w.store} (λ s' p. p)) λ user_id.
        then-Triple (raise_if-Triple (λ s' p. p.0) _ _) λ _.
          strengthen-Triple {P' = KeepsOpenings w.store} (λ s' p. rw p.0.0 (λ j. refl))
            (bind-Triple (create_items-Triple ids ctx req.account_id req.transactions w.store fits)
              λ r. warn-Triple r r.created req.transactions w.store)).run
      w refl
