-- ===== src/Transaction/Requests.antt =====
-- The transaction service (server/internal/transaction/service.go) as a state machine over books in
-- CNY, and the specification that it implements: a balance is what it was at first, and the sum of
-- the live transactions since.
use Prim.Native.String.{◌∷◌, String}
use family_ledger.Base.{
  [], ◌∷◌, ◌⊎◌, inl, inr, inr, inl, ℕ, ◌≡◌, refl, ap, ◌∙◌, Bool, true, Option, some, List, arith,
}
use text.Mathlib.Text.{◌==◌ as str_eq}
use family_ledger.Base.Int.{ℤ, pos_part, neg_part, ◌+ℤ◌, ◌-ℤ◌, int_laws}
use family_ledger.Db.{World, idle}
use family_ledger.Db.Triple.{Post-elim}
use family_ledger.Store.{Uuid, Transaction, Account, Store, find_account}
use family_ledger.Transaction.{Drawn, find_transaction_row}
use family_ledger.Transaction.Input.{CreateTransactionRequest, currency_asked}
use family_ledger.Transaction.Create.{create_transaction}
use family_ledger.Transaction.Change.{
  Convert, UpdateTransactionRequest, update_transaction, delete_transaction, mark_deleted,
}
use family_ledger.Transaction.Net.{opening-inv, opening-some, net, KeepsOpenings, IsNegatable}
use family_ledger.Transaction.Rows.{
  find_transaction_row-id, All, All-found, All-update, find_transaction-some,
}
use family_ledger.Transaction.Creation.{IsEntered, create_transaction-IsEntered}
use family_ledger.Transaction.Openings.{entered-KeepsOpenings, entered_transactions}
use family_ledger.Transaction.Removal.{IsDeleted, delete_transaction-IsDeleted}
use family_ledger.Transaction.Reversal.{deleted-KeepsOpenings}
use family_ledger.Transaction.Updating.{IsChanged, update_transaction-IsChanged}
use family_ledger.Transaction.HomeBooks.{
  IsHomeRow, IsHomeBook, KeepsHome, home-IsNegatable, revised-IsHomeRow, revise-openings,
}

-- The openings are kept, and the book is in CNY.
abbrev KeepsBook : Store → Store → Type 0
KeepsBook s s' = KeepsOpenings s s' × IsHomeBook s'

All-map :
    (P Q : Transaction → Type 0) (l : List Transaction)
    → ((t : Transaction) → P t → Q t)
    → All P l
    → All Q l
All-map P Q [] k h = tt
All-map P Q (t ∷ l) k h = (k t h.0, All-map P Q l k h.1)

entered-IsHomeRow :
    {ids : Uuid} {ctx : Option String} {batch : Bool} {drawn : Drawn}
    {req : CreateTransactionRequest} {s s' : Store} {t : Transaction}
    (h : IsEntered ids ctx batch drawn req s t s')
    → str_eq (currency_asked req.currency) "CNY" ≡ true
    → IsHomeRow h.asked
entered-IsHomeRow h home =
    let a = h.as_asked in
    let here : str_eq h.asked.currency "CNY" ≡ true = rw a.currency_is home in
    (rw here refl, a.at_home here, a.positive, ground (arith, a.at_most))

entered-KeepsBook :
    {ids : Uuid} {ctx : Option String} {batch : Bool} {drawn : Drawn}
    {req : CreateTransactionRequest} {s s' : Store} {t : Transaction}
    → IsEntered ids ctx batch drawn req s t s'
    → str_eq (currency_asked req.currency) "CNY" ≡ true
    → IsHomeBook s
    → KeepsBook s s'
entered-KeepsBook h home book =
    let row = entered-IsHomeRow h home in
    (
      entered-KeepsOpenings h (home-IsNegatable h.asked row),
      rw (entered_transactions h) (rw h.booked.row row, book),
    )

deleted-KeepsBook :
    {ids : Uuid} {ctx : Option String} {drawn : Drawn} {transaction_id : String} {s s' : Store}
    → IsDeleted ids ctx drawn transaction_id s s'
    → IsHomeBook s
    → KeepsBook s s'
deleted-KeepsBook {s} d book = (
  deleted-KeepsOpenings d
      (All-map IsHomeRow (λ t. IsNegatable t.amount_cny) s.transactions home-IsNegatable book),
  rw
      (ap (λ (u : Store). u.transactions) d.only_log
        ∙ ap (λ (u : Store). u.transactions) d.removed.tables)
      (All-update IsHomeRow d.txn_id mark_deleted s.transactions (λ t h. h) book),
)

changed-KeepsBook :
    {ids : Uuid} {convert : Convert} {ctx : Option String} {drawn : Drawn}
    {req : UpdateTransactionRequest} {s s' : Store}
    → IsChanged ids convert ctx drawn req s s'
    → KeepsHome req
    → IsHomeBook s
    → KeepsBook s s'
changed-KeepsBook {convert} {s} {s'} c home book =
    let u = c.updated in
    let (found, live) = find_transaction-some c.txn_id s u.old u.found in
    let old = All-found IsHomeRow c.txn_id s.transactions u.old book found in
    let new = revised-IsHomeRow home old u.revised in
    let same_id : u.new.id ≡ c.txn_id =
      ap (λ (t : Transaction). t.id) u.revised.row
      ∙ find_transaction_row-id c.txn_id s.transactions u.old found in
    let transactions = ap (λ (x : Store). x.transactions) u.tables in
    (
      revise-openings convert u.old u.new s s' (rw same_id found) live
          (ap (λ (t : Transaction). t.deleted) u.revised.row ∙ live)
          (ap (λ (t : Transaction). t.account_id) u.revised.row) old new
          (ap (λ (x : Store). x.accounts) u.tables) transactions,
      rw transactions (All-update IsHomeRow u.new.id (λ _. u.new) s.transactions (λ t h. new) book),
    )

-- The requests that change a table, with what the server draws for them.
pub data Request : Type 0 where
  enter : (batch : Bool) → Drawn → CreateTransactionRequest → Request
  change : Drawn → UpdateTransactionRequest → Request
  remove : Drawn → (transaction_id : String) → Request

-- A request in CNY: a transaction in CNY, or a change that leaves one so, with an amount below
-- 2 ^ 62.
abbrev pub IsHomeRequest : Request → Type 0
IsHomeRequest (enter batch drawn req) = str_eq (currency_asked req.currency) "CNY" ≡ true
IsHomeRequest (change drawn req) = KeepsHome req
IsHomeRequest (remove drawn transaction_id) = Unit {0}

-- The tables after a request of the user in the context.
unfoldable pub serve : Uuid → Convert → Option String → Request → World Store → Store
serve ids convert ctx (enter batch drawn req) w =
    (create_transaction ids ctx batch drawn req w).1.store
serve ids convert ctx (change drawn req) w =
    (update_transaction ids convert ctx drawn req w).1.store
serve ids convert ctx (remove drawn transaction_id) w =
    (delete_transaction ids ctx drawn transaction_id w).1.store

pub serve-KeepsBook :
    (ids : Uuid) (convert : Convert) (ctx : Option String) (req : Request) (w : World Store)
    → IsHomeRequest req
    → IsHomeBook w.store
    → KeepsBook w.store (serve ids convert ctx req w)
unfolding serve
serve-KeepsBook ids convert ctx (enter batch drawn req) w home book =
    Post-elim (IsEntered ids ctx batch drawn req w.store) (λ s'. s' ≡ w.store) _ _
      (λ t h. entered-KeepsBook h home book) (λ e. rw e (λ j. refl, book))
      (create_transaction-IsEntered ids ctx batch drawn req w)
serve-KeepsBook ids convert ctx (change drawn req) w home book =
    Post-elim
      (λ t s'.
        IsChanged ids convert ctx drawn req w.store s'
        × ((i : ℕ) × (ids.parse req.transaction_id ≡ some i)
            × (find_transaction_row i s'.transactions ≡ some t)))
      (λ s'. (s' ≡ w.store) ⊎ IsChanged ids convert ctx drawn req w.store s') _ _
      (λ t h. changed-KeepsBook h.0 home book)
      (λ e. elim e [ inl same ↦ rw same (λ j. refl, book) | inr h ↦ changed-KeepsBook h home book ])
      (update_transaction-IsChanged ids convert ctx drawn req w)
serve-KeepsBook ids convert ctx (remove drawn transaction_id) w home book =
    Post-elim (λ _. IsDeleted ids ctx drawn transaction_id w.store) (λ s'. s' ≡ w.store) _ _
      (λ _ d. deleted-KeepsBook d book) (λ e. rw e (λ j. refl, book))
      (delete_transaction-IsDeleted ids ctx drawn transaction_id w)

-- The tables that sequences of requests in CNY bring about from the tables `s0`, with any failures
-- of the database.
pub data Reachable (ids : Uuid) (convert : Convert) (s0 : Store) : Store → Type 0 where
  start : Reachable ids convert s0 s0
  request :
      (s : Store) (ctx : Option String) (req : Request) (faults : List Bool)
      → Reachable ids convert s0 s
      → IsHomeRequest req
      → Reachable ids convert s0
          (serve ids convert ctx req (record { store = s; session = idle; faults = faults }))

pub Reachable-KeepsBook :
    (ids : Uuid) (convert : Convert) (s0 s : Store)
    → IsHomeBook s0
    → Reachable ids convert s0 s
    → KeepsBook s0 s
Reachable-KeepsBook ids convert s0 _ book start = (λ j. refl, book)
Reachable-KeepsBook ids convert s0 _ book (request s ctx req faults r home) =
    let (openings, book') = Reachable-KeepsBook ids convert s0 s book r in
    let (kept, after) =
      serve-KeepsBook ids convert ctx req (record { store = s; session = idle; faults = faults })
        home book' in
    (λ j. kept j ∙ openings j, after)

rearrange : (b b0 n n0 : ℤ) → b -ℤ n ≡ b0 -ℤ n0 → b +ℤ n0 ≡ b0 +ℤ n
rearrange b b0 n n0 e = omega (int_laws, ap pos_part e, ap neg_part e)

-- From tables `s0` with transactions in CNY below 2 ^ 62, through any sequence of requests to
-- create, change and delete transactions in CNY, whatever they come to and whatever failures of the
-- database they meet: an account that was there is there, and its balance is what it was at first,
-- changed by exactly the difference between what its live transactions come to now and then.
pub Reachable-balance :
    (ids : Uuid) (convert : Convert) (s0 s : Store) (j : ℕ) (a0 : Account)
    → IsHomeBook s0
    → Reachable ids convert s0 s
    → find_account j s0.accounts ≡ some a0
    → (a : Account) × (find_account j s.accounts ≡ some a)
      × (a.balance +ℤ net j s0.transactions ≡ a0.balance +ℤ net j s.transactions)
Reachable-balance ids convert s0 s j a0 book r there =
    let kept = (Reachable-KeepsBook ids convert s0 s book r).0 j in
    let (a, found, e) =
      opening-inv j s (a0.balance -ℤ net j s0.transactions) (kept ∙ opening-some j s0 a0 there) in
    (a, found, rearrange a.balance a0.balance (net j s.transactions) (net j s0.transactions) e)
