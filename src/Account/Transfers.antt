-- ===== src/Account/Transfers.antt =====
-- `TransferBetween` (server/internal/account/service.go): who may transfer what, and what becomes
-- of the money.
use Prim.Native.String.{String}
use family_ledger.Base.{ℕ, ◌≡◌, ◌≢◌, refl, sym, false, Option, some, arith}
use family_ledger.Base.Int.{ℤ, pos, ◌+ℤ◌, ◌-ℤ◌, ◌≤ℤ◌, leb_ℤ}
use family_ledger.Db.{Result, ok, err, World}
use family_ledger.Db.Triple.{
  Triple, Post, bind-Triple, then-Triple, or_raise-Triple, raise_if-Triple, weaken-Triple,
  atomically-Triple, facts-Triple, strengthen-Triple,
}
use family_ledger.Store.{Uuid, Account, Transfer, Store, find_account}
use family_ledger.Store.Context.{get_user_id-Triple}
use family_ledger.Account.{TransferRequest, transfer_between}
use family_ledger.Account.Rows.{
  total, with_balance, find_active-some, after_credit-total, after_credit-from, after_credit-to,
  after_credit-other,
}
use family_ledger.Account.Transferring.{Moved, move_funds-Moved}

-- The transfer that a request asks for.
pub record IsAsked (ids : Uuid) (new_id : ℕ) (req : TransferRequest) (t : Transfer) : Type 0 where
  pub id_is : t.id ≡ new_id
  pub from_is : ids.parse req.from_account_id ≡ some t.from_account_id
  pub to_is : ids.parse req.to_account_id ≡ some t.to_account_id
  pub amount_is : t.amount ≡ req.amount
  pub positive : pos 1 ≤ℤ t.amount

-- A transfer that is answered with ok was made as asked, by a caller who may use both accounts.
abbrev pub Transferred :
    Uuid → Option String → ℕ → TransferRequest → Store → Transfer → Store → Type 0
Transferred ids ctx new_id req s t s' =
    (user_id : String) × (ctx ≡ some user_id) × IsAsked ids new_id req t × Moved ids user_id s t s'

-- What the checks before the transaction have found out.
abbrev Facts : Uuid → Option String → TransferRequest → String → ℕ → ℕ → Type 0
Facts ids ctx req user_id from_id to_id =
    (ctx ≡ some user_id)
    × (pos 1 ≤ℤ req.amount)
    × (ids.parse req.from_account_id ≡ some from_id)
    × (ids.parse req.to_account_id ≡ some to_id)

abbrev asked_transfer : TransferRequest → ℕ → ℕ → ℕ → ℕ → Transfer
asked_transfer req new_id uid from_id to_id = record {
  id = new_id;
  user_id = uid;
  from_account_id = from_id;
  to_account_id = to_id;
  amount = req.amount;
  note = req.note;
}

checked_and_done :
    (ids : Uuid) (ctx : Option String) (new_id : ℕ) (req : TransferRequest) (user_id : String)
    (uid from_id to_id : ℕ) (s s' : Store) (t : Transfer)
    → Facts ids ctx req user_id from_id to_id
    → t ≡ asked_transfer req new_id uid from_id to_id
    → Moved ids user_id s (asked_transfer req new_id uid from_id to_id) s'
    → Transferred ids ctx new_id req s t s'
checked_and_done ids ctx new_id req user_id uid from_id to_id s s' t (c, amount, from, to) e m =
    rw e (
      user_id,
      c,
      record { id_is = refl; from_is = from; to_is = to; amount_is = refl; positive = amount },
      m,
    )

positive_amount : (z : ℤ) → leb_ℤ z (pos 0) ≡ false → pos 1 ≤ℤ z
positive_amount z e = ground arith

transfer_between-Triple :
    (ids : Uuid) (ctx : Option String) (new_id : ℕ) (req : TransferRequest) (s : Store)
    → Triple
        (λ s'. s' ≡ s)
        (transfer_between ids ctx new_id req)
        (Transferred ids ctx new_id req s)
        (λ s'. s' ≡ s)
unfolding transfer_between
transfer_between-Triple ids ctx new_id req s =
    bind-Triple (get_user_id-Triple ctx (λ s p. p)) λ user_id.
      then-Triple (raise_if-Triple (λ s p. p.0) _ _) λ _.
        then-Triple (raise_if-Triple (λ s p. p.0.0) _ _) λ _.
          then-Triple (raise_if-Triple (λ s p. p.0.0.0) _ _) λ _.
            bind-Triple (or_raise-Triple (λ s p. p.0.0.0.0) _ _) λ uid.
              bind-Triple (or_raise-Triple (λ s p. p.0.0.0.0.0) _ _) λ from_id.
                bind-Triple (or_raise-Triple (λ s p. p.0.0.0.0.0.0) _ _) λ to_id.
                  facts-Triple {C = Facts ids ctx req user_id from_id to_id}
                    (λ s p. (p.0.0.0.0.0.0.1, positive_amount req.amount p.0.0.0.0.1, p.0.1, p.1))
                    λ c.
                      strengthen-Triple (λ s p. p.0.0.0.0.0.0.0)
                        (weaken-Triple
                          (atomically-Triple (λ s p. p) (move_funds-Moved ids user_id _ s))
                          λ t s' p.
                            checked_and_done ids ctx new_id req user_id uid from_id to_id s s' t c
                              p.0 p.1)

-- `TransferBetween` either fails and changes no table, or was asked for by a user of the context
-- with a positive amount, on two active accounts that this user owns or whose families let the
-- user in, the first of which covers the amount. Then the amount was taken off the first and added
-- to the second, and the transfer was logged.
pub transfer_between-Transferred :
    (ids : Uuid) (ctx : Option String) (new_id : ℕ) (req : TransferRequest) (w : World Store)
    → let (r, w') = transfer_between ids ctx new_id req w in
      Post (Transferred ids ctx new_id req w.store) (λ s'. s' ≡ w.store) r w'.store
transfer_between-Transferred ids ctx new_id req w =
    (transfer_between-Triple ids ctx new_id req w.store).run w refl

module _ (ids : Uuid) (user_id : String) (s : Store) (t : Transfer) (s' : Store)
    (m : Moved ids user_id s t s') where
  Moved-total : total s'.accounts ≡ total s.accounts
  Moved-total = rw m.moved (
      after_credit-total s.accounts t.from_account_id t.to_account_id t.amount m.from m.to
        (find_active-some _ s m.from m.from_active).0 (find_active-some _ s m.to m.to_active).0)

  Moved-balances :
      t.from_account_id ≢ t.to_account_id
      → (find_account t.from_account_id s'.accounts
          ≡ some (with_balance m.from (m.from.balance -ℤ t.amount)))
        × (find_account t.to_account_id s'.accounts
            ≡ some (with_balance m.to (m.to.balance +ℤ t.amount)))
  Moved-balances ne =
      let from = (find_active-some _ s m.from m.from_active).0 in
      let to = (find_active-some _ s m.to m.to_active).0 in
      (
        rw m.moved (
            after_credit-from s.accounts t.from_account_id t.to_account_id t.amount m.from m.to from
              to ne),
        rw m.moved (
            after_credit-to s.accounts t.from_account_id t.to_account_id t.amount m.from m.to from
              to (λ e. ne (sym e))),
      )

  Moved-other :
      (j : ℕ)
      → j ≢ t.from_account_id
      → j ≢ t.to_account_id
      → find_account j s'.accounts ≡ find_account j s.accounts
  Moved-other j nf nt = rw m.moved (
      after_credit-other s.accounts t.from_account_id t.to_account_id t.amount m.from m.to
        (find_active-some _ s m.from m.from_active).0 (find_active-some _ s m.to m.to_active).0 j nf
        nt)

Post-total :
    (ids : Uuid) (ctx : Option String) (new_id : ℕ) (req : TransferRequest) (s s' : Store)
    (r : Result Transfer)
    → Post (Transferred ids ctx new_id req s) (λ s'. s' ≡ s) r s'
    → total s'.accounts ≡ total s.accounts
Post-total ids ctx new_id req s s' (ok t) p = Moved-total ids p.0 s t s' p.3
Post-total ids ctx new_id req s s' (err c) p = rw p refl

-- Whatever a transfer comes to, also from an account to itself and with any failures of the
-- database, the sum of all balances is what it was.
pub transfer_between-total :
    (ids : Uuid) (ctx : Option String) (new_id : ℕ) (req : TransferRequest) (w : World Store)
    → total (transfer_between ids ctx new_id req w).1.store.accounts ≡ total w.store.accounts
transfer_between-total ids ctx new_id req w =
    Post-total ids ctx new_id req w.store (transfer_between ids ctx new_id req w).1.store
      (transfer_between ids ctx new_id req w).0 (transfer_between-Transferred ids ctx new_id req w)

-- A transfer that succeeds between two accounts `from` and `to` lowers the balance of the first by
-- its amount, which it had, raises that of the second by as much, and leaves every other account
-- alone.
pub transfer_between-balances :
    (ids : Uuid) (ctx : Option String) (new_id : ℕ) (req : TransferRequest) (w w' : World Store)
    (t : Transfer)
    → transfer_between ids ctx new_id req w ≡ (ok t, w')
    → t.from_account_id ≢ t.to_account_id
    → (from : Account) × (to : Account) × (req.amount ≤ℤ from.balance)
      × (find_account t.from_account_id w.store.accounts ≡ some from)
      × (find_account t.to_account_id w.store.accounts ≡ some to)
      × (find_account t.from_account_id w'.store.accounts
          ≡ some (with_balance from (from.balance -ℤ req.amount)))
      × (find_account t.to_account_id w'.store.accounts
          ≡ some (with_balance to (to.balance +ℤ req.amount)))
      × ((j : ℕ)
          → j ≢ t.from_account_id
          → j ≢ t.to_account_id
          → find_account j w'.store.accounts ≡ find_account j w.store.accounts)
transfer_between-balances ids ctx new_id req w w' t e ne =
    let (user_id, _, asked, m) = rw e at (transfer_between-Transferred ids ctx new_id req w) in
    let (after_from, after_to) = Moved-balances ids user_id w.store t w'.store m ne in
    (
      m.from,
      m.to,
      rw (← asked.amount_is) m.covered,
      (find_active-some _ w.store m.from m.from_active).0,
      (find_active-some _ w.store m.to m.to_active).0,
      rw (← asked.amount_is) after_from,
      rw (← asked.amount_is) after_to,
      Moved-other ids user_id w.store t w'.store m,
    )
