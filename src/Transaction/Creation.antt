-- ===== src/Transaction/Creation.antt =====
-- CreateTransaction (server/internal/transaction/service.go) as a whole: what an answer means, and
-- what becomes of the balances.
use family_ledger.Base.Int.{◌+ℤ◌}
use family_ledger.Account.Rows.{with_balance}
use Prim.Native.String.{String}
use mathlib.Core.Path.{subst}
use family_ledger.Base.{List, ◌≡◌, refl, sym, ap, ◌∙◌, some_inj, ℕ, Bool, Option, none, some}
use family_ledger.Db.{World}
use family_ledger.Db.Triple.{
  Triple, Post, pure-Triple, bind-Triple, then-Triple, atomically_with-Triple, strengthen-Triple,
  facts-Triple,
}
use family_ledger.Store.{update_account, expense, income, Uuid, Transaction, Account, Store}
use family_ledger.Store.Context.{get_user_id-Triple}
use family_ledger.Account.{find_live}
use family_ledger.Family.Auditing.{IgnoresLog, log_audit-Triple}
use family_ledger.Transaction.{◌-64◌, pos, delta_of, ℤ, Drawn}
use family_ledger.Transaction.Input.{CreateTransactionRequest}
use family_ledger.Transaction.Create.{create_transaction, notify_post_commit}
use family_ledger.Transaction.Asking.{
  IsAsked, MayBook, validate_create_input-Triple, check_account_permission-Triple,
}
use family_ledger.Transaction.Booking.{IsBooked, book-Triple}

-- The tables differ in the audit log at most.
abbrev pub OnlyLog : Store → Store → Type 0
OnlyLog s s' = s' ≡ record s { audit_logs = s'.audit_logs }

abbrev pub add_to_balance : ℕ → ℤ → List Account → List Account
add_to_balance i x l = update_account i (λ a. with_balance a (a.balance +ℤ x)) l

-- A transaction was entered for a request.
pub record IsEntered (ids : Uuid) (ctx : Option String) (batch : Bool) (drawn : Drawn)
    (req : CreateTransactionRequest) (s : Store) (t : Transaction) (s' : Store) : Type 0 where
  pub caller_id : String
  pub asked : Transaction
  pub account : Account
  pub committed : Store
  pub caller : ctx ≡ some caller_id
  pub as_asked : IsAsked ids drawn caller_id req asked
  pub may_book : MayBook ids asked.user_id account s
  pub booked : IsBooked ids batch drawn s asked account t committed
  pub raised :
      asked.kind ≡ income
      → committed.accounts ≡ add_to_balance asked.account_id asked.amount_cny s.accounts
  pub lowered :
      asked.kind ≡ expense
      → committed.accounts ≡ add_to_balance asked.account_id (pos 0 -64 asked.amount_cny) s.accounts
  pub only_log : OnlyLog committed s'

notify_post_commit-Triple :
    (ids : Uuid) (f : Option ℕ) (t : Transaction) {P E : Store → Type 0}
    → IgnoresLog P
    → Triple P (notify_post_commit ids f t) (λ _. P) E
notify_post_commit-Triple ids none t h = pure-Triple tt (λ s p. p)
notify_post_commit-Triple ids (some f) t h = log_audit-Triple ids _ _ _ _ h

-- What the checks before the transaction have found out.
abbrev Checked :
    Uuid → Option String → Drawn → CreateTransactionRequest → Store → String → Transaction → Type 0
Checked ids ctx drawn req s user_id asked =
    (ctx ≡ some user_id)
    × IsAsked ids drawn user_id req asked
    × ((a : Account) × (find_live asked.account_id s ≡ some a) × MayBook ids asked.user_id a s)

entered :
    (ids : Uuid) (ctx : Option String) (batch : Bool) (drawn : Drawn)
    (req : CreateTransactionRequest) (s : Store) (user_id : String) (asked : Transaction)
    (a : Account) (t : Transaction) (s1 s' : Store)
    → Checked ids ctx drawn req s user_id asked
    → IsBooked ids batch drawn s asked a t s1
    → OnlyLog s1 s'
    → IsEntered ids ctx batch drawn req s t s'
entered ids ctx batch drawn req s user_id asked a t s1 s' (c, as_asked, (b, found, may)) booked
      only =
    record {
      caller_id = user_id;
      asked = asked;
      account = a;
      committed = s1;
      caller = c;
      as_asked = as_asked;
      may_book =
          subst (λ (x : Account). MayBook ids asked.user_id x s)
            (some_inj (sym found ∙ booked.found)) may;
      booked = booked;
      raised = λ e. accounts ∙ rw e refl;
      lowered = λ e. accounts ∙ rw e refl;
      only_log = only;
    }
  where
    accounts :
        s1.accounts
        ≡ add_to_balance asked.account_id (delta_of asked.kind asked.amount_cny) s.accounts
    accounts = ap (λ (u : Store). u.accounts) booked.tables

create_transaction-Triple :
    (ids : Uuid) (ctx : Option String) (batch : Bool) (drawn : Drawn)
    (req : CreateTransactionRequest) (s : Store)
    → Triple
        (λ s'. s' ≡ s)
        (create_transaction ids ctx batch drawn req)
        (IsEntered ids ctx batch drawn req s)
        (λ s'. s' ≡ s)
unfolding create_transaction
create_transaction-Triple ids ctx batch drawn req s =
    bind-Triple (get_user_id-Triple ctx (λ s' p. p)) λ user_id.
      bind-Triple (validate_create_input-Triple (λ s' p. p.0) ids drawn user_id req) λ asked.
        then-Triple (check_account_permission-Triple (λ s' p. p.0.0) ids _ _) λ _.
          facts-Triple {C = Checked ids ctx drawn req s user_id asked}
            (λ s' p. (p.0.0.1, p.0.1, rw p.0.0.0 at p.1))
            λ c.
              strengthen-Triple {P' = λ s'. s' ≡ s} (λ s' p. p.0.0.0)
                (bind-Triple
                  (atomically_with-Triple _ (λ s' p. p) (book-Triple ids batch drawn asked s))
                  λ r.
                    strengthen-Triple
                      {P' = λ s'.
                        (s1 : Store) × IsBooked ids batch drawn s asked r.0 r.1 s1 × OnlyLog s1 s'}
                      (λ s' b. (s', b, refl))
                      (then-Triple
                        (notify_post_commit-Triple ids _ _ (λ s' l p.
                          (p.0, p.1, ap (λ (u : Store). record u { audit_logs = l }) p.2)))
                        λ _. pure-Triple r.1 (λ s' p.
                          entered ids ctx batch drawn req s user_id asked r.0 r.1 p.0 s' c p.1
                            p.2)))

-- `CreateTransaction` either fails and changes no table, or was asked for by a user of the context
-- who owns the personal account or may create in the family of the account. Then the transaction
-- has a new id and the user, the account, the amount, the note, the tags and the images asked for.
-- It is an income if that is asked for and else an expense; its currency is the one asked for, or
-- CNY. Its amount is positive and at most 99999999999; the amount in CNY is the same with a rate of
-- 1.0 in CNY, and in another currency it and the rate are those asked for. Its date is the one asked
-- for, between 2000 and a day from now, or else the present. Outside a batch its category is the one
-- asked for. An expense that is not of a batch and not of a credit card was covered by the balance.
-- The balance is more by the amount in CNY of an income, and less by that of an expense (as int64),
-- the transaction and the operation to synchronise have been stored, and apart from categories and
-- the audit log nothing else has changed.
pub create_transaction-IsEntered :
    (ids : Uuid) (ctx : Option String) (batch : Bool) (drawn : Drawn)
    (req : CreateTransactionRequest) (w : World Store)
    → let (r, w') = create_transaction ids ctx batch drawn req w in
      Post (IsEntered ids ctx batch drawn req w.store) (λ s'. s' ≡ w.store) r w'.store
create_transaction-IsEntered ids ctx batch drawn req w =
    (create_transaction-Triple ids ctx batch drawn req w.store).run w refl
