-- ===== src/Account/Deleting.antt =====
-- Who may delete an account (`DeleteAccount` of server/internal/account/service.go).
use Prim.Native.String.{String}
use family_ledger.Base.{ℕ, ◌≡◌, false, Option, some, [], ◌∷◌}
use family_ledger.Db.Triple.{Triple}
use family_ledger.Store.{Uuid, Account, Store, update_account}
use family_ledger.Account.{key_manage_accounts, find_live}
use family_ledger.Account.Transferring.{MayUse}

-- The account was there, the caller may manage it, and it is now inactive; nothing else changed.
pub record IsRetired (ids : Uuid) (ctx : Option String) (account_id : String) (s s' : Store)
    : Type 0 where
  pub caller_id : String
  pub id : ℕ
  pub account : Account
  pub caller : ctx ≡ some caller_id
  pub parsed : ids.parse account_id ≡ some id
  pub live : find_live id s ≡ some account
  pub may_manage : MayUse ids caller_id (key_manage_accounts ∷ []) account s
  pub retired :
      s'
      ≡ record s { accounts = update_account id (λ a. record a { is_active = false }) s.accounts }
