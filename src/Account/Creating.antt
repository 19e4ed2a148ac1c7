-- ===== src/Account/Creating.antt =====
-- What an account is created with (`CreateAccount` of server/internal/account/service.go).
use Prim.Native.String.{String}
use family_ledger.Base.{ℕ, ◌≡◌, ◌⊎◌, true, Option, none, some, ◌∷◌}
use family_ledger.Db.Triple.{Triple}
use family_ledger.Store.{is_empty, Uuid, Account, Member, Store, find_account, find_member}
use family_ledger.Permission.Granted.{Granted, IsEnough}
use family_ledger.Account.{PermKey, key_manage_accounts, key_allows, CreateAccountRequest}

-- The caller's row, and what it has to say.
abbrev MayIn : Uuid → ℕ → String → PermKey → Store → Type 0
MayIn ids fid user_id key s =
    (uid : ℕ) × (m : Member) × (ids.parse user_id ≡ some uid)
    × (find_member fid uid s.members ≡ some m)
    × IsEnough (key_allows key) m

-- The family that a new account gets: none, or one whose accounts the caller may manage.
abbrev pub FamilyFor : Uuid → String → String → Option ℕ → Store → Type 0
FamilyFor ids user_id family_id o s =
    ((is_empty family_id ≡ true) × (o ≡ none))
    ⊎ ((o ≡ ids.parse family_id) × Granted ids user_id family_id (key_allows key_manage_accounts) s)

-- An account as asked for, of the caller and of a family whose accounts the caller may manage, is
-- put before the others, none of which has its id.
pub record IsOpened (ids : Uuid) (ctx : Option String) (req : CreateAccountRequest) (s : Store)
    (a : Account) (s' : Store) : Type 0 where
  pub caller_id : String
  pub caller : ctx ≡ some caller_id
  pub owner : ids.parse caller_id ≡ some a.user_id
  pub family : FamilyFor ids caller_id req.family_id a.family_id s
  pub named : a.name ≡ req.name
  pub funded : a.balance ≡ req.initial_balance
  pub active : a.is_active ≡ true
  pub unused : find_account a.id s.accounts ≡ none
  pub opened : s' ≡ record s { accounts = a ∷ s.accounts }
