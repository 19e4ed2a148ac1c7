-- ===== src/Account.antt =====
-- The account service, server/internal/account/service.go.
pub mod Types
pub mod Rows
pub mod Transferring
pub mod Transfers
pub mod Deleting
pub mod Creating
pub mod Examples
use Prim.Native.String.{String}
use family_ledger.Base.{
  ⊤, ℕ, ◌≡◌, Bool, true, false, not, ◌&&◌, ◌||◌, Option, none, some, List, [], ◌∷◌, ◌==◌,
  if◌then◌else◌,
}
use text.Mathlib.Text.{◌==◌ as str_eq}
use family_ledger.Base.Int.{ℤ, pos, ◌+ℤ◌, ◌-ℤ◌, leb_ℤ}
use family_ledger.Base.Int64.{in_range}
use family_ledger.Db.{
  M, Outcome, violates, no_match, done, internal, invalid_argument, not_found, permission_denied,
  failed_precondition, pure, raise, ◌>>=◌, ◌>>◌, statement, query, exec, raise_if, or_raise,
  atomically, with_code,
}
use family_ledger.Store.{
  is_empty, Uuid, Permissions, Account, Transfer, Store, find_account, update_account, find_member,
  get_user_id, Member,
}
use family_ledger.Permission.{
  is_manager, check, can_view, can_create, can_edit, can_delete, can_manage_accounts,
}

-- `pb.AccountType`, and the strings of the column `type`
pub data AccountType : Type 0 where
  type_unspecified cash bank_card credit_card alipay wechat_pay investment other : AccountType

unfoldable pub proto_type_to_string : AccountType → String
proto_type_to_string type_unspecified = "cash"
proto_type_to_string cash = "cash"
proto_type_to_string bank_card = "bank_card"
proto_type_to_string credit_card = "credit_card"
proto_type_to_string alipay = "alipay"
proto_type_to_string wechat_pay = "wechat_pay"
proto_type_to_string investment = "investment"
proto_type_to_string other = "other"

unfoldable pub string_to_proto_type : String → AccountType
string_to_proto_type s =
    if str_eq s "cash"
    then cash
    else if str_eq s "bank_card"
    then bank_card
    else if str_eq s "credit_card"
    then credit_card
    else if str_eq s "alipay"
    then alipay
    else if str_eq s "wechat_pay"
    then wechat_pay
    else if str_eq s "investment"
    then investment
    else if str_eq s "other"
    then other
    else type_unspecified

-- The strings that `permKeyToFunc` knows, and any other.
pub data PermKey : Type 0 where
  key_view key_create key_edit key_delete key_manage_accounts key_unknown : PermKey

pub perm_key_to_func : PermKey → Option (Permissions → Bool)
perm_key_to_func key_view = some can_view
perm_key_to_func key_create = some can_create
perm_key_to_func key_edit = some can_edit
perm_key_to_func key_delete = some can_delete
perm_key_to_func key_manage_accounts = some can_manage_accounts
perm_key_to_func key_unknown = none

-- One key of the loop in `checkAccountAccess`.
pub key_allows : PermKey → Permissions → Bool
unfolding perm_key_to_func
key_allows key p = elim (perm_key_to_func key) [ none ↦ false | some fn ↦ fn p ]

pub any_key_allows : List PermKey → Permissions → Bool
any_key_allows [] p = false
any_key_allows (key ∷ keys) p = key_allows key p || any_key_allows keys p

-- Without a key, membership is enough.
pub required_by : List PermKey → Permissions → Bool
unfolding any_key_allows
required_by [] p = true
required_by (key ∷ keys) p = any_key_allows (key ∷ keys) p

-- `checkAccountAccess`, and `checkAccountAccessTx`, which is the same within a transaction
unfoldable pub check_account_access : Uuid → String → String → String → List PermKey → M Store ⊤
check_account_access ids owner_id family_id caller_id perm_keys =
    if str_eq owner_id caller_id
    then pure tt
    else if not (is_empty family_id)
    then check ids caller_id family_id (required_by perm_keys)
    else raise permission_denied

-- the part of `requireFamilyPermission` after the row has been read
pub require_row : PermKey → Member → M Store ⊤
require_row key m = if is_manager m.role then pure tt else do
  perms ← or_raise m.permissions internal
  raise_if (not (key_allows key perms)) permission_denied

pub require_family_permission : Uuid → ℕ → String → PermKey → M Store ⊤
require_family_permission ids family_id user_id key = do
  uid ← or_raise (ids.parse user_id) internal
  m ← query (λ (s : Store). find_member family_id uid s.members) permission_denied
  require_row key m

pub record CreateAccountRequest : Type 0 where
  pub name : String
  pub type : AccountType
  pub currency : String
  pub icon : String
  pub family_id : String
  pub initial_balance : ℤ

-- The family of a new account: none, or one that the caller may manage accounts in.
pub create_family_id : Uuid → String → String → M Store (Option ℕ)
create_family_id ids user_id family_id = if is_empty family_id then pure none else do
  fid ← or_raise (ids.parse family_id) invalid_argument
  require_family_permission ids fid user_id key_manage_accounts
  pure (some fid)

-- `INSERT INTO accounts …`; the id that the database draws is the primary key.
pub insert_account : Account → Store → Outcome Store Account
insert_account a s = elim (find_account a.id s.accounts) [
  | some _ ↦ violates
  | none ↦ done a (record s { accounts = a ∷ s.accounts })
]

-- `CreateAccount`; `new_id` is the id that the database draws.
unfoldable pub create_account : Uuid → Option String → ℕ → CreateAccountRequest → M Store Account
create_account ids ctx new_id req = do
  user_id ← get_user_id ctx
  raise_if (is_empty req.name) invalid_argument
  uid ← or_raise (ids.parse user_id) internal
  let currency = if is_empty req.currency then "CNY" else req.currency
  family_id ← create_family_id ids user_id req.family_id
  statement
      (insert_account (record {
        id = new_id;
        user_id = uid;
        family_id = family_id;
        name = req.name;
        kind = proto_type_to_string req.type;
        balance = req.initial_balance;
        currency = currency;
        icon = req.icon;
        is_active = true;
        is_default = false;
        deleted = false;
      }))
      internal internal

-- `COALESCE(family_id::text, '')`
abbrev pub family_text : Uuid → Option ℕ → String
family_text ids none = String.[]
family_text ids (some f) = ids.text f

-- `… WHERE id = $1 AND deleted_at IS NULL`
unfoldable pub find_live : ℕ → Store → Option Account
find_live i s = elim (find_account i s.accounts) [
  | none ↦ none
  | some a ↦ if a.deleted then none else some a
]

-- `… WHERE id = $1 AND is_active = true AND deleted_at IS NULL`
pub find_active : ℕ → Store → Option Account
find_active i s = elim (find_account i s.accounts) [
  | none ↦ none
  | some a ↦ if a.is_active && not a.deleted then some a else none
]

-- `DeleteAccount`
unfoldable pub delete_account : Uuid → Option String → String → M Store ⊤
delete_account ids ctx account_id = do
  user_id ← get_user_id ctx
  raise_if (is_empty account_id) invalid_argument
  acct_id ← or_raise (ids.parse account_id) invalid_argument
  a ← query (find_live acct_id) not_found
  check_account_access ids (ids.text a.user_id) (family_text ids a.family_id) user_id
      (key_manage_accounts ∷ [])
  exec (λ (s : Store). record s {
    accounts = update_account acct_id (λ a. record a { is_active = false }) s.accounts;
  })

pub record TransferRequest : Type 0 where
  pub from_account_id : String
  pub to_account_id : String
  pub amount : ℤ
  pub note : String

-- `UPDATE accounts SET balance = balance - $1 WHERE id = $2 AND balance >= $1 RETURNING balance`
pub deduct : ℕ → ℤ → Store → Outcome Store ℤ
deduct i amount s = elim (find_account i s.accounts) [
  | none ↦ no_match
  | some a ↦
      if leb_ℤ amount a.balance
      then done (a.balance -ℤ amount) (record s {
        accounts = update_account i (λ a. record a { balance = a.balance -ℤ amount }) s.accounts;
      })
      else no_match
]

-- `UPDATE accounts SET balance = balance + $1 WHERE id = $2`; a sum that is no BIGINT is an error.
unfoldable pub credit : ℕ → ℤ → Store → Outcome Store ⊤
credit i amount s = elim (find_account i s.accounts) [
  | none ↦ done tt s
  | some a ↦
      if in_range (a.balance +ℤ amount)
      then done tt (record s {
        accounts = update_account i (λ a. record a { balance = a.balance +ℤ amount }) s.accounts;
      })
      else violates
]

pub has_transfer : ℕ → List Transfer → Bool
has_transfer i [] = false
has_transfer i (t ∷ l) = (t.id == i) || has_transfer i l

-- `INSERT INTO transfers … RETURNING id, created_at`, with the id that the database draws
pub insert_transfer : Transfer → Store → Outcome Store Transfer
unfolding has_transfer
insert_transfer t s =
    if has_transfer t.id s.transfers
    then violates
    else done t (record s { transfers = t ∷ s.transfers })

-- what `TransferBetween` does in its transaction
pub move_funds : Uuid → String → Transfer → M Store Transfer
move_funds ids user_id t = do
  from ← query (find_active t.from_account_id) not_found
  to ← query (find_active t.to_account_id) not_found
  with_code permission_denied
      (check_account_access ids (ids.text from.user_id) (family_text ids from.family_id) user_id [])
  with_code permission_denied
      (check_account_access ids (ids.text to.user_id) (family_text ids to.family_id) user_id [])
  statement (deduct t.from_account_id t.amount) internal failed_precondition
  statement (credit t.to_account_id t.amount) internal internal
  statement (insert_transfer t) internal internal

-- `TransferBetween`; `new_id` is the id that the database draws for the record.
unfoldable pub transfer_between : Uuid → Option String → ℕ → TransferRequest → M Store Transfer
transfer_between ids ctx new_id req = do
  user_id ← get_user_id ctx
  raise_if (is_empty req.from_account_id || is_empty req.to_account_id) invalid_argument
  raise_if (leb_ℤ req.amount (pos 0)) invalid_argument
  raise_if (str_eq req.from_account_id req.to_account_id) invalid_argument
  uid ← or_raise (ids.parse user_id) internal
  from_id ← or_raise (ids.parse req.from_account_id) invalid_argument
  to_id ← or_raise (ids.parse req.to_account_id) invalid_argument
  atomically (
      move_funds ids user_id (record {
        id = new_id;
        user_id = uid;
        from_account_id = from_id;
        to_account_id = to_id;
        amount = req.amount;
        note = req.note;
      }))
