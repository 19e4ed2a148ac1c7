-- ===== src/Store.antt =====
-- The tables that the account and family services share (server/migrations), the identifiers, and
-- the user of a request (`GetUserID` of server/pkg/middleware/auth.go).
pub mod Context
use Prim.Native.String.{String}
use family_ledger.Base.{
  ℕ, ◌≡◌, Bool, true, false, not, ◌&&◌, Option, none, some, List, [], ◌∷◌, ◌==◌, if◌then◌else◌,
}
use family_ledger.Base.Int.{ℤ}
use family_ledger.Db.{M, pure, raise, unauthenticated}

abbrev pub is_empty : String → Bool
is_empty String.[] = true
is_empty (String.◌∷◌ c s) = false

-- `github.com/google/uuid`, of which the code uses the parser, and the text that PostgreSQL and
-- `String` give of an identifier. A text that was printed is read back.
pub record Uuid : Type 0 where
  pub parse : String → Option ℕ
  pub text : ℕ → String
  pub parse_text : (u : ℕ) → parse (text u) ≡ some u
  pub text_some : (u : ℕ) → is_empty (text u) ≡ false

pub data Role : Type 0 where
  owner admin member : Role

pub record Permissions : Type 0 where
  pub can_view : Bool
  pub can_create : Bool
  pub can_edit : Bool
  pub can_delete : Bool
  pub can_manage_accounts : Bool

-- A row of `accounts`.
pub record Account : Type 0 where
  pub id : ℕ
  pub user_id : ℕ
  pub family_id : Option ℕ
  pub name : String
  pub kind : String
  pub balance : ℤ
  pub currency : String
  pub icon : String
  pub is_active : Bool
  pub is_default : Bool
  -- whether `deleted_at` is set
  pub deleted : Bool

pub record Transfer : Type 0 where
  pub id : ℕ
  pub user_id : ℕ
  pub from_account_id : ℕ
  pub to_account_id : ℕ
  pub amount : ℤ
  pub note : String

pub record Family : Type 0 where
  pub id : ℕ
  pub name : String
  pub owner_id : ℕ
  pub invite_code : String
  pub invite_expires_at : Option ℕ

-- A row of `family_members`. `permissions` is JSON; `none` is what `json.Unmarshal` refuses.
pub record Member : Type 0 where
  pub family_id : ℕ
  pub user_id : ℕ
  pub role : Role
  pub permissions : Option Permissions

pub record AuditLog : Type 0 where
  pub family_id : ℕ
  pub user_id : ℕ
  pub action : String

-- The enumerations `transaction_type` and `category_type`
pub data TransactionKind : Type 0 where
  income expense : TransactionKind

-- A row of `transactions`. `exchange_rate` is the bit pattern of a double, `txn_date` is in
-- nanoseconds since 1970.
pub record Transaction : Type 0 where
  pub id : ℕ
  pub user_id : ℕ
  pub account_id : ℕ
  pub family_id : Option ℕ
  pub category_id : ℕ
  pub amount : ℤ
  pub currency : String
  pub amount_cny : ℤ
  pub exchange_rate : ℕ
  pub kind : TransactionKind
  pub note : String
  pub txn_date : ℤ
  pub tags : List String
  pub image_urls : List String
  pub deleted : Bool

-- A row of `categories`.
pub record Category : Type 0 where
  pub id : ℕ
  pub name : String
  pub icon_key : String
  pub kind : TransactionKind
  pub is_preset : Bool
  pub sort_order : ℤ
  pub parent_id : Option ℕ
  pub user_id : Option ℕ
  pub deleted : Bool

pub record CategoryBudget : Type 0 where
  pub budget_id : ℕ
  pub category_id : ℕ
  pub amount : ℤ

pub data SyncOpType : Type 0 where
  op_create op_update op_delete : SyncOpType

-- A row of `sync_operations`, without its JSON.
pub record SyncOperation : Type 0 where
  pub user_id : ℕ
  pub entity_type : String
  pub entity_id : ℕ
  pub op_type : SyncOpType
  pub client_id : String

-- A row of `budgets`, `loans`, `loan_groups`, `investments`, `fixed_assets` or `custom_reminders`,
-- as far as a family owns it. Where a table has no `deleted_at`, `deleted` is false.
pub record Entity : Type 0 where
  pub id : ℕ
  pub family_id : Option ℕ
  pub deleted : Bool

pub record Store : Type 0 where
  pub accounts : List Account
  pub transfers : List Transfer
  pub families : List Family
  pub members : List Member
  pub audit_logs : List AuditLog
  pub transactions : List Transaction
  pub budgets : List Entity
  pub loans : List Entity
  pub investments : List Entity
  pub fixed_assets : List Entity
  pub loan_groups : List Entity
  pub custom_reminders : List Entity
  pub categories : List Category
  pub category_budgets : List CategoryBudget
  pub sync_operations : List SyncOperation

-- `SELECT … FROM accounts WHERE id = $1`, where `id` is the primary key
unfoldable pub find_account : ℕ → List Account → Option Account
find_account i [] = none
find_account i (a ∷ l) = if a.id == i then some a else find_account i l

unfoldable pub update_account : ℕ → (Account → Account) → List Account → List Account
update_account i f [] = []
update_account i f (a ∷ l) = if a.id == i then f a ∷ l else a ∷ update_account i f l

abbrev pub is_member_row : ℕ → ℕ → Member → Bool
is_member_row f u m = (m.family_id == f) && (m.user_id == u)

-- `… WHERE family_id = $1 AND user_id = $2`; the two columns are unique together.
unfoldable pub find_member : ℕ → ℕ → List Member → Option Member
find_member f u [] = none
find_member f u (m ∷ l) = if is_member_row f u m then some m else find_member f u l

-- `UPDATE family_members … WHERE family_id = $1 AND user_id = $2`
unfoldable pub update_member : ℕ → ℕ → (Member → Member) → List Member → List Member
update_member f u g [] = []
update_member f u g (m ∷ l) = (if is_member_row f u m then g m else m) ∷ update_member f u g l

-- `DELETE FROM family_members WHERE family_id = $1 AND user_id = $2`
unfoldable pub delete_member : ℕ → ℕ → List Member → List Member
delete_member f u [] = []
delete_member f u (m ∷ l) =
    let rest = delete_member f u l in if is_member_row f u m then rest else m ∷ rest

-- `DELETE FROM family_members WHERE family_id = $1`
unfoldable pub delete_members_of : ℕ → List Member → List Member
delete_members_of f [] = []
delete_members_of f (m ∷ l) =
    let rest = delete_members_of f l in if m.family_id == f then rest else m ∷ rest

-- `SELECT … FROM families WHERE id = $1`, where `id` is the primary key
unfoldable pub find_family : ℕ → List Family → Option Family
find_family i [] = none
find_family i (f ∷ l) = if f.id == i then some f else find_family i l

unfoldable pub update_family : ℕ → (Family → Family) → List Family → List Family
update_family i g [] = []
update_family i g (f ∷ l) = (if f.id == i then g f else f) ∷ update_family i g l

unfoldable pub delete_family_row : ℕ → List Family → List Family
delete_family_row i [] = []
delete_family_row i (f ∷ l) =
    let rest = delete_family_row i l in if f.id == i then rest else f ∷ rest

-- The user id that the authentication interceptor has put into the context.
unfoldable pub get_user_id : {S : Type 0} → Option String → M S String
get_user_id none = raise unauthenticated
get_user_id (some u) = if is_empty u then raise unauthenticated else pure u
