-- ===== src/Account/Examples.antt =====
-- Transfers and checks of permissions on a small database.
use Prim.Native.String.{String}
use family_ledger.Base.{
  ℕ, zero, suc, ◌≡◌, ◌≢◌, inr, refl, true, false, Option, none, some, [], ◌∷◌, arith,
}
use family_ledger.Base.Int.{ℤ, pos, ◌+ℤ◌, ◌-ℤ◌, ◌≤ℤ◌}
use family_ledger.Db.{
  failed_precondition, permission_denied, ok, err, idle, World, pure, raise, statement, query, exec,
  raise_if, or_raise, atomically, with_code, ◌>>=◌, ◌>>◌,
}
use family_ledger.Db.Triple.{Post}
use family_ledger.Store.{
  is_empty, Uuid, member, Permissions, Account, Transfer, Store, find_account, update_account,
  find_member, get_user_id,
}
use family_ledger.Permission.{can_view, check, check_row}
use family_ledger.Permission.Granted.{Passes, check-granted}
use family_ledger.Account.{
  cash, CreateAccountRequest, create_account, create_family_id, insert_account, delete_account,
  find_live, any_key_allows, key_allows, perm_key_to_func, investment, proto_type_to_string,
  string_to_proto_type, TransferRequest, transfer_between, check_account_access, required_by,
  move_funds, find_active, deduct, credit, insert_transfer,
}
use family_ledger.Account.Types.{string_to_proto_type-roundtrip}
use family_ledger.Account.Rows.{total, with_balance}
use family_ledger.Account.Transfers.{
  Transferred, transfer_between-Transferred, transfer_between-total, transfer_between-balances,
}

-- Identifiers in unary: the number n is the text of n + 1 strokes.
abbrev pub strokes : ℕ → String
strokes zero = "1"
strokes (suc n) = String.◌∷◌ "1" (strokes n)

abbrev one_more : Option ℕ → Option ℕ
one_more none = none
one_more (some n) = some (suc n)

abbrev count : String → Option ℕ
count String.[] = none
count (String.◌∷◌ c String.[]) = some 0
count (String.◌∷◌ c (String.◌∷◌ d s)) = one_more (count (String.◌∷◌ d s))

pub count-strokes : (n : ℕ) → count (strokes n) ≡ some n
count-strokes zero = refl
count-strokes (suc zero) = refl
count-strokes (suc (suc n)) = rw (count-strokes (suc n)) refl

abbrev pub ids : Uuid
ids = record {
  parse = count;
  text = strokes;
  parse_text = count-strokes;
  text_some = λ n. nonempty n;
}
  where
    nonempty : (n : ℕ) → is_empty (strokes n) ≡ false
    nonempty zero = refl
    nonempty (suc n) = refl

abbrev pub row : ℕ → ℕ → Option ℕ → ℤ → Account
row i user family balance = record {
  id = i;
  user_id = user;
  family_id = family;
  name = "purse";
  kind = "cash";
  balance = balance;
  currency = "CNY";
  icon = "";
  is_active = true;
  is_default = false;
  deleted = false;
}

abbrev viewer : Permissions
viewer = record {
  can_view = true;
  can_create = false;
  can_edit = false;
  can_delete = false;
  can_manage_accounts = false;
}

-- User 0 owns account 0, and belongs to family 7, which has account 1 of user 5.
abbrev pub tables : Store
tables = record {
  accounts = row 0 0 none (pos 50) ∷ row 1 5 (some 7) (pos 8) ∷ row 2 5 none (pos 9) ∷ [];
  transfers = [];
  families = [];
  members = record { family_id = 7; user_id = 0; role = member; permissions = some viewer } ∷ [];
  audit_logs = [];
  transactions = [];
  budgets = [];
  loans = [];
  investments = [];
  fixed_assets = [];
  loan_groups = [];
  custom_reminders = [];
  categories = [];
  category_budgets = [];
  sync_operations = [];
}

abbrev world : World Store
world = record { store = tables; session = idle; faults = [] }

abbrev ask : ℕ → ℕ → ℤ → TransferRequest
ask from to amount = record {
  from_account_id = strokes from;
  to_account_id = strokes to;
  amount = amount;
  note = "";
}

abbrev after : World Store
after = (transfer_between ids (some "1") 3 (ask 0 1 (pos 20)) world).1

abbrev made : Transfer
made = record {
  id = 3;
  user_id = 0;
  from_account_id = 0;
  to_account_id = 1;
  amount = pos 20;
  note = "";
}

methods : Unit {0}
unfolding transfer_between check_account_access check check_row atomically with_code statement query
    exec raise_if or_raise pure raise ◌>>=◌ ◌>>◌ get_user_id find_account update_account find_member
    required_by move_funds find_active deduct credit insert_transfer ◌+ℤ◌ ◌-ℤ◌
methods = tt

transferred : transfer_between ids (some "1") 3 (ask 0 1 (pos 20)) world ≡ (ok made, after)
unfolding methods
transferred = refl

-- More than the account has; an account of somebody else.
refused :
    ((transfer_between ids (some "1") 3 (ask 0 1 (pos 51)) world).0 ≡ err failed_precondition)
    × ((transfer_between ids (some "1") 3 (ask 0 2 (pos 20)) world).0 ≡ err permission_denied)
unfolding methods
refused = (refl, refl)

transfer_between-Transferred_example :
    Post
      (Transferred ids (some "1") 3 (ask 0 1 (pos 20)) tables)
      (λ s. s ≡ tables)
      (transfer_between ids (some "1") 3 (ask 0 1 (pos 20)) world).0
      (transfer_between ids (some "1") 3 (ask 0 1 (pos 20)) world).1.store
transfer_between-Transferred_example =
    transfer_between-Transferred ids (some "1") 3 (ask 0 1 (pos 20)) world

transfer_between-total_example : total after.store.accounts ≡ total tables.accounts
transfer_between-total_example = transfer_between-total ids (some "1") 3 (ask 0 1 (pos 20)) world

transfer_between-balances_example :
    (from : Account) × (to : Account) × (pos 20 ≤ℤ from.balance)
    × (find_account 0 tables.accounts ≡ some from)
    × (find_account 1 tables.accounts ≡ some to)
    × (find_account 0 after.store.accounts ≡ some (with_balance from (from.balance -ℤ pos 20)))
    × (find_account 1 after.store.accounts ≡ some (with_balance to (to.balance +ℤ pos 20)))
    × ((j : ℕ)
        → j ≢ 0
        → j ≢ 1
        → find_account j after.store.accounts ≡ find_account j tables.accounts)
transfer_between-balances_example =
    transfer_between-balances ids (some "1") 3 (ask 0 1 (pos 20)) world after made transferred
      (λ e. omega arith)

viewer-Passes : Passes ids "1" (strokes 7) can_view tables
unfolding find_member
viewer-Passes = inr (record {
  uid = 0;
  fid = 7;
  row = record { family_id = 7; user_id = 0; role = member; permissions = some viewer };
  caller = refl;
  family = refl;
  joined = refl;
  enough = inr (viewer, refl, refl);
})

viewer_may_view : (check ids "1" (strokes 7) can_view world).0 ≡ ok tt
viewer_may_view = (check-granted ids "1" (strokes 7) can_view world refl refl).1 viewer-Passes

string_to_proto_type-roundtrip_example :
    string_to_proto_type (proto_type_to_string investment) ≡ investment
string_to_proto_type-roundtrip_example = string_to_proto_type-roundtrip investment

retires :
    ((delete_account ids (some "1") (strokes 0) world).0 ≡ ok tt)
    × ((delete_account ids (some "1") (strokes 1) world).0 ≡ err permission_denied)
unfolding methods delete_account find_live any_key_allows key_allows perm_key_to_func
retires = (refl, refl)

abbrev purse_request : CreateAccountRequest
purse_request = record {
  name = "savings";
  type = cash;
  currency = "";
  icon = "";
  family_id = "";
  initial_balance = pos 5;
}

opens :
    find_account 9 (create_account ids (some "1") 9 purse_request world).1.store.accounts
    ≡ some (record (row 9 0 none (pos 5)) { name = "savings" })
unfolding methods create_account create_family_id insert_account proto_type_to_string
opens = refl
