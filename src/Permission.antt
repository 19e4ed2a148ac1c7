-- ===== src/Permission.antt =====
-- server/pkg/permission/check.go: who may do what in a family.
pub mod Granted
use Prim.Native.String.{String}
use family_ledger.Base.{⊤, ℕ, Bool, true, false, not, if◌then◌else◌}
use family_ledger.Db.{
  M, internal, invalid_argument, permission_denied, pure, ◌>>=◌, ◌>>◌, query, raise_if, or_raise,
}
use family_ledger.Store.{
  is_empty, Uuid, Role, owner, admin, member, Permissions, Member, Store, find_member,
}

-- `role == "owner" || role == "admin"`
abbrev pub is_manager : Role → Bool
is_manager owner = true
is_manager admin = true
is_manager member = false

abbrev pub can_view : Permissions → Bool
can_view p = p.can_view

abbrev pub can_create : Permissions → Bool
can_create p = p.can_create

abbrev pub can_edit : Permissions → Bool
can_edit p = p.can_edit

abbrev pub can_delete : Permissions → Bool
can_delete p = p.can_delete

abbrev pub can_manage_accounts : Permissions → Bool
can_manage_accounts p = p.can_manage_accounts

-- the part of `permission.Check` after the member's row has been read
unfoldable pub check_row : (Permissions → Bool) → Member → M Store ⊤
check_row required m = if is_manager m.role then pure tt else do
  perms ← or_raise m.permissions internal
  raise_if (not (required perms)) permission_denied

-- `permission.Check`
unfoldable pub check : Uuid → String → String → (Permissions → Bool) → M Store ⊤
check ids user_id family_id required = if is_empty family_id then pure tt else do
  uid ← or_raise (ids.parse user_id) internal
  fid ← or_raise (ids.parse family_id) invalid_argument
  m ← query (λ (s : Store). find_member fid uid s.members) permission_denied
  check_row required m
