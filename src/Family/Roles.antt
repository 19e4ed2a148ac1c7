-- ===== src/Family/Roles.antt =====
-- Roles and permissions of the members, and leaving (server/internal/family/service.go).
use Prim.Native.String.{String}
use family_ledger.Base.{⊤, ℕ, ◌||◌, Option, none, some, [], ◌∷◌}
use family_ledger.Db.{
  M, Outcome, no_match, done, internal, invalid_argument, not_found, permission_denied,
  failed_precondition, ◌>>=◌, ◌>>◌, statement, query, exec, raise_if, or_raise,
}
use family_ledger.Store.{
  is_empty, Uuid, Role, owner, admin, Permissions, Member, Store, find_member, update_member,
  delete_member, get_user_id,
}
use family_ledger.Family.{FamilyRole, proto_role_to_string, same_role, require_role, log_audit}

abbrev pub with_role : Role → Member → Member
with_role r m = record m { role = r }

abbrev pub with_permissions : Permissions → Member → Member
with_permissions p m = record m { permissions = some p }

-- `UPDATE family_members SET role = $1 WHERE family_id = $2 AND user_id = $3`
unfoldable pub set_role_row : ℕ → ℕ → Role → Store → Store
set_role_row f u r s = record s { members = update_member f u (with_role r) s.members }

-- `SetMemberRole`
unfoldable pub set_member_role : Uuid → Option String → String → String → FamilyRole → M Store ⊤
set_member_role ids ctx family_id user_id role = do
  caller_id ← get_user_id ctx
  raise_if (is_empty family_id || is_empty user_id) invalid_argument
  fid ← or_raise (ids.parse family_id) invalid_argument
  target_uid ← or_raise (ids.parse user_id) invalid_argument
  require_role ids fid caller_id (owner ∷ admin ∷ [])
  role_str ← or_raise (proto_role_to_string role) invalid_argument
  raise_if (same_role role_str owner) invalid_argument
  target ← query (λ (s : Store). find_member fid target_uid s.members) not_found
  raise_if (same_role target.role owner) permission_denied
  exec (set_role_row fid target_uid role_str)
  log_audit ids family_id caller_id "set_member_role" user_id

-- `UPDATE family_members SET permissions = $1 …`, which must affect a row
unfoldable pub set_permissions_row : ℕ → ℕ → Permissions → Store → Outcome Store ⊤
set_permissions_row f u p s = elim (find_member f u s.members) [
  | none ↦ no_match
  | some _ ↦ done tt (record s { members = update_member f u (with_permissions p) s.members })
]

-- `SetMemberPermissions`; `none` is a request without permissions.
unfoldable pub set_member_permissions :
    Uuid → Option String → String → String → Option Permissions → M Store ⊤
set_member_permissions ids ctx family_id user_id permissions = do
  caller_id ← get_user_id ctx
  raise_if (is_empty family_id || is_empty user_id) invalid_argument
  perms ← or_raise permissions invalid_argument
  fid ← or_raise (ids.parse family_id) invalid_argument
  target_uid ← or_raise (ids.parse user_id) invalid_argument
  require_role ids fid caller_id (owner ∷ admin ∷ [])
  statement (set_permissions_row fid target_uid perms) internal not_found
  log_audit ids family_id caller_id "set_member_permissions" user_id

-- `DELETE FROM family_members WHERE family_id = $1 AND user_id = $2`
unfoldable pub leave_row : ℕ → ℕ → Store → Store
leave_row f u s = record s { members = delete_member f u s.members }

-- `LeaveFamily`
unfoldable pub leave_family : Uuid → Option String → String → M Store ⊤
leave_family ids ctx family_id = do
  user_id ← get_user_id ctx
  raise_if (is_empty family_id) invalid_argument
  fid ← or_raise (ids.parse family_id) invalid_argument
  uid ← or_raise (ids.parse user_id) internal
  m ← query (λ (s : Store). find_member fid uid s.members) not_found
  raise_if (same_role m.role owner) failed_precondition
  exec (leave_row fid uid)
  log_audit ids (ids.text fid) user_id "leave_family" user_id
