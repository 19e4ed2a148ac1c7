-- ===== src/Family.antt =====
-- The family service, server/internal/family/service.go, with the audit log of
-- server/pkg/audit/audit.go.
pub mod Joining
pub mod Roles
pub mod Owning
pub mod Rows
pub mod Changes
pub mod Ownership
pub mod Keeping
pub mod Handing
pub mod Requests
pub mod Deleting
pub mod Logging
pub mod Auditing
pub mod Examples
use Prim.Native.String.{String}
use family_ledger.Base.{
  ⊤, ℕ, suc, ◌+◌, Bool, true, false, not, ◌&&◌, ◌||◌, Option, none, some, List, [], ◌∷◌, ltb, ◌==◌,
  if◌then◌else◌,
}
use text.Mathlib.Text.{◌==◌ as str_eq}
use family_ledger.Db.{
  M, Outcome, violates, no_match, done, internal, invalid_argument, not_found, permission_denied,
  failed_precondition, already_exists, pure, raise, ◌>>=◌, ◌>>◌, statement, query, exec, raise_if,
  or_raise, atomically, ignore_error,
}
use family_ledger.Store.{
  is_empty, Uuid, Role, owner, admin, member, Permissions, Account, Transfer, Family, Member,
  AuditLog, Transaction, Entity, Store, find_member, update_member, delete_member,
  delete_members_of, find_family, update_family, delete_family_row, find_account, get_user_id,
}

pub default_member_permissions : Permissions
default_member_permissions = record {
  can_view = true;
  can_create = true;
  can_edit = false;
  can_delete = false;
  can_manage_accounts = false;
}

pub owner_permissions : Permissions
owner_permissions = record {
  can_view = true;
  can_create = true;
  can_edit = true;
  can_delete = true;
  can_manage_accounts = true;
}

-- `pb.FamilyRole`
pub data FamilyRole : Type 0 where
  role_unspecified role_owner role_admin role_member : FamilyRole

unfoldable pub proto_role_to_string : FamilyRole → Option Role
proto_role_to_string role_owner = some owner
proto_role_to_string role_admin = some admin
proto_role_to_string role_member = some member
proto_role_to_string role_unspecified = none

unfoldable pub string_to_proto_role : Role → FamilyRole
string_to_proto_role owner = role_owner
string_to_proto_role admin = role_admin
string_to_proto_role member = role_member

abbrev pub same_role : Role → Role → Bool
same_role owner owner = true
same_role admin admin = true
same_role member member = true
same_role _ _ = false

-- the loop of `requireRole` over the allowed roles
pub role_allowed : Role → List Role → Bool
role_allowed role [] = false
role_allowed role (allowed ∷ l) = same_role role allowed || role_allowed role l

pub require_role : Uuid → ℕ → String → List Role → M Store ⊤
require_role ids family_id user_id allowed = do
  uid ← or_raise (ids.parse user_id) internal
  m ← query (λ (s : Store). find_member family_id uid s.members) permission_denied
  raise_if (not (role_allowed m.role allowed)) permission_denied

pub text_length : String → ℕ
text_length String.[] = 0
text_length (String.◌∷◌ c s) = suc (text_length s)

-- `INSERT INTO audit_logs …`: the family exists, and `action` is a VARCHAR(20).
pub insert_audit : ℕ → ℕ → String → Store → Outcome Store ⊤
unfolding text_length
insert_audit family_id user_id action s = elim (find_family family_id s.families) [
  | none ↦ violates
  | some _ ↦
      if ltb 20 (text_length action)
      then violates
      else done tt (record s {
        audit_logs =
            record { family_id = family_id; user_id = user_id; action = action } ∷ s.audit_logs;
      })
]

-- `audit.LogAudit`: an id that cannot be read, or a failure, is logged and passed over.
unfoldable pub log_audit : Uuid → String → String → String → String → M Store ⊤
log_audit ids family_id user_id action entity_id =
    if is_empty family_id
    then pure tt
    else ignore_error tt (do
      fam_uid ← or_raise (ids.parse family_id) internal
      user_uid ← or_raise (ids.parse user_id) internal
      entity_uid ← or_raise (ids.parse entity_id) internal
      statement (insert_audit fam_uid user_uid action) internal internal)

pub has_code : String → List Family → Bool
has_code code [] = false
has_code code (f ∷ l) = str_eq f.invite_code code || has_code code l

-- `INSERT INTO families …`: `id` is the primary key, and `invite_code` is unique.
pub insert_family : Family → Store → Outcome Store ⊤
insert_family f s = elim (find_family f.id s.families) [
  | some _ ↦ violates
  | none ↦
      if has_code f.invite_code s.families
      then violates
      else done tt (record s { families = f ∷ s.families })
]

-- `INSERT INTO family_members …`: the family exists, and the member is new to it.
pub insert_member : Member → Store → Outcome Store ⊤
insert_member m s = elim (find_family m.family_id s.families) [
  | none ↦ violates
  | some _ ↦ elim (find_member m.family_id m.user_id s.members) [
    | some _ ↦ violates
    | none ↦ done tt (record s { members = m ∷ s.members })
  ]
]

abbrev pub member_row : ℕ → ℕ → Role → Permissions → Member
member_row f u role p = record { family_id = f; user_id = u; role = role; permissions = some p }

abbrev pub new_family : ℕ → String → ℕ → String → ℕ → Family
new_family i name uid code expires_at = record {
  id = i;
  name = name;
  owner_id = uid;
  invite_code = code;
  invite_expires_at = some expires_at;
}

-- The two inserts of `CreateFamily`.
pub create_family_rows : Family → M Store ⊤
create_family_rows f = do
  statement (insert_family f) internal internal
  statement (insert_member (member_row f.id f.owner_id owner owner_permissions)) internal internal

-- `CreateFamily`; `new_id` is the id that the database draws, `code` the invite code, and
-- `expires_at` when it ends.
unfoldable pub create_family : Uuid → Option String → ℕ → String → ℕ → String → M Store Family
create_family ids ctx new_id code expires_at name = do
  user_id ← get_user_id ctx
  raise_if (is_empty name) invalid_argument
  uid ← or_raise (ids.parse user_id) internal
  let f = new_family new_id name uid code expires_at
  atomically (create_family_rows f)
  log_audit ids (ids.text new_id) user_id "create_family" (ids.text new_id)
  pure f
