-- ===== src/Family/Joining.antt =====
-- Joining a family, and its invite code (server/internal/family/service.go).
use Prim.Native.String.{String}
use family_ledger.Base.{
  ⊤, ℕ, Bool, true, false, Option, none, some, List, [], ◌∷◌, ltb, not, ◌&&◌, ◌||◌, ◌==◌,
  if◌then◌else◌,
}
use text.Mathlib.Text.{◌==◌ as str_eq}
use family_ledger.Db.{
  M, Outcome, violates, done, internal, invalid_argument, not_found, failed_precondition,
  already_exists, pure, ◌>>=◌, ◌>>◌, statement, query, raise_if, or_raise, atomically,
}
use family_ledger.Store.{
  is_empty, Uuid, owner, admin, member, Family, Store, find_member, update_family, get_user_id,
}
use family_ledger.Family.{
  require_role, log_audit, insert_member, member_row, default_member_permissions,
}

-- `SELECT … FROM families WHERE invite_code = $1`
unfoldable pub find_by_code : String → List Family → Option Family
find_by_code code [] = none
find_by_code code (f ∷ l) = if str_eq f.invite_code code then some f else find_by_code code l

-- `inviteExpiresAt != nil && inviteExpiresAt.Before(time.Now())`
abbrev pub is_expired : Option ℕ → ℕ → Bool
is_expired none now = false
is_expired (some t) now = ltb t now

-- `SELECT EXISTS(SELECT 1 FROM family_members …)`
abbrev pub is_joined : ℕ → ℕ → Store → Bool
is_joined f u s = elim (find_member f u s.members) [ none ↦ false | some _ ↦ true ]

-- what `JoinFamily` does in its transaction
unfoldable pub join_by_code : String → ℕ → ℕ → M Store Family
join_by_code code uid now = do
  f ← query (λ (s : Store). find_by_code code s.families) not_found
  raise_if (is_expired f.invite_expires_at now) failed_precondition
  exists ← query (λ (s : Store). some (is_joined f.id uid s)) internal
  raise_if exists already_exists
  statement (insert_member (member_row f.id uid member default_member_permissions)) internal
      internal
  pure f

-- `JoinFamily`
unfoldable pub join_family : Uuid → Option String → ℕ → String → M Store Family
join_family ids ctx now invite_code = do
  user_id ← get_user_id ctx
  raise_if (is_empty invite_code) invalid_argument
  uid ← or_raise (ids.parse user_id) internal
  f ← atomically (join_by_code invite_code uid now)
  log_audit ids (ids.text f.id) user_id "join_family" user_id
  pure f

-- Whether another family has the code.
pub has_other_code : ℕ → String → List Family → Bool
has_other_code i code [] = false
has_other_code i code (f ∷ l) =
    (not (f.id == i) && str_eq f.invite_code code) || has_other_code i code l

-- `UPDATE families SET invite_code = $1, invite_expires_at = $2 WHERE id = $3`; the code is unique.
unfoldable pub set_invite_code : ℕ → String → ℕ → Store → Outcome Store ⊤
set_invite_code i code expires_at s =
    if has_other_code i code s.families
    then violates
    else done tt (record s {
      families =
          update_family i
            (λ f. record f { invite_code = code; invite_expires_at = some expires_at }) s.families;
    })

-- `GenerateInviteCode`; `code` is what `generateInviteCode` draws.
unfoldable pub generate_invite_code :
    Uuid → Option String → String → ℕ → String → M Store (String × ℕ)
generate_invite_code ids ctx code expires_at family_id = do
  user_id ← get_user_id ctx
  raise_if (is_empty family_id) invalid_argument
  fid ← or_raise (ids.parse family_id) invalid_argument
  require_role ids fid user_id (owner ∷ admin ∷ [])
  statement (set_invite_code fid code expires_at) internal internal
  pure (code, expires_at)
