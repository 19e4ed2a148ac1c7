-- ===== src/Family/Keeping.antt =====
-- Every operation of the family service (server/internal/family/service.go) keeps one owner to a
-- family, whatever fails on the way.
use Prim.Native.String.{String}
use family_ledger.Base.{⊤, ℕ, ◌≡◌, ◌≢◌, refl, true, false, Option, some, List, arith}
use family_ledger.Db.{M, pure, ◌>>◌}
use family_ledger.Db.Triple.{
  Triple, pure-Triple, bind-Triple, then-Triple, query-Triple, or_raise-Triple, raise_if-Triple,
  exec-Triple, done-Triple, weaken-Triple, strengthen-Triple, atomically-Triple,
}
use family_ledger.Store.{Uuid, Role, owner, Permissions, Family, Member, Store, find_member}
use family_ledger.Store.Context.{get_user_id-Triple}
use family_ledger.Family.{
  AuditLog, FamilyRole, same_role, role_allowed, require_role, log_audit, create_family,
  create_family_rows,
}
use family_ledger.Family.Auditing.{log_audit-Triple}
use family_ledger.Family.Joining.{join_by_code, join_family, generate_invite_code}
use family_ledger.Family.Roles.{set_member_role, set_member_permissions, leave_family}
use family_ledger.Family.Rows.{role_of}
use family_ledger.Family.Changes.{
  SameRoles, set_permissions_row-SameRoles, set_invite_code-SameRoles,
}
use family_ledger.Family.Ownership.{
  HasOneOwner, SameRoles-HasOneOwner, set_role_row-HasOneOwner, leave_row-HasOneOwner,
  create-HasOneOwner, insert_member-HasOneOwner,
}

-- A handler that leaves one owner to a family where it finds one.
abbrev pub Keeps : {A : Type 0} → M Store A → Type 0
Keeps m = Triple HasOneOwner m (λ _. HasOneOwner) HasOneOwner

pub log_audit-Keeps :
    (ids : Uuid) (family_id user_id action entity_id : String)
    → Keeps (log_audit ids family_id user_id action entity_id)
log_audit-Keeps ids family_id user_id action entity_id =
    log_audit-Triple ids family_id user_id action entity_id
      (λ s l h. SameRoles-HasOneOwner s _ (same s l) h)
  where
    same : (s : Store) (l : List AuditLog) → SameRoles s (record s { audit_logs = l })
    same s l = record { owners = λ i. refl; roles = λ i v. refl }

-- The caller's role is one of those allowed.
abbrev pub Allowed : Uuid → ℕ → String → List Role → Store → Type 0
Allowed ids family_id user_id allowed s =
    (uid : ℕ) × (m : Member) × (ids.parse user_id ≡ some uid)
    × (find_member family_id uid s.members ≡ some m)
    × (role_allowed m.role allowed ≡ true)

pub require_role-Triple :
    (ids : Uuid) (family_id : ℕ) (user_id : String) (allowed : List Role) {P E : Store → Type 0}
    → ((s : Store) → P s → E s)
    → Triple P
        (require_role ids family_id user_id allowed)
        (λ _ s. P s × Allowed ids family_id user_id allowed s)
        E
unfolding require_role
require_role-Triple ids family_id user_id allowed stays =
    bind-Triple (or_raise-Triple stays _ _) λ uid.
      bind-Triple (query-Triple (λ s p. stays s p.0) _ _) λ m.
        weaken-Triple (raise_if-Triple (λ s p. stays s p.0.0) _ _)
          λ _ s p. (p.0.0.0, (uid, m, p.0.0.1, p.0.1, ground arith))

-- What is left of a handler after its change: the log and the answer.
pub log_then_pure-Keeps :
    {A : Type 0} (ids : Uuid) (family_id user_id action entity_id : String) (a : A)
    → Keeps (log_audit ids family_id user_id action entity_id >> pure a)
log_then_pure-Keeps ids family_id user_id action entity_id a =
    then-Triple (log_audit-Keeps ids family_id user_id action entity_id)
      λ _. pure-Triple a (λ s h. h)

create_family_rows-Triple :
    (f : Family) → Triple HasOneOwner (create_family_rows f) (λ _. HasOneOwner) (λ _. ⊤)
unfolding create_family_rows
create_family_rows-Triple f = then-Triple (done-Triple (λ s h. tt) _ _ _) λ _.
    weaken-Triple (done-Triple (λ s p. tt) _ _ _) λ _ s'' p.
      let (s', (s, h, e1), e2) = p in create-HasOneOwner s h f _ s' s'' e1 e2 refl refl refl

pub create_family-Keeps :
    (ids : Uuid) (ctx : Option String) (new_id : ℕ) (code : String) (expires_at : ℕ) (name : String)
    → Keeps (create_family ids ctx new_id code expires_at name)
unfolding create_family
create_family-Keeps ids ctx new_id code expires_at name =
    bind-Triple (get_user_id-Triple ctx (λ s h. h)) λ user_id.
      then-Triple (raise_if-Triple (λ s p. p.0) _ _) λ _.
        bind-Triple (or_raise-Triple (λ s p. p.0.0) _ _) λ uid.
          then-Triple
            (strengthen-Triple (λ s p. p.0.0.0)
              (atomically-Triple (λ s h. h) (create_family_rows-Triple _)))
            λ _. log_then_pure-Keeps ids _ _ _ _ _

join_by_code-Keeps : (code : String) (uid now : ℕ) → Keeps (join_by_code code uid now)
unfolding join_by_code
join_by_code-Keeps code uid now = bind-Triple (query-Triple (λ s h. h) _ _) λ f.
    then-Triple (raise_if-Triple (λ s p. p.0) _ _) λ _.
      bind-Triple (query-Triple (λ s p. p.0.0) _ _) λ exists.
        then-Triple (raise_if-Triple (λ s p. p.0.0.0) _ _) λ _.
          then-Triple
            (weaken-Triple (done-Triple (λ s p. p.0.0.0.0) _ _ _)
              λ _ s' p. let (s, h, e) = p in insert_member-HasOneOwner s h.0.0.0.0 _ s' e (λ k. cc))
            λ _. pure-Triple f (λ s h. h)

pub join_family-Keeps :
    (ids : Uuid) (ctx : Option String) (now : ℕ) (invite_code : String)
    → Keeps (join_family ids ctx now invite_code)
unfolding join_family
join_family-Keeps ids ctx now invite_code =
    bind-Triple (get_user_id-Triple ctx (λ s h. h)) λ user_id.
      then-Triple (raise_if-Triple (λ s p. p.0) _ _) λ _.
        bind-Triple (or_raise-Triple (λ s p. p.0.0) _ _) λ uid.
          bind-Triple
            (strengthen-Triple (λ s p. p.0.0.0)
              (atomically-Triple (λ s h. h) (join_by_code-Keeps _ _ _)))
            λ f. log_then_pure-Keeps ids _ _ _ _ f

pub generate_invite_code-Keeps :
    (ids : Uuid) (ctx : Option String) (code : String) (expires_at : ℕ) (family_id : String)
    → Keeps (generate_invite_code ids ctx code expires_at family_id)
unfolding generate_invite_code
generate_invite_code-Keeps ids ctx code expires_at family_id =
    bind-Triple (get_user_id-Triple ctx (λ s h. h)) λ user_id.
      then-Triple (raise_if-Triple (λ s p. p.0) _ _) λ _.
        bind-Triple (or_raise-Triple (λ s p. p.0.0) _ _) λ fid.
          then-Triple (require_role-Triple ids fid user_id _ (λ s p. p.0.0.0)) λ _.
            then-Triple
              (weaken-Triple (done-Triple (λ s p. p.0.0.0.0) _ _ _) λ _ s' p.
                let (s, h, e) = p in
                SameRoles-HasOneOwner s s' (set_invite_code-SameRoles fid code expires_at s s' e)
                  h.0.0.0.0)
              λ _. pure-Triple _ (λ s h. h)

not_owner : (r : Role) → same_role r owner ≡ false → r ≢ owner
not_owner r e k = ground arith

role_of_row :
    (f u : ℕ) (m : Member) (s : Store)
    → find_member f u s.members ≡ some m
    → same_role m.role owner ≡ false
    → role_of f u s ≢ some owner
role_of_row f u m s found other k = ground arith

pub set_member_role-Keeps :
    (ids : Uuid) (ctx : Option String) (family_id user_id : String) (role : FamilyRole)
    → Keeps (set_member_role ids ctx family_id user_id role)
unfolding set_member_role
set_member_role-Keeps ids ctx family_id user_id role =
    bind-Triple (get_user_id-Triple ctx (λ s h. h)) λ caller_id.
      then-Triple (raise_if-Triple (λ s p. p.0) _ _) λ _.
        bind-Triple (or_raise-Triple (λ s p. p.0.0) _ _) λ fid.
          bind-Triple (or_raise-Triple (λ s p. p.0.0.0) _ _) λ target_uid.
            then-Triple (require_role-Triple ids fid caller_id _ (λ s p. p.0.0.0.0)) λ _.
              bind-Triple (or_raise-Triple (λ s p. p.0.0.0.0.0) _ _) λ role_str.
                then-Triple (raise_if-Triple (λ s p. p.0.0.0.0.0.0) _ _) λ _.
                  bind-Triple (query-Triple (λ s p. p.0.0.0.0.0.0.0) _ _) λ target.
                    then-Triple (raise_if-Triple (λ s p. p.0.0.0.0.0.0.0.0) _ _) λ _.
                      then-Triple
                        (exec-Triple (λ s p. p.0.0.0.0.0.0.0.0.0) _ (λ _. HasOneOwner)
                          λ s p.
                            set_role_row-HasOneOwner s p.0.0.0.0.0.0.0.0.0 fid target_uid role_str
                              (role_of_row fid target_uid target s p.0.1 p.1)
                              (not_owner role_str p.0.0.1))
                        λ _. log_audit-Keeps ids _ _ _ _

pub set_member_permissions-Keeps :
    (ids : Uuid) (ctx : Option String) (family_id user_id : String)
    (permissions : Option Permissions)
    → Keeps (set_member_permissions ids ctx family_id user_id permissions)
unfolding set_member_permissions
set_member_permissions-Keeps ids ctx family_id user_id permissions =
    bind-Triple (get_user_id-Triple ctx (λ s h. h)) λ caller_id.
      then-Triple (raise_if-Triple (λ s p. p.0) _ _) λ _.
        bind-Triple (or_raise-Triple (λ s p. p.0.0) _ _) λ perms.
          bind-Triple (or_raise-Triple (λ s p. p.0.0.0) _ _) λ fid.
            bind-Triple (or_raise-Triple (λ s p. p.0.0.0.0) _ _) λ target_uid.
              then-Triple (require_role-Triple ids fid caller_id _ (λ s p. p.0.0.0.0.0)) λ _.
                then-Triple
                  (weaken-Triple (done-Triple (λ s p. p.0.0.0.0.0.0) _ _ _) λ _ s' p.
                    let (s, h, e) = p in
                    SameRoles-HasOneOwner s s'
                      (set_permissions_row-SameRoles fid target_uid perms s s' e) h.0.0.0.0.0.0)
                  λ _. log_audit-Keeps ids _ _ _ _

pub leave_family-Keeps :
    (ids : Uuid) (ctx : Option String) (family_id : String) → Keeps (leave_family ids ctx family_id)
unfolding leave_family
leave_family-Keeps ids ctx family_id = bind-Triple (get_user_id-Triple ctx (λ s h. h)) λ user_id.
    then-Triple (raise_if-Triple (λ s p. p.0) _ _) λ _.
      bind-Triple (or_raise-Triple (λ s p. p.0.0) _ _) λ fid.
        bind-Triple (or_raise-Triple (λ s p. p.0.0.0) _ _) λ uid.
          bind-Triple (query-Triple (λ s p. p.0.0.0.0) _ _) λ m.
            then-Triple (raise_if-Triple (λ s p. p.0.0.0.0.0) _ _) λ _.
              then-Triple
                (exec-Triple (λ s p. p.0.0.0.0.0.0) _ (λ _. HasOneOwner)
                  λ s p.
                    leave_row-HasOneOwner s p.0.0.0.0.0.0 fid uid
                      (role_of_row fid uid m s p.0.1 p.1))
                λ _. log_audit-Keeps ids _ _ _ _
