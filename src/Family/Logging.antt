-- ===== src/Family/Logging.antt =====
-- What the audit log misses: `audit_logs.action` holds 20 characters
-- (server/migrations/038_create_audit_logs.up.sql).
use Prim.Native.String.{String}
use family_ledger.Base.{⊤, ℕ, ◌≡◌, inl, inr, refl, true, Option, List, ltb, Option-cases}
use family_ledger.Db.{Result, ok, err, World, violates}
use family_ledger.Db.Triple.{
  Triple, Post, PostOutcome, pure-Triple, bind-Triple, then-Triple, or_raise-Triple,
  raise_if-Triple, if-Triple, ignore_error-Triple, statement-Triple,
}
use family_ledger.Store.{is_empty, Uuid, Permissions, Store, AuditLog, find_family, find_member}
use family_ledger.Store.Context.{get_user_id-Triple}
use family_ledger.Family.{text_length, insert_audit, log_audit}
use family_ledger.Family.Roles.{set_permissions_row, set_member_permissions}
use family_ledger.Family.Keeping.{require_role-Triple}

-- The rows of the log are these.
abbrev LogIs : List AuditLog → Store → Type 0
LogIs logs s = s.audit_logs ≡ logs

insert_audit-too_long :
    (f u : ℕ) (action : String) (s : Store)
    → ltb 20 (text_length action) ≡ true
    → insert_audit f u action s ≡ violates
unfolding insert_audit
insert_audit-too_long f u action s long = elim (Option-cases (find_family f s.families)) [
  | inl missing ↦ rw (missing, insert_audit) refl
  | inr (x, found) ↦ rw (found, long, insert_audit) refl
]

log_audit-too_long :
    (ids : Uuid) (family_id user_id action entity_id : String) (logs : List AuditLog)
    → ltb 20 (text_length action) ≡ true
    → Triple
        (LogIs logs)
        (log_audit ids family_id user_id action entity_id)
        (λ _. LogIs logs)
        (LogIs logs)
unfolding log_audit
log_audit-too_long ids family_id user_id action entity_id logs long =
    if-Triple (is_empty family_id) (λ _. pure-Triple tt (λ s h. h))
      (λ _. ignore_error-Triple tt (
        bind-Triple (or_raise-Triple (λ s h. h) _ _) λ fam_uid.
          bind-Triple (or_raise-Triple (λ s p. p.0) _ _) λ user_uid.
            bind-Triple (or_raise-Triple (λ s p. p.0.0) _ _) λ entity_uid.
              statement-Triple (insert_audit fam_uid user_uid action) _ _
                (λ s p. rw (insert_audit-too_long fam_uid user_uid action s long) tt)
                (λ s p. p.0.0.0)))

set_permissions_row-log :
    (f u : ℕ) (p : Permissions) (s : Store) (logs : List AuditLog)
    → LogIs logs s
    → PostOutcome (λ _. LogIs logs) (set_permissions_row f u p s)
unfolding set_permissions_row
set_permissions_row-log f u p s logs h = elim (Option-cases (find_member f u s.members)) [
  | inl missing ↦ rw (missing, set_permissions_row) tt
  | inr (m, found) ↦ rw (found, set_permissions_row) h
]

set_member_permissions-Triple :
    (ids : Uuid) (ctx : Option String) (family_id user_id : String)
    (permissions : Option Permissions) (logs : List AuditLog)
    → Triple
        (LogIs logs)
        (set_member_permissions ids ctx family_id user_id permissions)
        (λ _. LogIs logs)
        (LogIs logs)
unfolding set_member_permissions text_length
set_member_permissions-Triple ids ctx family_id user_id permissions logs =
    bind-Triple (get_user_id-Triple ctx (λ s h. h)) λ caller_id.
      then-Triple (raise_if-Triple (λ s p. p.0) _ _) λ _.
        bind-Triple (or_raise-Triple (λ s p. p.0.0) _ _) λ perms.
          bind-Triple (or_raise-Triple (λ s p. p.0.0.0) _ _) λ fid.
            bind-Triple (or_raise-Triple (λ s p. p.0.0.0.0) _ _) λ target_uid.
              then-Triple (require_role-Triple ids fid caller_id _ (λ s p. p.0.0.0.0.0)) λ _.
                then-Triple
                  (statement-Triple {Q = λ _. LogIs logs} (set_permissions_row fid target_uid perms)
                    _ _ (λ s p. set_permissions_row-log fid target_uid perms s logs p.0.0.0.0.0.0)
                    (λ s p. p.0.0.0.0.0.0))
                  λ _. log_audit-too_long ids _ _ _ _ logs refl

logged :
    (r : Result ⊤) (s : Store) (logs : List AuditLog)
    → Post (λ _. LogIs logs) (LogIs logs) r s
    → s.audit_logs ≡ logs
logged (ok a) s logs h = h
logged (err c) s logs h = h

-- `SetMemberPermissions` never leaves a row in the audit log, also where it succeeds: the name of
-- its action is longer than the column.
pub set_member_permissions-unlogged :
    (ids : Uuid) (ctx : Option String) (family_id user_id : String)
    (permissions : Option Permissions) (w : World Store)
    → (set_member_permissions ids ctx family_id user_id permissions w).1.store.audit_logs
      ≡ w.store.audit_logs
set_member_permissions-unlogged ids ctx family_id user_id permissions w = logged _ _ _ (
    (set_member_permissions-Triple ids ctx family_id user_id permissions w.store.audit_logs).run w
      refl)
