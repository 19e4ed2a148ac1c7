-- ===== src/Family/Auditing.antt =====
-- `LogAudit` of server/pkg/audit/audit.go writes to the audit log, and to no other table.
use Prim.Native.String.{String}
use family_ledger.Base.{ℕ, inl, inr, List, ◌∷◌, arith, Option-cases}
use family_ledger.Db.Triple.{
  Triple, PostOutcome, pure-Triple, bind-Triple, or_raise-Triple, if-Triple, ignore_error-Triple,
  statement-Triple,
}
use family_ledger.Store.{is_empty, Uuid, Store, AuditLog, find_family}
use family_ledger.Family.{insert_audit, log_audit}

-- What holds of some tables holds whatever is in their audit log.
abbrev pub IgnoresLog : (Store → Type 0) → Type 0
IgnoresLog P = (s : Store) (l : List AuditLog) → P s → P (record s { audit_logs = l })

insert_audit-log :
    {P : Store → Type 0} (f u : ℕ) (action : String) (s : Store)
    → IgnoresLog P
    → P s
    → PostOutcome (λ _. P) (insert_audit f u action s)
unfolding insert_audit
insert_audit-log f u action s h p = elim (Option-cases (find_family f s.families)) [
  | inl missing ↦ rw (missing, insert_audit) tt
  | inr (x, found) ↦
      ground (
        arith,
        found,
        h s (record { family_id = f; user_id = u; action = action } ∷ s.audit_logs) p,
      )
]

pub log_audit-Triple :
    (ids : Uuid) (family_id user_id action entity_id : String) {P E : Store → Type 0}
    → IgnoresLog P
    → Triple P (log_audit ids family_id user_id action entity_id) (λ _. P) E
unfolding log_audit
log_audit-Triple ids family_id user_id action entity_id h =
    if-Triple (is_empty family_id) (λ _. pure-Triple tt (λ s p. p))
      (λ _. ignore_error-Triple tt (
        bind-Triple (or_raise-Triple (λ s p. p) _ _) λ fam_uid.
          bind-Triple (or_raise-Triple (λ s p. p.0) _ _) λ user_uid.
            bind-Triple (or_raise-Triple (λ s p. p.0.0) _ _) λ entity_uid.
              statement-Triple (insert_audit fam_uid user_uid action) _ _
                (λ s p. insert_audit-log fam_uid user_uid action s h p.0.0.0) (λ s p. p.0.0.0)))
