-- ===== src/Family/Owning.antt =====
-- Handing a family over, and deleting it (server/internal/family/service.go).
use Prim.Native.String.{String}
use family_ledger.Base.{
  ⊤, ℕ, Bool, false, ◌||◌, ◌&&◌, Option, none, some, List, [], ◌∷◌, ◌==◌, if◌then◌else◌,
}
use family_ledger.Db.{
  M, Outcome, violates, internal, no_match, done, invalid_argument, not_found, ◌>>=◌, ◌>>◌,
  statement, exec, raise_if, or_raise, atomically, ignore_error,
}
use family_ledger.Store.{
  is_empty, Uuid, owner, admin, Account, Transfer, AuditLog, Transaction, Entity, Store,
  update_member, delete_members_of, update_family, delete_family_row, get_user_id,
}
use family_ledger.Family.{require_role, log_audit, owner_permissions}
use family_ledger.Family.Joining.{is_joined}
use family_ledger.Family.Roles.{set_role_row}

-- `UPDATE family_members SET role = 'owner', permissions = $1 …`
unfoldable pub promote_row : ℕ → ℕ → Store → Store
promote_row f u s = record s {
  members =
      update_member f u (λ m. record m { role = owner; permissions = some owner_permissions })
        s.members;
}

-- `UPDATE families SET owner_id = $1 WHERE id = $2`
unfoldable pub set_owner_row : ℕ → ℕ → Store → Store
set_owner_row f u s = record s {
  families = update_family f (λ f. record f { owner_id = u }) s.families;
}

-- The new owner is a member; if not, or if the query fails, the answer is NotFound.
unfoldable pub joined_row : ℕ → ℕ → Store → Outcome Store ⊤
joined_row f u s = if is_joined f u s then done tt s else no_match

-- what `TransferOwnership` does in its transaction
unfoldable pub hand_over : ℕ → ℕ → ℕ → M Store ⊤
hand_over fid caller_uid new_owner_uid = do
  statement (joined_row fid new_owner_uid) not_found not_found
  exec (set_role_row fid caller_uid admin)
  exec (promote_row fid new_owner_uid)
  exec (set_owner_row fid new_owner_uid)

-- `callerUID, _ := uuid.Parse(callerID)`: the zero id where the text is no id
abbrev pub parsed_or_zero : Option ℕ → ℕ
parsed_or_zero none = 0
parsed_or_zero (some u) = u

-- `TransferOwnership`
unfoldable pub transfer_ownership : Uuid → Option String → String → String → M Store ⊤
transfer_ownership ids ctx family_id new_owner_id = do
  caller_id ← get_user_id ctx
  raise_if (is_empty family_id || is_empty new_owner_id) invalid_argument
  fid ← or_raise (ids.parse family_id) invalid_argument
  new_owner_uid ← or_raise (ids.parse new_owner_id) invalid_argument
  require_role ids fid caller_id (owner ∷ [])
  atomically (hand_over fid (parsed_or_zero (ids.parse caller_id)) new_owner_uid)
  log_audit ids family_id caller_id "transfer_ownership" family_id

-- `id IN (SELECT id FROM accounts WHERE family_id = $1)`
abbrev pub is_in_family : ℕ → Option ℕ → Bool
is_in_family f none = false
is_in_family f (some g) = g == f

pub is_family_account : ℕ → ℕ → List Account → Bool
is_family_account f i [] = false
is_family_account f i (a ∷ l) =
    ((a.id == i) && is_in_family f a.family_id) || is_family_account f i l

pub delete_transfers : ℕ → List Account → List Transfer → List Transfer
delete_transfers f accounts [] = []
delete_transfers f accounts (t ∷ l) =
    let rest = delete_transfers f accounts l in
    if is_family_account f t.from_account_id accounts
      || is_family_account f t.to_account_id accounts
    then rest
    else t ∷ rest

pub delete_transactions : ℕ → List Account → List Transaction → List Transaction
delete_transactions f accounts [] = []
delete_transactions f accounts (t ∷ l) =
    record t { deleted = t.deleted || is_family_account f t.account_id accounts }
    ∷ delete_transactions f accounts l

unfoldable pub delete_accounts : ℕ → List Account → List Account
delete_accounts f [] = []
delete_accounts f (a ∷ l) =
    record a { deleted = a.deleted || is_in_family f a.family_id } ∷ delete_accounts f l

-- `DELETE FROM budgets WHERE family_id = $1`
pub delete_entities : ℕ → List Entity → List Entity
delete_entities f [] = []
delete_entities f (e ∷ l) =
    let rest = delete_entities f l in if is_in_family f e.family_id then rest else e ∷ rest

-- `UPDATE loans SET deleted_at = NOW() WHERE family_id = $1 AND deleted_at IS NULL`, and its like
pub soft_delete_entities : ℕ → List Entity → List Entity
soft_delete_entities f [] = []
soft_delete_entities f (e ∷ l) =
    record e { deleted = e.deleted || is_in_family f e.family_id } ∷ soft_delete_entities f l

pub delete_audit_logs : ℕ → List AuditLog → List AuditLog
delete_audit_logs f [] = []
delete_audit_logs f (a ∷ l) =
    let rest = delete_audit_logs f l in if a.family_id == f then rest else a ∷ rest

pub has_family_entity : ℕ → List Entity → Bool
has_family_entity f [] = false
has_family_entity f (e ∷ l) = is_in_family f e.family_id || has_family_entity f l

unfoldable pub has_family_account : ℕ → List Account → Bool
has_family_account f [] = false
has_family_account f (a ∷ l) = is_in_family f a.family_id || has_family_account f l

pub has_family_transaction : ℕ → List Transaction → Bool
has_family_transaction f [] = false
has_family_transaction f (t ∷ l) = is_in_family f t.family_id || has_family_transaction f l

pub has_family_log : ℕ → List AuditLog → Bool
has_family_log f [] = false
has_family_log f (a ∷ l) = (a.family_id == f) || has_family_log f l

-- Whether a row refers to the family by a foreign key that does not cascade. Of the tables with
-- such a key, a row counts also when its `deleted_at` is set.
abbrev pub is_referenced : ℕ → Store → Bool
is_referenced f s =
    has_family_account f s.accounts
    || (has_family_transaction f s.transactions
        || (has_family_entity f s.budgets
            || (has_family_entity f s.loans
                || (has_family_entity f s.investments
                    || (has_family_entity f s.fixed_assets
                        || (has_family_entity f s.loan_groups
                            || (has_family_entity f s.custom_reminders
                                || has_family_log f s.audit_logs)))))))

-- `DELETE FROM families WHERE id = $1`; the rows of `family_members` go with it.
unfoldable pub drop_family : ℕ → Store → Outcome Store ⊤
drop_family f s =
    if is_referenced f s
    then violates
    else done tt (record s {
      families = delete_family_row f s.families;
      members = delete_members_of f s.members;
    })

-- what `DeleteFamily` does in its transaction
unfoldable pub delete_rows : ℕ → M Store ⊤
delete_rows fid = do
  exec (λ (s : Store). record s { transfers = delete_transfers fid s.accounts s.transfers })
  exec
      (λ (s : Store). record s { transactions = delete_transactions fid s.accounts s.transactions })
  exec (λ (s : Store). record s { accounts = delete_accounts fid s.accounts })
  exec (λ (s : Store). record s { budgets = delete_entities fid s.budgets })
  exec (λ (s : Store). record s { loans = soft_delete_entities fid s.loans })
  exec (λ (s : Store). record s { investments = soft_delete_entities fid s.investments })
  exec (λ (s : Store). record s { fixed_assets = soft_delete_entities fid s.fixed_assets })
  ignore_error tt
      (exec (λ (s : Store). record s { audit_logs = delete_audit_logs fid s.audit_logs }))
  exec (λ (s : Store). record s { members = delete_members_of fid s.members })
  statement (drop_family fid) internal internal

-- `DeleteFamily`
unfoldable pub delete_family : Uuid → Option String → String → M Store ⊤
delete_family ids ctx family_id = do
  caller_id ← get_user_id ctx
  raise_if (is_empty family_id) invalid_argument
  fid ← or_raise (ids.parse family_id) invalid_argument
  require_role ids fid caller_id (owner ∷ [])
  atomically (delete_rows fid)
