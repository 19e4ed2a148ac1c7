-- ===== src/Transaction/Create.antt =====
-- CreateTransaction: server/internal/transaction/service.go, create_pipeline.go, pipeline.go and
-- pipeline_stages.go.
use family_ledger.Transaction.Input.{validate_create_input, CreateTransactionRequest}
use Prim.Native.String.{String, ◌++◌}
use family_ledger.Base.{
  ⊤, ℕ, zero, suc, Bool, true, false, not, ◌&&◌, Option, none, some, List, [], ◌∷◌, ◌==◌,
  if◌then◌else◌,
}
use text.Mathlib.Text.{◌==◌ as str_eq}
use family_ledger.Base.Int.{pos, ltb_ℤ, leb_ℤ}
use family_ledger.Db.{
  M, Outcome, violates, done, internal, invalid_argument, not_found, permission_denied,
  failed_precondition, unknown, pure, raise, ◌>>=◌, ◌>>◌, statement, read, query, exec, raise_if,
  atomically_with, with_code, ignore_error,
}
use family_ledger.Store.{
  is_empty, Uuid, TransactionKind, income, expense, Transaction, Category, op_create, Account,
  Store, find_account, get_user_id,
}
use family_ledger.Permission.{check, can_create}
use family_ledger.Account.{family_text, find_live, credit}
use family_ledger.Family.{log_audit}
use family_ledger.Transaction.{
  Drawn, same_kind, insert_transaction_sync_op, delta_of, find_transaction_row, find_category,
  find_live_category, is_long,
}

-- `checkAccountPermission`, the stage `permission`
unfoldable pub check_account_permission : Uuid → ℕ → ℕ → M Store ⊤
check_account_permission ids uid account_id = do
  a ← query (find_live account_id) not_found
  if is_empty (family_text ids a.family_id)
      then raise_if (not (a.user_id == uid)) permission_denied
      else check ids (ids.text uid) (family_text ids a.family_id) can_create

-- the check of a caller who does not own the account
abbrev pub check_not_owner : Uuid → ℕ → Option ℕ → M Store ⊤
check_not_owner ids uid none = raise permission_denied
check_not_owner ids uid (some f) = check ids (ids.text uid) (ids.text f) can_create

-- `verifyAccountInTx`, the stage `begin_tx` after `Begin`
unfoldable pub verify_account_in_tx : Uuid → ℕ → ℕ → M Store Account
verify_account_in_tx ids uid account_id = do
  a ← statement (read (find_live account_id)) not_found not_found
  if a.user_id == uid then pure tt else check_not_owner ids uid a.family_id
  pure a

-- `… WHERE type = $1 AND is_preset = true AND deleted_at IS NULL ORDER BY sort_order LIMIT 1`; the
-- first of several with the least `sort_order`
unfoldable pub better_category : Category → Option Category → Category
better_category c none = c
better_category c (some d) = if leb_ℤ c.sort_order d.sort_order then c else d

unfoldable pub default_category : TransactionKind → List Category → Option Category
unfolding better_category
default_category k [] = none
default_category k (c ∷ l) =
    let rest = default_category k l in
    if same_kind c.kind k && (c.is_preset && not c.deleted)
    then some (better_category c rest)
    else rest

unfoldable pub take_text : ℕ → String → String
take_text zero s = String.[]
take_text (suc n) String.[] = String.[]
take_text (suc n) (String.◌∷◌ c s) = String.◌∷◌ c (take_text n s)

abbrev pub type_label : TransactionKind → String
type_label income = "收入"
type_label expense = "支出"

abbrev pub unless_there : Option Category → Category → List Category → List Category
unless_there none c l = c ∷ l
unless_there (some _) c l = l

-- `INSERT INTO categories … ON CONFLICT (id) DO NOTHING`
unfoldable pub add_category : Category → Store → Store
add_category c s = record s {
  categories = unless_there (find_category c.id s.categories) c s.categories;
}

unfoldable pub placeholder : Uuid → Transaction → Category
unfolding take_text
placeholder ids t = record {
  id = t.category_id;
  name = "未分类-" ++ type_label t.kind ++ "-" ++ take_text 8 (ids.text t.category_id);
  icon_key = "category";
  kind = t.kind;
  is_preset = false;
  sort_order = pos 0;
  parent_id = none;
  user_id = some t.user_id;
  deleted = false;
}

abbrev pub or_placeholder : Uuid → Transaction → Option ℕ → M Store ℕ
or_placeholder ids t (some c) = pure c
or_placeholder ids t none = do
  with_code invalid_argument (exec (add_category (placeholder ids t)))
  pure t.category_id

abbrev pub id_of : Option Category → Option ℕ
id_of none = none
id_of (some c) = some c.id

-- `resolveBatchCategory`
unfoldable pub resolve_batch_category : Uuid → Transaction → M Store ℕ
unfolding default_category add_category placeholder
resolve_batch_category ids t = do
  fallback ← ignore_error none (
      statement (λ (s : Store). done (id_of (default_category t.kind s.categories)) s) internal
        internal)
  or_placeholder ids t fallback

abbrev pub is_some : Option Category → Bool
is_some none = false
is_some (some c) = true

-- `verifyCategory`, the stage `category`
unfoldable pub verify_category : Uuid → Bool → Transaction → M Store ℕ
verify_category ids batch t = do
  cat_exists ←
      ignore_error false
        (statement (λ s. done (is_some (find_live_category t.category_id s)) s) internal internal)
  if cat_exists
      then pure t.category_id
      else if batch
      then resolve_batch_category ids t
      else raise invalid_argument

-- `checkOverdraft`
unfoldable pub check_overdraft : Transaction → String → M Store ⊤
check_overdraft t acct_type = if str_eq acct_type "credit_card" then pure tt else do
  a ← query (λ (s : Store). find_account t.account_id s.accounts) internal
  raise_if (ltb_ℤ a.balance t.amount_cny) failed_precondition

-- the stage `overdraft`, of which the balance delta is `delta_of`
abbrev pub overdraft_stage : Bool → Transaction → TransactionKind → String → M Store ⊤
overdraft_stage batch t income acct_type = pure tt
overdraft_stage batch t expense acct_type = if batch then pure tt else check_overdraft t acct_type

-- `INSERT INTO transactions …`: the id is the primary key, the account and the category are there,
-- the amount is positive, and the currency fits its column.
unfoldable pub insert_transaction : Transaction → Store → Outcome Store ⊤
insert_transaction t s = elim (find_transaction_row t.id s.transactions) [
  | some _ ↦ violates
  | none ↦ elim (find_account t.account_id s.accounts) [
    | none ↦ violates
    | some _ ↦ elim (find_category t.category_id s.categories) [
      | none ↦ violates
      | some _ ↦
          if ltb_ℤ (pos 0) t.amount && not (is_long t.currency)
          then done tt (record s { transactions = t ∷ s.transactions })
          else violates
    ]
  ]
]

-- the stages `persist` and `sync`
unfoldable pub persist : Uuid → Drawn → Transaction → M Store ⊤
persist ids drawn t = do
  statement (insert_transaction t) internal internal
  statement (credit t.account_id (delta_of t.kind t.amount_cny)) internal internal
  insert_transaction_sync_op ids drawn.sync_id t.user_id t.id op_create unknown

-- the stages from `begin_tx` on
unfoldable pub book : Uuid → Bool → Drawn → Transaction → M Store (Account × Transaction)
book ids batch drawn t = do
  a ← verify_account_in_tx ids t.user_id t.account_id
  category ← verify_category ids batch t
  overdraft_stage batch t t.kind a.kind
  persist ids drawn (record t { category_id = category })
  pure (a, record t { category_id = category })

-- `notifyPostCommit`, less the messages to other devices
abbrev pub notify_post_commit : Uuid → Option ℕ → Transaction → M Store ⊤
notify_post_commit ids none t = pure tt
notify_post_commit ids (some f) t =
    log_audit ids (ids.text f) (ids.text t.user_id) "create" (ids.text t.id)

-- `CreateTransaction`; `batch` is the mark of `BatchCreateTransactions` in the context.
unfoldable pub create_transaction :
    Uuid → Option String → Bool → Drawn → CreateTransactionRequest → M Store Transaction
create_transaction ids ctx batch drawn req = do
  user_id ← get_user_id ctx
  t ← validate_create_input ids drawn user_id req
  check_account_permission ids t.user_id t.account_id
  booked ← atomically_with unknown (book ids batch drawn t)
  notify_post_commit ids booked.0.family_id booked.1
  pure booked.1
