-- ===== src/Categories/Merging.antt =====
-- MergeCategories of server/internal/transaction/service.go.
use Prim.Native.String.{String}
use family_ledger.Base.{
  ℕ, suc, Bool, false, not, ◌&&◌, ◌||◌, Option, none, some, List, [], ◌∷◌, ◌==◌, if◌then◌else◌,
}
use text.Mathlib.Text.{◌==◌ as str_eq}
use family_ledger.Db.{
  M, done, internal, invalid_argument, not_found, permission_denied, pure, ◌>>=◌, ◌>>◌, statement,
  read, exec, raise_if, or_raise, atomically,
}
use family_ledger.Store.{Uuid, Transaction, Category, CategoryBudget, op_update, Store, get_user_id}
use family_ledger.Transaction.{same_kind, find_live_category, insert_sync_operation, sync_client_id}
use family_ledger.Categories.{same_parent, each_category}

abbrev pub with_owner : Option Category → Option (Category × ℕ)
with_owner none = none
with_owner (some c) = elim c.user_id [ none ↦ none | some u ↦ some (c, u) ]

-- `SELECT user_id, type FROM categories …`, scanned into texts: a preset category, which has no user,
-- is an error.
unfoldable pub find_owned : ℕ → Store → Option (Category × ℕ)
find_owned i s = with_owner (find_live_category i s)

-- The row is a live transaction of the user in the category.
abbrev pub is_use : ℕ → ℕ → Transaction → Bool
is_use uid category t = not t.deleted && ((t.user_id == uid) && (t.category_id == category))

unfoldable pub remap_transactions : ℕ → ℕ → ℕ → List Transaction → List Transaction
remap_transactions uid source target [] = []
remap_transactions uid source target (t ∷ l) =
    (if is_use uid source t then record t { category_id = target } else t)
    ∷ remap_transactions uid source target l

-- `RowsAffected`
unfoldable pub count_uses : ℕ → ℕ → List Transaction → ℕ
count_uses uid category [] = 0
count_uses uid category (t ∷ l) =
    let rest = count_uses uid category l in if is_use uid category t then suc rest else rest

abbrev pub reparent : ℕ → ℕ → Category → Category
reparent source target c =
    if not c.deleted && same_parent c.parent_id (some source)
    then record c { parent_id = some target }
    else c

unfoldable pub has_budget : ℕ → ℕ → List CategoryBudget → Bool
has_budget budget category [] = false
has_budget budget category (b ∷ l) =
    ((b.budget_id == budget) && (b.category_id == category)) || has_budget budget category l

-- `UPDATE category_budgets …`: a budget that has the target keeps its row of the source.
unfoldable pub remap_budgets :
    ℕ → ℕ → List CategoryBudget → List CategoryBudget → List CategoryBudget
remap_budgets source target all [] = []
remap_budgets source target all (b ∷ l) =
    (if (b.category_id == source) && not (has_budget b.budget_id target all)
      then record b { category_id = target }
      else b)
    ∷ remap_budgets source target all l

-- `DELETE FROM category_budgets WHERE category_id = $1`
unfoldable pub drop_budgets : ℕ → List CategoryBudget → List CategoryBudget
drop_budgets category [] = []
drop_budgets category (b ∷ l) =
    let rest = drop_budgets category l in if b.category_id == category then rest else b ∷ rest

abbrev pub delete_one : ℕ → Category → Category
delete_one i c = record c { deleted = c.deleted || (c.id == i) }

-- The writes of `MergeCategories`; the answer is the number of transactions.
unfoldable pub merge_rows : Uuid → ℕ → ℕ → ℕ → ℕ → M Store ℕ
merge_rows ids sync_id uid source target = do
  affected ←
      statement
        (λ (s : Store).
          done (count_uses uid source s.transactions)
            (record s { transactions = remap_transactions uid source target s.transactions }))
        internal internal
  exec
      (λ (s : Store). record s { categories = each_category (reparent source target) s.categories })
  exec (λ (s : Store). record s {
    category_budgets = remap_budgets source target s.category_budgets s.category_budgets;
  })
  exec (λ (s : Store). record s { category_budgets = drop_budgets source s.category_budgets })
  exec (λ (s : Store). record s { categories = each_category (delete_one source) s.categories })
  statement
      (insert_sync_operation (record {
        user_id = uid;
        entity_type = "category_merge";
        entity_id = source;
        op_type = op_update;
        client_id = sync_client_id ids "merge" sync_id;
      }))
      internal internal
  pure affected

-- what `MergeCategories` does in its transaction
unfoldable pub merge_in_tx : Uuid → ℕ → String → ℕ → ℕ → M Store ℕ
merge_in_tx ids sync_id user_id source target = do
  from ← statement (read (find_owned source)) not_found not_found
  to ← statement (read (find_owned target)) not_found not_found
  raise_if (not (str_eq (ids.text from.1) user_id) || not (str_eq (ids.text to.1) user_id))
      permission_denied
  raise_if (not (same_kind from.0.kind to.0.kind)) invalid_argument
  merge_rows ids sync_id from.1 source target

-- `MergeCategories`, less the messages to other devices
unfoldable pub merge_categories : Uuid → Option String → ℕ → String → String → M Store ℕ
merge_categories ids ctx sync_id source_id target_id = do
  user_id ← get_user_id ctx
  source ← or_raise (ids.parse source_id) invalid_argument
  target ← or_raise (ids.parse target_id) invalid_argument
  raise_if (source == target) invalid_argument
  atomically (merge_in_tx ids sync_id user_id source target)
