-- ===== src/Categories/Examples.antt =====
-- Categories on a small database.
use Prim.Native.String.{String}
use family_ledger.Base.{ℕ, ◌≡◌, refl, false, Option, none, some, [], ◌∷◌, arith}
use family_ledger.Base.Int.{pos, ◌+ℤ◌}
use family_ledger.Base.Int64.{◌+32◌, wrap32}
use family_ledger.Db.{
  or_raise, raise_if, exec, ◌>>◌, ◌>>=◌, ignore_error, atomically, statement, pure, query,
  with_code, atomically_with, raise, ok, err, internal, idle, World,
}
use family_ledger.Db.Triple.{Post}
use family_ledger.Store.{get_user_id, expense, Category, Store}
use family_ledger.Account.Examples.{ids, strokes, tables}
use family_ledger.Transaction.{
  find_live_category, has_client_id, sync_client_id, insert_sync_operation, type_expense,
  find_category,
}
use family_ledger.Transaction.SmallBooks.{lunch_row}
use family_ledger.Categories.{
  category_uuid, each_category, insert_category, parent_asked, CreateCategoryRequest,
  create_category, delete_category, max_sort,
}
use family_ledger.Categories.Merging.{
  merge_in_tx, merge_rows, drop_budgets, remap_budgets, has_budget, count_uses, remap_transactions,
  find_owned, merge_categories,
}
use family_ledger.Categories.Tree.{IsTree}
use family_ledger.Categories.Requests.{
  create, delete, serve, Reachable, start, request, Reachable-IsTree,
}
use family_ledger.Categories.Merged.{IsMerged, merge_categories-IsMerged}

abbrev own : ℕ → String → Option ℕ → Category
own i name parent = record {
  id = i;
  name = name;
  icon_key = "food";
  kind = expense;
  is_preset = false;
  sort_order = pos 1;
  parent_id = parent;
  user_id = some 0;
  deleted = false;
}

-- Category 4 of user 0 has the child 6; category 5 has none.
abbrev shelves : Store
shelves = record tables {
  categories = own 4 "food" none ∷ own 5 "meals" none ∷ own 6 "tea" (some 4) ∷ [];
  transactions = record lunch_row { category_id = 4 } ∷ [];
  category_budgets = record { budget_id = 1; category_id = 4; amount = pos 9 } ∷ [];
}

abbrev on : Store → World Store
on s = record { store = s; session = idle; faults = [] }

-- Every text gets the same id.
abbrev sha1 : String → ℕ
sha1 s = 7

abbrev snacks : CreateCategoryRequest
snacks = record {
  name = "snacks";
  icon_key = "food";
  type = type_expense;
  parent_id = strokes 4;
  family_id = "";
}

methods : Unit {0}
unfolding create_category parent_asked max_sort insert_category each_category delete_category
    category_uuid find_owned remap_transactions count_uses has_budget remap_budgets drop_budgets
    merge_rows merge_in_tx merge_categories find_live_category find_category insert_sync_operation
    sync_client_id has_client_id pure raise statement atomically_with atomically ignore_error
    with_code ◌>>=◌ ◌>>◌ query exec raise_if or_raise get_user_id serve ◌+32◌ ◌+ℤ◌ wrap32
methods = tt

merges : (merge_categories ids (some "1") 1 (strokes 4) (strokes 5) (on shelves)).0 ≡ ok 1
unfolding methods
merges = refl

-- A category that is merged into its own child: the child becomes its own parent.
merges_into_child :
    find_category 6
      (merge_categories ids (some "1") 1 (strokes 4) (strokes 6) (on shelves)).1.store.categories
    ≡ some (own 6 "tea" (some 6))
unfolding methods
merges_into_child = refl

-- A category that was deleted is not created again: its row still has the id.
deleted_for_good :
    (create_category ids sha1 (some "1") snacks (
      on (
        serve ids sha1
          (some "1")
          (delete (strokes 7))
          (on (serve ids sha1 (some "1") (create snacks) (on shelves)))))).0
    ≡ err internal
unfolding methods
deleted_for_good = refl

merge_categories-IsMerged_example :
    Post
      (IsMerged ids (some "1") 1 (strokes 4) (strokes 5) shelves)
      (λ s. s ≡ shelves)
      (merge_categories ids (some "1") 1 (strokes 4) (strokes 5) (on shelves)).0
      (merge_categories ids (some "1") 1 (strokes 4) (strokes 5) (on shelves)).1.store
merge_categories-IsMerged_example =
    merge_categories-IsMerged ids (some "1") 1 (strokes 4) (strokes 5) (on shelves)

abbrev bare : Store
bare = record shelves { categories = own 4 "food" none ∷ [] }

bare-IsTree : IsTree bare.categories
unfolding find_category
bare-IsTree i c found live p parent = absurd (ground (arith, found, parent))

abbrev after_both : Store
after_both =
    serve ids sha1 (some "1") (delete (strokes 4))
      (on (serve ids sha1 (some "1") (create snacks) (on bare)))

two_requests : Reachable ids sha1 after_both
two_requests =
    request _ (some "1") (delete (strokes 4)) []
      (request _ (some "1") (create snacks) [] (start bare bare-IsTree))

Reachable-IsTree_example : IsTree after_both.categories
Reachable-IsTree_example = Reachable-IsTree ids sha1 after_both two_requests
