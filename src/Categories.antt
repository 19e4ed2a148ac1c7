-- ===== src/Categories.antt =====
-- The categories of transactions: CreateCategory, UpdateCategory, DeleteCategory and
-- ReorderCategories of server/internal/transaction/service.go, and server/pkg/category/uuid.go.
pub mod Tree
pub mod Keeping
pub mod Requests
pub mod Merging
pub mod Moving
pub mod Budgeting
pub mod Owned
pub mod Merged
pub mod Examples
use Prim.Native.String.{String, ◌++◌, count}
use family_ledger.Base.{
  ⊤, ℕ, Bool, true, false, not, ◌&&◌, ◌||◌, Option, none, some, List, [], ◌∷◌, ◌==◌, ltb,
  if◌then◌else◌,
}
use family_ledger.Base.Int.{ℤ, pos, leb_ℤ}
use family_ledger.Base.Int64.{◌+32◌}
use family_ledger.Db.{
  M, Outcome, violates, no_match, done, internal, invalid_argument, not_found, permission_denied,
  pure, ◌>>=◌, ◌>>◌, statement, read, exec, raise_if, or_raise, atomically, ignore_error,
}
use family_ledger.Store.{
  is_empty, Uuid, TransactionKind, income, expense, Category, Store, get_user_id,
}
use family_ledger.Transaction.{
  TransactionType, type_unspecified, type_income, type_expense, same_kind, find_category,
  find_live_category,
}

abbrev pub kind_text : TransactionKind → String
kind_text income = "income"
kind_text expense = "expense"

-- `category.UUID`; `sha1` is `uuid.NewSHA1` of the namespace and a text.
unfoldable pub category_uuid : (String → ℕ) → String → String → String → ℕ
category_uuid sha1 owner_id category_type name =
    sha1 (owner_id ++ (":" ++ (category_type ++ (":" ++ name))))

pub record CreateCategoryRequest : Type 0 where
  pub name : String
  pub icon_key : String
  pub type : TransactionType
  pub parent_id : String
  pub family_id : String

abbrev pub is_unspecified : TransactionType → Bool
is_unspecified type_unspecified = true
is_unspecified _ = false

abbrev pub cat_type : TransactionType → TransactionKind
cat_type type_income = income
cat_type _ = expense

abbrev pub is_set : Option ℕ → Bool
is_set none = false
is_set (some p) = true

-- The parent that is asked for: a live category without a parent of its own.
unfoldable pub parent_asked : Uuid → String → M Store (Option ℕ)
parent_asked ids parent_id = if is_empty parent_id then pure none else do
  pid ← or_raise (ids.parse parent_id) invalid_argument
  parent ← statement (read (find_live_category pid)) not_found not_found
  raise_if (is_set parent.parent_id) invalid_argument
  pure (some pid)

abbrev pub same_parent : Option ℕ → Option ℕ → Bool
same_parent none none = true
same_parent (some p) (some q) = p == q
same_parent _ _ = false

-- Whether a row counts for the next `sort_order`: for a main category, its type too.
abbrev pub is_sibling : Option ℕ → TransactionKind → Category → Bool
is_sibling parent k c =
    not c.deleted && (same_parent c.parent_id parent && (is_set parent || same_kind c.kind k))

abbrev pub greater : ℤ → Option ℤ → ℤ
greater x none = x
greater x (some y) = if leb_ℤ x y then y else x

-- `MAX(sort_order)`
unfoldable pub max_sort : Option ℕ → TransactionKind → List Category → Option ℤ
max_sort parent k [] = none
max_sort parent k (c ∷ l) =
    let rest = max_sort parent k l in
    if is_sibling parent k c then some (greater c.sort_order rest) else rest

abbrev pub or_zero : Option ℤ → ℤ
or_zero none = pos 0
or_zero (some x) = x

abbrev pub uuid_input : Uuid → Option ℕ → String → String
uuid_input ids none name = name
uuid_input ids (some p) name = ids.text p ++ (":" ++ name)

-- `INSERT INTO categories …`: the id is the primary key, also among the deleted; `name` is a
-- VARCHAR(100) and `icon_key` a VARCHAR(50).
unfoldable pub insert_category : Category → Store → Outcome Store Category
insert_category c s = elim (find_category c.id s.categories) [
  | some _ ↦ violates
  | none ↦
      if ltb 100 (count c.name) || ltb 50 (count c.icon_key)
      then violates
      else done c (record s { categories = c ∷ s.categories })
]

-- For a category that is there no row is inserted; the answer has its name, and what was asked for
-- otherwise, without an order and a user.
abbrev pub insert_new : Uuid → String → (ℕ → Category) → Option Category → M Store Category
insert_new ids user_id row (some there) =
    pure (record (row 0) { name = there.name; sort_order = pos 0; user_id = none })
insert_new ids user_id row none = do
  uid ← or_raise (ids.parse user_id) internal
  statement (insert_category (row uid)) internal internal

-- `CreateCategory`
unfoldable pub create_category :
    Uuid → (String → ℕ) → Option String → CreateCategoryRequest → M Store Category
create_category ids sha1 ctx req = do
  user_id ← get_user_id ctx
  raise_if (is_empty req.name) invalid_argument
  raise_if (is_empty req.icon_key) invalid_argument
  raise_if (is_unspecified req.type) invalid_argument
  parent ← parent_asked ids req.parent_id
  top ← ignore_error none (
      statement (λ (s : Store). done (max_sort parent (cat_type req.type) s.categories) s) internal
        internal)
  let owner_id = if is_empty req.family_id then user_id else req.family_id
  let new_id =
      category_uuid sha1 owner_id (kind_text (cat_type req.type)) (uuid_input ids parent req.name)
  there ←
      ignore_error none (statement (λ s. done (find_live_category new_id s) s) internal internal)
  insert_new ids user_id
      (λ uid. record {
        id = new_id;
        name = req.name;
        icon_key = req.icon_key;
        kind = cat_type req.type;
        is_preset = false;
        sort_order = or_zero top +32 pos 1;
        parent_id = parent;
        user_id = some uid;
        deleted = false;
      })
      there

unfoldable pub each_category : (Category → Category) → List Category → List Category
each_category f [] = []
each_category f (c ∷ l) = f c ∷ each_category f l

-- `UPDATE categories … WHERE id = $1 AND deleted_at IS NULL`
abbrev pub if_live_id : ℕ → (Category → Category) → Category → Category
if_live_id i f c = if (c.id == i) && not c.deleted then f c else c

abbrev pub set_names : Option String → Option String → Category → Category
set_names none none c = c
set_names (some n) none c = record c { name = n }
set_names none (some k) c = record c { icon_key = k }
set_names (some n) (some k) c = record c { name = n; icon_key = k }

unfoldable pub rename_category : ℕ → Option String → Option String → Store → Outcome Store Category
rename_category i name icon_key s = elim (find_live_category i s) [
  | none ↦ no_match
  | some c ↦
      let c' = set_names name icon_key c in
      if ltb 100 (count c'.name) || ltb 50 (count c'.icon_key)
      then violates
      else done c' (record s {
        categories = each_category (if_live_id i (set_names name icon_key)) s.categories;
      })
]

abbrev pub nothing_to_set : Option String → Option String → Bool
nothing_to_set none none = true
nothing_to_set _ _ = false

-- `UpdateCategory`
unfoldable pub update_category :
    Uuid → Option String → String → Option String → Option String → M Store Category
update_category ids ctx category_id name icon_key = do
  user_id ← get_user_id ctx
  cat_id ← or_raise (ids.parse category_id) invalid_argument
  raise_if (nothing_to_set name icon_key) invalid_argument
  statement (rename_category cat_id name icon_key) not_found not_found

-- `UPDATE categories SET deleted_at = NOW() WHERE (id = $1 OR parent_id = $1) AND deleted_at IS NULL`
abbrev pub delete_with_children : ℕ → Category → Category
delete_with_children i c = record c {
  deleted = c.deleted || ((c.id == i) || same_parent c.parent_id (some i));
}

-- `DeleteCategory`
unfoldable pub delete_category : Uuid → Option String → String → M Store ⊤
delete_category ids ctx category_id = do
  user_id ← get_user_id ctx
  cat_id ← or_raise (ids.parse category_id) invalid_argument
  c ← statement (read (find_live_category cat_id)) not_found not_found
  raise_if c.is_preset permission_denied
  exec (λ (s : Store). record s {
    categories = each_category (delete_with_children cat_id) s.categories;
  })

abbrev pub set_order : ℤ → Category → Category
set_order x c = record c { sort_order = x }

abbrev pub reorder_one : Option ℕ → ℤ → M Store ⊤
reorder_one none x = pure tt
reorder_one (some i) x = exec (λ (s : Store). record s {
  categories = each_category (if_live_id i (set_order x)) s.categories;
})

-- the loop of `ReorderCategories`: an id that cannot be read is passed over.
unfoldable pub reorder_all : Uuid → List (String × ℤ) → M Store ⊤
reorder_all ids [] = pure tt
reorder_all ids ((category_id, x) ∷ l) = do reorder_one (ids.parse category_id) x; reorder_all ids l

abbrev pub reorder_in_tx : Uuid → List (String × ℤ) → M Store ⊤
reorder_in_tx ids [] = pure tt
reorder_in_tx ids (o ∷ l) = atomically (reorder_all ids (o ∷ l))

-- `ReorderCategories`
unfoldable pub reorder_categories : Uuid → Option String → List (String × ℤ) → M Store ⊤
reorder_categories ids ctx orders = do user_id ← get_user_id ctx; reorder_in_tx ids orders
