-- ===== src/Categories/Requests.antt =====
-- The operations on categories (server/internal/transaction/service.go) as a state machine.
use Prim.Native.String.{String}
use family_ledger.Base.{ℕ, ◌≡◌, Bool, Option, List}
use family_ledger.Base.Int.{ℤ}
use family_ledger.Db.{M, World, idle}
use family_ledger.Db.Triple.{Post-elim}
use family_ledger.Store.{Uuid, Store}
use family_ledger.Categories.{
  CreateCategoryRequest, create_category, update_category, delete_category, reorder_categories,
}
use family_ledger.Categories.Tree.{IsTree}
use family_ledger.Categories.Keeping.{
  Tree, Keeps, create_category-Keeps, update_category-Keeps, delete_category-Keeps,
  reorder_categories-Keeps,
}

-- The requests that change categories, except for merging.
pub data Request : Type 0 where
  create : CreateCategoryRequest → Request
  update : (category_id : String) (name icon_key : Option String) → Request
  delete : (category_id : String) → Request
  reorder : List (String × ℤ) → Request

-- The tables after a request of the user in the context.
unfoldable pub serve : Uuid → (String → ℕ) → Option String → Request → World Store → Store
serve ids sha1 ctx (create req) w = (create_category ids sha1 ctx req w).1.store
serve ids sha1 ctx (update category_id name icon_key) w =
    (update_category ids ctx category_id name icon_key w).1.store
serve ids sha1 ctx (delete category_id) w = (delete_category ids ctx category_id w).1.store
serve ids sha1 ctx (reorder orders) w = (reorder_categories ids ctx orders w).1.store

-- The tables that can come about: from tables without a category, or with main categories and
-- their children, by requests, and by whatever the other services do to the other tables.
pub data Reachable (ids : Uuid) (sha1 : String → ℕ) : Store → Type 0 where
  start : (s : Store) → IsTree s.categories → Reachable ids sha1 s
  request :
      (s : Store) (ctx : Option String) (req : Request) (faults : List Bool)
      → Reachable ids sha1 s
      → Reachable ids sha1
          (serve ids sha1 ctx req (record { store = s; session = idle; faults = faults }))
  elsewhere :
      (s s' : Store) → s'.categories ≡ s.categories → Reachable ids sha1 s → Reachable ids sha1 s'

kept :
    {A : Type 0} (m : M Store A) → Keeps m → (w : World Store) → Tree w.store → Tree (m w).1.store
kept m k w h = Post-elim (λ _. Tree) Tree (m w).0 (m w).1.store (λ a p. p) (λ p. p) (k.run w h)

serve-Tree :
    (ids : Uuid) (sha1 : String → ℕ) (ctx : Option String) (req : Request) (w : World Store)
    → Tree w.store
    → Tree (serve ids sha1 ctx req w)
unfolding serve
serve-Tree ids sha1 ctx (create req) w h =
    kept (create_category ids sha1 ctx req) (create_category-Keeps ids sha1 ctx req) w h
serve-Tree ids sha1 ctx (update category_id name icon_key) w h =
    kept (update_category ids ctx category_id name icon_key)
      (update_category-Keeps ids ctx category_id name icon_key) w h
serve-Tree ids sha1 ctx (delete category_id) w h =
    kept (delete_category ids ctx category_id) (delete_category-Keeps ids ctx category_id) w h
serve-Tree ids sha1 ctx (reorder orders) w h =
    kept (reorder_categories ids ctx orders) (reorder_categories-Keeps ids ctx orders) w h

-- In all tables that sequences of requests to create, change, delete and reorder categories bring
-- about from a tree of two levels, with any failures of the database, the parent of a category that
-- is not deleted is a category that is not deleted and has no parent.
pub Reachable-IsTree :
    (ids : Uuid) (sha1 : String → ℕ) (s : Store) → Reachable ids sha1 s → IsTree s.categories
Reachable-IsTree ids sha1 _ (start s h) = h
Reachable-IsTree ids sha1 _ (request s ctx req faults r) =
    serve-Tree ids sha1 ctx req (record { store = s; session = idle; faults = faults })
      (Reachable-IsTree ids sha1 s r)
Reachable-IsTree ids sha1 _ (elsewhere s s' e r) = rw e (Reachable-IsTree ids sha1 s r)
