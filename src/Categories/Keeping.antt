-- ===== src/Categories/Keeping.antt =====
-- The operations on categories (server/internal/transaction/service.go) keep the tree of two levels.
use Prim.Native.String.{String}
use family_ledger.Base.{
  ◌∙◌, sym, some_inj, ℕ, ◌≡◌, refl, false, Option, none, some, List, [], ◌∷◌, arith,
}
use family_ledger.Base.Int.{ℤ}
use family_ledger.Db.{M, done}
use family_ledger.Db.Triple.{
  Triple, pure-Triple, bind-Triple, then-Triple, raise_if-Triple, or_raise-Triple, read-Triple,
  peek-Triple, if-Triple, weaken-Triple, strengthen-Triple, done-Triple, exec-Triple,
  atomically-Triple,
}
use family_ledger.Store.{Uuid, Category, Store}
use family_ledger.Store.Context.{get_user_id-Triple}
use family_ledger.Transaction.{find_category, find_live_category}
use family_ledger.Categories.{
  is_empty, CreateCategoryRequest, parent_asked, is_set, insert_category, insert_new,
  create_category, if_live_id, set_names, rename_category, update_category, delete_category,
  set_order, reorder_one, reorder_all, reorder_in_tx, reorder_categories, each_category,
}
use family_ledger.Categories.Tree.{IsRoot, IsTree, map-IsTree, delete-IsTree, insert-IsTree}

abbrev pub Tree : Store → Type 0
Tree s = IsTree s.categories

-- A handler that leaves a tree where it finds one.
abbrev pub Keeps : {A : Type 0} → M Store A → Type 0
Keeps m = Triple Tree m (λ _. Tree) Tree

-- The parent that was asked for is a root.
abbrev Below : Option ℕ → Store → Type 0
Below parent s = (p : ℕ) → parent ≡ some p → IsRoot p s.categories

no_parent : (o : Option ℕ) → is_set o ≡ false → o ≡ none
no_parent none e = refl
no_parent (some p) e = absurd (ground arith)

live_row :
    (p : ℕ) (s : Store) (d : Category)
    → find_live_category p s ≡ some d
    → (find_category p s.categories ≡ some d) × (d.deleted ≡ false)
unfolding find_live_category
live_row p s d e = ground arith

live-IsRoot :
    (p : ℕ) (s : Store) (d : Category)
    → find_live_category p s ≡ some d
    → is_set d.parent_id ≡ false
    → IsRoot p s.categories
live-IsRoot p s d e n =
    let (found, live) = live_row p s d e in (d, found, live, no_parent d.parent_id n)

parent_asked-Triple :
    (ids : Uuid) (parent_id : String)
    → Triple Tree (parent_asked ids parent_id) (λ parent s. Tree s × Below parent s) Tree
unfolding parent_asked
parent_asked-Triple ids parent_id =
    if-Triple (is_empty parent_id) (λ _. pure-Triple none (λ s h. (h, λ p e. absurd (none_some e))))
      (λ _. bind-Triple (or_raise-Triple (λ s h. h) _ _) λ pid.
        bind-Triple (read-Triple (λ s p. p.0) _ _ _) λ parent.
          then-Triple (raise_if-Triple (λ s p. p.0.0) _ _) λ _.
            pure-Triple (some pid)
              λ s p. (p.0.0.0, λ q e. rw (some_inj e) at (live-IsRoot pid s parent p.0.1 p.1)))
  where
    none_some : {q : ℕ} → none ≡ some q → ⊥
    none_some e = cc

insert_category-done :
    (c c' : Category) (s s' : Store)
    → insert_category c s ≡ done c' s'
    → (find_category c.id s.categories ≡ none) × (s' ≡ record s { categories = c ∷ s.categories })
unfolding insert_category
insert_category-done c c' s s' e = ground arith

insert_new-Triple :
    (ids : Uuid) (user_id : String) (row : ℕ → Category) (there : Option Category)
    (parent : Option ℕ)
    → ((u : ℕ) → (row u).parent_id ≡ parent)
    → Triple (λ s. Tree s × Below parent s) (insert_new ids user_id row there) (λ _. Tree) Tree
insert_new-Triple ids user_id row (some there) parent same = pure-Triple _ (λ s p. p.0)
insert_new-Triple ids user_id row none parent same =
    bind-Triple (or_raise-Triple (λ s p. p.0) _ _) λ uid.
      weaken-Triple (done-Triple (λ s p. p.0.0) _ _ _) λ c' s' p.
        let (s, ((tree, below), _), e) = p in
        let (fresh, e') = insert_category-done (row uid) c' s s' e in
        rw e'
          (insert-IsTree (row uid) s.categories fresh (λ q k. below q (sym (same uid) ∙ k)) tree)

pub create_category-Keeps :
    (ids : Uuid) (sha1 : String → ℕ) (ctx : Option String) (req : CreateCategoryRequest)
    → Keeps (create_category ids sha1 ctx req)
unfolding create_category
create_category-Keeps ids sha1 ctx req = bind-Triple (get_user_id-Triple ctx (λ s h. h)) λ user_id.
    then-Triple (raise_if-Triple (λ s p. p.0) _ _) λ _.
      then-Triple (raise_if-Triple (λ s p. p.0.0) _ _) λ _.
        then-Triple (raise_if-Triple (λ s p. p.0.0.0) _ _) λ _.
          strengthen-Triple {P' = Tree} (λ s p. p.0.0.0.0)
            (bind-Triple (parent_asked-Triple ids req.parent_id) λ parent.
              bind-Triple (peek-Triple none _ _ _) λ top.
                bind-Triple (peek-Triple none _ _ _)
                  λ there. insert_new-Triple ids user_id _ there parent (λ u. refl))

rename_category-done :
    (i : ℕ) (name icon_key : Option String) (s s' : Store) (c : Category)
    → rename_category i name icon_key s ≡ done c s'
    → s' ≡ record s {
      categories = each_category (if_live_id i (set_names name icon_key)) s.categories;
    }
unfolding rename_category
rename_category-done i name icon_key s s' c e = ground arith

set_names-same :
    (n k : Option String) (c : Category)
    → ((set_names n k c).id ≡ c.id)
      × ((set_names n k c).parent_id ≡ c.parent_id)
      × ((set_names n k c).deleted ≡ c.deleted)
set_names-same none none c = (refl, refl, refl)
set_names-same (some n) none c = (refl, refl, refl)
set_names-same none (some k) c = (refl, refl, refl)
set_names-same (some n) (some k) c = (refl, refl, refl)

-- A change of live rows with one id that leaves ids, parents and deletions alone leaves a tree.
if_live-IsTree :
    (i : ℕ) (f : Category → Category)
    → ((c : Category)
        → ((f c).id ≡ c.id) × ((f c).parent_id ≡ c.parent_id) × ((f c).deleted ≡ c.deleted))
    → (l : List Category) → IsTree l
    → IsTree (each_category (if_live_id i f) l)
if_live-IsTree i f same l tree =
    map-IsTree (if_live_id i f) (λ c. ground (arith, same c)) (λ c. ground (arith, same c))
      (λ c. ground (arith, same c)) l tree

pub update_category-Keeps :
    (ids : Uuid) (ctx : Option String) (category_id : String) (name icon_key : Option String)
    → Keeps (update_category ids ctx category_id name icon_key)
unfolding update_category
update_category-Keeps ids ctx category_id name icon_key =
    bind-Triple (get_user_id-Triple ctx (λ s h. h)) λ user_id.
      bind-Triple (or_raise-Triple (λ s p. p.0) _ _) λ cat_id.
        then-Triple (raise_if-Triple (λ s p. p.0.0) _ _) λ _.
          weaken-Triple (done-Triple (λ s p. p.0.0.0) _ _ _) λ c s' p.
            let (s, q, e) = p in
            rw (rename_category-done cat_id name icon_key s s' c e) (
              if_live-IsTree cat_id (set_names name icon_key) (set_names-same name icon_key)
                s.categories q.0.0.0)

pub delete_category-Keeps :
    (ids : Uuid) (ctx : Option String) (category_id : String)
    → Keeps (delete_category ids ctx category_id)
unfolding delete_category
delete_category-Keeps ids ctx category_id =
    bind-Triple (get_user_id-Triple ctx (λ s h. h)) λ user_id.
      bind-Triple (or_raise-Triple (λ s p. p.0) _ _) λ cat_id.
        bind-Triple (read-Triple (λ s p. p.0.0) _ _ _) λ c.
          then-Triple (raise_if-Triple (λ s p. p.0.0.0) _ _) λ _.
            exec-Triple (λ s p. p.0.0.0.0) _ (λ _. Tree)
              (λ s p. delete-IsTree cat_id s.categories p.0.0.0.0)

reorder_one-Keeps : (o : Option ℕ) (x : ℤ) → Keeps (reorder_one o x)
reorder_one-Keeps none x = pure-Triple tt (λ s h. h)
reorder_one-Keeps (some i) x =
    exec-Triple (λ s h. h) _ (λ _. Tree)
      (λ s h. if_live-IsTree i (set_order x) (λ c. (refl, refl, refl)) s.categories h)

reorder_all-Keeps : (ids : Uuid) (l : List (String × ℤ)) → Keeps (reorder_all ids l)
unfolding reorder_all
reorder_all-Keeps ids [] = pure-Triple tt (λ s h. h)
reorder_all-Keeps ids ((category_id, x) ∷ l) =
    then-Triple (reorder_one-Keeps (ids.parse category_id) x) λ _. reorder_all-Keeps ids l

pub reorder_categories-Keeps :
    (ids : Uuid) (ctx : Option String) (orders : List (String × ℤ))
    → Keeps (reorder_categories ids ctx orders)
unfolding reorder_categories
reorder_categories-Keeps ids ctx orders =
    bind-Triple (get_user_id-Triple ctx (λ s h. h))
      λ user_id. strengthen-Triple (λ s p. p.0) (within orders)
  where
    within : (orders : List (String × ℤ)) → Keeps (reorder_in_tx ids orders)
    within [] = pure-Triple tt (λ s h. h)
    within (o ∷ l) = atomically-Triple (λ s h. h) (reorder_all-Keeps ids (o ∷ l))
