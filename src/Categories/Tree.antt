-- ===== src/Categories/Tree.antt =====
-- Categories form a tree of two levels, and what changes of rows
-- (server/internal/transaction/service.go) do to it.
use family_ledger.Base.{
  ℕ, ◌≡◌, inl, inr, refl, sym, ap, ◌∙◌, true, false, Option, none, some, List, [], ◌∷◌, arith, ◌==◌,
  some_inj, Option-cases, Bool-cases,
}
use family_ledger.Store.{Category}
use family_ledger.Transaction.{find_category}
use family_ledger.Categories.{same_parent, each_category, delete_with_children}

-- A live category without a parent.
abbrev pub IsRoot : ℕ → List Category → Type 0
IsRoot p l =
    (d : Category) × (find_category p l ≡ some d) × (d.deleted ≡ false) × (d.parent_id ≡ none)

-- The parent of a live category is a live category without a parent.
abbrev pub IsTree : List Category → Type 0
IsTree l =
    (i : ℕ) (c : Category)
    → find_category i l ≡ some c
    → c.deleted ≡ false
    → (p : ℕ) → c.parent_id ≡ some p
    → IsRoot p l

pub find_category-id :
    (i : ℕ) (l : List Category) (c : Category) → find_category i l ≡ some c → c.id ≡ i
unfolding find_category
find_category-id i [] c e = cc
find_category-id i (d ∷ l) c e = ground (arith, find_category-id i l c)

abbrev map_found : (Category → Category) → Option Category → Option Category
map_found f none = none
map_found f (some c) = some (f c)

module _ (f : Category → Category) (same_id : (c : Category) → (f c).id ≡ c.id) where
  find-map :
      (i : ℕ) (l : List Category)
      → find_category i (each_category f l) ≡ map_found f (find_category i l)
  unfolding find_category each_category
  find-map i [] = refl
  find-map i (c ∷ l) = ground (arith, same_id c, find-map i l)

  pub find-map_some :
      (i : ℕ) (l : List Category) (c : Category)
      → find_category i l ≡ some c
      → find_category i (each_category f l) ≡ some (f c)
  find-map_some i l c e = find-map i l ∙ rw e refl

  -- A row of the changed list is a changed row.
  pub find-map_inv :
      (i : ℕ) (l : List Category) (c' : Category)
      → find_category i (each_category f l) ≡ some c'
      → (c : Category) × (find_category i l ≡ some c) × (c' ≡ f c)
  find-map_inv i l c' e = elim (Option-cases (find_category i l)) [
    | inl missing ↦ absurd (none_some (sym (find-map i l ∙ rw missing refl) ∙ e))
    | inr (c, found) ↦ (c, found, some_inj (sym e ∙ find-map_some i l c found))
  ]
    where
      none_some : {c : Category} → none ≡ some c → ⊥
      none_some e = cc

  -- A change that leaves parents and deletions alone leaves a tree.
  pub map-IsTree :
      ((c : Category) → (f c).parent_id ≡ c.parent_id)
      → ((c : Category) → (f c).deleted ≡ c.deleted)
      → (l : List Category) → IsTree l
      → IsTree (each_category f l)
  map-IsTree same_parent same_deleted l tree i c' found live p parent =
      let (c, found0, e) = find-map_inv i l c' found in
      let (d, there, d_live, root) =
        tree i c found0 (sym (same_deleted c) ∙ rw e at live) p
          (sym (same_parent c) ∙ rw e at parent) in
      (f d, find-map_some p l d there, same_deleted d ∙ d_live, same_parent d ∙ root)

-- A category that is deleted with its children leaves a tree.
pub delete-IsTree :
    (k : ℕ) (l : List Category) → IsTree l → IsTree (each_category (delete_with_children k) l)
delete-IsTree k l tree i c' found live p parent =
    let (c, found0, e) = find-map_inv (delete_with_children k) (λ c. refl) i l c' found in
    let live' = rw e at live in
    let parent' = rw e at parent in
    let (d, there, d_live, root) = tree i c found0 (was_live c live') p parent' in
    (
      delete_with_children k d,
      find-map_some (delete_with_children k) (λ c. refl) p l d there,
      ground (arith, d_live, root, find_category-id p l d there, live', parent'),
      root,
    )
  where
    was_live : (c : Category) → (delete_with_children k c).deleted ≡ false → c.deleted ≡ false
    was_live c e = ground (arith, e)

-- A root is one also after a new category has come.
IsRoot-cons :
    (c : Category) (l : List Category) (p : ℕ)
    → find_category c.id l ≡ none
    → IsRoot p l
    → IsRoot p (c ∷ l)
unfolding find_category
IsRoot-cons c l p fresh (d, there, live, root) = elim (Bool-cases (c.id == p)) [
  | inl same ↦ absurd (none_some (sym fresh ∙ ap (λ i. find_category i l) (same_ids same) ∙ there))
  | inr other ↦ (d, rw other there, live, root)
]
  where
    none_some : {d : Category} → none ≡ some d → ⊥
    none_some e = cc

    same_ids : c.id == p ≡ true → c.id ≡ p
    same_ids e = ground arith

-- A new category below a root, or without a parent, leaves a tree.
pub insert-IsTree :
    (c : Category) (l : List Category)
    → find_category c.id l ≡ none
    → ((p : ℕ) → c.parent_id ≡ some p → IsRoot p l)
    → IsTree l
    → IsTree (c ∷ l)
unfolding find_category
insert-IsTree c l fresh below tree i c' found live p parent = elim (Bool-cases (c.id == i)) [
  | inl same ↦
      let new = some_inj (rw same at found) in
      IsRoot-cons c l p fresh (below p (rw (← new) at parent))
  | inr other ↦ IsRoot-cons c l p fresh (tree i c' (rw other at found) live p parent)
]
