-- ===== src/Categories/Moving.antt =====
-- What the statements of MergeCategories (server/internal/transaction/service.go) do to rows, said
-- row by row.
use family_ledger.Transaction.Rows.{All}
use mathlib.Core.Path.{subst}
use family_ledger.Base.{
  Bool, ◌||◌, ℕ, suc, ◌≡◌, ◌≢◌, ◌⊎◌, inl, inr, refl, ap, sym, true, false, Option, none, some, List,
  [], ◌∷◌, ◌==◌, ◌&&◌, not, arith, Bool-cases,
}
use family_ledger.Store.{Transaction, Category}
use family_ledger.Categories.{each_category, same_parent}
use family_ledger.Categories.Merging.{is_use, remap_transactions, count_uses, reparent, delete_one}

abbrev pub IsUse : ℕ → ℕ → Transaction → Type 0
IsUse uid source t = (t.deleted ≡ false) × (t.user_id ≡ uid) × (t.category_id ≡ source)

-- Rows before and after, and how many have moved: the uses of the source go to the target.
pub data Moves (uid source target : ℕ) : List Transaction → List Transaction → ℕ → Type 0 where
  done : Moves uid source target [] [] 0
  moved :
      {l l' : List Transaction} {n : ℕ} (t : Transaction)
      → IsUse uid source t
      → Moves uid source target l l' n
      → Moves uid source target (t ∷ l) (record t { category_id = target } ∷ l') (suc n)
  left :
      {l l' : List Transaction} {n : ℕ} (t : Transaction)
      → ¬ (IsUse uid source t)
      → Moves uid source target l l' n
      → Moves uid source target (t ∷ l) (t ∷ l') n

use_lem : (uid source : ℕ) (t : Transaction) → is_use uid source t ≡ true → IsUse uid source t
use_lem uid source t e = ground (arith, e)

no_use_lem :
    (uid source : ℕ) (t : Transaction) → is_use uid source t ≡ false → ¬ (IsUse uid source t)
no_use_lem uid source t e u = ground (arith, e, u)

pub remap-Moves :
    (uid source target : ℕ) (l : List Transaction)
    → Moves uid source target l (remap_transactions uid source target l) (count_uses uid source l)
unfolding remap_transactions count_uses
remap-Moves uid source target [] = done
remap-Moves uid source target (t ∷ l) = elim (Bool-cases (is_use uid source t)) [
  | inl e ↦ rw (e) (moved t (use_lem uid source t e) (remap-Moves uid source target l))
  | inr e ↦ rw (e) (left t (no_use_lem uid source t e) (remap-Moves uid source target l))
]

-- A category before and after: the source is deleted and no other; live children of the source are
-- children of the target, and no other column has changed.
pub record IsMoved (source target : ℕ) (c c' : Category) : Type 0 where
  pub row : c' ≡ record c { parent_id = c'.parent_id; deleted = c'.deleted }
  pub source_deleted : c.id ≡ source → c'.deleted ≡ true
  pub others_stay : c.id ≢ source → c'.deleted ≡ c.deleted
  pub child : c.deleted ≡ false → c.parent_id ≡ some source → c'.parent_id ≡ some target
  pub no_child : (c.deleted ≡ true) ⊎ (c.parent_id ≢ some source) → c'.parent_id ≡ c.parent_id

-- Each category before, with its row after.
abbrev pub Each : (Category → Category → Type 0) → List Category → List Category → Type 0
Each P [] [] = Unit {0}
Each P (c ∷ l) (d ∷ m) = P c d × Each P l m
Each P _ _ = ⊥

moved_row : ℕ → ℕ → Category → Category
moved_row source target c = delete_one source (reparent source target c)

not_parent : (o : Option ℕ) (i : ℕ) → o ≢ some i → same_parent o (some i) ≡ false
not_parent none i n = refl
not_parent (some j) i n = elim (Bool-cases (j == i)) [
  | inl e ↦ absurd (n (ap some (ground (arith, e))))
  | inr e ↦ e
]

-- Whether a category is a live child of the source.
abbrev is_child : ℕ → Category → Bool
is_child source c = not c.deleted && same_parent c.parent_id (some source)

or_same : (d : Bool) (a b : ℕ) → a ≡ b → d || a == b ≡ true
or_same d a b e = ground (arith, e)

or_other : (d : Bool) (a b : ℕ) → a ≢ b → d || a == b ≡ d
or_other d a b n = ground (arith, n)

child_lem :
    (source : ℕ) (c : Category)
    → c.deleted ≡ false
    → c.parent_id ≡ some source
    → is_child source c ≡ true
child_lem source c e h = rw (e, h) (ground arith)

no_child_lem :
    (source : ℕ) (c : Category)
    → (c.deleted ≡ true) ⊎ (c.parent_id ≢ some source)
    → is_child source c ≡ false
no_child_lem source c (inl e) = rw e refl
no_child_lem source c (inr n) = rw (not_parent c.parent_id source n) (ground arith)

clash : {A : Type 0} {b : Bool} → b ≡ true → b ≡ false → A
clash e h = absurd (ground (arith, e, h))

child-IsMoved :
    (source target : ℕ) (c : Category)
    → is_child source c ≡ true
    → IsMoved source target c (delete_one source (record c { parent_id = some target }))
child-IsMoved source target c is = record {
  row = refl;
  source_deleted = or_same c.deleted c.id source;
  others_stay = or_other c.deleted c.id source;
  child = λ e h. refl;
  no_child = λ n. clash is (no_child_lem source c n);
}

other-IsMoved :
    (source target : ℕ) (c : Category)
    → is_child source c ≡ false
    → IsMoved source target c (delete_one source c)
other-IsMoved source target c is = record {
  row = refl;
  source_deleted = or_same c.deleted c.id source;
  others_stay = or_other c.deleted c.id source;
  child = λ e h. clash (child_lem source c e h) is;
  no_child = λ n. refl;
}

moved_row-IsMoved :
    (source target : ℕ) (c : Category) → IsMoved source target c (moved_row source target c)
unfolding moved_row
moved_row-IsMoved source target c = elim (Bool-cases (is_child source c)) [
  | inl e ↦
      subst (λ (x : Category). IsMoved source target c (delete_one source x)) (sym (taken e))
        (child-IsMoved source target c e)
  | inr e ↦
      subst (λ (x : Category). IsMoved source target c (delete_one source x)) (sym (passed e))
        (other-IsMoved source target c e)
]
  where
    taken :
        is_child source c ≡ true → reparent source target c ≡ record c { parent_id = some target }
    taken e = rw e refl

    passed : is_child source c ≡ false → reparent source target c ≡ c
    passed e = rw e refl

pub Each-Each :
    (source target : ℕ) (l : List Category)
    → Each
        (IsMoved source target)
        l
        (each_category (delete_one source) (each_category (reparent source target) l))
unfolding each_category moved_row
Each-Each source target [] = tt
Each-Each source target (c ∷ l) = (moved_row-IsMoved source target c, Each-Each source target l)

-- After the moves the user has no live transaction in the source.
pub Moves-NoUse :
    {uid source target : ℕ} {l l' : List Transaction} {n : ℕ}
    → source ≢ target
    → Moves uid source target l l' n
    → All (λ t. ¬ (IsUse uid source t)) l'
Moves-NoUse ne done = tt
Moves-NoUse ne (moved t u m) = (λ v. ne (sym v.2), Moves-NoUse ne m)
Moves-NoUse ne (left t n m) = (n, Moves-NoUse ne m)

-- After the remapping the user has no live transaction in the source.
pub remap-uses :
    (uid source target : ℕ) (l : List Transaction)
    → source ≢ target
    → count_uses uid source (remap_transactions uid source target l) ≡ 0
unfolding remap_transactions count_uses
remap-uses uid source target [] ne = refl
remap-uses uid source target (t ∷ l) ne = ground (arith, ne, remap-uses uid source target l ne)
