-- ===== src/Categories/Budgeting.antt =====
-- What MergeCategories (server/internal/transaction/service.go) does to the amounts of budgets.
use family_ledger.Base.{
  ℕ, ◌≡◌, ◌≢◌, refl, true, false, Option, none, some, List, [], ◌∷◌, ◌==◌, ◌&&◌, arith,
  if◌then◌else◌,
}
use family_ledger.Base.Int.{ℤ}
use family_ledger.Store.{CategoryBudget}
use family_ledger.Categories.Merging.{has_budget, remap_budgets, drop_budgets}

-- The amount that a budget has for a category.
pub budget_amount : ℕ → ℕ → List CategoryBudget → Option ℤ
budget_amount budget category [] = none
budget_amount budget category (b ∷ l) =
    if (b.budget_id == budget) && (b.category_id == category)
    then some b.amount
    else budget_amount budget category l

abbrev after : ℕ → ℕ → List CategoryBudget → List CategoryBudget → List CategoryBudget
after source target all l = drop_budgets source (remap_budgets source target all l)

-- A budget that has an amount for the target keeps it; another gets that of the source.
pub target-kept :
    (budget source target : ℕ) (all l : List CategoryBudget)
    → source ≢ target
    → has_budget budget target all ≡ true
    → budget_amount budget target (after source target all l) ≡ budget_amount budget target l
unfolding remap_budgets drop_budgets budget_amount
target-kept budget source target all [] ne h = refl
target-kept budget source target all (b ∷ l) ne h =
    ground (arith, ne, h, target-kept budget source target all l ne h)

pub target-inherits :
    (budget source target : ℕ) (all l : List CategoryBudget)
    → source ≢ target
    → has_budget budget target all ≡ false
    → has_budget budget target l ≡ false
    → budget_amount budget target (after source target all l) ≡ budget_amount budget source l
unfolding remap_budgets drop_budgets budget_amount has_budget
target-inherits budget source target all [] ne h k = refl
target-inherits budget source target all (b ∷ l) ne h k =
    ground (arith, ne, h, k, target-inherits budget source target all l ne h)

pub others-kept :
    (budget category source target : ℕ) (all l : List CategoryBudget)
    → category ≢ source
    → category ≢ target
    → budget_amount budget category (after source target all l) ≡ budget_amount budget category l
unfolding remap_budgets drop_budgets budget_amount
others-kept budget category source target all [] ns nt = refl
others-kept budget category source target all (b ∷ l) ns nt =
    ground (arith, ns, nt, others-kept budget category source target all l ns nt)

pub source-gone :
    (budget source target : ℕ) (all l : List CategoryBudget)
    → budget_amount budget source (after source target all l) ≡ none
unfolding remap_budgets drop_budgets budget_amount
source-gone budget source target all [] = refl
source-gone budget source target all (b ∷ l) =
    ground (arith, source-gone budget source target all l)

pub has_budget-some :
    (budget category : ℕ) (l : List CategoryBudget) (x : ℤ)
    → budget_amount budget category l ≡ some x
    → has_budget budget category l ≡ true
unfolding has_budget budget_amount
has_budget-some budget category [] x e = absurd (ground (arith, e))
has_budget-some budget category (b ∷ l) x e = ground (arith, e, has_budget-some budget category l x)

pub has_budget-none :
    (budget category : ℕ) (l : List CategoryBudget)
    → budget_amount budget category l ≡ none
    → has_budget budget category l ≡ false
unfolding has_budget budget_amount
has_budget-none budget category [] e = refl
has_budget-none budget category (b ∷ l) e = ground (arith, e, has_budget-none budget category l)

pub drop-budgets :
    (budget category : ℕ) (l : List CategoryBudget)
    → has_budget budget category (drop_budgets category l) ≡ false
unfolding drop_budgets has_budget
drop-budgets budget category [] = refl
drop-budgets budget category (b ∷ l) = ground (arith, drop-budgets budget category l)
