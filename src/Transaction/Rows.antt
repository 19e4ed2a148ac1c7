-- ===== src/Transaction/Rows.antt =====
-- Rows of `transactions` (server/internal/transaction/service.go): finding them, and what holds of
-- all of them.
use mathlib.Core.Path.{subst}
use family_ledger.Base.{
  refl, true, inl, inr, Bool-cases, if_both, some_inj, ◌==◌, ⊤, ℕ, ◌≡◌, false, some, List, [], ◌∷◌,
  arith,
}
use family_ledger.Store.{Transaction, Store}
use family_ledger.Transaction.{find_transaction_row, find_transaction, update_transaction_row}

pub find_transaction-some :
    (i : ℕ) (s : Store) (t : Transaction)
    → find_transaction i s ≡ some t
    → (find_transaction_row i s.transactions ≡ some t) × (t.deleted ≡ false)
unfolding find_transaction
find_transaction-some i s t e = ground arith

pub find_transaction_row-id :
    (i : ℕ) (l : List Transaction) (t : Transaction) → find_transaction_row i l ≡ some t → t.id ≡ i
unfolding find_transaction_row
find_transaction_row-id i [] t e = cc
find_transaction_row-id i (u ∷ l) t e = ground (arith, find_transaction_row-id i l t)

-- A row that is changed under its id is found changed, and the others as they were.
pub find-update_transaction_row :
    (i : ℕ) (f : Transaction → Transaction) (l : List Transaction) (t : Transaction)
    → find_transaction_row i l ≡ some t
    → (f t).id ≡ t.id
    → find_transaction_row i (update_transaction_row i f l) ≡ some (f t)
unfolding find_transaction_row update_transaction_row
find-update_transaction_row i f [] t e same = cc
find-update_transaction_row i f (u ∷ l) t e same = elim (Bool-cases (u.id == i)) [
  | inl here ↦ rw here (found_here (some_inj (rw here at e)) here)
  | inr other ↦ rw (other, other) (find-update_transaction_row i f l t (rw other at e) same)
]
  where
    found_here : u ≡ t → u.id == i ≡ true → find_transaction_row i (f u ∷ l) ≡ some (f t)
    found_here k h = rw (k, same, rw k at h) refl

-- Every row has the property.
abbrev pub All : (Transaction → Type 0) → List Transaction → Type 0
All P [] = ⊤
All P (t ∷ l) = P t × All P l

module _ (P : Transaction → Type 0) where
  pub All-found :
      (i : ℕ) (l : List Transaction) (t : Transaction)
      → All P l
      → find_transaction_row i l ≡ some t
      → P t
  unfolding find_transaction_row
  All-found i [] t h e = cc
  All-found i (u ∷ l) t h e = elim (Bool-cases (u.id == i)) [
    | inl same ↦ subst P (some_inj (rw same at e)) h.0
    | inr other ↦ All-found i l t h.1 (rw other at e)
  ]

  pub All-update :
      (i : ℕ) (f : Transaction → Transaction) (l : List Transaction)
      → ((t : Transaction) → P t → P (f t))
      → All P l
      → All P (update_transaction_row i f l)
  unfolding update_transaction_row
  All-update i f [] k h = tt
  All-update i f (t ∷ l) k h =
      if_both (All P) (t.id == i) (f t ∷ l) (t ∷ update_transaction_row i f l) (k t h.0, h.1)
        (h.0, All-update i f l k h.1)
