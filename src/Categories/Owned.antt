-- ===== src/Categories/Owned.antt =====
-- What the checks of MergeCategories (server/internal/transaction/service.go) find out.
use family_ledger.Base.{
  none, sym, Option-cases, inl, inr, some_inj, ℕ, ◌≡◌, refl, ap, ◌∙◌, true, some, arith,
}
use family_ledger.Store.{TransactionKind, income, expense, Category, Store}
use family_ledger.Transaction.{find_live_category, same_kind}
use family_ledger.Categories.Merging.{with_owner, find_owned}

pub owned_row :
    (i : ℕ) (s : Store) (f : Category × ℕ)
    → find_owned i s ≡ some f
    → (find_live_category i s ≡ some f.0) × (f.0.user_id ≡ some f.1)
unfolding find_owned
owned_row i s f e = elim (Option-cases (find_live_category i s)) [
  | inl missing ↦ absurd (ground (arith, missing, e))
  | inr (c, there) ↦
      let (same, owner) = its_category c (rw there at e) in
      (there ∙ ap some same, ap (λ (x : Category). x.user_id) (sym same) ∙ owner)
]
  where
    none_some : {g : Category × ℕ} → none ≡ some g → ⊥
    none_some k = cc

    its_category :
        (c : Category) → with_owner (some c) ≡ some f → (c ≡ f.0) × (c.user_id ≡ some f.1)
    its_category c h = elim (Option-cases c.user_id) [
      | inl nobody ↦ absurd (none_some (rw nobody at h))
      | inr (u, k) ↦
          let same = some_inj (rw k at h) in
          (ap (λ (x : Category × ℕ). x.0) same, k ∙ ap (λ (x : Category × ℕ). some x.1) same)
    ]

pub kinds_agree : (k l : TransactionKind) → same_kind k l ≡ true → k ≡ l
kinds_agree income income e = refl
kinds_agree expense expense e = refl
kinds_agree income expense e = cc
kinds_agree expense income e = cc
