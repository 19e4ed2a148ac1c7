-- ===== src/Transaction/Resolving.antt =====
-- The stages of CreateTransaction that look up the account and the category
-- (server/internal/transaction/pipeline_stages.go and create_pipeline.go).
use family_ledger.Base.{⊤, ℕ, ◌≡◌, refl, ap, Bool, false, Option, none, some, arith}
use family_ledger.Db.Triple.{
  Triple, pure-Triple, raise-Triple, bind-Triple, then-Triple, read-Triple, peek-Triple, if-Triple,
  weaken-Triple, with_code-Triple, exec-Triple, strengthen-Triple,
}
use family_ledger.Store.{Uuid, Transaction, Category, Store}
use family_ledger.Permission.Granted.{check-Triple}
use family_ledger.Account.{find_live}
use family_ledger.Transaction.{find_category}
use family_ledger.Transaction.Create.{
  verify_account_in_tx, check_not_owner, verify_category, resolve_batch_category, or_placeholder,
  add_category, unless_there,
}

-- Only categories have been added.
abbrev pub OnlyCategories : Store → Store → Type 0
OnlyCategories s s' = s' ≡ record s { categories = s'.categories }

module _ {P : Store → Type 0} where
  pub verify_account_in_tx-Triple :
      (ids : Uuid) (uid account_id : ℕ)
      → Triple P
          (verify_account_in_tx ids uid account_id)
          (λ a s. P s × (find_live account_id s ≡ some a))
          (λ _. ⊤)
  unfolding verify_account_in_tx
  verify_account_in_tx-Triple ids uid account_id = bind-Triple (read-Triple (λ _ _. tt) _ _ _) λ a.
      then-Triple (if-Triple _ (λ _. pure-Triple tt (λ s p. p)) (λ _. not_owner a.family_id))
        λ _. pure-Triple a (λ s p. p)
    where
      not_owner :
          {Q : Store → Type 0} (f : Option ℕ)
          → Triple Q (check_not_owner ids uid f) (λ _. Q) (λ _. ⊤)
      not_owner none = raise-Triple _ (λ _ _. tt)
      not_owner (some f) = weaken-Triple (check-Triple ids _ _ _ (λ _ _. tt)) λ _ s p. p.0

add_category-only :
    (c : Category) (s s' : Store) → OnlyCategories s s' → OnlyCategories s (add_category c s')
unfolding add_category
add_category-only c s s' e =
    ap
      (λ (u : Store). record u {
        categories = unless_there (find_category c.id s'.categories) c s'.categories;
      })
      e

-- Only categories have been added to the tables `s`, and without the batch mode, the category is the
-- one that was asked for.
abbrev pub Resolved : Bool → Store → Transaction → ℕ → Store → Type 0
Resolved batch s t c s' = OnlyCategories s s' × (batch ≡ false → c ≡ t.category_id)

module _ (ids : Uuid) (t : Transaction) (s : Store) where
  resolve_batch_category-Triple :
      Triple (OnlyCategories s) (resolve_batch_category ids t) (λ _. OnlyCategories s) (λ _. ⊤)
  unfolding resolve_batch_category
  resolve_batch_category-Triple = bind-Triple (peek-Triple none _ _ _) resolved
    where
      resolved :
          (o : Option ℕ)
          → Triple (OnlyCategories s) (or_placeholder ids t o) (λ _. OnlyCategories s) (λ _. ⊤)
      resolved (some c) = pure-Triple c (λ s' p. p)
      resolved none =
          then-Triple {R = λ _. OnlyCategories s}
            (with_code-Triple _
              (exec-Triple (λ _ _. tt) _ (λ _. OnlyCategories s) (add_category-only _ s)))
            λ _. pure-Triple t.category_id (λ s' p. p)

  pub verify_category-Triple :
      (batch : Bool)
      → Triple
          (λ s'. s' ≡ s)
          (verify_category ids batch t)
          (λ c s'. Resolved batch s t c s')
          (λ _. ⊤)
  unfolding verify_category
  verify_category-Triple batch =
      strengthen-Triple {P' = OnlyCategories s} (λ s' e. rw e refl)
        (bind-Triple (peek-Triple false _ _ _) λ exists.
          if-Triple exists (λ _. pure-Triple t.category_id (λ s' p. (p, λ _. refl)))
            (λ _.
              if-Triple batch
                (λ b.
                  weaken-Triple resolve_batch_category-Triple
                    λ c s' p. (p, λ k. absurd (ground arith)))
                (λ _. raise-Triple _ (λ _ _. tt))))
