-- ===== src/Transaction/Access.antt =====
-- Who may change a transaction (the permission checks of UpdateTransaction and DeleteTransaction in
-- server/internal/transaction/service.go).
use Prim.Native.String.{String}
use family_ledger.Base.{⊤, ℕ, ◌≡◌, ◌⊎◌, inl, inr, refl, Bool, true, false, not, arith, ◌==◌}
use family_ledger.Db.{Code}
use family_ledger.Db.Triple.{
  Triple, pure-Triple, raise-Triple, bind-Triple, peek-Triple, if-Triple, weaken-Triple,
  statement-Triple,
}
use family_ledger.Store.{is_empty, Uuid, Permissions, Transaction, Store}
use family_ledger.Permission.Granted.{Granted, check-Triple}
use family_ledger.Account.{find_live}
use family_ledger.Transaction.{get_account_family_id, family_id_of}
use family_ledger.Transaction.Change.{check_transaction, require_in_family}

-- The user has made the transaction, or has the permission in the family of its account.
abbrev pub MayChange : Uuid → String → ℕ → Transaction → (Permissions → Bool) → Store → Type 0
MayChange ids user_id uid t required s =
    (t.user_id ≡ uid) ⊎ Granted ids user_id (family_id_of ids (find_live t.account_id s)) required s

module _ (ids : Uuid) (user_id : String) (uid : ℕ) (t : Transaction)
    (required : Permissions → Bool) where
  get_account_family_id-Triple :
      (account_id : ℕ) (failed : Code) {Q : Store → Type 0}
      → Triple Q
          (get_account_family_id ids account_id failed)
          (λ f s. Q s × (f ≡ family_id_of ids (find_live account_id s)))
          (λ _. ⊤)
  unfolding get_account_family_id
  get_account_family_id-Triple account_id failed =
      statement-Triple _ _ _ (λ s p. (p, refl)) (λ _ _. tt)

  require_in_family-Triple :
      (f : String) {Q : Store → Type 0}
      → Triple Q
          (require_in_family ids user_id f required)
          (λ _ s. Q s × Granted ids user_id f required s)
          (λ _. ⊤)
  require_in_family-Triple f =
      if-Triple (is_empty f) (λ _. raise-Triple _ (λ _ _. tt))
        (λ shared.
          weaken-Triple (check-Triple ids user_id f required (λ _ _. tt))
            λ _ s p. (p.0, granted shared p.1))
    where
      granted :
          {s : Store}
          → is_empty f ≡ false
          → (is_empty f ≡ true) ⊎ Granted ids user_id f required s
          → Granted ids user_id f required s
      granted shared (inl empty) = absurd (ground arith)
      granted shared (inr g) = g

  pub check_transaction-Triple :
      {P : Store → Type 0}
      → Triple P
          (check_transaction ids user_id uid t required)
          (λ _ s. P s × MayChange ids user_id uid t required s)
          (λ _. ⊤)
  unfolding check_transaction get_account_family_id
  check_transaction-Triple =
      if-Triple (not (t.user_id == uid))
        (λ _.
          bind-Triple (get_account_family_id-Triple t.account_id _)
            λ f. weaken-Triple (require_in_family-Triple f) λ _ s p. (p.0.0, inr (rw p.0.1 at p.1)))
        (λ own. bind-Triple (peek-Triple _ _ _ _) λ f.
          if-Triple (is_empty f) (λ _. pure-Triple tt (λ s p. (p, inl (ground (arith, own)))))
            (λ _.
              weaken-Triple (check-Triple ids user_id f required (λ _ _. tt))
                λ _ s p. (p.0, inl (ground (arith, own)))))
