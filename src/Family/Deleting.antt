-- ===== src/Family/Deleting.antt =====
-- When a family cannot be deleted: `DeleteFamily` (server/internal/family/service.go) marks the
-- accounts of the family as deleted, and their rows still refer to it
-- (server/migrations/009_alter_accounts_add_family.up.sql).
use Prim.Native.String.{String}
use family_ledger.Base.{
  ⊤, ℕ, ◌≡◌, ◌≢◌, ◌∙◌, sym, some_inj, refl, true, false, Option, some, List, [], ◌∷◌, arith,
}
use family_ledger.Db.{Result, ok, err, World, exec, violates}
use family_ledger.Db.Triple.{
  Triple, Post, bind-Triple, then-Triple, or_raise-Triple, raise_if-Triple, exec-Triple,
  strengthen-Triple, facts-Triple, atomically-Triple, ignore_error-Triple, statement-Triple,
}
use family_ledger.Store.{Uuid, Account, Store}
use family_ledger.Store.Context.{get_user_id-Triple}
use family_ledger.Family.Owning.{
  has_family_account, delete_accounts, drop_family, delete_rows, delete_family,
}
use family_ledger.Family.Keeping.{require_role-Triple}

-- Some account, deleted or not, belongs to the family.
abbrev pub HasAccount : ℕ → Store → Type 0
HasAccount f s = has_family_account f s.accounts ≡ true

delete_accounts_kept :
    (f g : ℕ) (l : List Account)
    → has_family_account f (delete_accounts g l) ≡ has_family_account f l
unfolding has_family_account delete_accounts
delete_accounts_kept f g [] = refl
delete_accounts_kept f g (a ∷ l) = ground (arith, delete_accounts_kept f g l)

drop_family_refused : (f : ℕ) (s : Store) → HasAccount f s → drop_family f s ≡ violates
unfolding drop_family
drop_family_refused f s h = ground arith

delete_rows-Triple : (f : ℕ) → Triple (HasAccount f) (delete_rows f) (λ _ _. true ≡ false) (λ _. ⊤)
unfolding delete_rows
delete_rows-Triple f = then-Triple (keeping _ (λ s h. h)) λ _.
    then-Triple (keeping _ (λ s h. h)) λ _.
      then-Triple (keeping _ (λ s h. delete_accounts_kept f f s.accounts ∙ h)) λ _.
        then-Triple (keeping _ (λ s h. h)) λ _. then-Triple (keeping _ (λ s h. h)) λ _.
          then-Triple (keeping _ (λ s h. h)) λ _. then-Triple (keeping _ (λ s h. h)) λ _.
            then-Triple
              (ignore_error-Triple tt (exec-Triple (λ s h. h) _ (λ _. HasAccount f) (λ s h. h)))
              λ _.
                then-Triple (keeping _ (λ s h. h))
                  λ _. statement-Triple _ _ _ (λ s h. rw (drop_family_refused f s h) tt) (λ s h. tt)
  where
    keeping :
        (g : Store → Store)
        → ((s : Store) → HasAccount f s → HasAccount f (g s))
        → Triple (HasAccount f) (exec g) (λ _. HasAccount f) (λ _. ⊤)
    keeping g h = exec-Triple (λ s k. tt) g (λ _. HasAccount f) h

delete_family-Triple :
    (ids : Uuid) (ctx : Option String) (family_id : String) (fid : ℕ) (s : Store)
    → ids.parse family_id ≡ some fid
    → HasAccount fid s
    → Triple (λ s'. s' ≡ s) (delete_family ids ctx family_id) (λ _ _. true ≡ false) (λ s'. s' ≡ s)
unfolding delete_family
delete_family-Triple ids ctx family_id fid s parsed h =
    bind-Triple (get_user_id-Triple ctx (λ s p. p)) λ caller_id.
      then-Triple (raise_if-Triple (λ s p. p.0) _ _) λ _.
        bind-Triple (or_raise-Triple (λ s p. p.0.0) _ _) λ i.
          then-Triple (require_role-Triple ids i caller_id _ (λ s p. p.0.0.0)) λ _.
            facts-Triple {C = fid ≡ i} (λ s' p. some_inj (sym parsed ∙ p.0.1))
              λ same.
                strengthen-Triple {P' = λ s'. (s' ≡ s) × HasAccount i s'}
                  (λ s' p. (p.0.0.0.0, rw (← same, p.0.0.0.0) h))
                  (atomically-Triple (λ s' p. p.0)
                    (strengthen-Triple (λ s' p. p.1) (delete_rows-Triple i)))

never_ok :
    (r : Result ⊤) (s s' : Store)
    → Post (λ _ _. true ≡ false) (λ s'. s' ≡ s) r s'
    → (r ≢ ok tt) × (s' ≡ s)
never_ok (ok a) s s' h = cc
never_ok (err c) s s' h = (λ k. cc, h)

-- A family to which the row of an account refers, also of an account that is marked as deleted, is
-- not deleted: whoever asks, the answer is an error, and no table is changed.
pub delete_family_blocked :
    (ids : Uuid) (ctx : Option String) (family_id : String) (fid : ℕ) (w : World Store)
    → ids.parse family_id ≡ some fid
    → has_family_account fid w.store.accounts ≡ true
    → ((delete_family ids ctx family_id w).0 ≢ ok tt)
      × ((delete_family ids ctx family_id w).1.store ≡ w.store)
delete_family_blocked ids ctx family_id fid w parsed h =
    never_ok _ _ _ ((delete_family-Triple ids ctx family_id fid w.store parsed h).run w refl)
