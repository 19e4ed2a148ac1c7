-- ===== src/Family/Handing.antt =====
-- Handing a family over and deleting it keeps one owner to a family
-- (server/internal/family/service.go).
use Prim.Native.String.{String}
use family_ledger.Base.{
  ⊤, ℕ, ◌≡◌, ◌≢◌, refl, true, Option, none, some, [], ◌∷◌, inl, inr, Option-cases, arith,
}
use family_ledger.Db.{M, done, exec, ignore_error}
use family_ledger.Db.Triple.{
  Triple, bind-Triple, then-Triple, or_raise-Triple, raise_if-Triple, exec-Triple, exec_eq-Triple,
  done-Triple, weaken-Triple, strengthen-Triple, atomically-Triple, ignore_error-Triple,
}
use family_ledger.Store.{Uuid, Role, owner, Store, find_member, delete_members_of}
use family_ledger.Store.Context.{get_user_id-Triple}
use family_ledger.Family.{role_allowed}
use family_ledger.Family.Owning.{
  joined_row, hand_over, transfer_ownership, delete_rows, delete_family, parsed_or_zero,
  drop_family,
}
use family_ledger.Family.Rows.{role_of, find-delete_members_of}
use family_ledger.Family.Changes.{drop_family-done}
use family_ledger.Family.Ownership.{HasOneOwner, hand_over-HasOneOwner}
use family_ledger.Family.Keeping.{Keeps, Allowed, require_role-Triple, log_audit-Keeps}

joined_row-done :
    (f u : ℕ) (s s' : Store) → joined_row f u s ≡ done tt s' → (s' ≡ s) × (role_of f u s ≢ none)
unfolding joined_row
joined_row-done f u s s' e = elim (Option-cases (find_member f u s.members)) [
  | inl missing ↦ absurd (ground arith)
  | inr (m, found) ↦ (ground arith, rw found (λ k. cc))
]

hand_over-Triple :
    (f c n : ℕ)
    → Triple
        (λ s. HasOneOwner s × (role_of f c s ≡ some owner))
        (hand_over f c n)
        (λ _. HasOneOwner)
        (λ _. ⊤)
unfolding hand_over
hand_over-Triple f c n = then-Triple (done-Triple (λ s h. tt) _ _ _) λ _.
    then-Triple (exec_eq-Triple (λ s h. tt) _) λ _. then-Triple (exec_eq-Triple (λ s h. tt) _) λ _.
      weaken-Triple (exec_eq-Triple (λ s h. tt) _) λ _ s4 p.
        let (s3, (s2, (s1, (s0, (h, caller), e1), e2), e3), e4) = p in
        let (same, joined) = joined_row-done f n s0 s1 e1 in
        rw (e4, e3, e2, same) (hand_over-HasOneOwner s0 h f c n caller joined)

owner_allowed : (r : Role) → role_allowed r (owner ∷ []) ≡ true → r ≡ owner
unfolding role_allowed
owner_allowed r e = ground arith

-- Only the owner may hand over or delete.
Allowed-owner :
    (ids : Uuid) (f : ℕ) (user_id : String) (s : Store)
    → Allowed ids f user_id (owner ∷ []) s
    → role_of f (parsed_or_zero (ids.parse user_id)) s ≡ some owner
Allowed-owner ids f user_id s (uid, m, parsed, found, allowed) =
    rw (parsed, found, owner_allowed m.role allowed) refl

pub transfer_ownership-Keeps :
    (ids : Uuid) (ctx : Option String) (family_id new_owner_id : String)
    → Keeps (transfer_ownership ids ctx family_id new_owner_id)
unfolding transfer_ownership
transfer_ownership-Keeps ids ctx family_id new_owner_id =
    bind-Triple (get_user_id-Triple ctx (λ s h. h)) λ caller_id.
      then-Triple (raise_if-Triple (λ s p. p.0) _ _) λ _.
        bind-Triple (or_raise-Triple (λ s p. p.0.0) _ _) λ fid.
          bind-Triple (or_raise-Triple (λ s p. p.0.0.0) _ _) λ new_owner_uid.
            then-Triple (require_role-Triple ids fid caller_id _ (λ s p. p.0.0.0.0)) λ _.
              then-Triple
                (strengthen-Triple (λ s p. (p.0.0.0.0.0, Allowed-owner ids fid caller_id s p.1))
                  (atomically-Triple (λ s p. p.0) (hand_over-Triple fid _ new_owner_uid)))
                λ _. log_audit-Keeps ids _ _ _ _

-- Only the families and their members matter.
pub unrelated :
    (s s' : Store)
    → s'.families ≡ s.families
    → s'.members ≡ s.members
    → HasOneOwner s
    → HasOneOwner s'
unrelated s s' families members h = record {
  owned = rw (families, members) h.owned;
  sole = rw (families, members) h.sole;
  housed = rw (families, members) h.housed;
}

drop_all-HasOneOwner :
    (f : ℕ) (s s' : Store)
    → HasOneOwner s
    → drop_family f (record s { members = delete_members_of f s.members }) ≡ done tt s'
    → HasOneOwner s'
drop_all-HasOneOwner f s s' h e =
    let (owners, roles) =
      drop_family-done f (record s { members = delete_members_of f s.members }) s' e in
    record {
      owned = λ i v k.
          ground (arith, owners i, roles i v, find-delete_members_of f s.members i v, h.owned i v);
      sole = λ i v k.
          ground (arith, owners i, roles i v, find-delete_members_of f s.members i v, h.sole i v);
      housed = λ i v k.
          ground (arith, owners i, roles i v, find-delete_members_of f s.members i v, h.housed i v);
    }

delete_rows-Triple : (f : ℕ) → Triple HasOneOwner (delete_rows f) (λ _. HasOneOwner) (λ _. ⊤)
unfolding delete_rows
delete_rows-Triple f = then-Triple (keeping _ (λ s h. unrelated s _ refl refl h)) λ _.
    then-Triple (keeping _ (λ s h. unrelated s _ refl refl h)) λ _.
      then-Triple (keeping _ (λ s h. unrelated s _ refl refl h)) λ _.
        then-Triple (keeping _ (λ s h. unrelated s _ refl refl h)) λ _.
          then-Triple (keeping _ (λ s h. unrelated s _ refl refl h)) λ _.
            then-Triple (keeping _ (λ s h. unrelated s _ refl refl h)) λ _.
              then-Triple (keeping _ (λ s h. unrelated s _ refl refl h)) λ _.
                then-Triple
                  (ignoring (
                    exec-Triple (λ s h. h) _ (λ _. HasOneOwner) (λ s h. unrelated s _ refl refl h)))
                  λ _. then-Triple (exec_eq-Triple (λ s h. tt) _) λ _.
                    weaken-Triple (done-Triple (λ s h. tt) _ _ _) λ _ s'' p.
                      let (s', (s, h, e1), e2) = p in drop_all-HasOneOwner f s s'' h (rw e1 at e2)
  where
    keeping :
        (f : Store → Store)
        → ((s : Store) → HasOneOwner s → HasOneOwner (f s))
        → Triple HasOneOwner (exec f) (λ _. HasOneOwner) (λ _. ⊤)
    keeping f h = exec-Triple (λ s k. tt) f (λ _. HasOneOwner) h

    ignoring :
        {m : M Store ⊤}
        → Keeps m
        → Triple HasOneOwner (ignore_error tt m) (λ _. HasOneOwner) (λ _. ⊤)
    ignoring h = ignore_error-Triple tt h

pub delete_family-Keeps :
    (ids : Uuid) (ctx : Option String) (family_id : String)
    → Keeps (delete_family ids ctx family_id)
unfolding delete_family
delete_family-Keeps ids ctx family_id = bind-Triple (get_user_id-Triple ctx (λ s h. h)) λ caller_id.
    then-Triple (raise_if-Triple (λ s p. p.0) _ _) λ _.
      bind-Triple (or_raise-Triple (λ s p. p.0.0) _ _) λ fid.
        then-Triple (require_role-Triple ids fid caller_id _ (λ s p. p.0.0.0)) λ _.
          strengthen-Triple (λ s p. p.0.0.0.0)
            (atomically-Triple (λ s h. h) (delete_rows-Triple fid))
