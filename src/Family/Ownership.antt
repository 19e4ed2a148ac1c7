-- ===== src/Family/Ownership.antt =====
-- Every family has exactly one owner, the one that its row names (server/internal/family/service.go).
use family_ledger.Base.{ℕ, ◌≡◌, ◌≢◌, sym, ◌∙◌, none, some, arith}
use family_ledger.Db.{done}
use family_ledger.Store.{Role, owner, admin, Family, Member, Store}
use family_ledger.Family.{insert_family, insert_member}
use family_ledger.Family.Roles.{set_role_row, leave_row}
use family_ledger.Family.Owning.{promote_row, set_owner_row, drop_family}
use family_ledger.Family.Rows.{
  role_of, owner_of, role_of-set_role_row, role_of-promote_row, role_of-leave_row,
  owner_of-set_owner_row, set_role_row-families, promote_row-families, leave_row-families,
  set_owner_row-members,
}
use family_ledger.Family.Changes.{
  SameRoles, insert_family-done, insert_member-done, drop_family-done,
}

-- The user named as the owner has that role, nobody else has it, and only a family has members.
pub record HasOneOwner (s : Store) : Type 0 where
  pub owned : (i u : ℕ) → owner_of i s ≡ some u → role_of i u s ≡ some owner
  pub sole : (i u : ℕ) → role_of i u s ≡ some owner → owner_of i s ≡ some u
  pub housed : (i u : ℕ) → owner_of i s ≡ none → role_of i u s ≡ none

pub SameRoles-HasOneOwner : (s s' : Store) → SameRoles s s' → HasOneOwner s → HasOneOwner s'
SameRoles-HasOneOwner s s' e h = record {
  owned = λ i u k. e.roles i u ∙ h.owned i u (sym (e.owners i) ∙ k);
  sole = λ i u k. e.owners i ∙ h.sole i u (sym (e.roles i u) ∙ k);
  housed = λ i u k. e.roles i u ∙ h.housed i u (sym (e.owners i) ∙ k);
}

module _ (s : Store) (h : HasOneOwner s) where
  pub set_role_row-HasOneOwner :
      (f u : ℕ) (r : Role)
      → role_of f u s ≢ some owner
      → r ≢ owner
      → HasOneOwner (set_role_row f u r s)
  set_role_row-HasOneOwner f u r other not_owner = record {
    owned = λ i v k.
        ground
          (arith, role_of-set_role_row s f u r i v, h.owned i v, set_role_row-families s f u r i);
    sole = λ i v k.
        ground
          (arith, role_of-set_role_row s f u r i v, h.sole i v, set_role_row-families s f u r i);
    housed = λ i v k.
        ground
          (arith, role_of-set_role_row s f u r i v, h.housed i v, set_role_row-families s f u r i);
  }

  pub leave_row-HasOneOwner : (f u : ℕ) → role_of f u s ≢ some owner → HasOneOwner (leave_row f u s)
  leave_row-HasOneOwner f u other = record {
    owned = λ i v k.
        ground (arith, role_of-leave_row s f u i v, h.owned i v, leave_row-families s f u i);
    sole = λ i v k.
        ground (arith, role_of-leave_row s f u i v, h.sole i v, leave_row-families s f u i);
    housed = λ i v k.
        ground (arith, role_of-leave_row s f u i v, h.housed i v, leave_row-families s f u i);
  }

  -- A family and its owner's membership are inserted together.
  pub create-HasOneOwner :
      (f : Family) (m : Member) (s' s'' : Store)
      → insert_family f s ≡ done tt s'
      → insert_member m s' ≡ done tt s''
      → m.family_id ≡ f.id
      → m.user_id ≡ f.owner_id
      → m.role ≡ owner
      → HasOneOwner s''
  create-HasOneOwner f m s' s'' e1 e2 em eu er =
      let (new, owners1, roles1) = insert_family-done f s s' e1 in
      let (fresh, _, owners2, roles2) = insert_member-done m s' s'' e2 in
      record {
        owned = λ i v k.
            ground (arith, owners1 i, owners2 i, roles1 i v, roles2 i v, h.owned i v, em, eu, er);
        sole = λ i v k. ground (
          arith,
          owners1 i,
          owners2 i,
          roles1 i v,
          roles2 i v,
          h.sole i v,
          h.housed i v,
          new,
          em,
          eu,
          er,
        );
        housed = λ i v k.
            ground (arith, owners1 i, owners2 i, roles1 i v, roles2 i v, h.housed i v, em, eu, er);
      }

  pub insert_member-HasOneOwner :
      (m : Member) (s' : Store) → insert_member m s ≡ done tt s' → m.role ≢ owner → HasOneOwner s'
  insert_member-HasOneOwner m s' e er =
      let (fresh, there, owners, roles) = insert_member-done m s s' e in
      record {
        owned = λ i v k. ground (arith, owners i, roles i v, h.owned i v, fresh, er);
        sole = λ i v k. ground (arith, owners i, roles i v, h.sole i v, er);
        housed = λ i v k. ground (arith, owners i, roles i v, h.housed i v, there, er);
      }

  -- The caller is demoted, and the new owner is promoted and named.
  pub hand_over-HasOneOwner :
      (f c n : ℕ)
      → role_of f c s ≡ some owner
      → role_of f n s ≢ none
      → HasOneOwner (set_owner_row f n (promote_row f n (set_role_row f c admin s)))
  hand_over-HasOneOwner f c n caller joined =
      let s1 = set_role_row f c admin s in
      let s2 = promote_row f n s1 in
      record {
        owned = λ i v k. ground (
          arith,
          owner_of-set_owner_row s2 f n i,
          set_owner_row-members s2 f n i v,
          promote_row-families s1 f n i,
          role_of-promote_row s1 f n i v,
          set_role_row-families s f c admin i,
          role_of-set_role_row s f c admin i v,
          h.owned i v,
          h.owned i c,
          h.sole f c,
        );
        sole = λ i v k. ground (
          arith,
          owner_of-set_owner_row s2 f n i,
          set_owner_row-members s2 f n i v,
          promote_row-families s1 f n i,
          role_of-promote_row s1 f n i v,
          set_role_row-families s f c admin i,
          role_of-set_role_row s f c admin i v,
          h.sole i v,
          h.sole f c,
        );
        housed = λ i v k. ground (
          arith,
          owner_of-set_owner_row s2 f n i,
          set_owner_row-members s2 f n i v,
          promote_row-families s1 f n i,
          role_of-promote_row s1 f n i v,
          set_role_row-families s f c admin i,
          role_of-set_role_row s f c admin i v,
          h.housed i v,
          h.sole f c,
        );
      }

  pub drop_family-HasOneOwner : (f : ℕ) (s' : Store) → drop_family f s ≡ done tt s' → HasOneOwner s'
  drop_family-HasOneOwner f s' e =
      let (owners, roles) = drop_family-done f s s' e in
      record {
        owned = λ i v k. ground (arith, owners i, roles i v, h.owned i v);
        sole = λ i v k. ground (arith, owners i, roles i v, h.sole i v);
        housed = λ i v k. ground (arith, owners i, roles i v, h.housed i v);
      }
