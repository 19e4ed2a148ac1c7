-- ===== src/Family/Changes.antt =====
-- What the statements of the family service (server/internal/family/service.go) that may fail do to
-- roles and owners.
use Prim.Native.String.{String}
use family_ledger.Base.{
  ℕ, ◌≡◌, ◌≢◌, inl, inr, Option-cases, refl, none, some, ◌∷◌, ◌==◌, arith, if◌then◌else◌,
}
use family_ledger.Db.{done}
use family_ledger.Store.{
  Permissions, Family, Member, Store, find_member, update_member, delete_members_of, find_family,
  update_family, delete_family_row,
}
use family_ledger.Family.{insert_family, insert_member}
use family_ledger.Family.Joining.{set_invite_code}
use family_ledger.Family.Roles.{set_permissions_row, with_permissions}
use family_ledger.Family.Owning.{drop_family}
use family_ledger.Family.Rows.{
  role_in, owner_in, role_of, owner_of, is_same, find-with_permissions, find-delete_members_of,
  find-delete_family_row, find-set_code,
}

-- Two stores with the same owners and roles.
pub record SameRoles (s s' : Store) : Type 0 where
  pub owners : (i : ℕ) → owner_of i s' ≡ owner_of i s
  pub roles : (i u : ℕ) → role_of i u s' ≡ role_of i u s

set_permissions_row-done :
    (f u : ℕ) (p : Permissions) (s s' : Store)
    → set_permissions_row f u p s ≡ done tt s'
    → s' ≡ record s { members = update_member f u (with_permissions p) s.members }
unfolding set_permissions_row
set_permissions_row-done f u p s s' e = elim (Option-cases (find_member f u s.members)) [
  | inl missing ↦ absurd (ground arith)
  | inr (m, found) ↦ ground arith
]

pub set_permissions_row-SameRoles :
    (f u : ℕ) (p : Permissions) (s s' : Store)
    → set_permissions_row f u p s ≡ done tt s'
    → SameRoles s s'
set_permissions_row-SameRoles f u p s s' e =
    rw (set_permissions_row-done f u p s s' e)
      (record { owners = λ i. refl; roles = λ i v. find-with_permissions f u p s.members i v })

set_invite_code-done :
    (f : ℕ) (code : String) (t : ℕ) (s s' : Store)
    → set_invite_code f code t s ≡ done tt s'
    → s' ≡ record s {
      families =
          update_family f
            (λ x. record x { invite_code = code; invite_expires_at = some t })
            s.families;
    }
unfolding set_invite_code
set_invite_code-done f code t s s' e = ground arith

pub set_invite_code-SameRoles :
    (f : ℕ) (code : String) (t : ℕ) (s s' : Store)
    → set_invite_code f code t s ≡ done tt s'
    → SameRoles s s'
set_invite_code-SameRoles f code t s s' e =
    rw (set_invite_code-done f code t s s' e)
      (record { owners = λ i. find-set_code f t code s.families i; roles = λ i v. refl })

-- A new family has its owner, and was not there before.
pub insert_family-done :
    (f : Family) (s s' : Store)
    → insert_family f s ≡ done tt s'
    → (owner_of f.id s ≡ none)
      × ((i : ℕ) → owner_of i s' ≡ (if f.id == i then some f.owner_id else owner_of i s))
      × ((i u : ℕ) → role_of i u s' ≡ role_of i u s)
unfolding insert_family find_family
insert_family-done f s s' e = elim (Option-cases (find_family f.id s.families)) [
  | inr (x, found) ↦ absurd (ground arith)
  | inl missing ↦
      let e' : s' ≡ record s { families = f ∷ s.families } = ground arith in
      (rw missing refl, rw e' (λ i. inserted i), rw e' (λ i u. refl))
]
  where
    inserted :
        (i : ℕ)
        → owner_in (find_family i (f ∷ s.families))
          ≡ (if f.id == i then some f.owner_id else owner_in (find_family i s.families))
    inserted i = ground arith

-- A new member was not in the family, which there is.
pub insert_member-done :
    (m : Member) (s s' : Store)
    → insert_member m s ≡ done tt s'
    → (role_of m.family_id m.user_id s ≡ none)
      × (owner_of m.family_id s ≢ none)
      × ((i : ℕ) → owner_of i s' ≡ owner_of i s)
      × ((i u : ℕ)
          → role_of i u s'
            ≡ (if is_same m.family_id m.user_id i u then some m.role else role_of i u s))
unfolding insert_member find_member
insert_member-done m s s' e = elim (Option-cases (find_family m.family_id s.families)) [
  | inl missing ↦ absurd (ground arith)
  | inr (f, found) ↦ elim (Option-cases (find_member m.family_id m.user_id s.members)) [
    | inr (x, joined) ↦ absurd (ground arith)
    | inl new ↦
        let e' : s' ≡ record s { members = m ∷ s.members } = ground arith in
        (rw new refl, rw found (λ k. cc), rw e' (λ i. refl), rw e' (λ i u. inserted i u))
  ]
]
  where
    inserted :
        (i u : ℕ)
        → role_in (find_member i u (m ∷ s.members)) ≡ (
            if is_same m.family_id m.user_id i u
            then some m.role
            else role_in (find_member i u s.members))
    inserted i u = ground arith

-- Without references, a family is dropped with its members.
pub drop_family-done :
    (f : ℕ) (s s' : Store)
    → drop_family f s ≡ done tt s'
    → ((i : ℕ) → owner_of i s' ≡ (if f == i then none else owner_of i s))
      × ((i u : ℕ) → role_of i u s' ≡ (if f == i then none else role_of i u s))
unfolding drop_family
drop_family-done f s s' e =
    let e' : s' ≡ record s {
      families = delete_family_row f s.families;
      members = delete_members_of f s.members;
    } =
      ground arith in
    (
      rw e' (λ i. find-delete_family_row f s.families i),
      rw e' (λ i u. find-delete_members_of f s.members i u),
    )
