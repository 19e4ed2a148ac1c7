-- ===== src/Family/Rows.antt =====
-- Who owns a family and who has which role in it, after each statement of the family service
-- (server/internal/family/service.go).
use Prim.Native.String.{String}
use family_ledger.Base.{
  ℕ, ◌≡◌, refl, Bool, Option, none, some, List, [], ◌∷◌, ◌==◌, ◌&&◌, arith, if◌then◌else◌,
}
use family_ledger.Store.{
  Role, owner, Permissions, Family, Member, Store, find_member, update_member, delete_member,
  delete_members_of, find_family, update_family, delete_family_row,
}
use family_ledger.Family.Roles.{set_role_row, leave_row, with_role, with_permissions}
use family_ledger.Family.Owning.{promote_row, set_owner_row}

abbrev pub role_in : Option Member → Option Role
role_in none = none
role_in (some m) = some m.role

abbrev pub owner_in : Option Family → Option ℕ
owner_in none = none
owner_in (some f) = some f.owner_id

-- The role of a user in a family.
abbrev pub role_of : ℕ → ℕ → Store → Option Role
role_of f u s = role_in (find_member f u s.members)

-- The owner that the row of a family names.
abbrev pub owner_of : ℕ → Store → Option ℕ
owner_of f s = owner_in (find_family f s.families)

abbrev pub is_same : ℕ → ℕ → ℕ → ℕ → Bool
is_same f u f' u' = (f == f') && (u == u')

-- The role that an update of a row leaves.
abbrev pub replaced : Role → Option Role → Option Role
replaced r none = none
replaced r (some _) = some r

find-with_role :
    (f u : ℕ) (r : Role) (l : List Member)
    → (i v : ℕ)
    → role_in (find_member i v (update_member f u (with_role r) l)) ≡ (
        if is_same f u i v
        then replaced r (role_in (find_member i v l))
        else role_in (find_member i v l))
unfolding find_member update_member
find-with_role f u r [] i v = ground arith
find-with_role f u r (m ∷ l) i v = ground (arith, find-with_role f u r l i v)

find-promoted :
    (f u : ℕ) (p : Permissions) (l : List Member) (i v : ℕ)
    → role_in (
        find_member i v
          (update_member f u (λ m. record m { role = owner; permissions = some p }) l))
      ≡ (if is_same f u i v
          then replaced owner (role_in (find_member i v l))
          else role_in (find_member i v l))
unfolding find_member update_member
find-promoted f u p [] i v = ground arith
find-promoted f u p (m ∷ l) i v = ground (arith, find-promoted f u p l i v)

pub find-with_permissions :
    (f u : ℕ) (p : Permissions) (l : List Member) (i v : ℕ)
    → role_in (find_member i v (update_member f u (with_permissions p) l))
      ≡ role_in (find_member i v l)
unfolding find_member update_member
find-with_permissions f u p [] i v = ground arith
find-with_permissions f u p (m ∷ l) i v = ground (arith, find-with_permissions f u p l i v)

find-delete_member :
    (f u : ℕ) (l : List Member) (i v : ℕ)
    → role_in (find_member i v (delete_member f u l))
      ≡ (if is_same f u i v then none else role_in (find_member i v l))
unfolding find_member delete_member
find-delete_member f u [] i v = ground arith
find-delete_member f u (m ∷ l) i v = ground (arith, find-delete_member f u l i v)

pub find-delete_members_of :
    (f : ℕ) (l : List Member) (i v : ℕ)
    → role_in (find_member i v (delete_members_of f l))
      ≡ (if f == i then none else role_in (find_member i v l))
unfolding find_member delete_members_of
find-delete_members_of f [] i v = ground arith
find-delete_members_of f (m ∷ l) i v = ground (arith, find-delete_members_of f l i v)

pub find-delete_family_row :
    (f : ℕ) (l : List Family) (i : ℕ)
    → owner_in (find_family i (delete_family_row f l))
      ≡ (if f == i then none else owner_in (find_family i l))
unfolding find_family delete_family_row
find-delete_family_row f [] i = ground arith
find-delete_family_row f (x ∷ l) i = ground (arith, find-delete_family_row f l i)

abbrev pub renamed : ℕ → Option ℕ → Option ℕ
renamed u none = none
renamed u (some _) = some u

find-set_owner :
    (f u : ℕ) (l : List Family) (i : ℕ)
    → owner_in (find_family i (update_family f (λ x. record x { owner_id = u }) l))
      ≡ (if f == i then renamed u (owner_in (find_family i l)) else owner_in (find_family i l))
unfolding find_family update_family
find-set_owner f u [] i = ground arith
find-set_owner f u (x ∷ l) i = ground (arith, find-set_owner f u l i)

pub find-set_code :
    (f t : ℕ) (code : String) (l : List Family) (i : ℕ)
    → owner_in (
        find_family i
          (update_family f (λ x. record x { invite_code = code; invite_expires_at = some t }) l))
      ≡ owner_in (find_family i l)
unfolding find_family update_family
find-set_code f t code [] i = ground arith
find-set_code f t code (x ∷ l) i = ground (arith, find-set_code f t code l i)

-- What each statement does to the roles and the owners.
module _ (s : Store) where
  pub role_of-set_role_row :
      (f u : ℕ) (r : Role) (i v : ℕ)
      → role_of i v (set_role_row f u r s)
        ≡ (if is_same f u i v then replaced r (role_of i v s) else role_of i v s)
  unfolding set_role_row
  role_of-set_role_row f u r i v = find-with_role f u r s.members i v

  pub role_of-promote_row :
      (f u i v : ℕ)
      → role_of i v (promote_row f u s)
        ≡ (if is_same f u i v then replaced owner (role_of i v s) else role_of i v s)
  unfolding promote_row
  role_of-promote_row f u i v = find-promoted f u _ s.members i v

  pub role_of-leave_row :
      (f u i v : ℕ)
      → role_of i v (leave_row f u s) ≡ (if is_same f u i v then none else role_of i v s)
  unfolding leave_row
  role_of-leave_row f u i v = find-delete_member f u s.members i v

  pub owner_of-set_owner_row :
      (f u i : ℕ)
      → owner_of i (set_owner_row f u s)
        ≡ (if f == i then renamed u (owner_of i s) else owner_of i s)
  unfolding set_owner_row
  owner_of-set_owner_row f u i = find-set_owner f u s.families i

-- The statements on members leave the owners, and the other way round.
pub set_role_row-families :
    (s : Store) (f u : ℕ) (r : Role) (i : ℕ) → owner_of i (set_role_row f u r s) ≡ owner_of i s
unfolding set_role_row
set_role_row-families s f u r i = refl

pub promote_row-families : (s : Store) (f u i : ℕ) → owner_of i (promote_row f u s) ≡ owner_of i s
unfolding promote_row
promote_row-families s f u i = refl

pub leave_row-families : (s : Store) (f u i : ℕ) → owner_of i (leave_row f u s) ≡ owner_of i s
unfolding leave_row
leave_row-families s f u i = refl

pub set_owner_row-members :
    (s : Store) (f u i v : ℕ) → role_of i v (set_owner_row f u s) ≡ role_of i v s
unfolding set_owner_row
set_owner_row-members s f u i v = refl
