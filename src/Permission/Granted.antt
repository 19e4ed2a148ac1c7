-- ===== src/Permission/Granted.antt =====
-- What `permission.Check` (server/pkg/permission/check.go) lets through.
use Prim.Native.String.{String}
use mathlib.Core.Path.{subst}
use family_ledger.Base.{ℕ, ◌≡◌, ◌⊎◌, ◌↔◌, refl, inl, inr, Bool, true, some, [], arith}
use family_ledger.Db.{World, idle, ok, internal, pure, ◌>>=◌, query, raise_if, or_raise}
use family_ledger.Db.Triple.{
  Triple, Post, pure-Triple, bind-Triple, query-Triple, or_raise-Triple, raise_if-Triple, if-Triple,
  weaken-Triple,
}
use family_ledger.Store.{is_empty, Uuid, Permissions, Member, Store, find_member}
use family_ledger.Permission.{is_manager, check_row, check}

-- The caller belongs to the family, and is its owner or an admin or has the permission.
pub record Granted (ids : Uuid) (user_id family_id : String) (required : Permissions → Bool)
    (s : Store) : Type 0 where
  pub uid : ℕ
  pub fid : ℕ
  pub row : Member
  pub caller : ids.parse user_id ≡ some uid
  pub family : ids.parse family_id ≡ some fid
  pub joined : find_member fid uid s.members ≡ some row
  pub enough :
      (is_manager row.role ≡ true)
      ⊎ ((p : Permissions) × (row.permissions ≡ some p) × (required p ≡ true))

-- What the row of a member has to say.
abbrev pub IsEnough : (Permissions → Bool) → Member → Type 0
IsEnough required row =
    (is_manager row.role ≡ true)
    ⊎ ((p : Permissions) × (row.permissions ≡ some p) × (required p ≡ true))

pub check_row-Triple :
    (required : Permissions → Bool) (m : Member) {P E : Store → Type 0}
    → ((s : Store) → P s → E s)
    → Triple P (check_row required m) (λ _ s. P s × IsEnough required m) E
unfolding check_row
check_row-Triple required m stays =
    if-Triple (is_manager m.role) (λ manages. pure-Triple tt (λ s p. (p, inl manages)))
      (λ _. bind-Triple (or_raise-Triple stays m.permissions internal) λ perms.
        weaken-Triple (raise_if-Triple (λ s p. stays s p.0) _ _)
          λ _ s p. (p.0.0, inr (perms, p.0.1, ground arith)))

module _ (ids : Uuid) (user_id family_id : String) (required : Permissions → Bool) where
  abbrev pub Passes : Store → Type 0
  Passes s = (is_empty family_id ≡ true) ⊎ Granted ids user_id family_id required s

  -- A check changes no table, and passes only for a personal operation or a granted one.
  pub check-Triple :
      {P E : Store → Type 0}
      → ((s : Store) → P s → E s)
      → Triple P (check ids user_id family_id required) (λ _ s. P s × Passes s) E
  unfolding check
  check-Triple stays =
      if-Triple (is_empty family_id) (λ personal. pure-Triple tt (λ s p. (p, inl personal)))
        (λ _. bind-Triple (or_raise-Triple stays _ _) λ uid.
          bind-Triple (or_raise-Triple (λ s p. stays s p.0) _ _) λ fid.
            bind-Triple (query-Triple (λ s p. stays s p.0.0) _ _) λ m.
              weaken-Triple (check_row-Triple required m (λ s p. stays s p.0.0.0)) λ _ s p. (
                p.0.0.0.0,
                inr (record {
                  uid = uid;
                  fid = fid;
                  row = m;
                  caller = p.0.0.0.1;
                  family = p.0.0.1;
                  joined = p.0.1;
                  enough = p.1;
                }),
              ))

check-accepts :
    (ids : Uuid) (user_id family_id : String) (required : Permissions → Bool) (w : World Store)
    → w.faults ≡ []
    → w.session ≡ idle
    → Passes ids user_id family_id required w.store
    → (check ids user_id family_id required w).0 ≡ ok tt
unfolding check ◌>>=◌ or_raise query pure raise_if check_row
check-accepts ids user_id family_id required w nf si (inl personal) = rw personal
check-accepts ids user_id family_id required w nf si (inr g) =
    ground (arith, g.caller, g.family, g.joined, g.enough)

check-Post :
    (ids : Uuid) (user_id family_id : String) (required : Permissions → Bool) (w : World Store)
    → Post
        (λ _ s. (s ≡ w.store) × Passes ids user_id family_id required s)
        (λ s. s ≡ w.store)
        (check ids user_id family_id required w).0
        (check ids user_id family_id required w).1.store
check-Post ids user_id family_id required w =
    (check-Triple ids user_id family_id required {P = λ s. s ≡ w.store} (λ s p. p)).run w refl

pub check-granted :
    (ids : Uuid) (user_id family_id : String) (required : Permissions → Bool) (w : World Store)
    → w.faults ≡ []
    → w.session ≡ idle
    → ((check ids user_id family_id required w).0 ≡ ok tt)
      ↔ Passes ids user_id family_id required w.store
check-granted ids user_id family_id required w nf si = (
  λ e.
      let h = rw e at (check-Post ids user_id family_id required w) in
      subst (Passes ids user_id family_id required) h.0 h.1,
  check-accepts ids user_id family_id required w nf si,
)
