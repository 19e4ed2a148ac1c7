-- ===== src/Family/Requests.antt =====
-- The family service (server/internal/family/service.go) as a state machine: its requests, one
-- after the other, with any failures of the database.
use Prim.Native.String.{String}
use family_ledger.Base.{ℕ, ◌≡◌, refl, Bool, Option, List, []}
use family_ledger.Db.{M, Result, ok, err, World, idle}
use family_ledger.Db.Triple.{Post}
use family_ledger.Store.{Uuid, Permissions, Store, find_family, find_member}
use family_ledger.Family.{FamilyRole, create_family}
use family_ledger.Family.Joining.{join_family, generate_invite_code}
use family_ledger.Family.Roles.{set_member_role, set_member_permissions, leave_family}
use family_ledger.Family.Owning.{transfer_ownership, delete_family}
use family_ledger.Family.Ownership.{HasOneOwner}
use family_ledger.Family.Keeping.{
  Keeps, create_family-Keeps, join_family-Keeps, generate_invite_code-Keeps, set_member_role-Keeps,
  set_member_permissions-Keeps, leave_family-Keeps,
}
use family_ledger.Family.Handing.{unrelated, transfer_ownership-Keeps, delete_family-Keeps}

-- The requests that change a table, with what the server draws for them: ids, codes, the time.
pub data Request : Type 0 where
  create : (new_id : ℕ) (code : String) (expires_at : ℕ) (name : String) → Request
  join : (now : ℕ) (invite_code : String) → Request
  invite : (code : String) (expires_at : ℕ) (family_id : String) → Request
  set_role : (family_id user_id : String) → FamilyRole → Request
  set_permissions : (family_id user_id : String) → Option Permissions → Request
  leave : (family_id : String) → Request
  hand_to : (family_id new_owner_id : String) → Request
  delete : (family_id : String) → Request

-- The tables after a request of the user in the context.
unfoldable pub serve : Uuid → Option String → Request → World Store → Store
serve ids ctx (create new_id code expires_at name) w =
    (create_family ids ctx new_id code expires_at name w).1.store
serve ids ctx (join now invite_code) w = (join_family ids ctx now invite_code w).1.store
serve ids ctx (invite code expires_at family_id) w =
    (generate_invite_code ids ctx code expires_at family_id w).1.store
serve ids ctx (set_role family_id user_id role) w =
    (set_member_role ids ctx family_id user_id role w).1.store
serve ids ctx (set_permissions family_id user_id p) w =
    (set_member_permissions ids ctx family_id user_id p w).1.store
serve ids ctx (leave family_id) w = (leave_family ids ctx family_id w).1.store
serve ids ctx (hand_to family_id new_owner_id) w =
    (transfer_ownership ids ctx family_id new_owner_id w).1.store
serve ids ctx (delete family_id) w = (delete_family ids ctx family_id w).1.store

-- The tables that can come about: from tables without a family, by requests, and by whatever the
-- other services do to the other tables.
pub data Reachable (ids : Uuid) : Store → Type 0 where
  start : (s : Store) → s.families ≡ [] → s.members ≡ [] → Reachable ids s
  request :
      (s : Store) (ctx : Option String) (req : Request) (faults : List Bool)
      → Reachable ids s
      → Reachable ids (serve ids ctx req (record { store = s; session = idle; faults = faults }))
  elsewhere :
      (s s' : Store)
      → s'.families ≡ s.families
      → s'.members ≡ s.members
      → Reachable ids s
      → Reachable ids s'

Post-HasOneOwner :
    {A : Type 0} (r : Result A) (s : Store)
    → Post (λ _. HasOneOwner) HasOneOwner r s
    → HasOneOwner s
Post-HasOneOwner (ok a) s h = h
Post-HasOneOwner (err c) s h = h

kept :
    {A : Type 0} {m : M Store A} (w : World Store)
    → Keeps m
    → HasOneOwner w.store
    → HasOneOwner (m w).1.store
kept {m} w k h = Post-HasOneOwner (m w).0 (m w).1.store (k.run w h)

serve-HasOneOwner :
    (ids : Uuid) (ctx : Option String) (req : Request) (w : World Store)
    → HasOneOwner w.store
    → HasOneOwner (serve ids ctx req w)
unfolding serve
serve-HasOneOwner ids ctx (create new_id code expires_at name) w h =
    kept w (create_family-Keeps ids ctx new_id code expires_at name) h
serve-HasOneOwner ids ctx (join now invite_code) w h =
    kept w (join_family-Keeps ids ctx now invite_code) h
serve-HasOneOwner ids ctx (invite code expires_at family_id) w h =
    kept w (generate_invite_code-Keeps ids ctx code expires_at family_id) h
serve-HasOneOwner ids ctx (set_role family_id user_id role) w h =
    kept w (set_member_role-Keeps ids ctx family_id user_id role) h
serve-HasOneOwner ids ctx (set_permissions family_id user_id p) w h =
    kept w (set_member_permissions-Keeps ids ctx family_id user_id p) h
serve-HasOneOwner ids ctx (leave family_id) w h = kept w (leave_family-Keeps ids ctx family_id) h
serve-HasOneOwner ids ctx (hand_to family_id new_owner_id) w h =
    kept w (transfer_ownership-Keeps ids ctx family_id new_owner_id) h
serve-HasOneOwner ids ctx (delete family_id) w h = kept w (delete_family-Keeps ids ctx family_id) h

no_families : (s : Store) → s.families ≡ [] → s.members ≡ [] → HasOneOwner s
unfolding find_family find_member
no_families s families members = record {
  owned = λ i u k. cc (rw families at k);
  sole = λ i u k. cc (rw members at k);
  housed = λ i u k. rw members refl;
}

-- In all tables that requests can bring about, one after the other and with any failures of the
-- database, every family has exactly one member with the role of owner, the one whom the row of the
-- family names, and whoever is a member is so of a family that exists.
pub Reachable-HasOneOwner : (ids : Uuid) (s : Store) → Reachable ids s → HasOneOwner s
Reachable-HasOneOwner ids s (start _ families members) = no_families s families members
Reachable-HasOneOwner ids s (request before ctx req faults r) =
    serve-HasOneOwner ids ctx req (record { store = before; session = idle; faults = faults })
      (Reachable-HasOneOwner ids before r)
Reachable-HasOneOwner ids s (elsewhere before _ families members r) =
    unrelated before s families members (Reachable-HasOneOwner ids before r)
