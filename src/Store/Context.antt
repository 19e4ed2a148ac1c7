-- ===== src/Store/Context.antt =====
-- The user of a request: `GetUserID` of server/pkg/middleware/auth.go.
use Prim.Native.String.{String}
use family_ledger.Base.{◌≡◌, refl, false, Option, none, some}
use family_ledger.Db.Triple.{Triple, if-Triple, pure-Triple, raise-Triple}
use family_ledger.Store.{get_user_id, is_empty}

-- A request without a user, or with an empty one, is refused.
pub get_user_id-Triple :
    {S : Type 0} (ctx : Option String) {P E : S → Type 0}
    → ((s : S) → P s → E s)
    → Triple P (get_user_id ctx) (λ u s. P s × (ctx ≡ some u) × (is_empty u ≡ false)) E
unfolding get_user_id
get_user_id-Triple none stays = raise-Triple _ stays
get_user_id-Triple (some u) stays =
    if-Triple (is_empty u) (λ _. raise-Triple _ stays) (λ e. pure-Triple u (λ s p. (p, refl, e)))
