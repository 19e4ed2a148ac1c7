-- ===== src/Family/Examples.antt =====
-- A family from its creation to its end, over unary identifiers.
use family_ledger.Base.{◌≡◌, ◌≢◌, refl, some, []}
use family_ledger.Db.{
  ok, World, idle, pure, raise, statement, query, exec, raise_if, or_raise, atomically,
  ignore_error, ◌>>=◌, ◌>>◌,
}
use family_ledger.Store.{
  owner, admin, member, Store, find_family, find_member, get_user_id, update_member, update_family,
}
use family_ledger.Account.Examples.{ids, strokes, tables}
use family_ledger.Family.{
  create_family, create_family_rows, insert_family, insert_member, has_code, owner_permissions,
  require_role, role_allowed, log_audit, insert_audit, text_length,
}
use family_ledger.Family.Joining.{join_family, join_by_code, find_by_code}
use family_ledger.Family.Roles.{set_member_permissions, set_role_row}
use family_ledger.Family.Owning.{
  delete_family, transfer_ownership, hand_over, joined_row, promote_row, set_owner_row,
  has_family_account,
}
use family_ledger.Family.Rows.{role_of, owner_of}
use family_ledger.Family.Ownership.{HasOneOwner}
use family_ledger.Family.Requests.{
  create, join, hand_to, serve, Reachable, start, request, Reachable-HasOneOwner,
}
use family_ledger.Family.Deleting.{delete_family_blocked}
use family_ledger.Family.Logging.{set_member_permissions-unlogged}

abbrev no_family : Store
no_family = record tables { members = [] }

abbrev on : Store → World Store
on s = record { store = s; session = idle; faults = [] }

-- User 0 makes family 7, user 4 joins, and gets it.
abbrev made : Store
made = serve ids (some "1") (create 7 "code" 100 "home") (on no_family)

abbrev joined : Store
joined = serve ids (some "11111") (join 50 "code") (on made)

abbrev handed : Store
handed = serve ids (some "1") (hand_to (strokes 7) (strokes 4)) (on joined)

handed-Reachable : Reachable ids handed
handed-Reachable = request joined (some "1") (hand_to (strokes 7) (strokes 4)) [] (
    request made (some "11111") (join 50 "code") []
      (request no_family (some "1") (create 7 "code" 100 "home") [] (start no_family refl refl)))

Reachable-HasOneOwner_example : HasOneOwner handed
Reachable-HasOneOwner_example = Reachable-HasOneOwner ids handed handed-Reachable

owners :
    (owner_of 7 made ≡ some 0)
    × (role_of 7 0 made ≡ some owner)
    × (role_of 7 4 joined ≡ some member)
    × (owner_of 7 handed ≡ some 4)
    × (role_of 7 4 handed ≡ some owner)
    × (role_of 7 0 handed ≡ some admin)
unfolding serve create_family create_family_rows insert_family insert_member has_code
    owner_permissions require_role role_allowed log_audit insert_audit text_length join_family
    join_by_code find_by_code transfer_ownership hand_over joined_row set_role_row promote_row
    set_owner_row atomically statement query exec raise_if or_raise pure raise ignore_error ◌>>=◌
    ◌>>◌ get_user_id find_family find_member update_member update_family
owners = (refl, refl, refl, refl, refl, refl)

-- Account 1 belongs to family 7.
delete_family_blocked_example :
    let w = on (record made { accounts = tables.accounts }) in
    ((delete_family ids (some "1") (strokes 7) w).0 ≢ ok tt)
    × ((delete_family ids (some "1") (strokes 7) w).1.store ≡ w.store)
unfolding has_family_account
delete_family_blocked_example =
    delete_family_blocked ids (some "1") (strokes 7) 7
      (on (record made { accounts = tables.accounts })) refl refl

set_member_permissions-unlogged_example :
    (set_member_permissions ids
      (some "1")
      (strokes 7)
      (strokes 4)
      (some owner_permissions)
      (on joined)).1.store.audit_logs
    ≡ joined.audit_logs
set_member_permissions-unlogged_example =
    set_member_permissions-unlogged ids (some "1") (strokes 7) (strokes 4) (some owner_permissions)
      (on joined)
