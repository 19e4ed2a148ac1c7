-- ===== src/Account/Transferring.antt =====
-- `TransferBetween` of server/internal/account/service.go moves money, and makes and loses none.
use Prim.Native.String.{String}
use mathlib.Core.Path.{subst}
use family_ledger.Base.{
  ◌≡◌, ◌⊎◌, inl, inr, refl, sym, ◌∙◌, some_inj, true, not, some, List, [], ◌∷◌, arith,
}
use text.Mathlib.Text.{◌==◌ as str_eq}
use family_ledger.Base.Int.{ℤ, ◌+ℤ◌, ◌-ℤ◌, ◌≤ℤ◌}
use family_ledger.Db.{done}
use family_ledger.Db.Triple.{
  Triple, pure-Triple, raise-Triple, bind-Triple, then-Triple, query-Triple, if-Triple,
  weaken-Triple, with_code-Triple, done-Triple,
}
use family_ledger.Store.{is_empty, Uuid, Account, Transfer, Store, update_account}
use family_ledger.Permission.Granted.{Granted, check-Triple}
use family_ledger.Account.{
  PermKey, required_by, family_text, check_account_access, find_active, deduct, credit,
  insert_transfer, move_funds,
}
use family_ledger.Account.Rows.{
  with_balance, deduct-done, credit-done, find_active-some, insert_transfer-done,
}

-- The caller owns the account, or the account's family lets the caller in.
abbrev pub MayUse : Uuid → String → List PermKey → Account → Store → Type 0
MayUse ids caller_id keys a s =
    (str_eq (ids.text a.user_id) caller_id ≡ true)
    ⊎ Granted ids caller_id (family_text ids a.family_id) (required_by keys) s

pub check_account_access-Triple :
    (ids : Uuid) (a : Account) (caller_id : String) (keys : List PermKey) {P E : Store → Type 0}
    → ((s : Store) → P s → E s)
    → Triple P
        (check_account_access ids (ids.text a.user_id) (family_text ids a.family_id) caller_id keys)
        (λ _ s. P s × MayUse ids caller_id keys a s)
        E
unfolding check_account_access
check_account_access-Triple ids a caller_id keys stays =
    if-Triple _ (λ own. pure-Triple tt (λ s p. (p, inl own)))
      (λ _.
        if-Triple _
          (λ shared.
            weaken-Triple (check-Triple ids caller_id (family_text ids a.family_id) _ stays)
              (λ _ s p. (p.0, in_family shared p.1)))
          (λ _. raise-Triple _ stays))
  where
    in_family :
        {s : Store}
        → not (is_empty (family_text ids a.family_id)) ≡ true
        → (is_empty (family_text ids a.family_id) ≡ true)
          ⊎ Granted ids caller_id (family_text ids a.family_id) (required_by keys) s
        → MayUse ids caller_id keys a s
    in_family shared (inl empty) = absurd (ground arith)
    in_family shared (inr g) = inr g

-- What a transfer has done to the tables `s`.
pub record Moved (ids : Uuid) (caller_id : String) (s : Store) (t : Transfer) (s' : Store)
    : Type 0 where
  pub from : Account
  pub to : Account
  pub from_active : find_active t.from_account_id s ≡ some from
  pub to_active : find_active t.to_account_id s ≡ some to
  pub may_take : MayUse ids caller_id [] from s
  pub may_give : MayUse ids caller_id [] to s
  pub covered : t.amount ≤ℤ from.balance
  pub moved :
      s'.accounts
      ≡ update_account t.to_account_id
          (λ a. with_balance a (a.balance +ℤ t.amount))
          (update_account t.from_account_id
            (λ a. with_balance a (a.balance -ℤ t.amount))
            s.accounts)
  pub logged : s'.transfers ≡ t ∷ s.transfers

three_statements :
    (ids : Uuid) (user_id : String) (t t' : Transfer) (s s1 s2 s3 : Store) (from to : Account)
    (b : ℤ)
    → find_active t.from_account_id s ≡ some from
    → find_active t.to_account_id s ≡ some to
    → MayUse ids user_id [] from s
    → MayUse ids user_id [] to s
    → deduct t.from_account_id t.amount s ≡ done b s1
    → credit t.to_account_id t.amount s1 ≡ done tt s2
    → insert_transfer t s2 ≡ done t' s3
    → (t' ≡ t) × Moved ids user_id s t s3
three_statements ids user_id t t' s s1 s2 s3 from to b found_from found_to take give d c l =
    let (a, found, enough, e1) = deduct-done t.from_account_id t.amount s d in
    let e2 = credit-done t.to_account_id t.amount s1 s2 c in
    let (e, e3) = insert_transfer-done t t' s2 s3 l in
    let same : a ≡ from =
      some_inj (sym found ∙ (find_active-some t.from_account_id s from found_from).0) in
    (
      e,
      record {
        from = from;
        to = to;
        from_active = found_from;
        to_active = found_to;
        may_take = take;
        may_give = give;
        covered = rw (← same) enough;
        moved = rw (e3, e2, e1) refl;
        logged = rw (e3, e2, e1) refl;
      },
    )

pub move_funds-Moved :
    (ids : Uuid) (user_id : String) (t : Transfer) (s : Store)
    → Triple
        (λ s'. s' ≡ s)
        (move_funds ids user_id t)
        (λ t' s'. (t' ≡ t) × Moved ids user_id s t s')
        (λ _. Unit {0})
unfolding move_funds
move_funds-Moved ids user_id t s = bind-Triple (query-Triple (λ _ _. tt) _ _) λ from.
    bind-Triple (query-Triple (λ _ _. tt) _ _) λ to.
      then-Triple (with_code-Triple _ (check_account_access-Triple ids from user_id [] (λ _ _. tt)))
        λ _.
          then-Triple
            (with_code-Triple _ (check_account_access-Triple ids to user_id [] (λ _ _. tt)))
            λ _. then-Triple (done-Triple (λ _ _. tt) _ _ _) λ b.
              then-Triple (done-Triple (λ _ _. tt) _ _ _) λ _.
                weaken-Triple (done-Triple (λ _ _. tt) _ _ _) λ t' s' p. unpack from to b t' s' p
  where
    unpack :
        (from to : Account) (b : ℤ) (t' : Transfer) (s3 : Store)
        → (s2 : Store) × ((s1 : Store) × ((s0 : Store) × (((((s0 ≡ s)
                      × (find_active t.from_account_id s0 ≡ some from))
                    × (find_active t.to_account_id s0 ≡ some to))
                  × MayUse ids user_id [] from s0)
                × MayUse ids user_id [] to s0)
              × (deduct t.from_account_id t.amount s0 ≡ done b s1))
            × (credit t.to_account_id t.amount s1 ≡ done tt s2))
          × (insert_transfer t s2 ≡ done t' s3)
        → (t' ≡ t) × Moved ids user_id s t s3
    unpack from to b t' s3 (s2, (s1, (s0, ((((e, f), g), m), n), d), c), l) =
        subst (λ (s : Store). (t' ≡ t) × Moved ids user_id s t s3) e
          (three_statements ids user_id t t' s0 s1 s2 s3 from to b f g m n d c l)
