-- ===== src/Account/Rows.antt =====
-- What the statements of the account service do to the rows of `accounts`
-- (server/internal/account/service.go).
use native.Mathlib.Decide.{ℕ_discrete}
use family_ledger.Base.{
  ℕ, ◌≡◌, ◌≢◌, refl, ap, ◌∙◌, true, false, none, some, List, [], ◌∷◌, arith, inl, inr, Option-cases,
}
use family_ledger.Base.Int.{ℤ, pos, pos_part, neg_part, ◌+ℤ◌, ◌-ℤ◌, ◌≤ℤ◌, int_laws}
use family_ledger.Db.{done}
use family_ledger.Store.{Account, Transfer, Store, find_account, update_account}
use family_ledger.Account.{deduct, credit, find_active, find_live, insert_transfer}

-- All the money in the accounts, as an exact sum.
abbrev pub total : List Account → ℤ
total [] = pos 0
total (a ∷ l) = a.balance +ℤ total l

pub total-update :
    (i : ℕ) (f : Account → Account) (l : List Account) (a : Account)
    → find_account i l ≡ some a
    → total (update_account i f l) +ℤ a.balance ≡ total l +ℤ (f a).balance
unfolding find_account update_account
total-update i f [] a e = cc
total-update i f (b ∷ l) a e = grind (int_laws, total-update i f l a)

pub find-update_ne :
    (i j : ℕ) (f : Account → Account) (l : List Account)
    → ((a : Account) → (f a).id ≡ a.id)
    → j ≢ i
    → find_account j (update_account i f l) ≡ find_account j l
unfolding find_account update_account
find-update_ne i j f [] same ne = refl
find-update_ne i j f (a ∷ l) same ne = ground (arith, same a, find-update_ne i j f l same ne)

pub find-update_self :
    (i : ℕ) (f : Account → Account) (l : List Account) (a : Account)
    → ((a : Account) → (f a).id ≡ a.id)
    → find_account i l ≡ some a
    → find_account i (update_account i f l) ≡ some (f a)
unfolding find_account update_account
find-update_self i f [] a same e = cc
find-update_self i f (b ∷ l) a same e = ground (arith, same b, find-update_self i f l a same)

update_missing :
    (i : ℕ) (f : Account → Account) (l : List Account)
    → find_account i l ≡ none
    → update_account i f l ≡ l
unfolding find_account update_account
update_missing i f [] e = refl
update_missing i f (a ∷ l) e = ground (arith, update_missing i f l)

-- The row with a balance changed by an amount.
abbrev pub with_balance : Account → ℤ → Account
with_balance a z = record a { balance = z }

pub deduct-done :
    (i : ℕ) (x : ℤ) (s : Store) {b : ℤ} {t : Store}
    → deduct i x s ≡ done b t
    → (a : Account) × (find_account i s.accounts ≡ some a)
      × (x ≤ℤ a.balance)
      × (t ≡ record s {
        accounts = update_account i (λ a. with_balance a (a.balance -ℤ x)) s.accounts;
      })
unfolding deduct
deduct-done i x s e = elim (Option-cases (find_account i s.accounts)) [
  | inl missing ↦ absurd (ground arith)
  | inr (a, found) ↦ (a, found, ground arith, ground arith)
]

pub credit-done :
    (i : ℕ) (x : ℤ) (s t : Store)
    → credit i x s ≡ done tt t
    → t ≡ record s { accounts = update_account i (λ a. with_balance a (a.balance +ℤ x)) s.accounts }
unfolding credit
credit-done i x s t e = elim (Option-cases (find_account i s.accounts)) [
  | inl missing ↦
      ground (arith, update_missing i (λ a. with_balance a (a.balance +ℤ x)) s.accounts missing)
  | inr (a, found) ↦ ground arith
]

pub find_active-some :
    (i : ℕ) (s : Store) (a : Account)
    → find_active i s ≡ some a
    → (find_account i s.accounts ≡ some a) × (a.is_active ≡ true) × (a.deleted ≡ false)
unfolding find_active
find_active-some i s a e = ground arith

pub find_live-some :
    (i : ℕ) (s : Store) (a : Account)
    → find_live i s ≡ some a
    → (find_account i s.accounts ≡ some a) × (a.deleted ≡ false)
unfolding find_live
find_live-some i s a e = ground arith

pub insert_transfer-done :
    (t u : Transfer) (s s' : Store)
    → insert_transfer t s ≡ done u s'
    → (u ≡ t) × (s' ≡ record s { transfers = t ∷ s.transfers })
unfolding insert_transfer
insert_transfer-done t u s s' e = ground arith

total_cancel : (t2 b t1 x f t0 : ℤ) → t2 +ℤ b ≡ t1 +ℤ (b +ℤ x) → t1 +ℤ f ≡ t0 +ℤ (f -ℤ x) → t2 ≡ t0
total_cancel t2 b t1 x f t0 e d =
    omega (int_laws, ap pos_part e, ap neg_part e, ap pos_part d, ap neg_part d)

-- Both updates of one transfer, on the rows.
module _ (l : List Account) (from_id to_id : ℕ) (x : ℤ) (from to : Account)
    (found_from : find_account from_id l ≡ some from)
    (found_to : find_account to_id l ≡ some to) where
  abbrev pub after_deduct : List Account
  after_deduct = update_account from_id (λ a. with_balance a (a.balance -ℤ x)) l

  abbrev pub after_credit : List Account
  after_credit = update_account to_id (λ a. with_balance a (a.balance +ℤ x)) after_deduct

  target_found : (b : Account) × (find_account to_id after_deduct ≡ some b)
  target_found = elim (ℕ_discrete to_id from_id) [
    | yes same ↦ (
      with_balance from (from.balance -ℤ x),
      rw same (
          find-update_self from_id (λ a. with_balance a (a.balance -ℤ x)) l from (λ a. refl)
            found_from),
    )
    | no other ↦ (
      to,
      find-update_ne from_id to_id (λ a. with_balance a (a.balance -ℤ x)) l (λ a. refl) other
          ∙ found_to,
    )
  ]

  pub after_credit-total : total after_credit ≡ total l
  after_credit-total =
      let (b, found) = target_found in
      total_cancel (total after_credit) b.balance (total after_deduct) x from.balance (total l)
        (total-update to_id (λ a. with_balance a (a.balance +ℤ x)) after_deduct b found)
        (total-update from_id (λ a. with_balance a (a.balance -ℤ x)) l from found_from)

  pub after_credit-from :
      from_id ≢ to_id
      → find_account from_id after_credit ≡ some (with_balance from (from.balance -ℤ x))
  after_credit-from ne =
      find-update_ne to_id from_id (λ a. with_balance a (a.balance +ℤ x)) after_deduct (λ a. refl)
        ne
      ∙ find-update_self from_id (λ a. with_balance a (a.balance -ℤ x)) l from (λ a. refl)
          found_from

  pub after_credit-to :
      to_id ≢ from_id → find_account to_id after_credit ≡ some (with_balance to (to.balance +ℤ x))
  after_credit-to ne =
      find-update_self to_id (λ a. with_balance a (a.balance +ℤ x)) after_deduct to (λ a. refl)
        (find-update_ne from_id to_id (λ a. with_balance a (a.balance -ℤ x)) l (λ a. refl) ne
          ∙ found_to)

  pub after_credit-other :
      (j : ℕ) → j ≢ from_id → j ≢ to_id → find_account j after_credit ≡ find_account j l
  after_credit-other j nf nt =
      find-update_ne to_id j (λ a. with_balance a (a.balance +ℤ x)) after_deduct (λ a. refl) nt
      ∙ find-update_ne from_id j (λ a. with_balance a (a.balance -ℤ x)) l (λ a. refl) nf
