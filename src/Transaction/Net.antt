-- ===== src/Transaction/Net.antt =====
-- Balances against the rows of `transactions`: what the live transactions of an account come to, and
-- the rest of its balance, its opening (server/internal/transaction).
use family_ledger.Base.{
  some_inj, ℕ, ◌<◌, ◌≡◌, ◌⊎◌, refl, ap, sym, ◌∙◌, false, not, ◌&&◌, Option, none, some, List, [],
  ◌∷◌, ◌==◌, arith, inl, inr, if◌then◌else◌, Option-cases,
}
use family_ledger.Base.Int.{ℤ, pos, negsuc, pos_part, neg_part, ◌+ℤ◌, ◌-ℤ◌, -ℤ_parts, int_laws}
use family_ledger.Base.Int64.{InRange, half_word, -64_exact}
use family_ledger.Store.{
  Account, TransactionKind, income, expense, Transaction, Store, find_account, update_account,
}
use family_ledger.Account.Rows.{with_balance}
use family_ledger.Transaction.Change.{mark_deleted, revert_of}
use family_ledger.Transaction.{delta_of, find_transaction_row, update_transaction_row}

-- What a transaction of this kind and amount is worth to its account.
abbrev pub effect : TransactionKind → ℤ → ℤ
effect income x = x
effect expense x = pos 0 -ℤ x

-- What a row is worth to the account `j`: nothing, if it is deleted or of another account.
unfoldable pub part : ℕ → Transaction → ℤ
part j t = if not t.deleted && t.account_id == j then effect t.kind t.amount_cny else pos 0

unfoldable pub net : ℕ → List Transaction → ℤ
net j [] = pos 0
net j (t ∷ l) = part j t +ℤ net j l

abbrev balance_less : Option Account → ℤ → Option ℤ
balance_less none x = none
balance_less (some a) x = some (a.balance -ℤ x)

-- The balance of an account without what its live transactions come to.
unfoldable pub opening : ℕ → Store → Option ℤ
opening j s = balance_less (find_account j s.accounts) (net j s.transactions)

-- Every account keeps its opening.
abbrev pub KeepsOpenings : Store → Store → Type 0
KeepsOpenings s s' = (j : ℕ) → opening j s' ≡ opening j s

-- An amount that an int64 holds, and its negation too.
abbrev pub IsNegatable : ℤ → Type 0
IsNegatable x = (pos_part x < half_word) × (neg_part x < half_word)

pub one_part : (z : ℤ) → (pos_part z ≡ 0) ⊎ (neg_part z ≡ 0)
one_part (pos n) = inr refl
one_part (negsuc n) = inl refl

negation-InRange : (x : ℤ) → IsNegatable x → InRange (pos 0 -ℤ x)
negation-InRange x h = ground (arith, one_part x, one_part (pos 0 -ℤ x), -ℤ_parts (pos 0) x)

pub delta_of-effect : (k : TransactionKind) (x : ℤ) → IsNegatable x → delta_of k x ≡ effect k x
delta_of-effect income x h = refl
delta_of-effect expense x h = -64_exact (pos 0) x (negation-InRange x h)

pub net-update :
    (i j : ℕ) (f : Transaction → Transaction) (l : List Transaction) (t : Transaction)
    → find_transaction_row i l ≡ some t
    → net j (update_transaction_row i f l) +ℤ part j t ≡ net j l +ℤ part j (f t)
unfolding find_transaction_row update_transaction_row net
net-update i j f [] t e = cc
net-update i j f (u ∷ l) t e = grind (int_laws, net-update i j f l t)

-- An account after a change of the balance of the account `i`.
credited : (i j : ℕ) (x : ℤ) → Account → Account
credited i j x a = if i == j then with_balance a (a.balance +ℤ x) else a

find-credit :
    (i j : ℕ) (x : ℤ) (l : List Account)
    → find_account j (update_account i (λ a. with_balance a (a.balance +ℤ x)) l)
      ≡ elim (find_account j l) [ none ↦ none | some a ↦ some (credited i j x a) ]
unfolding find_account update_account credited
find-credit i j x [] = refl
find-credit i j x (a ∷ l) = ground (arith, find-credit i j x l)

pub opening-some :
    (j : ℕ) (s : Store) (a : Account)
    → find_account j s.accounts ≡ some a
    → opening j s ≡ some (a.balance -ℤ net j s.transactions)
unfolding opening
opening-some j s a e = rw (opening, e) refl

opening-none : (j : ℕ) (s : Store) → find_account j s.accounts ≡ none → opening j s ≡ none
unfolding opening
opening-none j s e = rw (opening, e) refl

-- An account with an opening is there.
pub opening-inv :
    (j : ℕ) (s : Store) (z : ℤ)
    → opening j s ≡ some z
    → (a : Account) × (find_account j s.accounts ≡ some a) × (a.balance -ℤ net j s.transactions ≡ z)
opening-inv j s z e = elim (Option-cases (find_account j s.accounts)) [
  | inl missing ↦ absurd (none_some (sym (opening-none j s missing) ∙ e))
  | inr (a, found) ↦ (a, found, some_inj (sym (opening-some j s a found) ∙ e))
]
  where
    none_some : {z : ℤ} → none ≡ some z → ⊥
    none_some e = cc

-- A change `x` of the balance of one account, and of its live transactions, keeps the openings.
pub credit-openings :
    (i : ℕ) (x : ℤ) (s s' : Store)
    → s'.accounts ≡ update_account i (λ a. with_balance a (a.balance +ℤ x)) s.accounts
    → ((j : ℕ) → net j s'.transactions ≡ net j s.transactions +ℤ (if i == j then x else pos 0))
    → KeepsOpenings s s'
unfolding credited
credit-openings i x s s' e h j =
    let after = ap (find_account j) e ∙ find-credit i j x s.accounts in
    elim (Option-cases (find_account j s.accounts)) [
      | inl missing ↦ opening-none j s' (rw missing at after) ∙ sym (opening-none j s missing)
      | inr (a, found) ↦
          opening-some j s' (credited i j x a) (rw found at after)
          ∙ ap some (balanced a)
          ∙ sym (opening-some j s a found)
    ]
  where
    balanced :
        (a : Account)
        → (credited i j x a).balance -ℤ net j s'.transactions ≡ a.balance -ℤ net j s.transactions
    balanced a = rw (h j) (grind int_laws)

-- Tables with the same accounts and transactions have the same openings.
pub same-openings :
    (s s' : Store)
    → s'.accounts ≡ s.accounts
    → s'.transactions ≡ s.transactions
    → KeepsOpenings s s'
unfolding opening
same-openings s s' e d j = rw (opening, e, d) refl

-- A new row changes what the live transactions of its account come to, and of no other.
pub net-insert :
    (t : Transaction) (l : List Transaction)
    → t.deleted ≡ false
    → (j : ℕ)
    → net j (t ∷ l) ≡ net j l +ℤ (if t.account_id == j then effect t.kind t.amount_cny else pos 0)
unfolding net part
net-insert t l live j = grind int_laws

-- A new row, and its amount in the balance of its account, keep the openings.
pub insert-openings :
    (asked t : Transaction) (c : ℕ) (s s' : Store)
    → t ≡ record asked { category_id = c }
    → asked.deleted ≡ false
    → IsNegatable asked.amount_cny
    → s'.accounts
      ≡ update_account asked.account_id
          (λ a. with_balance a (a.balance +ℤ delta_of asked.kind asked.amount_cny))
          s.accounts
    → s'.transactions ≡ t ∷ s.transactions
    → KeepsOpenings s s'
insert-openings asked t c s s' row live fits accounts transactions =
    credit-openings asked.account_id (delta_of asked.kind asked.amount_cny) s s' accounts λ j.
      ap (net j) transactions
      ∙ rw (row, delta_of-effect asked.kind asked.amount_cny fits)
          (net-insert (record asked { category_id = c }) s.transactions live j)

pub revert_of-effect :
    (k : TransactionKind) (x : ℤ) → IsNegatable x → effect k x +ℤ revert_of k x ≡ pos 0
revert_of-effect income x h = rw (-64_exact (pos 0) x (negation-InRange x h)) (grind int_laws)
revert_of-effect expense x h = grind int_laws

part_deleted : (j : ℕ) (t : Transaction) → part j (mark_deleted t) ≡ pos 0
unfolding part
part_deleted j t = refl

part_live :
    (j : ℕ) (t : Transaction) (x : ℤ)
    → t.deleted ≡ false
    → effect t.kind t.amount_cny +ℤ x ≡ pos 0
    → part j t +ℤ (if t.account_id == j then x else pos 0) ≡ pos 0
unfolding part
part_live j t x live h = rw live (grind (int_laws, h))

-- A row marked as deleted, with its amount taken back from the balance, keeps the openings.
pub remove-openings :
    (i : ℕ) (t : Transaction) (s s' : Store)
    → find_transaction_row i s.transactions ≡ some t
    → t.deleted ≡ false
    → IsNegatable t.amount_cny
    → s'.accounts
      ≡ update_account t.account_id
          (λ a. with_balance a (a.balance +ℤ revert_of t.kind t.amount_cny))
          s.accounts
    → s'.transactions ≡ update_transaction_row i mark_deleted s.transactions
    → KeepsOpenings s s'
remove-openings i t s s' found live fits accounts transactions =
    credit-openings t.account_id (revert_of t.kind t.amount_cny) s s' accounts λ j.
      ap (net j) transactions
      ∙ taken_back (net j (update_transaction_row i mark_deleted s.transactions))
          (net j s.transactions) (part j t) _
          (rw (part_deleted j t) at (net-update i j mark_deleted s.transactions t found))
          (part_live j t _ live (revert_of-effect t.kind t.amount_cny fits))
  where
    taken_back : (n' n p x : ℤ) → n' +ℤ p ≡ n +ℤ pos 0 → p +ℤ x ≡ pos 0 → n' ≡ n +ℤ x
    taken_back n' n p x e h =
        omega (int_laws, ap pos_part e, ap neg_part e, ap pos_part h, ap neg_part h)
