-- ===== src/Transaction/HomeBooks.antt =====
-- Books in CNY: tables whose transactions are all in CNY, and what UpdateTransaction
-- (server/internal/transaction/service.go) does to the balances there.
use Prim.Native.String.{String}
use family_ledger.Base.{
  ℕ, ◌<◌, ◌≡◌, refl, ap, ◌∙◌, true, false, Option, none, some, arith, ◌==◌, if◌then◌else◌,
}
use family_ledger.Base.Int.{
  ℤ, pos, pos_part, neg_part, ◌≤ℤ◌, ◌+ℤ◌, ◌-ℤ◌, int_laws, -ℤ_parts, eq_of_parts,
}
use family_ledger.Base.Int64.{InRange, -64_exact}
use family_ledger.Store.{Uuid, TransactionKind, income, expense, Transaction, Store}
use family_ledger.Transaction.{Drawn, find_transaction_row, update_transaction_row}
use family_ledger.Transaction.Change.{
  Convert, UpdateTransactionRequest, is_home, new_amount_cny, balance_adjust,
}
use family_ledger.Transaction.Net.{
  one_part, effect, part, net, KeepsOpenings, IsNegatable, delta_of-effect, net-update,
  credit-openings,
}
use family_ledger.Transaction.Revising.{IsRevised, or_old, cny_or_old}
use family_ledger.Transaction.Creation.{add_to_balance}
use family_ledger.Transaction.Rows.{All}

-- 2 ^ 62
abbrev pub quarter_word : ℕ
quarter_word = 4611686018427387904

-- A row in CNY: the amount in CNY is the amount, which is positive and below 2 ^ 62.
abbrev pub IsHomeRow : Transaction → Type 0
IsHomeRow t =
    (is_home t.currency ≡ true)
    × (t.amount_cny ≡ t.amount)
    × (pos 1 ≤ℤ t.amount)
    × (pos_part t.amount < quarter_word)

abbrev pub IsHomeBook : Store → Type 0
IsHomeBook s = All IsHomeRow s.transactions

-- An update that keeps a row in CNY, with an amount below 2 ^ 62 if it sets one.
abbrev pub KeepsHome : UpdateTransactionRequest → Type 0
KeepsHome req =
    ((c : String) → req.currency ≡ some c → is_home c ≡ true)
    × ((x : ℤ) → req.amount ≡ some x → pos_part x < quarter_word)

-- The columns that the balance depends on.
home_columns :
    (convert : Convert) (o : Option ℤ) (c : Option String) (old : Transaction)
    → ((c' : String) → c ≡ some c' → is_home c' ≡ true)
    → ((x : ℤ) → o ≡ some x → pos_part x < quarter_word)
    → ((x : ℤ) → o ≡ some x → pos 1 ≤ℤ x)
    → IsHomeRow old
    → (is_home (or_old c old.currency) ≡ true)
      × (cny_or_old convert o old ≡ or_old o old.amount)
      × (pos 1 ≤ℤ or_old o old.amount)
      × (pos_part (or_old o old.amount) < quarter_word)
home_columns convert none none old hc hx hp (home, same, positive, small) =
    (home, same, positive, small)
home_columns convert none (some c) old hc hx hp (home, same, positive, small) =
    (hc c refl, same, positive, small)
home_columns convert (some x) none old hc hx hp (home, same, positive, small) =
    (home, rw home refl, hp x refl, hx x refl)
home_columns convert (some x) (some c) old hc hx hp (home, same, positive, small) =
    (hc c refl, rw home refl, hp x refl, hx x refl)

pub revised-IsHomeRow :
    {ids : Uuid} {convert : Convert} {drawn : Drawn} {req : UpdateTransactionRequest}
    {old new : Transaction}
    → KeepsHome req
    → IsHomeRow old
    → IsRevised ids convert drawn req old new
    → IsHomeRow new
revised-IsHomeRow {ids} {convert} {drawn} {req} {old} (hc, hx) home r =
    rw r.row (home_columns convert req.amount req.currency old hc hx r.positive home)

-- On rows in CNY the balance takes the new row to be worth its amount.
worth :
    (convert : Convert) (old new : Transaction)
    → IsHomeRow old
    → new_amount_cny convert old new ≡ new.amount
worth convert old new h = rw h.0 (ground (arith, h.1, eq_of_parts old.amount new.amount))

small-IsNegatable : (t : Transaction) → IsHomeRow t → IsNegatable t.amount
small-IsNegatable t h = ground (arith, one_part t.amount)

pub home-IsNegatable : (t : Transaction) → IsHomeRow t → IsNegatable t.amount_cny
home-IsNegatable t h = rw h.1 (small-IsNegatable t h)

-- Below 2 ^ 62 on both sides of zero.
abbrev IsSmall : ℤ → Type 0
IsSmall x = (pos_part x < quarter_word) × (neg_part x < quarter_word)

effect-IsSmall :
    (k : TransactionKind) (x : ℤ) → pos 1 ≤ℤ x → pos_part x < quarter_word → IsSmall (effect k x)
effect-IsSmall income x h b = ground (arith, one_part x)
effect-IsSmall expense x h b = ground (arith, one_part x, one_part (pos 0 -ℤ x), -ℤ_parts (pos 0) x)

small_difference : (x y : ℤ) → IsSmall x → IsSmall y → InRange (x -ℤ y)
small_difference x y hx hy = ground (arith, one_part x, one_part y, one_part (x -ℤ y), -ℤ_parts x y)

-- The adjustment of the balance is exact.
adjust_exact :
    (convert : Convert) (old new : Transaction)
    → IsHomeRow old
    → IsHomeRow new
    → balance_adjust convert old new
      ≡ effect new.kind new.amount_cny -ℤ effect old.kind old.amount_cny
adjust_exact convert old new ho hn =
    rw
      (
        worth convert old new ho,
        hn.1,
        ho.1,
        delta_of-effect new.kind new.amount (small-IsNegatable new hn),
        delta_of-effect old.kind old.amount (small-IsNegatable old ho),
      )
      (-64_exact _ _ (
        small_difference (effect new.kind new.amount) (effect old.kind old.amount)
          (effect-IsSmall new.kind new.amount hn.2 hn.3)
          (effect-IsSmall old.kind old.amount ho.2 ho.3)))

part_change :
    (j : ℕ) (old new : Transaction)
    → old.deleted ≡ false
    → new.deleted ≡ false
    → new.account_id ≡ old.account_id
    → part j new
      ≡ part j old
        +ℤ (if old.account_id == j
            then effect new.kind new.amount_cny -ℤ effect old.kind old.amount_cny
            else pos 0)
unfolding part
part_change j old new lo ln same = rw (lo, ln, same) (grind int_laws)

-- A change of a live row in CNY, and the adjustment of the balance, keep the openings.
pub revise-openings :
    (convert : Convert) (old new : Transaction) (s s' : Store)
    → find_transaction_row new.id s.transactions ≡ some old
    → old.deleted ≡ false
    → new.deleted ≡ false
    → new.account_id ≡ old.account_id
    → IsHomeRow old
    → IsHomeRow new
    → s'.accounts ≡ add_to_balance old.account_id (balance_adjust convert old new) s.accounts
    → s'.transactions ≡ update_transaction_row new.id (λ _. new) s.transactions
    → KeepsOpenings s s'
revise-openings convert old new s s' found lo ln same ho hn accounts transactions =
    credit-openings old.account_id (balance_adjust convert old new) s s' accounts λ j.
      ap (net j) transactions
      ∙ rw (adjust_exact convert old new ho hn) (
          moved (net j (update_transaction_row new.id (λ _. new) s.transactions))
            (net j s.transactions) (part j old) (part j new) _
            (net-update new.id j (λ _. new) s.transactions old found)
            (part_change j old new lo ln same))
  where
    moved : (n' n p q x : ℤ) → n' +ℤ p ≡ n +ℤ q → q ≡ p +ℤ x → n' ≡ n +ℤ x
    moved n' n p q x e h =
        omega (int_laws, ap pos_part e, ap neg_part e, ap pos_part h, ap neg_part h)
