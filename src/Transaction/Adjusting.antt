-- ===== src/Transaction/Adjusting.antt =====
-- The change of the balance that UpdateTransaction (server/internal/transaction/service.go) makes.
use text.Mathlib.Text.{◌==◌ as str_eq}
use family_ledger.Base.Int64.{◌-64◌, wrap, wrap_self}
use family_ledger.Base.{◌≢◌, ◌∙◌, ◌&&◌, false, ◌≡◌, ◌⊎◌, inl, inr, refl, ap, true, arith}
use family_ledger.Base.Int.{◌-ℤ◌, eq_of_parts, ℤ, pos, eqb_ℤ, int_laws}
use family_ledger.Store.{TransactionKind, income, expense, is_empty, Transaction}
use family_ledger.Transaction.{delta_of, same_kind}
use family_ledger.Transaction.Change.{is_home, Convert, balance_adjust}

-- What a transaction of this kind and amount adds to a balance, as int64.
abbrev pub worth_64 : TransactionKind → ℤ → ℤ
worth_64 income x = x
worth_64 expense x = pos 0 -64 x

-- The change `x` of the balance for a row that becomes another: nothing, where amount and kind stay;
-- otherwise the old row is taken back, and the new one counts with its amount, or, if the old row is
-- not in CNY, with what its old rate makes of that.
pub record IsAdjustment (convert : Convert) (old new : Transaction) (x : ℤ) : Type 0 where
  pub stays : new.amount ≡ old.amount → new.kind ≡ old.kind → x ≡ pos 0
  pub at_home :
      (new.amount ≢ old.amount) ⊎ (new.kind ≢ old.kind)
      → (str_eq old.currency "CNY" ≡ true) ⊎ (is_empty old.currency ≡ true)
      → x ≡ worth_64 new.kind new.amount -64 worth_64 old.kind old.amount_cny
  pub abroad :
      (new.amount ≢ old.amount) ⊎ (new.kind ≢ old.kind)
      → str_eq old.currency "CNY" ≡ false
      → is_empty old.currency ≡ false
      → x
        ≡ worth_64 new.kind (convert new.amount old.exchange_rate)
          -64 worth_64 old.kind old.amount_cny

delta_of-worth : (k : TransactionKind) (x : ℤ) → delta_of k x ≡ worth_64 k x
delta_of-worth income x = refl
delta_of-worth expense x = refl

no_difference : (x : ℤ) → x -64 x ≡ pos 0
unfolding ◌-64◌
no_difference x = ap wrap (zero x) ∙ wrap_self (pos 0) (omega arith)
  where
    zero : (x : ℤ) → x -ℤ x ≡ pos 0
    zero x = grind int_laws

eqb_ℤ_refl : (x : ℤ) → eqb_ℤ x x ≡ true
eqb_ℤ_refl x = ground arith

same_kind_refl : (k : TransactionKind) → same_kind k k ≡ true
same_kind_refl income = refl
same_kind_refl expense = refl

-- Where amount or kind differ, the tests of the code see it.
differ : (x y : ℤ) (k l : TransactionKind) → (x ≢ y) ⊎ (k ≢ l) → eqb_ℤ x y && same_kind k l ≡ false
differ x y k l (inl n) = ground (arith, eq_of_parts x y, n)
differ x y income income (inr n) = absurd (n refl)
differ x y expense expense (inr n) = absurd (n refl)
differ x y income expense (inr n) = ground arith
differ x y expense income (inr n) = ground arith

pub balance_adjust-IsAdjustment :
    (convert : Convert) (old new : Transaction)
    → IsAdjustment convert old new (balance_adjust convert old new)
balance_adjust-IsAdjustment convert old new = record {
  stays = λ e k.
      rw (e, k, eqb_ℤ_refl old.amount, same_kind_refl old.kind)
        (no_difference (delta_of old.kind old.amount_cny));
  at_home = λ n h.
      rw
        (
          differ new.amount old.amount new.kind old.kind n,
          home_rate h,
          delta_of-worth new.kind new.amount,
          delta_of-worth old.kind old.amount_cny,
        )
        refl;
  abroad = λ n h k.
      rw
        (
          differ new.amount old.amount new.kind old.kind n,
          h,
          k,
          delta_of-worth new.kind (convert new.amount old.exchange_rate),
          delta_of-worth old.kind old.amount_cny,
        )
        refl;
}
  where
    home_rate :
        (str_eq old.currency "CNY" ≡ true) ⊎ (is_empty old.currency ≡ true)
        → is_home old.currency ≡ true
    home_rate (inl h) = rw h refl
    home_rate (inr h) = ground (arith, h)
