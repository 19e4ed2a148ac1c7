-- ===== src/Loan/Prepayment/Effects.antt =====
-- What a prepayment does (server/internal/loan/prepayment.go): the principal, the savings, the new
-- schedule, and when the code panics.
use family_ledger.Base.{◌≢◌, inl, true, ℕ, ◌≡◌, ◌⊎◌, ◌↔◌, refl, false, none, some, List, arith}
use family_ledger.Base.Int.{ltb_ℤ, ℤ, pos, ◌-ℤ◌, ◌≤ℤ◌, leb_ℤ, int_laws}
use family_ledger.Base.Int64.{◌+64◌, ◌-64◌, InRange, -64-+64_cancel, -64_exact}
use family_ledger.Loan.Float.{Float}
use family_ledger.Loan.Calendar.{Time}
use family_ledger.Loan.Schedule.{CalcMethod}
use family_ledger.Loan.Types.{
  strategy_other, method_equal_principal, method_of, calc_method_of, PrepaymentStrategy,
  strategy_unspecified, reduce_months, reduce_payment, LoanScheduleItem, Loan, RepaymentMethod,
  method_equal_interest, repayment_method_to_string, interest_calc_method_to_string,
}
use family_ledger.Loan.Prepayment.{
  new_months_of, PrepaymentCalc, calc_reduce_months, new_schedule_of, calc_prepayment_schedule,
  find_next_unpaid_due_date, first_of_month, clamp_negative,
}

clamp_negative_nonneg : (z : ℤ) → pos 0 ≤ℤ clamp_negative z
clamp_negative_nonneg z = ground arith

left_InRange :
    (remaining amount : ℤ)
    → InRange remaining
    → pos 0 ≤ℤ amount
    → amount ≤ℤ remaining
    → InRange (remaining -ℤ amount)
unfolding ◌-ℤ◌
left_InRange remaining amount range h k = ground arith

-- The principal that is left, computed exactly.
left_lem :
    (remaining amount : ℤ)
    → InRange remaining
    → pos 0 ≤ℤ amount
    → amount ≤ℤ remaining
    → (remaining -64 amount ≡ remaining -ℤ amount) × (pos 0 ≤ℤ remaining -64 amount)
left_lem remaining amount range h k =
    let e = -64_exact remaining amount (left_InRange remaining amount range h k) in
    (e, rw e (omega int_laws))

-- Fewer months of a loan that is repaid by equal interest, for which there is no schedule, or by equal
-- parts of the principal, in more months than a slice has room for.
abbrev pub IsEndless : (fl : Float) → Loan fl.Number → ℤ → RepaymentMethod → Type 0
IsEndless fl loan p method =
    (method ≡ method_equal_interest)
    ⊎ (method ≡ method_equal_principal) × (ltb_ℤ fl.max_items (new_months_of fl loan p) ≡ true)

-- Where the code has no schedule to offer: a strategy that is neither of the two, or fewer months of
-- a loan with too many, or none.
abbrev pub IsUnsupported : (fl : Float) → Loan fl.Number → ℤ → PrepaymentStrategy → Type 0
IsUnsupported fl loan p strategy =
    ((strategy ≢ reduce_months) × (strategy ≢ reduce_payment))
    ⊎ (strategy ≡ reduce_months) × IsEndless fl loan p loan.repayment_method

reduce_months-none :
    (fl : Float) (loan : Loan fl.Number) (p : ℤ) (method : RepaymentMethod) (calc : CalcMethod)
    (payment_day : ℕ) (start : Time)
    → (calc_reduce_months fl loan p
          (method_of (repayment_method_to_string method))
          calc
          payment_day
          start
        ≡ none)
      ↔ IsEndless fl loan p method
unfolding calc_reduce_months repayment_method_to_string method_of
reduce_months-none fl loan p method_equal_interest calc payment_day start =
    (λ _. inl refl, λ _. refl)
reduce_months-none fl loan p method_equal_principal calc payment_day start = ground arith
reduce_months-none fl loan p _ calc payment_day start = ground arith

new_schedule_of-none :
    (fl : Float) (loan : Loan fl.Number) (strategy : PrepaymentStrategy) (p : ℤ) (due : Time)
    → (new_schedule_of fl loan strategy p due ≡ none) ↔ IsUnsupported fl loan p strategy
unfolding new_schedule_of
new_schedule_of-none fl loan reduce_months p due = ground (
  arith,
  reduce_months-none fl loan p loan.repayment_method
      (calc_method_of (interest_calc_method_to_string loan.interest_calc_method)) loan.payment_day
      due,
)
new_schedule_of-none fl loan reduce_payment p due = ground arith
new_schedule_of-none fl loan strategy_unspecified p due = (λ _. inl (λ k. cc, λ k. cc), λ _. refl)
new_schedule_of-none fl loan (strategy_other n) p due = (λ _. inl (λ k. cc, λ k. cc), λ _. refl)

module _ (fl : Float) (loan : Loan fl.Number) (items : List LoanScheduleItem) (amount : ℤ)
    (strategy : PrepaymentStrategy) where
  -- A prepayment of at least nothing and at most what is owed takes exactly its amount off the
  -- principal (as int64), leaves no negative one, and reports no negative savings of interest or
  -- of months.
  pub calc_prepayment_schedule-balance :
      {c : PrepaymentCalc}
      → InRange loan.remaining_principal
      → pos 0 ≤ℤ amount
      → amount ≤ℤ loan.remaining_principal
      → calc_prepayment_schedule fl loan items amount strategy ≡ some c
      → (c.new_principal +64 amount ≡ loan.remaining_principal)
        × (pos 0 ≤ℤ c.new_principal)
        × (pos 0 ≤ℤ c.interest_saved)
        × (pos 0 ≤ℤ c.months_reduced)
  unfolding calc_prepayment_schedule
  calc_prepayment_schedule-balance range lo hi e = ground (
    arith,
    left_lem loan.remaining_principal amount range lo hi,
    -64-+64_cancel loan.remaining_principal amount range,
  )

  -- The computation of a prepayment panics exactly when something is left to pay and the strategy is
  -- neither of the two that there are, or asks for fewer months of a loan that is repaid by equal
  -- interest, or by equal parts of the principal in more months than `make` gives items.
  pub calc_prepayment_schedule-none :
      (calc_prepayment_schedule fl loan items amount strategy ≡ none)
      ↔ (leb_ℤ (loan.remaining_principal -64 amount) (pos 0) ≡ false)
        × IsUnsupported fl loan (loan.remaining_principal -64 amount) strategy
  unfolding calc_prepayment_schedule
  calc_prepayment_schedule-none = ground (
    arith,
    new_schedule_of-none fl loan strategy (loan.remaining_principal -64 amount)
        (first_of_month (find_next_unpaid_due_date items loan.start_date)),
  )
