-- ===== src/Loan/Prepayment/NewSchedule.antt =====
-- The schedule that a prepayment puts in place (server/internal/loan/prepayment.go).
use mathlib.Core.Path.{subst}
use family_ledger.Base.{ℕ, suc, ◌≤◌, ◌≡◌, false, some, List, arith, some_inj}
use family_ledger.Base.Int.{ℤ, pos, ◌≤ℤ◌, leb_ℤ}
use family_ledger.Base.Int64.{◌-64◌, -64_InRange, ◌-32◌}
use family_ledger.Loan.Float.{Float}
use family_ledger.Loan.Calendar.{Time}
use family_ledger.Loan.Schedule.{ScheduleItem}
use family_ledger.Loan.Schedule.Sums.{Repays}
use family_ledger.Loan.Schedule.Repays.{generate_schedule-Repays}
use family_ledger.Loan.Schedule.Dates.{IsMonthly, first_month}
use family_ledger.Loan.Types.{
  method_of, calc_method_of, reduce_payment, LoanScheduleItem, Loan, repayment_method_to_string,
  repayment_method_to_string-known, interest_calc_method_to_string,
}
use family_ledger.Loan.Prepayment.{
  PrepaymentCalc, new_schedule_of, calc_prepayment_schedule, find_next_unpaid_due_date,
  first_of_month,
}

positive_of_test : (z : ℤ) → leb_ℤ z (pos 0) ≡ false → pos 1 ≤ℤ z
positive_of_test z e = ground arith

-- A prepayment that lowers the payment, and leaves something to pay over the remaining months,
-- gives a schedule with one item for each of them that repays exactly the new principal.
pub calc_prepayment_schedule-Repays :
    (fl : Float) (loan : Loan fl.Number) (items : List LoanScheduleItem) (amount : ℤ)
    {c : PrepaymentCalc} (months : ℕ)
    → leb_ℤ (loan.remaining_principal -64 amount) (pos 0) ≡ false
    → loan.total_months -32 loan.paid_months ≡ pos (suc months)
    → calc_prepayment_schedule fl loan items amount reduce_payment ≡ some c
    → Repays c.new_principal (suc months) c.new_schedule
unfolding calc_prepayment_schedule new_schedule_of
calc_prepayment_schedule-Repays fl loan items amount months left_over left e =
    let h =
      generate_schedule-Repays fl (loan.remaining_principal -64 amount) loan.annual_rate months
        (method_of (repayment_method_to_string loan.repayment_method)) loan.payment_day
        (first_of_month (find_next_unpaid_due_date items loan.start_date))
        (calc_method_of (interest_calc_method_to_string loan.interest_calc_method))
        (-64_InRange _ _) (positive_of_test _ left_over)
        (repayment_method_to_string-known loan.repayment_method) in
    subst (λ (c : PrepaymentCalc). Repays c.new_principal (suc months) c.new_schedule)
      (some_inj (rw (left_over, calc_prepayment_schedule) at e)) (rw (left, left_over) h)

module _ (fl : Float) (loan : Loan fl.Number) (start : Time) (in_year : 1 ≤ start.month)
    (day_pos : 1 ≤ loan.payment_day) (short : loan.payment_day ≤ 28) where
  -- The items fall due monthly from the month that the start gives.
  abbrev FallsDue : List ScheduleItem → Type 0
  FallsDue items = IsMonthly loan.payment_day (first_month start loan.payment_day) items
