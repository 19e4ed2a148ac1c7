-- ===== src/Loan/Prepayment.antt =====
-- The pure part of server/internal/loan/prepayment.go: what a prepayment does to a loan.
pub mod Effects
pub mod NewSchedule
use family_ledger.Base.{
  ℕ, suc, ◌+◌, ◌≡◌, Bool, true, false, Option, none, some, List, [], ◌∷◌, not, if◌then◌else◌,
}
use family_ledger.Base.Lists.{length}
use family_ledger.Base.Int.{ℤ, pos, ◌+ℤ◌, leb_ℤ, ltb_ℤ}
use family_ledger.Base.Int64.{◌+64◌, ◌-64◌, wrap32, ◌+32◌, ◌-32◌}
use family_ledger.Loan.Float.{Float}
use family_ledger.Loan.Calendar.{Time, midnight}
use family_ledger.Loan.Schedule.{
  ScheduleItem, Method, equal_installment, equal_principal, interest_only, bullet, CalcMethod,
  monthly_rate, generate_schedule, generate_with_fixed_payment,
}
use family_ledger.Loan.Types.{
  method_of, calc_method_of, PrepaymentStrategy, reduce_months, reduce_payment, LoanScheduleItem,
  Loan, repayment_method_to_string, interest_calc_method_to_string,
}

-- `prepaymentCalcResult`
pub record PrepaymentCalc : Type 0 where
  pub new_schedule : List ScheduleItem
  pub new_principal : ℤ
  pub new_total_months : ℤ
  pub total_interest_before : ℤ
  pub total_interest_after : ℤ
  pub interest_saved : ℤ
  pub months_reduced : ℤ
  pub display_monthly_payment : ℤ

-- the loops that add up interest, from the value that they have so far
pub total_interest : List LoanScheduleItem → ℤ → ℤ
total_interest [] total = total
total_interest (it ∷ items) total = total_interest items (total +64 it.interest_part)

pub paid_interest : List LoanScheduleItem → ℤ → ℤ
paid_interest [] total = total
paid_interest (it ∷ items) total =
    paid_interest items (if it.is_paid then total +64 it.interest_part else total)

pub new_interest : List ScheduleItem → ℤ → ℤ
new_interest [] total = total
new_interest (si ∷ items) total = new_interest items (total +64 si.interest_part)

unfoldable pub find_next_unpaid_due_date : List LoanScheduleItem → Time → Time
find_next_unpaid_due_date [] fallback = fallback
find_next_unpaid_due_date (it ∷ items) fallback =
    if not it.is_paid then it.due_date else find_next_unpaid_due_date items fallback

-- `time.Date(t.Year(), t.Month(), 1, 0, 0, 0, 0, t.Location())`
abbrev pub first_of_month : Time → Time
first_of_month t = midnight t.year t.month 1

abbrev pub clamp_negative : ℤ → ℤ
clamp_negative z = if ltb_ℤ z (pos 0) then pos 0 else z

abbrev pub first_payment : List ScheduleItem → ℤ
first_payment [] = pos 0
first_payment (si ∷ _) = si.payment

module _ (fl : Float) where
  open fl use {Number, of_int, div, mul, sub, add, pow, eq, round_cent, ceil, max_items}

  -- the months that equal parts of the principal take
  unfoldable pub new_months_of : Loan Number → ℤ → ℤ
  new_months_of loan new_principal =
      let orig_monthly_principal =
        round_cent (div (of_int loan.principal) (of_int loan.total_months)) in
      let months = ceil (div (of_int new_principal) (of_int orig_monthly_principal)) in
      if ltb_ℤ months (pos 1) then pos 1 else months

  -- `calcReduceMonths`; `none` is its panic on an unsupported method, or that of `make` on too many
  -- months. Months that are not computed here are an int32, for which `make` does not panic.
  unfoldable pub calc_reduce_months :
      Loan Number → ℤ → Method → CalcMethod → ℕ → Time → Option (List ScheduleItem)
  calc_reduce_months loan new_principal method calc_method payment_day start_date =
      let remaining_months = loan.total_months -32 loan.paid_months in
      let r = monthly_rate fl loan.annual_rate in
      let p = of_int loan.principal in
      let n = of_int loan.total_months in
      let rn = pow (add (of_int (pos 1)) r) n in
      let original_monthly =
        if eq r (of_int (pos 0))
        then div p n
        else div (mul (mul p r) rn) (sub rn (of_int (pos 1))) in
      let new_months = new_months_of loan new_principal in
      let with_months = λ (months : ℤ).
        generate_schedule fl new_principal loan.annual_rate months method payment_day start_date
          calc_method in
      elim method [
        | equal_installment ↦ some (
            generate_with_fixed_payment fl new_principal loan.annual_rate
              (round_cent original_monthly) payment_day start_date)
        | interest_only ↦ some (with_months remaining_months)
        | bullet ↦ some (with_months remaining_months)
        | equal_principal ↦
            if ltb_ℤ max_items new_months then none else some (with_months new_months)
        | _ ↦ none
      ]

  -- The new schedule with the new number of months; `none` is a panic.
  unfoldable pub new_schedule_of :
      Loan Number → PrepaymentStrategy → ℤ → Time → Option (List ScheduleItem × ℤ)
  new_schedule_of loan reduce_months new_principal next_due_date =
      elim (calc_reduce_months loan new_principal
        (method_of (repayment_method_to_string loan.repayment_method))
        (calc_method_of (interest_calc_method_to_string loan.interest_calc_method)) loan.payment_day
        next_due_date) [
          | some items ↦ some (items, loan.paid_months +32 wrap32 (pos (length items)))
          | none ↦ none
        ]
  new_schedule_of loan reduce_payment new_principal next_due_date = some (
    generate_schedule fl new_principal loan.annual_rate (loan.total_months -32 loan.paid_months)
        (method_of (repayment_method_to_string loan.repayment_method)) loan.payment_day
        next_due_date (calc_method_of (interest_calc_method_to_string loan.interest_calc_method)),
    loan.total_months,
  )
  new_schedule_of loan _ new_principal next_due_date = none

  -- `calcPrepaymentSchedule`; `none` is a panic.
  unfoldable pub calc_prepayment_schedule :
      Loan Number → List LoanScheduleItem → ℤ → PrepaymentStrategy → Option PrepaymentCalc
  calc_prepayment_schedule loan items prepayment_amount strategy =
      let before = total_interest items (pos 0) in
      let paid = paid_interest items (pos 0) in
      let left = loan.remaining_principal -64 prepayment_amount in
      let remaining_months = loan.total_months -32 loan.paid_months in
      let next_due_date = first_of_month (find_next_unpaid_due_date items loan.start_date) in
      let planned =
        if leb_ℤ left (pos 0)
        then some ([], loan.paid_months)
        else new_schedule_of loan strategy left next_due_date in
      elim planned [
        | none ↦ none
        | some (new_schedule, new_total_months) ↦
            let after = paid +64 new_interest new_schedule (pos 0) in
            some (record {
              new_schedule = new_schedule;
              new_principal = if leb_ℤ left (pos 0) then pos 0 else left;
              new_total_months = new_total_months;
              total_interest_before = before;
              total_interest_after = after;
              interest_saved = clamp_negative (before -64 after);
              months_reduced =
                  clamp_negative (remaining_months -32 wrap32 (pos (length new_schedule)));
              display_monthly_payment = first_payment new_schedule;
            })
      ]
