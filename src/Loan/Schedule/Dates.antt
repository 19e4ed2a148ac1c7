-- ===== src/Loan/Schedule/Dates.antt =====
-- The due dates of the schedules of server/internal/loan/service.go.
use family_ledger.Base.{
  ℕ, zero, suc, ◌+◌, ◌≤◌, ◌≡◌, ◌≢◌, refl, ⊤, Bool-cases, inl, inr, List, [], ◌∷◌, arith, leb,
  if◌then◌else◌,
}
use family_ledger.Base.Int.{ℤ, pos, pos_part, leb_ℤ}
use family_ledger.Base.Int64.{◌+64◌}
use family_ledger.Loan.Float.{Float}
use family_ledger.Loan.Calendar.{Time, advance_months}
use family_ledger.Loan.Calendar.Order.{month_index, advance_months-IsDue, days_in_month_range}
use family_ledger.Loan.Schedule.{
  ScheduleItem, Method, equal_installment, equal_principal, interest_only, bullet, equal_interest,
  unknown, CalcMethod, monthly_rate, zero_last, equal_installment_loop, equal_principal_loop,
  interest_only_loop, bullet_loop, equal_interest_loop, schedule_of, generate_schedule, fixed_part,
  fixed_payment_loop, generate_with_fixed_payment,
}

-- In month number `month`, on the payment day.
abbrev pub IsDueIn : ℕ → ℕ → Time → Type 0
IsDueIn payment_day month t =
    (month_index t ≡ month) × (1 ≤ t.month) × (t.month ≤ 12) × (t.day ≡ payment_day)

-- One item a month from month number `month` on, each on the payment day.
abbrev pub IsMonthly : ℕ → ℕ → List ScheduleItem → Type 0
IsMonthly payment_day month [] = ⊤
IsMonthly payment_day month (x ∷ xs) =
    IsDueIn payment_day month x.due_date × IsMonthly payment_day (suc month) xs

-- The month of the first payment.
abbrev pub first_month : Time → ℕ → ℕ
first_month start payment_day = month_index start + (if leb payment_day start.day then 1 else 0)

module _ (start : Time) (payment_day : ℕ) (in_year : 1 ≤ start.month)
    (short : payment_day ≤ 28) where
  due_in :
      (i month : ℕ)
      → month ≡ first_month start payment_day + i
      → IsDueIn payment_day month (advance_months start i payment_day)
  due_in i month e =
      let t = advance_months start i payment_day in
      let d = advance_months-IsDue start i payment_day in_year in
      omega (arith, d.month_is, d.month_in, d.day_is, days_in_month_range t.year t.month)

  zero_last-IsMonthly :
      (month : ℕ) (items : List ScheduleItem)
      → IsMonthly payment_day month items
      → IsMonthly payment_day month (zero_last items)
  unfolding zero_last
  zero_last-IsMonthly month [] h = tt
  zero_last-IsMonthly month (x ∷ []) h = h
  zero_last-IsMonthly month (x ∷ y ∷ xs) h = (h.0, zero_last-IsMonthly (suc month) (y ∷ xs) h.1)

  module _ (fl : Float) (principal : ℤ) (r : fl.Number) (n : ℕ) where
    open fl use {Number}

    equal_installment_loop-IsMonthly :
        (left i month : ℕ) (m : ℤ) (rem : Number) (paid : ℤ)
        → month ≡ first_month start payment_day + i
        → IsMonthly payment_day month
            (equal_installment_loop fl principal r n payment_day start left i m rem paid)
    unfolding equal_installment_loop
    equal_installment_loop-IsMonthly zero i month m rem paid e = tt
    equal_installment_loop-IsMonthly (suc left) i month m rem paid e = (
      due_in i month e,
      equal_installment_loop-IsMonthly left (i + 1) (suc month) m _ _ (omega arith),
    )

    equal_principal_loop-IsMonthly :
        (left i month : ℕ) (m rest : ℤ)
        → month ≡ first_month start payment_day + i
        → IsMonthly payment_day month
            (equal_principal_loop fl principal r n payment_day start left i m rest)
    unfolding equal_principal_loop
    equal_principal_loop-IsMonthly zero i month m rest e = tt
    equal_principal_loop-IsMonthly (suc left) i month m rest e = (
      due_in i month e,
      equal_principal_loop-IsMonthly left (i + 1) (suc month) m _ (omega arith),
    )

    equal_interest_loop-IsMonthly :
        (left i month : ℕ) (m interest rest : ℤ)
        → month ≡ first_month start payment_day + i
        → IsMonthly payment_day month
            (equal_interest_loop fl principal r n payment_day start left i m interest rest)
    unfolding equal_interest_loop
    equal_interest_loop-IsMonthly zero i month m interest rest e = tt
    equal_interest_loop-IsMonthly (suc left) i month m interest rest e = (
      due_in i month e,
      equal_interest_loop-IsMonthly left (i + 1) (suc month) m interest _ (omega arith),
    )

    interest_only_loop-IsMonthly :
        (left i month : ℕ) (rate : Number) (calc : CalcMethod)
        → month ≡ first_month start payment_day + i
        → IsMonthly payment_day month
            (interest_only_loop fl principal r n payment_day start left i rate calc)
    unfolding interest_only_loop
    interest_only_loop-IsMonthly zero i month rate calc e = tt
    interest_only_loop-IsMonthly (suc left) i month rate calc e = (
      due_in i month e,
      interest_only_loop-IsMonthly left (i + 1) (suc month) rate calc (omega arith),
    )

    bullet_loop-IsMonthly :
        (left i month : ℕ) (interest : ℤ)
        → month ≡ first_month start payment_day + i
        → IsMonthly payment_day month
            (bullet_loop fl principal r n payment_day start left i interest)
    unfolding bullet_loop
    bullet_loop-IsMonthly zero i month interest e = tt
    bullet_loop-IsMonthly (suc left) i month interest e = (
      ground (arith, due_in i month e),
      bullet_loop-IsMonthly left (i + 1) (suc month) interest (omega arith),
    )

    schedule_of-IsMonthly :
        (method : Method) (rate : Number) (calc : CalcMethod)
        → method ≢ unknown
        → IsMonthly payment_day
            (first_month start payment_day)
            (schedule_of fl principal r n payment_day start method rate calc)
    unfolding schedule_of
    schedule_of-IsMonthly equal_installment rate calc known =
        zero_last-IsMonthly _ _ (equal_installment_loop-IsMonthly n 0 _ _ _ _ (omega arith))
    schedule_of-IsMonthly equal_principal rate calc known =
        equal_principal_loop-IsMonthly n 0 _ _ _ (omega arith)
    schedule_of-IsMonthly interest_only rate calc known =
        interest_only_loop-IsMonthly n 0 _ _ _ (omega arith)
    schedule_of-IsMonthly bullet rate calc known = bullet_loop-IsMonthly n 0 _ _ (omega arith)
    schedule_of-IsMonthly equal_interest rate calc known =
        equal_interest_loop-IsMonthly n 0 _ _ _ _ (omega arith)
    schedule_of-IsMonthly unknown rate calc known = absurd (known refl)

-- With a start month from 1 on, a payment day from 1 to 28, as `validateCreateLoanRequest` requires,
-- and any of the five methods, the items of a schedule fall due in consecutive months, one each month, always on the
-- payment day; the first is in the start month, or in the month after if the start day is the
-- payment day or later.
pub generate_schedule-IsMonthly :
    (fl : Float) (principal : ℤ) (rate : fl.Number) (total_months : ℤ) (method : Method)
    (payment_day : ℕ) (start : Time) (calc : CalcMethod)
    → 1 ≤ start.month
    → 1 ≤ payment_day
    → payment_day ≤ 28
    → method ≢ unknown
    → IsMonthly payment_day
        (first_month start payment_day)
        (generate_schedule fl principal rate total_months method payment_day start calc)
unfolding generate_schedule
generate_schedule-IsMonthly fl principal rate total_months method payment_day start calc h lo hi
      known =
    ground (
      arith,
      schedule_of-IsMonthly start payment_day h hi fl principal (monthly_rate fl rate)
          (pos_part total_months) method rate calc known,
    )

module _ (fl : Float) (principal : ℤ) (r : fl.Number) (fixed_payment : ℤ) (payment_day : ℕ)
    (start : Time) (in_year : 1 ≤ start.month) (short : payment_day ≤ 28) where
  fixed_payment_loop-IsMonthly :
      (left i month : ℕ) (remaining : fl.Number) (paid : ℤ)
      → month ≡ first_month start payment_day + i
      → IsMonthly payment_day month
          (fixed_payment_loop fl principal r fixed_payment payment_day start left i remaining paid)
  unfolding fixed_payment_loop
  fixed_payment_loop-IsMonthly zero i month remaining paid e = tt
  fixed_payment_loop-IsMonthly (suc left) i month remaining paid e = ground (
    arith,
    due_in start payment_day in_year short i month e,
    fixed_payment_loop-IsMonthly left (i + 1) (suc month)
        (fl.sub remaining (
          fl.of_int (
            fixed_part fl principal r fixed_payment payment_day start
              (fl.round_cent (fl.mul remaining r)))))
        (paid
          +64 fixed_part fl principal r fixed_payment payment_day start
              (fl.round_cent (fl.mul remaining r))),
  )

-- With a start month from 1 on and a payment day of at most 28, the items of a schedule with a
-- fixed payment fall due in consecutive months on the payment day; the first is in the start month,
-- or in the month after if the start day is the payment day or later.
pub generate_with_fixed_payment-IsMonthly :
    (fl : Float) (principal : ℤ) (rate : fl.Number) (fixed_payment : ℤ) (payment_day : ℕ)
    (start : Time)
    → 1 ≤ start.month
    → payment_day ≤ 28
    → IsMonthly payment_day
        (first_month start payment_day)
        (generate_with_fixed_payment fl principal rate fixed_payment payment_day start)
unfolding generate_with_fixed_payment
generate_with_fixed_payment-IsMonthly fl principal rate fixed_payment payment_day start h hi =
    elim (Bool-cases (leb_ℤ principal (pos 0))) [
      | inl none_left ↦ rw none_left tt
      | inr some_left ↦ rw some_left (
          fixed_payment_loop-IsMonthly fl principal (monthly_rate fl rate) fixed_payment payment_day
            start h hi 720 0 (first_month start payment_day) (fl.of_int principal) (pos 0)
            (omega arith))
    ]
