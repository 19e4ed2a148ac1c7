-- ===== src/Loan/Schedule.antt =====
-- The amortisation schedules of server/internal/loan/service.go: `generateSchedule`, one loop for
-- each repayment method, and `generateWithFixedPayment`.
pub mod Sums
pub mod Repays
pub mod Dates
pub mod Fixed
use family_ledger.Base.{
  ℕ, zero, suc, ◌+◌, ◌-◌, Bool, true, false, List, [], ◌∷◌, ltb, ◌==◌, ◌||◌, if◌then◌else◌,
}
use family_ledger.Base.Lists.{replicate}
use family_ledger.Base.Int.{ℤ, pos, pos_part, leb_ℤ}
use family_ledger.Base.Int64.{◌+64◌, ◌-64◌}
use family_ledger.Loan.Float.{Float}
use family_ledger.Loan.Calendar.{Time, midnight, advance_months, days_in_period}

pub record ScheduleItem : Type 0 where
  pub payment : ℤ
  pub principal_part : ℤ
  pub interest_part : ℤ
  pub remaining_principal : ℤ
  pub due_date : Time

-- The strings that `switch method` tells apart; `unknown` is any other.
pub data Method : Type 0 where
  equal_installment equal_principal interest_only bullet equal_interest unknown : Method

pub data CalcMethod : Type 0 where
  daily_act_365 daily_act_360 monthly : CalcMethod

-- The zero value of a `scheduleItem`.
abbrev pub zero_item : ScheduleItem
zero_item = record {
  payment = pos 0;
  principal_part = pos 0;
  interest_part = pos 0;
  remaining_principal = pos 0;
  due_date = midnight 1 1 1;
}

-- `items[n-1].remainingPrincipal = 0`
unfoldable pub zero_last : List ScheduleItem → List ScheduleItem
zero_last [] = []
zero_last (x ∷ []) = record x { remaining_principal = pos 0 } ∷ []
zero_last (x ∷ y ∷ xs) = x ∷ zero_last (y ∷ xs)

-- the test `calcMethod == "daily_act_365" || calcMethod == "daily_act_360"`
abbrev pub is_daily : CalcMethod → Bool
is_daily monthly = false
is_daily _ = true

-- The 30-day fallback for a period of no days.
abbrev pub period_days : Time → Time → ℤ
period_days start end =
    let days = days_in_period start end in if leb_ℤ days (pos 0) then pos 30 else days

-- `maxMonths`, the cap of `generateWithFixedPayment`
abbrev pub max_months : ℕ
max_months = 720

module _ (fl : Float) where
  open fl use {Number, of_int, half, add, sub, mul, div, pow, lt, eq, round_cent, ceil}

  -- `annualRate / 100.0 / 12.0`
  abbrev pub monthly_rate : Number → Number
  monthly_rate annual_rate = div (div annual_rate (of_int (pos 100))) (of_int (pos 12))

  pub daily_rate : Number → CalcMethod → Number
  daily_rate annual_rate daily_act_360 = div (div annual_rate (of_int (pos 100))) (of_int (pos 360))
  daily_rate annual_rate _ = div (div annual_rate (of_int (pos 100))) (of_int (pos 365))

  -- `remaining -= float64(pprt); if remaining < 0.5 { remaining = 0 }`
  abbrev pub settle : Number → ℤ → Number
  settle remaining pprt =
      let rest = sub remaining (of_int pprt) in if lt rest half then of_int (pos 0) else rest

  -- The level payment of an annuity of `n` months.
  unfoldable pub annuity : Number → Number → ℕ → Number
  annuity p r n =
      if eq r (of_int (pos 0))
      then div p (of_int (pos n))
      else let rn = pow (add (of_int (pos 1)) r) (of_int (pos n)) in
        div (mul (mul p r) rn) (sub rn (of_int (pos 1)))

  module _ (principal : ℤ) (r : Number) (n : ℕ) (payment_day : ℕ) (start_date : Time) where
    -- Each loop has the number of rounds left, and the index `i`.
    unfoldable pub equal_installment_loop : ℕ → ℕ → ℤ → Number → ℤ → List ScheduleItem
    equal_installment_loop zero i monthly_payment remaining total_principal_paid = []
    equal_installment_loop (suc left) i monthly_payment remaining total_principal_paid =
        let is_last = i == n - 1 in
        let pprt =
          if is_last
          then principal -64 total_principal_paid
          else monthly_payment -64 round_cent (mul remaining r) in
        let interest =
          if is_last
          then round_cent (mul (of_int (principal -64 total_principal_paid)) r)
          else round_cent (mul remaining r) in
        let rest = settle remaining pprt in
        record {
          payment = if ltb i (n - 1) then monthly_payment else pprt +64 interest;
          principal_part = pprt;
          interest_part = interest;
          remaining_principal = round_cent rest;
          due_date = advance_months start_date i payment_day;
        }
        ∷ equal_installment_loop left (i + 1) monthly_payment rest (total_principal_paid +64 pprt)

    pub equal_principal_loop : ℕ → ℕ → ℤ → ℤ → List ScheduleItem
    equal_principal_loop zero i monthly_principal remaining = []
    equal_principal_loop (suc left) i monthly_principal remaining =
        let interest = round_cent (mul (of_int remaining) r) in
        let pprt = if i == n - 1 then remaining else monthly_principal in
        let rest = remaining -64 pprt in
        record {
          payment = pprt +64 interest;
          principal_part = pprt;
          interest_part = interest;
          remaining_principal = rest;
          due_date = advance_months start_date i payment_day;
        }
        ∷ equal_principal_loop left (i + 1) monthly_principal rest

    -- The day from which period `i` counts.
    abbrev pub period_start : ℕ → Time
    period_start i = if i == 0 then start_date else advance_months start_date (i - 1) payment_day

    pub interest_only_interest : Number → CalcMethod → ℕ → ℤ
    interest_only_interest annual_rate calc_method i =
        if is_daily calc_method
        then round_cent (
            mul (mul (of_int principal) (daily_rate annual_rate calc_method))
              (of_int (period_days (period_start i) (advance_months start_date i payment_day))))
        else round_cent (mul (of_int principal) r)

    pub interest_only_loop : ℕ → ℕ → Number → CalcMethod → List ScheduleItem
    interest_only_loop zero i annual_rate calc_method = []
    interest_only_loop (suc left) i annual_rate calc_method =
        let interest = interest_only_interest annual_rate calc_method i in
        let pprt = if i == n - 1 then principal else pos 0 in
        record {
          payment = pprt +64 interest;
          principal_part = pprt;
          interest_part = interest;
          remaining_principal = principal -64 pprt;
          due_date = advance_months start_date i payment_day;
        }
        ∷ interest_only_loop left (i + 1) annual_rate calc_method

    -- the first loop of the method "bullet", which adds up the interest of the periods
    pub bullet_interest_loop : ℕ → ℕ → Number → Time → ℤ → ℤ
    bullet_interest_loop zero i dr prev_date total_interest = total_interest
    bullet_interest_loop (suc left) i dr prev_date total_interest =
        let due_date = advance_months start_date i payment_day in
        bullet_interest_loop left (i + 1) dr due_date (
          total_interest
          +64 round_cent
              (mul (mul (of_int principal) dr) (of_int (period_days prev_date due_date))))

    pub bullet_interest : Number → CalcMethod → ℤ
    bullet_interest annual_rate calc_method =
        if is_daily calc_method
        then bullet_interest_loop n 0 (daily_rate annual_rate calc_method) start_date (pos 0)
        else round_cent (mul (mul (of_int principal) r) (of_int (pos n)))

    pub bullet_loop : ℕ → ℕ → ℤ → List ScheduleItem
    bullet_loop zero i total_interest = []
    bullet_loop (suc left) i total_interest =
        let due_date = advance_months start_date i payment_day in
        (if i == n - 1
          then record {
            payment = principal +64 total_interest;
            principal_part = principal;
            interest_part = total_interest;
            remaining_principal = pos 0;
            due_date = due_date;
          }
          else record {
            payment = pos 0;
            principal_part = pos 0;
            interest_part = pos 0;
            remaining_principal = principal;
            due_date = due_date;
          })
        ∷ bullet_loop left (i + 1) total_interest

    pub equal_interest_loop : ℕ → ℕ → ℤ → ℤ → ℤ → List ScheduleItem
    equal_interest_loop zero i monthly_principal monthly_interest remaining = []
    equal_interest_loop (suc left) i monthly_principal monthly_interest remaining =
        let pprt = if i == n - 1 then remaining else monthly_principal in
        let rest = remaining -64 pprt in
        record {
          payment = pprt +64 monthly_interest;
          principal_part = pprt;
          interest_part = monthly_interest;
          remaining_principal = rest;
          due_date = advance_months start_date i payment_day;
        }
        ∷ equal_interest_loop left (i + 1) monthly_principal monthly_interest rest

    -- `switch method`
    unfoldable pub schedule_of : Method → Number → CalcMethod → List ScheduleItem
    unfolding annuity
    schedule_of equal_installment annual_rate calc_method =
        let p = of_int principal in
        zero_last (equal_installment_loop n 0 (round_cent (annuity p r n)) p (pos 0))
    schedule_of equal_principal annual_rate calc_method =
        equal_principal_loop n 0 (round_cent (div (of_int principal) (of_int (pos n)))) principal
    schedule_of interest_only annual_rate calc_method =
        interest_only_loop n 0 annual_rate calc_method
    schedule_of bullet annual_rate calc_method =
        bullet_loop n 0 (bullet_interest annual_rate calc_method)
    schedule_of equal_interest annual_rate calc_method =
        equal_interest_loop n 0 (round_cent (div (of_int principal) (of_int (pos n))))
          (round_cent (mul (of_int principal) r)) principal
    schedule_of unknown annual_rate calc_method = replicate n zero_item

  unfoldable pub generate_schedule :
      ℤ → Number → ℤ → Method → ℕ → Time → CalcMethod → List ScheduleItem
  generate_schedule principal annual_rate total_months method payment_day start_date calc_method =
      if leb_ℤ total_months (pos 0) || leb_ℤ principal (pos 0)
      then []
      else schedule_of principal (monthly_rate annual_rate) (pos_part total_months) payment_day
          start_date method annual_rate calc_method

  module _ (principal : ℤ) (r : Number) (fixed_payment : ℤ) (payment_day : ℕ)
      (start_date : Time) where
    -- The part of the fixed payment that repays principal; 1 where it does not cover the interest.
    abbrev pub fixed_part : ℤ → ℤ
    fixed_part interest =
        let pprt = fixed_payment -64 interest in if leb_ℤ pprt (pos 0) then pos 1 else pprt

    -- `for i := 0; remaining > 0.5 && i < maxMonths; i++`, with `maxMonths - i` rounds left
    pub fixed_payment_loop : ℕ → ℕ → Number → ℤ → List ScheduleItem
    fixed_payment_loop zero i remaining total_principal_paid = []
    fixed_payment_loop (suc left) i remaining total_principal_paid =
        let interest = round_cent (mul remaining r) in
        let pprt = fixed_part interest in
        let remaining_int = principal -64 total_principal_paid in
        let due_date = advance_months start_date i payment_day in
        let last_interest = round_cent (mul (of_int remaining_int) r) in
        let rest = sub remaining (of_int pprt) in
        let later = fixed_payment_loop left (i + 1) rest (total_principal_paid +64 pprt) in
        if lt half remaining
        then (if leb_ℤ remaining_int pprt
            then record {
              payment = remaining_int +64 last_interest;
              principal_part = remaining_int;
              interest_part = last_interest;
              remaining_principal = pos 0;
              due_date = due_date;
            }
              ∷ []
            else record {
              payment = fixed_payment;
              principal_part = pprt;
              interest_part = interest;
              remaining_principal = round_cent rest;
              due_date = due_date;
            }
              ∷ later)
        else []

  unfoldable pub generate_with_fixed_payment : ℤ → Number → ℤ → ℕ → Time → List ScheduleItem
  generate_with_fixed_payment principal annual_rate fixed_payment payment_day start_date =
      if leb_ℤ principal (pos 0)
      then []
      else fixed_payment_loop principal (monthly_rate annual_rate) fixed_payment payment_day
          start_date max_months 0 (of_int principal) (pos 0)
