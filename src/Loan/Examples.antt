-- ===== src/Loan/Examples.antt =====
-- The loan code at concrete inputs, with decimal numbers of six places for the floating point.
use family_ledger.Base.{
  ℕ, zero, suc, ◌+◌, ◌*◌, ◌/◌, ◌≡◌, ◌⊎◌, ◌↔◌, refl, false, Option, none, some, List, [], ◌∷◌, map,
  ◌≤◌, arith,
}
use family_ledger.Base.Lists.{length}
use family_ledger.Base.Int.{
  ℤ, pos, negsuc, pos_part, ◌+ℤ◌, ◌-ℤ◌, ◌≤ℤ◌, ltb_ℤ, leb_ℤ, eqb_ℤ, int_laws,
}
use family_ledger.Base.Int64.{◌+64◌, ◌-64◌, wrap, wrap-InRange, ◌-32◌, wrap32}
use family_ledger.Loan.Float.{Float}
use family_ledger.Loan.Calendar.{Time, midnight, advance_months, days_in_month}
use family_ledger.Loan.Calendar.Order.{IsDue, advance_months-IsDue}
use family_ledger.Loan.Schedule.{
  ScheduleItem, equal_installment, equal_principal, bullet, monthly, daily_act_365,
  generate_schedule, generate_with_fixed_payment, max_months, schedule_of, equal_installment_loop,
  annuity, zero_last,
}
use family_ledger.Loan.Schedule.Sums.{sum_principal, Repays}
use family_ledger.Loan.Schedule.Repays.{generate_schedule-Repays}
use family_ledger.Loan.Schedule.Dates.{
  IsMonthly, first_month, generate_schedule-IsMonthly, generate_with_fixed_payment-IsMonthly,
}
use family_ledger.Loan.Schedule.Fixed.{IsExact, generate_with_fixed_payment-repaid}
use family_ledger.Loan.Types.{
  reduce_payment, reduce_months, method_bullet, method_equal_principal, method_equal_interest,
  calc_monthly, calc_daily_act_360, LoanScheduleItem, Loan, repayment_method_to_string,
  string_to_repayment_method, interest_calc_method_to_string, string_to_interest_calc_method,
  string_to_method-roundtrip,
}
use family_ledger.Db.{ok}
use family_ledger.Loan.Request.{
  mortgage, business, provident, lpr_floating, loan_type_to_string, string_to_loan_type,
  loan_sub_type_to_string, string_to_loan_sub_type, rate_type_to_string, string_to_rate_type,
  string_to_loan_type-roundtrip, CreateLoanRequest, validate_create_loan_request,
  requested_schedule, validate_create_loan_request-schedule,
}
use family_ledger.Loan.Prepayment.{PrepaymentCalc, calc_prepayment_schedule, new_schedule_of}
use family_ledger.Loan.Prepayment.Effects.{
  IsUnsupported, calc_prepayment_schedule-balance, calc_prepayment_schedule-none,
}
use family_ledger.Loan.Prepayment.NewSchedule.{calc_prepayment_schedule-Repays}

abbrev scale : ℕ
scale = 1000000

abbrev of_int : ℤ → ℤ
of_int (pos n) = pos (n * 1000000)
of_int (negsuc n) = negsuc (n * 1000000 + 999999)

abbrev power : ℤ → ℕ → ℤ
power x zero = pos 1000000
power x (suc n) = pos (pos_part x * pos_part (power x n) / 1000000)

abbrev pub decimals : Float
decimals = record {
  Number = ℤ;
  of_int = of_int;
  half = pos 500000;
  add = ◌+ℤ◌;
  sub = ◌-ℤ◌;
  mul = λ x y. pos (pos_part x * pos_part y / 1000000);
  div = λ x y. pos (pos_part x * 1000000 / pos_part y);
  pow = λ x n. power x (pos_part n / 1000000);
  lt = ltb_ℤ;
  eq = eqb_ℤ;
  round_cent = λ x. wrap (pos ((pos_part x + 500000) / 1000000));
  ceil = λ x. wrap (pos ((pos_part x + 999999) / 1000000));
  max_items = pos 5026338869833;
  round_cent_range = λ x. wrap-InRange _;
  ceil_range = λ x. wrap-InRange _;
}

decimals-IsExact : IsExact decimals 100000
decimals-IsExact = record { sub_exact = λ a b h k. omega int_laws; half_lt = λ a h. ground arith }

abbrev start : Time
start = midnight 2024 1 31

generate_schedule-Repays_example : Repays (pos 100000) 3 (
    generate_schedule decimals (pos 100000) (pos 12000000) (pos 3) equal_principal 15 start monthly)
generate_schedule-Repays_example =
    generate_schedule-Repays decimals (pos 100000) (pos 12000000) 2 equal_principal 15 start monthly
      (omega arith) (omega arith) (λ e. cc)

generate_schedule-IsMonthly_example :
    IsMonthly 15
      (first_month start 15)
      (generate_schedule decimals (pos 100000) (pos 12000000) (pos 3) bullet 15 start daily_act_365)
generate_schedule-IsMonthly_example =
    generate_schedule-IsMonthly decimals (pos 100000) (pos 12000000) (pos 3) bullet 15 start
      daily_act_365 (omega arith) (omega arith) (omega arith) (λ e. cc)

generate_with_fixed_payment-IsMonthly_example :
    IsMonthly 15
      (first_month start 15)
      (generate_with_fixed_payment decimals (pos 100000) (pos 12000000) (pos 40000) 15 start)
generate_with_fixed_payment-IsMonthly_example =
    generate_with_fixed_payment-IsMonthly decimals (pos 100000) (pos 12000000) (pos 40000) 15 start
      (omega arith) (omega arith)

generate_with_fixed_payment-repaid_example :
    let items =
      generate_with_fixed_payment decimals (pos 100000) (pos 12000000) (pos 40000) 15 start in
    (length items ≤ max_months) × ((sum_principal items ≡ pos 100000) ⊎ (length items ≡ max_months))
generate_with_fixed_payment-repaid_example =
    generate_with_fixed_payment-repaid decimals 100000 (pos 12000000) (pos 40000) 15 start
      decimals-IsExact (omega arith) (omega arith)

advance_months-IsDue_example : IsDue start 1 31 (advance_months start 1 31)
advance_months-IsDue_example = advance_months-IsDue start 1 31 (omega arith)

string_to_method-roundtrip_example :
    (string_to_repayment_method (repayment_method_to_string method_bullet) ≡ method_bullet)
    × (string_to_interest_calc_method (interest_calc_method_to_string calc_daily_act_360)
        ≡ calc_daily_act_360)
string_to_method-roundtrip_example =
    string_to_method-roundtrip method_bullet calc_daily_act_360 (λ e. cc)

abbrev loan : Loan ℤ
loan = record {
  id = "1";
  user_id = "2";
  name = "flat";
  principal = pos 90000;
  remaining_principal = pos 60000;
  annual_rate = pos 12000000;
  total_months = pos 3;
  paid_months = pos 1;
  repayment_method = method_equal_principal;
  payment_day = 15;
  start_date = start;
  account_id = "3";
  family_id = "";
  interest_calc_method = calc_monthly;
}

abbrev stored_items : List LoanScheduleItem
stored_items = []

abbrev default_calc : PrepaymentCalc
default_calc = record {
  new_schedule = [];
  new_principal = pos 0;
  new_total_months = pos 0;
  total_interest_before = pos 0;
  total_interest_after = pos 0;
  interest_saved = pos 0;
  months_reduced = pos 0;
  display_monthly_payment = pos 0;
}

abbrev given {ℓ} : {A : Type ℓ} → A → Option A → A
given d none = d
given d (some a) = a

abbrev calc : PrepaymentCalc
calc =
    given default_calc
      (calc_prepayment_schedule decimals loan stored_items (pos 10000) reduce_payment)

calc-computed :
    calc_prepayment_schedule decimals loan stored_items (pos 10000) reduce_payment ≡ some calc
unfolding calc_prepayment_schedule new_schedule_of ◌-64◌ wrap ◌-ℤ◌
calc-computed = refl

-- A third of the loan is left after the prepayment, in two instalments.
calc_prepayment_schedule-Repays_example : Repays calc.new_principal 2 calc.new_schedule
unfolding ◌-64◌ ◌-32◌ wrap wrap32 ◌-ℤ◌
calc_prepayment_schedule-Repays_example =
    calc_prepayment_schedule-Repays decimals loan stored_items (pos 10000) 1 refl refl calc-computed

calc_prepayment_schedule-balance_example :
    (calc.new_principal +64 pos 10000 ≡ pos 60000)
    × (pos 0 ≤ℤ calc.new_principal)
    × (pos 0 ≤ℤ calc.interest_saved)
    × (pos 0 ≤ℤ calc.months_reduced)
calc_prepayment_schedule-balance_example =
    calc_prepayment_schedule-balance decimals loan stored_items (pos 10000) reduce_payment
      (omega arith) (omega arith) (omega arith) calc-computed

calc_prepayment_schedule-none_example :
    (calc_prepayment_schedule decimals
        (record loan { repayment_method = method_equal_interest })
        stored_items
        (pos 10000)
        reduce_months
      ≡ none)
    ↔ (leb_ℤ (pos 60000 -64 pos 10000) (pos 0) ≡ false)
      × IsUnsupported decimals
          (record loan { repayment_method = method_equal_interest })
          (pos 60000 -64 pos 10000)
          reduce_months
calc_prepayment_schedule-none_example =
    calc_prepayment_schedule-none decimals
      (record loan { repayment_method = method_equal_interest }) stored_items (pos 10000)
      reduce_months

-- Three months at one per cent a month.
runs :
    (map {B = ℤ × ℤ × ℤ}
        (λ (x : ScheduleItem). (x.payment, x.principal_part, x.remaining_principal))
        (generate_schedule decimals
          (pos 100000)
          (pos 12000000)
          (pos 3)
          equal_installment
          15
          start
          monthly)
      ≡ (pos 34002, pos 33002, pos 66998)
        ∷ (pos 34002, pos 33332, pos 33666)
        ∷ (pos 34003, pos 33666, pos 0)
        ∷ [])
unfolding generate_schedule ◌+64◌ ◌-64◌ wrap ◌+ℤ◌ ◌-ℤ◌ advance_months days_in_month schedule_of
    equal_installment_loop annuity zero_last
runs = refl

abbrev request : CreateLoanRequest ℤ
request = record {
  name = "flat";
  loan_type = mortgage;
  principal = pos 90000;
  annual_rate = pos 12000000;
  total_months = pos 3;
  repayment_method = method_bullet;
  payment_day = pos 15;
  start_date = some start;
  account_id = "";
  family_id = "";
  interest_calc_method = calc_monthly;
}

request-ok : validate_create_loan_request decimals request ≡ ok tt
unfolding validate_create_loan_request
request-ok = refl

validate_create_loan_request-schedule_example :
    let items = requested_schedule decimals request start in
    Repays (pos 90000) 3 items × IsMonthly 15 (first_month start 15) items
validate_create_loan_request-schedule_example =
    validate_create_loan_request-schedule decimals request start request-ok (omega arith)
      (omega arith)

string_to_loan_type-roundtrip_example :
    (string_to_loan_type (loan_type_to_string business) ≡ business)
    × (string_to_loan_sub_type (loan_sub_type_to_string provident) ≡ provident)
    × (string_to_rate_type (rate_type_to_string lpr_floating) ≡ lpr_floating)
string_to_loan_type-roundtrip_example =
    string_to_loan_type-roundtrip business provident lpr_floating
