-- ===== src/Loan/Types.antt =====
-- The messages of proto/loan.proto that the loan service works on, as far as it reads them, and
-- the conversions between their enumerations and the strings of the database
-- (server/internal/loan/service.go).
use text.Mathlib.Text.{◌==◌ as str_eq}
use Prim.Native.String.{String}
use family_ledger.Base.{if◌then◌else◌, refl, ℕ, ◌≡◌, ◌≢◌, Bool, Option}
use family_ledger.Base.Int.{ℤ}
use family_ledger.Loan.Calendar.{Time}
use family_ledger.Loan.Schedule.{
  Method, equal_installment, equal_principal, interest_only, bullet, equal_interest, unknown,
  CalcMethod, daily_act_365, daily_act_360, monthly,
}

-- A number of the API without a name here is treated like `method_unspecified`, and likewise for
-- `InterestCalcMethod` and `calc_monthly`.
pub data RepaymentMethod : Type 0 where
  method_unspecified method_equal_installment method_equal_principal : RepaymentMethod
  method_interest_only method_bullet method_equal_interest : RepaymentMethod

pub data InterestCalcMethod : Type 0 where
  calc_monthly calc_daily_act_365 calc_daily_act_360 : InterestCalcMethod

-- The enumeration is open: a request may have any number.
pub data PrepaymentStrategy : Type 0 where
  strategy_unspecified reduce_months reduce_payment : PrepaymentStrategy
  strategy_other : ℤ → PrepaymentStrategy

unfoldable pub repayment_method_to_string : RepaymentMethod → String
repayment_method_to_string method_equal_installment = "equal_installment"
repayment_method_to_string method_equal_principal = "equal_principal"
repayment_method_to_string method_interest_only = "interest_only"
repayment_method_to_string method_bullet = "bullet"
repayment_method_to_string method_equal_interest = "equal_interest"
repayment_method_to_string method_unspecified = "equal_installment"

unfoldable pub string_to_repayment_method : String → RepaymentMethod
string_to_repayment_method s =
    if str_eq s "equal_installment"
    then method_equal_installment
    else if str_eq s "equal_principal"
    then method_equal_principal
    else if str_eq s "interest_only"
    then method_interest_only
    else if str_eq s "bullet"
    then method_bullet
    else if str_eq s "equal_interest"
    then method_equal_interest
    else method_unspecified

unfoldable pub interest_calc_method_to_string : InterestCalcMethod → String
interest_calc_method_to_string calc_daily_act_365 = "daily_act_365"
interest_calc_method_to_string calc_daily_act_360 = "daily_act_360"
interest_calc_method_to_string calc_monthly = "monthly"

unfoldable pub string_to_interest_calc_method : String → InterestCalcMethod
string_to_interest_calc_method s =
    if str_eq s "daily_act_365"
    then calc_daily_act_365
    else if str_eq s "daily_act_360"
    then calc_daily_act_360
    else calc_monthly

-- Which case of `switch method` in `generateSchedule` and `calcReduceMonths` a string takes.
unfoldable pub method_of : String → Method
method_of s =
    if str_eq s "equal_installment"
    then equal_installment
    else if str_eq s "equal_principal"
    then equal_principal
    else if str_eq s "interest_only"
    then interest_only
    else if str_eq s "bullet"
    then bullet
    else if str_eq s "equal_interest"
    then equal_interest
    else unknown

-- Which case of the tests of `calcMethod` in `generateSchedule` and `dailyRate` a string takes.
unfoldable pub calc_method_of : String → CalcMethod
calc_method_of s =
    if str_eq s "daily_act_365"
    then daily_act_365
    else if str_eq s "daily_act_360"
    then daily_act_360
    else monthly

repayment_method_stored :
    (m : RepaymentMethod)
    → m ≢ method_unspecified
    → string_to_repayment_method (repayment_method_to_string m) ≡ m
unfolding repayment_method_to_string string_to_repayment_method
repayment_method_stored method_unspecified h = absurd (h refl)
repayment_method_stored method_equal_installment h = refl
repayment_method_stored method_equal_principal h = refl
repayment_method_stored method_interest_only h = refl
repayment_method_stored method_bullet h = refl
repayment_method_stored method_equal_interest h = refl

calc_method_stored :
    (c : InterestCalcMethod) → string_to_interest_calc_method (interest_calc_method_to_string c) ≡ c
unfolding interest_calc_method_to_string string_to_interest_calc_method
calc_method_stored calc_monthly = refl
calc_method_stored calc_daily_act_365 = refl
calc_method_stored calc_daily_act_360 = refl

-- A repayment method that is specified, and a calculation method, come back from the strings of the
-- database as they were stored.
pub string_to_method-roundtrip :
    (m : RepaymentMethod) (c : InterestCalcMethod)
    → m ≢ method_unspecified
    → (string_to_repayment_method (repayment_method_to_string m) ≡ m)
      × (string_to_interest_calc_method (interest_calc_method_to_string c) ≡ c)
string_to_method-roundtrip m c h = (repayment_method_stored m h, calc_method_stored c)

-- The string of every method of the API is one that the schedules know.
pub repayment_method_to_string-known :
    (m : RepaymentMethod) → method_of (repayment_method_to_string m) ≢ unknown
unfolding repayment_method_to_string method_of
repayment_method_to_string-known method_equal_installment = λ k. cc
repayment_method_to_string-known method_equal_principal = λ k. cc
repayment_method_to_string-known method_interest_only = λ k. cc
repayment_method_to_string-known method_bullet = λ k. cc
repayment_method_to_string-known method_equal_interest = λ k. cc
repayment_method_to_string-known method_unspecified = λ k. cc

-- `pb.LoanScheduleItem`
pub record LoanScheduleItem : Type 0 where
  pub month_number : ℤ
  pub payment : ℤ
  pub principal_part : ℤ
  pub interest_part : ℤ
  pub remaining_principal : ℤ
  pub is_paid : Bool
  pub due_date : Time
  pub paid_date : Option Time

-- `pb.Loan`, over the type of the rate. An id or a name is "" where it is missing.
pub record Loan (Number : Type 0) : Type 0 where
  pub id : String
  pub user_id : String
  pub name : String
  pub principal : ℤ
  pub remaining_principal : ℤ
  pub annual_rate : Number
  pub total_months : ℤ
  pub paid_months : ℤ
  pub repayment_method : RepaymentMethod
  pub payment_day : ℕ
  pub start_date : Time
  pub account_id : String
  pub family_id : String
  pub interest_calc_method : InterestCalcMethod
