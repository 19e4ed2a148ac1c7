-- ===== src/Loan/Request.antt =====
-- What a loan is created from: the enumerations of a loan, the checks of a request, and the
-- schedule that `CreateLoan` makes of it (server/internal/loan/service.go).
use Prim.Native.String.{String}
use family_ledger.Base.{
  ⊤, ℕ, zero, suc, ◌≤◌, ◌≡◌, refl, Bool, true, false, Option, none, some, List, ◌||◌, arith,
  if◌then◌else◌,
}
use text.Mathlib.Text.{◌==◌ as str_eq}
use family_ledger.Base.Int.{ℤ, pos, negsuc, pos_part, ◌≤ℤ◌, leb_ℤ, ltb_ℤ}
use family_ledger.Base.Int64.{InRange}
use family_ledger.Db.{Result, ok, err, invalid_argument}
use family_ledger.Store.{is_empty}
use family_ledger.Loan.Float.{Float}
use family_ledger.Loan.Calendar.{Time}
use family_ledger.Loan.Schedule.{ScheduleItem, generate_schedule}
use family_ledger.Loan.Schedule.Sums.{Repays}
use family_ledger.Loan.Schedule.Repays.{generate_schedule-Repays}
use family_ledger.Loan.Schedule.Dates.{IsMonthly, first_month, generate_schedule-IsMonthly}
use family_ledger.Loan.Types.{
  method_of, calc_method_of, RepaymentMethod, method_unspecified, InterestCalcMethod,
  repayment_method_to_string, interest_calc_method_to_string, repayment_method_to_string-known,
}

pub data LoanType : Type 0 where
  loan_unspecified mortgage car_loan credit_card consumer business other : LoanType

pub data LoanSubType : Type 0 where
  sub_unspecified commercial provident : LoanSubType

pub data RateType : Type 0 where
  rate_unspecified fixed lpr_floating : RateType

pub loan_type_to_string : LoanType → String
loan_type_to_string mortgage = "mortgage"
loan_type_to_string car_loan = "car_loan"
loan_type_to_string credit_card = "credit_card"
loan_type_to_string consumer = "consumer"
loan_type_to_string business = "business"
loan_type_to_string _ = "other"

pub string_to_loan_type : String → LoanType
string_to_loan_type s =
    if str_eq s "mortgage"
    then mortgage
    else if str_eq s "car_loan"
    then car_loan
    else if str_eq s "credit_card"
    then credit_card
    else if str_eq s "consumer"
    then consumer
    else if str_eq s "business"
    then business
    else if str_eq s "other"
    then other
    else loan_unspecified

pub loan_sub_type_to_string : LoanSubType → String
loan_sub_type_to_string provident = "provident"
loan_sub_type_to_string _ = "commercial"

pub string_to_loan_sub_type : String → LoanSubType
string_to_loan_sub_type s =
    if str_eq s "commercial"
    then commercial
    else if str_eq s "provident"
    then provident
    else sub_unspecified

pub rate_type_to_string : RateType → String
rate_type_to_string lpr_floating = "lpr_floating"
rate_type_to_string _ = "fixed"

pub string_to_rate_type : String → RateType
string_to_rate_type s =
    if str_eq s "fixed"
    then fixed
    else if str_eq s "lpr_floating"
    then lpr_floating
    else rate_unspecified

abbrev or_other : LoanType → LoanType
or_other loan_unspecified = other
or_other t = t

abbrev or_commercial : LoanSubType → LoanSubType
or_commercial sub_unspecified = commercial
or_commercial t = t

abbrev or_fixed : RateType → RateType
or_fixed rate_unspecified = fixed
or_fixed t = t

loan_type_stored : (t : LoanType) → string_to_loan_type (loan_type_to_string t) ≡ or_other t
unfolding loan_type_to_string string_to_loan_type
loan_type_stored loan_unspecified = refl
loan_type_stored mortgage = refl
loan_type_stored car_loan = refl
loan_type_stored credit_card = refl
loan_type_stored consumer = refl
loan_type_stored business = refl
loan_type_stored other = refl

loan_sub_type_stored :
    (t : LoanSubType) → string_to_loan_sub_type (loan_sub_type_to_string t) ≡ or_commercial t
unfolding loan_sub_type_to_string string_to_loan_sub_type
loan_sub_type_stored sub_unspecified = refl
loan_sub_type_stored commercial = refl
loan_sub_type_stored provident = refl

rate_type_stored : (t : RateType) → string_to_rate_type (rate_type_to_string t) ≡ or_fixed t
unfolding rate_type_to_string string_to_rate_type
rate_type_stored rate_unspecified = refl
rate_type_stored fixed = refl
rate_type_stored lpr_floating = refl

-- The kind of a loan, of a part of a loan and of its rate come back from the database as they were
-- stored; where they were unspecified, as "other", "commercial" and "fixed".
pub string_to_loan_type-roundtrip :
    (t : LoanType) (st : LoanSubType) (r : RateType)
    → (string_to_loan_type (loan_type_to_string t) ≡ or_other t)
      × (string_to_loan_sub_type (loan_sub_type_to_string st) ≡ or_commercial st)
      × (string_to_rate_type (rate_type_to_string r) ≡ or_fixed r)
string_to_loan_type-roundtrip t st r =
    (loan_type_stored t, loan_sub_type_stored st, rate_type_stored r)

-- `pb.CreateLoanRequest`
pub record CreateLoanRequest (Number : Type 0) : Type 0 where
  pub name : String
  pub loan_type : LoanType
  pub principal : ℤ
  pub annual_rate : Number
  pub total_months : ℤ
  pub repayment_method : RepaymentMethod
  pub payment_day : ℤ
  pub start_date : Option Time
  pub account_id : String
  pub family_id : String
  pub interest_calc_method : InterestCalcMethod

abbrev is_unspecified_type : LoanType → Bool
is_unspecified_type loan_unspecified = true
is_unspecified_type _ = false

abbrev is_unspecified_method : RepaymentMethod → Bool
is_unspecified_method method_unspecified = true
is_unspecified_method _ = false

abbrev is_nil : Option Time → Bool
is_nil none = true
is_nil (some _) = false

module _ (fl : Float) where
  open fl use {Number, lt, of_int}

  -- `validateCreateLoanRequest`
  unfoldable pub validate_create_loan_request : CreateLoanRequest Number → Result ⊤
  validate_create_loan_request req =
      if is_empty req.name
      then err invalid_argument
      else if is_unspecified_type req.loan_type
      then err invalid_argument
      else if leb_ℤ req.principal (pos 0)
      then err invalid_argument
      else if lt req.annual_rate (of_int (pos 0))
      then err invalid_argument
      else if leb_ℤ req.total_months (pos 0)
      then err invalid_argument
      else if is_unspecified_method req.repayment_method
      then err invalid_argument
      else if ltb_ℤ req.payment_day (pos 1) || ltb_ℤ (pos 28) req.payment_day
      then err invalid_argument
      else if is_nil req.start_date
      then err invalid_argument
      else ok tt

  -- the schedule of `CreateLoan`
  unfoldable pub requested_schedule : CreateLoanRequest Number → Time → List ScheduleItem
  requested_schedule req start_date =
      generate_schedule fl req.principal req.annual_rate req.total_months
        (method_of (repayment_method_to_string req.repayment_method)) (pos_part req.payment_day)
        start_date (calc_method_of (interest_calc_method_to_string req.interest_calc_method))

  -- What the checks of a request leave.
  record Checked (req : CreateLoanRequest Number) : Type 0 where
    principal_pos : pos 1 ≤ℤ req.principal
    months_pos : pos 1 ≤ℤ req.total_months
    day_pos : 1 ≤ pos_part req.payment_day
    day_short : pos_part req.payment_day ≤ 28

  validate-Checked :
      (req : CreateLoanRequest Number) → validate_create_loan_request req ≡ ok tt → Checked req
  unfolding validate_create_loan_request
  validate-Checked req e = ground arith

positive_ℤ : (z : ℤ) → pos 1 ≤ℤ z → (k : ℕ) × (z ≡ pos (suc k))
positive_ℤ (pos zero) h = absurd (omega arith)
positive_ℤ (pos (suc k)) h = (k, refl)
positive_ℤ (negsuc k) h = absurd (omega arith)

-- Every request that passes the checks, with a principal that an int64 holds, gets a schedule with
-- one item for each month asked for, which repays exactly the principal, and which, from a start
-- month of 1 or later, falls due
-- monthly on the payment day.
pub validate_create_loan_request-schedule :
    (fl : Float) (req : CreateLoanRequest fl.Number) (start : Time)
    → validate_create_loan_request fl req ≡ ok tt
    → InRange req.principal
    → 1 ≤ start.month
    → let items = requested_schedule fl req start in
      Repays req.principal (pos_part req.total_months) items
      × IsMonthly (pos_part req.payment_day) (first_month start (pos_part req.payment_day)) items
unfolding requested_schedule
validate_create_loan_request-schedule fl req start e range h =
    let c = validate-Checked fl req e in
    let (k, months) = positive_ℤ req.total_months c.months_pos in
    let known = repayment_method_to_string-known req.repayment_method in
    (
      rw months (
          generate_schedule-Repays fl req.principal req.annual_rate k _ _ start _ range
            c.principal_pos known),
      generate_schedule-IsMonthly fl req.principal req.annual_rate req.total_months _ _ start _ h
          c.day_pos c.day_short known,
    )
