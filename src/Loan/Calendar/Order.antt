-- ===== src/Loan/Calendar/Order.antt =====
-- Where `advanceMonths` (server/internal/loan/service.go) lands.
use family_ledger.Base.{ℕ, zero, suc, ◌+◌, ◌-◌, ◌*◌, ◌≤◌, ◌≡◌, min, arith, leb, if◌then◌else◌}
use family_ledger.Loan.Calendar.{Time, days_in_month, carry_years, raw_month, advance_months}

-- The number of a month, counting twelve to a year.
abbrev pub month_index : Time → ℕ
month_index t = t.year * 12 + t.month

carry_years_lem :
    (fuel y m : ℕ)
    → 1 ≤ m
    → m ≤ fuel
    → let (y', m') = carry_years fuel y m in (y' * 12 + m' ≡ y * 12 + m) × (1 ≤ m') × (m' ≤ 12)
unfolding carry_years
carry_years_lem zero y m h f = omega arith
carry_years_lem (suc fuel) y m h f = ground (arith, carry_years_lem fuel (y + 1) (m - 12))

pub days_in_month_range : (y m : ℕ) → (28 ≤ days_in_month y m) × (days_in_month y m ≤ 31)
unfolding days_in_month
days_in_month_range y m = ground arith

-- What a due date has to be.
pub record IsDue (start : Time) (offset payment_day : ℕ) (t : Time) : Type 0 where
  pub month_in : (1 ≤ t.month) × (t.month ≤ 12)
  pub month_is :
      month_index t ≡ month_index start + offset + (if leb payment_day start.day then 1 else 0)
  pub day_is : t.day ≡ min payment_day (days_in_month t.year t.month)
  pub at_midnight : t.clock ≡ 0

-- From a start month of 1 or later, a due date is in the month that lies the offset after the start
-- month, or one later if the start day is the payment day or later; it is on the payment day, or on
-- the last day of a shorter month, at midnight.
pub advance_months-IsDue :
    (start : Time) (offset payment_day : ℕ)
    → 1 ≤ start.month
    → IsDue start offset payment_day (advance_months start offset payment_day)
unfolding advance_months
advance_months-IsDue start offset payment_day h = ground (
  arith,
  carry_years_lem (raw_month start offset payment_day) start.year
      (raw_month start offset payment_day),
)
