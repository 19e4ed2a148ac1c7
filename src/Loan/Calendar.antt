-- ===== src/Loan/Calendar.antt =====
-- Due dates: `advanceMonths`, `daysInMonth` and `daysInPeriod` of
-- server/internal/loan/service.go, over UTC times of the `time` package.
pub mod Order
use family_ledger.Base.{
  ℕ, zero, suc, ◌+◌, ◌-◌, ◌*◌, ◌/◌, ◌%◌, ◌≤◌, ◌<◌, Bool, true, false, not, ◌&&◌, ◌||◌, ltb, leb,
  ◌==◌, if◌then◌else◌,
}
use family_ledger.Base.Int.{ℤ, pos, negsuc, pos_part, neg_part, ◌-ℤ◌, ltb_ℤ}

-- A `time.Time` in UTC: the civil date, and the time of day in nanoseconds.
pub record Time : Type 0 where
  pub year : ℕ
  pub month : ℕ
  pub day : ℕ
  pub clock : ℕ

-- `time.Date(y, m, d, 0, 0, 0, 0, time.UTC)`, for a day that the month has
abbrev pub midnight : ℕ → ℕ → ℕ → Time
midnight y m d = record { year = y; month = m; day = d; clock = 0 }

-- The Gregorian rule, from the coarsest period down.
abbrev pub is_leap : ℕ → Bool
is_leap y = if y % 400 == 0 then true else if y % 100 == 0 then false else y % 4 == 0

abbrev pub february_days : ℕ → ℕ
february_days y = if is_leap y then 29 else 28

-- November, September, June and April
abbrev pub has_thirty_days : ℕ → Bool
has_thirty_days m = (m == 11) || ((m == 9) || ((m == 6) || (m == 4)))

-- The day of `time.Date(year, month+1, 0)` is the last of the month.
unfoldable pub days_in_month : ℕ → ℕ → ℕ
days_in_month y m = if has_thirty_days m then 30 else if m == 2 then february_days y else 31

-- `for m > 12 { y++; m -= 12 }`; fuel `m` is enough, since each round takes 12 from it
pub carry_years : ℕ → ℕ → ℕ → ℕ × ℕ
carry_years zero y m = (y, m)
carry_years (suc fuel) y m =
    let rest = carry_years fuel (y + 1) (m - 12) in if ltb 12 m then rest else (y, m)

-- `for m < 1 { y--; m += 12 }`: of the months that are naturals only 0 is below 1
pub borrow_years : ℕ × ℕ → ℕ × ℕ
borrow_years (y, m) = if ltb m 1 then (y - 1, m + 12) else (y, m)

pub clip_day : ℕ → ℕ × ℕ → Time
clip_day payment_day (y, m) =
    let max_day = days_in_month y m in
    midnight y m (if ltb max_day payment_day then max_day else payment_day)

-- The month, counted on from January of the start year, that the code normalises.
pub raw_month : Time → ℕ → ℕ → ℕ
raw_month start month_offset payment_day =
    let m = start.month + month_offset in if leb payment_day start.day then m + 1 else m

-- `paymentDay` is at least 1: `validateCreateLoanRequest` lets no other through.
unfoldable pub advance_months : Time → ℕ → ℕ → Time
unfolding carry_years borrow_years clip_day raw_month
advance_months start month_offset payment_day =
    let m = raw_month start month_offset payment_day in
    clip_day payment_day (borrow_years (carry_years m start.year m))

-- The days before a year, and before a month of it, in the proleptic Gregorian calendar.
pub days_before_year : ℕ → ℕ
days_before_year y = let p = y - 1 in p * 365 + p / 4 - p / 100 + p / 400

pub days_before_month : ℕ → ℕ → ℕ
days_before_month y zero = 0
days_before_month y (suc zero) = 0
days_before_month y (suc (suc m)) = days_before_month y (suc m) + days_in_month y (suc m)

-- nanoseconds in a day
abbrev pub day_length : ℕ
day_length = 86400000000000

pub instant : Time → ℕ
unfolding days_before_year days_before_month
instant t =
    (days_before_year t.year + days_before_month t.year t.month + t.day) * day_length + t.clock

-- `int(to.Sub(from).Hours() / 24)`: whole days, rounded towards zero
unfoldable pub days_in_period : Time → Time → ℤ
unfolding instant
days_in_period start end =
    let d = pos (instant end) -ℤ pos (instant start) in
    if ltb_ℤ d (pos 0)
    then pos 0 -ℤ pos (neg_part d / day_length)
    else pos (pos_part d / day_length)
