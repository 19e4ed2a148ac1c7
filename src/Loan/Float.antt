-- ===== src/Loan/Float.antt =====
-- Go's `float64` as far as the loan code uses it, an interface: its numbers and operations are
-- whatever the hardware computes, and `round_cent` is `int64(math.Round(v))` of
-- server/internal/loan/service.go, whose result is an int64.
use family_ledger.Base.{Bool}
use family_ledger.Base.Int.{ℤ}
use family_ledger.Base.Int64.{InRange}

pub record Float : Type 1 where
  pub Number : Type 0
  -- the conversion of an int64, and the literals 100.0, 12.0, 360.0, 365.0
  pub of_int : ℤ → Number
  -- the literal 0.5
  pub half : Number
  pub add : Number → Number → Number
  pub sub : Number → Number → Number
  pub mul : Number → Number → Number
  pub div : Number → Number → Number
  pub pow : Number → Number → Number
  pub lt : Number → Number → Bool
  pub eq : Number → Number → Bool
  pub round_cent : Number → ℤ
  -- `int(math.Ceil(v))`
  pub ceil : Number → ℤ
  -- the most elements that `make([]scheduleItem, n)` gives; for more it panics
  pub max_items : ℤ
  pub round_cent_range : (x : Number) → InRange (round_cent x)
  pub ceil_range : (x : Number) → InRange (ceil x)
