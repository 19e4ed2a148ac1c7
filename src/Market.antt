-- ===== src/Market.antt =====
-- When quotes are refreshed: server/internal/market/schedule.go.
pub mod Trading
pub mod Examples
use Prim.Native.String.{String}
use family_ledger.Base.{
  ℕ, ◌+◌, ◌*◌, Bool, true, false, Option, none, some, List, [], ◌∷◌, ◌&&◌, ◌||◌, ltb, leb, ◌==◌,
  if◌then◌else◌,
}
use text.Mathlib.Text.{◌==◌ as str_eq}

pub record TradingSession : Type 0 where
  pub start_hour : ℕ
  pub start_minute : ℕ
  pub end_hour : ℕ
  pub end_minute : ℕ

pub record MarketSchedule : Type 0 where
  pub timezone : String
  pub sessions : List TradingSession

-- What the code reads of a local time; Sunday is day 0 and Saturday day 6.
pub record LocalTime : Type 0 where
  pub weekday : ℕ
  pub hour : ℕ
  pub minute : ℕ

-- `time.LoadLocation` and `Time.In`: the local time of an instant, or none where the zone is not
-- known to the machine.
abbrev pub Zones : Type 0
Zones = String → Option (ℕ → LocalTime)

abbrev session : ℕ → ℕ → ℕ → ℕ → TradingSession
session h m eh em = record { start_hour = h; start_minute = m; end_hour = eh; end_minute = em }

-- the map `marketSchedules`
unfoldable pub market_schedules : String → Option MarketSchedule
market_schedules market_type =
    if str_eq market_type "a_share" || str_eq market_type "fund"
    then some (record {
      timezone = "Asia/Shanghai";
      sessions = session 9 30 11 30 ∷ session 13 0 15 0 ∷ [];
    })
    else if str_eq market_type "hk_stock"
    then some (record {
      timezone = "Asia/Hong_Kong";
      sessions = session 9 30 12 0 ∷ session 13 0 16 0 ∷ [];
    })
    else if str_eq market_type "us_stock"
    then some (record { timezone = "America/New_York"; sessions = session 9 30 16 0 ∷ [] })
    else none

-- The intervals, in minutes.
abbrev pub interval_trading : ℕ
interval_trading = 15

abbrev pub interval_off_hours : ℕ
interval_off_hours = 240

-- the loop over the sessions
unfoldable pub in_session : List TradingSession → ℕ → Bool
in_session [] hhmm = false
in_session (s ∷ sessions) hhmm =
    (leb (s.start_hour * 60 + s.start_minute) hhmm && ltb hhmm (s.end_hour * 60 + s.end_minute))
    || in_session sessions hhmm

-- `IsTradingHours` of a market with a schedule, in its local time
pub is_open : MarketSchedule → LocalTime → Bool
is_open schedule local_now =
    if (local_now.weekday == 6) || (local_now.weekday == 0)
    then false
    else in_session schedule.sessions (local_now.hour * 60 + local_now.minute)

-- `IsTradingHours`
unfoldable pub is_trading_hours : Zones → ℕ → String → Bool
is_trading_hours zones now market_type =
    if str_eq market_type "crypto" then true else elim (market_schedules market_type) [
      | none ↦ false
      | some schedule ↦ elim (zones schedule.timezone) [
        | none ↦ true
        | some local_of ↦ is_open schedule (local_of now)
      ]
    ]

-- `ComputeMarketIntervalForTypes`
unfoldable pub compute_market_interval_for_types : Zones → ℕ → List String → ℕ
compute_market_interval_for_types zones now [] = interval_off_hours
compute_market_interval_for_types zones now (mt ∷ market_types) =
    if is_trading_hours zones now mt
    then interval_trading
    else compute_market_interval_for_types zones now market_types

abbrev all_types : List String
all_types = "a_share" ∷ "hk_stock" ∷ "us_stock" ∷ "fund" ∷ "crypto" ∷ []

-- `computeMarketInterval`
unfoldable pub compute_market_interval : Zones → ℕ → ℕ
compute_market_interval zones now = compute_market_interval_for_types zones now all_types
