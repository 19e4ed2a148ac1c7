-- ===== src/Market/Examples.antt =====
-- The hours of a market on a machine whose instants are minutes of a week that begins on Sunday.
use family_ledger.Base.{ℕ, ◌/◌, ◌%◌, ◌≤◌, ◌≡◌, ◌↔◌, refl, true, some, [], ◌∷◌, arith}
use family_ledger.Market.{MarketSchedule, LocalTime, Zones, market_schedules, is_trading_hours}
use family_ledger.Market.Trading.{InSession, is_trading_hours-InSession}

abbrev local_of : ℕ → LocalTime
local_of t = record { weekday = t / 1440 % 7; hour = t % 1440 / 60; minute = t % 60 }

abbrev zones : Zones
zones name = some local_of

abbrev new_york : MarketSchedule
new_york = record {
  timezone = "America/New_York";
  sessions = record { start_hour = 9; start_minute = 30; end_hour = 16; end_minute = 0 } ∷ [];
}

-- Monday, 10:00
is_trading_hours-InSession_example :
    (is_trading_hours zones 2040 "us_stock" ≡ true)
    ↔ (1 ≤ 1) × (1 ≤ 5) × InSession new_york.sessions 600
unfolding market_schedules
is_trading_hours-InSession_example =
    is_trading_hours-InSession zones 2040 "us_stock" new_york local_of refl refl refl (omega arith)
