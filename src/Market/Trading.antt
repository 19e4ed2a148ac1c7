-- ===== src/Market/Trading.antt =====
-- The hours of trade (server/internal/market/schedule.go).
use Prim.Native.String.{String}
use family_ledger.Base.{
  ℕ, ◌+◌, ◌*◌, ◌≤◌, ◌<◌, ◌≡◌, ◌⊎◌, ◌↔◌, true, false, some, List, [], ◌∷◌, arith,
}
use text.Mathlib.Text.{◌==◌ as str_eq}
use family_ledger.Market.{
  TradingSession, MarketSchedule, LocalTime, Zones, market_schedules, in_session, is_open,
  is_trading_hours,
}

-- The minute of the day lies in one of the sessions, the end excluded.
abbrev pub InSession : List TradingSession → ℕ → Type 0
InSession [] hhmm = true ≡ false
InSession (s ∷ sessions) hhmm =
    ((s.start_hour * 60 + s.start_minute ≤ hhmm) × (hhmm < s.end_hour * 60 + s.end_minute))
    ⊎ InSession sessions hhmm

in_session_lem :
    (sessions : List TradingSession) (hhmm : ℕ)
    → (in_session sessions hhmm ≡ true) ↔ InSession sessions hhmm
unfolding in_session
in_session_lem [] hhmm = (λ e. cc, λ e. cc)
in_session_lem (s ∷ sessions) hhmm = ground (arith, in_session_lem sessions hhmm)

-- A market with a schedule, in a zone that the machine knows, trades on the days from Monday to
-- Friday within one of its sessions, in its local time, and at no other time.
pub is_trading_hours-InSession :
    (zones : Zones) (now : ℕ) (market_type : String) (schedule : MarketSchedule)
    (local_of : ℕ → LocalTime)
    → str_eq market_type "crypto" ≡ false
    → market_schedules market_type ≡ some schedule
    → zones schedule.timezone ≡ some local_of
    → (local_of now).weekday ≤ 6
    → (is_trading_hours zones now market_type ≡ true)
      ↔ (1 ≤ (local_of now).weekday)
        × ((local_of now).weekday ≤ 5)
        × InSession schedule.sessions ((local_of now).hour * 60 + (local_of now).minute)
unfolding is_trading_hours is_open
is_trading_hours-InSession zones now market_type schedule local_of listed scheduled known week =
    rw (listed, scheduled, known, is_trading_hours)
      (ground (
        arith,
        in_session_lem schedule.sessions ((local_of now).hour * 60 + (local_of now).minute),
      ))
