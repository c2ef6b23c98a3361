-- ===== src/Risk/Session/Tests.antt =====
-- A session of four calls.
use iron_spyder.Prelude.{◌≤◌, ◌≡◌, arith, true, none, List, [], ◌∷◌, length}
use iron_spyder.Float.Ticks.{Ticks, ticks, Ticks-IsOrdered}
use iron_spyder.Samples.{cents, dollars}
use iron_spyder.Risk.Limits.{SessionState, max_samples}
use iron_spyder.Risk.Session.{SessionCall, after_calls, Peaks, after_calls-Peaks}
open ticks use {le, negate}

abbrev morning : SessionState Ticks
morning = record {
  trading_day = none;
  realized_pnl = cents 0;
  peak_equity = dollars 100_000;
  trades_today = 0;
  consecutive_losses = 0;
  slippage_samples = [];
}

abbrev day : List (SessionCall Ticks)
day =
    SessionCall.roll 3 (dollars 100_000)
    ∷ SessionCall.slippage (cents 5) (cents 8)
    ∷ SessionCall.trade (dollars 250) (dollars 100_250)
    ∷ SessionCall.trade (negate (dollars 90)) (dollars 100_160)
    ∷ []

after_calls-Peaks_example :
    (length (after_calls day morning).slippage_samples ≤ max_samples)
    × (le morning.peak_equity (after_calls day morning).peak_equity ≡ true)
    × Peaks (after_calls day morning).peak_equity day
after_calls-Peaks_example = after_calls-Peaks Ticks-IsOrdered day morning (omega arith)
