-- ===== src/Risk/Engine.antt =====
-- spy_der/risk/engine.py: the engine that approves, sizes or vetoes a candidate. `evaluate` returns the
-- engine with the verdict, for the session and the kill switch that it writes to.
mod Tests
pub mod Checks
pub mod Latch
pub mod Facts
pub mod Approval
use iron_spyder.Prelude.{
  ℕ, suc, ◌+◌, ◌*◌, ◌/◌, Bool, true, false, not, ◌&&◌, ◌||◌, Option, none, some, List, [], ◌∷◌,
  ◌++◌, map, length, is_empty, when, ltb, leb, ◌==◌, if◌then◌else◌,
}
use iron_spyder.Prelude.Int.{ℤ, pos}
use iron_spyder.Float.{Float, max2, min2}
use iron_spyder.Domain.Enums.{KillSwitchReason, MarketState}
use iron_spyder.Domain.Market.{MarketSnapshot, ForecastBundle}
use iron_spyder.Domain.Strategy.{
  OptionLeg, StrategyCandidate, ExitPlan, net_entry_cost, leg_count, near_expiry, strikes,
}
use iron_spyder.Domain.Execution.{
  RiskDecision, Position, BrokerState, is_healthy, is_open, total_max_loss, of_count,
}
use iron_spyder.Risk.Limits.{
  RiskConfig, SessionState, Active, Detail, trip, sort_reasons, roll_to, drawdown_fraction,
  slippage_ratio,
}
use iron_spyder.Risk.Sizing.{
  SizingResult, is_tradeable, total_risk, confidence_factor, size_position,
}
use iron_spyder.Risk.Portfolio.{Portfolio, total_open_risk}
use Checks.{
  Veto, RiskEngine, microseconds_per_day, update_kill_switches, session_reasons,
  environment_reasons, broker_reasons, candidate_reasons, portfolio_reasons, allowed_risk,
  kill_switch_reasons,
}

module _ {W : Type 0} ⦃f : Float W⦄ where
  open f use {nought, decimal, plus, minus, times, negate, absolute, lt, le, is_finite, clip}

  unfoldable pub available_risk : {D : Type 0} → RiskEngine W → Portfolio W → BrokerState W D → W
  available_risk e ps b = max2 nought (minus (allowed_risk e b) (total_open_risk ps))

  unfoldable pub price_limit : StrategyCandidate W → W
  price_limit c =
      let tolerance = times (decimal 1 2) (of_count (leg_count c.strategy)) in
      if le nought c.entry_price
      then plus c.entry_price tolerance
      else minus c.entry_price tolerance

  -- `max(0.0, min(1.0, x))`
  abbrev unit_term : W → W
  unit_term x = max2 nought (min2 (decimal 1 0) x)

  unfoldable pub risk_budget :
      {D : Type 0} → RiskEngine W → BrokerState W D → Portfolio W → W → W → W → W → W
  unfolding available_risk confidence_factor
  risk_budget e b ps confidence stability calibration liquidity =
      let cfg = e.config in
      let base = times (max2 nought b.equity) cfg.base_risk_fraction in
      let quality =
        times
          (times
            (times (confidence_factor confidence cfg.trade.min_confidence) (unit_term liquidity))
            (unit_term stability))
          (unit_term calibration) in
      min2
        (min2 (min2 (times base quality) (times b.equity cfg.trade.max_account_fraction_at_risk))
          cfg.trade.max_dollar_risk)
        (available_risk e ps b)

  -- The engine once the session has rolled and the kill switches are brought up to date.
  unfoldable pub refreshed :
      {D : Type 0}
      → RiskEngine W
      → MarketSnapshot W
      → ForecastBundle W
      → BrokerState W D
      → RiskEngine W
  refreshed e s fc b =
      let rolled = record e {
        session = roll_to (s.timestamp / microseconds_per_day) b.equity e.session;
      } in
      record rolled { kill_switch = update_kill_switches rolled s fc b }

  -- The reasons that do not depend on a candidate.
  unfoldable pub general_reasons :
      {D : Type 0}
      → RiskEngine W
      → MarketSnapshot W
      → ForecastBundle W
      → BrokerState W D
      → List Veto
  general_reasons e s fc b =
      kill_switch_reasons e.kill_switch
      ++ (session_reasons e s ++ (environment_reasons e s fc ++ broker_reasons b))

  unfoldable pub sizing_for :
      {D : Type 0}
      → RiskEngine W
      → StrategyCandidate W
      → ForecastBundle W
      → Portfolio W
      → BrokerState W D
      → SizingResult W
  sizing_for e c fc ps b =
      size_position c b.equity fc.confidence fc.state_stability
        (max2 fc.calibration_score (decimal 1 6)) e.config (some (available_risk e ps b))

  -- All the reasons against a candidate.
  unfoldable pub all_reasons :
      {D : Type 0}
      → RiskEngine W
      → StrategyCandidate W
      → MarketSnapshot W
      → ForecastBundle W
      → Portfolio W
      → BrokerState W D
      → List Veto
  all_reasons e c s fc ps b =
      general_reasons e s fc b
      ++ (candidate_reasons e c
          ++ (portfolio_reasons e c ps b
              ++ when (not (is_tradeable (sizing_for e c fc ps b))) Veto.zero_contracts))

  -- The verdict on a candidate, given all the reasons against it.
  abbrev pub decide_on : StrategyCandidate W → SizingResult W → List Veto → RiskDecision W Veto
  decide_on c sizing reasons = record {
    approved = is_empty reasons;
    veto_reasons = reasons;
    max_contracts = if is_empty reasons then sizing.contracts else 0;
    approved_risk = if is_empty reasons then total_risk sizing else nought;
    required_price_limit = if is_empty reasons then price_limit c else nought;
  }

  abbrev pub verdict :
      {D : Type 0}
      → RiskEngine W
      → Option (StrategyCandidate W)
      → MarketSnapshot W
      → ForecastBundle W
      → Portfolio W
      → BrokerState W D
      → RiskDecision W Veto × Option (SizingResult W)
  verdict e none s fc ps b = (
    record {
      approved = false;
      veto_reasons = general_reasons e s fc b ++ (Veto.no_candidate ∷ []);
      max_contracts = 0;
      approved_risk = nought;
      required_price_limit = nought;
    },
    none,
  )
  verdict e (some c) s fc ps b =
      let sizing = sizing_for e c fc ps b in
      (decide_on c sizing (all_reasons e c s fc ps b), some sizing)

  unfoldable pub evaluate :
      {D : Type 0}
      → RiskEngine W
      → Option (StrategyCandidate W)
      → MarketSnapshot W
      → ForecastBundle W
      → Portfolio W
      → BrokerState W D
      → RiskEngine W × (RiskDecision W Veto × Option (SizingResult W))
  evaluate e candidate s fc ps b =
      let now = refreshed e s fc b in (now, verdict now candidate s fc ps b)
