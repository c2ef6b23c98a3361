-- ===== src/Pipeline/Cycle.antt =====
-- `DecisionPipeline.step`: one cycle, from the exits of what is open to the execution of a candidate. The
-- validators, the forecast and the optimizer are parameters.
use iron_spyder.Prelude.{Bool, Option, none, some, List, [], ◌∷◌, ◌++◌, map, if◌then◌else◌}
use iron_spyder.Float.{Float, max2}
use iron_spyder.Domain.Enums.{ExitReason}
use iron_spyder.Domain.Market.{MarketSnapshot, ForecastBundle}
use iron_spyder.Domain.Strategy.{StrategyCandidate}
use iron_spyder.Domain.Execution.{RiskDecision, Position, BrokerState, veto}
use iron_spyder.Execution.Reconciliation.{Discrepancy}
use iron_spyder.Risk.Sizing.{SizingResult}
use iron_spyder.Risk.Limits.{is_tripped}
use iron_spyder.Risk.Portfolio.{open_positions, replace_position}
use iron_spyder.Risk.Engine.{evaluate, risk_budget}
use iron_spyder.Risk.Engine.Checks.{Veto}
use iron_spyder.Execution.Manager.{ExitSignal, ExitCheck, mark, check_exit}
use iron_spyder.Pipeline.{
  Run, chain, Failure, Reason, Decision, PipelineResult, Entry, DecisionPipeline, Executed, is_some,
  execute, close_position, persist_entry, broker_state,
}

-- `DataQualityReport`, as far as the pipeline reads it.
pub record Quality (W : Type 0) : Type 0 where
  pub score : W
  pub is_tradeable : Bool

-- `OptimizationResult`, as far as the pipeline reads it.
pub record Optimization (W : Type 0) : Type 0 where
  pub best : Option (StrategyCandidate W)
  pub trade_selected : Bool

pub record Desk (M W : Type 0) : Type 0 where
  -- `none` is an exception, here and below.
  pub assess : MarketSnapshot W → Option (Quality W)
  -- `build_features` and the forecast engine
  pub forecast : M → MarketSnapshot W → M × Option (ForecastBundle W)
  pub optimize : MarketSnapshot W → ForecastBundle W → W → Option (Optimization W)

-- `signals.append(signal)`, if the position was closed.
abbrev pub with_signal :
    {S W : Type 0}
    → Option (Position W)
    → ExitSignal W
    → Run S (List (ExitSignal W))
    → Run S (List (ExitSignal W))
with_signal shut signal (Run.raised e q) = Run.raised e q
with_signal none signal (Run.done q signals) = Run.done q signals
with_signal (some x) signal (Run.done q signals) = Run.done q (signal ∷ signals)

abbrev pub with_closed :
    {S W : Type 0} → Option (Position W) → Run S (List (Position W)) → Run S (List (Position W))
with_closed shut (Run.raised e q) = Run.raised e q
with_closed none (Run.done q xs) = Run.done q xs
with_closed (some x) (Run.done q xs) = Run.done q (x ∷ xs)

abbrev with_reasons : {W R S : Type 0} → (R → S) → RiskDecision W R → RiskDecision W S
with_reasons g r = record {
  approved = r.approved;
  veto_reasons = map g r.veto_reasons;
  max_contracts = r.max_contracts;
  approved_risk = r.approved_risk;
  required_price_limit = r.required_price_limit;
}

module _ {W : Type 0} where
  -- The result of a pass that does not trade.
  abbrev no_trade_result :
      MarketSnapshot W
      → List (ExitSignal W)
      → List Reason
      → Option (ForecastBundle W)
      → RiskDecision W Reason
      → Option (SizingResult W)
      → PipelineResult W
  no_trade_result s exits reasons forecast risk sizing = record {
    timestamp = s.timestamp;
    snapshot = s;
    forecast = forecast;
    candidate = none;
    risk = risk;
    sizing = sizing;
    order = none;
    fill = none;
    position = none;
    exits = exits;
    decision = Decision.no_trade;
    reasons = reasons;
  }

  abbrev shortfall : Option (StrategyCandidate W) → Option (StrategyCandidate W) → List Reason
  shortfall none (some best) = Reason.short_of_bar ∷ []
  shortfall _ _ = []

  -- The result of an execution.
  abbrev traded_result :
      MarketSnapshot W
      → List (ExitSignal W)
      → ForecastBundle W
      → StrategyCandidate W
      → RiskDecision W Veto
      → Option (SizingResult W)
      → Executed W
      → PipelineResult W
  traded_result s exits fc c risk sizing (order, (fill, position)) = record {
    timestamp = s.timestamp;
    snapshot = s;
    forecast = some fc;
    candidate = some c;
    risk = with_reasons Reason.vetoed risk;
    sizing = sizing;
    order = some order;
    fill = fill;
    position = position;
    exits = exits;
    decision = if is_some fill then Decision.trade c else Decision.no_trade;
    reasons = if is_some fill then [] else Reason.not_filled ∷ [];
  }

module _ {M W : Type 0} ⦃f : Float W⦄ where
  open f use {decimal}

  -- The loop of `_manage_open_positions`.
  unfoldable pub manage_from :
      Bool
      → MarketSnapshot W
      → List (Position W)
      → DecisionPipeline M W
      → Run (DecisionPipeline M W) (List (ExitSignal W))
  manage_from kill s [] p = Run.done p []
  manage_from kill s (x ∷ xs) p =
      let now = mark p.manager x s in
      let p' = record p { portfolio = replace_position x.position_id now p.portfolio } in
      elim (check_exit p.manager now s none kill) [
        | ExitCheck.keep ↦ manage_from kill s xs p'
        | ExitCheck.no_cutoff ↦ Run.raised Failure.no_timedelta p'
        | ExitCheck.leave signal ↦
            chain (close_position now s signal.reason p')
              (λ q shut. with_signal shut signal (manage_from kill s xs q))
      ]

  unfoldable pub manage_open_positions :
      MarketSnapshot W → DecisionPipeline M W → Run (DecisionPipeline M W) (List (ExitSignal W))
  unfolding manage_from
  manage_open_positions s p =
      manage_from (is_tripped p.risk_engine.kill_switch) s (open_positions p.portfolio) p

  abbrev conclude :
      DecisionPipeline M W → PipelineResult W → Run (DecisionPipeline M W) (PipelineResult W)
  conclude p r = persist_entry (Entry.recorded_decision r) r p

  -- The pass under a lockout: the forecast is only shown, and may fail.
  unfoldable pub locked :
      Desk M W
      → MarketSnapshot W
      → List (ExitSignal W)
      → DecisionPipeline M W
      → Run (DecisionPipeline M W) (PipelineResult W)
  locked d s exits p =
      let (models, forecast) = d.forecast p.models s in
      let reasons = Reason.quality_lockout ∷ [] in
      conclude (record p { models = models })
        (no_trade_result s exits reasons forecast (veto reasons) none)

  -- The pass once a candidate is, or is not, decided on.
  unfoldable pub decide :
      MarketSnapshot W
      → List (ExitSignal W)
      → ForecastBundle W
      → Optimization W
      → Option (StrategyCandidate W)
      → RiskDecision W Veto × Option (SizingResult W)
      → DecisionPipeline M W
      → Run (DecisionPipeline M W) (PipelineResult W)
  decide s exits fc opt candidate (risk, sizing) p =
      let reasons = shortfall candidate opt.best ++ map Reason.vetoed risk.veto_reasons in
      let refusal =
        no_trade_result s exits reasons (some fc) (with_reasons Reason.vetoed risk) sizing in
      elim candidate [
        | none ↦ conclude p refusal
        | some c ↦
            if risk.approved
            then chain (execute c risk s p)
                (λ q x. conclude q (traded_result s exits fc c risk sizing x))
            else conclude p refusal
      ]

  -- The pass with a ranking.
  unfoldable pub decide_on_best :
      MarketSnapshot W
      → List (ExitSignal W)
      → ForecastBundle W
      → Optimization W
      → BrokerState W (Discrepancy W)
      → DecisionPipeline M W
      → Run (DecisionPipeline M W) (PipelineResult W)
  decide_on_best s exits fc opt broker p =
      let candidate : Option (StrategyCandidate W) =
        if opt.trade_selected then opt.best else none in
      let (engine, verdict) = evaluate p.risk_engine candidate s fc p.portfolio broker in
      decide s exits fc opt candidate verdict (record p { risk_engine = engine })

  -- The risk that the optimizer may plan with.
  abbrev pub risk_cap : ForecastBundle W → DecisionPipeline M W → W
  risk_cap fc p =
      risk_budget p.risk_engine (broker_state p) p.portfolio fc.confidence fc.state_stability
        (max2 fc.calibration_score (decimal 1 6)) (decimal 8 1)

  -- The pass with a forecast.
  unfoldable pub decide_with :
      Desk M W
      → MarketSnapshot W
      → List (ExitSignal W)
      → ForecastBundle W
      → DecisionPipeline M W
      → Run (DecisionPipeline M W) (PipelineResult W)
  decide_with d s exits fc p = elim (d.optimize s fc (risk_cap fc p)) [
    | none ↦ Run.raised Failure.no_optimization p
    | some opt ↦ decide_on_best s exits fc opt (broker_state p) p
  ]

  -- The pass once trading is allowed.
  unfoldable pub unlocked :
      Desk M W
      → MarketSnapshot W
      → List (ExitSignal W)
      → DecisionPipeline M W
      → Run (DecisionPipeline M W) (PipelineResult W)
  unlocked d s exits p =
      let (models, forecast) = d.forecast p.models s in
      elim forecast [
        | none ↦ Run.raised Failure.no_forecast (record p { models = models })
        | some fc ↦ decide_with d s exits fc (record p { models = models })
      ]

  -- The pass with an assessment of the data.
  unfoldable pub step_with :
      Desk M W
      → MarketSnapshot W
      → Quality W
      → DecisionPipeline M W
      → Run (DecisionPipeline M W) (PipelineResult W)
  step_with d given quality p =
      let s : MarketSnapshot W = record given { data_quality_score = quality.score } in
      chain (manage_open_positions s p)
        (λ q exits. if quality.is_tradeable then unlocked d s exits q else locked d s exits q)

  unfoldable pub step :
      Desk M W
      → MarketSnapshot W
      → DecisionPipeline M W
      → Run (DecisionPipeline M W) (PipelineResult W)
  step d given p = elim (d.assess given) [
    | none ↦ Run.raised Failure.no_assessment p
    | some quality ↦ step_with d given quality p
  ]

  -- The loop of `force_close_all`.
  unfoldable pub force_close_from :
      ExitReason
      → MarketSnapshot W
      → List (Position W)
      → DecisionPipeline M W
      → Run (DecisionPipeline M W) (List (Position W))
  force_close_from reason s [] p = Run.done p []
  force_close_from reason s (x ∷ xs) p =
      chain (close_position (mark p.manager x s) s reason p)
        (λ q shut. with_closed shut (force_close_from reason s xs q))

  unfoldable pub force_close_all :
      ExitReason
      → MarketSnapshot W
      → DecisionPipeline M W
      → Run (DecisionPipeline M W) (List (Position W))
  force_close_all reason s p = force_close_from reason s (open_positions p.portfolio) p
