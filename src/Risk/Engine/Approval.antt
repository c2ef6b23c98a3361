-- ===== src/Risk/Engine/Approval.antt =====
-- What an approval of `evaluate` implies of the candidate, the account and the size.
use iron_spyder.Prelude.{
  ◌≡◌, refl, true, Option, none, some, [], when-nil, append-nil_left, append-nil_right,
}
use iron_spyder.Float.{Float, IsOrdered}
use iron_spyder.Domain.Market.{MarketSnapshot, ForecastBundle}
use iron_spyder.Domain.Strategy.{StrategyCandidate}
use iron_spyder.Domain.Execution.{BrokerState}
use iron_spyder.Risk.Sizing.{total_risk}
use iron_spyder.Risk.Sizing.Bounds.{IsWithin, size_position-IsWithin}
use iron_spyder.Risk.Portfolio.{Portfolio}
use iron_spyder.Risk.Engine.Checks.{
  RiskEngine, candidate_reasons, portfolio_reasons, session_reasons, environment_reasons,
  kill_switch_reasons,
}
use iron_spyder.Risk.Engine.{
  evaluate, refreshed, general_reasons, all_reasons, sizing_for, available_risk,
}
use iron_spyder.Risk.Engine.Facts.{
  not-false, is_empty-nil, IsTimely, IsCertain, IsTradable, IsServed, IsRoomy, session_reasons-nil,
  environment_reasons-nil, candidate_reasons-nil, broker_reasons-nil, portfolio_reasons-nil,
}
use iron_spyder.Risk.Engine.Latch.{kill_switch_reasons-nil}

module _ {W D : Type 0} ⦃f : Float W⦄ where
  -- The state of the account, the market and the session in which a trade may be opened.
  pub record IsClear (e : RiskEngine W) (s : MarketSnapshot W) (fc : ForecastBundle W)
      (b : BrokerState W D) : Type 0 where
    pub no_switch : e.kill_switch ≡ []
    pub session : IsTimely e s
    pub environment : IsCertain e s fc
    pub broker : IsServed b

  -- What the candidate is, by itself and beside the portfolio.
  pub record IsSound (e : RiskEngine W) (c : StrategyCandidate W) (ps : Portfolio W)
      (b : BrokerState W D) : Type 0 where
    pub tradable : IsTradable e c
    pub roomy : IsRoomy e c ps b

  general_reasons-nil :
      (e : RiskEngine W) (s : MarketSnapshot W) (fc : ForecastBundle W) (b : BrokerState W D)
      → general_reasons e s fc b ≡ []
      → IsClear e s fc b
  unfolding general_reasons
  general_reasons-nil e s fc b h =
      let r1 = append-nil_right (kill_switch_reasons e.kill_switch) _ h in
      let r2 = append-nil_right (session_reasons e s) _ r1 in
      let r3 = append-nil_right (environment_reasons e s fc) _ r2 in
      record {
        no_switch = kill_switch_reasons-nil _ (append-nil_left _ _ h);
        session = session_reasons-nil e s (append-nil_left _ _ r1);
        environment = environment_reasons-nil e s fc (append-nil_left _ _ r2);
        broker = broker_reasons-nil b r3;
      }

module _ {W D : Type 0} ⦃f : Float W⦄ (laws : IsOrdered f) where
  all_reasons-nil :
      (e : RiskEngine W) (c : StrategyCandidate W) (s : MarketSnapshot W) (fc : ForecastBundle W)
      (ps : Portfolio W) (b : BrokerState W D)
      → all_reasons e c s fc ps b ≡ []
      → IsClear e s fc b
        × IsSound e c ps b
        × IsWithin c b.equity e.config (some (available_risk e ps b)) (sizing_for e c fc ps b)
  unfolding all_reasons sizing_for
  all_reasons-nil e c s fc ps b h =
      let r1 = append-nil_right (general_reasons e s fc b) _ h in
      let r2 = append-nil_right (candidate_reasons e c) _ r1 in
      let r3 = append-nil_right (portfolio_reasons e c ps b) _ r2 in
      (
        general_reasons-nil e s fc b (append-nil_left _ _ h),
        record {
          tradable = candidate_reasons-nil e c (append-nil_left _ _ r1);
          roomy = portfolio_reasons-nil e c ps b (append-nil_left _ _ r2);
        },
        size_position-IsWithin laws c b.equity fc.confidence fc.state_stability _ e.config
            (some (available_risk e ps b)) (not-false _ (when-nil _ _ r3)),
      )

  -- If `evaluate` approves, a candidate was given; after the session roll and the update of the kill
  -- switches, no switch is active, the session permits a trade, data quality, confidence, disagreement
  -- and the two structural states are within their limits, and the broker is connected and reconciled,
  -- without discrepancy and with positive equity; the candidate has no rejection, a finite and positive
  -- maximum loss, and is within every limit of a trade, with a complete exit plan; a slot is free, and one
  -- contract fits the open risk, the risk of its expiration and the capital; and the contracts and the
  -- risk approved are those of the sizing, which is within every cap.
  pub evaluate-IsSound :
      (e : RiskEngine W) (candidate : Option (StrategyCandidate W)) (s : MarketSnapshot W)
      (fc : ForecastBundle W) (ps : Portfolio W) (b : BrokerState W D)
      → let (now, (decision, _)) = evaluate e candidate s fc ps b in
        decision.approved ≡ true
        → (c : StrategyCandidate W) × (candidate ≡ some c)
          × IsClear now s fc b
          × IsSound now c ps b
          × IsWithin c b.equity now.config
              (some (available_risk now ps b))
              (sizing_for now c fc ps b)
          × (decision.max_contracts ≡ (sizing_for now c fc ps b).contracts)
          × (decision.approved_risk ≡ total_risk (sizing_for now c fc ps b))
  unfolding evaluate
  evaluate-IsSound e none s fc ps b h = cc
  evaluate-IsSound e (some c) s fc ps b h =
      let now = refreshed e s fc b in
      let nil = is_empty-nil (all_reasons now c s fc ps b) h in
      let (clear, sound, within) = all_reasons-nil now c s fc ps b nil in
      (c, refl, clear, sound, within, rw nil refl, rw nil refl)
