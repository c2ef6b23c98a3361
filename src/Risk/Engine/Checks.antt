-- ===== src/Risk/Engine/Checks.antt =====
-- The checks of `RiskEngine`: the kill switches that are tripped, and the reasons of each group.
use iron_spyder.Prelude.{
  ℕ, suc, Bool, true, false, not, ◌&&◌, ◌||◌, Option, some, List, [], ◌∷◌, ◌++◌, map, length,
  is_empty, when, ltb, leb, if◌then◌else◌,
}
use iron_spyder.Float.{Float, max2, min2}
use iron_spyder.Domain.Enums.{KillSwitchReason, MarketState}
use iron_spyder.Domain.Market.{MarketSnapshot, ForecastBundle}
use iron_spyder.Domain.Strategy.{
  StrategyCandidate, ExitPlan, net_entry_cost, leg_count, near_expiry, strikes,
}
use iron_spyder.Domain.Execution.{BrokerState, is_healthy}
use iron_spyder.Risk.Limits.{
  RiskConfig, SessionState, Active, Detail, trip, sort_reasons, drawdown_fraction, slippage_ratio,
}
use iron_spyder.Risk.Portfolio.{Portfolio, open_count, total_open_risk, risk_for_expiration}

pub data Veto : Type 0 where
  kill_switch : KillSwitchReason → Veto
  few_minutes scheduled_event trade_limit : Veto
  low_data_quality low_confidence high_disagreement : Veto
  structural : MarketState → Veto
  broker_disconnected broker_unreconciled broker_discrepancies no_equity no_candidate : Veto
  rejection : ℕ → Veto
  bad_max_loss dollar_risk low_return low_liquidity wide_spread high_slippage many_legs : Veto
  assignment wide_strikes large_debit gamma_exposure vega_exposure theta_exposure no_exit_plan :
      Veto
  open_strategies open_risk same_expiration capital_usage zero_contracts : Veto

abbrev pub microseconds_per_day : ℕ
microseconds_per_day = 86_400_000_000

pub record RiskEngine (W : Type 0) : Type 0 where
  pub config : RiskConfig W
  pub kill_switch : Active
  pub session : SessionState W

unfoldable pub trip_when : Bool → KillSwitchReason → Option Detail → Active → Active
trip_when true r d a = trip r d a
trip_when false r d a = a

-- "; ".join(discrepancies) or "disconnected"
abbrev pub broker_detail : {D : Type 0} → List D → Detail
broker_detail [] = Detail.disconnected
broker_detail (d ∷ ds) = Detail.joined_discrepancies (suc (length ds))

-- `self.kill_switch.reasons`
unfoldable pub kill_switch_reasons : Active → List Veto
unfolding sort_reasons
kill_switch_reasons a = map (λ entry. Veto.kill_switch entry.0) (sort_reasons a)

module _ {W : Type 0} ⦃f : Float W⦄ where
  open f use {nought, decimal, plus, minus, times, negate, absolute, lt, le, is_finite, clip}

  -- `_update_kill_switches`
  unfoldable pub update_kill_switches :
      {D : Type 0} → RiskEngine W → MarketSnapshot W → ForecastBundle W → BrokerState W D → Active
  update_kill_switches e s fc b =
      let cfg = e.config in
      let figures = λ (r : KillSwitchReason). some (Detail.figures r) in
      let loss_limit =
        min2 cfg.session.daily_loss_limit (times b.equity cfg.session.daily_loss_fraction) in
      let a1 =
        trip_when (lt s.data_quality_score cfg.trade.min_data_quality) KillSwitchReason.data_quality
          (figures KillSwitchReason.data_quality) e.kill_switch in
      let a2 =
        trip_when (not (is_healthy b)) KillSwitchReason.broker_state
          (some (broker_detail b.discrepancies)) a1 in
      let a3 =
        trip_when (lt cfg.trade.max_model_disagreement fc.model_disagreement)
          KillSwitchReason.model_disagreement (figures KillSwitchReason.model_disagreement) a2 in
      let a4 =
        trip_when (lt fc.calibration_score cfg.min_calibration_quality) KillSwitchReason.calibration
          (figures KillSwitchReason.calibration) a3 in
      let a5 =
        trip_when (le e.session.realized_pnl (negate loss_limit)) KillSwitchReason.daily_loss
          (figures KillSwitchReason.daily_loss) a4 in
      let a6 =
        trip_when (leb cfg.session.max_consecutive_losses e.session.consecutive_losses)
          KillSwitchReason.consecutive_losses (figures KillSwitchReason.consecutive_losses) a5 in
      let a7 =
        trip_when (le cfg.session.max_drawdown_fraction (drawdown_fraction b.equity e.session))
          KillSwitchReason.drawdown (figures KillSwitchReason.drawdown) a6 in
      trip_when (lt cfg.max_slippage_ratio (slippage_ratio e.session)) KillSwitchReason.slippage
        (figures KillSwitchReason.slippage) a7

  unfoldable pub session_reasons : RiskEngine W → MarketSnapshot W → List Veto
  session_reasons e s =
      let cfg = e.config.session in
      when (lt s.context.minutes_to_close cfg.min_minutes_to_close) Veto.few_minutes
      ++ (when (cfg.block_on_scheduled_event && not (is_empty s.context.scheduled_events))
            Veto.scheduled_event
          ++ when (leb cfg.max_trades_per_session e.session.trades_today) Veto.trade_limit)

  abbrev pub structural_veto : ForecastBundle W → MarketState → List Veto
  structural_veto fc state =
      when (le (decimal 35 2) (fc.state_probability state)) (Veto.structural state)

  unfoldable pub environment_reasons :
      RiskEngine W → MarketSnapshot W → ForecastBundle W → List Veto
  environment_reasons e s fc =
      let cfg = e.config.trade in
      when (lt s.data_quality_score cfg.min_data_quality) Veto.low_data_quality
      ++ (when (lt fc.confidence cfg.min_confidence) Veto.low_confidence
          ++ (when (lt cfg.max_model_disagreement fc.model_disagreement) Veto.high_disagreement
              ++ (structural_veto fc MarketState.transition
                  ++ structural_veto fc MarketState.unstable)))

  unfoldable pub broker_reasons : {D : Type 0} → BrokerState W D → List Veto
  broker_reasons b =
      when (not b.connected) Veto.broker_disconnected
      ++ (when (not b.reconciled) Veto.broker_unreconciled
          ++ (when (not (is_empty b.discrepancies)) Veto.broker_discrepancies
              ++ when (le b.equity nought) Veto.no_equity))

  unfoldable pub has_complete_exit_plan : ExitPlan W → Bool
  has_complete_exit_plan p =
      lt nought p.profit_target_fraction
      && (lt nought p.stop_loss_fraction
          && (lt nought p.max_holding_minutes && lt nought p.close_before_expiry_minutes))

  unfoldable pub last_strike : W → List W → W
  last_strike x [] = x
  last_strike x (y ∷ ys) = last_strike y ys

  -- `strikes[-1] - strikes[0]`, or 0.0 for fewer than two strikes.
  unfoldable pub strike_span : List W → W
  unfolding last_strike
  strike_span [] = nought
  strike_span (x ∷ []) = nought
  strike_span (x ∷ y ∷ ys) = minus (last_strike y ys) x

  -- The checks behind that of the maximum loss.
  unfoldable pub limit_reasons : RiskEngine W → StrategyCandidate W → List Veto
  unfolding has_complete_exit_plan strike_span
  limit_reasons e c =
      let cfg = e.config.trade in
      when (lt cfg.max_dollar_risk c.max_loss) Veto.dollar_risk
      ++ (when (lt c.expected_return_on_risk cfg.min_return_on_risk) Veto.low_return
          ++ (when (lt c.liquidity.score cfg.min_liquidity_score) Veto.low_liquidity
              ++ (when (lt cfg.max_spread_ratio c.liquidity.worst_spread_ratio) Veto.wide_spread
                  ++ (when
                        (lt (times cfg.max_expected_slippage_fraction c.max_loss)
                          c.expected_slippage)
                        Veto.high_slippage
                      ++ (when (ltb cfg.max_legs (leg_count c.strategy)) Veto.many_legs
                          ++ (when (lt cfg.max_assignment_risk c.assignment_risk) Veto.assignment
                              ++ (when
                                    (lt cfg.max_spread_width
                                      (strike_span (strikes c.strategy.legs)))
                                    Veto.wide_strikes
                                  ++ (when
                                        (lt cfg.max_debit_per_contract
                                          (max2 nought (net_entry_cost c.strategy)))
                                        Veto.large_debit
                                      ++ (when (lt cfg.max_gamma (absolute c.greeks.gamma))
                                            Veto.gamma_exposure
                                          ++ (when (lt cfg.max_vega (absolute c.greeks.vega))
                                                Veto.vega_exposure
                                              ++ (when (lt cfg.max_theta (absolute c.greeks.theta))
                                                    Veto.theta_exposure
                                                  ++ when (not (has_complete_exit_plan c.exit_plan))
                                                      Veto.no_exit_plan)))))))))))

  -- A maximum loss that is no positive number ends the checks.
  unfoldable pub candidate_reasons : RiskEngine W → StrategyCandidate W → List Veto
  candidate_reasons e c =
      map Veto.rejection c.rejection_reasons
      ++ (if not (is_finite c.max_loss) || le c.max_loss nought
          then Veto.bad_max_loss ∷ []
          else limit_reasons e c)

  -- The open risk that the portfolio limits allow.
  abbrev pub allowed_risk : {D : Type 0} → RiskEngine W → BrokerState W D → W
  allowed_risk e b =
      min2 e.config.portfolio.max_total_open_risk
        (times b.equity e.config.portfolio.max_total_risk_fraction)

  unfoldable pub portfolio_reasons :
      {D : Type 0} → RiskEngine W → StrategyCandidate W → Portfolio W → BrokerState W D → List Veto
  portfolio_reasons e c ps b =
      let cfg = e.config.portfolio in
      when (leb cfg.max_open_strategies (open_count ps)) Veto.open_strategies
      ++ (when (lt (allowed_risk e b) (plus (total_open_risk ps) c.max_loss)) Veto.open_risk
          ++ (when
                (lt cfg.max_same_expiration_risk
                  (plus (risk_for_expiration (near_expiry c.strategy) ps) c.max_loss))
                Veto.same_expiration
              ++ when (lt (times b.buying_power cfg.max_capital_fraction) c.capital_usage)
                  Veto.capital_usage))
