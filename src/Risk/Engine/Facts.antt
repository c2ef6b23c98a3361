-- ===== src/Risk/Engine/Facts.antt =====
-- What follows where a group of the engine's checks gives no reason.
use iron_spyder.Prelude.{
  ℕ, ◌≤◌, ◌<◌, ◌≡◌, refl, inl, inr, Bool, true, false, not, ◌&&◌, ◌||◌, List, [], ◌∷◌, map,
  is_empty, when-nil, when_append-nil, append-nil_left, append-nil_right, arith, ltb, leb,
  false-of_or, Bool-cases,
}
use iron_spyder.Float.{Float, max2}
use iron_spyder.Domain.Enums.{MarketState}
use iron_spyder.Domain.Market.{MarketSnapshot, ForecastBundle}
use iron_spyder.Domain.Strategy.{StrategyCandidate, leg_count, strikes, net_entry_cost, near_expiry}
use iron_spyder.Domain.Execution.{BrokerState}
use iron_spyder.Risk.Portfolio.{Portfolio, open_count, total_open_risk, risk_for_expiration}
use iron_spyder.Risk.Engine.Checks.{
  Veto, RiskEngine, candidate_reasons, limit_reasons, portfolio_reasons, session_reasons,
  environment_reasons, broker_reasons, allowed_risk, has_complete_exit_plan, strike_span,
}

pub not-false : (b : Bool) → not b ≡ false → b ≡ true
not-false true h = refl
not-false false h = cc

pub is_empty-nil : {A : Type 0} (xs : List A) → is_empty xs ≡ true → xs ≡ []
is_empty-nil [] h = refl
is_empty-nil (x ∷ xs) h = cc

map-nil : {A B : Type 0} (g : A → B) (xs : List A) → map g xs ≡ [] → xs ≡ []
map-nil g [] h = refl
map-nil g (x ∷ xs) h = cc

leb-false : (m n : ℕ) → leb m n ≡ false → n < m
leb-false m n h = ground arith

ltb-false : (m n : ℕ) → ltb m n ≡ false → n ≤ m
ltb-false m n h = ground arith

module _ {W : Type 0} ⦃f : Float W⦄ where
  open f use {nought, decimal, plus, times, absolute, lt, le, is_finite}

  -- The session permits a trade.
  pub record IsTimely (e : RiskEngine W) (s : MarketSnapshot W) : Type 0 where
    pub time_left : lt s.context.minutes_to_close e.config.session.min_minutes_to_close ≡ false
    pub no_event :
        e.config.session.block_on_scheduled_event && not (is_empty s.context.scheduled_events)
        ≡ false
    pub trades_left : e.session.trades_today < e.config.session.max_trades_per_session

  pub session_reasons-nil :
      (e : RiskEngine W) (s : MarketSnapshot W) → session_reasons e s ≡ [] → IsTimely e s
  unfolding session_reasons
  session_reasons-nil e s h =
      let (time, r1) = when_append-nil _ _ _ h in
      let (event, r2) = when_append-nil _ _ _ r1 in
      record { time_left = time; no_event = event; trades_left = leb-false _ _ (when-nil _ _ r2) }

  -- The data and the forecast permit a trade.
  pub record IsCertain (e : RiskEngine W) (s : MarketSnapshot W) (fc : ForecastBundle W)
      : Type 0 where
    pub good_data : lt s.data_quality_score e.config.trade.min_data_quality ≡ false
    pub confident : lt fc.confidence e.config.trade.min_confidence ≡ false
    pub agreeing : lt e.config.trade.max_model_disagreement fc.model_disagreement ≡ false
    pub no_transition : le (decimal 35 2) (fc.state_probability MarketState.transition) ≡ false
    pub no_instability : le (decimal 35 2) (fc.state_probability MarketState.unstable) ≡ false

  pub environment_reasons-nil :
      (e : RiskEngine W) (s : MarketSnapshot W) (fc : ForecastBundle W)
      → environment_reasons e s fc ≡ []
      → IsCertain e s fc
  unfolding environment_reasons
  environment_reasons-nil e s fc h =
      let (good, r1) = when_append-nil _ _ _ h in
      let (sure, r2) = when_append-nil _ _ _ r1 in
      let (agreed, r3) = when_append-nil _ _ _ r2 in
      let (steady, r4) = when_append-nil _ _ _ r3 in
      record {
        good_data = good;
        confident = sure;
        agreeing = agreed;
        no_transition = steady;
        no_instability = when-nil _ _ r4;
      }

  -- The candidate is within every limit of a trade.
  pub record IsTradable (e : RiskEngine W) (c : StrategyCandidate W) : Type 0 where
    pub no_rejections : c.rejection_reasons ≡ []
    pub finite : is_finite c.max_loss ≡ true
    pub loss_positive : le c.max_loss nought ≡ false
    pub loss_within : lt e.config.trade.max_dollar_risk c.max_loss ≡ false
    pub return_enough : lt c.expected_return_on_risk e.config.trade.min_return_on_risk ≡ false
    pub liquid : lt c.liquidity.score e.config.trade.min_liquidity_score ≡ false
    pub spread_within : lt e.config.trade.max_spread_ratio c.liquidity.worst_spread_ratio ≡ false
    pub slippage_within :
        lt (times e.config.trade.max_expected_slippage_fraction c.max_loss) c.expected_slippage
        ≡ false
    pub legs_within : leg_count c.strategy ≤ e.config.trade.max_legs
    pub assignment_within : lt e.config.trade.max_assignment_risk c.assignment_risk ≡ false
    pub width_within :
        lt e.config.trade.max_spread_width (strike_span (strikes c.strategy.legs)) ≡ false
    pub debit_within :
        lt e.config.trade.max_debit_per_contract (max2 nought (net_entry_cost c.strategy)) ≡ false
    pub gamma_within : lt e.config.trade.max_gamma (absolute c.greeks.gamma) ≡ false
    pub vega_within : lt e.config.trade.max_vega (absolute c.greeks.vega) ≡ false
    pub theta_within : lt e.config.trade.max_theta (absolute c.greeks.theta) ≡ false
    pub exits_planned : has_complete_exit_plan c.exit_plan ≡ true

  candidate_facts :
      (e : RiskEngine W) (c : StrategyCandidate W)
      → c.rejection_reasons ≡ []
      → not (is_finite c.max_loss) || le c.max_loss nought ≡ false
      → limit_reasons e c ≡ []
      → IsTradable e c
  unfolding limit_reasons
  candidate_facts e c kept good h =
      let (a1, r1) = when_append-nil _ _ _ h in
      let (a2, r2) = when_append-nil _ _ _ r1 in
      let (a3, r3) = when_append-nil _ _ _ r2 in
      let (a4, r4) = when_append-nil _ _ _ r3 in
      let (a5, r5) = when_append-nil _ _ _ r4 in
      let (a6, r6) = when_append-nil _ _ _ r5 in
      let (a7, r7) = when_append-nil _ _ _ r6 in
      let (a8, r8) = when_append-nil _ _ _ r7 in
      let (a9, r9) = when_append-nil _ _ _ r8 in
      let (a10, r10) = when_append-nil _ _ _ r9 in
      let (a11, r11) = when_append-nil _ _ _ r10 in
      let (a12, r12) = when_append-nil _ _ _ r11 in
      record {
        no_rejections = kept;
        finite = not-false _ (false-of_or _ _ good).0;
        loss_positive = (false-of_or _ _ good).1;
        loss_within = a1;
        return_enough = a2;
        liquid = a3;
        spread_within = a4;
        slippage_within = a5;
        legs_within = ltb-false _ _ a6;
        assignment_within = a7;
        width_within = a8;
        debit_within = a9;
        gamma_within = a10;
        vega_within = a11;
        theta_within = a12;
        exits_planned = not-false _ (when-nil _ _ r12);
      }

  pub candidate_reasons-nil :
      (e : RiskEngine W) (c : StrategyCandidate W) → candidate_reasons e c ≡ [] → IsTradable e c
  unfolding candidate_reasons
  candidate_reasons-nil e c h =
      let rejections = map Veto.rejection c.rejection_reasons in
      let rest = append-nil_right rejections _ h in
      elim (Bool-cases (not (is_finite c.max_loss) || le c.max_loss nought)) [
        | inl bad ↦ cc (rw bad at rest)
        | inr good ↦
            candidate_facts e c
              (map-nil Veto.rejection c.rejection_reasons (append-nil_left rejections _ h)) good
              (rw good at rest)
      ]

module _ {W D : Type 0} ⦃f : Float W⦄ where
  open f use {nought, plus, times, lt, le}

  -- The broker is healthy and has equity.
  pub record IsServed (b : BrokerState W D) : Type 0 where
    pub connected : b.connected ≡ true
    pub reconciled : b.reconciled ≡ true
    pub no_discrepancies : b.discrepancies ≡ []
    pub equity_positive : le b.equity nought ≡ false

  pub broker_reasons-nil : (b : BrokerState W D) → broker_reasons b ≡ [] → IsServed b
  unfolding broker_reasons
  broker_reasons-nil b h =
      let (a1, r1) = when_append-nil _ _ _ h in
      let (a2, r2) = when_append-nil _ _ _ r1 in
      let (a3, r3) = when_append-nil _ _ _ r2 in
      record {
        connected = not-false _ a1;
        reconciled = not-false _ a2;
        no_discrepancies = is_empty-nil _ (not-false _ a3);
        equity_positive = when-nil _ _ r3;
      }

  -- The portfolio has room for one contract of the candidate.
  pub record IsRoomy (e : RiskEngine W) (c : StrategyCandidate W) (ps : Portfolio W)
      (b : BrokerState W D) : Type 0 where
    pub slot_free : open_count ps < e.config.portfolio.max_open_strategies
    pub risk_within : lt (allowed_risk e b) (plus (total_open_risk ps) c.max_loss) ≡ false
    pub expiration_within :
        lt e.config.portfolio.max_same_expiration_risk
          (plus (risk_for_expiration (near_expiry c.strategy) ps) c.max_loss)
        ≡ false
    pub capital_within :
        lt (times b.buying_power e.config.portfolio.max_capital_fraction) c.capital_usage ≡ false

  pub portfolio_reasons-nil :
      (e : RiskEngine W) (c : StrategyCandidate W) (ps : Portfolio W) (b : BrokerState W D)
      → portfolio_reasons e c ps b ≡ []
      → IsRoomy e c ps b
  unfolding portfolio_reasons
  portfolio_reasons-nil e c ps b h =
      let (a1, r1) = when_append-nil _ _ _ h in
      let (a2, r2) = when_append-nil _ _ _ r1 in
      let (a3, r3) = when_append-nil _ _ _ r2 in
      record {
        slot_free = leb-false _ _ a1;
        risk_within = a2;
        expiration_within = a3;
        capital_within = when-nil _ _ r3;
      }
