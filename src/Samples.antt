-- ===== src/Samples.antt =====
-- Sample data for the tests: a bull call spread, its chain, an account and a configuration, with
-- prices in ten-thousandths.
use iron_spyder.Prelude.{ℕ, ◌*◌, true, none, [], ◌∷◌}
use iron_spyder.Prelude.Int.{pos, negsuc}
use iron_spyder.Float.Ticks.{Ticks, ticks}
use iron_spyder.Domain.Enums.{OptionRight, OrderIntent, OrderStatus, StrategyFamily}
use iron_spyder.Domain.Market.{OptionQuote, MarketSnapshot, ForecastBundle}
use iron_spyder.Domain.Strategy.{OptionLeg, Strategy, StrategyCandidate, ExitPlan}
use iron_spyder.Domain.Execution.{MultiLegOrder, Position, BrokerState}
use iron_spyder.Risk.Limits.{RiskConfig}
use iron_spyder.Risk.Engine.Checks.{RiskEngine}

abbrev pub cents : ℕ → Ticks
cents n = pos (n * 100)

abbrev pub dollars : ℕ → Ticks
dollars n = pos (n * 10_000)

abbrev pub expiry : ℕ
expiry = 900_000_000_000

abbrev pub long_leg : OptionLeg Ticks
long_leg = record {
  expiry = expiry;
  strike = dollars 500;
  right = OptionRight.call;
  quantity = pos 1;
  entry_price = cents 300;
}

abbrev pub short_leg : OptionLeg Ticks
short_leg = record {
  expiry = expiry;
  strike = dollars 505;
  right = OptionRight.call;
  quantity = negsuc 0;
  entry_price = cents 100;
}

abbrev pub spread : Strategy Ticks
spread = record { family = StrategyFamily.bull_call_debit_spread; legs = long_leg ∷ short_leg ∷ [] }

abbrev pub plan : ExitPlan Ticks
plan = record {
  profit_target_fraction = cents 50;
  stop_loss_fraction = cents 50;
  max_holding_minutes = dollars 240;
  close_before_expiry_minutes = dollars 60;
  min_forecast_probability = cents 40;
  stop_loss_credit_multiple = none;
  invalidation_states = [];
}

abbrev pub candidate : StrategyCandidate Ticks
candidate = record {
  family = StrategyFamily.bull_call_debit_spread;
  strategy = spread;
  entry_price = cents 200;
  max_loss = dollars 200;
  max_profit = dollars 300;
  greeks = record { gamma = cents 1; vega = cents 1; theta = cents 1 };
  liquidity = record { score = cents 90; worst_spread_ratio = cents 5 };
  expected_slippage = dollars 5;
  expected_return_on_risk = cents 20;
  assignment_risk = cents 0;
  exit_plan = plan;
  capital_usage = dollars 200;
  rejection_reasons = [];
}

abbrev quote : ℕ → ℕ → OptionQuote Ticks
quote strike bid = record {
  expiration = expiry;
  strike = dollars strike;
  right = OptionRight.call;
  bid = cents bid;
  ask = cents bid;
  bid_size = 50;
  ask_size = 50;
  volume = 1000;
  open_interest = 1000;
}

abbrev pub snapshot : MarketSnapshot Ticks
snapshot = record {
  timestamp = 1_000_000_000;
  spy_quote = record { bid = dollars 501; ask = dollars 501; last = dollars 501 };
  option_chain = quote 500 300 ∷ quote 505 100 ∷ [];
  context = record { minutes_to_close = dollars 200; scheduled_events = [] };
  data_quality_score = dollars 1;
}

abbrev pub forecast : ForecastBundle Ticks
forecast = record {
  confidence = cents 90;
  model_disagreement = cents 10;
  state_stability = dollars 1;
  calibration_score = dollars 1;
  state_probability = λ _. cents 10;
}

abbrev pub account : {D : Type 0} → BrokerState Ticks D
account = record {
  connected = true;
  equity = dollars 100_000;
  buying_power = dollars 100_000;
  reconciled = true;
  discrepancies = [];
}

abbrev pub position : ℕ → ℕ → Position Ticks
position id contracts = record {
  position_id = id;
  opened_at = 500_000_000;
  family = StrategyFamily.bull_call_debit_spread;
  strategy = spread;
  contracts = contracts;
  entry_price = cents 200;
  max_loss_per_contract = dollars 200;
  max_profit_per_contract = dollars 300;
  exit_plan = plan;
  entry_commission = cents 130;
  current_price = cents 200;
  marked_at = none;
  realized_pnl = cents 0;
  exit_reason = none;
  closed_at = none;
}

abbrev pub working_order : ℕ → ℕ → Ticks → MultiLegOrder Ticks
working_order id contracts limit = record {
  order_id = id;
  created_at = 900_000_000;
  strategy = spread;
  contracts = contracts;
  limit_price = limit;
  intent = OrderIntent.opening;
  status = OrderStatus.working;
  filled_contracts = 0;
  reprice_attempts = 0;
  broker_order_id = none;
  reject_reason = none;
}

abbrev pub config : RiskConfig Ticks
config = record {
  trade = record {
    max_account_fraction_at_risk = cents 2;
    max_dollar_risk = dollars 1000;
    max_contracts = 10;
    max_debit_per_contract = dollars 1000;
    max_spread_width = dollars 20;
    min_return_on_risk = cents 5;
    min_liquidity_score = cents 50;
    max_spread_ratio = cents 25;
    max_expected_slippage_fraction = cents 15;
    max_legs = 4;
    max_gamma = dollars 1;
    max_vega = dollars 1;
    max_theta = dollars 1;
    max_assignment_risk = cents 50;
    min_confidence = cents 50;
    max_model_disagreement = cents 35;
    min_data_quality = cents 70;
  };
  portfolio = record {
    max_open_strategies = 4;
    max_total_open_risk = dollars 5000;
    max_total_risk_fraction = cents 6;
    max_same_expiration_risk = dollars 3000;
    max_capital_fraction = cents 50;
  };
  session = record {
    daily_loss_limit = dollars 2000;
    daily_loss_fraction = cents 3;
    max_consecutive_losses = 4;
    max_drawdown_fraction = cents 10;
    max_trades_per_session = 8;
    min_minutes_to_close = dollars 20;
    block_on_scheduled_event = true;
  };
  base_risk_fraction = cents 1;
  max_slippage_ratio = dollars 2;
  min_calibration_quality = cents 50;
}

abbrev pub engine : RiskEngine Ticks
engine = record {
  config = config;
  kill_switch = [];
  session = record {
    trading_day = none;
    realized_pnl = cents 0;
    peak_equity = dollars 100_000;
    trades_today = 0;
    consecutive_losses = 0;
    slippage_samples = [];
  };
}
