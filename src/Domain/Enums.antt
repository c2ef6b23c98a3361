-- ===== src/Domain/Enums.antt =====
-- spy_der/domain/enums.py
use iron_spyder.Prelude.{ℕ, Bool, true, false, List, [], ◌∷◌}

abbrev pub contract_multiplier : ℕ
contract_multiplier = 100

pub data OptionRight : Type 0 where
  call put : OptionRight

abbrev pub right_eq : OptionRight → OptionRight → Bool
right_eq OptionRight.call OptionRight.call = true
right_eq OptionRight.put OptionRight.put = true
right_eq _ _ = false

pub data MarketState : Type 0 where
  strong_pin broad_range bull_grind bear_grind bull_breakout bear_breakdown : MarketState
  vol_expansion vol_contraction directional_range transition unstable : MarketState

-- `NO_TRADE_STATES`
abbrev pub no_trade_states : List MarketState
no_trade_states = MarketState.transition ∷ MarketState.unstable ∷ []

pub data StrategyFamily : Type 0 where
  bull_call_debit_spread bull_put_credit_spread call_butterfly : StrategyFamily
  broken_wing_call_butterfly call_backspread bullish_calendar bullish_diagonal : StrategyFamily
  bear_put_debit_spread bear_call_credit_spread put_butterfly : StrategyFamily
  broken_wing_put_butterfly put_backspread bearish_calendar bearish_diagonal : StrategyFamily
  iron_condor iron_butterfly broken_wing_condor asymmetric_condor : StrategyFamily
  double_calendar long_straddle long_strangle : StrategyFamily

-- `self in _CALENDARIZED`
abbrev pub is_calendarized : StrategyFamily → Bool
is_calendarized StrategyFamily.bullish_calendar = true
is_calendarized StrategyFamily.bearish_calendar = true
is_calendarized StrategyFamily.bullish_diagonal = true
is_calendarized StrategyFamily.bearish_diagonal = true
is_calendarized StrategyFamily.double_calendar = true
is_calendarized _ = false

pub data OrderStatus : Type 0 where
  pending_new working partially_filled filled cancelled rejected expired : OrderStatus

pub data OrderIntent : Type 0 where
  opening closing : OrderIntent

pub data ExitReason : Type 0 where
  profit_target risk_stop time_stop state_invalidation end_of_session : ExitReason
  assignment_risk kill_switch expiration : ExitReason

pub data KillSwitchReason : Type 0 where
  manual data_quality broker_state daily_loss drawdown slippage calibration : KillSwitchReason
  model_disagreement assignment_risk event market_halt consecutive_losses : KillSwitchReason

-- The place of a reason's value among all twelve in the order of strings.
abbrev pub rank : KillSwitchReason → ℕ
rank KillSwitchReason.assignment_risk = 0
rank KillSwitchReason.broker_state = 1
rank KillSwitchReason.calibration = 2
rank KillSwitchReason.consecutive_losses = 3
rank KillSwitchReason.daily_loss = 4
rank KillSwitchReason.data_quality = 5
rank KillSwitchReason.drawdown = 6
rank KillSwitchReason.event = 7
rank KillSwitchReason.manual = 8
rank KillSwitchReason.market_halt = 9
rank KillSwitchReason.model_disagreement = 10
rank KillSwitchReason.slippage = 11
