-- ===== src/Optimizer/FamilyFilter.antt =====
-- spy_der/optimizer/family_filter.py: the families that a market state admits. A set of families is a list,
-- in which one family may stand more than once.
mod Tests
pub mod Union
pub mod Mirror
use iron_spyder.Prelude.{Bool, true, false, List, [], ◌∷◌, ◌++◌, if◌then◌else◌, is_empty}
use iron_spyder.Float.{Float}
use iron_spyder.Domain.Enums.{MarketState, StrategyFamily}

-- `STATE_FAMILIES`
abbrev pub state_families : MarketState → List StrategyFamily
state_families MarketState.strong_pin =
    StrategyFamily.iron_butterfly ∷ StrategyFamily.call_butterfly ∷ StrategyFamily.put_butterfly
    ∷ StrategyFamily.broken_wing_call_butterfly ∷ StrategyFamily.broken_wing_put_butterfly
    ∷ StrategyFamily.iron_condor ∷ StrategyFamily.double_calendar ∷ []
state_families MarketState.broad_range =
    StrategyFamily.iron_condor ∷ StrategyFamily.broken_wing_condor
    ∷ StrategyFamily.asymmetric_condor ∷ StrategyFamily.double_calendar
    ∷ StrategyFamily.bull_put_credit_spread ∷ StrategyFamily.bear_call_credit_spread
    ∷ StrategyFamily.call_butterfly ∷ StrategyFamily.put_butterfly ∷ []
state_families MarketState.bull_grind =
    StrategyFamily.bull_call_debit_spread ∷ StrategyFamily.bull_put_credit_spread
    ∷ StrategyFamily.call_butterfly ∷ StrategyFamily.broken_wing_call_butterfly
    ∷ StrategyFamily.bullish_calendar ∷ StrategyFamily.bullish_diagonal ∷ []
state_families MarketState.bear_grind =
    StrategyFamily.bear_put_debit_spread ∷ StrategyFamily.bear_call_credit_spread
    ∷ StrategyFamily.put_butterfly ∷ StrategyFamily.broken_wing_put_butterfly
    ∷ StrategyFamily.bearish_calendar ∷ StrategyFamily.bearish_diagonal ∷ []
state_families MarketState.bull_breakout =
    StrategyFamily.bull_call_debit_spread ∷ StrategyFamily.call_backspread
    ∷ StrategyFamily.long_straddle ∷ StrategyFamily.long_strangle
    ∷ StrategyFamily.broken_wing_call_butterfly ∷ []
state_families MarketState.bear_breakdown =
    StrategyFamily.bear_put_debit_spread ∷ StrategyFamily.put_backspread
    ∷ StrategyFamily.long_straddle ∷ StrategyFamily.long_strangle
    ∷ StrategyFamily.broken_wing_put_butterfly ∷ []
state_families MarketState.vol_expansion =
    StrategyFamily.long_straddle ∷ StrategyFamily.long_strangle ∷ StrategyFamily.call_backspread
    ∷ StrategyFamily.put_backspread ∷ []
state_families MarketState.vol_contraction =
    StrategyFamily.bull_put_credit_spread ∷ StrategyFamily.bear_call_credit_spread
    ∷ StrategyFamily.iron_condor ∷ StrategyFamily.iron_butterfly
    ∷ StrategyFamily.broken_wing_call_butterfly ∷ StrategyFamily.broken_wing_put_butterfly
    ∷ StrategyFamily.broken_wing_condor ∷ []
state_families MarketState.directional_range =
    StrategyFamily.asymmetric_condor ∷ StrategyFamily.broken_wing_condor
    ∷ StrategyFamily.bull_put_credit_spread ∷ StrategyFamily.bear_call_credit_spread
    ∷ StrategyFamily.broken_wing_call_butterfly ∷ StrategyFamily.broken_wing_put_butterfly ∷ []
state_families MarketState.transition = []
state_families MarketState.unstable = []

abbrev pub families_for_state : MarketState → List StrategyFamily
families_for_state state = state_families state

unfoldable pub is_no_trade_state : MarketState → Bool
is_no_trade_state state = is_empty (state_families state)

module _ {W : Type 0} ⦃f : Float W⦄ where
  open f use {le}

  -- The probabilities are the items of the dictionary.
  unfoldable pub eligible_families : W → List (MarketState × W) → List StrategyFamily
  eligible_families threshold [] = []
  eligible_families threshold ((state, probability) ∷ items) =
      (if le threshold probability then state_families state else [])
      ++ eligible_families threshold items
