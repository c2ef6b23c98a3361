-- ===== src/Optimizer/FamilyFilter/Mirror.antt =====
-- The table treats rises and falls alike.
use mathlib.Core.Path.{subst}
use iron_spyder.Prelude.{sym, inl, inr, All, List, [], ◌∷◌, arith}
use iron_spyder.Float.{Float}
use iron_spyder.Domain.Enums.{MarketState, StrategyFamily}
use iron_spyder.Optimizer.FamilyFilter.{state_families, eligible_families}
use iron_spyder.Optimizer.FamilyFilter.Union.{IsAmong, IsBacked, eligible_families_iff}

-- The state with rises and falls exchanged.
abbrev pub mirrored_state : MarketState → MarketState
mirrored_state MarketState.bull_grind = MarketState.bear_grind
mirrored_state MarketState.bear_grind = MarketState.bull_grind
mirrored_state MarketState.bull_breakout = MarketState.bear_breakdown
mirrored_state MarketState.bear_breakdown = MarketState.bull_breakout
mirrored_state state = state

-- The family with calls and puts exchanged.
abbrev pub mirrored_family : StrategyFamily → StrategyFamily
mirrored_family StrategyFamily.bull_call_debit_spread = StrategyFamily.bear_put_debit_spread
mirrored_family StrategyFamily.bear_put_debit_spread = StrategyFamily.bull_call_debit_spread
mirrored_family StrategyFamily.bull_put_credit_spread = StrategyFamily.bear_call_credit_spread
mirrored_family StrategyFamily.bear_call_credit_spread = StrategyFamily.bull_put_credit_spread
mirrored_family StrategyFamily.call_butterfly = StrategyFamily.put_butterfly
mirrored_family StrategyFamily.put_butterfly = StrategyFamily.call_butterfly
mirrored_family StrategyFamily.broken_wing_call_butterfly = StrategyFamily.broken_wing_put_butterfly
mirrored_family StrategyFamily.broken_wing_put_butterfly = StrategyFamily.broken_wing_call_butterfly
mirrored_family StrategyFamily.call_backspread = StrategyFamily.put_backspread
mirrored_family StrategyFamily.put_backspread = StrategyFamily.call_backspread
mirrored_family StrategyFamily.bullish_calendar = StrategyFamily.bearish_calendar
mirrored_family StrategyFamily.bearish_calendar = StrategyFamily.bullish_calendar
mirrored_family StrategyFamily.bullish_diagonal = StrategyFamily.bearish_diagonal
mirrored_family StrategyFamily.bearish_diagonal = StrategyFamily.bullish_diagonal
mirrored_family family = family

-- Each family of a state has its mirror among those of the mirrored state.
abbrev IsMirrored : MarketState → Type 0
IsMirrored state =
    All (λ x. IsAmong (mirrored_family x) (state_families (mirrored_state state)))
      (state_families state)

state_families-IsMirrored : (state : MarketState) → IsMirrored state
state_families-IsMirrored MarketState.strong_pin = ground arith
state_families-IsMirrored MarketState.broad_range = ground arith
state_families-IsMirrored MarketState.bull_grind = ground arith
state_families-IsMirrored MarketState.bear_grind = ground arith
state_families-IsMirrored MarketState.bull_breakout = ground arith
state_families-IsMirrored MarketState.bear_breakdown = ground arith
state_families-IsMirrored MarketState.vol_expansion = ground arith
state_families-IsMirrored MarketState.vol_contraction = ground arith
state_families-IsMirrored MarketState.directional_range = ground arith
state_families-IsMirrored MarketState.transition = tt
state_families-IsMirrored MarketState.unstable = tt

All-IsAmong : {A : Type 0} (P : A → Type 0) (x : A) (xs : List A) → All P xs → IsAmong x xs → P x
All-IsAmong P x [] all h = absurd h
All-IsAmong P x (y ∷ xs) (own, all) (inl here) = subst P (sym here) own
All-IsAmong P x (y ∷ xs) (own, all) (inr later) = All-IsAmong P x xs all later

module _ {W : Type 0} ⦃f : Float W⦄ where
  -- The read with rises and falls exchanged.
  abbrev pub mirrored : List (MarketState × W) → List (MarketState × W)
  mirrored [] = []
  mirrored ((state, probability) ∷ items) = (mirrored_state state, probability) ∷ mirrored items

  IsBacked-mirrored :
      (x : StrategyFamily) (threshold : W) (items : List (MarketState × W))
      → IsBacked x threshold items
      → IsBacked (mirrored_family x) threshold (mirrored items)
  IsBacked-mirrored x threshold [] h = absurd h
  IsBacked-mirrored x threshold ((state, probability) ∷ items) (inl (probable, own)) = inl (
    probable,
    All-IsAmong (λ y. IsAmong (mirrored_family y) (state_families (mirrored_state state))) x
        (state_families state) (state_families-IsMirrored state) own,
  )
  IsBacked-mirrored x threshold ((state, probability) ∷ items) (inr later) =
      inr (IsBacked-mirrored x threshold items later)

  -- A family that is eligible for a read of the market has its mirror, with calls and puts exchanged,
  -- eligible for the mirrored read, with rises and falls exchanged.
  pub eligible_families-mirrored :
      (x : StrategyFamily) (threshold : W) (items : List (MarketState × W))
      → IsAmong x (eligible_families threshold items)
      → IsAmong (mirrored_family x) (eligible_families threshold (mirrored items))
  eligible_families-mirrored x threshold items h =
      (eligible_families_iff (mirrored_family x) threshold (mirrored items)).1
        (IsBacked-mirrored x threshold items ((eligible_families_iff x threshold items).0 h))
