-- ===== src/Domain/Strategy.antt =====
-- spy_der/domain/strategy.py: legs, strategies, the exit contract and the evaluated candidate.
use iron_spyder.Prelude.{
  ltb, ◌==◌, ℕ, ◌+◌, not, ◌&&◌, Option, none, some, List, [], ◌∷◌, length, if◌then◌else◌,
}
use iron_spyder.Prelude.Int.{ℤ, pos, ◌*ℤ◌, eqb_ℤ, magnitude}
use iron_spyder.Float.{Float, min2}
use iron_spyder.Domain.Enums.{OptionRight, StrategyFamily, MarketState, contract_multiplier}

-- What the `__post_init__` checks raise, each for its test.
pub data ValueError : Type 0 where
  zero_quantity strike_not_positive entry_price_negative no_legs contracts_below_one : ValueError
  bad_profit_target bad_stop_loss bad_holding_time bad_credit_multiple : ValueError

pub record OptionLeg (W : Type 0) : Type 0 where
  pub expiry : ℕ
  pub strike : W
  pub right : OptionRight
  pub quantity : ℤ
  pub entry_price : W

pub record ExitPlan (W : Type 0) : Type 0 where
  pub profit_target_fraction : W
  pub stop_loss_fraction : W
  pub max_holding_minutes : W
  pub close_before_expiry_minutes : W
  pub min_forecast_probability : W
  pub stop_loss_credit_multiple : Option W
  -- The names that `MarketState(name)` accepts; the others are skipped.
  pub invalidation_states : List MarketState

pub record Strategy (W : Type 0) : Type 0 where
  pub family : StrategyFamily
  pub legs : List (OptionLeg W)

pub record LiquidityProfile (W : Type 0) : Type 0 where
  pub score : W
  pub worst_spread_ratio : W

pub record StrategyGreeks (W : Type 0) : Type 0 where
  pub gamma : W
  pub vega : W
  pub theta : W

pub record StrategyCandidate (W : Type 0) : Type 0 where
  pub family : StrategyFamily
  pub strategy : Strategy W
  pub entry_price : W
  pub max_loss : W
  pub max_profit : W
  pub greeks : StrategyGreeks W
  pub liquidity : LiquidityProfile W
  pub expected_slippage : W
  pub expected_return_on_risk : W
  pub assignment_risk : W
  pub exit_plan : ExitPlan W
  pub capital_usage : W
  -- The texts, by number.
  pub rejection_reasons : List ℕ

-- `sorted({...})` of expirations: each value once, in increasing order.
unfoldable pub insert_once : ℕ → List ℕ → List ℕ
insert_once x [] = x ∷ []
insert_once x (y ∷ ys) =
    if x == y then y ∷ ys else (if ltb x y then x ∷ y ∷ ys else y ∷ insert_once x ys)

module _ {W : Type 0} where
  unfoldable pub expiries : List (OptionLeg W) → List ℕ
  unfolding insert_once
  expiries [] = []
  expiries (leg ∷ legs) = insert_once leg.expiry (expiries legs)

  -- `expiries[0]`; a strategy has a leg.
  unfoldable pub near_expiry : Strategy W → ℕ
  unfolding expiries
  near_expiry s = elim (expiries s.legs) [ [] ↦ 0 | t ∷ _ ↦ t ]

module _ {W : Type 0} ⦃f : Float W⦄ where
  open f use {nought, decimal, of_int, plus, times, lt, le, eq}

  -- `OptionLeg.__post_init__`: the first test that fails raises.
  unfoldable pub check_leg : OptionLeg W → Option ValueError
  check_leg leg =
      if eqb_ℤ leg.quantity (pos 0)
      then some ValueError.zero_quantity
      else if le leg.strike nought
      then some ValueError.strike_not_positive
      else if lt leg.entry_price nought
      then some ValueError.entry_price_negative
      else none

  -- `OptionLeg.scaled`, up to the checks of the new leg.
  abbrev pub scaled : ℤ → OptionLeg W → OptionLeg W
  scaled factor leg = record leg { quantity = leg.quantity *ℤ factor }

  -- `OptionLeg.signed_cost`: the product of two ints meets the float.
  unfoldable pub signed_cost : OptionLeg W → W
  signed_cost leg = times (of_int (leg.quantity *ℤ pos contract_multiplier)) leg.entry_price

  -- `sum` adds from the left, from 0.
  abbrev pub sum_by : {A : Type 0} → (A → W) → W → List A → W
  sum_by cost acc [] = acc
  sum_by cost acc (x ∷ xs) = sum_by cost (plus acc (cost x)) xs

  unfoldable pub net_entry_cost : Strategy W → W
  unfolding signed_cost
  net_entry_cost s = sum_by signed_cost nought s.legs

  -- `contract_count`, which is also the sum that commissions are charged on.
  unfoldable pub contract_count : List (OptionLeg W) → ℕ
  contract_count [] = 0
  contract_count (leg ∷ legs) = magnitude leg.quantity + contract_count legs

  abbrev pub leg_count : Strategy W → ℕ
  leg_count s = length s.legs

  -- `ExitPlan.__post_init__`
  unfoldable pub check_plan : ExitPlan W → Option ValueError
  check_plan p =
      let one = decimal 1 0 in
      if not (lt nought p.profit_target_fraction && le p.profit_target_fraction one)
      then some ValueError.bad_profit_target
      else if not (lt nought p.stop_loss_fraction && le p.stop_loss_fraction one)
      then some ValueError.bad_stop_loss
      else if le p.max_holding_minutes nought
      then some ValueError.bad_holding_time
      else elim p.stop_loss_credit_multiple [
        | none ↦ none
        | some m ↦ if le m nought then some ValueError.bad_credit_multiple else none
      ]

  -- `ExitPlan.stop_loss_dollars`
  unfoldable pub stop_loss_dollars : ExitPlan W → W → W → W
  stop_loss_dollars p max_loss credit = elim p.stop_loss_credit_multiple [
    | none ↦ times p.stop_loss_fraction max_loss
    | some m ↦
        if lt nought credit
        then min2 (times m credit) max_loss
        else times p.stop_loss_fraction max_loss
  ]

  -- `sorted({leg.strike for leg in self.legs})`
  unfoldable pub insert_strike : W → List W → List W
  insert_strike x [] = x ∷ []
  insert_strike x (y ∷ ys) =
      if eq x y then y ∷ ys else (if lt x y then x ∷ y ∷ ys else y ∷ insert_strike x ys)

  unfoldable pub strikes : List (OptionLeg W) → List W
  unfolding insert_strike
  strikes [] = []
  strikes (leg ∷ legs) = insert_strike leg.strike (strikes legs)
