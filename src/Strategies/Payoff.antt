-- ===== src/Strategies/Payoff.antt =====
-- spy_der/strategies/payoff.py: the payoff of a structure, its extremes and its breakevens. The interface
-- has no infinity and no NaN: `none` and the constructors of `Profit` stand for them.
mod Tests
pub mod Breakevens
pub mod Profile
pub mod Exact
pub mod Slopes
pub mod Extremes
pub mod Points
pub mod Worst
pub mod Bounded
use iron_spyder.Prelude.{
  ℕ, suc, ◌+◌, Bool, true, false, not, ◌&&◌, ◌||◌, Option, none, some, List, [], ◌∷◌, ◌++◌, length,
  map, ltb, leb, if◌then◌else◌,
}
use iron_spyder.Prelude.Int.{ℤ, pos, ◌+ℤ◌, ◌-ℤ◌, ◌*ℤ◌, ltb_ℤ}
use iron_spyder.Float.{Float, max2, min2}
use iron_spyder.Domain.Enums.{OptionRight, right_eq, contract_multiplier}
use iron_spyder.Domain.Strategy.{
  OptionLeg, Strategy, expiries, near_expiry, strikes, net_entry_cost,
}

-- `max_profit`: NaN, infinity or a number.
pub data Profit (W : Type 0) : Type 0 where
  model_dependent unbounded : Profit W
  bounded : W → Profit W

pub record PayoffProfile (W : Type 0) : Type 0 where
  -- `none` is infinity.
  pub max_loss : Option W
  pub max_profit : Profit W
  -- `none` is NaN.
  pub max_profit_at_bound : Option W
  pub breakevens : List W
  pub upside_slope : W
  pub downside_slope : W
  pub net_entry : W
  pub worst_case_spot : W
  pub worst_case_expiry : ℕ
  pub profit_is_unbounded : Bool
  pub profit_is_model_dependent : Bool

-- The running minimum of `payoff_profile`, with where it is taken; `none` is infinity.
abbrev pub Worst : Type 0 → Type 0
Worst W = Option (W × (W × ℕ))

-- `expiries[-1]`
unfoldable pub last_expiry : ℕ → List ℕ → ℕ
last_expiry t [] = t
last_expiry t (u ∷ us) = last_expiry u us

module _ {W : Type 0} where
  unfoldable pub far_expiry : Strategy W → ℕ
  unfolding last_expiry expiries
  far_expiry s = elim (expiries s.legs) [ [] ↦ 0 | t ∷ ts ↦ last_expiry t ts ]

  abbrev pub is_multi_expiry : Strategy W → Bool
  is_multi_expiry s = ltb 1 (length (expiries s.legs))

  -- `sum(leg.quantity for leg in legs if leg.right is right)`
  unfoldable pub quantity_sum : OptionRight → List (OptionLeg W) → ℤ
  quantity_sum r [] = pos 0
  quantity_sum r (leg ∷ legs) =
      if right_eq leg.right r then leg.quantity +ℤ quantity_sum r legs else quantity_sum r legs

module _ {W : Type 0} ⦃f : Float W⦄ where
  open f use {nought, decimal, of_int, plus, minus, times, over, negate, absolute, lt, le}

  -- `OptionLeg.intrinsic`, by right and strike.
  abbrev pub intrinsic : OptionRight → W → W → W
  intrinsic OptionRight.call strike at = max2 nought (minus at strike)
  intrinsic OptionRight.put strike at = max2 nought (minus strike at)

  -- What an option that has not expired is worth at most.
  abbrev pub upper_bound : OptionRight → W → W → W
  upper_bound OptionRight.call strike at = at
  upper_bound OptionRight.put strike at = strike

  unfoldable pub leg_value_bound : OptionLeg W → W → ℕ → Bool → W
  leg_value_bound leg at checkpoint conservative =
      if leb leg.expiry checkpoint
      then intrinsic leg.right leg.strike at
      else if not conservative || ltb_ℤ (pos 0) leg.quantity
      then intrinsic leg.right leg.strike at
      else upper_bound leg.right leg.strike at

  -- `sum(leg.quantity * CONTRACT_MULTIPLIER * value(leg) for leg in legs)`, from `acc`.
  unfoldable pub gross_from : (OptionLeg W → W) → W → List (OptionLeg W) → W
  gross_from value acc [] = acc
  gross_from value acc (leg ∷ legs) =
      gross_from value
        (plus acc (times (of_int (leg.quantity *ℤ pos contract_multiplier)) (value leg))) legs

  -- The profit of a structure whose legs have given values.
  unfoldable pub payoff_with : (OptionLeg W → W) → Strategy W → W
  payoff_with value s = minus (gross_from value nought s.legs) (net_entry_cost s)

  -- `payoff_at`, with the checkpoint given.
  unfoldable pub payoff_at : Strategy W → W → ℕ → Bool → W
  payoff_at s at checkpoint conservative =
      payoff_with (λ leg. leg_value_bound leg at checkpoint conservative) s

  unfoldable pub terminal_payoff : Strategy W → W → W
  terminal_payoff s at = payoff_at s at (far_expiry s) false

  unfoldable pub tail_slopes : Strategy W → W × W
  tail_slopes s = (
    of_int (quantity_sum OptionRight.call s.legs *ℤ pos contract_multiplier),
    of_int (pos 0 -ℤ quantity_sum OptionRight.put s.legs *ℤ pos contract_multiplier),
  )

  unfoldable pub last_of : W → List W → W
  last_of x [] = x
  last_of x (y ∷ ys) = last_of y ys

  -- `max(2.0 * strikes[-1], strikes[-1] + 100.0)`
  abbrev pub default_bound : W → W
  default_bound top = max2 (times (decimal 2 0) top) (plus top (decimal 100 0))

  -- `evaluation_spots`, for the strikes of a strategy, which has at least one.
  unfoldable pub spots_of : List W → Option W → List W
  spots_of [] far_bound = nought ∷ []
  spots_of (k ∷ ks) far_bound =
      let end : W = elim far_bound [ none ↦ default_bound (last_of k ks) | some b ↦ b ] in
      nought ∷ ((k ∷ ks) ++ (end ∷ []))

  unfoldable pub evaluation_spots : Strategy W → Option W → List W
  evaluation_spots s far_bound = spots_of (strikes s.legs) far_bound

  -- One round of the inner loop: a strictly lower value takes the place of the worst one.
  unfoldable pub worse : W → W → ℕ → Worst W → Worst W
  worse value at checkpoint none = some (value, (at, checkpoint))
  worse value at checkpoint (some w) =
      if lt value w.0 then some (value, (at, checkpoint)) else some w

  unfoldable pub worst_at : Strategy W → ℕ → List W → Worst W → Worst W
  worst_at s checkpoint [] w = w
  worst_at s checkpoint (at ∷ ats) w =
      worst_at s checkpoint ats (worse (payoff_at s at checkpoint true) at checkpoint w)

  unfoldable pub worst_over : Strategy W → List ℕ → List W → Worst W → Worst W
  worst_over s [] spots w = w
  worst_over s (t ∷ ts) spots w = worst_over s ts spots (worst_at s t spots w)

  -- `max(terminal_payoff(strategy, s) for s in spots)`
  unfoldable pub best_from : Strategy W → W → List W → W
  best_from s best [] = best
  best_from s best (at ∷ ats) = best_from s (max2 best (terminal_payoff s at)) ats

  unfoldable pub best_of : Strategy W → List W → W
  best_of s [] = nought
  best_of s (at ∷ ats) = best_from s (terminal_payoff s at) ats

  -- `-worst`, of infinity if nothing was evaluated, cut at zero: `max(0.0, -worst)`.
  abbrev pub loss_of : Worst W → Option W
  loss_of none = some nought
  loss_of (some w) = some (max2 nought (negate w.0))
