-- ===== src/Risk/Sizing.antt =====
-- spy_der/risk/sizing.py: how many contracts of a candidate the account may carry.
mod Tests
pub mod Bounds
use iron_spyder.Prelude.{
  ℕ, ◌+◌, ◌<◌, Bool, true, false, not, ◌||◌, Option, none, some, List, [], ◌∷◌, ltb, leb,
  if◌then◌else◌,
}
use iron_spyder.Prelude.Int.{ℤ, pos, pos_part, ltb_ℤ}
use iron_spyder.Float.{Float, max2, min2}
use iron_spyder.Domain.Strategy.{StrategyCandidate}
use iron_spyder.Domain.Execution.{of_count}
use iron_spyder.Risk.Limits.{RiskConfig, TradeLimits}

pub data Constraint : Type 0 where
  undefined_risk base_budget account_fraction dollar_cap remaining_risk contracts_cap : Constraint

pub record SizingResult (W : Type 0) : Type 0 where
  pub contracts : ℕ
  pub base_risk : W
  pub adjusted_risk : W
  pub risk_per_contract : W
  pub binding_constraint : Constraint
  -- whether "(below one contract)" is added to the constraint's name
  pub below_one : Bool

abbrev pub is_tradeable : {W : Type 0} → SizingResult W → Bool
is_tradeable r = leb 1 r.contracts

module _ {W : Type 0} ⦃f : Float W⦄ where
  open f use {nought, decimal, plus, minus, times, over, lt, le, is_finite, floor_div, clip}

  abbrev pub total_risk : SizingResult W → W
  total_risk r = times (of_count r.contracts) r.risk_per_contract

  unfoldable pub confidence_factor : W → W → W
  confidence_factor confidence floor =
      let one = decimal 1 0 in
      let least = decimal 50 2 in
      let span = over (minus (min2 confidence one) floor) (minus one floor) in
      if not (is_finite confidence) || le confidence floor
      then nought
      else if le one floor
      then one
      else plus least (times (minus one least) span)

  -- The four terms that scale the base risk.
  unfoldable pub quality : StrategyCandidate W → W → W → W → RiskConfig W → W
  unfolding confidence_factor
  quality c confidence stability calibration config =
      let one = decimal 1 0 in
      times
        (times
          (times (confidence_factor confidence config.trade.min_confidence)
            (clip c.liquidity.score nought one))
          (clip stability nought one))
        (clip calibration nought one)

  -- `min(caps, key=...)`, from the first cap: an equal later one does not replace it.
  unfoldable pub least_cap : Constraint × W → List (Constraint × W) → Constraint × W
  least_cap best [] = best
  least_cap best (c ∷ cs) = least_cap (if lt c.1 best.1 then c else best) cs

  abbrev pub remaining_cap : Option W → List (Constraint × W)
  remaining_cap none = []
  remaining_cap (some available) = (Constraint.remaining_risk, max2 nought available) ∷ []

  -- The caps behind the first one, in order.
  abbrev pub hard_caps : W → RiskConfig W → Option W → List (Constraint × W)
  hard_caps equity config available =
      (Constraint.account_fraction, times equity config.trade.max_account_fraction_at_risk)
      ∷ (Constraint.dollar_cap, config.trade.max_dollar_risk)
      ∷ remaining_cap available

  -- The cap that binds, and what it allows.
  unfoldable pub binding_cap : W → W → RiskConfig W → Option W → Constraint × W
  unfolding least_cap
  binding_cap adjusted equity config available =
      least_cap (Constraint.base_budget, adjusted) (hard_caps equity config available)

  -- The contracts that an allowance buys, at most `limit` and at least 0, with the constraint.
  unfoldable pub capped_contracts : Constraint × W → W → ℕ → ℕ × Constraint
  capped_contracts (name, allowed) risk limit =
      let contracts = floor_div allowed risk in
      if ltb_ℤ (pos limit) contracts
      then (limit, Constraint.contracts_cap)
      else (pos_part contracts, name)

  -- What is returned for a candidate whose risk per contract is not a positive number.
  abbrev pub unsized : StrategyCandidate W → SizingResult W
  unsized c = record {
    contracts = 0;
    base_risk = nought;
    adjusted_risk = nought;
    risk_per_contract = c.max_loss;
    binding_constraint = Constraint.undefined_risk;
    below_one = false;
  }

  -- What is returned for the others, from the base and the adjusted risk and the cap that binds.
  unfoldable pub sized :
      StrategyCandidate W → W → W → Constraint × W → RiskConfig W → SizingResult W
  sized c base adjusted cap config =
      let (n, name) = capped_contracts cap c.max_loss config.trade.max_contracts in
      record {
        contracts = n;
        base_risk = base;
        adjusted_risk = adjusted;
        risk_per_contract = c.max_loss;
        binding_constraint = name;
        below_one = ltb n 1;
      }

  unfoldable pub size_position :
      StrategyCandidate W → W → W → W → W → RiskConfig W → Option W → SizingResult W
  size_position c equity confidence stability calibration config available =
      let base = times (max2 nought equity) config.base_risk_fraction in
      let adjusted = times base (quality c confidence stability calibration config) in
      if le c.max_loss nought || not (is_finite c.max_loss)
      then unsized c
      else sized c base adjusted (binding_cap adjusted equity config available) config
