-- ===== src/Execution/Fills.antt =====
-- spy_der/execution/fills.py: slippage, round-trip costs and the probability of a fill.
use Prim.Native.Nat.{min, max}
use iron_spyder.Prelude.{
  ℕ, ◌-◌, ◌*◌, ◌/◌, Option, none, some, List, [], ◌∷◌, ltb, length, ◌==◌, if◌then◌else◌,
}
use iron_spyder.Prelude.Int.{magnitude}
use iron_spyder.Float.{Float, max2, min2}
use iron_spyder.Domain.Enums.{contract_multiplier}
use iron_spyder.Domain.Market.{OptionQuote, spread_ratio}
use iron_spyder.Domain.Strategy.{OptionLeg, contract_count}
use iron_spyder.Domain.Execution.{of_count}

pub record CostModel (W : Type 0) : Type 0 where
  pub commission_per_contract : W
  pub exchange_fee_per_contract : W
  pub spread_capture : W
  pub spread_multiplier : W
  pub adverse_ticks : W
  pub tick_size : W
  pub fill_probability_floor : W

module _ {W : Type 0} ⦃f : Float W⦄ where
  open f use {nought, decimal, plus, minus, times, over, lt, clip, log1p}

  -- `CostModel.stressed`
  unfoldable pub stressed : CostModel W → W → W → CostModel W
  stressed m multiplier ticks = record m {
    spread_multiplier = times m.spread_multiplier multiplier;
    adverse_ticks = plus m.adverse_ticks ticks;
  }

  unfoldable pub leg_slippage : OptionQuote W → CostModel W → W
  leg_slippage q m =
      let half_spread =
        times (times (decimal 5 1) (max2 nought (minus q.ask q.bid))) m.spread_multiplier in
      plus (times half_spread m.spread_capture) (times m.adverse_ticks m.tick_size)

  -- The slippage term of one leg, in dollars, one way.
  unfoldable pub leg_cost : CostModel W → OptionLeg W → OptionQuote W → W
  unfolding leg_slippage
  leg_cost m leg q =
      times (of_count (magnitude leg.quantity * contract_multiplier)) (leg_slippage q m)

  -- `sum(... for leg, quote in zip(legs, quotes))`, from `acc`; `way` is what the sum applies to a term.
  unfoldable pub slippage_sum :
      CostModel W → (W → W) → W → List (OptionLeg W) → List (OptionQuote W) → W
  unfolding leg_cost
  slippage_sum m way acc [] quotes = acc
  slippage_sum m way acc (leg ∷ legs) [] = acc
  slippage_sum m way acc (leg ∷ legs) (q ∷ qs) =
      slippage_sum m way (plus acc (way (leg_cost m leg q))) legs qs

  -- `none` is the `ValueError` of a length mismatch.
  unfoldable pub round_trip_cost :
      List (OptionLeg W) → List (OptionQuote W) → CostModel W → ℕ → Option W
  unfolding slippage_sum contract_count
  round_trip_cost legs quotes m contracts =
      if length legs == length quotes
      then (let slippage = slippage_sum m (λ x. times x (decimal 2 0)) nought legs quotes in
          let fees = plus m.commission_per_contract m.exchange_fee_per_contract in
          let commissions = times (times (of_count (contract_count legs)) fees) (decimal 2 0) in
          some (times (plus slippage commissions) (of_count contracts)))
      else none

  unfoldable pub entry_slippage : List (OptionLeg W) → List (OptionQuote W) → CostModel W → W
  unfolding slippage_sum
  entry_slippage legs quotes m = slippage_sum m (λ x. x) nought legs quotes

  -- `max(q.spread_ratio for q in quotes)`, with `none` for infinity.
  unfoldable pub worst_ratio : Option W → List (OptionQuote W) → Option W
  unfolding spread_ratio
  worst_ratio worst [] = worst
  worst_ratio worst (q ∷ qs) =
      worst_ratio
        (elim worst [
          | none ↦ none
          | some w ↦ elim (spread_ratio q) [ none ↦ none | some r ↦ some (max2 w r) ]
        ])
        qs

  abbrev pub quote_size : OptionQuote W → ℕ
  quote_size q = min q.bid_size q.ask_size

  -- `min(min(q.bid_size, q.ask_size) for q in quotes)`, from the first quote's size.
  unfoldable pub least_size : ℕ → List (OptionQuote W) → ℕ
  least_size depth [] = depth
  least_size depth (q ∷ qs) = least_size (min depth (quote_size q)) qs

  unfoldable pub activity_proxy : OptionQuote W → W
  activity_proxy q =
      if ltb 0 q.volume
      then of_count q.volume
      else (if ltb 0 q.open_interest then of_count (max 1 (q.open_interest / 20)) else nought)

  unfoldable pub least_activity : W → List (OptionQuote W) → W
  unfolding activity_proxy
  least_activity least [] = least
  least_activity least (q ∷ qs) = least_activity (min2 least (activity_proxy q)) qs

  unfoldable pub fill_probability : List (OptionQuote W) → ℕ → ℕ → CostModel W → W → W
  unfolding worst_ratio least_size least_activity
  fill_probability [] leg_count contracts m minutes_to_close = nought
  fill_probability (q ∷ qs) leg_count contracts m minutes_to_close =
      let one = decimal 1 0 in
      let spread_term : W = elim (worst_ratio (spread_ratio q) qs) [
        | none ↦ decimal 5 2
        | some worst ↦ clip (minus one (over worst (decimal 30 2))) (decimal 5 2) one
      ] in
      let depth = of_count (least_size (quote_size q) qs) in
      let size_term =
        clip (over depth (max2 one (times (of_count contracts) (decimal 2 0)))) (decimal 1 1) one in
      let leg_term =
        clip (minus one (times (decimal 8 2) (of_count (leg_count - 2)))) (decimal 4 1) one in
      let activity = least_activity (activity_proxy q) qs in
      let volume_term = clip (over (log1p activity) (log1p (decimal 200 0))) (decimal 25 2) one in
      let close_term = if lt (decimal 15 0) minutes_to_close then one else decimal 6 1 in
      let probability =
        times (times (times (times spread_term size_term) leg_term) volume_term) close_term in
      clip probability m.fill_probability_floor (decimal 99 2)
