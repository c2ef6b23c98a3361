-- ===== src/Execution/PaperBroker/Pricing.antt =====
-- The quotes of an order's legs, and the net prices that they give.
use Prim.Native.Nat.{max}
use iron_spyder.Prelude.{ℕ, Option, none, some, List, [], ◌∷◌, if◌then◌else◌}
use iron_spyder.Prelude.Int.{pos, magnitude, ltb_ℤ}
use iron_spyder.Float.{Float}
use iron_spyder.Domain.Market.{OptionQuote, mid, find_quote}
use iron_spyder.Domain.Strategy.{OptionLeg}
use iron_spyder.Execution.Fills.{CostModel, leg_slippage}

module _ {W : Type 0} where
  -- `max(abs(leg.quantity) for leg in legs)`, from `m`.
  unfoldable pub largest_quantity : ℕ → List (OptionLeg W) → ℕ
  largest_quantity m [] = m
  largest_quantity m (leg ∷ legs) = largest_quantity (max m (magnitude leg.quantity)) legs

module _ {W : Type 0} ⦃f : Float W⦄ where
  open f use {nought, of_int, plus, minus, times, absolute, lt, le}

  -- `_quotes_for`: a quote for every leg, or `none`.
  unfoldable pub quotes_for :
      List (OptionLeg W) → List (OptionQuote W) → Option (List (OptionQuote W))
  unfolding find_quote mid
  quotes_for [] chain = some []
  quotes_for (leg ∷ legs) chain =
      let rest = quotes_for legs chain in
      elim (find_quote leg.expiry leg.strike leg.right chain) [
        | none ↦ none
        | some q ↦
            if le (mid q) nought then none else elim rest [ none ↦ none | some qs ↦ some (q ∷ qs) ]
      ]

  -- The price of one leg, per share and with slippage, as it is bought or sold.
  unfoldable pub leg_price : CostModel W → OptionLeg W → OptionQuote W → W
  unfolding mid leg_slippage
  leg_price costs leg q =
      let slip = leg_slippage q costs in
      if ltb_ℤ (pos 0) leg.quantity then plus (mid q) slip else minus (mid q) slip

  -- `_achievable_price`, whose `total` starts from `acc`.
  unfoldable pub achievable_price : CostModel W → W → List (OptionLeg W) → List (OptionQuote W) → W
  unfolding leg_price
  achievable_price costs acc [] quotes = acc
  achievable_price costs acc (leg ∷ legs) [] = acc
  achievable_price costs acc (leg ∷ legs) (q ∷ qs) =
      achievable_price costs (plus acc (times (of_int leg.quantity) (leg_price costs leg q))) legs
        qs

  -- `sum(leg.quantity * quote.mid for ...)`
  unfoldable pub mid_price : W → List (OptionLeg W) → List (OptionQuote W) → W
  unfolding mid
  mid_price acc [] quotes = acc
  mid_price acc (leg ∷ legs) [] = acc
  mid_price acc (leg ∷ legs) (q ∷ qs) =
      mid_price (plus acc (times (of_int leg.quantity) (mid q))) legs qs
