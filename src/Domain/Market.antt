-- ===== src/Domain/Market.antt =====
-- spy_der/domain/market.py and spy_der/domain/forecast.py: the fields of a snapshot and of a
-- forecast that the modelled components read.
use iron_spyder.Prelude.{ℕ, Bool, ◌&&◌, Option, none, some, List, [], ◌∷◌, ◌==◌, if◌then◌else◌}
use iron_spyder.Float.{Float}
use iron_spyder.Domain.Enums.{OptionRight, right_eq, MarketState}

pub record SpyQuote (W : Type 0) : Type 0 where
  pub bid : W
  pub ask : W
  pub last : W

pub record OptionQuote (W : Type 0) : Type 0 where
  pub expiration : ℕ
  pub strike : W
  pub right : OptionRight
  pub bid : W
  pub ask : W
  pub bid_size : ℕ
  pub ask_size : ℕ
  pub volume : ℕ
  pub open_interest : ℕ

pub record ContextSnapshot (W : Type 0) : Type 0 where
  pub minutes_to_close : W
  pub scheduled_events : List ℕ

pub record MarketSnapshot (W : Type 0) : Type 0 where
  pub timestamp : ℕ
  pub spy_quote : SpyQuote W
  pub option_chain : List (OptionQuote W)
  pub context : ContextSnapshot W
  pub data_quality_score : W

pub record ForecastBundle (W : Type 0) : Type 0 where
  pub confidence : W
  pub model_disagreement : W
  pub state_stability : W
  pub calibration_score : W
  -- `state_probabilities.get(state, 0.0)`
  pub state_probability : MarketState → W

module _ {W : Type 0} ⦃f : Float W⦄ where
  open f use {nought, decimal, plus, minus, times, over, lt, le, eq}

  -- `OptionQuote.mid`
  unfoldable pub mid : OptionQuote W → W
  mid q = times (decimal 5 1) (plus q.bid q.ask)

  -- `OptionQuote.spread_ratio`; the interface has no infinity, so the degenerate quote is `none`.
  unfoldable pub spread_ratio : OptionQuote W → Option W
  unfolding mid
  spread_ratio q = if le (mid q) nought then none else some (over (minus q.ask q.bid) (mid q))

  -- `SpyQuote.mid`, the spot of a snapshot.
  unfoldable pub spot : MarketSnapshot W → W
  spot s =
      let q = s.spy_quote in
      if lt nought q.bid && lt nought q.ask then times (decimal 5 1) (plus q.bid q.ask) else q.last

  abbrev matches : ℕ → W → OptionRight → OptionQuote W → Bool
  matches expiry strike right q =
      (q.expiration == expiry) && eq q.strike strike && right_eq q.right right

  -- The first quote of the chain for a contract.
  unfoldable pub find_quote : ℕ → W → OptionRight → List (OptionQuote W) → Option (OptionQuote W)
  find_quote expiry strike right [] = none
  find_quote expiry strike right (q ∷ qs) =
      if matches expiry strike right q then some q else find_quote expiry strike right qs

  abbrev pub quote_for : MarketSnapshot W → ℕ → W → OptionRight → Option (OptionQuote W)
  quote_for s expiry strike right = find_quote expiry strike right s.option_chain
