-- ===== src/Execution/Orders.antt =====
-- spy_der/execution/orders.py: the opening order of an approved candidate and the order that closes a
-- position. The generated identifiers are arguments.
mod Tests
pub mod Opening
use iron_spyder.Prelude.{ℕ, none, List, [], ◌∷◌, ltb, if◌then◌else◌}
use iron_spyder.Prelude.Int.{negsuc}
use iron_spyder.Float.{Float}
use iron_spyder.Domain.Enums.{OrderStatus, OrderIntent, contract_multiplier}
use iron_spyder.Domain.Strategy.{OptionLeg, Strategy, scaled}
use iron_spyder.Domain.Execution.{RiskDecision, MultiLegOrder, Position, truthy, of_count}

pub data OrderError : Type 0 where
  unapproved zero_contracts : OrderError

pub data Built (W : Type 0) : Type 0 where
  built : MultiLegOrder W → Built W
  refused : OrderError → Built W

module _ {W : Type 0} ⦃f : Float W⦄ where
  open f use {times, absolute}

  abbrev new_order : ℕ → ℕ → Strategy W → ℕ → W → OrderIntent → MultiLegOrder W
  new_order id now strategy contracts limit intent = record {
    order_id = id;
    created_at = now;
    strategy = strategy;
    contracts = contracts;
    limit_price = limit;
    intent = intent;
    status = OrderStatus.pending_new;
    filled_contracts = 0;
    reprice_attempts = 0;
    broker_order_id = none;
    reject_reason = none;
  }

  -- The candidate enters with its strategy and its entry price.
  unfoldable pub build_open_order :
      {R : Type 0} → Strategy W → W → RiskDecision W R → ℕ → ℕ → Built W
  build_open_order strategy entry_price decision now id =
      if decision.approved
      then (if ltb decision.max_contracts 1
          then refused OrderError.zero_contracts
          else (let limit =
                if truthy decision.required_price_limit
                then decision.required_price_limit
                else entry_price in
              built (new_order id now strategy decision.max_contracts limit OrderIntent.opening)))
      else refused OrderError.unapproved

  -- `leg.scaled(-1)` for every leg.
  unfoldable pub invert : List (OptionLeg W) → List (OptionLeg W)
  invert [] = []
  invert (leg ∷ legs) = scaled (negsuc 0) leg ∷ invert legs

  unfoldable pub build_close_order : Position W → W → ℕ → ℕ → MultiLegOrder W
  unfolding invert
  build_close_order p limit now id =
      new_order id now (record { family = p.strategy.family; legs = invert p.strategy.legs })
        p.contracts limit OrderIntent.closing

  unfoldable pub order_notional : MultiLegOrder W → W
  order_notional o =
      times (times (absolute o.limit_price) (of_count contract_multiplier)) (of_count o.contracts)
