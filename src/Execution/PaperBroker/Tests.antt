-- ===== src/Execution/PaperBroker/Tests.antt =====
-- The paper broker on the sample spread.
use iron_spyder.Prelude.{some, false, ◌≡◌, refl, arith, All, true, List, [], ◌∷◌}
use iron_spyder.Prelude.Int.{◌+ℤ◌, ◌-ℤ◌, ◌*ℤ◌}
use iron_spyder.Float.Ticks.{Ticks, ticks}
use iron_spyder.Domain.Market.{find_quote, mid, spread_ratio}
use iron_spyder.Domain.Strategy.{contract_count}
use iron_spyder.Domain.Execution.{Fill, is_terminal, MultiLegOrder}
use iron_spyder.Samples.{cents, dollars, position, snapshot, working_order}
use iron_spyder.Execution.Fills.{
  leg_slippage, fill_probability, worst_ratio, least_size, least_activity, activity_proxy,
  CostModel,
}
use iron_spyder.Execution.PaperBroker.{
  poll_order, try_fill, quotes_for, acceptable, achievable_price, leg_price, misses, fill_size,
  largest_quantity, record_fill, commission, mid_price, PaperBroker, PaperBrokerConfig, lookup,
}
use iron_spyder.Execution.PaperBroker.Books.{IsValid}
use iron_spyder.Execution.PaperBroker.Histories.{
  Call, IsFresh, calls, calls-IsValid, polls, HasEnded, polls-HasEnded,
}
use iron_spyder.Execution.PaperBroker.Prices.{IsProtected, poll_order-IsProtected}
open ticks use {le}

abbrev paper : PaperBrokerConfig Ticks
paper = record { max_reprice_attempts = 2; reprice_step = cents 1; allow_partial_fills = true }

abbrev costs : CostModel Ticks
costs = record {
  commission_per_contract = cents 65;
  exchange_fee_per_contract = cents 5;
  spread_capture = cents 50;
  spread_multiplier = dollars 1;
  adverse_ticks = dollars 0;
  tick_size = cents 1;
  fill_probability_floor = cents 2;
}

abbrev order : MultiLegOrder Ticks
order = working_order 5 3 (cents 210)

abbrev opened : PaperBroker Ticks
opened = record {
  config = paper;
  costs = costs;
  equity = dollars 100_000;
  orders = [];
  fills = [];
  positions = [];
  connected = true;
  draws = λ _. cents 0;
  drawn = 0;
}

abbrev sent : PaperBroker Ticks
sent = record opened { orders = (5, order) ∷ [] }

polls-HasEnded_example :
    HasEnded 5 (polls 5 (snapshot ∷ snapshot ∷ snapshot ∷ snapshot ∷ snapshot ∷ snapshot ∷ []) sent)
unfolding lookup
polls-HasEnded_example =
    polls-HasEnded 5 (snapshot ∷ snapshot ∷ snapshot ∷ snapshot ∷ snapshot ∷ snapshot ∷ []) sent
      order refl refl (omega arith)

abbrev session : List (Call Ticks)
session =
    Call.submit_order order
    ∷ Call.poll_id 5 snapshot
    ∷ Call.register (position 1 3)
    ∷ Call.go_down
    ∷ Call.submit_order (working_order 6 1 (cents 210))
    ∷ Call.go_up
    ∷ Call.cancel_id 5
    ∷ []

opened-IsValid : IsValid opened
unfolding lookup
opened-IsValid id = refl

fresh : All IsFresh session
fresh = ((refl, refl), (tt, (tt, (tt, ((refl, refl), (tt, (tt, tt)))))))

calls-IsValid_example : IsValid (calls session opened)
calls-IsValid_example = calls-IsValid session opened fresh opened-IsValid

-- Two contracts traded per unit, at 70 cents each, for three units.
abbrev filled : Fill Ticks
filled = record {
  order_id = 5;
  filled_at = 1_000_000_000;
  contracts = 3;
  fill_price = cents 200;
  commission = cents 420;
  slippage_vs_mid = cents 0;
}

order_fills : (poll_order order snapshot sent).fill ≡ some filled
unfolding poll_order try_fill quotes_for find_quote mid acceptable achievable_price leg_price
    leg_slippage misses fill_probability worst_ratio spread_ratio least_size least_activity
    activity_proxy fill_size largest_quantity record_fill commission contract_count mid_price ◌+ℤ◌
    ◌-ℤ◌ ◌*ℤ◌
order_fills = refl

poll_order-IsProtected_example : (is_terminal order ≡ false) × IsProtected order snapshot filled
poll_order-IsProtected_example = poll_order-IsProtected order snapshot sent filled order_fills
