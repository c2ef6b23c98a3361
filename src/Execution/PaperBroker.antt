-- ===== src/Execution/PaperBroker.antt =====
-- spy_der/execution/paper_broker.py: the simulated broker. `self` is a record that each method returns
-- anew; a `BrokerError` is a value. The random numbers of the seeded generator are a sequence, of
-- which the broker has drawn the first `drawn`.
mod Tests
pub mod Records
pub mod Pricing
pub mod Lifecycle
pub mod Books
pub mod Prices
pub mod Histories
use Prim.Native.Nat.{min, max}
use iron_spyder.Prelude.{
  ℕ, ◌+◌, ◌-◌, ◌*◌, ◌/◌, Bool, true, false, not, Option, none, some, List, [], ◌∷◌, ◌++◌, length,
  ltb, leb, ◌==◌, if◌then◌else◌,
}
use iron_spyder.Prelude.Int.{ℤ, pos, magnitude, ltb_ℤ}
use iron_spyder.Float.{Float}
use iron_spyder.Domain.Enums.{OrderStatus, OrderIntent, contract_multiplier}
use iron_spyder.Domain.Market.{OptionQuote, MarketSnapshot, mid, find_quote}
use iron_spyder.Domain.Strategy.{OptionLeg, contract_count}
use iron_spyder.Domain.Execution.{
  MultiLegOrder, RejectReason, Fill, Position, BrokerState, is_terminal, remaining_contracts,
  is_open, of_count,
}
use iron_spyder.Execution.Fills.{CostModel, leg_slippage, fill_probability, quote_size, least_size}
pub use Records.{PaperBrokerConfig, PaperBroker, BrokerError, Result, ok, err, Polled}
unfoldable pub use Records.{lookup, insert}
unfoldable pub use Pricing.{largest_quantity, quotes_for, leg_price, achievable_price, mid_price}

module _ {W : Type 0} where
  abbrev pub store : MultiLegOrder W → PaperBroker W → PaperBroker W
  store o b = record b { orders = insert o.order_id o b.orders }

module _ {W : Type 0} ⦃f : Float W⦄ where
  open f use {nought, of_int, plus, minus, times, absolute, lt, le}

  unfoldable pub state : {D : Type 0} → PaperBroker W → BrokerState W D
  state b = record {
    connected = b.connected;
    equity = b.equity;
    buying_power = b.equity;
    reconciled = true;
    discrepancies = [];
  }

  unfoldable pub submit : MultiLegOrder W → PaperBroker W → Result (PaperBroker W × MultiLegOrder W)
  submit o b =
      if not b.connected then err BrokerError.disconnected else elim (lookup o.order_id b.orders) [
        | some _ ↦ err (BrokerError.duplicate_order o.order_id)
        | none ↦
            let working = record o {
              status = OrderStatus.working;
              broker_order_id = some (length b.orders);
            } in
            ok (store working b, working)
      ]

  -- `_fill_size`; the minimum over no quotes, which the source cannot take, is 0 here.
  unfoldable pub fill_size : PaperBrokerConfig W → MultiLegOrder W → List (OptionQuote W) → ℕ
  unfolding least_size largest_quantity
  fill_size cfg o [] = 0
  fill_size cfg o (q ∷ qs) =
      let capacity = least_size (quote_size q) qs / max 1 (largest_quantity 0 o.strategy.legs) in
      let wanted = remaining_contracts o in
      if leb wanted capacity
      then wanted
      else (if cfg.allow_partial_fills then min wanted capacity else 0)

  -- The order after one concession, or expired once the attempts are spent.
  unfoldable pub conceded : PaperBrokerConfig W → MultiLegOrder W → MultiLegOrder W
  conceded cfg o =
      if leb cfg.max_reprice_attempts o.reprice_attempts
      then record o {
        status = OrderStatus.expired;
        reject_reason = some (RejectReason.unfilled_after o.reprice_attempts);
      }
      else (let concession = times cfg.reprice_step (of_count (length o.strategy.legs)) in
          record o {
            status = OrderStatus.working;
            limit_price =
                if le nought o.limit_price
                then plus o.limit_price concession
                else minus o.limit_price concession;
            reprice_attempts = o.reprice_attempts + 1;
          })

  unfoldable pub reprice_or_expire : MultiLegOrder W → PaperBroker W → Polled W
  reprice_or_expire o b =
      let o' = conceded b.config o in record { broker = store o' b; order = o'; fill = none }

  unfoldable pub commission : CostModel W → MultiLegOrder W → ℕ → W
  unfolding contract_count
  commission costs o contracts =
      let fees = plus costs.commission_per_contract costs.exchange_fee_per_contract in
      times (times (of_count (contract_count o.strategy.legs)) fees) (of_count contracts)

  -- The order after `contracts` more of it are filled.
  unfoldable pub filled_order : MultiLegOrder W → ℕ → MultiLegOrder W
  filled_order o contracts =
      let total = o.filled_contracts + contracts in
      record o {
        status = if leb o.contracts total then OrderStatus.filled else OrderStatus.partially_filled;
        filled_contracts = total;
      }

  abbrev pub charge : OrderIntent → W → W → W
  charge OrderIntent.opening equity c = minus equity c
  charge OrderIntent.closing equity c = equity

  unfoldable pub record_fill :
      MultiLegOrder W → ℕ → W → ℕ → List (OptionQuote W) → PaperBroker W → Polled W
  record_fill o now price contracts quotes b =
      let c = commission b.costs o contracts in
      let slippage = absolute (minus price (mid_price nought o.strategy.legs quotes)) in
      let fill : Fill W = record {
        order_id = o.order_id;
        filled_at = now;
        contracts = contracts;
        fill_price = price;
        commission = c;
        slippage_vs_mid =
            times (times slippage (of_count contract_multiplier)) (of_count contracts);
      } in
      let o' = filled_order o contracts in
      record {
        broker = record (store o' b) {
          fills = b.fills ++ (fill ∷ []);
          equity = charge o.intent b.equity c;
        };
        order = o';
        fill = some fill;
      }

  -- `acceptable`, at the price that the quotes and the slippage leave.
  unfoldable pub acceptable : CostModel W → MultiLegOrder W → List (OptionQuote W) → Bool
  unfolding achievable_price
  acceptable costs o quotes =
      let achievable = achievable_price costs nought o.strategy.legs quotes in
      if le nought o.limit_price then le achievable o.limit_price else le achievable o.limit_price

  -- `self._rng.random() > probability`, for the next number drawn.
  unfoldable pub misses :
      MultiLegOrder W → MarketSnapshot W → List (OptionQuote W) → PaperBroker W → Bool
  unfolding fill_probability
  misses o s quotes b =
      lt
        (fill_probability quotes (length o.strategy.legs) (remaining_contracts o) b.costs
          s.context.minutes_to_close)
        (b.draws b.drawn)

  -- What `poll` does once every leg is quoted.
  unfoldable pub try_fill :
      MultiLegOrder W → MarketSnapshot W → List (OptionQuote W) → PaperBroker W → Polled W
  try_fill o s quotes b =
      let drawn = record b { drawn = b.drawn + 1 } in
      let contracts = fill_size b.config o quotes in
      let achievable = achievable_price b.costs nought o.strategy.legs quotes in
      if not (acceptable b.costs o quotes)
      then reprice_or_expire o b
      else if misses o s quotes b
      then reprice_or_expire o drawn
      else if ltb contracts 1
      then reprice_or_expire o drawn
      else record_fill o s.timestamp achievable contracts quotes drawn

  unfoldable pub poll_order : MultiLegOrder W → MarketSnapshot W → PaperBroker W → Polled W
  poll_order o s b =
      if is_terminal o
      then record { broker = b; order = o; fill = none }
      else elim (quotes_for o.strategy.legs s.option_chain) [
        | none ↦
            let o' = record o {
              status = OrderStatus.rejected;
              reject_reason = some RejectReason.legs_not_quoted;
            } in
            record { broker = store o' b; order = o'; fill = none }
        | some quotes ↦ try_fill o s quotes b
      ]

  unfoldable pub poll : ℕ → MarketSnapshot W → PaperBroker W → Result (Polled W)
  poll id s b = elim (lookup id b.orders) [
    | none ↦ err (BrokerError.unknown_order id)
    | some o ↦ ok (poll_order o s b)
  ]

  unfoldable pub cancel : ℕ → PaperBroker W → Result (PaperBroker W × MultiLegOrder W)
  cancel id b = elim (lookup id b.orders) [
    | none ↦ err (BrokerError.unknown_order id)
    | some o ↦
        if is_terminal o
        then ok (b, o)
        else (let o' = record o { status = OrderStatus.cancelled } in ok (store o' b, o'))
  ]

  -- `tuple(p for p in self._positions.values() if p.is_open)`
  unfoldable pub open_values : List (ℕ × Position W) → List (Position W)
  open_values [] = []
  open_values ((_, p) ∷ m) = if is_open p then p ∷ open_values m else open_values m

  unfoldable pub broker_positions : PaperBroker W → List (Position W)
  unfolding open_values
  broker_positions b = open_values b.positions

  unfoldable pub register_position : Position W → PaperBroker W → PaperBroker W
  unfolding insert
  register_position p b = record b { positions = insert p.position_id p b.positions }

  unfoldable pub settle_position : Position W → W → PaperBroker W → PaperBroker W
  unfolding insert
  settle_position p pnl b = record b {
    positions = insert p.position_id p b.positions;
    equity = plus b.equity pnl;
  }

  unfoldable pub disconnect : PaperBroker W → PaperBroker W
  disconnect b = record b { connected = false }

  unfoldable pub reconnect : PaperBroker W → PaperBroker W
  reconnect b = record b { connected = true }
