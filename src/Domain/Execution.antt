-- ===== src/Domain/Execution.antt =====
-- spy_der/domain/execution.py: risk verdicts, orders, fills, positions and the broker's state.
use iron_spyder.Prelude.{
  ℕ, ◌-◌, Bool, true, false, not, ◌&&◌, Option, none, some, List, ◌++◌, is_empty, if◌then◌else◌,
}
use Prim.Native.Nat.{min}
use iron_spyder.Prelude.Int.{pos}
use iron_spyder.Float.{Float, min2}
use iron_spyder.Domain.Enums.{
  StrategyFamily, OrderStatus, OrderIntent, ExitReason, contract_multiplier,
}
use iron_spyder.Domain.Strategy.{Strategy, ExitPlan}

-- `R` is the type of the veto reasons.
pub record RiskDecision (W R : Type 0) : Type 0 where
  pub approved : Bool
  pub veto_reasons : List R
  pub max_contracts : ℕ
  pub approved_risk : W
  pub required_price_limit : W

pub data RejectReason : Type 0 where
  legs_not_quoted : RejectReason
  unfilled_after : ℕ → RejectReason

pub record MultiLegOrder (W : Type 0) : Type 0 where
  pub order_id : ℕ
  pub created_at : ℕ
  pub strategy : Strategy W
  pub contracts : ℕ
  pub limit_price : W
  pub intent : OrderIntent
  pub status : OrderStatus
  pub filled_contracts : ℕ
  pub reprice_attempts : ℕ
  pub broker_order_id : Option ℕ
  pub reject_reason : Option RejectReason

pub record Fill (W : Type 0) : Type 0 where
  pub order_id : ℕ
  pub filled_at : ℕ
  pub contracts : ℕ
  pub fill_price : W
  pub commission : W
  pub slippage_vs_mid : W

pub record Position (W : Type 0) : Type 0 where
  pub position_id : ℕ
  pub opened_at : ℕ
  pub family : StrategyFamily
  pub strategy : Strategy W
  pub contracts : ℕ
  pub entry_price : W
  pub max_loss_per_contract : W
  pub max_profit_per_contract : W
  pub exit_plan : ExitPlan W
  pub entry_commission : W
  pub current_price : W
  pub marked_at : Option ℕ
  pub realized_pnl : W
  pub exit_reason : Option ExitReason
  pub closed_at : Option ℕ

-- `D` is the type of the discrepancies.
pub record BrokerState (W D : Type 0) : Type 0 where
  pub connected : Bool
  pub equity : W
  pub buying_power : W
  pub reconciled : Bool
  pub discrepancies : List D

-- `BrokerState.is_healthy`
abbrev pub is_healthy : {W D : Type 0} → BrokerState W D → Bool
is_healthy b = b.connected && b.reconciled && is_empty b.discrepancies

-- `self.status in {FILLED, CANCELLED, REJECTED, EXPIRED}`
abbrev pub is_terminal_status : OrderStatus → Bool
is_terminal_status OrderStatus.filled = true
is_terminal_status OrderStatus.cancelled = true
is_terminal_status OrderStatus.rejected = true
is_terminal_status OrderStatus.expired = true
is_terminal_status _ = false

module _ {W : Type 0} where
  abbrev pub is_terminal : MultiLegOrder W → Bool
  is_terminal o = is_terminal_status o.status

  -- `max(0, contracts - filled)`: the subtraction of numbers stops at 0 too.
  abbrev pub remaining_contracts : MultiLegOrder W → ℕ
  remaining_contracts o = o.contracts - o.filled_contracts

  abbrev pub is_open : Position W → Bool
  is_open p = elim p.closed_at [ none ↦ true | some _ ↦ false ]

  -- `Position.marked`
  abbrev pub marked : Position W → W → ℕ → Position W
  marked p price at = record p { current_price = price; marked_at = some at }

  -- `Position.closed`
  abbrev pub closed : Position W → ℕ → W → ExitReason → Position W
  closed p at pnl reason = record p {
    closed_at = some at;
    realized_pnl = pnl;
    exit_reason = some reason;
  }

module _ {W : Type 0} ⦃f : Float W⦄ where
  open f use {nought, of_int, plus, minus, times, eq}

  abbrev pub of_count : ℕ → W
  of_count n = of_int (pos n)

  -- `RiskDecision.veto`, with the dataclass's defaults.
  abbrev pub veto : {R : Type 0} → List R → RiskDecision W R
  veto reasons = record {
    approved = false;
    veto_reasons = reasons;
    max_contracts = 0;
    approved_risk = nought;
    required_price_limit = nought;
  }

  -- A float is true unless it is 0.0.
  abbrev pub truthy : W → Bool
  truthy x = not (eq x nought)

  -- `RiskDecision.merged`
  unfoldable pub merged : {R : Type 0} → RiskDecision W R → RiskDecision W R → RiskDecision W R
  merged a b = record {
    approved = a.approved && b.approved;
    veto_reasons = a.veto_reasons ++ b.veto_reasons;
    max_contracts = min a.max_contracts b.max_contracts;
    approved_risk = min2 a.approved_risk b.approved_risk;
    required_price_limit =
        if truthy a.required_price_limit && truthy b.required_price_limit
        then min2 a.required_price_limit b.required_price_limit
        else (if truthy a.required_price_limit
            then a.required_price_limit
            else b.required_price_limit);
  }

  -- `Position.total_max_loss`
  abbrev pub total_max_loss : Position W → W
  total_max_loss p = plus (times p.max_loss_per_contract (of_count p.contracts)) p.entry_commission

  -- `Position.unrealized_pnl`
  unfoldable pub unrealized_pnl : Position W → W
  unrealized_pnl p =
      times (times (minus p.current_price p.entry_price) (of_count contract_multiplier))
        (of_count p.contracts)
