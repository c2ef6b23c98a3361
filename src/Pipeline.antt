-- ===== src/Pipeline.antt =====
-- spy_der/pipeline.py: the decision pipeline, which manages the open positions and executes approved
-- candidates against the broker. `self` is a record that each method returns anew, also when it raises.
-- The identifiers of `uuid4` are a sequence, of which the first `issued` are used.
pub mod Cycle
pub mod Mirror
pub mod Frames
pub mod InStep
pub mod Preserved
pub mod Passes
pub mod Reconciled
pub mod Waiting
pub mod Unraised
pub mod Returns
pub mod Complete
pub mod Samples
mod Tests
use iron_spyder.Prelude.{
  ℕ, zero, suc, ◌+◌, Bool, true, false, ◌||◌, Option, none, some, List, [], ◌∷◌, ◌++◌,
  if◌then◌else◌,
}
use iron_spyder.Float.{Float}
use iron_spyder.Domain.Enums.{ExitReason, MarketState}
use iron_spyder.Domain.Market.{MarketSnapshot, ForecastBundle}
use iron_spyder.Domain.Strategy.{StrategyCandidate}
use iron_spyder.Domain.Execution.{
  RiskDecision, MultiLegOrder, Fill, Position, BrokerState, is_terminal, closed, of_count,
}
use iron_spyder.Risk.Limits.{record_trade, record_slippage}
use iron_spyder.Risk.Sizing.{SizingResult}
use iron_spyder.Risk.Portfolio.{Portfolio, open_positions, replace_position, add_position}
use iron_spyder.Risk.Engine.Checks.{Veto, RiskEngine}
use iron_spyder.Execution.Orders.{OrderError, Built, built, refused, build_open_order}
use iron_spyder.Execution.Manager.{
  ExitSignal, PositionManager, mark, build_exit_order, realized_pnl_at,
}
use iron_spyder.Execution.PaperBroker.{
  PaperBroker, BrokerError, Result, Polled, ok, err, submit, poll, cancel, register_position,
  settle_position, state, broker_positions,
}
use iron_spyder.Execution.Reconciliation.{Discrepancy, reconcile, apply_to_broker_state}

-- What a pass of the pipeline raises.
pub data Failure : Type 0 where
  broker_error : BrokerError → Failure
  order_error : OrderError → Failure
  -- `build_features` or the forecast engine
  no_forecast : Failure
  -- the validators, the optimizer, `timedelta` and the audit store
  no_assessment no_optimization no_timedelta no_record : Failure

-- What a method leaves of a state `S`, with its value unless it raised.
pub data Run (S A : Type 0) : Type 0 where
  done : S → A → Run S A
  raised : Failure → S → Run S A

-- The next statement, unless the first one raised.
abbrev pub chain : {S A B : Type 0} → Run S A → (S → A → Run S B) → Run S B
chain (Run.done s a) next = next s a
chain (Run.raised e s) next = Run.raised e s

-- Why a pass did not trade.
pub data Reason : Type 0 where
  quality_lockout short_of_bar not_filled : Reason
  vetoed : Veto → Reason

pub data Decision (W : Type 0) : Type 0 where
  no_trade : Decision W
  trade : StrategyCandidate W → Decision W

pub record PipelineResult (W : Type 0) : Type 0 where
  pub timestamp : ℕ
  pub snapshot : MarketSnapshot W
  pub forecast : Option (ForecastBundle W)
  pub candidate : Option (StrategyCandidate W)
  pub risk : RiskDecision W Reason
  pub sizing : Option (SizingResult W)
  pub order : Option (MultiLegOrder W)
  pub fill : Option (Fill W)
  pub position : Option (Position W)
  pub exits : List (ExitSignal W)
  pub decision : Decision W
  pub reasons : List Reason

-- What the audit store is given.
pub data Entry (W : Type 0) : Type 0 where
  recorded_trade : Position W → W → Entry W
  recorded_decision : PipelineResult W → Entry W

-- `M` is the state of the features and the forecast engine.
pub record DecisionPipeline (M W : Type 0) : Type 0 where
  pub models : M
  pub risk_engine : RiskEngine W
  pub broker : PaperBroker W
  pub manager : PositionManager W
  pub portfolio : Portfolio W
  pub max_poll_attempts : ℕ
  -- whether there is an audit store and `config.persist`
  pub persist : Bool
  pub audit : List (Entry W)
  -- The store takes a write or raises: which one is decided by the number of the writes before.
  pub takes : ℕ → Bool
  pub writes : ℕ
  pub uuids : ℕ → ℕ
  pub issued : ℕ

abbrev pub is_some : {A : Type 0} → Option A → Bool
is_some none = false
is_some (some x) = true

-- The order of an execution, with the fill and the position that it led to.
abbrev pub Executed : Type 0 → Type 0
Executed W = MultiLegOrder W × (Option (Fill W) × Option (Position W))

module _ {W : Type 0} ⦃f : Float W⦄ where
  -- The position of a fill.
  abbrev pub opened : StrategyCandidate W → MarketSnapshot W → Fill W → ℕ → Position W
  opened c s fill id = record {
    position_id = id;
    opened_at = s.timestamp;
    family = c.family;
    strategy = c.strategy;
    contracts = fill.contracts;
    entry_price = fill.fill_price;
    max_loss_per_contract = c.max_loss;
    max_profit_per_contract = c.max_profit;
    exit_plan = c.exit_plan;
    entry_commission = fill.commission;
    current_price = fill.fill_price;
    marked_at = some s.timestamp;
    realized_pnl = f.nought;
    exit_reason = none;
    closed_at = none;
  }

  -- The loop of at most `max_poll_attempts` polls, with the order and the fill that it ends with.
  unfoldable pub poll_until :
      ℕ
      → MarketSnapshot W
      → MultiLegOrder W
      → PaperBroker W
      → Run (PaperBroker W) (MultiLegOrder W × Option (Fill W))
  poll_until zero s o b = Run.done b (o, none)
  poll_until (suc n) s o b = elim (poll o.order_id s b) [
    | err e ↦ Run.raised (Failure.broker_error e) b
    | ok r ↦
        if is_some r.fill || is_terminal r.order
        then Run.done r.broker (r.order, r.fill)
        else poll_until n s r.order r.broker
  ]

module _ {M W : Type 0} ⦃f : Float W⦄ where
  open f use {minus, times, negate}

  abbrev pub next_id : DecisionPipeline M W → ℕ
  next_id p = p.uuids p.issued

  abbrev pub issue : DecisionPipeline M W → DecisionPipeline M W
  issue p = record p { issued = suc p.issued }

  -- A write of the audit store, and the value to return after it.
  unfoldable pub persist_entry :
      {A : Type 0} → Entry W → A → DecisionPipeline M W → Run (DecisionPipeline M W) A
  persist_entry e a p =
      if p.persist
      then (if p.takes p.writes
          then Run.done (record p { audit = p.audit ++ (e ∷ []); writes = suc p.writes }) a
          else Run.raised Failure.no_record (record p { writes = suc p.writes }))
      else Run.done p a

  -- The position is replaced by its closed one in both books, and the profit is recorded.
  abbrev pub settled : Position W → Position W → W → DecisionPipeline M W → DecisionPipeline M W
  settled position shut pnl p =
      let b = settle_position shut pnl p.broker in
      let e = p.risk_engine in
      record p {
        portfolio = replace_position position.position_id shut p.portfolio;
        broker = b;
        risk_engine = record e { session = record_trade pnl b.equity e.session };
      }

  -- What `_close_position` does with the fill of the closing order.
  unfoldable pub settle_close :
      Position W
      → MarketSnapshot W
      → ExitReason
      → MultiLegOrder W
      → Fill W
      → DecisionPipeline M W
      → Run (DecisionPipeline M W) (Option (Position W))
  unfolding persist_entry
  settle_close position s reason order fill p =
      let exit_price = negate order.limit_price in
      let pnl = minus (realized_pnl_at position exit_price) fill.commission in
      let shut = closed position s.timestamp pnl reason in
      persist_entry (Entry.recorded_trade shut exit_price) (some shut) (settled position shut pnl p)

  -- After the loop of polls.
  abbrev pub close_polled :
      Position W
      → MarketSnapshot W
      → ExitReason
      → Run (PaperBroker W) (MultiLegOrder W × Option (Fill W))
      → DecisionPipeline M W
      → Run (DecisionPipeline M W) (Option (Position W))
  close_polled position s reason (Run.raised e b) p = Run.raised e (record p { broker = b })
  close_polled position s reason (Run.done b (order, none)) p =
      Run.done (record p { broker = b }) none
  close_polled position s reason (Run.done b (order, some fill)) p =
      settle_close position s reason order fill (record p { broker = b })

  abbrev pub close_submitted :
      Position W
      → MarketSnapshot W
      → ExitReason
      → MultiLegOrder W
      → Result (PaperBroker W × MultiLegOrder W)
      → DecisionPipeline M W
      → Run (DecisionPipeline M W) (Option (Position W))
  close_submitted position s reason order (err e) p = Run.raised (Failure.broker_error e) p
  close_submitted position s reason order (ok (b, _)) p =
      close_polled position s reason (poll_until p.max_poll_attempts s order b) p

  abbrev pub close_with :
      Position W
      → MarketSnapshot W
      → ExitReason
      → Option (MultiLegOrder W)
      → DecisionPipeline M W
      → Run (DecisionPipeline M W) (Option (Position W))
  close_with position s reason none p = Run.done p none
  close_with position s reason (some order) p =
      close_submitted position s reason order (submit order p.broker) (issue p)

  unfoldable pub close_position :
      Position W
      → MarketSnapshot W
      → ExitReason
      → DecisionPipeline M W
      → Run (DecisionPipeline M W) (Option (Position W))
  close_position position s reason p =
      close_with position s reason (build_exit_order p.manager position s none (next_id p)) p

  -- What `_execute` does without a fill: an order that is not terminal is cancelled.
  abbrev pub give_up_with :
      Result (PaperBroker W × MultiLegOrder W)
      → DecisionPipeline M W
      → Run (DecisionPipeline M W) (Executed W)
  give_up_with (err e) p = Run.raised (Failure.broker_error e) p
  give_up_with (ok (b, o)) p = Run.done (record p { broker = b }) (o, (none, none))

  unfoldable pub give_up :
      MultiLegOrder W → DecisionPipeline M W → Run (DecisionPipeline M W) (Executed W)
  give_up o p =
      if is_terminal o
      then Run.done p (o, (none, none))
      else give_up_with (cancel o.order_id p.broker) p

  -- What `_execute` does with a fill.
  unfoldable pub open_position :
      StrategyCandidate W
      → MarketSnapshot W
      → MultiLegOrder W
      → Fill W
      → DecisionPipeline M W
      → Run (DecisionPipeline M W) (Executed W)
  open_position c s o fill p =
      let position = opened c s fill (next_id p) in
      let e = p.risk_engine in
      let slippage = times c.expected_slippage (of_count fill.contracts) in
      Run.done
        (record (issue p) {
          portfolio = add_position position p.portfolio;
          broker = register_position position p.broker;
          risk_engine = record e {
            session = record_slippage slippage fill.slippage_vs_mid e.session;
          };
        })
        (o, (some fill, some position))

  -- After the loop of polls.
  abbrev pub open_polled :
      StrategyCandidate W
      → MarketSnapshot W
      → Run (PaperBroker W) (MultiLegOrder W × Option (Fill W))
      → DecisionPipeline M W
      → Run (DecisionPipeline M W) (Executed W)
  open_polled c s (Run.raised e b) p = Run.raised e (record p { broker = b })
  open_polled c s (Run.done b (o, none)) p = give_up o (record p { broker = b })
  open_polled c s (Run.done b (o, some fill)) p = open_position c s o fill (record p { broker = b })

  abbrev pub open_submitted :
      StrategyCandidate W
      → MarketSnapshot W
      → Result (PaperBroker W × MultiLegOrder W)
      → DecisionPipeline M W
      → Run (DecisionPipeline M W) (Executed W)
  open_submitted c s (err e) p = Run.raised (Failure.broker_error e) p
  open_submitted c s (ok (b, working)) p =
      open_polled c s (poll_until p.max_poll_attempts s working b) p

  abbrev pub open_built :
      StrategyCandidate W
      → MarketSnapshot W
      → Built W
      → DecisionPipeline M W
      → Run (DecisionPipeline M W) (Executed W)
  open_built c s (refused e) p = Run.raised (Failure.order_error e) p
  open_built c s (built order) p = open_submitted c s (submit order p.broker) (issue p)

  unfoldable pub execute :
      StrategyCandidate W
      → RiskDecision W Veto
      → MarketSnapshot W
      → DecisionPipeline M W
      → Run (DecisionPipeline M W) (Executed W)
  execute c risk s p =
      open_built c s (build_open_order c.strategy c.entry_price risk s.timestamp (next_id p)) p

  -- `_broker_state`
  unfoldable pub broker_state : DecisionPipeline M W → BrokerState W (Discrepancy W)
  broker_state p =
      apply_to_broker_state (state p.broker)
        (reconcile (open_positions p.portfolio) (broker_positions p.broker))

  -- `reset`, with the models as they are after their own `reset`.
  abbrev pub reset_pipeline : M → DecisionPipeline M W → DecisionPipeline M W
  reset_pipeline fresh p = record p { models = fresh; portfolio = [] }
