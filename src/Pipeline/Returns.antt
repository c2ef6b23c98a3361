-- ===== src/Pipeline/Returns.antt =====
-- `_close_position` and `_execute` return, for a connected broker and new identifiers.
use iron_spyder.Prelude.{
  ℕ, suc, ◌≡◌, refl, sym, ap, ◌∙◌, inl, inr, true, Option, none, some, arith, Option-cases,
}
use iron_spyder.Float.{Float}
use iron_spyder.Domain.Enums.{ExitReason}
use iron_spyder.Domain.Market.{MarketSnapshot}
use iron_spyder.Domain.Strategy.{StrategyCandidate, Strategy}
use iron_spyder.Domain.Execution.{MultiLegOrder, RiskDecision, Fill, Position, is_terminal, closed}
use iron_spyder.Risk.Engine.Checks.{Veto}
use iron_spyder.Execution.Orders.{built, build_open_order, build_close_order}
use iron_spyder.Execution.Manager.{exit_price, build_exit_order, realized_pnl_at, PositionManager}
use iron_spyder.Execution.PaperBroker.{
  PaperBroker, ok, submit, cancel, register_position, settle_position,
}
use iron_spyder.Pipeline.{
  Run, Entry, DecisionPipeline, Executed, poll_until, next_id, issue, settle_close, close_position,
  close_polled, close_submitted, close_with, give_up_with, give_up, open_position, open_polled,
  open_submitted, open_built, execute,
}
use iron_spyder.Prelude.{ltb, ◌≤◌}
use iron_spyder.Execution.PaperBroker.{lookup}
use mathlib.Core.Path.{subst}
use iron_spyder.Pipeline.Waiting.{
  IsDone, if-IsDone, picked, passed, Polls, poll_until-IsDone, submit-ok,
}
use iron_spyder.Pipeline.Unraised.{cancel-ok, IsReady, IsReady-after, Ready, persist-IsDone}

module _ {W : Type 0} ⦃f : Float W⦄ where
  build_exit_order-id :
      (m : PositionManager W) (x : Position W) (s : MarketSnapshot W) (id : ℕ) (o : MultiLegOrder W)
      → build_exit_order m x s none id ≡ some o
      → o.order_id ≡ id
  unfolding build_exit_order build_close_order
  build_exit_order-id m x s id o h = elim (Option-cases (exit_price m x s)) [
    | inl missing ↦ cc (rw (missing, build_exit_order) at h)
    | inr (price, found) ↦ sym (ap id_of (rw (found, build_exit_order) at h))
  ]
    where
      id_of : Option (MultiLegOrder W) → ℕ
      id_of none = id
      id_of (some y) = y.order_id

  build_open_order-built :
      {R : Type 0} (strategy : Strategy W) (price : W) (risk : RiskDecision W R) (now id : ℕ)
      → risk.approved ≡ true
      → 1 ≤ risk.max_contracts
      → (o : MultiLegOrder W) × (build_open_order strategy price risk now id ≡ built o)
        × (o.order_id ≡ id)
  unfolding build_open_order
  build_open_order-built strategy price risk now id approved some_contracts = (
    _,
    picked risk.approved _ _ approved ∙ passed (ltb risk.max_contracts 1) _ _ (ground arith),
    refl,
  )

module _ {M W : Type 0} ⦃f : Float W⦄ where
  open f use {minus, negate}

  module _ (p : DecisionPipeline M W) (v : IsReady p) where
    -- The polls of a new order with the next identifier.
    sent_lem :
        (s : MarketSnapshot W) (o : MultiLegOrder W)
        → o.order_id ≡ next_id p
        → (b : PaperBroker W) × (w : MultiLegOrder W) × (submit o p.broker ≡ ok (b, w))
          × Polls (next_id p) p.broker b
          × (w.order_id ≡ next_id p)
    sent_lem s o own =
        let new : lookup o.order_id p.broker.orders ≡ none =
          ap (λ j. lookup j p.broker.orders) own ∙ v.fresh p.issued (omega arith) in
        let (b, w, sent, polls, same) = submit-ok o p.broker v.connected new in
        (b, w, sent, subst (λ j. Polls j p.broker b) own polls, same ∙ own)

    close_polled-IsDone :
        (x : Position W) (s : MarketSnapshot W) (reason : ExitReason)
        (r : Run (PaperBroker W) (MultiLegOrder W × Option (Fill W)))
        → IsDone (λ b y. Polls (next_id p) p.broker b × (y.0.order_id ≡ next_id p)) r
        → IsDone Ready (close_polled x s reason r (issue p))
    unfolding settle_close settle_position
    close_polled-IsDone x s reason (Run.raised e b) h = absurd h
    close_polled-IsDone x s reason (Run.done b (o, none)) (h, _) = IsReady-after p b v h
    close_polled-IsDone x s reason (Run.done b (o, some fill)) (h, _) =
        let price = negate o.limit_price in
        let pnl = minus (realized_pnl_at x price) fill.commission in
        let shut = closed x s.timestamp pnl reason in
        persist-IsDone (Entry.recorded_trade shut price) (some shut) _ (IsReady-after p b v h)

    close_with-IsDone :
        (x : Position W) (s : MarketSnapshot W) (reason : ExitReason) (o : Option (MultiLegOrder W))
        → ((y : MultiLegOrder W) → o ≡ some y → y.order_id ≡ next_id p)
        → IsDone Ready (close_with x s reason o p)
    close_with-IsDone x s reason none own = v
    close_with-IsDone x s reason (some o) own =
        let (b, w, sent, polls, _) = sent_lem s o (own o refl) in
        subst (λ r. IsDone Ready (close_submitted x s reason o r (issue p))) (sym sent)
          (close_polled-IsDone x s reason (poll_until p.max_poll_attempts s o b)
            (poll_until-IsDone p.max_poll_attempts s o (next_id p) p.broker b (own o refl) polls))

    pub close_position-IsDone :
        (x : Position W) (s : MarketSnapshot W) (reason : ExitReason)
        → IsDone Ready (close_position x s reason p)
    unfolding close_position
    close_position-IsDone x s reason =
        close_with-IsDone x s reason (build_exit_order p.manager x s none (next_id p))
          (build_exit_order-id p.manager x s (next_id p))

    give_up-IsDone :
        (o : MultiLegOrder W) (b : PaperBroker W)
        → Polls (next_id p) p.broker b
        → o.order_id ≡ next_id p
        → IsDone Ready (give_up o (record p { issued = suc p.issued; broker = b }))
    unfolding give_up
    give_up-IsDone o b h own =
        let q : DecisionPipeline M W = record p { issued = suc p.issued; broker = b } in
        let (b', o', done, polls) = cancel-ok (next_id p) p.broker b h in
        let cancelled : cancel o.order_id b ≡ ok (b', o') = ap (λ j. cancel j b) own ∙ done in
        if-IsDone Ready (is_terminal o) _ _ (IsReady-after p b v h) (
          subst (λ r. IsDone (Ready {A = Executed W}) (give_up_with r q)) (sym cancelled)
            (IsReady-after p b' v polls))

    open_polled-IsDone :
        (c : StrategyCandidate W) (s : MarketSnapshot W)
        (r : Run (PaperBroker W) (MultiLegOrder W × Option (Fill W)))
        → IsDone (λ b y. Polls (next_id p) p.broker b × (y.0.order_id ≡ next_id p)) r
        → IsDone Ready (open_polled c s r (issue p))
    unfolding open_position register_position
    open_polled-IsDone c s (Run.raised e b) h = absurd h
    open_polled-IsDone c s (Run.done b (o, none)) (h, own) = give_up-IsDone o b h own
    open_polled-IsDone c s (Run.done b (o, some fill)) (h, _) =
        let w = IsReady-after p b v h in
        record {
          connected = w.connected;
          fresh = λ k later. w.fresh k (omega (arith, later));
          injective = w.injective;
          recorded = w.recorded;
        }

    -- The decision is approved for at least one contract.
    pub execute-IsDone :
        (c : StrategyCandidate W) (risk : RiskDecision W Veto) (s : MarketSnapshot W)
        → risk.approved ≡ true
        → 1 ≤ risk.max_contracts
        → IsDone Ready (execute c risk s p)
    unfolding execute
    execute-IsDone c risk s approved some_contracts =
        let (o, made, own) =
          build_open_order-built c.strategy c.entry_price risk s.timestamp (next_id p) approved
            some_contracts in
        let (b, w, sent, polls, same) = sent_lem s o own in
        subst (λ y. IsDone Ready (open_built c s y p)) (sym made)
          (subst (λ r. IsDone Ready (open_submitted c s r (issue p))) (sym sent)
            (open_polled-IsDone c s (poll_until p.max_poll_attempts s w b)
              (poll_until-IsDone p.max_poll_attempts s w (next_id p) p.broker b same polls)))
