-- ===== src/Pipeline/Preserved.antt =====
-- Closing and opening a position keep the two books in step, whatever is raised.
use iron_spyder.Prelude.{
  All, ℕ, ◌≡◌, refl, ◌∙◌, inl, inr, Option, none, some, List, [], ◌∷◌, Bool-cases,
}
use iron_spyder.Float.{Float}
use iron_spyder.Domain.Enums.{ExitReason}
use iron_spyder.Domain.Market.{MarketSnapshot}
use iron_spyder.Domain.Strategy.{StrategyCandidate}
use iron_spyder.Domain.Execution.{MultiLegOrder, RiskDecision, Fill, Position, is_terminal, closed}
use iron_spyder.Risk.Portfolio.{Portfolio, replace_position}
use iron_spyder.Risk.Engine.Checks.{Veto}
use iron_spyder.Execution.Orders.{Built, built, refused}
use iron_spyder.Execution.Manager.{build_exit_order, realized_pnl_at}
use iron_spyder.Execution.PaperBroker.{
  PaperBroker, Result, ok, err, submit, cancel, register_position, settle_position,
}
use iron_spyder.Pipeline.{
  Run, Entry, DecisionPipeline, poll_until, persist_entry, next_id, issue, settled, settle_close,
  close_position, close_polled, close_submitted, close_with, give_up_with, give_up, open_position,
  open_polled, open_submitted, open_built, execute,
}
use iron_spyder.Pipeline.Mirror.{Absent, Held, Held-replace}
use iron_spyder.Pipeline.Frames.{
  Leaves, if-Leaves, Leaves-map, Keeps, submit-Keeps, cancel-Keeps, poll_until-positions,
}
use iron_spyder.Pipeline.InStep.{InStep, InStep-suc, InStep-settle, InStep-add}

module _ {W : Type 0} where
  abbrev pub HeldAll : List (Position W) → Portfolio W → Type 0
  HeldAll xs ps = All (λ x. Held x ps) xs

  pub HeldAll-replace :
      (xs : List (Position W)) (id : ℕ) (c : Position W) (ps : Portfolio W)
      → Absent id xs
      → HeldAll xs ps
      → HeldAll xs (replace_position id c ps)
  HeldAll-replace [] id c ps a h = tt
  HeldAll-replace (x ∷ xs) id c ps (other, a) (own, h) =
      (Held-replace x c id ps other own, HeldAll-replace xs id c ps a h)

module _ {M W : Type 0} where
  -- The books are in step, and the positions `xs` are still in them.
  abbrev pub Stays : List (Position W) → DecisionPipeline M W → Type 0
  Stays xs p = InStep p.uuids p.issued p.portfolio p.broker.positions × HeldAll xs p.portfolio

  with_broker :
      (xs : List (Position W)) (p : DecisionPipeline M W) (b : PaperBroker W)
      → b.positions ≡ p.broker.positions
      → Stays xs p
      → Stays xs (record p { broker = b })
  with_broker xs p b e (v, h) = (rw e v, h)

module _ {M W : Type 0} ⦃f : Float W⦄ where
  open f use {minus, negate}

  issue-Stays :
      (xs : List (Position W)) (p : DecisionPipeline M W) → Stays xs p → Stays xs (issue p)
  issue-Stays xs p (v, h) = (InStep-suc p.uuids p.issued p.portfolio p.broker.positions v, h)

  pub persist-Stays :
      {A : Type 0} (xs : List (Position W)) (e : Entry W) (a : A) (p : DecisionPipeline M W)
      → Stays xs p
      → Leaves (Stays xs) (persist_entry e a p)
  unfolding persist_entry
  persist-Stays xs e a p h =
      if-Leaves (Stays xs) p.persist _ _ (if-Leaves (Stays xs) (p.takes p.writes) _ _ h h) h

  module _ (x : Position W) (xs : List (Position W)) (other : Absent x.position_id xs) where
    settle_close-Stays :
        (s : MarketSnapshot W) (reason : ExitReason) (o : MultiLegOrder W) (fill : Fill W)
        (p : DecisionPipeline M W)
        → Held x p.portfolio
        → Stays xs p
        → Leaves (Stays xs) (settle_close x s reason o fill p)
    unfolding settle_close settle_position
    settle_close-Stays s reason o fill p own (v, h) =
        let price = negate o.limit_price in
        let pnl = minus (realized_pnl_at x price) fill.commission in
        let shut = closed x s.timestamp pnl reason in
        persist-Stays xs (Entry.recorded_trade shut price) (some shut) (settled x shut pnl p) (
          InStep-settle p.uuids p.issued p.portfolio p.broker.positions x shut refl own v,
          HeldAll-replace xs x.position_id shut p.portfolio other h,
        )

    close_polled-Stays :
        (s : MarketSnapshot W) (reason : ExitReason)
        (r : Run (PaperBroker W) (MultiLegOrder W × Option (Fill W))) (p : DecisionPipeline M W)
        → Leaves (λ b. b.positions ≡ p.broker.positions) r
        → Held x p.portfolio
        → Stays xs p
        → Leaves (Stays xs) (close_polled x s reason r p)
    close_polled-Stays s reason (Run.raised e b) p kept own h = with_broker xs p b kept h
    close_polled-Stays s reason (Run.done b (o, none)) p kept own h = with_broker xs p b kept h
    close_polled-Stays s reason (Run.done b (o, some fill)) p kept own h =
        settle_close-Stays s reason o fill (record p { broker = b }) own (with_broker xs p b kept h)

    close_submitted-Stays :
        (s : MarketSnapshot W) (reason : ExitReason) (o : MultiLegOrder W)
        (r : Result (PaperBroker W × MultiLegOrder W)) (p : DecisionPipeline M W)
        → Keeps (λ y. y.0) p.broker r
        → Held x p.portfolio
        → Stays xs p
        → Leaves (Stays xs) (close_submitted x s reason o r p)
    close_submitted-Stays s reason o (err e) p kept own h = h
    close_submitted-Stays s reason o (ok (b, w)) p kept own h =
        close_polled-Stays s reason (poll_until p.max_poll_attempts s o b) p
          (Leaves-map _ _ (poll_until p.max_poll_attempts s o b) (λ b' e. e ∙ kept)
            (poll_until-positions p.max_poll_attempts s o b))
          own h

    close_with-Stays :
        (s : MarketSnapshot W) (reason : ExitReason) (o : Option (MultiLegOrder W))
        (p : DecisionPipeline M W)
        → Held x p.portfolio
        → Stays xs p
        → Leaves (Stays xs) (close_with x s reason o p)
    close_with-Stays s reason none p own h = h
    close_with-Stays s reason (some o) p own h =
        close_submitted-Stays s reason o (submit o p.broker) (issue p) (submit-Keeps o p.broker) own
          (issue-Stays xs p h)

    pub close_position-Stays :
        (s : MarketSnapshot W) (reason : ExitReason) (p : DecisionPipeline M W)
        → Held x p.portfolio
        → Stays xs p
        → Leaves (Stays xs) (close_position x s reason p)
    unfolding close_position
    close_position-Stays s reason p own h =
        close_with-Stays s reason (build_exit_order p.manager x s none (next_id p)) p own h

  abbrev pub IsInStep : DecisionPipeline M W → Type 0
  IsInStep p = InStep p.uuids p.issued p.portfolio p.broker.positions

  give_up_with-IsInStep :
      (r : Result (PaperBroker W × MultiLegOrder W)) (p : DecisionPipeline M W)
      → Keeps (λ y. y.0) p.broker r
      → IsInStep p
      → Leaves IsInStep (give_up_with r p)
  give_up_with-IsInStep (err e) p kept v = v
  give_up_with-IsInStep (ok (b, o)) p kept v = rw kept v

  give_up-IsInStep :
      (o : MultiLegOrder W) (p : DecisionPipeline M W) → IsInStep p → Leaves IsInStep (give_up o p)
  unfolding give_up
  give_up-IsInStep o p v = elim (Bool-cases (is_terminal o)) [
    | inl over ↦ rw (over, Leaves) v
    | inr going ↦
        rw going (
          give_up_with-IsInStep (cancel o.order_id p.broker) p (cancel-Keeps o.order_id p.broker) v)
  ]

  open_polled-IsInStep :
      (c : StrategyCandidate W) (s : MarketSnapshot W)
      (r : Run (PaperBroker W) (MultiLegOrder W × Option (Fill W))) (p : DecisionPipeline M W)
      → Leaves (λ b. b.positions ≡ p.broker.positions) r
      → IsInStep p
      → Leaves IsInStep (open_polled c s r p)
  unfolding open_position register_position
  open_polled-IsInStep c s (Run.raised e b) p kept v = rw kept v
  open_polled-IsInStep c s (Run.done b (o, none)) p kept v =
      give_up-IsInStep o (record p { broker = b }) (rw kept v)
  open_polled-IsInStep c s (Run.done b (o, some fill)) p kept v =
      InStep-add p.uuids p.issued p.portfolio b.positions _ refl (rw kept v)

  open_submitted-IsInStep :
      (c : StrategyCandidate W) (s : MarketSnapshot W)
      (r : Result (PaperBroker W × MultiLegOrder W)) (p : DecisionPipeline M W)
      → Keeps (λ y. y.0) p.broker r
      → IsInStep p
      → Leaves IsInStep (open_submitted c s r p)
  open_submitted-IsInStep c s (err e) p kept v = v
  open_submitted-IsInStep c s (ok (b, w)) p kept v =
      open_polled-IsInStep c s (poll_until p.max_poll_attempts s w b) p
        (Leaves-map _ _ (poll_until p.max_poll_attempts s w b) (λ b' e. e ∙ kept)
          (poll_until-positions p.max_poll_attempts s w b))
        v

  open_built-IsInStep :
      (c : StrategyCandidate W) (s : MarketSnapshot W) (o : Built W) (p : DecisionPipeline M W)
      → IsInStep p
      → Leaves IsInStep (open_built c s o p)
  open_built-IsInStep c s (refused e) p v = v
  open_built-IsInStep c s (built o) p v =
      open_submitted-IsInStep c s (submit o p.broker) (issue p) (submit-Keeps o p.broker)
        (InStep-suc p.uuids p.issued p.portfolio p.broker.positions v)

  pub execute-IsInStep :
      (c : StrategyCandidate W) (risk : RiskDecision W Veto) (s : MarketSnapshot W)
      (p : DecisionPipeline M W)
      → IsInStep p
      → Leaves IsInStep (execute c risk s p)
  unfolding execute
  execute-IsInStep c risk s p v = open_built-IsInStep c s _ p v
