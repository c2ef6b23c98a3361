-- ===== src/Pipeline/Reconciled.antt =====
-- Whatever passes follow, the broker state that the risk engine reads is reconciled.
use iron_spyder.Prelude.{
  ℕ, ◌≡◌, refl, sym, ap, ◌∙◌, inl, inr, true, none, some, List, [], ◌∷◌, is_empty, Option-cases,
}
use iron_spyder.Prelude.Int.{eqb_ℤ_iff}
use iron_spyder.Float.{Float}
use iron_spyder.Domain.Enums.{ExitReason}
use iron_spyder.Domain.Market.{MarketSnapshot}
use iron_spyder.Domain.Execution.{Position}
use iron_spyder.Risk.Portfolio.{Portfolio, open_positions}
use iron_spyder.Execution.PaperBroker.{broker_positions, open_values, disconnect, reconnect}
use iron_spyder.Execution.Reconciliation.{
  LegKey, Counter, count, tally, tally_legs, leg_quantities, drop_zero, classify, reconcile,
  apply_to_broker_state,
}
use iron_spyder.Pipeline.{Run, DecisionPipeline, broker_state}
use iron_spyder.Pipeline.Mirror.{Mirrors}
use iron_spyder.Pipeline.Frames.{Leaves}
use iron_spyder.Pipeline.Preserved.{IsInStep}
use iron_spyder.Pipeline.Cycle.{Desk, step, force_close_all}
use iron_spyder.Pipeline.Passes.{step-IsInStep, force_close_all-IsInStep}

-- What happens to a pipeline: passes, forced closes, and a connection that comes and goes.
pub data Event (M W : Type 0) : Type 0 where
  pass : Desk M W → MarketSnapshot W → Event M W
  forced : ExitReason → MarketSnapshot W → Event M W
  goes_down comes_up : Event M W

abbrev pub left : {S A : Type 0} → Run S A → S
left (Run.done s a) = s
left (Run.raised e s) = s

Leaves-left : {S A : Type 0} (P : S → Type 0) (r : Run S A) → Leaves P r → P (left r)
Leaves-left P (Run.done s a) h = h
Leaves-left P (Run.raised e s) h = h

module _ {M W : Type 0} ⦃f : Float W⦄ where
  -- The pipeline after an event, also if it raised.
  unfoldable pub after_event : Event M W → DecisionPipeline M W → DecisionPipeline M W
  after_event (Event.pass d s) p = left (step d s p)
  after_event (Event.forced reason s) p = left (force_close_all reason s p)
  after_event Event.goes_down p = record p { broker = disconnect p.broker }
  after_event Event.comes_up p = record p { broker = reconnect p.broker }

  unfoldable pub after_events : List (Event M W) → DecisionPipeline M W → DecisionPipeline M W
  after_events [] p = p
  after_events (e ∷ es) p = after_events es (after_event e p)

  after_event-IsInStep :
      (e : Event M W) (p : DecisionPipeline M W) → IsInStep p → IsInStep (after_event e p)
  unfolding after_event disconnect reconnect
  after_event-IsInStep (Event.pass d s) p v =
      Leaves-left IsInStep (step d s p) (step-IsInStep d s p v)
  after_event-IsInStep (Event.forced reason s) p v =
      Leaves-left IsInStep (force_close_all reason s p) (force_close_all-IsInStep reason s p v)
  after_event-IsInStep Event.goes_down p v = v
  after_event-IsInStep Event.comes_up p v = v

  after_events-IsInStep :
      (es : List (Event M W)) (p : DecisionPipeline M W) → IsInStep p → IsInStep (after_events es p)
  unfolding after_events
  after_events-IsInStep [] p v = v
  after_events-IsInStep (e ∷ es) p v =
      after_events-IsInStep es (after_event e p) (after_event-IsInStep e p v)

module _ {W : Type 0} ⦃f : Float W⦄ where
  tally-Mirrors :
      (ps : Portfolio W) (m : List (ℕ × Position W)) (totals : Counter W)
      → Mirrors ps m
      → tally (open_positions ps) totals ≡ tally (open_values m) totals
  unfolding tally open_positions open_values
  tally-Mirrors [] [] totals r = refl
  tally-Mirrors [] (_ ∷ _) totals r = absurd r
  tally-Mirrors (p ∷ ps) [] totals r = absurd r
  tally-Mirrors (p ∷ ps) ((k, q) ∷ m) totals ((key, like), r) = elim (Option-cases p.closed_at) [
    | inl live ↦
        let other : q.closed_at ≡ none = sym like.same_closing ∙ live in
        rw (live, other, like.same_contracts, like.same_strategy)
          (tally-Mirrors ps m (tally_legs q.contracts q.strategy.legs totals) r)
    | inr (at, shut) ↦
        let other : q.closed_at ≡ some at = sym like.same_closing ∙ shut in
        rw (shut, other) (tally-Mirrors ps m totals r)
  ]

  -- A book that agrees with itself gives no discrepancy.
  classify-same : (c : Counter W) (ks : List (LegKey W)) → classify c c ks ≡ classify c c []
  unfolding classify
  classify-same c [] = refl
  classify-same c (k ∷ ks) = rw ((eqb_ℤ_iff (count k c) (count k c)).1 refl) (classify-same c ks)

  leg_quantities-tally :
      (xs ys : List (Position W))
      → tally xs [] ≡ tally ys []
      → leg_quantities xs ≡ leg_quantities ys
  unfolding leg_quantities
  leg_quantities-tally xs ys e = ap drop_zero e

  reconcile-same :
      (xs ys : List (Position W)) → tally xs [] ≡ tally ys [] → (reconcile xs ys).discrepancies ≡ []
  unfolding reconcile classify
  reconcile-same xs ys e =
      let same : leg_quantities xs ≡ leg_quantities ys = leg_quantities-tally xs ys e in
      rw (same, classify-same) refl

module _ {M W : Type 0} ⦃f : Float W⦄ where
  broker_state-IsInStep :
      (p : DecisionPipeline M W)
      → IsInStep p
      → ((broker_state p).reconciled ≡ true) × ((broker_state p).discrepancies ≡ [])
  unfolding broker_state apply_to_broker_state broker_positions
  broker_state-IsInStep p v =
      let clean =
        reconcile-same (open_positions p.portfolio) (open_values p.broker.positions)
          (tally-Mirrors p.portfolio p.broker.positions [] v.mirrored) in
      (ap is_empty clean, clean)

  -- From books that are in step, whatever passes and forced closes follow, on whatever market, forecasts
  -- and random numbers, whether they raise or not, and whenever the connection comes and goes: the
  -- broker state that the risk engine is given is reconciled, without a discrepancy. The identifiers of
  -- `uuid4` are distinct.
  pub after_events-reconciled :
      (es : List (Event M W)) (p : DecisionPipeline M W)
      → IsInStep p
      → ((broker_state (after_events es p)).reconciled ≡ true)
        × ((broker_state (after_events es p)).discrepancies ≡ [])
  after_events-reconciled es p v =
      broker_state-IsInStep (after_events es p) (after_events-IsInStep es p v)
