-- ===== src/Execution/Orders/Opening.antt =====
-- From the verdict of the risk engine to the opening order.
use mathlib.Core.Option.{some-injective}
use mathlib.Core.Path.{subst}
use iron_spyder.Prelude.{
  ℕ, ◌≤◌, ◌≡◌, refl, ◌∙◌, sym, ap, inl, inr, true, Option, none, some, arith, ltb, Bool-cases,
}
use iron_spyder.Float.{Float, IsOrdered}
use iron_spyder.Domain.Enums.{OrderIntent}
use iron_spyder.Domain.Market.{MarketSnapshot, ForecastBundle}
use iron_spyder.Domain.Strategy.{Strategy, StrategyCandidate}
use iron_spyder.Domain.Execution.{RiskDecision, MultiLegOrder, BrokerState}
use iron_spyder.Execution.Orders.{Built, built, refused, build_open_order}
use iron_spyder.Risk.Portfolio.{Portfolio}
use iron_spyder.Risk.Engine.Checks.{RiskEngine}
use iron_spyder.Risk.Engine.{evaluate, sizing_for, available_risk}
use iron_spyder.Risk.Engine.Approval.{IsClear, IsSound, evaluate-IsSound}
use iron_spyder.Risk.Sizing.Bounds.{IsWithin}

module _ {W : Type 0} ⦃f : Float W⦄ where
  -- What an opening order takes from the verdict.
  pub record IsOpening {R : Type 0} (strategy : Strategy W) (decision : RiskDecision W R)
      (o : MultiLegOrder W) : Type 0 where
    pub approved : decision.approved ≡ true
    pub same_strategy : o.strategy ≡ strategy
    pub same_contracts : o.contracts ≡ decision.max_contracts
    pub some_contracts : 1 ≤ o.contracts
    pub opens : o.intent ≡ OrderIntent.opening
    pub unfilled : o.filled_contracts ≡ 0
    pub fresh : o.reprice_attempts ≡ 0

  order_of : Built W → Option (MultiLegOrder W)
  order_of (built o) = some o
  order_of (refused _) = none

  build_open_order-IsOpening :
      {R : Type 0} (strategy : Strategy W) (price : W) (decision : RiskDecision W R) (now id : ℕ)
      (o : MultiLegOrder W)
      → build_open_order strategy price decision now id ≡ built o
      → IsOpening strategy decision o
  unfolding build_open_order order_of
  build_open_order-IsOpening strategy price decision now id o h =
      elim (Bool-cases decision.approved) [
        | inr vetoed ↦ cc (rw (vetoed, build_open_order) at h)
        | inl approved ↦ elim (Bool-cases (ltb decision.max_contracts 1)) [
          | inl empty ↦ cc (rw (approved, empty, build_open_order) at h)
          | inr sized ↦
              let made =
                some-injective _ _ (ap order_of (rw (approved, sized, build_open_order) at h)) in
              rw (← made) (record {
                approved = approved;
                same_strategy = refl;
                same_contracts = refl;
                some_contracts = ground arith;
                opens = refl;
                unfilled = refl;
                fresh = refl;
              })
        ]
      ]

module _ {W D : Type 0} ⦃f : Float W⦄ (laws : IsOrdered f) where
  -- An opening order built from the engine's own verdict on a candidate is for that candidate's strategy
  -- and for at least one contract; it exists only where `evaluate` approved, with no kill switch active,
  -- a healthy account and a sound candidate; and its contracts are those of a sizing within every cap.
  pub build_open_order-IsWithin :
      (e : RiskEngine W) (c : StrategyCandidate W) (s : MarketSnapshot W) (fc : ForecastBundle W)
      (ps : Portfolio W) (b : BrokerState W D) (now id : ℕ) (o : MultiLegOrder W)
      → let (after, (decision, _)) = evaluate e (some c) s fc ps b in
        build_open_order c.strategy c.entry_price decision now id ≡ built o
        → IsOpening c.strategy decision o
          × IsClear after s fc b
          × IsSound after c ps b
          × IsWithin c b.equity after.config
              (some (available_risk after ps b))
              (sizing_for after c fc ps b)
          × (o.contracts ≡ (sizing_for after c fc ps b).contracts)
  build_open_order-IsWithin e c s fc ps b now id o h =
      let (after, (decision, _)) = evaluate e (some c) s fc ps b in
      let opening = build_open_order-IsOpening c.strategy c.entry_price decision now id o h in
      let (k, same, clear, sound, within, count, risk) =
        evaluate-IsSound laws e (some c) s fc ps b opening.approved in
      let facts = λ (x : StrategyCandidate W).
        IsSound after x ps b
        × IsWithin x b.equity after.config (some (available_risk after ps b))
            (sizing_for after x fc ps b)
        × (o.contracts ≡ (sizing_for after x fc ps b).contracts) in
      let (own, cap, size) =
        subst facts (sym (some-injective _ _ same))
          (sound, within, opening.same_contracts ∙ count) in
      (opening, clear, own, cap, size)
