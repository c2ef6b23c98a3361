-- ===== src/Pipeline/Passes.antt =====
-- Over whole passes the two books stay in step, and so the broker state that the risk engine reads is
-- reconciled.
use iron_spyder.Prelude.{
  ℕ, refl, inl, inr, Bool, Option, none, some, List, [], ◌∷◌, Bool-cases, Option-cases,
}
use iron_spyder.Float.{Float}
use iron_spyder.Domain.Enums.{ExitReason}
use iron_spyder.Domain.Market.{MarketSnapshot, ForecastBundle}
use iron_spyder.Domain.Strategy.{StrategyCandidate}
use iron_spyder.Domain.Execution.{RiskDecision, Position, BrokerState, is_open}
use iron_spyder.Execution.Reconciliation.{Discrepancy}
use iron_spyder.Risk.Portfolio.{Portfolio, open_positions, replace_position}
use iron_spyder.Risk.Engine.Checks.{Veto}
use iron_spyder.Risk.Sizing.{SizingResult}
use iron_spyder.Execution.Manager.{
  mark, exit_price, check_exit, ExitCheck-cases, ExitSignal, PositionManager,
}
use iron_spyder.Pipeline.{Run, Entry, DecisionPipeline, persist_entry, close_position, execute}
use iron_spyder.Pipeline.Mirror.{Like, Like-refl, Absent, Distinct, Held, Held-self, Held-Like}
use iron_spyder.Pipeline.Frames.{Leaves, Leaves-map, if-Leaves, Leaves-chain}
use iron_spyder.Pipeline.InStep.{InStep-mark}
use iron_spyder.Pipeline.Preserved.{
  HeldAll, HeldAll-replace, Stays, IsInStep, persist-Stays, close_position-Stays, execute-IsInStep,
}
use iron_spyder.Pipeline.Cycle.{
  Desk, Optimization, manage_from, manage_open_positions, locked, decide, decide_with, unlocked,
  step, step_with, risk_cap, decide_on_best, Quality, with_signal, with_closed, force_close_from,
  force_close_all,
}

module _ {W : Type 0} where
  Absent-open : (id : ℕ) (ps : Portfolio W) → Absent id ps → Absent id (open_positions ps)
  unfolding open_positions
  Absent-open id [] a = tt
  Absent-open id (p ∷ ps) (other, a) = elim (Bool-cases (is_open p)) [
    | inl live ↦ rw live (other, Absent-open id ps a)
    | inr shut ↦ rw shut (Absent-open id ps a)
  ]

  Distinct-open : (ps : Portfolio W) → Distinct ps → Distinct (open_positions ps)
  unfolding open_positions
  Distinct-open [] d = tt
  Distinct-open (p ∷ ps) (a, d) = elim (Bool-cases (is_open p)) [
    | inl live ↦ rw live (Absent-open p.position_id ps a, Distinct-open ps d)
    | inr shut ↦ rw shut (Distinct-open ps d)
  ]

  HeldAll-cons :
      (x : Position W) (xs : List (Position W)) (ps : Portfolio W)
      → HeldAll xs ps
      → HeldAll xs (x ∷ ps)
  HeldAll-cons x [] ps h = tt
  HeldAll-cons x (y ∷ ys) ps (own, h) = (inr own, HeldAll-cons x ys ps h)

  open-HeldAll : (ps : Portfolio W) → HeldAll (open_positions ps) ps
  unfolding open_positions
  open-HeldAll [] = tt
  open-HeldAll (p ∷ ps) = elim (Bool-cases (is_open p)) [
    | inl live ↦
        rw live (inl (Like-refl p), HeldAll-cons p (open_positions ps) ps (open-HeldAll ps))
    | inr shut ↦ rw shut (HeldAll-cons p (open_positions ps) ps (open-HeldAll ps))
  ]

module _ {W : Type 0} ⦃f : Float W⦄ where
  mark-Like : (m : PositionManager W) (x : Position W) (s : MarketSnapshot W) → Like x (mark m x s)
  unfolding mark
  mark-Like m x s = elim (Option-cases (exit_price m x s)) [
    | inl missing ↦ rw (missing, mark) (Like-refl x)
    | inr (price, found) ↦
        rw (found, mark)
          (record {
            same_id = refl;
            same_contracts = refl;
            same_strategy = refl;
            same_closing = refl;
          })
  ]

module _ {S W : Type 0} (P : S → Type 0) where
  with_signal-Leaves :
      (shut : Option (Position W)) (signal : ExitSignal W) (r : Run S (List (ExitSignal W)))
      → Leaves P r
      → Leaves P (with_signal shut signal r)
  with_signal-Leaves shut signal (Run.raised e q) h = h
  with_signal-Leaves none signal (Run.done q l) h = h
  with_signal-Leaves (some x) signal (Run.done q l) h = h

  with_closed-Leaves :
      (shut : Option (Position W)) (r : Run S (List (Position W)))
      → Leaves P r
      → Leaves P (with_closed shut r)
  with_closed-Leaves shut (Run.raised e q) h = h
  with_closed-Leaves none (Run.done q l) h = h
  with_closed-Leaves (some x) (Run.done q l) h = h

module _ {M W : Type 0} ⦃f : Float W⦄ where
  manage_from-IsInStep :
      (kill : Bool) (s : MarketSnapshot W) (xs : List (Position W)) (p : DecisionPipeline M W)
      → Distinct xs
      → Stays xs p
      → Leaves IsInStep (manage_from kill s xs p)
  unfolding manage_from
  manage_from-IsInStep kill s [] p d (v, h) = v
  manage_from-IsInStep kill s (x ∷ xs) p (a, d) (v, (own, h)) =
      let now = mark p.manager x s in
      let like = mark-Like p.manager x s in
      let ps = replace_position x.position_id now p.portfolio in
      let p' : DecisionPipeline M W = record p { portfolio = ps } in
      let kept : Stays xs p' = (
        InStep-mark p.uuids p.issued p.portfolio p.broker.positions x now like own v,
        HeldAll-replace xs x.position_id now p.portfolio a h,
      ) in
      let held : Held now ps = Held-self x now p.portfolio own in
      let others : Absent now.position_id xs = rw like.same_id at a in
      elim (ExitCheck-cases (check_exit p.manager now s none kill)) [
        | inl stay ↦ rw (stay, Leaves) (manage_from-IsInStep kill s xs p' d kept)
        | inr (inl lost) ↦ rw (lost, Leaves) kept.0
        | inr (inr (signal, exit)) ↦
            rw (exit, Leaves)
              (Leaves-chain (Stays xs) IsInStep (close_position now s signal.reason p') _
                (λ q left. left.0) (close_position-Stays now xs others s signal.reason p' held kept)
                (λ q shut left.
                  with_signal-Leaves IsInStep shut signal (manage_from kill s xs q)
                    (manage_from-IsInStep kill s xs q d left)))
      ]

  manage-IsInStep :
      (s : MarketSnapshot W) (p : DecisionPipeline M W)
      → IsInStep p
      → Leaves IsInStep (manage_open_positions s p)
  unfolding manage_open_positions
  manage-IsInStep s p v =
      manage_from-IsInStep _ s (open_positions p.portfolio) p (Distinct-open p.portfolio v.distinct)
        (v, open-HeldAll p.portfolio)

  persist-IsInStep :
      {A : Type 0} (e : Entry W) (a : A) (p : DecisionPipeline M W)
      → IsInStep p
      → Leaves IsInStep (persist_entry e a p)
  persist-IsInStep e a p v =
      Leaves-map (Stays []) IsInStep (persist_entry e a p) (λ q h. h.0)
        (persist-Stays [] e a p (v, tt))

  locked-IsInStep :
      (d : Desk M W) (s : MarketSnapshot W) (exits : List (ExitSignal W)) (p : DecisionPipeline M W)
      → IsInStep p
      → Leaves IsInStep (locked d s exits p)
  unfolding locked
  locked-IsInStep d s exits p v =
      persist-IsInStep _ _ (record p { models = (d.forecast p.models s).0 }) v

  decide-IsInStep :
      (s : MarketSnapshot W) (exits : List (ExitSignal W)) (fc : ForecastBundle W)
      (opt : Optimization W) (candidate : Option (StrategyCandidate W))
      (verdict : RiskDecision W Veto × Option (SizingResult W)) (p : DecisionPipeline M W)
      → IsInStep p
      → Leaves IsInStep (decide s exits fc opt candidate verdict p)
  unfolding decide
  decide-IsInStep s exits fc opt none (risk, sizing) p v = persist-IsInStep _ _ p v
  decide-IsInStep s exits fc opt (some c) (risk, sizing) p v =
      if-Leaves IsInStep risk.approved _ _
        (Leaves-chain IsInStep IsInStep (execute c risk s p) _ (λ q w. w)
          (execute-IsInStep c risk s p v) (λ q x w. persist-IsInStep _ _ q w))
        (persist-IsInStep _ _ p v)

  decide_on_best-IsInStep :
      (s : MarketSnapshot W) (exits : List (ExitSignal W)) (fc : ForecastBundle W)
      (opt : Optimization W) (b : BrokerState W (Discrepancy W)) (p : DecisionPipeline M W)
      → IsInStep p
      → Leaves IsInStep (decide_on_best s exits fc opt b p)
  unfolding decide_on_best
  decide_on_best-IsInStep s exits fc opt b p v =
      decide-IsInStep s exits fc opt _ _ (record p { risk_engine = _ }) v

  decide_with-IsInStep :
      (d : Desk M W) (s : MarketSnapshot W) (exits : List (ExitSignal W)) (fc : ForecastBundle W)
      (p : DecisionPipeline M W)
      → IsInStep p
      → Leaves IsInStep (decide_with d s exits fc p)
  unfolding decide_with
  decide_with-IsInStep d s exits fc p v = elim (Option-cases (d.optimize s fc (risk_cap fc p))) [
    | inl failed ↦ rw (failed, Leaves) v
    | inr (opt, ranked) ↦ rw (ranked, Leaves) (decide_on_best-IsInStep s exits fc opt _ p v)
  ]

  unlocked-IsInStep :
      (d : Desk M W) (s : MarketSnapshot W) (exits : List (ExitSignal W)) (p : DecisionPipeline M W)
      → IsInStep p
      → Leaves IsInStep (unlocked d s exits p)
  unfolding unlocked
  unlocked-IsInStep d s exits p v =
      let q : DecisionPipeline M W = record p { models = (d.forecast p.models s).0 } in
      elim (Option-cases (d.forecast p.models s).1) [
        | inl missing ↦ rw (missing, Leaves) v
        | inr (fc, found) ↦ rw (found, Leaves) (decide_with-IsInStep d s exits fc q v)
      ]

  step_with-IsInStep :
      (d : Desk M W) (given : MarketSnapshot W) (quality : Quality W) (p : DecisionPipeline M W)
      → IsInStep p
      → Leaves IsInStep (step_with d given quality p)
  unfolding step_with
  step_with-IsInStep d given quality p v =
      let s : MarketSnapshot W = record given { data_quality_score = quality.score } in
      Leaves-chain IsInStep IsInStep (manage_open_positions s p) _ (λ q w. w)
        (manage-IsInStep s p v)
        (λ q exits w.
          if-Leaves IsInStep quality.is_tradeable _ _ (unlocked-IsInStep d s exits q w)
            (locked-IsInStep d s exits q w))

  pub step-IsInStep :
      (d : Desk M W) (given : MarketSnapshot W) (p : DecisionPipeline M W)
      → IsInStep p
      → Leaves IsInStep (step d given p)
  unfolding step
  step-IsInStep d given p v = elim (Option-cases (d.assess given)) [
    | inl failed ↦ rw (failed, Leaves) v
    | inr (quality, assessed) ↦ rw (assessed, Leaves) (step_with-IsInStep d given quality p v)
  ]

  force_close_from-IsInStep :
      (reason : ExitReason) (s : MarketSnapshot W) (xs : List (Position W))
      (p : DecisionPipeline M W)
      → Distinct xs
      → Stays xs p
      → Leaves IsInStep (force_close_from reason s xs p)
  unfolding force_close_from
  force_close_from-IsInStep reason s [] p d (v, h) = v
  force_close_from-IsInStep reason s (x ∷ xs) p (a, d) (v, (own, h)) =
      let now = mark p.manager x s in
      let like = mark-Like p.manager x s in
      let others : Absent now.position_id xs = rw like.same_id at a in
      Leaves-chain (Stays xs) IsInStep (close_position now s reason p) _ (λ q left. left.0)
        (close_position-Stays now xs others s reason p (Held-Like x now p.portfolio like own)
          (v, h))
        (λ q shut left.
          with_closed-Leaves IsInStep shut (force_close_from reason s xs q)
            (force_close_from-IsInStep reason s xs q d left))

  pub force_close_all-IsInStep :
      (reason : ExitReason) (s : MarketSnapshot W) (p : DecisionPipeline M W)
      → IsInStep p
      → Leaves IsInStep (force_close_all reason s p)
  unfolding force_close_all
  force_close_all-IsInStep reason s p v =
      force_close_from-IsInStep reason s (open_positions p.portfolio) p
        (Distinct-open p.portfolio v.distinct) (v, open-HeldAll p.portfolio)
