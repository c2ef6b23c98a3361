-- ===== src/Pipeline/Complete.antt =====
-- A whole pass returns, for a connected broker, new identifiers, and a desk and an audit store that raise nothing.
use iron_spyder.Prelude.{
  All, ◌≡◌, ◌≢◌, refl, inl, inr, Bool, true, Option, none, some, List, [], ◌∷◌, arith, Bool-cases,
  Option-cases,
}
use iron_spyder.Float.{Float}
use iron_spyder.Domain.Market.{MarketSnapshot, ForecastBundle}
use iron_spyder.Domain.Strategy.{StrategyCandidate}
use iron_spyder.Domain.Execution.{RiskDecision, Position, unrealized_pnl}
use iron_spyder.Risk.Portfolio.{Portfolio, open_positions, replace_position}
use iron_spyder.Risk.Engine.Checks.{Veto}
use iron_spyder.Risk.Sizing.{SizingResult}
use iron_spyder.Execution.Manager.{
  mark, check_exit, exit_price, exit_reason_at, reason_after, ExitSignal, ExitCheck,
  ExitCheck-cases, of_option, PositionManager,
}
use iron_spyder.Execution.Manager.Stops.{exposure_lem}
use iron_spyder.Execution.Reconciliation.{Discrepancy}
use iron_spyder.Prelude.Int.{ℤ}
use iron_spyder.Pipeline.{Run, DecisionPipeline, close_position, execute}
use iron_spyder.Pipeline.Cycle.{
  Desk, Optimization, manage_from, manage_open_positions, locked, decide, decide_with, unlocked,
  step, with_signal, step_with, risk_cap, decide_on_best, Quality,
}
use iron_spyder.Pipeline.Waiting.{IsDone, if-IsDone, if_true-IsDone, IsDone-chain}
use iron_spyder.Pipeline.Unraised.{IsReady, Ready, persist-IsDone}
use iron_spyder.Pipeline.Returns.{close_position-IsDone, execute-IsDone}
use iron_spyder.Risk.Engine.{evaluate, verdict, all_reasons, general_reasons, sizing_for}
use iron_spyder.Risk.Engine.Checks.{RiskEngine, candidate_reasons, portfolio_reasons}
use iron_spyder.Domain.Execution.{BrokerState}
use iron_spyder.Prelude.{is_empty, append-nil_right, when-nil, ◌≤◌}
use iron_spyder.Pipeline.{PipelineResult}

is_empty-nil : {A : Type 0} (xs : List A) → is_empty xs ≡ true → xs ≡ []
is_empty-nil [] h = refl
is_empty-nil (x ∷ xs) h = cc

module _ {W D : Type 0} ⦃f : Float W⦄ where
  all_reasons-sized :
      (e : RiskEngine W) (c : StrategyCandidate W) (s : MarketSnapshot W) (fc : ForecastBundle W)
      (ps : Portfolio W) (b : BrokerState W D)
      → all_reasons e c s fc ps b ≡ []
      → 1 ≤ (sizing_for e c fc ps b).contracts
  unfolding all_reasons
  all_reasons-sized e c s fc ps b h =
      let r1 = append-nil_right (general_reasons e s fc b) _ h in
      let r2 = append-nil_right (candidate_reasons e c) _ r1 in
      let r3 = append-nil_right (portfolio_reasons e c ps b) _ r2 in
      let sized = when-nil _ _ r3 in ground arith

  -- An approval is for at least one contract.
  verdict-sized :
      (e : RiskEngine W) (candidate : Option (StrategyCandidate W)) (s : MarketSnapshot W)
      (fc : ForecastBundle W) (ps : Portfolio W) (b : BrokerState W D)
      → (verdict e candidate s fc ps b).0.approved ≡ true
      → 1 ≤ (verdict e candidate s fc ps b).0.max_contracts
  verdict-sized e none s fc ps b h = cc
  verdict-sized e (some c) s fc ps b h =
      let sized = all_reasons-sized e c s fc ps b (is_empty-nil (all_reasons e c s fc ps b) h) in
      rw h sized

module _ {S W : Type 0} (P : S → Type 0) where
  with_signal-IsDone :
      (shut : Option (Position W)) (signal : ExitSignal W) (r : Run S (List (ExitSignal W)))
      → IsDone (λ q _. P q) r
      → IsDone (λ q _. P q) (with_signal shut signal r)
  with_signal-IsDone shut signal (Run.raised e q) h = absurd h
  with_signal-IsDone none signal (Run.done q l) h = h
  with_signal-IsDone (some x) signal (Run.done q l) h = h

-- The validators, the forecast engine and the optimizer raise nothing.
pub record IsWorking {M W : Type 0} (d : Desk M W) : Type 0 where
  pub assesses : (s : MarketSnapshot W) → (q : Quality W) × (d.assess s ≡ some q)
  pub forecasts :
      (m : M) (s : MarketSnapshot W) → (fc : ForecastBundle W) × ((d.forecast m s).1 ≡ some fc)
  pub ranks :
      (s : MarketSnapshot W) (fc : ForecastBundle W) (cap : W)
      → (opt : Optimization W) × (d.optimize s fc cap ≡ some opt)

of_option-ne_no_cutoff : {A : Type 0} (x : Option A) → of_option x ≢ ExitCheck.no_cutoff
of_option-ne_no_cutoff none h = cc
of_option-ne_no_cutoff (some a) h = cc

module _ {W : Type 0} ⦃f : Float W⦄ where
  open f use {of_minutes}

  -- The minutes before the expiry in the exit plan are a `timedelta`.
  abbrev pub IsTimed : Position W → Type 0
  IsTimed x = (cutoff : ℤ) × (of_minutes x.exit_plan.close_before_expiry_minutes ≡ some cutoff)

  mark-IsTimed :
      (m : PositionManager W) (x : Position W) (s : MarketSnapshot W)
      → IsTimed x
      → IsTimed (mark m x s)
  unfolding mark
  mark-IsTimed m x s h = elim (Option-cases (exit_price m x s)) [
    | inl missing ↦ rw (missing, mark) h
    | inr (price, found) ↦ rw (found, mark) h
  ]

  exit_reason-IsTimed :
      (m : PositionManager W) (x : Position W) (s : MarketSnapshot W) (kill : Bool) (pnl : W)
      → IsTimed x
      → exit_reason_at m x s none kill pnl ≢ ExitCheck.no_cutoff
  unfolding exit_reason_at
  exit_reason-IsTimed m x s kill pnl (cutoff, timed) h =
      let (exposed, known) = exposure_lem m x s cutoff timed in
      elim (Bool-cases kill) [
        | inl on ↦ cc (rw (on, exit_reason_at) at h)
        | inr off ↦
            of_option-ne_no_cutoff (reason_after exposed x s none pnl)
              (rw (off, known, exit_reason_at) at h)
      ]

  check_exit-IsTimed :
      (m : PositionManager W) (x : Position W) (s : MarketSnapshot W) (kill : Bool)
      → IsTimed x
      → check_exit m x s none kill ≢ ExitCheck.no_cutoff
  unfolding check_exit
  check_exit-IsTimed m x s kill timed h =
      let pnl = unrealized_pnl (mark m x s) in
      elim (ExitCheck-cases (exit_reason_at m x s none kill pnl)) [
        | inl stay ↦ cc (rw (stay, check_exit) at h)
        | inr (inl lost) ↦ absurd (exit_reason-IsTimed m x s kill pnl timed lost)
        | inr (inr (reason, exit)) ↦ cc (rw (exit, check_exit) at h)
      ]

module _ {M W : Type 0} ⦃f : Float W⦄ where
  manage_from-IsDone :
      (kill : Bool) (s : MarketSnapshot W) (xs : List (Position W)) (p : DecisionPipeline M W)
      → All IsTimed xs
      → IsReady p
      → IsDone Ready (manage_from kill s xs p)
  unfolding manage_from
  manage_from-IsDone kill s [] p timed v = v
  manage_from-IsDone kill s (x ∷ xs) p (own, timed) v =
      let now = mark p.manager x s in
      let p' : DecisionPipeline M W = record p {
        portfolio = replace_position x.position_id now p.portfolio;
      } in
      elim (ExitCheck-cases (check_exit p.manager now s none kill)) [
        | inl stay ↦ rw (stay, IsDone) (manage_from-IsDone kill s xs p' timed v)
        | inr (inl lost) ↦
            absurd (check_exit-IsTimed p.manager now s kill (mark-IsTimed p.manager x s own) lost)
        | inr (inr (signal, exit)) ↦
            rw (exit, IsDone)
              (IsDone-chain Ready Ready (close_position now s signal.reason p') _
                (close_position-IsDone p' v now s signal.reason)
                (λ q shut w.
                  with_signal-IsDone IsReady shut signal (manage_from kill s xs q)
                    (manage_from-IsDone kill s xs q timed w)))
      ]

  decide-IsDone :
      (s : MarketSnapshot W) (exits : List (ExitSignal W)) (fc : ForecastBundle W)
      (opt : Optimization W) (candidate : Option (StrategyCandidate W)) (risk : RiskDecision W Veto)
      (sizing : Option (SizingResult W)) (p : DecisionPipeline M W)
      → (risk.approved ≡ true → 1 ≤ risk.max_contracts)
      → IsReady p
      → IsDone Ready (decide s exits fc opt candidate (risk, sizing) p)
  unfolding decide
  decide-IsDone s exits fc opt none risk sizing p sized v = persist-IsDone _ _ p v
  decide-IsDone s exits fc opt (some c) risk sizing p sized v =
      if_true-IsDone Ready risk.approved _ _
        (λ granted.
          IsDone-chain Ready Ready (execute c risk s p) _
            (execute-IsDone p v c risk s granted (sized granted)) (λ q x w. persist-IsDone _ _ q w))
        (persist-IsDone _ _ p v)

  decide_on_best-IsDone :
      (s : MarketSnapshot W) (exits : List (ExitSignal W)) (fc : ForecastBundle W)
      (opt : Optimization W) (b : BrokerState W (Discrepancy W)) (p : DecisionPipeline M W)
      → IsReady p
      → IsDone Ready (decide_on_best s exits fc opt b p)
  unfolding decide_on_best evaluate
  decide_on_best-IsDone s exits fc opt b p v =
      decide-IsDone s exits fc opt _ _ _ (record p { risk_engine = _ })
        (verdict-sized _ _ s fc p.portfolio b) v

  decide_with-IsDone :
      (d : Desk M W) (s : MarketSnapshot W) (exits : List (ExitSignal W)) (fc : ForecastBundle W)
      (p : DecisionPipeline M W)
      → IsWorking d
      → IsReady p
      → IsDone Ready (decide_with d s exits fc p)
  unfolding decide_with
  decide_with-IsDone d s exits fc p working v =
      let (opt, ranked) = working.ranks s fc (risk_cap fc p) in
      rw (ranked, IsDone) (decide_on_best-IsDone s exits fc opt _ p v)

  unlocked-IsDone :
      (d : Desk M W) (s : MarketSnapshot W) (exits : List (ExitSignal W)) (p : DecisionPipeline M W)
      → IsWorking d
      → IsReady p
      → IsDone Ready (unlocked d s exits p)
  unfolding unlocked
  unlocked-IsDone d s exits p working v =
      let (fc, found) = working.forecasts p.models s in
      let q : DecisionPipeline M W = record p { models = (d.forecast p.models s).0 } in
      rw (found, IsDone) (decide_with-IsDone d s exits fc q working v)

  locked-IsDone :
      (d : Desk M W) (s : MarketSnapshot W) (exits : List (ExitSignal W)) (p : DecisionPipeline M W)
      → IsReady p
      → IsDone Ready (locked d s exits p)
  unfolding locked
  locked-IsDone d s exits p v =
      persist-IsDone _ _ (record p { models = (d.forecast p.models s).0 }) v

  step_with-IsDone :
      (d : Desk M W) (given : MarketSnapshot W) (quality : Quality W) (p : DecisionPipeline M W)
      → IsWorking d
      → All IsTimed (open_positions p.portfolio)
      → IsReady p
      → IsDone Ready (step_with d given quality p)
  unfolding step_with manage_open_positions
  step_with-IsDone d given quality p working timed v =
      let s : MarketSnapshot W = record given { data_quality_score = quality.score } in
      IsDone-chain Ready Ready (manage_open_positions s p) _
        (manage_from-IsDone _ s (open_positions p.portfolio) p timed v)
        (λ q exits w.
          if-IsDone Ready quality.is_tradeable _ _ (unlocked-IsDone d s exits q working w)
            (locked-IsDone d s exits q w))

  -- A pass returns a result and raises nothing, and leaves a pipeline of which the same holds but for the
  -- exit plans, if the validators, the forecast engine and the optimizer raise nothing, the audit store
  -- takes what it is given, the broker is connected and knows none of the identifiers that are still to
  -- come, which are distinct, and in the exit plan of each open position the minutes before the expiry
  -- are a `timedelta`; the numbers are finite, so that `int(a // b)` and `/` raise nothing, as `Float`
  -- has it.
  pub step-IsDone :
      (d : Desk M W) (given : MarketSnapshot W) (p : DecisionPipeline M W)
      → IsWorking d
      → All IsTimed (open_positions p.portfolio)
      → IsReady p
      → IsDone (λ q (_ : PipelineResult W). IsReady q) (step d given p)
  unfolding step
  step-IsDone d given p working timed v =
      let (quality, assessed) = working.assesses given in
      rw (assessed, IsDone) (step_with-IsDone d given quality p working timed v)
