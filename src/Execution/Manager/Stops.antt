-- ===== src/Execution/Manager/Stops.antt =====
-- The risk stop: no later than the maximum loss, and never passed over.
use iron_spyder.Prelude.{
  ℕ, ◌≡◌, refl, inl, inr, Bool, true, ◌&&◌, Option, none, some, arith, Bool-cases, Option-cases,
  true-of_and,
}
use iron_spyder.Prelude.Int.{ℤ, pos}
use iron_spyder.Float.{Float, IsOrdered, min2_bounds}
use iron_spyder.Domain.Enums.{ExitReason}
use iron_spyder.Domain.Market.{MarketSnapshot, ForecastBundle}
use iron_spyder.Domain.Strategy.{ExitPlan, check_plan, stop_loss_dollars}
use iron_spyder.Domain.Execution.{Position, of_count, unrealized_pnl}
use iron_spyder.Execution.Manager.{
  PositionManager, assignment_exposure, mark, stop_threshold, max_loss_of, exit_reason_at,
  check_exit, reason_after, ExitCheck,
}

-- The four reasons that come first, in their order.
pub data IsUrgent : ExitReason → Type 0 where
  switched : IsUrgent ExitReason.kill_switch
  assigned : IsUrgent ExitReason.assignment_risk
  closing : IsUrgent ExitReason.end_of_session
  stopped : IsUrgent ExitReason.risk_stop

module _ {W : Type 0} ⦃f : Float W⦄ where
  open f use {nought, decimal, times, negate, lt, le, of_minutes}

  check_plan-le :
      (p : ExitPlan W) → check_plan p ≡ none → le p.stop_loss_fraction (decimal 1 0) ≡ true
  unfolding check_plan
  check_plan-le p h =
      let target =
        lt nought p.profit_target_fraction && le p.profit_target_fraction (decimal 1 0) in
      let stop = lt nought p.stop_loss_fraction && le p.stop_loss_fraction (decimal 1 0) in
      elim (Bool-cases target) [
        | inr bad ↦ cc (rw bad at h)
        | inl good ↦ elim (Bool-cases stop) [
          | inl fine ↦ (true-of_and _ _ fine).1
          | inr bad ↦ cc (rw (good, bad) at h)
        ]
      ]

  pub exposure_lem :
      (m : PositionManager W) (p : Position W) (s : MarketSnapshot W) (cutoff : ℤ)
      → of_minutes p.exit_plan.close_before_expiry_minutes ≡ some cutoff
      → (exposed : Bool) × (assignment_exposure m p s ≡ some exposed)
  unfolding assignment_exposure
  exposure_lem m p s cutoff timed = elim (Option-cases (assignment_exposure m p s)) [
    | inl lost ↦ cc (rw (timed, assignment_exposure) at lost)
    | inr known ↦ known
  ]

  module _ (laws : IsOrdered f) where
    open laws use {
      le_refl, le_trans, times_mono, times_one, of_int_mono, of_int_nought, negate_anti,
    }

    of_count_nonneg : (n : ℕ) → le nought (of_count n) ≡ true
    of_count_nonneg n = rw (← of_int_nought) (of_int_mono (pos 0) (pos n) (ground arith))

    stop_loss_dollars-le :
        (p : ExitPlan W) (loss credit : W)
        → check_plan p ≡ none
        → le nought loss ≡ true
        → le (stop_loss_dollars p loss credit) loss ≡ true
    unfolding stop_loss_dollars
    stop_loss_dollars-le p loss credit h k =
        let part : le (times p.stop_loss_fraction loss) loss ≡ true =
          rw times_one at (times_mono _ _ loss k (check_plan-le p h)) in
        elim (Option-cases p.stop_loss_credit_multiple) [
          | inl unset ↦ rw unset part
          | inr (m, given) ↦ elim (Bool-cases (lt nought credit)) [
            | inl received ↦ rw (given, received) (min2_bounds laws (times m credit) loss).1
            | inr paid ↦ rw (given, paid) part
          ]
        ]

    -- With an exit plan that passes its checks, and a maximum loss per contract that is not negative,
    -- the risk stop of a position comes no later than its maximum loss, whether it is set as a fraction
    -- of that loss or as a multiple of the credit.
    pub stop_threshold-le :
        (p : Position W)
        → check_plan p.exit_plan ≡ none
        → le nought p.max_loss_per_contract ≡ true
        → le (stop_threshold p) (max_loss_of p) ≡ true
    unfolding stop_threshold
    stop_threshold-le p h k =
        times_mono _ _ (of_count p.contracts) (of_count_nonneg p.contracts)
          (stop_loss_dollars-le p.exit_plan p.max_loss_per_contract _ h k)

    urgent_lem :
        (m : PositionManager W) (p : Position W) (s : MarketSnapshot W)
        (forecast : Option (ForecastBundle W)) (kill_switch_active : Bool) (pnl : W)
        (exposed : Bool)
        → assignment_exposure m p s ≡ some exposed
        → lt nought (max_loss_of p) ≡ true
        → le pnl (negate (stop_threshold p)) ≡ true
        → (r : ExitReason) × (exit_reason_at m p s forecast kill_switch_active pnl
            ≡ ExitCheck.leave r)
          × IsUrgent r
    unfolding exit_reason_at reason_after
    urgent_lem m p s forecast kill_switch_active pnl exposed e h k =
        let early = le s.context.minutes_to_close p.exit_plan.close_before_expiry_minutes in
        elim (Bool-cases kill_switch_active) [
          | inl on ↦ rw on (ExitReason.kill_switch, refl, switched)
          | inr off ↦ elim (Bool-cases exposed) [
            | inl near ↦ rw (off, e, near) (ExitReason.assignment_risk, refl, assigned)
            | inr far ↦ elim (Bool-cases early) [
              | inl late ↦ rw (off, e, far, late) (ExitReason.end_of_session, refl, closing)
              | inr soon ↦ rw (off, e, far, soon, h, k) (ExitReason.risk_stop, refl, stopped)
            ]
          ]
        ]

    -- With an exit plan that passes its checks, whose minutes before the expiry are a `timedelta`, and a
    -- positive maximum loss: once the executable mark shows
    -- a loss of the maximum loss or more, `check_exit` signals an exit, for the kill switch, the risk of
    -- assignment, the end of the session or the risk stop, with that mark and that loss.
    pub check_exit-IsUrgent :
        (m : PositionManager W) (p : Position W) (s : MarketSnapshot W)
        (forecast : Option (ForecastBundle W)) (kill_switch_active : Bool) (cutoff : ℤ)
        → of_minutes p.exit_plan.close_before_expiry_minutes ≡ some cutoff
        → check_plan p.exit_plan ≡ none
        → le nought p.max_loss_per_contract ≡ true
        → lt nought (max_loss_of p) ≡ true
        → le (unrealized_pnl (mark m p s)) (negate (max_loss_of p)) ≡ true
        → (r : ExitReason) × IsUrgent r
          × (check_exit m p s forecast kill_switch_active
              ≡ ExitCheck.leave (record {
                position_id = p.position_id;
                reason = r;
                mark_price = (mark m p s).current_price;
                unrealized = unrealized_pnl (mark m p s);
              }))
    unfolding check_exit
    check_exit-IsUrgent m p s forecast kill_switch_active cutoff timed checked nonneg positive
          lost =
        let stop = negate_anti _ _ (stop_threshold-le p checked nonneg) in
        let (exposed, known) = exposure_lem m p s cutoff timed in
        let (r, found, urgent) =
          urgent_lem m p s forecast kill_switch_active _ exposed known positive
            (le_trans _ _ _ lost stop) in
        (r, urgent, rw (found, check_exit) refl)
