-- ===== src/Risk/Engine/Tests.antt =====
-- The veto on the sample account.
use iron_spyder.Prelude.{ℕ, ◌≡◌, refl, All, true, none, some, List, [], ◌∷◌}
use iron_spyder.Prelude.Int.{◌+ℤ◌, ◌-ℤ◌, ◌*ℤ◌}
use iron_spyder.Float.Ticks.{Ticks, ticks, Ticks-IsOrdered}
use iron_spyder.Domain.Enums.{KillSwitchReason}
use iron_spyder.Samples.{candidate, snapshot, forecast, account, position, engine}
use iron_spyder.Domain.Strategy.{StrategyCandidate, near_expiry, strikes, net_entry_cost}
use iron_spyder.Risk.Limits.{
  Detail, find_reason, same_reason, drawdown_fraction, roll_to, slippage_ratio, sort_reasons,
}
use iron_spyder.Risk.Sizing.Bounds.{IsWithin}
use iron_spyder.Risk.Engine.Approval.{IsClear, IsSound, evaluate-IsSound}
use iron_spyder.Risk.Sizing.{
  total_risk, size_position, sized, binding_cap, capped_contracts, least_cap, quality,
  confidence_factor,
}
use iron_spyder.Risk.Portfolio.{
  open_positions, total_open_risk, open_risk_from, risk_for_expiration, expiration_risk_from,
  expires_at,
}
use iron_spyder.Risk.Engine.Checks.{
  RiskEngine, update_kill_switches, trip_when, kill_switch_reasons, session_reasons,
  environment_reasons, broker_reasons, candidate_reasons, limit_reasons, has_complete_exit_plan,
  strike_span, last_strike, portfolio_reasons,
}
use iron_spyder.Risk.Engine.{
  evaluate, refreshed, all_reasons, general_reasons, sizing_for, available_risk,
}
use iron_spyder.Risk.Engine.Latch.{
  Request, Call, IsRefusal, decisions, after_calls, decisions-IsRefusal,
}

abbrev halted : RiskEngine Ticks
halted = record engine { kill_switch = (KillSwitchReason.manual, Detail.message 1) ∷ [] }

abbrev request : Request Ticks ℕ
request = record {
  candidate = some candidate;
  snapshot = snapshot;
  forecast = forecast;
  portfolio = position 1 1 ∷ [];
  broker = account;
}

abbrev calls : List (Call Ticks ℕ)
calls =
    Call.asked request
    ∷ Call.tripped KillSwitchReason.drawdown none
    ∷ Call.released (some KillSwitchReason.drawdown)
    ∷ Call.asked request
    ∷ []

decisions-IsRefusal_example :
    All IsRefusal (decisions halted calls)
    × (find_reason KillSwitchReason.manual (after_calls calls halted).kill_switch
        ≡ some (Detail.message 1))
unfolding find_reason same_reason
decisions-IsRefusal_example =
    decisions-IsRefusal halted calls KillSwitchReason.manual (Detail.message 1)
      (tt, (tt, (refl, (tt, tt)))) refl

candidate_approved :
    (evaluate engine (some candidate) snapshot forecast [] (account {D = ℕ})).1.0.approved ≡ true
unfolding evaluate refreshed roll_to update_kill_switches trip_when drawdown_fraction slippage_ratio
    all_reasons general_reasons kill_switch_reasons sort_reasons session_reasons environment_reasons
    broker_reasons candidate_reasons limit_reasons has_complete_exit_plan strike_span last_strike
    portfolio_reasons open_positions total_open_risk open_risk_from risk_for_expiration
    expiration_risk_from expires_at sizing_for available_risk size_position sized binding_cap
    capped_contracts least_cap quality confidence_factor ◌+ℤ◌ ◌-ℤ◌ ◌*ℤ◌ near_expiry strikes
    net_entry_cost
candidate_approved = refl

evaluate-IsSound_example :
    let (now, (decision, _)) =
      evaluate engine (some candidate) snapshot forecast [] (account {D = ℕ}) in
    (c : StrategyCandidate Ticks) × (some candidate ≡ some c)
    × IsClear now snapshot forecast (account {D = ℕ})
    × IsSound now c [] (account {D = ℕ})
    × IsWithin c
        (account {D = ℕ}).equity
        now.config
        (some (available_risk now [] (account {D = ℕ})))
        (sizing_for now c forecast [] (account {D = ℕ}))
    × (decision.max_contracts ≡ (sizing_for now c forecast [] (account {D = ℕ})).contracts)
    × (decision.approved_risk ≡ total_risk (sizing_for now c forecast [] (account {D = ℕ})))
evaluate-IsSound_example =
    evaluate-IsSound Ticks-IsOrdered engine (some candidate) snapshot forecast [] (account {D = ℕ})
      candidate_approved
