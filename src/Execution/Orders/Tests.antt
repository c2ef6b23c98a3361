-- ===== src/Execution/Orders/Tests.antt =====
-- An opening order from the verdict on the sample candidate.
use iron_spyder.Prelude.{none, ℕ, ◌≡◌, refl, some, []}
use iron_spyder.Prelude.Int.{◌+ℤ◌, ◌-ℤ◌, ◌*ℤ◌}
use iron_spyder.Float.Ticks.{Ticks, ticks, Ticks-IsOrdered}
use iron_spyder.Domain.Execution.{MultiLegOrder}
use iron_spyder.Domain.Strategy.{near_expiry, strikes, net_entry_cost}
use iron_spyder.Samples.{cents, spread, candidate, snapshot, forecast, account, engine}
use iron_spyder.Domain.Enums.{OrderIntent, OrderStatus}
use iron_spyder.Execution.Orders.{built, build_open_order}
use iron_spyder.Execution.Orders.Opening.{IsOpening, build_open_order-IsWithin}
use iron_spyder.Risk.Limits.{drawdown_fraction, roll_to, slippage_ratio, sort_reasons}
use iron_spyder.Risk.Sizing.{
  size_position, sized, binding_cap, capped_contracts, least_cap, quality, confidence_factor,
}
use iron_spyder.Risk.Sizing.Bounds.{IsWithin}
use iron_spyder.Risk.Portfolio.{
  open_positions, total_open_risk, open_risk_from, risk_for_expiration, expiration_risk_from,
}
use iron_spyder.Risk.Engine.Checks.{
  update_kill_switches, trip_when, kill_switch_reasons, session_reasons, environment_reasons,
  broker_reasons, candidate_reasons, limit_reasons, has_complete_exit_plan, strike_span,
  last_strike, portfolio_reasons,
}
use iron_spyder.Risk.Engine.{
  evaluate, refreshed, all_reasons, general_reasons, sizing_for, available_risk, price_limit,
}
use iron_spyder.Risk.Engine.Approval.{IsClear, IsSound}

abbrev opening_order : MultiLegOrder Ticks
opening_order = record {
  order_id = 9;
  created_at = 1_000_000_000;
  strategy = spread;
  contracts = 4;
  limit_price = cents 202;
  intent = OrderIntent.opening;
  status = OrderStatus.pending_new;
  filled_contracts = 0;
  reprice_attempts = 0;
  broker_order_id = none;
  reject_reason = none;
}

candidate_opens :
    let (_, (decision, _)) =
      evaluate engine (some candidate) snapshot forecast [] (account {D = ℕ}) in
    build_open_order spread (cents 200) decision 1_000_000_000 9 ≡ built opening_order
unfolding evaluate refreshed roll_to update_kill_switches trip_when drawdown_fraction slippage_ratio
    all_reasons general_reasons kill_switch_reasons sort_reasons session_reasons environment_reasons
    broker_reasons candidate_reasons limit_reasons has_complete_exit_plan strike_span last_strike
    portfolio_reasons open_positions total_open_risk open_risk_from risk_for_expiration
    expiration_risk_from sizing_for available_risk size_position sized binding_cap capped_contracts
    least_cap quality confidence_factor ◌+ℤ◌ ◌-ℤ◌ ◌*ℤ◌ near_expiry strikes net_entry_cost
    build_open_order price_limit
candidate_opens = refl

build_open_order-IsWithin_example :
    let (after, (decision, _)) =
      evaluate engine (some candidate) snapshot forecast [] (account {D = ℕ}) in
    IsOpening spread decision opening_order
    × IsClear after snapshot forecast (account {D = ℕ})
    × IsSound after candidate [] (account {D = ℕ})
    × IsWithin candidate
        (account {D = ℕ}).equity
        after.config
        (some (available_risk after [] (account {D = ℕ})))
        (sizing_for after candidate forecast [] (account {D = ℕ}))
    × (opening_order.contracts
        ≡ (sizing_for after candidate forecast [] (account {D = ℕ})).contracts)
build_open_order-IsWithin_example =
    build_open_order-IsWithin Ticks-IsOrdered engine candidate snapshot forecast []
      (account {D = ℕ}) 1_000_000_000 9 opening_order candidate_opens
