-- ===== src/Execution/Manager/Tests.antt =====
-- Exits of the sample spread.
use iron_spyder.Prelude.{◌≡◌, refl, true, false, none, some, List}
use iron_spyder.Prelude.Int.{pos, ◌+ℤ◌, ◌-ℤ◌}
use iron_spyder.Float.Ticks.{Ticks, ticks, Ticks-IsOrdered}
use iron_spyder.Domain.Enums.{ExitReason}
use iron_spyder.Domain.Market.{OptionQuote, find_quote, mid}
use iron_spyder.Domain.Strategy.{check_leg, check_plan}
use iron_spyder.Domain.Execution.{MultiLegOrder, Position, unrealized_pnl}
use iron_spyder.Samples.{cents, dollars, position, snapshot}
use iron_spyder.Execution.Fills.{leg_slippage}
use iron_spyder.Execution.Orders.{build_close_order}
use iron_spyder.Execution.PaperBroker.{quotes_for, acceptable}
use iron_spyder.Execution.Manager.{
  PositionManager, exit_leg_price, exit_total, exit_price, mark, stop_threshold, max_loss_of,
  check_exit, ExitCheck, build_exit_order,
}
use iron_spyder.Execution.Manager.Stops.{IsUrgent, stop_threshold-le, check_exit-IsUrgent}
use iron_spyder.Execution.Manager.Closing.{build_exit_order-acceptable}
open ticks use {le, negate}

abbrev manager : PositionManager Ticks
manager = record {
  costs = record {
    commission_per_contract = cents 65;
    exchange_fee_per_contract = cents 5;
    spread_capture = cents 50;
    spread_multiplier = dollars 1;
    adverse_ticks = dollars 0;
    tick_size = cents 1;
    fill_probability_floor = cents 2;
  };
  assignment_moneyness_buffer = pos 20;
}

stop_threshold-le_example : le (stop_threshold (position 1 3)) (max_loss_of (position 1 3)) ≡ true
unfolding check_plan ◌+ℤ◌ ◌-ℤ◌
stop_threshold-le_example = stop_threshold-le Ticks-IsOrdered (position 1 3) refl refl

-- The spread was bought for 4.00 and closes for 2.00: the loss is the 200 dollars of its maximum loss.
abbrev losing : Position Ticks
losing = record (position 1 1) { entry_price = cents 400 }

check_exit-IsUrgent_example :
    (r : ExitReason) × IsUrgent r
    × (check_exit manager losing snapshot none false
        ≡ ExitCheck.leave (record {
          position_id = 1;
          reason = r;
          mark_price = (mark manager losing snapshot).current_price;
          unrealized = unrealized_pnl (mark manager losing snapshot);
        }))
unfolding check_plan ◌+ℤ◌ ◌-ℤ◌ unrealized_pnl mark exit_price exit_total find_quote mid
    exit_leg_price leg_slippage
check_exit-IsUrgent_example =
    check_exit-IsUrgent Ticks-IsOrdered manager losing snapshot none false (pos 3_600_000_000) refl
      refl refl refl refl

abbrev exit_order : MultiLegOrder Ticks
exit_order = build_close_order (position 1 1) (negate (cents 200)) 1_000_000_000 9

build_exit_order-acceptable_example :
    (qs : List (OptionQuote Ticks)) × (quotes_for exit_order.strategy.legs snapshot.option_chain
      ≡ some qs)
    × (acceptable manager.costs exit_order qs ≡ true)
unfolding build_exit_order exit_price exit_total find_quote mid exit_leg_price leg_slippage ◌+ℤ◌
    ◌-ℤ◌ check_leg
build_exit_order-acceptable_example =
    build_exit_order-acceptable Ticks-IsOrdered manager (position 1 1) snapshot none 9 exit_order
      (refl, (refl, tt)) refl
