-- ===== src/Strategies/Payoff/Tests.antt =====
-- The payoff of the sample spread.
use iron_spyder.Prelude.{All, ◌≡◌, refl, true, some, none, inl}
use iron_spyder.Float.Ticks.{Ticks, ticks}
use iron_spyder.Prelude.Int.{◌+ℤ◌, ◌-ℤ◌, ◌*ℤ◌}
use iron_spyder.Domain.Strategy.{
  OptionLeg, check_leg, expiries, insert_once, strikes, insert_strike, net_entry_cost,
}
use iron_spyder.Samples.{spread, expiry, dollars}
use iron_spyder.Strategies.Payoff.{
  payoff_with, leg_value_bound, tail_slopes, quantity_sum, worst_over, worst_at, worse, payoff_at,
  gross_from, evaluation_spots, spots_of, last_of,
}
use iron_spyder.Strategies.Payoff.Exact.{Ticks-IsExact}
use iron_spyder.Strategies.Payoff.Profile.{payoff_profile, max_loss_of_profile, worst_of}
use iron_spyder.Strategies.Payoff.Bounded.{payoff_profile-bounds}

abbrev settled : OptionLeg Ticks → Ticks
settled leg = leg_value_bound leg (dollars 490) expiry true

spread_loss : (payoff_profile spread none).max_loss ≡ some (dollars 200)
unfolding payoff_profile max_loss_of_profile tail_slopes quantity_sum worst_of worst_over worst_at
    worse payoff_at payoff_with leg_value_bound gross_from net_entry_cost evaluation_spots spots_of
    last_of strikes insert_strike expiries insert_once ◌+ℤ◌ ◌-ℤ◌ ◌*ℤ◌
spread_loss = refl

legs_checked : All (λ leg. check_leg leg ≡ none) spread.legs
unfolding check_leg ◌+ℤ◌ ◌-ℤ◌
legs_checked = (refl, (refl, tt))

payoff_profile-bounds_example :
    ticks.le (ticks.negate (dollars 200)) (payoff_with settled spread) ≡ true
unfolding leg_value_bound expiries insert_once ◌+ℤ◌ ◌-ℤ◌
payoff_profile-bounds_example =
    payoff_profile-bounds Ticks-IsExact spread (dollars 200) expiry (dollars 490) settled
      legs_checked spread_loss (inl refl) refl (refl, (refl, tt))
