-- ===== src/Strategies/Payoff/Profile.antt =====
-- `payoff_profile`, which puts the parts together.
use iron_spyder.Prelude.{Option, none, some, [], if◌then◌else◌}
use iron_spyder.Float.{Float}
use iron_spyder.Domain.Strategy.{Strategy, expiries, near_expiry, net_entry_cost}
use iron_spyder.Strategies.Payoff.{
  PayoffProfile, Profit, Worst, is_multi_expiry, tail_slopes, evaluation_spots, worst_over, best_of,
  loss_of,
}
use iron_spyder.Strategies.Payoff.Breakevens.{breakevens_of}

module _ {W : Type 0} ⦃f : Float W⦄ where
  open f use {nought, lt}

  -- The worst payoff over all checkpoints and points.
  unfoldable pub worst_of : Strategy W → Option W → Worst W
  worst_of s far_bound = worst_over s (expiries s.legs) (evaluation_spots s far_bound) none

  unfoldable pub max_loss_of_profile : Strategy W → Option W → Option W
  unfolding worst_of
  max_loss_of_profile s far_bound =
      if lt (tail_slopes s).0 nought then none else loss_of (worst_of s far_bound)

  unfoldable pub payoff_profile : Strategy W → Option W → PayoffProfile W
  payoff_profile s far_bound =
      let (up, down) = tail_slopes s in
      let spots = evaluation_spots s far_bound in
      let worst = worst_of s far_bound in
      let best = best_of s spots in
      let multi = is_multi_expiry s in
      record {
        max_loss = max_loss_of_profile s far_bound;
        max_profit =
            if multi
            then Profit.model_dependent
            else (if lt nought up then Profit.unbounded else Profit.bounded best);
        max_profit_at_bound = if multi then none else some best;
        breakevens = if multi then [] else breakevens_of s none;
        upside_slope = up;
        downside_slope = down;
        net_entry = net_entry_cost s;
        worst_case_spot = elim worst [ none ↦ nought | some w ↦ w.1.0 ];
        worst_case_expiry = elim worst [ none ↦ near_expiry s | some w ↦ w.1.1 ];
        profit_is_unbounded = lt nought up;
        profit_is_model_dependent = multi;
      }
