-- ===== src/Optimizer/FamilyFilter/Tests.antt =====
-- A split read: an expansion of volatility, an unstable market, and an improbable pin.
use iron_spyder.Prelude.{◌≡◌, ◌↔◌, refl, inl, inr, true, All, List, [], ◌∷◌, length, is_empty}
use iron_spyder.Prelude.Int.{pos, ◌+ℤ◌, ◌-ℤ◌}
use iron_spyder.Float.Ticks.{Ticks, ticks}
use iron_spyder.Domain.Enums.{MarketState, StrategyFamily}
use iron_spyder.Optimizer.FamilyFilter.{eligible_families}
use iron_spyder.Optimizer.FamilyFilter.Mirror.{mirrored, eligible_families-mirrored}
use iron_spyder.Optimizer.FamilyFilter.Union.{IsAmong, IsIdle, eligible_families-empty_iff}

abbrev read : List (MarketState × Ticks)
read =
    (MarketState.vol_expansion, pos 4_000)
    ∷ (MarketState.unstable, pos 5_000)
    ∷ (MarketState.strong_pin, pos 1_000)
    ∷ []

four : length (eligible_families (pos 1_500) read) ≡ 4
unfolding ◌+ℤ◌ ◌-ℤ◌ eligible_families
four = refl

eligible_families-mirrored_example :
    IsAmong StrategyFamily.put_backspread (eligible_families (pos 1_500) (mirrored read))
unfolding eligible_families ◌+ℤ◌ ◌-ℤ◌
eligible_families-mirrored_example =
    eligible_families-mirrored StrategyFamily.call_backspread (pos 1_500) read
      (inr (inr (inl refl)))

eligible_families-empty_iff_example :
    (is_empty (eligible_families (pos 4_500) read) ≡ true) ↔ All (IsIdle (pos 4_500)) read
eligible_families-empty_iff_example = eligible_families-empty_iff (pos 4_500) read
