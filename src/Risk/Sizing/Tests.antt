-- ===== src/Risk/Sizing/Tests.antt =====
-- Sizing on the sample account.
use iron_spyder.Prelude.{◌≡◌, refl, some}
use iron_spyder.Prelude.Int.{◌+ℤ◌, ◌-ℤ◌}
use iron_spyder.Float.Ticks.{ticks, Ticks-IsOrdered}
use iron_spyder.Samples.{cents, dollars, candidate, config}
use iron_spyder.Risk.Sizing.{
  size_position, sized, binding_cap, capped_contracts, least_cap, quality, confidence_factor,
}
use iron_spyder.Risk.Sizing.Bounds.{IsWithin, size_position-IsWithin}

three_contracts :
    (size_position candidate
      (dollars 100_000)
      (cents 90)
      (dollars 1)
      (dollars 1)
      config
      (some (dollars 700))).contracts
    ≡ 3
unfolding size_position sized binding_cap capped_contracts least_cap quality confidence_factor ◌+ℤ◌
    ◌-ℤ◌
three_contracts = refl

size_position-IsWithin_example : IsWithin candidate (dollars 100_000) config (some (dollars 700)) (
    size_position candidate
      (dollars 100_000)
      (cents 90)
      (dollars 1)
      (dollars 1)
      config
      (some (dollars 700)))
unfolding size_position sized binding_cap capped_contracts least_cap quality confidence_factor ◌+ℤ◌
    ◌-ℤ◌
size_position-IsWithin_example =
    size_position-IsWithin Ticks-IsOrdered candidate (dollars 100_000) (cents 90) (dollars 1)
      (dollars 1) config (some (dollars 700)) refl
