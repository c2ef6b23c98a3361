-- ===== src/Strategies/Validation/Tests.antt =====
-- The checks of the sample spread.
use iron_spyder.Prelude.{ℕ, ◌≡◌, ◌↔◌, refl, true, false, none, []}
use iron_spyder.Prelude.Int.{pos, ◌≤ℤ◌, ◌+ℤ◌}
use iron_spyder.Domain.Strategy.{expiries, insert_once}
use iron_spyder.Domain.Enums.{OptionRight}
use iron_spyder.Samples.{spread}
use iron_spyder.Strategies.Validation.{
  coverage_violations, structural_violations, suffix_sum, legs_of, coverage_for, uncovered_at,
}
use iron_spyder.Strategies.Validation.Defined.{is_defined_risk, is_nonpositive, is_infinite}
use iron_spyder.Strategies.Validation.Agreement.{is_defined_risk_iff, coverage-finite}
use iron_spyder.Float.Ticks.{ticks}
use iron_spyder.Strategies.Payoff.Exact.{Ticks-IsExact}
use iron_spyder.Strategies.Payoff.Profile.{payoff_profile}
use iron_spyder.Strategies.Validation.Coverage.{coverage_violations-nil_iff}

coverage_violations-nil_iff_example :
    (coverage_violations spread ≡ [])
    ↔ ((r : OptionRight) (t : ℕ) → pos 0 ≤ℤ suffix_sum t (legs_of r spread.legs))
coverage_violations-nil_iff_example = coverage_violations-nil_iff spread

is_defined_risk_iff_example : (is_defined_risk spread ≡ true) ↔ (
    (structural_violations spread ≡ [])
    × (coverage_violations spread ≡ [])
    × (is_nonpositive (payoff_profile spread none).max_loss ≡ false))
is_defined_risk_iff_example = is_defined_risk_iff Ticks-IsExact spread

coverage-finite_example : is_infinite (payoff_profile spread none).max_loss ≡ false
unfolding coverage_violations coverage_for legs_of uncovered_at suffix_sum expiries insert_once ◌+ℤ◌
coverage-finite_example = coverage-finite Ticks-IsExact spread refl
