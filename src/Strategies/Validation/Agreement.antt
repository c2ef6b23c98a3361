-- ===== src/Strategies/Validation/Agreement.antt =====
-- The structural rule and the payoff agree: the cross-check of `validate_defined_risk` finds nothing that
-- the coverage rule has not found.
use iron_spyder.Prelude.{
  ℕ, ◌≡◌, ◌↔◌, refl, inl, inr, true, false, none, some, List, [], ◌∷◌, arith, leb, Bool-cases,
}
use iron_spyder.Prelude.Int.{ℤ, pos, ◌*ℤ◌, ◌≤ℤ◌, ltb_ℤ, int_laws, parts_of}
use iron_spyder.Prelude.Int.Products.{*ℤ_nonneg}
use iron_spyder.Float.{Float}
use iron_spyder.Domain.Enums.{OptionRight, right_eq, contract_multiplier}
use iron_spyder.Domain.Strategy.{OptionLeg, Strategy}
use iron_spyder.Strategies.Payoff.{Worst, quantity_sum, tail_slopes, loss_of}
use iron_spyder.Strategies.Payoff.Exact.{IsExact}
use iron_spyder.Strategies.Payoff.Profile.{worst_of, payoff_profile, max_loss_of_profile}
use iron_spyder.Strategies.Validation.{
  legs_of, suffix_sum, coverage_violations, structural_violations,
}
use iron_spyder.Strategies.Validation.Coverage.{coverage_violations-nil_iff}
use iron_spyder.Strategies.Validation.Defined.{
  is_infinite, is_nonpositive, shape_violations, is_defined_risk, validate_defined_risk,
  shape_violations-nil, shape_violations-nil_of, cross_check-nil, cross_check-nil_of,
  max_loss-level,
}

from_start : (n : ℕ) → leb 0 n ≡ true
from_start n = ground arith

-- From the first instant on, the legs of a right are all its legs.
suffix_sum-quantity_sum :
    {W : Type 0} (r : OptionRight) (legs : List (OptionLeg W))
    → suffix_sum 0 (legs_of r legs) ≡ quantity_sum r legs
unfolding suffix_sum legs_of quantity_sum
suffix_sum-quantity_sum r [] = refl
suffix_sum-quantity_sum r (leg ∷ legs) = elim (Bool-cases (right_eq leg.right r)) [
  | inl same ↦ rw (same, suffix_sum-quantity_sum r legs, from_start leg.expiry) refl
  | inr other ↦ rw other (suffix_sum-quantity_sum r legs)
]

not_less_of : (a b : ℤ) → b ≤ℤ a → ltb_ℤ a b ≡ false
not_less_of a b h = ground arith

module _ {W : Type 0} ⦃f : Float W⦄ (ex : IsExact f) where
  open f use {nought, lt, of_int}
  open ex use {units, units-nought, lt_units, units-of_int, one}

  tail_level : (s : Strategy W) → coverage_violations s ≡ [] → lt (tail_slopes s).0 nought ≡ false
  unfolding tail_slopes
  tail_level s h =
      let calls = quantity_sum OptionRight.call s.legs in
      let covered : pos 0 ≤ℤ calls =
        rw (suffix_sum-quantity_sum OptionRight.call s.legs) at
          ((coverage_violations-nil_iff s).0 h OptionRight.call 0) in
      let up : pos 0 ≤ℤ calls *ℤ pos contract_multiplier *ℤ pos one =
        *ℤ_nonneg _ (pos one) (*ℤ_nonneg calls (pos contract_multiplier) covered (omega arith))
          (omega arith) in
      let e = parts_of units-nought in
      let gross = calls *ℤ pos contract_multiplier *ℤ pos one in
      let level : ltb_ℤ gross (units nought) ≡ false =
        not_less_of gross (units nought) (omega (int_laws, e, up)) in
      rw (lt_units, units-of_int) level

  -- The coverage rule gives a finite maximum loss.
  pub coverage-finite :
      (s : Strategy W)
      → coverage_violations s ≡ []
      → is_infinite (payoff_profile s none).max_loss ≡ false
  unfolding payoff_profile max_loss_of_profile
  coverage-finite s h = rw (tail_level s h) (finite (worst_of s none))
    where
      finite : (w : Worst W) → is_infinite (loss_of w) ≡ false
      finite none = refl
      finite (some w) = refl

  -- A structure is admitted exactly when its shape is right, the coverage rule holds and its maximum
  -- loss is not below `MIN_MAX_LOSS`, for exact arithmetic.
  pub is_defined_risk_iff :
      (s : Strategy W)
      → (is_defined_risk s ≡ true) ↔ (
          (structural_violations s ≡ [])
          × (coverage_violations s ≡ [])
          × (is_nonpositive (payoff_profile s none).max_loss ≡ false))
  unfolding is_defined_risk validate_defined_risk
  is_defined_risk_iff s = (
    λ h.
        let (found, level) = cross_check-nil (shape_violations s) (payoff_profile s none) h in
        let (shape, covered) = shape_violations-nil s found in (shape, covered, level),
    λ h.
        let (shape, covered, level) = h in
        let finite = coverage-finite s covered in
        let clean : shape_violations s ≡ [] = shape_violations-nil_of s shape covered in
        rw clean
          (cross_check-nil_of (payoff_profile s none) finite (max_loss-level s finite) level),
  )
