-- ===== src/Strategies/Validation/Defined.antt =====
-- `validate_defined_risk` of spy_der/strategies/validation.py, the check before entry, and its users.
use iron_spyder.Prelude.{
  ◌≡◌, refl, ◌⊎◌, inl, inr, Bool, true, false, ◌&&◌, Option, none, some, List, [], ◌∷◌, ◌++◌, map,
  is_empty, when, if◌then◌else◌, Bool-cases, append-nil_left, append-nil_right,
}
use iron_spyder.Float.{Float}
use iron_spyder.Domain.Strategy.{Strategy}
use iron_spyder.Strategies.Payoff.{PayoffProfile, tail_slopes}
use iron_spyder.Strategies.Payoff.Profile.{payoff_profile, max_loss_of_profile}
use iron_spyder.Strategies.Validation.{
  Uncovered, Structural, coverage_violations, structural_violations,
}

pub data Violation : Type 0 where
  structural : Structural → Violation
  uncovered : Uncovered → Violation
  loss_not_finite unbounded_upside loss_not_positive : Violation

pub record ValidationResult (W : Type 0) : Type 0 where
  pub violations : List Violation
  pub profile : PayoffProfile W

-- `ValidationResult.is_valid`
abbrev pub is_valid : {W : Type 0} → ValidationResult W → Bool
is_valid r = is_empty r.violations

abbrev pub is_infinite : {W : Type 0} → Option W → Bool
is_infinite none = true
is_infinite (some x) = false

module _ {W : Type 0} ⦃f : Float W⦄ where
  open f use {nought, decimal, lt}

  abbrev pub min_max_loss : W
  min_max_loss = decimal 1 6

  -- Infinity is not below `MIN_MAX_LOSS`.
  abbrev pub is_nonpositive : Option W → Bool
  is_nonpositive none = false
  is_nonpositive (some loss) = lt loss min_max_loss

  -- The problems that are found before the payoff.
  unfoldable pub shape_violations : Strategy W → List Violation
  shape_violations s =
      map Violation.structural (structural_violations s)
      ++ map Violation.uncovered (coverage_violations s)

  -- The cross-check of the payoff against the structural rule.
  unfoldable pub cross_check : List Violation → PayoffProfile W → List Violation
  cross_check problems profile =
      let found =
        problems
        ++ (when (is_infinite profile.max_loss) Violation.loss_not_finite
            ++ when (lt profile.upside_slope nought) Violation.unbounded_upside) in
      if is_empty found && is_nonpositive profile.max_loss
      then found ++ (Violation.loss_not_positive ∷ [])
      else found

  unfoldable pub validate_defined_risk : Strategy W → ValidationResult W
  validate_defined_risk s =
      let profile = payoff_profile s none in
      record { violations = cross_check (shape_violations s) profile; profile = profile }

  -- The left case is `UndefinedRiskError`, with the violations.
  unfoldable pub assert_defined_risk : Strategy W → List Violation ⊎ PayoffProfile W
  assert_defined_risk s =
      let result = validate_defined_risk s in
      if is_valid result then inr result.profile else inl result.violations

  unfoldable pub is_defined_risk : Strategy W → Bool
  is_defined_risk s = is_valid (validate_defined_risk s)

pub is_empty-nil : {A : Type 0} (xs : List A) → is_empty xs ≡ true → xs ≡ []
is_empty-nil [] h = refl
is_empty-nil (x ∷ xs) h = cc

is_empty-append : {A : Type 0} (xs ys : List A) → is_empty (xs ++ ys) ≡ true → is_empty xs ≡ true
is_empty-append [] ys h = refl
is_empty-append (x ∷ xs) ys h = cc

map-nil : {A B : Type 0} (g : A → B) (xs : List A) → map g xs ≡ [] → xs ≡ []
map-nil g [] h = refl
map-nil g (x ∷ xs) h = cc

gate :
    (found : List Violation) (v : Violation) (b : Bool)
    → is_empty (if is_empty found && b then found ++ (v ∷ []) else found) ≡ true
    → (found ≡ []) × (b ≡ false)
gate [] v true h = cc
gate [] v false h = (refl, refl)
gate (x ∷ xs) v b h = cc

module _ {W : Type 0} ⦃f : Float W⦄ where
  open f use {nought, lt}

  pub shape_violations-nil :
      (s : Strategy W)
      → shape_violations s ≡ []
      → (structural_violations s ≡ []) × (coverage_violations s ≡ [])
  unfolding shape_violations
  shape_violations-nil s h = (
    map-nil _ _ (append-nil_left _ _ h),
    map-nil _ _ (append-nil_right (map Violation.structural (structural_violations s)) _ h),
  )

  pub shape_violations-nil_of :
      (s : Strategy W)
      → structural_violations s ≡ []
      → coverage_violations s ≡ []
      → shape_violations s ≡ []
  unfolding shape_violations
  shape_violations-nil_of s h k = rw (h, k) refl

  pub cross_check-nil :
      (problems : List Violation) (profile : PayoffProfile W)
      → is_empty (cross_check problems profile) ≡ true
      → (problems ≡ []) × (is_nonpositive profile.max_loss ≡ false)
  unfolding cross_check
  cross_check-nil problems profile h =
      let (found, level) = gate _ _ _ h in (append-nil_left _ _ found, level)

  pub cross_check-nil_of :
      (profile : PayoffProfile W)
      → is_infinite profile.max_loss ≡ false
      → lt profile.upside_slope nought ≡ false
      → is_nonpositive profile.max_loss ≡ false
      → is_empty (cross_check [] profile) ≡ true
  unfolding cross_check
  cross_check-nil_of profile h k l = rw (h, k, l) refl

  pub max_loss-level :
      (s : Strategy W)
      → is_infinite (payoff_profile s none).max_loss ≡ false
      → lt (payoff_profile s none).upside_slope nought ≡ false
  unfolding payoff_profile max_loss_of_profile
  max_loss-level s h = elim (Bool-cases (lt (tail_slopes s).0 nought)) [
    | inl falling ↦ cc (rw falling at h)
    | inr level ↦ level
  ]
