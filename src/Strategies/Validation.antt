-- ===== src/Strategies/Validation.antt =====
-- spy_der/strategies/validation.py: the checks of a structure that need no pricing.
mod Tests
pub mod Coverage
pub mod Defined
pub mod Agreement
use iron_spyder.Prelude.{
  ℕ, ◌+◌, Bool, true, false, not, ◌&&◌, List, [], ◌∷◌, ◌++◌, length, is_empty, when, ltb, leb, ◌==◌,
  if◌then◌else◌, ◌<◌,
}
use iron_spyder.Prelude.Int.{ℤ, pos, ◌+ℤ◌, ltb_ℤ}
use iron_spyder.Float.{Float}
use iron_spyder.Domain.Enums.{OptionRight, right_eq, is_calendarized}
use iron_spyder.Domain.Strategy.{insert_once, expiries, OptionLeg, Strategy, leg_count}

-- A message of `coverage_violations`: the right, the uncovered sum and the expiry it starts from.
pub record Uncovered : Type 0 where
  pub right : OptionRight
  pub suffix : ℤ
  pub expiry : ℕ

pub data Structural : Type 0 where
  too_many_legs : ℕ → Structural
  spans_expirations : ℕ → Structural
  duplicate_legs : Structural

abbrev pub max_legs : ℕ
max_legs = 6

module _ {W : Type 0} where
  -- `[leg for leg in strategy.legs if leg.right is right]`
  unfoldable pub legs_of : OptionRight → List (OptionLeg W) → List (OptionLeg W)
  legs_of r [] = []
  legs_of r (leg ∷ legs) = if right_eq leg.right r then leg ∷ legs_of r legs else legs_of r legs

  -- `sum(leg.quantity for leg in legs if leg.expiry >= expiry)`
  unfoldable pub suffix_sum : ℕ → List (OptionLeg W) → ℤ
  suffix_sum t [] = pos 0
  suffix_sum t (leg ∷ legs) =
      if leb t leg.expiry then leg.quantity +ℤ suffix_sum t legs else suffix_sum t legs

  unfoldable pub uncovered_at : OptionRight → List (OptionLeg W) → List ℕ → List Uncovered
  uncovered_at r legs [] = []
  uncovered_at r legs (t ∷ ts) =
      when (ltb_ℤ (suffix_sum t legs) (pos 0))
        (record { right = r; suffix = suffix_sum t legs; expiry = t })
      ++ uncovered_at r legs ts

  unfoldable pub coverage_for : OptionRight → List (OptionLeg W) → List Uncovered
  unfolding uncovered_at
  coverage_for r legs = let own = legs_of r legs in uncovered_at r own (expiries own)

  unfoldable pub coverage_violations : Strategy W → List Uncovered
  unfolding coverage_for
  coverage_violations s =
      coverage_for OptionRight.call s.legs ++ coverage_for OptionRight.put s.legs

module _ {W : Type 0} ⦃f : Float W⦄ where
  open f use {eq}

  abbrev same_contract : OptionLeg W → OptionLeg W → Bool
  same_contract a b = (a.expiry == b.expiry) && eq a.strike b.strike && right_eq a.right b.right

  unfoldable pub has_contract : OptionLeg W → List (OptionLeg W) → Bool
  has_contract leg [] = false
  has_contract leg (other ∷ legs) = if same_contract leg other then true else has_contract leg legs

  -- Whether `_duplicate_leg_keys` reports a key.
  unfoldable pub has_duplicates : List (OptionLeg W) → Bool
  unfolding has_contract
  has_duplicates [] = false
  has_duplicates (leg ∷ legs) = if has_contract leg legs then true else has_duplicates legs

  -- The family is always one of the allowed universe, by its type.
  unfoldable pub structural_violations : Strategy W → List Structural
  unfolding has_duplicates expiries
  structural_violations s =
      let spanned = length (expiries s.legs) in
      when (ltb max_legs (leg_count s)) (Structural.too_many_legs (leg_count s))
      ++ (when (ltb 1 spanned && not (is_calendarized s.family))
            (Structural.spans_expirations spanned)
          ++ when (has_duplicates s.legs) Structural.duplicate_legs)
