-- ===== src/Strategies/Payoff/Bounded.antt =====
-- `max_loss` bounds the loss at every price of the underlying, for every admissible market value.
use mathlib.Core.Option.{some-injective, none-ne-some}
use iron_spyder.Prelude.{
  All, ℕ, suc, ◌≤◌, ◌≡◌, sym, ◌∙◌, inl, inr, true, false, none, some, List, [], ◌∷◌, arith, leb,
  if◌then◌else◌, Bool-cases,
}
use iron_spyder.Prelude.Int.{
  ℤ, pos, negsuc, ◌+ℤ◌, ◌-ℤ◌, ◌*ℤ◌, ◌≤ℤ◌, ltb_ℤ, leb_ℤ, int_laws, parts_of, eq_of_parts,
}
use iron_spyder.Prelude.Int.Products.{*ℤ_mono, *ℤ_anti, *ℤ_nonpos, *ℤ_nonneg}
use iron_spyder.Float.{Float, max2}
use iron_spyder.Domain.Enums.{OptionRight, contract_multiplier}
use iron_spyder.Domain.Strategy.{OptionLeg, Strategy, check_leg, strikes, expiries, net_entry_cost}
use iron_spyder.Strategies.Payoff.{
  Worst, intrinsic, upper_bound, leg_value_bound, quantity_sum, payoff_with, payoff_at, tail_slopes,
  spots_of, evaluation_spots, worst_over, loss_of,
}
use iron_spyder.Strategies.Payoff.Exact.{IsExact}
use iron_spyder.Strategies.Payoff.Slopes.{weight, total, gross_from-units}
use iron_spyder.Strategies.Payoff.Extremes.{value_at, low_walk}
use iron_spyder.Strategies.Payoff.Profile.{worst_of, max_loss_of_profile, payoff_profile}
use iron_spyder.Strategies.Payoff.Points.{points_lem}
use iron_spyder.Strategies.Payoff.Worst.{IsCheckpoint, AtMost, payoff_units, worst_over-AtMost}

nonneg_of_scaled : (a : ℤ) (k : ℕ) → 1 ≤ k → pos 0 ≤ℤ a *ℤ pos k → pos 0 ≤ℤ a
unfolding ◌*ℤ◌
nonneg_of_scaled (pos a) k h p = omega arith
nonneg_of_scaled (negsuc a) (suc k) h p = ground arith
nonneg_of_scaled (negsuc a) Prim.Native.Nat.zero h p = omega arith

not_less : (a b : ℤ) → ltb_ℤ a b ≡ false → b ≤ℤ a
not_less a b h = ground arith

leb_of : (a b : ℤ) → a ≤ℤ b → leb_ℤ a b ≡ true
leb_of a b h = ground arith

module _ {W : Type 0} ⦃f : Float W⦄ (ex : IsExact f) where
  open f use {nought, negate, lt, le, of_int}
  open ex use {
    units, units-nought, units-minus, units-negate, lt_units, le_units, one, one_pos, units-of_int,
  }

  -- A value that the market can give a leg at a checkpoint: its intrinsic value once it has expired, and
  -- before that no less than it and no more than the upper bound.
  abbrev pub IsPriced : ℕ → W → OptionLeg W → W → Type 0
  IsPriced t at leg v =
      if leb leg.expiry t
      then v ≡ intrinsic leg.right leg.strike at
      else (le (intrinsic leg.right leg.strike at) v ≡ true)
        × (le v (upper_bound leg.right leg.strike at) ≡ true)

  leb_le : (a b : W) → le a b ≡ true → units a ≤ℤ units b
  leb_le a b h = let h' : leb_ℤ (units a) (units b) ≡ true = sym (le_units a b) ∙ h in ground arith

  -- The bound of a leg is on the losing side of its market value.
  leg_low :
      (t : ℕ) (at : W) (leg : OptionLeg W) (v : W)
      → IsPriced t at leg v
      → weight ex leg *ℤ units (leg_value_bound leg at t true) ≤ℤ weight ex leg *ℤ units v
  unfolding leg_value_bound
  leg_low t at leg v h =
      let c = weight ex leg in
      let floor = intrinsic leg.right leg.strike at in
      elim (Bool-cases (leb leg.expiry t)) [
        | inl expired ↦ rw expired (rw (rw expired at h) (omega arith))
        | inr later ↦
            let (low, high) = rw later at h in
            elim (Bool-cases (ltb_ℤ (pos 0) leg.quantity)) [
              | inl long ↦
                  rw (later, long)
                    (*ℤ_mono c (units floor) (units v)
                      (*ℤ_nonneg leg.quantity (pos contract_multiplier) (ground arith)
                        (omega arith))
                      (leb_le floor v low))
              | inr short ↦
                  rw (later, short)
                    (*ℤ_anti c (units v) (units (upper_bound leg.right leg.strike at))
                      (*ℤ_nonpos leg.quantity (pos contract_multiplier) (ground arith)
                        (omega arith))
                      (leb_le v (upper_bound leg.right leg.strike at) high))
            ]
      ]

  total_low :
      (t : ℕ) (at : W) (value : OptionLeg W → W) (legs : List (OptionLeg W))
      → All (λ leg. IsPriced t at leg (value leg)) legs
      → value_at ex t at legs ≤ℤ total ex value legs
  total_low t at value [] h = omega arith
  total_low t at value (leg ∷ legs) (h, hs) =
      omega (int_laws, leg_low t at leg (value leg) h, total_low t at value legs hs)

  calls_lem :
      (s : Strategy W)
      → lt (tail_slopes s).0 nought ≡ false
      → pos 0 ≤ℤ quantity_sum OptionRight.call s.legs
  unfolding tail_slopes
  calls_lem s h =
      let calls = quantity_sum OptionRight.call s.legs in
      let up = of_int (calls *ℤ pos contract_multiplier) in
      let level : ltb_ℤ (units up) (units nought) ≡ false = sym (lt_units up nought) ∙ h in
      let above : pos 0 ≤ℤ units up =
        omega (int_laws, parts_of units-nought, not_less (units up) (units nought) level) in
      nonneg_of_scaled calls contract_multiplier (omega arith)
        (nonneg_of_scaled (calls *ℤ pos contract_multiplier) one one_pos (rw units-of_int at above))

  payoff_units-total :
      (value : OptionLeg W → W) (s : Strategy W)
      → units (payoff_with value s) ≡ total ex value s.legs -ℤ units (net_entry_cost s)
  unfolding payoff_with
  payoff_units-total value s =
      let cost = net_entry_cost s in
      rw (units-minus, gross_from-units) (eq_of_parts _ _ (omega (int_laws, parts_of units-nought)))

  -- The loss of a worst payoff is no smaller than what the payoff loses.
  loss_of-le :
      (w : Worst W) (loss : W) (v : ℤ)
      → loss_of w ≡ some loss
      → AtMost ex w v
      → units (negate loss) ≤ℤ v
  loss_of-le none loss v h low = absurd low
  loss_of-le (some w) loss v h low =
      let e : max2 nought (negate w.0) ≡ loss = some-injective _ _ h in
      elim (Bool-cases (lt nought (negate w.0))) [
        | inl losing ↦
            let same : negate w.0 ≡ loss = rw losing at e in
            rw (sym same) (rw (units-negate, units-negate) (omega (int_laws, low)))
        | inr winning ↦
            let same : nought ≡ loss = rw winning at e in
            let up : ltb_ℤ (units nought) (units (negate w.0)) ≡ false =
              sym (lt_units _ _) ∙ winning in
            rw (sym same) (
              let level = not_less (units nought) (units (negate w.0)) up in
              let turned = parts_of (units-negate w.0) in
              rw units-negate (omega (int_laws, parts_of units-nought, level, turned, low)))
      ]

  points_low :
      (s : Strategy W) (t : ℕ) (w : Worst W) (loss : W) (ats : List W)
      → loss_of w ≡ some loss
      → All (λ at. AtMost ex w (payoff_units ex s t at)) ats
      → All (λ at. units (negate loss) +ℤ units (net_entry_cost s) ≤ℤ value_at ex t at s.legs) ats
  unfolding payoff_at
  points_low s t w loss [] e h = tt
  points_low s t w loss (at ∷ ats) e (h, hs) =
      let value : OptionLeg W → W = λ leg. leg_value_bound leg at t true in
      let own = parts_of (payoff_units-total value s) in
      let low = loss_of-le w loss (units (payoff_with value s)) e h in
      (omega (int_laws, own, low), points_low s t w loss ats e hs)

  max_loss_lem :
      (s : Strategy W) (loss : W)
      → (payoff_profile s none).max_loss ≡ some loss
      → (lt (tail_slopes s).0 nought ≡ false) × (loss_of (worst_of s none) ≡ some loss)
  unfolding payoff_profile max_loss_of_profile
  max_loss_lem s loss h = elim (Bool-cases (lt (tail_slopes s).0 nought)) [
    | inl falling ↦ absurd (none-ne-some _ (rw falling at h))
    | inr level ↦ (level, rw level at h)
  ]

  spots_low :
      (s : Strategy W) (t : ℕ) (loss : W)
      → loss_of (worst_of s none) ≡ some loss
      → IsCheckpoint t (expiries s.legs)
      → All
          (λ at. units (negate loss) +ℤ units (net_entry_cost s) ≤ℤ value_at ex t at s.legs)
          (spots_of (strikes s.legs) none)
  unfolding worst_of evaluation_spots
  spots_low s t loss e here =
      let spots = spots_of (strikes s.legs) none in
      points_low s t (worst_over s (expiries s.legs) spots none) loss spots e
        (worst_over-AtMost ex s (expiries s.legs) spots none t here)

  -- `max_loss` is a bound on the loss: whatever the market gives the legs that are left at an expiry of
  -- the structure, at a price of the underlying that is not negative, the profit is at least `-max_loss`.
  -- The legs are as `OptionLeg` admits them and the arithmetic is exact.
  pub payoff_profile-bounds :
      (s : Strategy W) (loss : W) (t : ℕ) (at : W) (value : OptionLeg W → W)
      → All (λ leg. check_leg leg ≡ none) s.legs
      → (payoff_profile s none).max_loss ≡ some loss
      → IsCheckpoint t (expiries s.legs)
      → le nought at ≡ true
      → All (λ leg. IsPriced t at leg (value leg)) s.legs
      → le (negate loss) (payoff_with value s) ≡ true
  payoff_profile-bounds s loss t at value checked bound here positive priced =
      let (level, worst) = max_loss_lem s loss bound in
      let (bs, points, rising, covered) = points_lem ex s.legs checked in
      let cost = units (net_entry_cost s) in
      let low =
        low_walk ex t s.legs (units (negate loss) +ℤ cost) at nought bs (calls_lem s level)
          (rw points at (spots_low s t loss worst here)) rising covered
          (leb_le nought at positive) in
      let held = total_low t at value s.legs priced in
      let own = parts_of (payoff_units-total value s) in
      le_units _ _
      ∙ leb_of (units (negate loss)) (units (payoff_with value s))
          (omega (int_laws, low, held, own))
