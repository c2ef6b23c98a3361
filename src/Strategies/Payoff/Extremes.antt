-- ===== src/Strategies/Payoff/Extremes.antt =====
-- The points that are evaluated hold the lowest conservative payoff.
use iron_spyder.Prelude.{
  All, ℕ, ◌≡◌, refl, sym, ◌⊎◌, inl, inr, Bool, true, false, List, [], ◌∷◌, arith, if◌then◌else◌,
  Bool-cases,
}
use iron_spyder.Prelude.Int.{
  ℤ, pos, ◌-ℤ◌, ◌*ℤ◌, ◌≤ℤ◌, leb_ℤ, int_laws, ≤ℤ_total, parts_of, eq_of_parts,
}
use iron_spyder.Prelude.Int.Products.{+ℤ-*ℤ, *ℤ_nonneg, *ℤ_parts}
use iron_spyder.Float.{Float}
use iron_spyder.Domain.Enums.{OptionRight, right_eq, contract_multiplier}
use iron_spyder.Domain.Strategy.{OptionLeg}
use iron_spyder.Strategies.Payoff.{leg_value_bound, quantity_sum}
use iron_spyder.Strategies.Payoff.Exact.{IsExact}
use iron_spyder.Strategies.Payoff.Slopes.{
  rate, intrinsic_trend, bound_trend, outlives, weight, total, slope, Clear, total_line, line_low,
}

module _ {W : Type 0} ⦃f : Float W⦄ (ex : IsExact f) where
  open f use {nought, decimal, plus, lt, le, eq}
  open ex use {units, units-nought, units-plus, units-decimal, lt_units, le_units, eq_units}

  abbrev pub Rising : W → List W → Type 0
  Rising a [] = Unit
  Rising a (b ∷ bs) = (units a ≤ℤ units b) × Rising b bs

  abbrev pub Listed : ℤ → List W → Type 0
  Listed z [] = ⊥
  Listed z (b ∷ bs) = (z ≡ units b) ⊎ Listed z bs

  -- Every strike is at most `a` or among the points.
  abbrev pub Covered : W → List W → List (OptionLeg W) → Type 0
  Covered a bs legs = All (λ leg. (units leg.strike ≤ℤ units a) ⊎ Listed (units leg.strike) bs) legs

  Listed-le : (z : ℤ) (a : W) (bs : List W) → Rising a bs → Listed z bs → units a ≤ℤ z
  Listed-le z a [] r h = absurd h
  Listed-le z a (b ∷ bs) (up, r) (inl e) = omega (int_laws, parts_of e)
  Listed-le z a (b ∷ bs) (up, r) (inr h) = omega (int_laws, Listed-le z b bs r h)

  Covered-Clear :
      (a b : W) (bs : List W) (x : ℤ) (legs : List (OptionLeg W))
      → Rising b bs
      → x ≤ℤ units b
      → Covered a (b ∷ bs) legs
      → Clear ex (units a) x legs
  Covered-Clear a b bs x [] r h c = tt
  Covered-Clear a b bs x (leg ∷ legs) r h (inl low, cs) =
      (inl low, Covered-Clear a b bs x legs r h cs)
  Covered-Clear a b bs x (leg ∷ legs) r h (inr (inl here), cs) =
      (inr (omega (int_laws, parts_of here)), Covered-Clear a b bs x legs r h cs)
  Covered-Clear a b bs x (leg ∷ legs) r h (inr (inr later), cs) =
      (inr (omega (int_laws, Listed-le _ b bs r later)), Covered-Clear a b bs x legs r h cs)

  Covered-next :
      (a b : W) (bs : List W) (legs : List (OptionLeg W))
      → units a ≤ℤ units b
      → Covered a (b ∷ bs) legs
      → Covered b bs legs
  Covered-next a b bs [] h c = tt
  Covered-next a b bs (leg ∷ legs) h (inl low, cs) =
      (inl (omega (int_laws, low)), Covered-next a b bs legs h cs)
  Covered-next a b bs (leg ∷ legs) h (inr (inl here), cs) =
      (inl (omega (int_laws, parts_of here)), Covered-next a b bs legs h cs)
  Covered-next a b bs (leg ∷ legs) h (inr (inr later), cs) =
      (inr later, Covered-next a b bs legs h cs)

  trend_tail :
      (b : Bool) (r : OptionRight) (k a c : ℤ)
      → leb_ℤ k a ≡ true
      → rate (if b then bound_trend ex r else intrinsic_trend r k a) c
        ≡ (if right_eq r OptionRight.call then c else pos 0)
  trend_tail true OptionRight.call k a c h = refl
  trend_tail true OptionRight.put k a c h = refl
  trend_tail false OptionRight.call k a c h = rw h refl
  trend_tail false OptionRight.put k a c h = rw h refl

  -- Beyond all strikes the slope is the sum of the calls.
  slope_tail :
      (t : ℕ) (a : W) (legs : List (OptionLeg W))
      → Covered a [] legs
      → slope ex t (units a) legs ≡ quantity_sum OptionRight.call legs *ℤ pos contract_multiplier
  unfolding quantity_sum
  slope_tail t a [] c =
      eq_of_parts _ _ (omega (int_laws, *ℤ_parts (pos 0) (pos contract_multiplier)))
  slope_tail t a (leg ∷ legs) (inr h, cs) = absurd h
  slope_tail t a (leg ∷ legs) (inl low, cs) =
      let own =
        trend_tail (outlives ex t leg) leg.right (units leg.strike) (units a) (weight ex leg)
          (ground arith) in
      let rest = slope_tail t a legs cs in
      let calls = quantity_sum OptionRight.call legs in
      elim (Bool-cases (right_eq leg.right OptionRight.call)) [
        | inl call ↦ rw (own, rest, call) (sym (+ℤ-*ℤ leg.quantity calls (pos contract_multiplier)))
        | inr put ↦ rw (own, rest, put) (eq_of_parts _ _ (omega int_laws))
      ]

  abbrev pub value_at : ℕ → W → List (OptionLeg W) → ℤ
  value_at t x legs = total ex (λ leg. leg_value_bound leg x t true) legs

  Covered-Clear_tail :
      (a : W) (x : ℤ) (legs : List (OptionLeg W)) → Covered a [] legs → Clear ex (units a) x legs
  Covered-Clear_tail a x [] c = tt
  Covered-Clear_tail a x (leg ∷ legs) (inl low, cs) = (inl low, Covered-Clear_tail a x legs cs)
  Covered-Clear_tail a x (leg ∷ legs) (inr h, cs) = absurd h

  tail_low :
      (t : ℕ) (legs : List (OptionLeg W)) (x a : W)
      → pos 0 ≤ℤ quantity_sum OptionRight.call legs
      → Covered a [] legs
      → units a ≤ℤ units x
      → value_at t a legs ≤ℤ value_at t x legs
  tail_low t legs x a calls c h =
      let m = slope ex t (units a) legs in
      let line = total_line ex t a x legs h (Covered-Clear_tail a (units x) legs c) in
      let up : pos 0 ≤ℤ m =
        rw (slope_tail t a legs c) (*ℤ_nonneg _ (pos contract_multiplier) calls (omega arith)) in
      omega (int_laws, parts_of line, *ℤ_nonneg (units x -ℤ units a) m (omega int_laws) up)

  segment_low :
      (t : ℕ) (legs : List (OptionLeg W)) (w : ℤ) (x a b : W)
      → w ≤ℤ value_at t a legs
      → w ≤ℤ value_at t b legs
      → units a ≤ℤ units x
      → units x ≤ℤ units b
      → Clear ex (units a) (units x) legs
      → Clear ex (units a) (units b) legs
      → w ≤ℤ value_at t x legs
  segment_low t legs w x a b low high h k clear_x clear_b =
      let m = slope ex t (units a) legs in
      let at_x = total_line ex t a x legs h clear_x in
      let at_b = total_line ex t a b legs (omega (arith, h, k)) clear_b in
      elim (line_low m (value_at t a legs) (units a) (units x) (units b) h k) [
        | inl left ↦ omega (int_laws, parts_of at_x, low, left)
        | inr right ↦ omega (int_laws, parts_of at_x, parts_of at_b, high, right)
      ]

  pub low_walk :
      (t : ℕ) (legs : List (OptionLeg W)) (w : ℤ) (x a : W) (bs : List W)
      → pos 0 ≤ℤ quantity_sum OptionRight.call legs
      → All (λ b. w ≤ℤ value_at t b legs) (a ∷ bs)
      → Rising a bs
      → Covered a bs legs
      → units a ≤ℤ units x
      → w ≤ℤ value_at t x legs
  low_walk t legs w x a [] calls (low, _) r c h =
      omega (int_laws, low, tail_low t legs x a calls c h)
  low_walk t legs w x a (b ∷ bs) calls (low, (next, lows)) (up, r) c h =
      elim (≤ℤ_total (units x) (units b)) [
        | inl inside ↦
            segment_low t legs w x a b low next h inside
              (Covered-Clear a b bs (units x) legs r inside c)
              (Covered-Clear a b bs (units b) legs r (omega arith) c)
        | inr beyond ↦
            low_walk t legs w x b bs calls (next, lows) r (Covered-next a b bs legs up c) beyond
      ]
