-- ===== src/Strategies/Payoff/Slopes.antt =====
-- Between two neighbouring strikes a conservative payoff is a straight line.
use iron_spyder.Prelude.{
  All, ℕ, ◌≡◌, refl, sym, ap, ◌∙◌, ◌⊎◌, inl, inr, Bool, true, not, ◌&&◌, List, [], ◌∷◌, arith, leb,
  if◌then◌else◌, Bool-cases,
}
use iron_spyder.Prelude.Int.{
  ℤ, pos, ◌+ℤ◌, ◌-ℤ◌, ◌*ℤ◌, ◌≤ℤ◌, ltb_ℤ, leb_ℤ, int_laws, ≤ℤ_total, parts_of, eq_of_parts,
}
use iron_spyder.Prelude.Int.Products.{*ℤ_distrib, *ℤ_comm, +ℤ-*ℤ, *ℤ_nonneg, *ℤ_nonpos, *ℤ_zero}
use iron_spyder.Float.{Float, max2}
use iron_spyder.Domain.Enums.{OptionRight, contract_multiplier}
use iron_spyder.Domain.Strategy.{OptionLeg}
use iron_spyder.Strategies.Payoff.{intrinsic, upper_bound, leg_value_bound, gross_from}
use iron_spyder.Strategies.Payoff.Exact.{IsExact}

-- How a value goes on from a point on.
pub data Trend : Type 0 where
  up flat down : Trend

-- The value `y` at distance `d` from where it was `x`.
abbrev pub Follows : Trend → ℤ → ℤ → ℤ → Type 0
Follows Trend.up d x y = y ≡ x +ℤ d
Follows Trend.flat d x y = y ≡ x
Follows Trend.down d x y = y ≡ x -ℤ d

abbrev pub rate : Trend → ℤ → ℤ
rate Trend.up c = c
rate Trend.flat c = pos 0
rate Trend.down c = pos 0 -ℤ c

*ℤ-distrib_sub : (c x d : ℤ) → c *ℤ (x -ℤ d) ≡ c *ℤ x -ℤ c *ℤ d
*ℤ-distrib_sub c x d =
    let back : x ≡ x -ℤ d +ℤ d = omega int_laws in
    let e = ap (λ t. c *ℤ t) back ∙ *ℤ_distrib c (x -ℤ d) d in omega (int_laws, parts_of e)

rate_zero : (d c : ℤ) → d *ℤ (pos 0 -ℤ c) ≡ pos 0 -ℤ c *ℤ d
rate_zero d c = rw (*ℤ-distrib_sub d (pos 0) c, *ℤ_zero d, *ℤ_comm d c) refl

scaled_Follows : (t : Trend) (c d x y : ℤ) → Follows t d x y → c *ℤ y ≡ c *ℤ x +ℤ d *ℤ rate t c
scaled_Follows Trend.up c d x y h = rw (h, *ℤ_distrib c x d, *ℤ_comm c d) refl
scaled_Follows Trend.flat c d x y h = rw (h, *ℤ_zero d) (omega int_laws)
scaled_Follows Trend.down c d x y h =
    rw (h, *ℤ-distrib_sub c x d) (omega (int_laws, parts_of (rate_zero d c)))

abbrev clipped : ℤ → ℤ
clipped a = if ltb_ℤ (pos 0) a then a else pos 0

-- The trend of an option at intrinsic value, from `a` on, by the strike.
abbrev pub intrinsic_trend : OptionRight → ℤ → ℤ → Trend
intrinsic_trend OptionRight.call k a = if leb_ℤ k a then Trend.up else Trend.flat
intrinsic_trend OptionRight.put k a = if leb_ℤ k a then Trend.flat else Trend.down

call-Follows :
    (k a x : ℤ)
    → a ≤ℤ x
    → (k ≤ℤ a) ⊎ (x ≤ℤ k)
    → Follows (intrinsic_trend OptionRight.call k a) (x -ℤ a) (clipped (a -ℤ k)) (clipped (x -ℤ k))
unfolding ◌-ℤ◌ ◌+ℤ◌
call-Follows k a x h side = elim (Bool-cases (leb_ℤ k a)) [
  | inl below ↦ rw below (ground arith)
  | inr above ↦ rw above (ground arith)
]

put-Follows :
    (k a x : ℤ)
    → a ≤ℤ x
    → (k ≤ℤ a) ⊎ (x ≤ℤ k)
    → Follows (intrinsic_trend OptionRight.put k a) (x -ℤ a) (clipped (k -ℤ a)) (clipped (k -ℤ x))
unfolding ◌-ℤ◌ ◌+ℤ◌
put-Follows k a x h side = elim (Bool-cases (leb_ℤ k a)) [
  | inl below ↦ rw below (ground arith)
  | inr above ↦ rw above (ground arith)
]

-- A line from `a` over `s` to `b` is, at `s`, no lower than at one of its ends.
pub line_low :
    (m pa a s b : ℤ)
    → a ≤ℤ s
    → s ≤ℤ b
    → (pa ≤ℤ pa +ℤ (s -ℤ a) *ℤ m) ⊎ (pa +ℤ (b -ℤ a) *ℤ m ≤ℤ pa +ℤ (s -ℤ a) *ℤ m)
line_low m pa a s b h k = elim (≤ℤ_total (pos 0) m) [
  | inl rising ↦ inl (omega (int_laws, *ℤ_nonneg (s -ℤ a) m (omega int_laws) rising))
  | inr falling ↦
      let way : b -ℤ a ≡ s -ℤ a +ℤ (b -ℤ s) = omega int_laws in
      let e = ap (λ t. t *ℤ m) way ∙ +ℤ-*ℤ (s -ℤ a) (b -ℤ s) m in
      let fall = *ℤ_nonpos m (b -ℤ s) falling (omega int_laws) in
      let turn = *ℤ_comm m (b -ℤ s) in inr (omega (int_laws, parts_of e, fall, parts_of turn))
]

module _ {W : Type 0} ⦃f : Float W⦄ (ex : IsExact f) where
  open f use {nought, plus, minus, times, of_int}
  open ex use {units, units-nought, units-plus, units-minus, units-times, lt_units}

  clipped_units : (x : W) → units (max2 nought x) ≡ clipped (units x)
  clipped_units x = elim (Bool-cases (ltb_ℤ (units nought) (units x))) [
    | inl above ↦ rw (lt_units, above, ap (λ z. ltb_ℤ z (units x)) (sym units-nought) ∙ above) refl
    | inr below ↦
        rw (lt_units, below, ap (λ z. ltb_ℤ z (units x)) (sym units-nought) ∙ below, units-nought)
          refl
  ]

  clipped_difference : (a k : W) → units (max2 nought (minus a k)) ≡ clipped (units a -ℤ units k)
  clipped_difference a k = clipped_units (minus a k) ∙ ap clipped (units-minus a k)

  -- Whether a short leg outlives a checkpoint, and so is valued at its upper bound.
  abbrev pub outlives : ℕ → OptionLeg W → Bool
  outlives t leg = not (leb leg.expiry t) && not (ltb_ℤ (pos 0) leg.quantity)

  abbrev pub bound_trend : OptionRight → Trend
  bound_trend OptionRight.call = Trend.up
  bound_trend OptionRight.put = Trend.flat

  abbrev pub trend : ℕ → ℤ → OptionLeg W → Trend
  trend t a leg =
      if outlives t leg
      then bound_trend leg.right
      else intrinsic_trend leg.right (units leg.strike) a

  -- No strike strictly between `a` and `x`.
  abbrev pub Clear : ℤ → ℤ → List (OptionLeg W) → Type 0
  Clear a x legs = All (λ leg. (units leg.strike ≤ℤ a) ⊎ (x ≤ℤ units leg.strike)) legs

  intrinsic-Follows :
      (r : OptionRight) (k a x : W)
      → units a ≤ℤ units x
      → (units k ≤ℤ units a) ⊎ (units x ≤ℤ units k)
      → Follows
          (intrinsic_trend r (units k) (units a))
          (units x -ℤ units a)
          (units (intrinsic r k a))
          (units (intrinsic r k x))
  intrinsic-Follows OptionRight.call k a x h side =
      rw (clipped_difference a k, clipped_difference x k)
        (call-Follows (units k) (units a) (units x) h side)
  intrinsic-Follows OptionRight.put k a x h side =
      rw (clipped_difference k a, clipped_difference k x)
        (put-Follows (units k) (units a) (units x) h side)

  bound_Follows :
      (r : OptionRight) (k a x : W)
      → Follows
          (bound_trend r)
          (units x -ℤ units a)
          (units (upper_bound r k a))
          (units (upper_bound r k x))
  bound_Follows OptionRight.call k a x = eq_of_parts _ _ (omega int_laws)
  bound_Follows OptionRight.put k a x = refl

  leg-Follows :
      (leg : OptionLeg W) (t : ℕ) (a x : W)
      → units a ≤ℤ units x
      → (units leg.strike ≤ℤ units a) ⊎ (units x ≤ℤ units leg.strike)
      → Follows
          (trend t (units a) leg)
          (units x -ℤ units a)
          (units (leg_value_bound leg a t true))
          (units (leg_value_bound leg x t true))
  unfolding leg_value_bound
  leg-Follows leg t a x h side =
      let inside = intrinsic-Follows leg.right leg.strike a x h side in
      elim (Bool-cases (leb leg.expiry t)) [
        | inl expired ↦ rw expired inside
        | inr later ↦ elim (Bool-cases (ltb_ℤ (pos 0) leg.quantity)) [
          | inl long ↦ rw (later, long) inside
          | inr short ↦ rw (later, short) (bound_Follows leg.right leg.strike a x)
        ]
      ]

  abbrev pub weight : OptionLeg W → ℤ
  weight leg = leg.quantity *ℤ pos contract_multiplier

  -- The gross value of legs, in units.
  abbrev pub total : (OptionLeg W → W) → List (OptionLeg W) → ℤ
  total value [] = pos 0
  total value (leg ∷ legs) = weight leg *ℤ units (value leg) +ℤ total value legs

  abbrev pub slope : ℕ → ℤ → List (OptionLeg W) → ℤ
  slope t a [] = pos 0
  slope t a (leg ∷ legs) = rate (trend t a leg) (weight leg) +ℤ slope t a legs

  pub gross_from-units :
      (value : OptionLeg W → W) (acc : W) (legs : List (OptionLeg W))
      → units (gross_from value acc legs) ≡ units acc +ℤ total value legs
  unfolding gross_from
  gross_from-units value acc [] = eq_of_parts _ _ (omega int_laws)
  gross_from-units value acc (leg ∷ legs) =
      gross_from-units value (plus acc (times (of_int (weight leg)) (value leg))) legs
      ∙ rw (units-plus, units-times) (eq_of_parts _ _ (omega int_laws))

  -- The gross value at `x`, from that at `a`, where no strike lies between.
  pub total_line :
      (t : ℕ) (a x : W) (legs : List (OptionLeg W))
      → units a ≤ℤ units x
      → Clear (units a) (units x) legs
      → total (λ leg. leg_value_bound leg x t true) legs
        ≡ total (λ leg. leg_value_bound leg a t true) legs
          +ℤ (units x -ℤ units a) *ℤ slope t (units a) legs
  unfolding leg_value_bound
  total_line t a x [] h c =
      eq_of_parts _ _ (omega (int_laws, parts_of (*ℤ_zero (units x -ℤ units a))))
  total_line t a x (leg ∷ legs) h (c, cs) =
      let d = units x -ℤ units a in
      let own =
        scaled_Follows (trend t (units a) leg) (weight leg) d _ _ (leg-Follows leg t a x h c) in
      let rest = total_line t a x legs h cs in
      let split =
        *ℤ_distrib d (rate (trend t (units a) leg) (weight leg)) (slope t (units a) legs) in
      eq_of_parts _ _ (omega (int_laws, parts_of own, parts_of rest, parts_of split))
