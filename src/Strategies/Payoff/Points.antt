-- ===== src/Strategies/Payoff/Points.antt =====
-- The points of `evaluation_spots` rise from 0 and cover every strike.
use iron_spyder.Prelude.{
  All, ◌≡◌, refl, sym, ◌∙◌, inl, inr, true, false, none, List, [], ◌∷◌, ◌++◌, arith, Bool-cases,
}
use iron_spyder.Prelude.Int.{ℤ, pos, ◌≤ℤ◌, ltb_ℤ, leb_ℤ, eqb_ℤ, int_laws, parts_of}
use iron_spyder.Float.{Float}
use iron_spyder.Domain.Strategy.{OptionLeg, check_leg, insert_strike, strikes}
use iron_spyder.Strategies.Payoff.{default_bound, last_of, spots_of}
use iron_spyder.Strategies.Payoff.Exact.{IsExact}
use iron_spyder.Strategies.Payoff.Extremes.{Rising, Listed, Covered}

module _ {W : Type 0} ⦃f : Float W⦄ (ex : IsExact f) where
  open f use {nought, decimal, plus, times, negate, lt, le, eq}
  open ex use {
    units, units-nought, units-plus, units-minus, units-negate, units-decimal, lt_units, le_units,
    eq_units,
  }

  Rising-insert_strike :
      (lo x : W) (ys : List W)
      → units lo ≤ℤ units x
      → Rising ex lo ys
      → Rising ex lo (insert_strike x ys)
  unfolding insert_strike
  Rising-insert_strike lo x [] h r = (h, tt)
  Rising-insert_strike lo x (y ∷ ys) h (up, r) = elim (Bool-cases (eq x y)) [
    | inl same ↦ rw same (up, r)
    | inr other ↦ elim (Bool-cases (lt x y)) [
      | inl less ↦
          let below : ltb_ℤ (units x) (units y) ≡ true = sym (lt_units x y) ∙ less in
          rw (other, less) (h, (ground arith, r))
      | inr more ↦
          let above : ltb_ℤ (units x) (units y) ≡ false = sym (lt_units x y) ∙ more in
          rw (other, more) (up, Rising-insert_strike y x ys (ground arith) r)
    ]
  ]

  Listed-insert_self : (x : W) (ys : List W) → Listed ex (units x) (insert_strike x ys)
  unfolding insert_strike
  Listed-insert_self x [] = inl refl
  Listed-insert_self x (y ∷ ys) = elim (Bool-cases (eq x y)) [
    | inl same ↦ rw same (inl (eq_units x y same))
    | inr other ↦ elim (Bool-cases (lt x y)) [
      | inl less ↦ rw (other, less) (inl refl)
      | inr more ↦ rw (other, more) (inr (Listed-insert_self x ys))
    ]
  ]

  Listed-insert : (z : ℤ) (x : W) (ys : List W) → Listed ex z ys → Listed ex z (insert_strike x ys)
  unfolding insert_strike
  Listed-insert z x [] h = absurd h
  Listed-insert z x (y ∷ ys) h = elim (Bool-cases (eq x y)) [
    | inl same ↦ rw same h
    | inr other ↦ elim (Bool-cases (lt x y)) [
      | inl less ↦ rw (other, less) (inr h)
      | inr more ↦
          rw (other, more) (elim h [ inl e ↦ inl e | inr k ↦ inr (Listed-insert z x ys k) ])
    ]
  ]

  check_leg-positive : (leg : OptionLeg W) → check_leg leg ≡ none → pos 0 ≤ℤ units leg.strike
  unfolding check_leg
  check_leg-positive leg h = elim (Bool-cases (le leg.strike nought)) [
    | inl bad ↦ elim (Bool-cases (eqb_ℤ leg.quantity (pos 0))) [
      | inl none_held ↦ cc (rw (none_held, check_leg) at h)
      | inr held ↦ cc (rw (held, bad, check_leg) at h)
    ]
    | inr good ↦
        let above : leb_ℤ (units leg.strike) (units nought) ≡ false =
          sym (le_units leg.strike nought) ∙ good in
        let e = parts_of units-nought in
        omega (int_laws, e, above_lem (units leg.strike) (units nought) above)
  ]
    where
      above_lem : (a b : ℤ) → leb_ℤ a b ≡ false → b ≤ℤ a
      above_lem a b h = ground arith

  Rising-strikes :
      (legs : List (OptionLeg W))
      → All (λ leg. check_leg leg ≡ none) legs
      → Rising ex nought (strikes legs)
  unfolding strikes
  Rising-strikes [] h = tt
  Rising-strikes (leg ∷ legs) (h, hs) =
      let e = parts_of units-nought in
      Rising-insert_strike nought leg.strike (strikes legs)
        (omega (int_laws, e, check_leg-positive leg h)) (Rising-strikes legs hs)

  abbrev AllListed : List W → List (OptionLeg W) → Type 0
  AllListed ks legs = All (λ leg. Listed ex (units leg.strike) ks) legs

  AllListed-insert :
      (k : W) (ks : List W) (legs : List (OptionLeg W))
      → AllListed ks legs
      → AllListed (insert_strike k ks) legs
  AllListed-insert k ks [] h = tt
  AllListed-insert k ks (leg ∷ legs) (h, hs) =
      (Listed-insert _ k ks h, AllListed-insert k ks legs hs)

  strikes-AllListed : (legs : List (OptionLeg W)) → AllListed (strikes legs) legs
  unfolding strikes
  strikes-AllListed [] = tt
  strikes-AllListed (leg ∷ legs) = (
    Listed-insert_self leg.strike (strikes legs),
    AllListed-insert leg.strike (strikes legs) legs (strikes-AllListed legs),
  )

  Rising-append :
      (a e : W) (ks : List W)
      → Rising ex a ks
      → units (last_of a ks) ≤ℤ units e
      → Rising ex a (ks ++ (e ∷ []))
  unfolding last_of
  Rising-append a e [] r h = (h, tt)
  Rising-append a e (k ∷ ks) (up, r) h = (up, Rising-append k e ks r h)

  Listed-append : (z : ℤ) (e : W) (ks : List W) → Listed ex z ks → Listed ex z (ks ++ (e ∷ []))
  Listed-append z e [] h = absurd h
  Listed-append z e (k ∷ ks) (inl h) = inl h
  Listed-append z e (k ∷ ks) (inr h) = inr (Listed-append z e ks h)

  AllListed-Covered :
      (ks bs : List W) (legs : List (OptionLeg W))
      → ((z : ℤ) → Listed ex z ks → Listed ex z bs)
      → AllListed ks legs
      → Covered ex nought bs legs
  AllListed-Covered ks bs [] g h = tt
  AllListed-Covered ks bs (leg ∷ legs) g (h, hs) = (inr (g _ h), AllListed-Covered ks bs legs g hs)

  default_bound-le : (k : W) → units k ≤ℤ units (default_bound k)
  default_bound-le k =
      let sum = plus k (decimal 100 0) in
      let far : units k ≤ℤ units sum = rw units-plus (omega (int_laws, units-decimal 100 0)) in
      elim (Bool-cases (lt (times (decimal 2 0) k) sum)) [
        | inl less ↦ rw less far
        | inr more ↦
            let above : ltb_ℤ (units (times (decimal 2 0) k)) (units sum) ≡ false =
              sym (lt_units _ _) ∙ more in
            rw more (omega (arith, far, not_less (units (times (decimal 2 0) k)) (units sum) above))
      ]
    where
      not_less : (a b : ℤ) → ltb_ℤ a b ≡ false → b ≤ℤ a
      not_less a b h = ground arith

  spots_of-nil : spots_of [] none ≡ nought ∷ []
  unfolding spots_of
  spots_of-nil = refl

  spots_of-cons :
      (k : W) (ks : List W)
      → spots_of (k ∷ ks) none ≡ nought ∷ ((k ∷ ks) ++ (default_bound (last_of k ks) ∷ []))
  unfolding spots_of
  spots_of-cons k ks = refl

  -- The points that follow 0.
  pub points_lem :
      (legs : List (OptionLeg W))
      → All (λ leg. check_leg leg ≡ none) legs
      → (bs : List W) × (spots_of (strikes legs) none ≡ nought ∷ bs)
        × Rising ex nought bs
        × Covered ex nought bs legs
  points_lem legs h = shape (strikes legs) (Rising-strikes legs h) (strikes-AllListed legs)
    where
      shape :
          (ks : List W)
          → Rising ex nought ks
          → AllListed ks legs
          → (bs : List W) × (spots_of ks none ≡ nought ∷ bs)
            × Rising ex nought bs
            × Covered ex nought bs legs
      shape [] r c = ([], spots_of-nil, tt, AllListed-Covered [] [] legs (λ z k. k) c)
      shape (k ∷ ks) (up, r) c =
          let end = default_bound (last_of k ks) in
          (
            (k ∷ ks) ++ (end ∷ []),
            spots_of-cons k ks,
            (up, Rising-append k end ks r (default_bound-le (last_of k ks))),
            AllListed-Covered (k ∷ ks) ((k ∷ ks) ++ (end ∷ [])) legs
                (λ z. Listed-append z end (k ∷ ks)) c,
          )
