-- ===== src/Execution/Manager/Closing.antt =====
-- The closing order of a position asks for just what the paper broker can achieve on the same snapshot.
use mathlib.Core.Option.{some-injective}
use iron_spyder.Prelude.{
  All, ℕ, ◌≡◌, ◌≢◌, refl, ap, ◌∙◌, inl, inr, true, not, Option, none, some, List, [], ◌∷◌, arith,
  Bool-cases, Option-cases,
}
use iron_spyder.Prelude.Int.{ℤ, pos, negsuc, neg_ℤ, ltb_ℤ, ◌*ℤ◌}
use iron_spyder.Float.{Float, IsOrdered}
use iron_spyder.Domain.Market.{MarketSnapshot, OptionQuote, mid, find_quote}
use iron_spyder.Domain.Strategy.{OptionLeg, check_leg, scaled}
use iron_spyder.Domain.Execution.{MultiLegOrder, Position}
use iron_spyder.Execution.Fills.{CostModel}
use iron_spyder.Execution.Orders.{invert, build_close_order}
use iron_spyder.Execution.PaperBroker.{quotes_for, achievable_price, leg_price, acceptable}
use iron_spyder.Execution.Manager.{
  PositionManager, exit_leg_price, exit_total, exit_price, build_exit_order,
}

neg_mul : (a : ℤ) → a *ℤ negsuc 0 ≡ neg_ℤ a
unfolding ◌*ℤ◌
neg_mul (pos n) = ground arith
neg_mul (negsuc n) = ground arith

-- Inverting a leg turns a sale into a purchase.
sign_flip : (a : ℤ) → a ≢ pos 0 → ltb_ℤ (pos 0) (a *ℤ negsuc 0) ≡ not (ltb_ℤ (pos 0) a)
sign_flip a h = rw (neg_mul a) (by_sign a h)
  where
    by_sign : (a : ℤ) → a ≢ pos 0 → ltb_ℤ (pos 0) (neg_ℤ a) ≡ not (ltb_ℤ (pos 0) a)
    by_sign (pos n) h = ground arith
    by_sign (negsuc n) h = ground arith

module _ {W : Type 0} ⦃f : Float W⦄ where
  open f use {nought, of_int, plus, minus, times, negate, le}

  -- Every leg passes the checks of its constructor.
  abbrev pub IsChecked : List (OptionLeg W) → Type 0
  IsChecked legs = All (λ leg. check_leg leg ≡ none) legs

  check_leg-ne : (leg : OptionLeg W) → check_leg leg ≡ none → leg.quantity ≢ pos 0
  unfolding check_leg
  check_leg-ne leg h zero_held = cc (rw zero_held at h)

module _ {W : Type 0} ⦃f : Float W⦄ (laws : IsOrdered f) where
  open f use {nought, of_int, plus, minus, times, negate, le}
  open laws use {le_refl, negate_nought, negate-plus, negate-times, negate-of_int}

  price_flip :
      (costs : CostModel W) (leg : OptionLeg W) (q : OptionQuote W)
      → leg.quantity ≢ pos 0
      → leg_price costs (scaled (negsuc 0) leg) q ≡ exit_leg_price costs leg q
  unfolding leg_price exit_leg_price
  price_flip costs leg q h = elim (Bool-cases (ltb_ℤ (pos 0) leg.quantity)) [
    | inl long ↦ rw (sign_flip leg.quantity h, long) refl
    | inr short ↦ rw (sign_flip leg.quantity h, short) refl
  ]

  term_flip :
      (costs : CostModel W) (leg : OptionLeg W) (q : OptionQuote W) (acc : W)
      → leg.quantity ≢ pos 0
      → plus
          (negate acc)
          (times (of_int (leg.quantity *ℤ negsuc 0)) (leg_price costs (scaled (negsuc 0) leg) q))
        ≡ negate (plus acc (times (of_int leg.quantity) (exit_leg_price costs leg q)))
  term_flip costs leg q acc h =
      rw (price_flip costs leg q h, neg_mul leg.quantity, negate-plus, negate-times, negate-of_int)
        refl

  -- The quotes of the inverted legs exist if an exit price does, and at them the achievable price of the
  -- inverted legs is the exit price negated.
  exit_total-negate :
      (costs : CostModel W) (chain : List (OptionQuote W)) (legs : List (OptionLeg W))
      (acc price : W)
      → IsChecked legs
      → exit_total costs chain acc legs ≡ some price
      → (qs : List (OptionQuote W)) × (quotes_for (invert legs) chain ≡ some qs)
        × (achievable_price costs (negate acc) (invert legs) qs ≡ negate price)
  unfolding exit_total quotes_for invert achievable_price
  exit_total-negate costs chain [] acc price h e = ([], refl, ap negate (some-injective _ _ e))
  exit_total-negate costs chain (leg ∷ legs) acc price (h, hs) e =
      elim (Option-cases (find_quote leg.expiry leg.strike leg.right chain)) [
        | inl missing ↦ cc (rw (missing, exit_total) at e)
        | inr (q, found) ↦ elim (Bool-cases (le (mid q) nought)) [
          | inl bad ↦ cc (rw (found, bad, exit_total) at e)
          | inr good ↦
              let (qs, quoted, price_eq) =
                exit_total-negate costs chain legs _ price hs (rw (found, good, exit_total) at e) in
              (
                q ∷ qs,
                rw (found, good, quoted, quotes_for) refl,
                ap (λ x. achievable_price costs x (invert legs) qs)
                      (term_flip costs leg q acc (check_leg-ne leg h))
                    ∙ price_eq,
              )
        ]
      ]

  acceptable_at_limit :
      (costs : CostModel W) (o : MultiLegOrder W) (qs : List (OptionQuote W))
      → achievable_price costs nought o.strategy.legs qs ≡ o.limit_price
      → acceptable costs o qs ≡ true
  unfolding acceptable
  acceptable_at_limit costs o qs h = elim (Bool-cases (le nought o.limit_price)) [
    | inl debit ↦ rw (debit, h) (le_refl o.limit_price)
    | inr credit ↦ rw (credit, h) (le_refl o.limit_price)
  ]

  -- Whenever `build_exit_order` returns an order for a position whose legs pass their checks, every leg
  -- of the order is quoted on the same snapshot, and a paper broker with the same costs would find the
  -- price that it can achieve acceptable at once, without any concession.
  pub build_exit_order-acceptable :
      (m : PositionManager W) (p : Position W) (s : MarketSnapshot W) (now : Option ℕ) (id : ℕ)
      (o : MultiLegOrder W)
      → IsChecked p.strategy.legs
      → build_exit_order m p s now id ≡ some o
      → (qs : List (OptionQuote W)) × (quotes_for o.strategy.legs s.option_chain ≡ some qs)
        × (acceptable m.costs o qs ≡ true)
  unfolding build_exit_order build_close_order exit_price
  build_exit_order-acceptable m p s now id o h e = elim (Option-cases (exit_price m p s)) [
    | inl unquoted ↦ cc (rw (unquoted, build_exit_order) at e)
    | inr (price, priced) ↦
        let (qs, quoted, achieved) =
          exit_total-negate m.costs s.option_chain p.strategy.legs nought price h priced in
        let order =
          build_close_order p (negate price)
            (elim now as (λ _. ℕ) [ none ↦ s.timestamp | some t ↦ t ]) id in
        rw (← some-injective _ _ (rw (priced, build_exit_order) at e))
          (qs, quoted, acceptable_at_limit m.costs order qs (rw negate_nought at achieved))
  ]
