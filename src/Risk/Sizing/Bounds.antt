-- ===== src/Risk/Sizing/Bounds.antt =====
-- The hard caps bound what sizing puts at risk.
use mathlib.Core.Option.{some-injective}
use iron_spyder.Prelude.{
  ℕ, ◌≤◌, ◌≡◌, refl, inl, inr, true, false, not, ◌||◌, Option, none, some, List, [], ◌∷◌, arith,
  leb→le, false-of_or, if◌then◌else◌, Bool-cases,
}
use iron_spyder.Prelude.Int.{ℤ, pos, pos_part, ◌≤ℤ◌, ltb_ℤ}
use iron_spyder.Float.{Float, IsOrdered, max2, le_of_not_lt, le_of_lt}
use iron_spyder.Domain.Strategy.{StrategyCandidate}
use iron_spyder.Domain.Execution.{of_count}
use iron_spyder.Risk.Limits.{RiskConfig}
use iron_spyder.Risk.Sizing.{
  Constraint, SizingResult, is_tradeable, total_risk, least_cap, binding_cap, capped_contracts,
  size_position, sized, unsized, hard_caps, remaining_cap,
}

-- The count that `capped_contracts` keeps of a whole number of contracts.
capped_count :
    (limit : ℕ) (whole : ℤ) (name : Constraint)
    → let n =
        (let r : ℕ × Constraint =
            if ltb_ℤ (pos limit) whole
            then (limit, Constraint.contracts_cap)
            else (pos_part whole, name) in
          r.0) in
      (n ≤ limit) × (1 ≤ n → pos n ≤ℤ whole)
capped_count limit whole name = ground arith

module _ {W : Type 0} ⦃f : Float W⦄ where
  open f use {nought, times, le}

  -- What a sized, tradeable position stays within: the contract limit, and with its whole risk the
  -- budget, the share of the account, the dollar limit and what the portfolio has left.
  pub record IsWithin (c : StrategyCandidate W) (equity : W) (config : RiskConfig W)
      (available : Option W) (r : SizingResult W) : Type 0 where
    pub contracts_le : r.contracts ≤ config.trade.max_contracts
    pub own_risk : r.risk_per_contract ≡ c.max_loss
    pub risk_positive : le c.max_loss nought ≡ false
    pub within_budget : le (total_risk r) r.adjusted_risk ≡ true
    pub within_account :
        le (total_risk r) (times equity config.trade.max_account_fraction_at_risk) ≡ true
    pub within_dollars : le (total_risk r) config.trade.max_dollar_risk ≡ true
    pub within_available : (a : W) → available ≡ some a → le (total_risk r) (max2 nought a) ≡ true

module _ {W : Type 0} ⦃f : Float W⦄ (laws : IsOrdered f) where
  open f use {nought, decimal, of_int, times, lt, le, floor_div, is_finite}
  open laws use {le_refl, le_trans, lt-eq-not-le, times_mono, of_int_mono, floor_div-le}

  -- Below every cap of a list.
  abbrev Below : W → List (Constraint × W) → Type 0
  Below x [] = Unit
  Below x (c ∷ cs) = (le x c.1 ≡ true) × Below x cs

  picked_bounds :
      (best c : Constraint × W)
      → let picked = if lt c.1 best.1 then c else best in
        (le picked.1 best.1 ≡ true) × (le picked.1 c.1 ≡ true)
  picked_bounds best c = elim (Bool-cases (lt c.1 best.1)) [
    | inl less ↦ rw less (le_of_lt laws c.1 best.1 less, le_refl c.1)
    | inr more ↦ rw more (le_refl best.1, le_of_not_lt laws c.1 best.1 more)
  ]

  least_cap-Below :
      (best : Constraint × W) (cs : List (Constraint × W))
      → (le (least_cap best cs).1 best.1 ≡ true) × Below (least_cap best cs).1 cs
  unfolding least_cap
  least_cap-Below best [] = (le_refl best.1, tt)
  least_cap-Below best (c ∷ cs) =
      let picked = if lt c.1 best.1 then c else best in
      let (own, rest) = least_cap-Below picked cs in
      let (near, far) = picked_bounds best c in
      (le_trans _ _ _ own near, (le_trans _ _ _ own far, rest))

  -- Contracts bought with an allowance cost at most the allowance.
  capped_contracts-le :
      (name : Constraint) (allowed risk : W) (limit : ℕ)
      → lt nought risk ≡ true
      → let n = (capped_contracts (name, allowed) risk limit).0 in
        (n ≤ limit) × (1 ≤ n → le (times (of_count n) risk) allowed ≡ true)
  unfolding capped_contracts
  capped_contracts-le name allowed risk limit h =
      let whole = floor_div allowed risk in
      let n = (capped_contracts (name, allowed) risk limit).0 in
      let (capped, below) = capped_count limit whole name in
      (
        capped,
        λ some_left.
            le_trans (times (of_count n) risk) (times (of_int whole) risk) allowed
              (times_mono _ _ risk (le_of_lt laws nought risk h)
                (of_int_mono (pos n) whole (below some_left)))
              (floor_div-le allowed risk h),
      )

  -- The cap that binds is below every cap.
  binding_cap-le :
      (adjusted equity : W) (config : RiskConfig W) (available : Option W)
      → let cap = (binding_cap adjusted equity config available).1 in
        (le cap adjusted ≡ true)
        × (le cap (times equity config.trade.max_account_fraction_at_risk) ≡ true)
        × (le cap config.trade.max_dollar_risk ≡ true)
        × ((a : W) → available ≡ some a → le cap (max2 nought a) ≡ true)
  unfolding binding_cap
  binding_cap-le adjusted equity config available =
      let (own, (account, (dollars, rest))) =
        least_cap-Below (Constraint.base_budget, adjusted) (hard_caps equity config available) in
      (own, account, dollars, remaining available rest)
    where
      remaining :
          (available : Option W) {x : W}
          → Below x (remaining_cap available)
          → (a : W) → available ≡ some a
          → le x (max2 nought a) ≡ true
      remaining none h a e = cc
      remaining (some b) (h, _) a e = rw (← some-injective _ _ e) h

  sized-IsWithin :
      (c : StrategyCandidate W) (equity base adjusted : W) (config : RiskConfig W)
      (available : Option W)
      → le c.max_loss nought ≡ false
      → let r = sized c base adjusted (binding_cap adjusted equity config available) config in
        is_tradeable r ≡ true → IsWithin c equity config available r
  unfolding sized
  sized-IsWithin c equity base adjusted config available positive t =
      let cap = binding_cap adjusted equity config available in
      let (own, account, dollars, rest) = binding_cap-le adjusted equity config available in
      let (capped, below) =
        capped_contracts-le cap.0 cap.1 c.max_loss config.trade.max_contracts
          (ground (arith, lt-eq-not-le nought c.max_loss)) in
      let fits = below (leb→le 1 _ t) in
      record {
        contracts_le = capped;
        own_risk = refl;
        risk_positive = positive;
        within_budget = le_trans _ _ _ fits own;
        within_account = le_trans _ _ _ fits account;
        within_dollars = le_trans _ _ _ fits dollars;
        within_available = λ a e. le_trans _ _ _ fits (rest a e);
      }

  -- If sizing yields a contract at all, the candidate's risk per contract is positive, the number of
  -- contracts is at most the configured maximum, and the risk of all contracts together is at most each
  -- of the caps: the adjusted budget, the fraction of the equity, the dollar limit and, where one is
  -- given, the remaining portfolio risk.
  pub size_position-IsWithin :
      (c : StrategyCandidate W) (equity confidence stability calibration : W)
      (config : RiskConfig W) (available : Option W)
      → is_tradeable (size_position c equity confidence stability calibration config available)
        ≡ true
      → IsWithin c equity config available
          (size_position c equity confidence stability calibration config available)
  unfolding size_position
  size_position-IsWithin c equity confidence stability calibration config available t =
      elim (Bool-cases (le c.max_loss nought || not (is_finite c.max_loss))) [
        | inl undefined ↦ absurd (unsized_lem (rw undefined at t))
        | inr defined ↦ rw defined (
            sized-IsWithin c equity _ _ config available (false-of_or _ _ defined).0
              (rw defined at t))
      ]
    where
      unsized_lem : ¬ (is_tradeable (unsized c) ≡ true)
      unsized_lem h = cc
