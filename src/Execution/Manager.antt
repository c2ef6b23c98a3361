-- ===== src/Execution/Manager.antt =====
-- spy_der/execution/manager.py: marks of open positions, and the exit rules in their order.
mod Tests
pub mod Stops
pub mod Closing
use iron_spyder.Prelude.{
  ℕ, ◌+◌, ◌-◌, ◌*◌, ◌≡◌, ◌⊎◌, inl, inr, refl, Bool, true, false, not, ◌&&◌, ◌||◌, Option, none,
  some, List, [], ◌∷◌, ltb, leb, if◌then◌else◌,
}
use iron_spyder.Prelude.Int.{ℤ, pos, ◌-ℤ◌, ltb_ℤ, leb_ℤ}
use iron_spyder.Float.{Float, max2, to_minutes}
use iron_spyder.Domain.Enums.{OptionRight, MarketState, ExitReason, contract_multiplier}
use iron_spyder.Domain.Market.{MarketSnapshot, OptionQuote, ForecastBundle, mid, spot, find_quote}
use iron_spyder.Domain.Strategy.{OptionLeg, ExitPlan, stop_loss_dollars}
use iron_spyder.Domain.Execution.{MultiLegOrder, Position, marked, unrealized_pnl, of_count}
use iron_spyder.Execution.Fills.{CostModel, leg_slippage}
use iron_spyder.Execution.Orders.{build_close_order}

-- The texts of the details are left out.
pub record ExitSignal (W : Type 0) : Type 0 where
  pub position_id : ℕ
  pub reason : ExitReason
  pub mark_price : W
  pub unrealized : W

pub record PositionManager (W : Type 0) : Type 0 where
  pub costs : CostModel W
  pub assignment_moneyness_buffer : W

-- What the exit rules give; an `OverflowError` or a `ValueError` of `timedelta` is `no_cutoff`.
pub data ExitCheck (A : Type 0) : Type 0 where
  keep : ExitCheck A
  leave : A → ExitCheck A
  no_cutoff : ExitCheck A

pub ExitCheck-cases :
    {A : Type 0} (x : ExitCheck A)
    → (x ≡ ExitCheck.keep) ⊎ ((x ≡ ExitCheck.no_cutoff) ⊎ ((a : A) × (x ≡ ExitCheck.leave a)))
ExitCheck-cases ExitCheck.keep = inl refl
ExitCheck-cases ExitCheck.no_cutoff = inr (inl refl)
ExitCheck-cases (ExitCheck.leave a) = inr (inr (a, refl))

abbrev pub of_option : {A : Type 0} → Option A → ExitCheck A
of_option none = ExitCheck.keep
of_option (some a) = ExitCheck.leave a

module _ {W : Type 0} ⦃f : Float W⦄ where
  open f use {nought, decimal, of_int, plus, minus, times, negate, lt, le, of_minutes}

  -- The price of closing one leg, per share.
  unfoldable pub exit_leg_price : CostModel W → OptionLeg W → OptionQuote W → W
  unfolding mid leg_slippage
  exit_leg_price costs leg q =
      let slip = leg_slippage q costs in
      if ltb_ℤ (pos 0) leg.quantity then minus (mid q) slip else plus (mid q) slip

  -- The loop of `exit_price`, whose `total` is `acc`.
  unfoldable pub exit_total : CostModel W → List (OptionQuote W) → W → List (OptionLeg W) → Option W
  exit_total costs chain acc [] = some acc
  exit_total costs chain acc (leg ∷ legs) =
      let rest = λ (q : OptionQuote W).
        exit_total costs chain (plus acc (times (of_int leg.quantity) (exit_leg_price costs leg q)))
          legs in
      elim (find_quote leg.expiry leg.strike leg.right chain) [
        | none ↦ none
        | some q ↦ if le (mid q) nought then none else rest q
      ]

  unfoldable pub exit_price : PositionManager W → Position W → MarketSnapshot W → Option W
  exit_price m p s = exit_total m.costs s.option_chain nought p.strategy.legs

  unfoldable pub mark : PositionManager W → Position W → MarketSnapshot W → Position W
  mark m p s = elim (exit_price m p s) [ none ↦ p | some price ↦ marked p price s.timestamp ]

  unfoldable pub stop_threshold : Position W → W
  unfolding stop_loss_dollars
  stop_threshold p =
      let credit = times (max2 nought (negate p.entry_price)) (of_count contract_multiplier) in
      times (stop_loss_dollars p.exit_plan p.max_loss_per_contract credit) (of_count p.contracts)

  abbrev in_the_money : OptionRight → W → W → W → Bool
  in_the_money OptionRight.call at strike buffer = lt (minus strike buffer) at
  in_the_money OptionRight.put at strike buffer = lt at (plus strike buffer)

  -- Whether a short leg of `legs` is at or near the money, with no more than the cutoff left to expiry.
  unfoldable pub exposed_legs : W → W → ℤ → ℕ → List (OptionLeg W) → Bool
  exposed_legs at buffer cutoff now [] = false
  exposed_legs at buffer cutoff now (leg ∷ legs) =
      let rest = exposed_legs at buffer cutoff now legs in
      if leb_ℤ (pos 0) leg.quantity
      then rest
      else if in_the_money leg.right at leg.strike buffer
          && leb_ℤ (pos leg.expiry -ℤ pos now) cutoff
      then true
      else rest

  -- `assignment_exposure`, as a truth value, and `none` if `timedelta` raises.
  unfoldable pub assignment_exposure :
      PositionManager W → Position W → MarketSnapshot W → Option Bool
  unfolding exposed_legs spot
  assignment_exposure m p s = elim (of_minutes p.exit_plan.close_before_expiry_minutes) [
    | none ↦ none
    | some cutoff ↦ some (
        exposed_legs (spot s) (times (spot s) m.assignment_moneyness_buffer) cutoff s.timestamp
          p.strategy.legs)
  ]

  unfoldable pub some_state_at_least : W → ForecastBundle W → List MarketState → Bool
  some_state_at_least level fc [] = false
  some_state_at_least level fc (state ∷ states) =
      if le level (fc.state_probability state) then true else some_state_at_least level fc states

  -- `state_invalidated`, as a truth value.
  unfoldable pub state_invalidated : Position W → ForecastBundle W → Bool
  unfolding some_state_at_least
  state_invalidated p fc =
      if some_state_at_least (decimal 40 2) fc p.exit_plan.invalidation_states
      then true
      else lt fc.confidence p.exit_plan.min_forecast_probability

  abbrev pub invalidated : Position W → Option (ForecastBundle W) → Bool
  invalidated p none = false
  invalidated p (some fc) = state_invalidated p fc

  abbrev pub max_loss_of : Position W → W
  max_loss_of p = times p.max_loss_per_contract (of_count p.contracts)

  abbrev pub max_profit_of : Position W → W
  max_profit_of p = times p.max_profit_per_contract (of_count p.contracts)

  -- The reason after the kill switch, for a position that is, or is not, exposed to assignment.
  unfoldable pub reason_after :
      Bool → Position W → MarketSnapshot W → Option (ForecastBundle W) → W → Option ExitReason
  reason_after exposed p s forecast pnl =
      let plan = p.exit_plan in
      if exposed
      then some ExitReason.assignment_risk
      else if le s.context.minutes_to_close plan.close_before_expiry_minutes
      then some ExitReason.end_of_session
      else if lt nought (max_loss_of p) && le pnl (negate (stop_threshold p))
      then some ExitReason.risk_stop
      else if lt nought (max_profit_of p)
          && le (times plan.profit_target_fraction (max_profit_of p)) pnl
      then some ExitReason.profit_target
      else if invalidated p forecast
      then some ExitReason.state_invalidation
      else if le plan.max_holding_minutes (to_minutes (pos s.timestamp -ℤ pos p.opened_at))
      then some ExitReason.time_stop
      else none

  -- The reason for an exit of a position with a given profit, the first one that applies.
  unfoldable pub exit_reason_at :
      PositionManager W
      → Position W
      → MarketSnapshot W
      → Option (ForecastBundle W)
      → Bool
      → W
      → ExitCheck ExitReason
  exit_reason_at m p s forecast kill_switch_active pnl =
      if kill_switch_active
      then ExitCheck.leave ExitReason.kill_switch
      else elim (assignment_exposure m p s) [
        | none ↦ ExitCheck.no_cutoff
        | some exposed ↦ of_option (reason_after exposed p s forecast pnl)
      ]

  unfoldable pub check_exit :
      PositionManager W
      → Position W
      → MarketSnapshot W
      → Option (ForecastBundle W)
      → Bool
      → ExitCheck (ExitSignal W)
  check_exit m p s forecast kill_switch_active =
      let now = mark m p s in
      let pnl = unrealized_pnl now in
      elim (exit_reason_at m p s forecast kill_switch_active pnl) [
        | keep ↦ ExitCheck.keep
        | no_cutoff ↦ ExitCheck.no_cutoff
        | leave reason ↦ ExitCheck.leave (record {
          position_id = p.position_id;
          reason = reason;
          mark_price = now.current_price;
          unrealized = pnl;
        })
      ]

  -- `now or snapshot.timestamp`: an instant is never false.
  unfoldable pub build_exit_order :
      PositionManager W → Position W → MarketSnapshot W → Option ℕ → ℕ → Option (MultiLegOrder W)
  build_exit_order m p s now id = elim (exit_price m p s) [
    | none ↦ none
    | some price ↦
        let at : ℕ = elim now [ none ↦ s.timestamp | some t ↦ t ] in
        some (build_close_order p (negate price) at id)
  ]

  -- `PositionManager.realized_pnl`
  unfoldable pub realized_pnl_at : Position W → W → W
  realized_pnl_at p close_price =
      minus
        (times (times (minus close_price p.entry_price) (of_count contract_multiplier))
          (of_count p.contracts))
        p.entry_commission
