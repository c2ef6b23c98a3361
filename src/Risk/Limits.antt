-- ===== src/Risk/Limits.antt =====
-- spy_der/risk/limits.py: the limits, the accounting of a session and the kill switches.
use iron_spyder.Prelude.{
  ℕ, ◌+◌, Bool, false, not, Option, none, some, List, [], ◌∷◌, ◌++◌, length, is_empty, ltb, ◌==◌,
  if◌then◌else◌,
}
use iron_spyder.Float.{Float, max2}
use iron_spyder.Domain.Enums.{KillSwitchReason, rank}

pub record TradeLimits (W : Type 0) : Type 0 where
  pub max_account_fraction_at_risk : W
  pub max_dollar_risk : W
  pub max_contracts : ℕ
  pub max_debit_per_contract : W
  pub max_spread_width : W
  pub min_return_on_risk : W
  pub min_liquidity_score : W
  pub max_spread_ratio : W
  pub max_expected_slippage_fraction : W
  pub max_legs : ℕ
  pub max_gamma : W
  pub max_vega : W
  pub max_theta : W
  pub max_assignment_risk : W
  pub min_confidence : W
  pub max_model_disagreement : W
  pub min_data_quality : W

pub record PortfolioLimits (W : Type 0) : Type 0 where
  pub max_open_strategies : ℕ
  pub max_total_open_risk : W
  pub max_total_risk_fraction : W
  pub max_same_expiration_risk : W
  pub max_capital_fraction : W

pub record SessionLimits (W : Type 0) : Type 0 where
  pub daily_loss_limit : W
  pub daily_loss_fraction : W
  pub max_consecutive_losses : ℕ
  pub max_drawdown_fraction : W
  pub max_trades_per_session : ℕ
  pub min_minutes_to_close : W
  pub block_on_scheduled_event : Bool

pub record RiskConfig (W : Type 0) : Type 0 where
  pub trade : TradeLimits W
  pub portfolio : PortfolioLimits W
  pub session : SessionLimits W
  pub base_risk_fraction : W
  pub max_slippage_ratio : W
  pub min_calibration_quality : W

pub record SessionState (W : Type 0) : Type 0 where
  -- The day's number, or `None` before the first one.
  pub trading_day : Option ℕ
  pub realized_pnl : W
  pub peak_equity : W
  pub trades_today : ℕ
  pub consecutive_losses : ℕ
  -- The expected and the realized slippage of each fill, the oldest first.
  pub slippage_samples : List (W × W)

-- What a kill switch was tripped with.
pub data Detail : Type 0 where
  -- the reason's own value, where no detail was given
  own_value : KillSwitchReason → Detail
  -- the text with the figures of the test that tripped
  figures : KillSwitchReason → Detail
  joined_discrepancies : ℕ → Detail
  disconnected : Detail
  message : ℕ → Detail

-- `dict[KillSwitchReason, str]`, in order of insertion.
abbrev pub Active : Type 0
Active = List (KillSwitchReason × Detail)

abbrev pub is_day : Option ℕ → ℕ → Bool
is_day none day = false
is_day (some d) day = d == day

unfoldable pub same_reason : KillSwitchReason → KillSwitchReason → Bool
same_reason a b = rank a == rank b

-- `active.get(reason)`
unfoldable pub find_reason : KillSwitchReason → Active → Option Detail
find_reason r [] = none
find_reason r ((q, d) ∷ a) = if same_reason q r then some d else find_reason r a

abbrev detail_or_value : KillSwitchReason → Option Detail → Detail
detail_or_value r none = Detail.own_value r
detail_or_value r (some d) = d

-- `trip`: `active.setdefault(reason, detail or reason.value)`; `none` is the empty detail.
unfoldable pub trip : KillSwitchReason → Option Detail → Active → Active
unfolding find_reason
trip r detail a = elim (find_reason r a) [
  | some _ ↦ a
  | none ↦ a ++ ((r, detail_or_value r detail) ∷ [])
]

-- `active.pop(reason, None)`
unfoldable pub remove_reason : KillSwitchReason → Active → Active
remove_reason r [] = []
remove_reason r ((q, d) ∷ a) = if same_reason q r then a else (q, d) ∷ remove_reason r a

unfoldable pub reset : Option KillSwitchReason → Active → Active
unfolding remove_reason
reset none a = []
reset (some r) a = remove_reason r a

abbrev pub is_tripped : Active → Bool
is_tripped a = not (is_empty a)

-- `sorted(self.active.items())`: the keys differ, so the order is that of their values.
unfoldable pub insert_reason : KillSwitchReason × Detail → Active → Active
insert_reason e [] = e ∷ []
insert_reason e (x ∷ a) = if ltb (rank e.0) (rank x.0) then e ∷ x ∷ a else x ∷ insert_reason e a

unfoldable pub sort_reasons : Active → Active
unfolding insert_reason
sort_reasons [] = []
sort_reasons (e ∷ a) = insert_reason e (sort_reasons a)

abbrev pub max_samples : ℕ
max_samples = 200

module _ {W : Type 0} where
  -- `pop(0)`
  abbrev pub drop_first : List (W × W) → List (W × W)
  drop_first [] = []
  drop_first (_ ∷ xs) = xs

  unfoldable pub record_slippage : W → W → SessionState W → SessionState W
  record_slippage expected realized s =
      let samples = s.slippage_samples ++ ((expected, realized) ∷ []) in
      record s {
        slippage_samples = if ltb max_samples (length samples) then drop_first samples else samples;
      }

module _ {W : Type 0} ⦃f : Float W⦄ where
  open f use {nought, decimal, plus, minus, over, lt, le}

  unfoldable pub roll_to : ℕ → W → SessionState W → SessionState W
  roll_to day equity s = if is_day s.trading_day day then s else record s {
    trading_day = some day;
    realized_pnl = nought;
    trades_today = 0;
    peak_equity = max2 s.peak_equity equity;
  }

  unfoldable pub record_trade : W → W → SessionState W → SessionState W
  record_trade pnl equity s = record s {
    realized_pnl = plus s.realized_pnl pnl;
    trades_today = s.trades_today + 1;
    consecutive_losses = if lt pnl nought then s.consecutive_losses + 1 else 0;
    peak_equity = max2 s.peak_equity equity;
  }

  unfoldable pub drawdown_fraction : W → SessionState W → W
  drawdown_fraction equity s =
      if le s.peak_equity nought
      then nought
      else max2 nought (over (minus s.peak_equity equity) s.peak_equity)

  unfoldable pub sum_expected : W → List (W × W) → W
  sum_expected acc [] = acc
  sum_expected acc ((e, r) ∷ xs) = sum_expected (plus acc e) xs

  unfoldable pub sum_realized : W → List (W × W) → W
  sum_realized acc [] = acc
  sum_realized acc ((e, r) ∷ xs) = sum_realized (plus acc r) xs

  unfoldable pub slippage_ratio : SessionState W → W
  unfolding sum_expected sum_realized
  slippage_ratio s =
      let one = decimal 1 0 in
      let expected = sum_expected nought s.slippage_samples in
      if is_empty s.slippage_samples
      then one
      else if le expected nought
      then one
      else over (sum_realized nought s.slippage_samples) expected
