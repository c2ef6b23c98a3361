-- ===== src/Monitoring/Health.antt =====
-- spy_der/monitoring/health.py: the checks of the monitor and the response that they call for. Sums, means and
-- deviations of numpy, the calibration error and the drawdown are arguments, with the number of samples.
mod Tests
pub mod Severity
use iron_spyder.Prelude.{
  ℕ, ◌+◌, Bool, true, false, not, ◌||◌, Option, none, some, List, [], ◌∷◌, ◌++◌, ltb, ◌==◌,
  if◌then◌else◌,
}
use iron_spyder.Prelude.Int.{pos}
use iron_spyder.Float.{Float}
use iron_spyder.Domain.Enums.{KillSwitchReason}
use iron_spyder.Domain.Execution.{of_count}

pub data Response : Type 0 where
  nothing reduce_size disable_complex revert_to_baseline paper_only lockout : Response

-- `list(Response).index`
abbrev pub severity : Response → ℕ
severity Response.nothing = 0
severity Response.reduce_size = 1
severity Response.disable_complex = 2
severity Response.revert_to_baseline = 3
severity Response.paper_only = 4
severity Response.lockout = 5

-- The names of the checks.
pub data Check : Type 0 where
  calibration slippage_drift fill_rate drawdown feature_drift activity data_freshness : Check

pub record HealthFinding (W : Type 0) : Type 0 where
  pub check : Check
  pub response : Response
  pub value : W
  pub threshold : W

pub record MonitorThresholds (W : Type 0) : Type 0 where
  pub max_calibration_error : W
  pub lockout_calibration_error : W
  pub max_slippage_ratio : W
  pub lockout_slippage_ratio : W
  pub min_fill_rate : W
  pub max_drawdown_fraction : W
  pub max_feature_drift : W
  pub max_no_trade_rate : W

abbrev pub is_actionable : {W : Type 0} → HealthFinding W → Bool
is_actionable x = not (severity x.response == 0)

-- `HealthReport`, which holds the findings.
abbrev pub HealthReport : Type 0 → Type 0
HealthReport W = List (HealthFinding W)

abbrev pub reason_for : Check → Option KillSwitchReason
reason_for Check.data_freshness = some KillSwitchReason.data_quality
reason_for Check.calibration = some KillSwitchReason.calibration
reason_for Check.slippage_drift = some KillSwitchReason.slippage
reason_for Check.drawdown = some KillSwitchReason.drawdown
reason_for _ = none

abbrev pub to_reasons : Response → Option KillSwitchReason → List KillSwitchReason
to_reasons Response.lockout (some r) = r ∷ []
to_reasons _ _ = []

module _ {W : Type 0} where
  unfoldable pub report_is_healthy : HealthReport W → Bool
  report_is_healthy [] = true
  report_is_healthy (x ∷ xs) = if is_actionable x then false else report_is_healthy xs

  unfoldable pub worst_from : Response → HealthReport W → Response
  worst_from worst [] = worst
  worst_from worst (x ∷ xs) =
      worst_from (if ltb (severity worst) (severity x.response) then x.response else worst) xs

  -- `HealthReport.response`
  unfoldable pub response_of : HealthReport W → Response
  response_of xs = worst_from Response.nothing xs

  -- `HealthReport.kill_switch_reasons`
  unfoldable pub health_reasons : HealthReport W → List KillSwitchReason
  health_reasons [] = []
  health_reasons (x ∷ xs) = to_reasons x.response (reason_for x.check) ++ health_reasons xs

module _ {W : Type 0} ⦃f : Float W⦄ where
  open f use {nought, decimal, minus, over, absolute, lt, le}

  abbrev finding : Check → Response → W → W → HealthFinding W
  finding check response value threshold = record {
    check = check;
    response = response;
    value = value;
    threshold = threshold;
  }

  unfoldable pub check_calibration : MonitorThresholds W → ℕ → W → HealthFinding W
  check_calibration t samples error =
      if ltb samples 30
      then finding Check.calibration Response.nothing nought nought
      else finding Check.calibration
          (if le t.lockout_calibration_error error
            then Response.lockout
            else if le t.max_calibration_error error
            then Response.revert_to_baseline
            else Response.nothing)
          error t.max_calibration_error

  unfoldable pub check_slippage : MonitorThresholds W → ℕ → W → W → HealthFinding W
  check_slippage t samples expected realized =
      let ratio = over realized expected in
      if le expected nought || (samples == 0)
      then finding Check.slippage_drift Response.nothing (decimal 1 0) (decimal 1 0)
      else finding Check.slippage_drift
          (if le t.lockout_slippage_ratio ratio
            then Response.lockout
            else if le t.max_slippage_ratio ratio
            then Response.reduce_size
            else Response.nothing)
          ratio t.max_slippage_ratio

  unfoldable pub check_fill_rate : MonitorThresholds W → ℕ → ℕ → HealthFinding W
  check_fill_rate t submitted filled =
      let rate = over (of_count filled) (of_count submitted) in
      if submitted == 0
      then finding Check.fill_rate Response.nothing (decimal 1 0) (decimal 1 0)
      else finding Check.fill_rate
          (if lt rate t.min_fill_rate then Response.disable_complex else Response.nothing) rate
          t.min_fill_rate

  unfoldable pub check_drawdown : MonitorThresholds W → W → HealthFinding W
  check_drawdown t fraction =
      finding Check.drawdown
        (if le t.max_drawdown_fraction fraction then Response.lockout else Response.nothing)
        fraction t.max_drawdown_fraction

  -- The means of both periods and the deviation of the reference.
  unfoldable pub check_feature_drift : MonitorThresholds W → ℕ → ℕ → W → W → W → HealthFinding W
  check_feature_drift t references recents reference recent scale =
      let shift = over (absolute (minus recent reference)) scale in
      if ltb references 10 || ltb recents 10
      then finding Check.feature_drift Response.nothing nought nought
      else if le scale nought
      then finding Check.feature_drift Response.nothing nought nought
      else finding Check.feature_drift
          (if le t.max_feature_drift shift then Response.revert_to_baseline else Response.nothing)
          shift t.max_feature_drift

  unfoldable pub check_activity : MonitorThresholds W → ℕ → ℕ → HealthFinding W
  check_activity t decisions trades =
      let rate = minus (decimal 1 0) (over (of_count trades) (of_count decisions)) in
      if ltb decisions 200
      then finding Check.activity Response.nothing nought nought
      else finding Check.activity
          (if lt rate t.max_no_trade_rate then Response.nothing else Response.reduce_size) rate
          t.max_no_trade_rate

  unfoldable pub data_health : W → W → HealthFinding W
  data_health data_quality threshold =
      finding Check.data_freshness
        (if lt data_quality threshold then Response.lockout else Response.nothing) data_quality
        threshold
