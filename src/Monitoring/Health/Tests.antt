-- ===== src/Monitoring/Health/Tests.antt =====
-- A report of three findings.
use iron_spyder.Prelude.{◌≡◌, ◌↔◌, ◌⊎◌, ◌≤◌, refl, true, All, [], ◌∷◌}
use iron_spyder.Prelude.Int.{pos, ◌+ℤ◌, ◌-ℤ◌}
use iron_spyder.Float.Ticks.{Ticks, ticks}
use iron_spyder.Domain.Enums.{KillSwitchReason}
use iron_spyder.Monitoring.Health.{
  Response, MonitorThresholds, worst_from, HealthReport, severity, report_is_healthy, response_of,
  health_reasons, check_slippage, check_fill_rate, check_drawdown, check_calibration,
  check_activity, data_health, check_feature_drift,
}
use iron_spyder.Monitoring.Health.Severity.{IsAsked, response_of-severity, health_reasons-lockout}

abbrev limits : MonitorThresholds Ticks
limits = record {
  max_calibration_error = pos 1_200;
  lockout_calibration_error = pos 2_500;
  max_slippage_ratio = pos 20_000;
  lockout_slippage_ratio = pos 30_000;
  min_fill_rate = pos 5_000;
  max_drawdown_fraction = pos 600;
  max_feature_drift = pos 30_000;
  max_no_trade_rate = pos 9_950;
}

abbrev report : HealthReport Ticks
report =
    check_fill_rate limits 8 3
    ∷ check_slippage limits 2 (pos 500) (pos 1_200)
    ∷ check_drawdown limits (pos 900)
    ∷ check_feature_drift limits 9 20 (pos 0) (pos 0) (pos 0)
    ∷ check_calibration limits 29 (pos 9_000)
    ∷ check_activity limits 200 1
    ∷ data_health (pos 8_000) (pos 7_000)
    ∷ []

locked_out : response_of report ≡ Response.lockout
unfolding ◌+ℤ◌ ◌-ℤ◌ response_of worst_from check_fill_rate check_slippage check_drawdown
    check_feature_drift check_calibration check_activity data_health
locked_out = refl

drawdown_only : health_reasons report ≡ KillSwitchReason.drawdown ∷ []
unfolding ◌+ℤ◌ ◌-ℤ◌ health_reasons check_fill_rate check_slippage check_drawdown check_feature_drift
    check_calibration check_activity data_health
drawdown_only = refl

response_of-severity_example :
    All (λ x. severity x.response ≤ severity (response_of report)) report
    × ((response_of report ≡ Response.nothing) ⊎ IsAsked (response_of report) report)
    × ((report_is_healthy report ≡ true) ↔ (severity (response_of report) ≡ 0))
response_of-severity_example = response_of-severity report

health_reasons-lockout_example : response_of report ≡ Response.lockout
unfolding ◌+ℤ◌ ◌-ℤ◌ health_reasons check_fill_rate check_slippage check_drawdown check_feature_drift
    check_calibration check_activity data_health
health_reasons-lockout_example = health_reasons-lockout KillSwitchReason.drawdown [] report refl
