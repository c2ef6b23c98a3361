-- ===== src/Backtest.antt =====
-- spy_der/backtest: the folds that models are fitted and measured on.
pub mod WalkForward
