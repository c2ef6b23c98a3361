-- ===== src/Strategies.antt =====
-- spy_der/strategies: the structures that the program may trade.
pub mod Payoff
pub mod Validation
