-- ===== src/Lib.antt =====
-- A verification library for SPY DER, a program that forecasts the market for SPY options, selects
-- defined-risk option structures, and trades them through a broker under a risk engine with a veto.
--
-- The parts, and how they interact. The pipeline (spy_der/pipeline.py) submits a candidate structure to
-- the risk engine, which approves it with a size or vetoes it; an approval becomes an opening order,
-- which the broker fills or expires; the position manager marks the open positions and builds closing
-- orders; and reconciliation compares the book with what the broker reports, whose verdict the risk
-- engine reads at the next evaluation. The supervisor runs the pipeline in the sessions of the calendar. The walk-forward folds separate fitting from measuring.
--
-- Which file models which part:
--   Domain/Enums, Domain/Market, Domain/Strategy, Domain/Execution: spy_der/domain/enums.py, market.py
--     with forecast.py, strategy.py and execution.py: one record per dataclass, with the fields that the
--     modelled code reads, and one function per method or property, under the method's name.
--   Strategies/Validation: spy_der/strategies/validation.py; Validation/Defined is validate_defined_risk and
--     its users, which read the payoff profile.
--   Strategies/Payoff: spy_der/strategies/payoff.py. Payoff/Breakevens and Payoff/Profile hold the functions
--     of these names, the other modules the proof that max_loss bounds the loss: the payoff is linear
--     between neighbouring points (Slopes, Extremes), and the points cover the strikes (Points).
--   Pipeline, Pipeline/Cycle: spy_der/pipeline.py. DecisionPipeline is a record that each method
--     returns anew; Run is what a method leaves, with its value or with the exception that it raised.
--     Validators, forecast and optimizer are the fields of Desk, each of which may raise, and the hidden
--     state of the models is a type. The audit store takes each write or raises, which an oracle
--     decides. The other modules are about the two books (Mirror to Reconciled) and about exceptions
--     (Waiting to Complete).
--   Risk/Limits, Risk/Sizing: spy_der/risk/limits.py and sizing.py; Risk/Session is about the former.
--   Risk/Portfolio, Risk/Engine, Risk/Engine/Checks: spy_der/risk/engine.py. PortfolioState is the list of
--     its positions. RiskEngine is a record; evaluate returns it anew beside the decision, for the
--     session and the kill switch that it writes to.
--   Execution/Fills, Execution/Orders, Execution/PaperBroker, Execution/Manager,
--     Execution/Reconciliation: the files of spy_der/execution with those names in snake case. Each method
--     of PaperBroker that writes to the object returns the broker, an exception is the result err; its
--     data and prices stand in PaperBroker/Records and PaperBroker/Pricing.
--   Backtest/WalkForward: spy_der/backtest/walk_forward.py.
--   Runtime/Calendar, Runtime/Sessions: spy_der/runtime/calendar.py. A date is its ordinal and an instant its
--     microseconds; Zone is the time zone database, and IsZone what is relied on of it.
--   Runtime/Supervisor: spy_der/runtime/supervisor.py. A Moment is one round of the loop as the world makes it:
--     the clock, the provider's answers, a signal, the disk; loop runs over a list of them.
--   Monitoring/Health: spy_der/monitoring/health.py, each check with the sums, means and errors it computes on
--     arrays as arguments.
--   Optimizer/FamilyFilter: spy_der/optimizer/family_filter.py.
--   Prelude and Float are shared: tests on numbers, lists and options, signed integers, and floating
--     point. Samples holds data for the modules named Tests.
--
-- Numbers. A Python int is a natural number or, with a sign, the type of Prelude/Int. A float is a
-- parameter: Float is the interface of the operations that the code uses, in the order in which the code
-- uses them, and IsOrdered is the record of laws that some theorems assume: a total order, which leaves
-- out NaN; rounding that is monotone; exact negation; equality that tells no two zeros apart; and the
-- floor of a quotient that does not exceed it. IsExact of Strategies/Payoff/Exact is the stronger record of
-- arithmetic without rounding. Float/Ticks meets them all with signed ten-thousandths.
-- Numbers are taken to be finite where the code divides: `int(a // b)` and `/` are total in Float, while in
-- Python infinity, NaN and a divisor of zero raise; timedelta(minutes=x) may fail.
-- Instants are microseconds, order and position identifiers are numbers, and a message is a constructor
-- of the test that gives it. The random numbers of the paper broker and the state probabilities of a
-- forecast are functions.
--
-- Bounds and fuel. The loop of polls counts down max_poll_attempts, as in the source. The loop of
-- rolling_windows runs on fuel, one round more than there are microseconds from start to end, and that
-- of decision_times on the microseconds of the session; each round moves on by at least one, and the
-- results are proved to be complete. Everything else is structural recursion on the data.
--
-- Not modelled: pricing with a model, the strategy generators and their registry; forecasting, simulation
-- and the optimizer's ranking; the data providers and stores; the web application and the scripts; and, of the
-- files above, the texts of messages and of audit records, liquidity_profile, zero_dte_risk,
-- aggregate_greek, payoff_curve and the ratios of a payoff profile.
pub mod Prelude
pub mod Float
pub mod Domain
pub mod Strategies
pub mod Execution
pub mod Risk
pub mod Backtest
pub mod Pipeline
pub mod Runtime
pub mod Monitoring
pub mod Optimizer
pub mod Samples
