-- ===== src/Runtime/Supervisor.antt =====
-- spy_der/runtime/supervisor.py: the loop that runs the pipeline unattended. What the clock, the provider, the
-- signals and the disk do in one round is a `Moment`; log lines and alerts are left out.
mod Tests
pub mod Cycles
pub mod Loop
use Prim.Native.Nat.{min}
use iron_spyder.Prelude.{
  ℕ, zero, suc, ◌+◌, ◌-◌, ◌*◌, ◌^◌, Bool, true, false, not, ◌||◌, Option, none, some, List, [], ◌∷◌,
  ◌++◌, length, ltb, leb, ◌==◌, if◌then◌else◌,
}
use iron_spyder.Prelude.Int.{pos}
use iron_spyder.Float.{Float, max2, to_minutes}
use iron_spyder.Domain.Enums.{ExitReason, KillSwitchReason}
use iron_spyder.Domain.Market.{MarketSnapshot}
use iron_spyder.Domain.Execution.{Position}
use iron_spyder.Risk.Limits.{Detail, trip}
use iron_spyder.Risk.Portfolio.{open_positions, open_count}
use iron_spyder.Execution.PaperBroker.{broker_positions}
use iron_spyder.Execution.Reconciliation.{is_reconciled, reconcile}
use iron_spyder.Pipeline.{DecisionPipeline, PipelineResult, Run, is_some}
use iron_spyder.Pipeline.Cycle.{Desk, step, force_close_all}
use iron_spyder.Runtime.Sessions.{Zone, Session, current_session, next_session, minutes_left}

-- Durations are microseconds.
pub record SupervisorConfig : Type 0 where
  pub decision_interval : ℕ
  pub close_positions_at_session_end : Bool
  pub max_consecutive_failures : ℕ
  pub failure_backoff : ℕ
  pub max_failure_backoff : ℕ
  pub heartbeat_interval : ℕ
  pub idle_poll : ℕ
  pub save_every_cycle : Bool
  pub max_cycles : Option ℕ

pub record SupervisorStats : Type 0 where
  pub cycles : ℕ
  pub decisions : ℕ
  pub trades : ℕ
  pub exits : ℕ
  pub failures : ℕ
  pub consecutive_failures : ℕ
  pub last_cycle_at : Option ℕ

-- One round of the loop, as the world makes it.
pub record Moment (W : Type 0) : Type 0 where
  pub now : ℕ
  -- whether a signal has come before the loop looks
  pub signalled : Bool
  -- what the provider returns, to the flattening and to the cycle; `none` is an exception
  pub closing_snapshot : Option (MarketSnapshot W)
  pub snapshot : Option (MarketSnapshot W)
  pub disk_works : Bool
  -- the clock when the round is over
  pub later : ℕ

pub record Supervisor (M W : Type 0) : Type 0 where
  pub pipeline : DecisionPipeline M W
  pub config : SupervisorConfig
  pub stats : SupervisorStats
  pub is_stopping : Bool
  pub last_heartbeat : Option ℕ
  pub closed_session : Option ℕ
  pub awaiting_open : Option ℕ
  -- what the state store holds
  pub stored : Option (DecisionPipeline M W)
  -- the waits, in order
  pub sleeps : List ℕ

abbrev pub is_at : Option ℕ → ℕ → Bool
is_at none day = false
is_at (some d) day = d == day

-- `last is not None and now - last < interval`
abbrev pub is_recent : ℕ → ℕ → Option ℕ → Bool
is_recent now interval none = false
is_recent now interval (some t) = ltb now (t + interval)

abbrev pub count_of : Bool → ℕ
count_of true = 1
count_of false = 0

-- The wait after so many failures in a row.
abbrev pub backoff : SupervisorConfig → ℕ → ℕ
backoff cfg n = min (cfg.failure_backoff * 2 ^ (n - 1)) cfg.max_failure_backoff

abbrev pub has_reached : Option ℕ → ℕ → Bool
has_reached none n = false
has_reached (some limit) n = leb limit n

module _ {M W : Type 0} where
  abbrev pub request_stop : Supervisor M W → Supervisor M W
  request_stop s = record s { is_stopping = true }

  abbrev pub sleep : ℕ → Supervisor M W → Supervisor M W
  sleep duration s = if leb duration 0 then s else record s { sleeps = s.sleeps ++ (duration ∷ []) }

  -- `self.pipeline.risk_engine.kill_switch.trip(reason, message)`
  abbrev pub trip_pipeline : KillSwitchReason → DecisionPipeline M W → DecisionPipeline M W
  trip_pipeline reason p =
      let e = p.risk_engine in
      record p {
        risk_engine = record e {
          kill_switch = trip reason (some (Detail.figures reason)) e.kill_switch;
        };
      }

  unfoldable pub save : Moment W → Supervisor M W → Supervisor M W
  save m s = if m.disk_works then record s { stored = some s.pipeline } else s

  unfoldable pub on_failure : Supervisor M W → Supervisor M W
  on_failure s =
      let n = s.stats.consecutive_failures + 1 in
      let counted : Supervisor M W = record s {
        stats = record s.stats { failures = s.stats.failures + 1; consecutive_failures = n };
      } in
      if leb s.config.max_consecutive_failures n
      then request_stop
          (record counted { pipeline = trip_pipeline KillSwitchReason.manual s.pipeline })
      else sleep (backoff s.config n) counted

  unfoldable pub on_result : Moment W → PipelineResult W → Supervisor M W → Supervisor M W
  on_result m r s =
      let counted : Supervisor M W = record s {
        stats = record s.stats {
          consecutive_failures = 0;
          decisions = s.stats.decisions + 1;
          trades = s.stats.trades + count_of (is_some r.fill);
          exits = s.stats.exits + length r.exits;
          last_cycle_at = some m.now;
        };
      } in
      if s.config.save_every_cycle then save m counted else counted

  -- After `pipeline.step`, which changes the pipeline also when it raises.
  abbrev pub after_step :
      Moment W → Run (DecisionPipeline M W) (PipelineResult W) → Supervisor M W → Supervisor M W
  after_step m (Run.raised e p) s = on_failure (record s { pipeline = p })
  after_step m (Run.done p r) s = on_result m r (record s { pipeline = p })

  unfoldable pub heartbeat : ℕ → Supervisor M W → Supervisor M W
  heartbeat now s =
      if is_recent now s.config.heartbeat_interval s.last_heartbeat
      then s
      else record s { last_heartbeat = some now }

  -- The wait for the next session, if there is one.
  abbrev pub wait_for : ℕ → Option Session → Supervisor M W → Supervisor M W
  wait_for now none s = request_stop s
  wait_for now (some upcoming) s =
      sleep (min (upcoming.open_at - now) s.config.idle_poll)
        (record s { awaiting_open = some upcoming.open_at })

  unfoldable pub on_market_closed : Zone → ℕ → Supervisor M W → Supervisor M W
  on_market_closed z now s = wait_for now (next_session z now 30) s

  unfoldable pub sleep_until_next_decision : Moment W → Supervisor M W → Supervisor M W
  sleep_until_next_decision m s = sleep (s.config.decision_interval + m.now - m.later) s

module _ {W : Type 0} ⦃f : Float W⦄ where
  open f use {decimal, plus}

  -- One interval of headroom.
  abbrev pub threshold : SupervisorConfig → W
  threshold cfg = max2 (decimal 5 0) (plus (to_minutes (pos cfg.decision_interval)) (decimal 1 0))

module _ {M W : Type 0} ⦃f : Float W⦄ where
  open f use {lt}

  -- A cycle with what the provider returned.
  abbrev pub cycle_with :
      Desk M W → Moment W → Option (MarketSnapshot W) → Supervisor M W → Supervisor M W
  cycle_with d m none s = on_failure s
  cycle_with d m (some snapshot) s = after_step m (step d snapshot s.pipeline) s

  unfoldable pub run_cycle : Desk M W → Moment W → Supervisor M W → Supervisor M W
  run_cycle d m s = cycle_with d m m.snapshot s

  -- After `force_close_all`: what is stranded trips the kill switch.
  abbrev pub after_flatten :
      Moment W
      → ℕ
      → Run (DecisionPipeline M W) (List (Position W))
      → Supervisor M W
      → Supervisor M W
  after_flatten m day (Run.raised e p) s = record s { pipeline = p }
  after_flatten m day (Run.done p closed) s =
      let stranded = ltb 0 (open_count p.portfolio) in
      save m (record s {
        pipeline = if stranded then trip_pipeline KillSwitchReason.broker_state p else p;
        closed_session = some day;
      })

  abbrev pub flatten_with :
      Moment W → ℕ → Option (MarketSnapshot W) → Supervisor M W → Supervisor M W
  flatten_with m day none s = s
  flatten_with m day (some snapshot) s =
      after_flatten m day (force_close_all ExitReason.end_of_session snapshot s.pipeline) s

  unfoldable pub maybe_close_for_session_end :
      Zone → Moment W → Session → Supervisor M W → Supervisor M W
  maybe_close_for_session_end z m session s =
      if not s.config.close_positions_at_session_end
        || (is_at s.closed_session session.day
            || (leb (open_count s.pipeline.portfolio) 0
                || lt (threshold s.config) (minutes_left z m.now)))
      then s
      else flatten_with m session.day m.closing_snapshot s

  abbrev pub count_cycle : Supervisor M W → Supervisor M W
  count_cycle s = record s { stats = record s.stats { cycles = s.stats.cycles + 1 } }

  abbrev pub rest_of_round : Moment W → Supervisor M W → Supervisor M W
  rest_of_round m s = if s.is_stopping then s else sleep_until_next_decision m s

  -- One round within a session.
  unfoldable pub in_session : Zone → Desk M W → Moment W → Session → Supervisor M W → Supervisor M W
  in_session z d m session s =
      rest_of_round m
        (heartbeat m.now (count_cycle (run_cycle d m (maybe_close_for_session_end z m session s))))

  abbrev pub round_with :
      Zone → Desk M W → Moment W → Option Session → Supervisor M W → Supervisor M W
  round_with z d m none s = on_market_closed z m.now s
  round_with z d m (some session) s = in_session z d m session s

  unfoldable pub round : Zone → Desk M W → Moment W → Supervisor M W → Supervisor M W
  round z d m s = round_with z d m (current_session z m.now) s

  -- The `while` loop, as far as the world has moments for it.
  unfoldable pub loop : Zone → Desk M W → List (Moment W) → Supervisor M W → Supervisor M W
  loop z d [] s = s
  loop z d (m ∷ ms) s =
      let heard : Supervisor M W = record s { is_stopping = s.is_stopping || m.signalled } in
      let rest = loop z d ms (round z d m heard) in
      if heard.is_stopping || has_reached heard.config.max_cycles heard.stats.cycles
      then heard
      else rest

  -- `_verify_book`
  unfoldable pub verify_book : Supervisor M W → Supervisor M W
  verify_book s =
      let p = s.pipeline in
      if is_reconciled (reconcile (open_positions p.portfolio) (broker_positions p.broker))
      then s
      else record s { pipeline = trip_pipeline KillSwitchReason.broker_state p }

  -- `startup`, with what `restore` made of the pipeline.
  unfoldable pub startup : DecisionPipeline M W → Supervisor M W → Supervisor M W
  startup restored s = verify_book (record s { pipeline = restored })

  -- `run`, shut down by the last moment.
  unfoldable pub run :
      Zone
      → Desk M W
      → DecisionPipeline M W
      → List (Moment W)
      → Moment W
      → Supervisor M W
      → Supervisor M W
  run z d restored ms final s = save final (loop z d ms (startup restored s))
