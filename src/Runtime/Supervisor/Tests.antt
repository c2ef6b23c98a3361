-- ===== src/Runtime/Supervisor/Tests.antt =====
-- A supervisor on 3 July 2025: a decision, then a failure of the provider.
use iron_spyder.Prelude.{ℕ, ◌+◌, ◌-◌, ◌*◌, ◌/◌, true, false, some, none, []}
use iron_spyder.Float.Ticks.{Ticks, ticks}
use iron_spyder.Samples.{snapshot}
use iron_spyder.Pipeline.Samples.{pipeline}
use iron_spyder.Runtime.Sessions.{Zone}
use iron_spyder.Runtime.Supervisor.{SupervisorConfig, Moment, Supervisor}

abbrev minute : ℕ
minute = 60_000_000

abbrev zone : Zone
zone = record {
  combine = λ day minutes. day * 86_400_000_000 + (minutes + 240) * minute;
  eastern_day = λ moment. (moment - 240 * minute) / 86_400_000_000;
}

abbrev config : SupervisorConfig
config = record {
  decision_interval = 5 * minute;
  close_positions_at_session_end = true;
  max_consecutive_failures = 5;
  failure_backoff = 30_000_000;
  max_failure_backoff = 10 * minute;
  heartbeat_interval = 15 * minute;
  idle_poll = 5 * minute;
  save_every_cycle = true;
  max_cycles = some 10;
}

abbrev supervisor : Supervisor ℕ Ticks
supervisor = record {
  pipeline = pipeline;
  config = config;
  stats = record {
    cycles = 0;
    decisions = 0;
    trades = 0;
    exits = 0;
    failures = 0;
    consecutive_failures = 0;
    last_cycle_at = none;
  };
  is_stopping = false;
  last_heartbeat = none;
  closed_session = none;
  awaiting_open = none;
  stored = none;
  sleeps = [];
}

abbrev good : Moment Ticks
good = record {
  now = zone.combine 739_435 600;
  signalled = false;
  closing_snapshot = some snapshot;
  snapshot = some snapshot;
  disk_works = true;
  later = zone.combine 739_435 601;
}

abbrev bad : Moment Ticks
bad = record good { snapshot = none; now = zone.combine 739_435 605 }
