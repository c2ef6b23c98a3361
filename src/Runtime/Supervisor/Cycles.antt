-- ===== src/Runtime/Supervisor/Cycles.antt =====
-- One cycle of the supervisor, and the flattening before it: the counts, the failures in a row and the books.
use iron_spyder.Prelude.{
  ℕ, ◌+◌, ◌<◌, ◌≤◌, ◌≡◌, refl, ◌⊎◌, inl, inr, Bool, true, false, Option, none, some, List, [], ◌∷◌,
  ltb, leb, if◌then◌else◌, arith, Bool-cases, Option-cases,
}
use iron_spyder.Float.{Float}
use iron_spyder.Domain.Enums.{ExitReason, KillSwitchReason}
use iron_spyder.Domain.Market.{MarketSnapshot}
use iron_spyder.Domain.Execution.{Position}
use iron_spyder.Risk.Limits.{Active, Detail, trip, find_reason, is_tripped}
use iron_spyder.Risk.Portfolio.{open_count}
use iron_spyder.Pipeline.{DecisionPipeline, PipelineResult, Run}
use iron_spyder.Pipeline.Frames.{Leaves}
use iron_spyder.Pipeline.Preserved.{IsInStep}
use iron_spyder.Pipeline.Passes.{step-IsInStep, force_close_all-IsInStep}
use iron_spyder.Pipeline.Cycle.{Desk, step, force_close_all}
use iron_spyder.Runtime.Sessions.{Zone, Session}
use iron_spyder.Runtime.Supervisor.{
  Moment, Supervisor, save, on_failure, on_result, after_step, cycle_with, flatten_with,
  after_flatten, maybe_close_for_session_end, trip_pipeline, backoff,
}

-- A tripped switch is active.
pub trip-is_tripped :
    (r : KillSwitchReason) (d : Option Detail) (a : Active) → is_tripped (trip r d a) ≡ true
unfolding trip find_reason
trip-is_tripped r d [] = refl
trip-is_tripped r d (x ∷ a) = elim (Option-cases (find_reason r (x ∷ a))) [
  | inl new ↦ rw (new, trip) refl
  | inr (e, known) ↦ rw (known, trip) refl
]

-- The failures in a row are below the limit, or the loop stops with an active kill switch.
abbrev pub IsContained : ℕ → ℕ → Bool → Active → Type 0
IsContained limit n stopping active = (n < limit) ⊎ ((stopping ≡ true) × (is_tripped active ≡ true))

-- What the supervisor keeps; `pending` is 1 between a cycle and its count.
pub record IsSteady {M W : Type 0} ⦃f : Float W⦄
    (pending limit cycles decisions failures consecutive : ℕ) (most : Option ℕ) (stopping : Bool)
    (p : DecisionPipeline M W) : Type 0 where
  pub accounted : cycles + pending ≡ decisions + failures
  pub contained : IsContained limit consecutive stopping p.risk_engine.kill_switch
  pub in_step : IsInStep p
  pub within : (k : ℕ) → most ≡ some k → cycles + pending ≤ k

module _ {M W : Type 0} ⦃f : Float W⦄ where
  abbrev pub Steady : ℕ → Supervisor M W → Type 0
  Steady n s =
      IsSteady n s.config.max_consecutive_failures s.stats.cycles s.stats.decisions s.stats.failures
        s.stats.consecutive_failures s.config.max_cycles s.is_stopping s.pipeline

  -- The supervisor may run a cycle.
  abbrev pub Running : Supervisor M W → Type 0
  Running s =
      (s.stats.cycles ≡ s.stats.decisions + s.stats.failures)
      × (s.stats.consecutive_failures < s.config.max_consecutive_failures)
      × IsInStep s.pipeline
      × ((k : ℕ) → s.config.max_cycles ≡ some k → s.stats.cycles + 1 ≤ k)

  pub if-holds :
      (P : Supervisor M W → Type 0) (b : Bool) (s s' : Supervisor M W)
      → P s
      → P s'
      → P (if b then s else s')
  if-holds P true s s' h k = h
  if-holds P false s s' h k = k

  pub if-holds_else :
      (P : Supervisor M W → Type 0) (b : Bool) (s s' : Supervisor M W)
      → P s
      → (b ≡ false → P s')
      → P (if b then s else s')
  if-holds_else P true s s' h k = h
  if-holds_else P false s s' h k = k refl

  on_failure-Steady : (s : Supervisor M W) → Running s → Steady 1 (on_failure s)
  unfolding on_failure
  on_failure-Steady s (counts, low, v, room) =
      let n = s.stats.consecutive_failures + 1 in
      elim (Bool-cases (leb s.config.max_consecutive_failures n)) [
        | inl spent ↦
            rw (spent, Steady)
              (record {
                accounted = omega (arith, counts);
                contained = inr (
                  refl,
                  trip-is_tripped KillSwitchReason.manual _ s.pipeline.risk_engine.kill_switch,
                );
                in_step = v;
                within = room;
              })
        | inr going ↦
            rw (going, Steady)
              (if-holds (Steady 1) (leb (backoff s.config n) 0) _ _ (stays going) (stays going))
      ]
    where
      stays :
          leb s.config.max_consecutive_failures (s.stats.consecutive_failures + 1) ≡ false
          → IsSteady 1 s.config.max_consecutive_failures s.stats.cycles s.stats.decisions
              (s.stats.failures + 1)
              (s.stats.consecutive_failures + 1)
              s.config.max_cycles
              s.is_stopping
              s.pipeline
      stays going = record {
        accounted = omega (arith, counts);
        contained = inl (ground arith);
        in_step = v;
        within = room;
      }

  on_result-Steady :
      (m : Moment W) (r : PipelineResult W) (s : Supervisor M W)
      → Running s
      → Steady 1 (on_result m r s)
  unfolding on_result save
  on_result-Steady m r s (counts, low, v, room) =
      if-holds (Steady 1) s.config.save_every_cycle _ _
        (if-holds (Steady 1) m.disk_works _ _ (fine s counts low v room) (fine s counts low v room))
        (fine s counts low v room)
    where
      fine :
          (s : Supervisor M W)
          → s.stats.cycles ≡ s.stats.decisions + s.stats.failures
          → s.stats.consecutive_failures < s.config.max_consecutive_failures
          → IsInStep s.pipeline
          → ((k : ℕ) → s.config.max_cycles ≡ some k → s.stats.cycles + 1 ≤ k)
          → IsSteady 1 s.config.max_consecutive_failures s.stats.cycles
              (s.stats.decisions + 1)
              s.stats.failures
              0
              s.config.max_cycles
              s.is_stopping
              s.pipeline
      fine s counts low v room = record {
        accounted = omega (arith, counts);
        contained = inl (omega (arith, low));
        in_step = v;
        within = room;
      }

  after_step-Steady :
      (m : Moment W) (r : Run (DecisionPipeline M W) (PipelineResult W)) (s : Supervisor M W)
      → Leaves IsInStep r
      → Running s
      → Steady 1 (after_step m r s)
  after_step-Steady m (Run.raised e p) s kept (counts, low, v, room) =
      on_failure-Steady (record s { pipeline = p }) (counts, low, kept, room)
  after_step-Steady m (Run.done p r) s kept (counts, low, v, room) =
      on_result-Steady m r (record s { pipeline = p }) (counts, low, kept, room)

  pub cycle_with-Steady :
      (d : Desk M W) (m : Moment W) (snapshot : Option (MarketSnapshot W)) (s : Supervisor M W)
      → Running s
      → Steady 1 (cycle_with d m snapshot s)
  cycle_with-Steady d m none s h = on_failure-Steady s h
  cycle_with-Steady d m (some snapshot) s (counts, low, v, room) =
      after_step-Steady m (step d snapshot s.pipeline) s (step-IsInStep d snapshot s.pipeline v)
        (counts, low, v, room)

  after_flatten-Running :
      (m : Moment W) (day : ℕ) (r : Run (DecisionPipeline M W) (List (Position W)))
      (s : Supervisor M W)
      → Leaves IsInStep r
      → Running s
      → Running (after_flatten m day r s)
  unfolding save
  after_flatten-Running m day (Run.raised e p) s kept (counts, low, v, room) =
      (counts, low, kept, room)
  after_flatten-Running m day (Run.done p closed) s kept (counts, low, v, room) =
      if-holds Running m.disk_works _ _
        (counts, low, stranded_lem (ltb 0 (open_count p.portfolio)), room)
        (counts, low, stranded_lem (ltb 0 (open_count p.portfolio)), room)
    where
      stranded_lem :
          (b : Bool) → IsInStep (if b then trip_pipeline KillSwitchReason.broker_state p else p)
      stranded_lem true = kept
      stranded_lem false = kept

  flatten_with-Running :
      (m : Moment W) (day : ℕ) (snapshot : Option (MarketSnapshot W)) (s : Supervisor M W)
      → Running s
      → Running (flatten_with m day snapshot s)
  flatten_with-Running m day none s h = h
  flatten_with-Running m day (some snapshot) s (counts, low, v, room) =
      after_flatten-Running m day (force_close_all ExitReason.end_of_session snapshot s.pipeline) s
        (force_close_all-IsInStep ExitReason.end_of_session snapshot s.pipeline v)
        (counts, low, v, room)

  pub maybe_close-Running :
      (z : Zone) (m : Moment W) (session : Session) (s : Supervisor M W)
      → Running s
      → Running (maybe_close_for_session_end z m session s)
  unfolding maybe_close_for_session_end
  maybe_close-Running z m session s h =
      if-holds Running _ s _ h (flatten_with-Running m session.day m.closing_snapshot s h)
