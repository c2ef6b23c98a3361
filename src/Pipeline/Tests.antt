-- ===== src/Pipeline/Tests.antt =====
-- The pipeline with a position of the sample spread.
use iron_spyder.Prelude.{ℕ, ◌≡◌, refl, true, All, List, [], ◌∷◌}
use iron_spyder.Float.Ticks.{Ticks, ticks}
use iron_spyder.Domain.Enums.{ExitReason}
use iron_spyder.Samples.{snapshot, forecast}
use iron_spyder.Execution.PaperBroker.{lookup}
use iron_spyder.Pipeline.{PipelineResult, broker_state}
use iron_spyder.Pipeline.Cycle.{step}
use iron_spyder.Pipeline.Waiting.{IsDone}
use iron_spyder.Pipeline.Unraised.{IsReady}
use iron_spyder.Pipeline.Complete.{IsWorking, IsTimed, step-IsDone}
use iron_spyder.Risk.Portfolio.{open_positions}
use iron_spyder.Prelude.Int.{pos, ◌+ℤ◌, ◌-ℤ◌}
use iron_spyder.Pipeline.Reconciled.{Event, after_events, after_events-reconciled}
use iron_spyder.Pipeline.Samples.{pipeline, desk, pipeline-IsInStep}

abbrev events : List (Event ℕ Ticks)
events =
    Event.pass desk snapshot
    ∷ Event.goes_down
    ∷ Event.comes_up
    ∷ Event.forced ExitReason.kill_switch snapshot
    ∷ []

after_events-reconciled_example :
    ((broker_state (after_events events pipeline)).reconciled ≡ true)
    × ((broker_state (after_events events pipeline)).discrepancies ≡ [])
after_events-reconciled_example = after_events-reconciled events pipeline pipeline-IsInStep

pipeline-IsReady : IsReady pipeline
unfolding lookup
pipeline-IsReady = record {
  connected = refl;
  fresh = λ k later. refl;
  injective = λ i j e. e;
  recorded = λ on k. refl;
}

desk-IsWorking : IsWorking desk
desk-IsWorking = record {
  assesses = λ s. (_, refl);
  forecasts = λ m s. (forecast, refl);
  ranks = λ s fc cap. (_, refl);
}

pipeline-IsTimed : All IsTimed (open_positions pipeline.portfolio)
unfolding open_positions ◌+ℤ◌ ◌-ℤ◌
pipeline-IsTimed = ((pos 3_600_000_000, refl), tt)

step-IsDone_example :
    IsDone (λ q (_ : PipelineResult Ticks). IsReady q) (step desk snapshot pipeline)
step-IsDone_example =
    step-IsDone desk snapshot pipeline desk-IsWorking pipeline-IsTimed pipeline-IsReady
