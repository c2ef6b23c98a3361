-- ===== src/Pipeline/Samples.antt =====
-- Sample data: a pipeline with a position of the sample spread, and a desk that wants another one.
use iron_spyder.Prelude.{ℕ, suc, refl, arith, true, some, [], ◌∷◌}
use iron_spyder.Prelude.Int.{pos}
use iron_spyder.Float.Ticks.{Ticks, ticks}
use iron_spyder.Samples.{cents, dollars, position, forecast, candidate, engine}
use iron_spyder.Execution.Fills.{CostModel}
use iron_spyder.Execution.Manager.{PositionManager}
use iron_spyder.Execution.PaperBroker.{PaperBroker}
use iron_spyder.Pipeline.{DecisionPipeline}
use iron_spyder.Pipeline.Cycle.{Desk}
use iron_spyder.Pipeline.Mirror.{Like-refl}
use iron_spyder.Pipeline.Preserved.{IsInStep}

abbrev pub costs : CostModel Ticks
costs = record {
  commission_per_contract = cents 65;
  exchange_fee_per_contract = cents 5;
  spread_capture = cents 50;
  spread_multiplier = dollars 1;
  adverse_ticks = dollars 0;
  tick_size = cents 1;
  fill_probability_floor = cents 2;
}

abbrev pub broker : PaperBroker Ticks
broker = record {
  config = record { max_reprice_attempts = 2; reprice_step = cents 1; allow_partial_fills = true };
  costs = costs;
  equity = dollars 100_000;
  orders = [];
  fills = [];
  positions = (1, position 1 3) ∷ [];
  connected = true;
  draws = λ _. cents 0;
  drawn = 0;
}

abbrev pub manager : PositionManager Ticks
manager = record { costs = costs; assignment_moneyness_buffer = pos 20 }

abbrev pub pipeline : DecisionPipeline ℕ Ticks
pipeline = record {
  models = 0;
  risk_engine = engine;
  broker = broker;
  manager = manager;
  portfolio = position 1 3 ∷ [];
  max_poll_attempts = 4;
  persist = true;
  audit = [];
  takes = λ n. true;
  writes = 0;
  uuids = λ k. k;
  issued = 2;
}

abbrev pub desk : Desk ℕ Ticks
desk = record {
  assess = λ s. some (record { score = cents 95; is_tradeable = true });
  forecast = λ m s. (suc m, some forecast);
  optimize = λ s fc cap. some (record { best = some candidate; trade_selected = true });
}

pub pipeline-IsInStep : IsInStep pipeline
pipeline-IsInStep = record {
  mirrored = ((refl, Like-refl (position 1 3)), tt);
  distinct = (tt, tt);
  issued = ((1, omega arith, refl), tt);
  injective = λ i j e. e;
}
