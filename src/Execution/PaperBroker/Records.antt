-- ===== src/Execution/PaperBroker/Records.antt =====
-- The data of the paper broker, and its dictionaries.
use iron_spyder.Prelude.{ℕ, Bool, Option, none, some, List, [], ◌∷◌, ◌==◌, if◌then◌else◌}
use iron_spyder.Domain.Execution.{MultiLegOrder, Fill, Position}
use iron_spyder.Execution.Fills.{CostModel}

pub record PaperBrokerConfig (W : Type 0) : Type 0 where
  pub max_reprice_attempts : ℕ
  pub reprice_step : W
  pub allow_partial_fills : Bool

pub record PaperBroker (W : Type 0) : Type 0 where
  pub config : PaperBrokerConfig W
  pub costs : CostModel W
  pub equity : W
  -- `dict[str, MultiLegOrder]`, in order of insertion
  pub orders : List (ℕ × MultiLegOrder W)
  pub fills : List (Fill W)
  pub positions : List (ℕ × Position W)
  pub connected : Bool
  pub draws : ℕ → W
  pub drawn : ℕ

pub data BrokerError : Type 0 where
  disconnected : BrokerError
  duplicate_order unknown_order : ℕ → BrokerError

pub data Result (A : Type 0) : Type 0 where
  ok : A → Result A
  err : BrokerError → Result A

-- What one poll leaves: the broker, the order and the fill, if there is one.
pub record Polled (W : Type 0) : Type 0 where
  pub broker : PaperBroker W
  pub order : MultiLegOrder W
  pub fill : Option (Fill W)

module _ {V : Type 0} where
  -- `d.get(key)` and `d[key] = v` of a dict.
  unfoldable pub lookup : ℕ → List (ℕ × V) → Option V
  lookup k [] = none
  lookup k ((j, v) ∷ m) = if j == k then some v else lookup k m

  unfoldable pub insert : ℕ → V → List (ℕ × V) → List (ℕ × V)
  insert k v [] = (k, v) ∷ []
  insert k v ((j, w) ∷ m) = if j == k then (j, v) ∷ m else (j, w) ∷ insert k v m
