-- ===== src/Telemetry.antt =====
-- The data of the telemetry collection (src/domain/dtos/telemetry.py, src/domain/interfaces/collectors.py)
-- and the registry of its collectors (src/infrastructure/telemetry/collector_registry.py).
pub mod Collectors
pub mod Orchestrator
pub mod Closes
pub mod Harvest
pub mod Parsers
pub mod OverSsh
pub mod Tests
use ai_sre_platform_for_auto.Common.{
  ℕ, Text, Dict, List, Option, none, some, [], ◌∷◌, ◌++◌, lookup, insert, lit,
}
use ai_sre_platform_for_auto.Errors.{Result, ok, raise, value_error}
use ai_sre_platform_for_auto.Effects.{Exec}
use ai_sre_platform_for_auto.Values.{Fields}
use ai_sre_platform_for_auto.Server.{Server}
use ai_sre_platform_for_auto.Inventory.{Inventory}
use ai_sre_platform_for_auto.Connector.{Connector}

pub record CollectionContext (W Float : Type 0) : Type 0 where
  pub server : Server Float
  pub inventory : Inventory Float
  pub connector : Connector W Float
  pub timestamp : ℕ
  pub metadata : Fields Float

pub record RawMetric (Float : Type 0) : Type 0 where
  pub server_id : ℕ
  pub metric_type : Text
  pub timestamp : ℕ
  pub «data» : Fields Float

-- `IMetricCollector.collect`
abbrev pub MetricCollector : Type 0 → Type 0 → Type 0
MetricCollector W Float = CollectionContext W Float → Exec W (RawMetric Float)

abbrev pub MetricRegistry : Type 0 → Type 0 → Type 0
MetricRegistry W Float = Dict (MetricCollector W Float)

module _ {W Float : Type 0} where
  unfoldable pub register_collector :
      Text → MetricCollector W Float → MetricRegistry W Float → MetricRegistry W Float
  register_collector metric_type collector registry = insert metric_type collector registry

  abbrev found : Text → Option (MetricCollector W Float) → Result (MetricCollector W Float)
  found metric_type none =
      raise value_error (lit "No collector registered for metric type: " ++ metric_type)
  found metric_type (some collector) = ok collector

  unfoldable pub get_collector : MetricRegistry W Float → Text → Result (MetricCollector W Float)
  get_collector registry metric_type = found metric_type (lookup metric_type registry)

  unfoldable pub get_all_types : MetricRegistry W Float → List Text
  get_all_types [] = []
  get_all_types ((metric_type, collector) ∷ registry) = metric_type ∷ get_all_types registry
