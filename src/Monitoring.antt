-- ===== src/Monitoring.antt =====
-- What the health rules read (src/domain/dtos/monitoring.py, src/domain/entities/telemetry.py), the
-- rules' interface (src/domain/interfaces/rules.py) and their thresholds.
mod Rules
mod Engine
mod Score
mod Findings
mod Alerts
mod Evaluation
pub mod Tests
use ai_sre_platform_for_auto.Common.{ℕ}
use ai_sre_platform_for_auto.Errors.{Result}
use ai_sre_platform_for_auto.Values.{Fields}
use ai_sre_platform_for_auto.Inventory.{Inventory}
use ai_sre_platform_for_auto.Health.{Finding}
use ai_sre_platform_for_auto.Common.{Dict, Option, Text}

pub record TelemetryMetric (Float : Type 0) : Type 0 where
  pub id : Option ℕ
  pub server_id : ℕ
  pub metric_type : Text
  pub timestamp : ℕ
  pub «data» : Fields Float

pub record EvaluationContext (Float : Type 0) : Type 0 where
  pub inventory : Inventory Float
  pub latest_telemetry : Dict (TelemetryMetric Float)
  pub timestamp : ℕ
  pub metadata : Fields Float

-- `IMonitoringRule`
pub record MonitoringRule (Float : Type 0) : Type 0 where
  pub rule_id : Text
  pub evaluate : EvaluationContext Float → Result (Option (Finding Float))

pub record MonitoringSettings (Float : Type 0) : Type 0 where
  pub cpu_threshold_pct : Float
  pub memory_threshold_pct : Float
  pub disk_threshold_pct : Float
