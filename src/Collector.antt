-- ===== src/Collector.antt =====
-- The collectors of the agent: src/domain/collectors and src/application/orchestrator.
pub mod Registry
pub mod Orchestrator
pub mod Concrete
mod Tests
use ai_sre_platform_for_auto.Common.{ℕ}
use ai_sre_platform_for_auto.Effects.{Exec}
use ai_sre_platform_for_auto.Values.{Fields}
use ai_sre_platform_for_auto.Common.{Text}
use ai_sre_platform_for_auto.Common.{List}
use ai_sre_platform_for_auto.Common.{ℤ}

pub data CollectorStatus : Type 0 where
  success failed unavailable partial : CollectorStatus

pub data MetricType : Type 0 where
  cpu memory disk network process service log docker kubernetes system : MetricType

pub record CollectorResult (Float : Type 0) : Type 0 where
  pub timestamp : ℕ
  pub hostname : Text
  pub collector_name : Text
  pub metric_type : MetricType
  pub payload : Fields Float
  pub status : CollectorStatus
  pub errors : List Text
  pub execution_time_ms : ℤ

-- `Collector`: an executor is what the collector runs commands with. Its
-- `metric_type` is a text in the source, and every collector answers with a `MetricType`.
pub record Collector (S Executor Float : Type 0) : Type 0 where
  pub name : Text
  pub metric_type : MetricType
  pub collect : Executor → Exec S (CollectorResult Float)
