-- ===== src/Collector/Orchestrator.antt =====
-- `CollectorOrchestrator` (src/application/orchestrator/collector_orchestrator.py). `S` is the world
-- that collectors read and change, `clock` the timestamp, and `elapsed` the milliseconds between a
-- state and a later one.
pub mod Runs
pub mod Parallel
use ai_sre_platform_for_auto.Common.{ℕ, none, some, [], ◌∷◌, ◌++◌}
use ai_sre_platform_for_auto.Errors.{Result, ok, raise}
use ai_sre_platform_for_auto.Effects.{Exec, pure, ◌>>=◌}
use ai_sre_platform_for_auto.Values.{end}
use ai_sre_platform_for_auto.Collector.{Collector, CollectorResult, failed, log}
use ai_sre_platform_for_auto.Collector.Registry.{CollectorRegistry, get, list}
use ai_sre_platform_for_auto.Collector.{ℤ}
use ai_sre_platform_for_auto.Collector.{List, Text}
use ai_sre_platform_for_auto.Common.{lit}

module _ {S Float : Type 0} (clock : S → ℕ) (elapsed : S → S → ℤ) where
  -- the result for a collector that is not there
  unfoldable pub missing : Text → S → Text → CollectorResult Float
  missing name s message = record {
    timestamp = clock s;
    hostname = lit "unknown";
    collector_name = name;
    metric_type = log;
    payload = end;
    status = failed;
    errors = (lit "Failed to retrieve collector: " ++ message) ∷ [];
    execution_time_ms = elapsed s s;
  }

module _ {S Executor Float : Type 0} (clock : S → ℕ) (elapsed : S → S → ℤ)
    (registry : CollectorRegistry S Executor Float) where
  -- the result for a collector that raises
  unfoldable pub crashed : Text → Collector S Executor Float → S → S → Text → CollectorResult Float
  crashed name collector s s' message = record {
    timestamp = clock s;
    hostname = lit "unknown";
    collector_name = name;
    metric_type = collector.metric_type;
    payload = end;
    status = failed;
    errors = (lit "Unhandled exception during collection: " ++ message) ∷ [];
    execution_time_ms = elapsed s s';
  }

  unfoldable pub settled :
      Text
      → Collector S Executor Float
      → S
      → Result (CollectorResult Float) × S
      → CollectorResult Float × S
  settled name collector s (ok result, s') = (result, s')
  settled name collector s (raise k message, s') = (crashed name collector s s' message, s')

  unfoldable pub run_found :
      Text → Executor → Result (Collector S Executor Float) → S → CollectorResult Float × S
  run_found name executor (raise k message) s = (missing clock elapsed name s message, s)
  run_found name executor (ok collector) s = settled name collector s (collector.collect executor s)

  -- It raises nothing.
  unfoldable pub run_collector : Text → Executor → S → CollectorResult Float × S
  unfolding run_found settled
  run_collector name executor s = run_found name executor (get registry name) s

  unfoldable pub run_each :
      List (Collector S Executor Float) → Executor → S → List (CollectorResult Float) × S
  run_each [] executor s = ([], s)
  run_each (c ∷ cs) executor s =
      let (result, s') = run_collector c.name executor s in
      let (results, s'') = run_each cs executor s' in (result ∷ results, s'')

  unfoldable pub run_all : Executor → S → List (CollectorResult Float) × S
  unfolding run_each
  run_all executor s = run_each (list registry) executor s
