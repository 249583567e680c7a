-- ===== src/Collector/Concrete/Suite.antt =====
-- The collectors of src/infrastructure/collectors as the orchestrator runs them.
use ai_sre_platform_for_auto.Common.{ℕ, none, some, [], ◌∷◌}
use ai_sre_platform_for_auto.Errors.{Result, ok, raise, builtin, ◌>>=◌}
use ai_sre_platform_for_auto.Effects.{Exec}
use ai_sre_platform_for_auto.Values.{FloatOps, Fields, Value, text, get, as_dict, truthy}
use ai_sre_platform_for_auto.Collector.{
  Collector, CollectorResult, cpu, memory, disk, network, service, system, log, docker, kubernetes,
}
use ai_sre_platform_for_auto.Collector.Concrete.{CommandExecutor, collect_by}
use ai_sre_platform_for_auto.Collector.Concrete.Simple.{
  cpu_query, memory_query, disk_query, network_query, system_query, service_query,
}
use ai_sre_platform_for_auto.Collector.Concrete.Logs.{log_collect}
use ai_sre_platform_for_auto.Collector.Concrete.Docker.{docker_collect}
use ai_sre_platform_for_auto.Collector.Concrete.Kubernetes.{kubernetes_collect}
use ai_sre_platform_for_auto.Collector.{Text, ℤ}
use ai_sre_platform_for_auto.Collector.Concrete.{lit}
use ai_sre_platform_for_auto.Common.{Option, if◌then◌else◌}
use ai_sre_platform_for_auto.Collector.Concrete.{Report}
use ai_sre_platform_for_auto.Collector.{List}
use ai_sre_platform_for_auto.Common.{text_eq}
use ai_sre_platform_for_auto.Collector.{MetricType}

-- Each parser, followed by `model_dump`.
pub record Parsers (Float : Type 0) : Type 0 where
  pub cpu_parser : Text → Text → ℕ → Result (Fields Float)
  pub memory_parser : Text → ℕ → Result (Fields Float)
  pub disk_parser : Text → Text → ℕ → Result (Fields Float)
  pub network_parser : Text → Text → Text → Text → Text → ℕ → Result (Fields Float)
  pub system_parser : Text → Text → Text → Text → Text → Text → ℕ → Result (Fields Float)
  pub service_parser : Text → Option Text → ℕ → Result (Fields Float)
  pub log_parser : Text → Text → Text → ℕ → Result (Fields Float)
  pub docker_parser : Text → Text → Text → Text → ℕ → Result (Fields Float)
  pub kubernetes_parser : Text → Text → Text → Text → Text → Text → Text → ℕ → Result (Fields Float)

module _ {Float : Type 0} (floats : FloatOps Float) where
  -- A host name that is no text does not pass the validation of `CollectorResult`.
  abbrev checked_name : Text → Value Float → Result Text
  checked_name hostname (text s) = ok (if text_eq s (lit "unknown") then hostname else s)
  checked_name hostname _ = raise builtin []

  unfoldable pub parsed_name : Text → Option (Value Float) → Result Text
  parsed_name hostname none = ok hostname
  parsed_name hostname (some v) = if truthy floats v then checked_name hostname v else ok hostname

  unfoldable pub identity_name : Text → Option (Value Float) → Result Text
  unfolding parsed_name
  identity_name hostname none = ok hostname
  identity_name hostname (some v) = do
    identity ← as_dict v
    parsed_name hostname (get (lit "hostname") identity)

  -- The host name of the parsed metrics takes the place of the one resolved.
  unfoldable pub renamed : CollectorResult Float → Result (CollectorResult Float)
  unfolding identity_name
  renamed r = do
    hostname ← identity_name r.hostname (get (lit "host_identity") r.payload)
    ok (record r { hostname = hostname })

module _ {S Float : Type 0} (floats : FloatOps Float) (clock : S → ℕ) (elapsed : S → S → ℤ)
    (parsers : Parsers Float) where
  -- a `collect` that raises nothing
  abbrev safely :
      (CommandExecutor S → S → CollectorResult Float × S)
      → CommandExecutor S
      → Exec S (CollectorResult Float)
  safely collect execute s = let (r, s') = collect execute s in (ok r, s')

  unfoldable pub system_collect : CommandExecutor S → Exec S (CollectorResult Float)
  unfolding renamed
  system_collect execute s =
      let (r, s') =
        collect_by clock elapsed (lit "SystemCollector") system
          (system_query parsers.system_parser execute) execute s in
      (renamed floats r, s')

  -- a collector whose `collect` is one query
  unfoldable pub querying :
      Text
      → (CommandExecutor S → ℕ → Exec S (Report Float))
      → MetricType
      → Collector S (CommandExecutor S) Float
  querying name query metric_type = record {
    name = name;
    metric_type = metric_type;
    collect = safely (λ execute. collect_by clock elapsed name metric_type (query execute) execute);
  }

  unfoldable pub cpu_collector : Collector S (CommandExecutor S) Float
  unfolding querying
  cpu_collector = querying (lit "CPUCollector") (cpu_query parsers.cpu_parser) cpu

  unfoldable pub memory_collector : Collector S (CommandExecutor S) Float
  unfolding querying
  memory_collector = querying (lit "MemoryCollector") (memory_query parsers.memory_parser) memory

  unfoldable pub disk_collector : Collector S (CommandExecutor S) Float
  unfolding querying
  disk_collector = querying (lit "DiskCollector") (disk_query parsers.disk_parser) disk

  unfoldable pub network_collector : Collector S (CommandExecutor S) Float
  unfolding querying
  network_collector =
      querying (lit "NetworkCollector") (network_query parsers.network_parser) network

  unfoldable pub service_collector : Collector S (CommandExecutor S) Float
  unfolding querying
  service_collector =
      querying (lit "ServiceCollector") (service_query parsers.service_parser) service

  unfoldable pub log_collector : Collector S (CommandExecutor S) Float
  log_collector = record {
    name = lit "LogCollector";
    metric_type = log;
    collect = safely (log_collect clock elapsed parsers.log_parser);
  }

  unfoldable pub docker_collector : Collector S (CommandExecutor S) Float
  docker_collector = record {
    name = lit "DockerCollector";
    metric_type = docker;
    collect = safely (docker_collect clock elapsed parsers.docker_parser);
  }

  unfoldable pub kubernetes_collector : Collector S (CommandExecutor S) Float
  kubernetes_collector = record {
    name = lit "KubernetesCollector";
    metric_type = kubernetes;
    collect = safely (kubernetes_collect clock elapsed parsers.kubernetes_parser);
  }

  unfoldable pub system_collector : Collector S (CommandExecutor S) Float
  unfolding system_collect
  system_collector = record {
    name = lit "SystemCollector";
    metric_type = system;
    collect = system_collect;
  }

  -- `__all__` of the package
  unfoldable pub collectors : List (Collector S (CommandExecutor S) Float)
  unfolding memory_collector cpu_collector disk_collector network_collector service_collector
      system_collector log_collector docker_collector kubernetes_collector
  collectors =
      memory_collector ∷ cpu_collector ∷ disk_collector ∷ network_collector ∷ service_collector
      ∷ system_collector ∷ log_collector ∷ docker_collector ∷ kubernetes_collector ∷ []
