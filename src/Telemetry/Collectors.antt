-- ===== src/Telemetry/Collectors.antt =====
-- The collectors of src/infrastructure/telemetry/collectors.py. The parsers of
-- src/application/telemetry/parsers.py are parameters, which return or raise; Telemetry.Parsers fills
-- them in.
use ai_sre_platform_for_auto.Common.{ℕ, Text, Option, none, some, [], lit}
use ai_sre_platform_for_auto.Errors.{Result, ok, raise, assertion_error}
use ai_sre_platform_for_auto.Effects.{Exec, pure, throw, lift, ◌>>=◌}
use ai_sre_platform_for_auto.Values.{Fields, Items, end, field, arr}
use ai_sre_platform_for_auto.Telemetry.{
  CollectionContext, RawMetric, MetricCollector, MetricRegistry, register_collector,
}

pub record TelemetryParsers (Float : Type 0) : Type 0 where
  pub cpu_parser : Text → Result (Fields Float)
  pub memory_parser : Text → Result (Fields Float)
  pub disk_parser : Text → Result (Items Float)
  pub network_parser : Text → Result (Items Float)
  pub process_parser : Text → Result (Items Float)
  pub service_parser : Text → Result (Items Float)

module _ {W : Type 0} where
  -- `assert context.server.id is not None`
  unfoldable pub asserted : Option ℕ → Exec W ℕ
  asserted none = throw assertion_error []
  asserted (some server_id) = pure server_id

  abbrev attempted : Exec W Text → Exec W (Result Text)
  attempted m s = let (r, s') = m s in (ok r, s')

-- a list under its key
unfoldable pub listed_under : {Float : Type 0} → Text → Result (Items Float) → Result (Fields Float)
listed_under key (ok items) = ok (field key (arr items) end)
listed_under key (raise k m) = raise k m

module _ {W Float : Type 0} where
  -- The parsed output as a metric.
  unfoldable pub metric_of :
      Text
      → (Text → Result (Fields Float))
      → CollectionContext W Float
      → ℕ
      → Text
      → Exec W (RawMetric Float)
  metric_of metric_type parse context server_id output = do
    parsed_data ← lift (parse output)
    pure (record {
      server_id = server_id;
      metric_type = metric_type;
      timestamp = context.timestamp;
      «data» = parsed_data;
    })

  -- the collectors of one command
  unfoldable pub collect_with :
      Text → Text → (Text → Result (Fields Float)) → MetricCollector W Float
  unfolding asserted metric_of
  collect_with metric_type command parse context = do
    server_id ← asserted context.server.id
    output ← context.connector.execute command none
    metric_of metric_type parse context server_id output

  -- the `try` around `top`
  unfoldable pub or_loadavg : CollectionContext W Float → Result Text → Exec W Text
  or_loadavg context (ok output) = pure output
  or_loadavg context (raise k m) = context.connector.execute (lit "cat /proc/loadavg") none

  module _ (parsers : TelemetryParsers Float) where
    unfoldable pub collect_cpu : MetricCollector W Float
    unfolding asserted metric_of or_loadavg
    collect_cpu context = do
      server_id ← asserted context.server.id
      top ←
          attempted
            (context.connector.execute (lit "top -bn1 | grep \"Cpu(s)\" || cat /proc/loadavg") none)
      output ← or_loadavg context top
      metric_of (lit "cpu") parsers.cpu_parser context server_id output

    unfoldable pub collect_memory : MetricCollector W Float
    unfolding collect_with
    collect_memory = collect_with (lit "memory") (lit "free -m") parsers.memory_parser

    unfoldable pub collect_disk : MetricCollector W Float
    unfolding collect_with listed_under
    collect_disk =
        collect_with (lit "disk") (lit "df -h")
          (λ output. listed_under (lit "partitions") (parsers.disk_parser output))

    unfoldable pub collect_network : MetricCollector W Float
    unfolding collect_with listed_under
    collect_network =
        collect_with (lit "network") (lit "cat /proc/net/dev")
          (λ output. listed_under (lit "interfaces") (parsers.network_parser output))

    unfoldable pub collect_process : MetricCollector W Float
    unfolding collect_with listed_under
    collect_process =
        collect_with (lit "process") (lit "ps -eo pid,ppid,%cpu,%mem,cmd --sort=-%cpu | head -n 11")
          (λ output. listed_under (lit "processes") (parsers.process_parser output))

    unfoldable pub collect_service : MetricCollector W Float
    unfolding collect_with listed_under
    collect_service =
        collect_with (lit "service")
          (lit "systemctl list-units --type=service --state=running --no-legend")
          (λ output. listed_under (lit "services") (parsers.service_parser output))

    -- the registrations at the end of the module
    unfoldable pub registered : MetricRegistry W Float
    unfolding register_collector collect_cpu collect_memory collect_disk collect_network
        collect_process collect_service
    registered = register_collector (lit "service") collect_service (
        register_collector (lit "process") collect_process (
          register_collector (lit "network") collect_network (
            register_collector (lit "disk") collect_disk (
              register_collector (lit "memory") collect_memory
                (register_collector (lit "cpu") collect_cpu [])))))
