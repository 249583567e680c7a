-- ===== src/Monitoring/Rules.antt =====
-- The five health rules (src/infrastructure/monitoring/rules.py).
use ai_sre_platform_for_auto.Common.{ℕ}
use ai_sre_platform_for_auto.Errors.{Result, ok, ◌>>=◌}
use ai_sre_platform_for_auto.Values.{
  FloatOps, Value, Items, Fields, num, text, nil, cons, get, get_or, as_dict, as_text, iterate,
  to_float, truthy,
}
use ai_sre_platform_for_auto.Health.{Finding}
use ai_sre_platform_for_auto.Inventory.{Inventory}
use ai_sre_platform_for_auto.Monitoring.{
  TelemetryMetric, EvaluationContext, MonitoringRule, MonitoringSettings,
}
use ai_sre_platform_for_auto.Common.{CaseTables, Text}
use ai_sre_platform_for_auto.Common.{Bool, List, Option, if◌then◌else◌, lit, none}
use ai_sre_platform_for_auto.Common.{[], contains, lookup, member, some, ◌++◌, ◌∷◌}
use ai_sre_platform_for_auto.Common.{lower, ◌||◌}

-- `show_value` is `str` of a value in an f-string.
module _ {Float : Type 0} (floats : FloatOps Float) (show_value : Value Float → Text) where
  unfoldable pub found_in : Text → Option (TelemetryMetric Float) → Option (Value Float)
  found_in key none = none
  found_in key (some metric) = get key metric.«data»

  -- `metric.data[key]` of the latest metric, where both are there
  unfoldable pub measured : Text → Text → EvaluationContext Float → Option (Value Float)
  unfolding found_in
  measured metric_type key context = found_in key (lookup metric_type context.latest_telemetry)

  -- `threshold or default`
  unfoldable pub threshold_or : Option Float → Float → Float
  threshold_or none default = default
  threshold_or (some x) default = if floats.is_zero x then default else x

  unfoldable pub severity_above : ℕ → Float → Text
  severity_above limit val =
      if floats.gt val (floats.of_ℕ limit) then lit "CRITICAL" else lit "WARNING"

  unfoldable pub cpu_finding : Float → Float → Finding Float
  cpu_finding threshold val = record {
    id = none;
    category = lit "CPU";
    severity = severity_above 90 val;
    metric = lit "cpu.usage_percent";
    threshold = threshold;
    actual_value = val;
    message =
        lit "CPU utilization is high: "
        ++ (floats.show val ++ (lit "% (threshold: " ++ (floats.show threshold ++ lit "%)")));
    recommendation = lit "Scale cpu resources or inspect top resource consuming processes.";
  }

  -- `CPURule.evaluate`
  unfoldable pub cpu_evaluate : Float → Option (Value Float) → Result (Option (Finding Float))
  cpu_evaluate threshold none = ok none
  cpu_evaluate threshold (some usage) = do
    val ← to_float floats usage
    ok (if floats.gt val threshold then some (cpu_finding threshold val) else none)

  unfoldable pub memory_finding : Float → Float → Finding Float
  memory_finding threshold val = record {
    id = none;
    category = lit "Memory";
    severity = severity_above 95 val;
    metric = lit "memory.usage_percent";
    threshold = threshold;
    actual_value = val;
    message =
        lit "Memory utilization is high: "
        ++ (floats.show val ++ (lit "% (threshold: " ++ (floats.show threshold ++ lit "%)")));
    recommendation = lit "Check for process memory leaks or upgrade system memory capacity.";
  }

  -- `MemoryRule.evaluate`
  unfoldable pub memory_evaluate : Float → Option (Value Float) → Result (Option (Finding Float))
  memory_evaluate threshold none = ok none
  memory_evaluate threshold (some usage) = do
    val ← to_float floats usage
    ok (if floats.gt val threshold then some (memory_finding threshold val) else none)

  unfoldable pub disk_finding : Float → Float → Text → Finding Float
  disk_finding threshold val mount = record {
    id = none;
    category = lit "Disk";
    severity = severity_above 95 val;
    metric = lit "disk.usage_percent:" ++ mount;
    threshold = threshold;
    actual_value = val;
    message =
        lit "Disk partition '"
        ++ (mount
            ++ (lit "' is near capacity: "
                ++ (floats.show val
                    ++ (lit "% (threshold: " ++ (floats.show threshold ++ lit "%)")))));
    recommendation =
        lit "Clear space on mount point " ++ (mount ++ lit " or expand block storage partition.");
  }

  -- `float(part.get("usage_percent", 0.0))`
  unfoldable pub disk_usage : Fields Float → Result Float
  disk_usage part = to_float floats (get_or (lit "usage_percent") (num (floats.of_ℕ 0)) part)

  unfoldable pub disk_mount : Fields Float → Text
  disk_mount part = show_value (get_or (lit "mount_point") (text (lit "/")) part)

  -- the loop over the partitions
  unfoldable pub disk_scan : Float → Items Float → Result (Option (Finding Float))
  disk_scan threshold nil = ok none
  disk_scan threshold (cons part rest) =
      let later = disk_scan threshold rest in
      do
        fields ← as_dict part
        val ← disk_usage fields
        let found = disk_finding threshold val (disk_mount fields)
        if floats.gt val threshold then ok (some found) else later

  -- `DiskRule.evaluate`
  unfoldable pub disk_evaluate : Float → Option (Value Float) → Result (Option (Finding Float))
  disk_evaluate threshold none = ok none
  disk_evaluate threshold (some partitions) = do
    parts ← iterate partitions
    disk_scan threshold parts

  unfoldable pub network_finding : Finding Float
  network_finding = record {
    id = none;
    category = lit "Network";
    severity = lit "CRITICAL";
    metric = lit "network.active_interfaces";
    threshold = floats.of_ℕ 1;
    actual_value = floats.of_ℕ 0;
    message = lit "No active network interfaces reported.";
    recommendation = lit "Inspect physical network link status and network configurations.";
  }

  -- `NetworkRule.evaluate`
  unfoldable pub network_evaluate : Option (Value Float) → Result (Option (Finding Float))
  network_evaluate none = ok none
  network_evaluate (some interfaces) =
      if truthy floats interfaces then ok none else ok (some network_finding)

module _ {Float : Type 0} (floats : FloatOps Float) (tables : CaseTables) where
  abbrev lower_role : Option Text → Text
  lower_role none = []
  lower_role (some role) = lower tables role

  unfoldable pub role_of : Inventory Float → Text
  role_of inventory = lower_role inventory.metadata.role

  -- `{s.get("name", "").lower() for s in services}`
  unfoldable pub running_names : Items Float → Result (List Text)
  running_names nil = ok []
  running_names (cons s rest) =
      let later = running_names rest in
      do
        fields ← as_dict s
        name ← as_text (get_or (lit "name") (text []) fields)
        names ← later
        ok (lower tables name ∷ names)

  unfoldable pub is_web : Text → Bool
  is_web role = contains role (lit "web") || contains role (lit "nginx")

  unfoldable pub is_database : Text → Bool
  is_database role =
      contains role (lit "db") || contains role (lit "database") || contains role (lit "postgres")

  unfoldable pub nginx_finding : Finding Float
  nginx_finding = record {
    id = none;
    category = lit "Service";
    severity = lit "CRITICAL";
    metric = lit "service.nginx.running";
    threshold = floats.of_ℕ 1;
    actual_value = floats.of_ℕ 0;
    message = lit "Nginx web server is not running on web server asset.";
    recommendation = lit "Run 'systemctl start nginx' to restore web service traffic.";
  }

  unfoldable pub postgresql_finding : Finding Float
  postgresql_finding = record {
    id = none;
    category = lit "Service";
    severity = lit "CRITICAL";
    metric = lit "service.postgresql.running";
    threshold = floats.of_ℕ 1;
    actual_value = floats.of_ℕ 0;
    message = lit "PostgreSQL database service is not active on database host.";
    recommendation = lit "Run 'systemctl start postgresql' to restore database access.";
  }

  unfoldable pub missing_service : Text → List Text → Option (Finding Float)
  missing_service role names =
      if is_web role
      then (if member (lit "nginx") names then none else some nginx_finding)
      else if is_database role
      then (if member (lit "postgresql") names then none else some postgresql_finding)
      else none

  -- `ServiceRule.evaluate`
  unfoldable pub service_evaluate :
      Inventory Float → Option (Value Float) → Result (Option (Finding Float))
  service_evaluate inventory none = ok none
  service_evaluate inventory (some services) = do
    items ← iterate services
    names ← running_names items
    ok (missing_service (role_of inventory) names)

-- the rules that the module registers, in order
module _ {Float : Type 0} (floats : FloatOps Float) (show_value : Value Float → Text)
    (tables : CaseTables) (settings : MonitoringSettings Float) where
  unfoldable pub cpu_rule : Option Float → MonitoringRule Float
  cpu_rule threshold = record {
    rule_id = lit "rule.cpu.utilization";
    evaluate = λ context.
        cpu_evaluate floats show_value
          (threshold_or floats show_value threshold settings.cpu_threshold_pct)
          (measured floats show_value (lit "cpu") (lit "usage_percent") context);
  }

  unfoldable pub memory_rule : Option Float → MonitoringRule Float
  memory_rule threshold = record {
    rule_id = lit "rule.memory.utilization";
    evaluate = λ context.
        memory_evaluate floats show_value
          (threshold_or floats show_value threshold settings.memory_threshold_pct)
          (measured floats show_value (lit "memory") (lit "usage_percent") context);
  }

  unfoldable pub disk_rule : Option Float → MonitoringRule Float
  disk_rule threshold = record {
    rule_id = lit "rule.disk.utilization";
    evaluate = λ context.
        disk_evaluate floats show_value
          (threshold_or floats show_value threshold settings.disk_threshold_pct)
          (measured floats show_value (lit "disk") (lit "partitions") context);
  }

  unfoldable pub network_rule : MonitoringRule Float
  network_rule = record {
    rule_id = lit "rule.network.interfaces";
    evaluate = λ context.
        network_evaluate floats show_value
          (measured floats show_value (lit "network") (lit "interfaces") context);
  }

  unfoldable pub service_rule : MonitoringRule Float
  service_rule = record {
    rule_id = lit "rule.services.state";
    evaluate = λ context.
        service_evaluate floats tables context.inventory
          (measured floats show_value (lit "service") (lit "services") context);
  }

  -- `RuleRegistry.register`: the class's list of rules afterwards
  abbrev pub registering :
      MonitoringRule Float → List (MonitoringRule Float) → List (MonitoringRule Float)
  registering rule rules = rules ++ rule ∷ []

  -- `RuleRegistry._rules` once the module is imported
  unfoldable pub registered_rules : List (MonitoringRule Float)
  unfolding cpu_rule memory_rule disk_rule network_rule service_rule
  registered_rules = registering service_rule (
      registering network_rule (
        registering (disk_rule none)
          (registering (memory_rule none) (registering (cpu_rule none) []))))
