-- ===== src/Monitoring/Tests.antt =====
-- The rule engine over tables in memory, with natural numbers for floats.
use ai_sre_platform_for_auto.Common.{ℕ, [], ◌∷◌, refl, ◌++◌, none, some}
use mathlib.Core.List.{Permᴰ}
use ai_sre_platform_for_auto.Errors.{ok, raise, builtin}
use ai_sre_platform_for_auto.Repository.{Keyed}
use ai_sre_platform_for_auto.Repository.Memory.{memory, read, memory-IsRepository}
use ai_sre_platform_for_auto.Server.{Server}
use ai_sre_platform_for_auto.Inventory.{Inventory}
use ai_sre_platform_for_auto.Health.{ServerHealth}
use ai_sre_platform_for_auto.Incident.{Incident}
use ai_sre_platform_for_auto.Incident.Factory.{create_from_health, severity_of}
use ai_sre_platform_for_auto.Values.{
  FloatOps, Value, Items, num, text, arr, obj, nil, cons, end, field, get, get_or, iterate,
  to_float, truthy,
}
use ai_sre_platform_for_auto.Monitoring.{
  TelemetryMetric, EvaluationContext, MonitoringRule, MonitoringSettings,
}
use ai_sre_platform_for_auto.Monitoring.Rules.{
  disk_scan, disk_usage, disk_mount, disk_finding, registered_rules, cpu_rule, network_rule,
  cpu_evaluate, measured, memory_evaluate, disk_evaluate, threshold_or, severity_above,
  network_evaluate, service_evaluate,
}
use ai_sre_platform_for_auto.Monitoring.Engine.{
  Ports, assess, run_rules, score, deduction, deductions, status_of, evaluate_server,
}
use ai_sre_platform_for_auto.Monitoring.Score.{
  criticals, warnings, others, assess-healthy_iff, assess-isolates, assess-Perm,
}
use ai_sre_platform_for_auto.Monitoring.Findings.{registered_rules-score}
use ai_sre_platform_for_auto.Monitoring.Alerts.{alert-refused_iff}
use ai_sre_platform_for_auto.Monitoring.Evaluation.{Works, IsContext, evaluate_server-saves}
use ai_sre_platform_for_auto.Common.{List, Text, ascii_tables, lit, lookup, ltb, ◌≡◌}
use ai_sre_platform_for_auto.Common.{Option, if◌then◌else◌, pos, show, text_eq, ◌+◌, ◌==◌, ◌↔◌}
use ai_sre_platform_for_auto.Common.{member, upper, ◌*◌}
use ai_sre_platform_for_auto.Errors.{value_error}
use ai_sre_platform_for_auto.Repository.{IsRepository}
use ai_sre_platform_for_auto.Common.{◌≤◌, false}

abbrev floats : FloatOps ℕ
floats = record {
  gt = λ a b. ltb b a;
  is_zero = λ a. a == 0;
  of_ℕ = λ n. n;
  parse = λ s. none;
  show = show;
}

abbrev show_value : Value ℕ → Text
show_value (text s) = s
show_value _ = []

abbrev settings : MonitoringSettings ℕ
settings = record { cpu_threshold_pct = 80; memory_threshold_pct = 85; disk_threshold_pct = 90 }

abbrev rules : List (MonitoringRule ℕ)
rules = registered_rules floats show_value ascii_tables settings

abbrev partition : Text → ℕ → Value ℕ
partition mount usage =
    obj (field (lit "mount_point") (text mount) (field (lit "usage_percent") (num usage) end))

abbrev partitions : Items ℕ
partitions = cons (partition (lit "/") 40) (cons (partition (lit "/var") 97) nil)

abbrev pub inventory : Inventory ℕ
inventory = record {
  id = some 0;
  server_id = 0;
  hostname = lit "web-1";
  operating_system = lit "linux";
  kernel_version = lit "6.1";
  architecture = lit "x86_64";
  uptime = lit "1 day";
  timezone = lit "UTC";
  cpu = record {
    model = lit "cpu";
    cores = pos 4;
    sockets = pos 1;
    threads_per_core = pos 1;
    architecture = lit "x86_64";
  };
  memory = record {
    total_mb = 1;
    used_mb = 1;
    free_mb = 0;
    shared_mb = 0;
    buff_cache_mb = 0;
    available_mb = 0;
  };
  disks = [];
  network_interfaces = [];
  last_discovered_at = 0;
  metadata = record {
    environment = none;
    owner = none;
    project = none;
    business_unit = none;
    region = none;
    datacenter = none;
    role = some (lit "web");
    criticality = none;
    connector_type = none;
    tags = [];
  };
  version = pos 1;
}

abbrev web : Server ℕ
web = record {
  id = some 0;
  hostname = lit "web-1";
  ip_address = lit "10.0.0.1";
  operating_system = lit "linux";
  cpu_cores = pos 4;
  memory_gb = 16;
  created_at = none;
  updated_at = none;
}

abbrev disk_metric : TelemetryMetric ℕ
disk_metric = record {
  id = some 0;
  server_id = 0;
  metric_type = lit "disk";
  timestamp = 0;
  «data» = field (lit "partitions") (arr partitions) end;
}

abbrev latest_of : ℕ → Text → Option (TelemetryMetric ℕ)
latest_of n t = if text_eq t (lit "disk") then some disk_metric else none

record Tables : Type 0 where
  servers : List (Option (Server ℕ))
  inventories : ℕ → Option (Inventory ℕ)
  healths : List (Option (ServerHealth ℕ))

abbrev health_key : Keyed (ServerHealth ℕ)
health_key = record { id_of = λ h. h.id; with_id = λ h n. record h { id = some n } }

abbrev server_key : Keyed (Server ℕ)
server_key = record { id_of = λ e. e.id; with_id = λ e n. record e { id = some n } }

abbrev put_servers : Tables → List (Option (Server ℕ)) → Tables
put_servers s l = record s { servers = l }

abbrev put_healths : Tables → List (Option (ServerHealth ℕ)) → Tables
put_healths s l = record s { healths = l }

abbrev ports : Ports Tables ℕ
ports = record {
  server_repository = memory server_key (λ s. s.servers) put_servers;
  get_by_server_id = λ n s. (ok (s.inventories n), s);
  get_latest_by_server_id = λ n t s. (ok (latest_of n t), s);
  health_repository = memory health_key (λ s. s.healths) put_healths;
  rules = rules;
  now = λ s. 7;
  of_ℕ = λ n. n;
}

abbrev as_repository :
    IsRepository health_key ports.health_repository (read health_key (λ s. s.healths) put_healths)
as_repository =
    memory-IsRepository health_key (λ s. s.healths) put_healths (λ s l. refl) (λ e n. refl)

abbrev works : Works ports
works = record {
  servers = read server_key (λ s. s.servers) put_servers;
  inventories = λ s n. s.inventories n;
  latest = λ s n t. latest_of n t;
  healths = read health_key (λ s. s.healths) put_healths;
  reads_server = λ s n. refl;
  reads_inventory = λ s n. refl;
  reads_latest = λ s n t. refl;
  fresh = as_repository.fresh;
  after = as_repository.after;
  fresh_unused = as_repository.fresh_unused;
  saves = λ s h new. rw (as_repository.saves s h, new) refl;
  stores = λ s h m new. rw (as_repository.stores s h m, new) refl;
}

abbrev tables : Tables
tables = record { servers = some web ∷ []; inventories = λ n. some inventory; healths = [] }

abbrev context : EvaluationContext ℕ
context = record {
  inventory = inventory;
  latest_telemetry = (lit "disk", disk_metric) ∷ [];
  timestamp = 7;
  metadata = end;
}

abbrev broken_rule : MonitoringRule ℕ
broken_rule = record { rule_id = lit "rule.broken"; evaluate = λ c. raise builtin (lit "broken") }

run_engine : Unit {0}
unfolding lit text_eq upper lookup member get get_or iterate to_float truthy disk_scan disk_usage
    disk_mount disk_finding registered_rules run_rules score deductions status_of assess criticals
    warnings others create_from_health severity_of show cpu_evaluate measured memory_evaluate
    disk_evaluate threshold_or deduction severity_above network_evaluate service_evaluate
run_engine = tt

-- One critical disk finding degrades the server.
assess_tests :
    ((assess ascii_tables ports 0 context).overall_status ≡ lit "DEGRADED")
    × ((assess ascii_tables ports 0 context).health_score ≡ 80)
unfolding run_engine
assess_tests = (refl, refl)

assess-healthy_iff_example :
    ((assess ascii_tables ports 0 context).overall_status ≡ lit "HEALTHY") ↔ (
      (criticals ascii_tables (run_rules context rules) ≡ 0)
      × (2 * warnings ascii_tables (run_rules context rules)
            + others ascii_tables (run_rules context rules)
          ≤ 2))
assess-healthy_iff_example = assess-healthy_iff ascii_tables ports 0 context

assess-isolates_example :
    assess ascii_tables (record ports { rules = [] ++ (broken_rule ∷ rules) }) 0 context
    ≡ assess ascii_tables (record ports { rules = [] ++ rules }) 0 context
assess-isolates_example = assess-isolates ascii_tables ports 0 context [] rules broken_rule refl

abbrev cpu : MonitoringRule ℕ
cpu = cpu_rule floats show_value ascii_tables settings none

abbrev network : MonitoringRule ℕ
network = network_rule floats show_value ascii_tables settings

assess-Perm_example :
    ((assess ascii_tables (record ports { rules = cpu ∷ network ∷ [] }) 0 context).health_score
      ≡ (assess ascii_tables (record ports { rules = network ∷ cpu ∷ [] }) 0 context).health_score)
    × ((assess ascii_tables (record ports { rules = cpu ∷ network ∷ [] }) 0 context).overall_status
        ≡ (assess ascii_tables
            (record ports { rules = network ∷ cpu ∷ [] })
            0
            context).overall_status)
assess-Perm_example =
    assess-Perm ascii_tables ports 0 context {rs = cpu ∷ network ∷ []} {rs' = network ∷ cpu ∷ []}
      (Permᴰ.swap refl refl)

alert-refused_iff_example :
    (create_from_health ascii_tables show (assess ascii_tables ports 0 context) (lit "web-1") 9
      ≡ raise value_error (lit "Cannot trigger SRE incidents from a HEALTHY server status."))
    ↔ ((criticals ascii_tables (run_rules context rules) ≡ 0)
        × (2 * warnings ascii_tables (run_rules context rules)
              + others ascii_tables (run_rules context rules)
            ≤ 2))
alert-refused_iff_example = alert-refused_iff ascii_tables ports show 0 context (lit "web-1") 9

abbrev alert : Incident ℕ
alert = record {
  id = none;
  title = lit "Health degradation detected on host web-1";
  description = lit "Server health check score dropped to 80 with 1 active SRE rule violations.";
  severity = lit "CRITICAL";
  status = lit "OPEN";
  source = lit "MONITORING";
  server_id = 0;
  findings = run_rules context rules;
  created_at = 9;
  acknowledged_at = none;
  resolved_at = none;
  closed_at = none;
  assigned_to = none;
  resolution_notes = none;
}

alert_raised :
    create_from_health ascii_tables show (assess ascii_tables ports 0 context) (lit "web-1") 9
    ≡ ok alert
unfolding run_engine
alert_raised = refl

registered_rules-score_example :
    score ascii_tables (run_rules context rules) + deductions ascii_tables (run_rules context rules)
    ≡ 100
registered_rules-score_example =
    registered_rules-score ascii_tables floats show_value settings context

evaluate_server-saves_example :
    (key : ℕ) × (after : Tables) × (health : ServerHealth ℕ) × (c : EvaluationContext ℕ)
    × (evaluate_server ascii_tables ports 0 tables ≡ (ok health, after))
    × (works.healths tables key ≡ none)
    × (works.healths after key ≡ some health)
    × ((m : ℕ) → (m == key) ≡ false → works.healths after m ≡ works.healths tables m)
    × (IsContext ascii_tables ports works tables 0 inventory c)
    × (health.id ≡ some key)
    × (health.server_id ≡ 0)
    × (health.findings ≡ run_rules c ports.rules)
    × (health.health_score ≡ score ascii_tables health.findings)
    × (health.overall_status ≡ status_of (score ascii_tables health.findings))
    × (health.evaluation_timestamp ≡ 7)
evaluate_server-saves_example = evaluate_server-saves ascii_tables ports works tables 0 refl refl
