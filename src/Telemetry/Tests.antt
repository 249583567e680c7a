-- ===== src/Telemetry/Tests.antt =====
-- A telemetry run over the SSH connector, on the host of the connector's tests.
use ai_sre_platform_for_auto.Common.{ℕ, Text, Option, none, some, refl, lit, pos, ◌≡◌}
use ai_sre_platform_for_auto.Errors.{ok, raise, connector_timeout}
use ai_sre_platform_for_auto.Effects.{Exec}
use ai_sre_platform_for_auto.Values.{end, nil}
use ai_sre_platform_for_auto.Server.{Server}
use ai_sre_platform_for_auto.Monitoring.Tests.{inventory}
use ai_sre_platform_for_auto.Connector.Ssh.{Ssh}
use ai_sre_platform_for_auto.Connector.Ssh.Tests.{config, fresh, paramiko}
use ai_sre_platform_for_auto.Telemetry.{CollectionContext, MetricRegistry, get_all_types}
use ai_sre_platform_for_auto.Telemetry.Collectors.{TelemetryParsers, registered}
use ai_sre_platform_for_auto.Telemetry.Orchestrator.{Ports, collect_telemetry, harvest}
use ai_sre_platform_for_auto.Telemetry.Closes.{Settings, collect_telemetry-Keeps}
use ai_sre_platform_for_auto.Telemetry.Harvest.{Harvests, registered-Harvests}
use ai_sre_platform_for_auto.Telemetry.OverSsh.{HasNoClient, ssh_connector, ssh_connector-Closing}
use ai_sre_platform_for_auto.Common.{if◌then◌else◌}
use ai_sre_platform_for_auto.Common.{◌==◌}
use ai_sre_platform_for_auto.Common.{◌-◌}
use ai_sre_platform_for_auto.Errors.{Result}
use ai_sre_platform_for_auto.Telemetry.{Connector}

abbrev pub server : Server ℕ
server = record {
  id = some 7;
  hostname = lit "web-1";
  ip_address = lit "10.0.0.7";
  operating_system = lit "Linux";
  cpu_cores = pos 2;
  memory_gb = 4;
  created_at = none;
  updated_at = none;
}

abbrev parsers : TelemetryParsers ℕ
parsers = record {
  cpu_parser = λ s. ok end;
  memory_parser = λ s. ok end;
  disk_parser = λ s. ok nil;
  network_parser = λ s. ok nil;
  process_parser = λ s. ok nil;
  service_parser = λ s. ok nil;
}

-- Every other command times out.
abbrev pub run : Text → Option ℕ → Exec (Ssh ℕ) Text
run command timeout s = (
  if s.world == 0 then raise connector_timeout (lit "late") else ok (lit "up"),
  record s { world = 1 - s.world },
)

abbrev ports : Ports (Ssh ℕ) ℕ
ports = record {
  server_by_id = λ n s. (ok (some server), s);
  get_by_server_id = λ n s. (ok (some inventory), s);
  resolve = λ t c. ok (ssh_connector paramiko config run);
  save = λ e s. (ok e, s);
  hostinger = record {
    ssh_username = lit "root";
    ssh_password = none;
    ssh_key_path = none;
    ssh_port = 22;
    ssh_timeout = 10;
  };
  now = λ s. 3;
  one = 1;
}

abbrev pub connector_of : Result (Connector (Ssh ℕ) ℕ) → Connector (Ssh ℕ) ℕ
connector_of (ok connector) = connector
connector_of (raise k m) = ssh_connector paramiko config run

ports-Settings : Settings HasNoClient ports
ports-Settings = record {
  server_keeps = λ n s h. h;
  inventory_keeps = λ n s h. h;
  save_keeps = λ e s h. h;
  closing = λ t c connector e.
      let f : ssh_connector paramiko config run ≡ connector = λ i. connector_of (e i) in
      rw⁻¹ f (ssh_connector-Closing paramiko config run);
}

abbrev registry : MetricRegistry (Ssh ℕ) ℕ
registry = registered parsers

collect_telemetry-Keeps_example : HasNoClient (collect_telemetry ports registry 7 fresh).1
collect_telemetry-Keeps_example =
    collect_telemetry-Keeps HasNoClient ports ports-Settings registry 7 fresh refl

abbrev context : CollectionContext (Ssh ℕ) ℕ
context = record {
  server = server;
  inventory = inventory;
  connector = ssh_connector paramiko config run;
  timestamp = 3;
  metadata = end;
}

registered-Harvests_example :
    Harvests context registry fresh (harvest registry context (get_all_types registry) fresh)
registered-Harvests_example = registered-Harvests context parsers fresh
