-- ===== src/Discovery/Tests.antt =====
-- A discovery over the SSH connector, on the host of the connector's tests.
use ai_sre_platform_for_auto.Common.{ℕ, [], none, some, refl, lit}
use ai_sre_platform_for_auto.Errors.{ok}
use ai_sre_platform_for_auto.Connector.Ssh.{Ssh}
use ai_sre_platform_for_auto.Connector.Ssh.Tests.{config, fresh, paramiko}
use ai_sre_platform_for_auto.Monitoring.Tests.{inventory}
use ai_sre_platform_for_auto.Telemetry.Tests.{connector_of, run, server}
use ai_sre_platform_for_auto.Telemetry.OverSsh.{HasNoClient, ssh_connector, ssh_connector-Closing}
use ai_sre_platform_for_auto.Discovery.{Ports, discover_server}
use ai_sre_platform_for_auto.Discovery.Closes.{Settings, discover_server-Keeps}
use ai_sre_platform_for_auto.Common.{◌≡◌}

abbrev ports : Ports (Ssh ℕ) ℕ
ports = record {
  server_by_id = λ n s. (ok (some server), s);
  save = λ e s. (ok e, s);
  get_latest_by_server_id = λ n s. (ok none, s);
  resolve = λ t c. ok (ssh_connector paramiko config run);
  parsers = record {
    os_parser = λ s. ok s;
    cpu_parser = λ s. ok inventory.cpu;
    memory_parser = λ s. ok inventory.memory;
    filesystem_parser = λ s. ok [];
    network_parser = λ s. ok [];
    timezone_parser = λ s. ok s;
    uptime_parser = λ s. ok s;
  };
  hostinger = record {
    ssh_username = lit "root";
    ssh_password = none;
    ssh_key_path = none;
    ssh_port = 22;
    ssh_timeout = 10;
  };
  now = λ s. 3;
  one = 1;
}

ports-Settings : Settings HasNoClient ports
ports-Settings = record {
  server_keeps = λ n s h. h;
  save_keeps = λ e s h. h;
  closing = λ t c connector e.
      let f : ssh_connector paramiko config run ≡ connector = λ i. connector_of (e i) in
      rw⁻¹ f (ssh_connector-Closing paramiko config run);
}

discover_server-Keeps_example : HasNoClient (discover_server ports 7 fresh).1
discover_server-Keeps_example = discover_server-Keeps HasNoClient ports ports-Settings 7 fresh refl
