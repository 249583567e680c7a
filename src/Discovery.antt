-- ===== src/Discovery.antt =====
-- `DiscoveryService` (src/application/services/discovery_service.py) with its commands
-- (src/domain/discovery/commands.py). The repositories, the resolver, the clock and the parsers of
-- src/application/discovery/parsers.py are parameters; Parsers fills in the parsers.
pub mod Closes
mod Tests
pub mod Parsers
use ai_sre_platform_for_auto.Common.{
  ℕ, Text, Option, List, none, some, [], ◌∷◌, ◌++◌, lit, show, strip,
}
use ai_sre_platform_for_auto.Errors.{Result, ok, raise, not_found, connection_failed}
use ai_sre_platform_for_auto.Effects.{Exec, pure, throw, lift, gets, ◌>>=◌}
use ai_sre_platform_for_auto.Server.{Server}
use ai_sre_platform_for_auto.Inventory.{
  ConnectorType, CpuInfo, DiskInfo, MemoryInfo, NetworkInterfaceInfo, ssh,
}
use ai_sre_platform_for_auto.Inventory.Service.{DiscoveryResult}
use ai_sre_platform_for_auto.Connector.{Connector}
use ai_sre_platform_for_auto.Connector.Ssh.{Config}
use ai_sre_platform_for_auto.Telemetry.Orchestrator.{
  HostingerSettings, finally_disconnect, ssh_config,
}

pub record DiscoverySnapshot (Float : Type 0) : Type 0 where
  pub id : Option ℕ
  pub server_id : ℕ
  pub hostname : Text
  pub operating_system : Text
  pub kernel_version : Text
  pub architecture : Text
  pub uptime : Text
  pub timezone : Text
  pub cpu : CpuInfo
  pub memory : MemoryInfo Float
  pub disks : List (DiskInfo Float)
  pub network_interfaces : List NetworkInterfaceInfo
  pub discovered_at : ℕ

-- `DiscoveryMapper.to_snapshot`
unfoldable pub to_snapshot : {Float : Type 0} → DiscoveryResult Float → DiscoverySnapshot Float
to_snapshot result = record {
  id = none;
  server_id = result.server_id;
  hostname = result.hostname;
  operating_system = result.operating_system;
  kernel_version = result.kernel_version;
  architecture = result.architecture;
  uptime = result.uptime;
  timezone = result.timezone;
  cpu = result.cpu;
  memory = result.memory;
  disks = result.disks;
  network_interfaces = result.network_interfaces;
  discovered_at = result.discovered_at;
}

pub record DiscoveryParsers (Float : Type 0) : Type 0 where
  pub os_parser : Text → Result Text
  pub cpu_parser : Text → Result CpuInfo
  pub memory_parser : Text → Result (MemoryInfo Float)
  pub filesystem_parser : Text → Result (List (DiskInfo Float))
  pub network_parser : Text → Result (List NetworkInterfaceInfo)
  pub timezone_parser : Text → Result Text
  pub uptime_parser : Text → Result Text

-- The constructor's arguments, the settings, the clock, and 1.0.
pub record Ports (W Float : Type 0) : Type 0 where
  pub server_by_id : ℕ → Exec W (Option (Server Float))
  pub save : DiscoverySnapshot Float → Exec W (DiscoverySnapshot Float)
  pub get_latest_by_server_id : ℕ → Exec W (Option (DiscoverySnapshot Float))
  pub resolve : ConnectorType → Config Float → Result (Connector W Float)
  pub parsers : DiscoveryParsers Float
  pub hostinger : HostingerSettings Float
  pub now : W → ℕ
  pub one : Float

-- What the commands print.
pub record Outputs : Type 0 where
  pub hostname_out : Text
  pub os_out : Text
  pub kernel_out : Text
  pub arch_out : Text
  pub cpu_out : Text
  pub mem_out : Text
  pub disk_out : Text
  pub net_out : Text
  pub tz_out : Text
  pub uptime_out : Text

module _ {W Float : Type 0} where
  -- the body of the `try`
  unfoldable pub query : Connector W Float → Exec W Outputs
  query connector = do
    _ ← connector.connect
    hostname_out ← connector.execute (lit "hostname") none
    os_out ← connector.execute (lit "cat /etc/os-release") none
    kernel_out ← connector.execute (lit "uname -r") none
    arch_out ← connector.execute (lit "uname -m") none
    cpu_out ← connector.execute (lit "lscpu") none
    mem_out ← connector.execute (lit "free -m") none
    disk_out ← connector.execute (lit "df -hT") none
    net_out ← connector.execute (lit "ip -o addr show") none
    tz_out ← connector.execute (lit "timedatectl") none
    uptime_out ← connector.execute (lit "uptime") none
    pure (record {
      hostname_out = hostname_out;
      os_out = os_out;
      kernel_out = kernel_out;
      arch_out = arch_out;
      cpu_out = cpu_out;
      mem_out = mem_out;
      disk_out = disk_out;
      net_out = net_out;
      tz_out = tz_out;
      uptime_out = uptime_out;
    })

-- the `except`
unfoldable pub communication_error : Result Outputs → Result Outputs
communication_error (ok outputs) = ok outputs
communication_error (raise k m) =
    raise connection_failed (lit "Discovery failed due to network communication error: " ++ m)

module _ {W Float : Type 0} (ports : Ports W Float) where
  abbrev pub queried : Connector W Float → Exec W Outputs
  queried connector s = let (r, s') = query connector s in (communication_error r, s')

  abbrev pub known : ℕ → Option (Server Float) → Exec W (Server Float)
  known n none = throw not_found (lit "Server with ID " ++ (show n ++ lit " not found."))
  known n (some server) = pure server

  -- steps 4 and 5
  unfoldable pub assemble : ℕ → Outputs → Exec W (DiscoveryResult Float)
  assemble server_id outputs = do
    operating_system ← lift (ports.parsers.os_parser outputs.os_out)
    cpu_info ← lift (ports.parsers.cpu_parser outputs.cpu_out)
    memory_info ← lift (ports.parsers.memory_parser outputs.mem_out)
    disks ← lift (ports.parsers.filesystem_parser outputs.disk_out)
    network_interfaces ← lift (ports.parsers.network_parser outputs.net_out)
    timezone_val ← lift (ports.parsers.timezone_parser outputs.tz_out)
    uptime ← lift (ports.parsers.uptime_parser outputs.uptime_out)
    now ← gets ports.now
    pure (record {
      server_id = server_id;
      hostname = strip outputs.hostname_out;
      operating_system = operating_system;
      kernel_version = strip outputs.kernel_out;
      architecture = strip outputs.arch_out;
      uptime = uptime;
      timezone = timezone_val;
      cpu = cpu_info;
      memory = memory_info;
      disks = disks;
      network_interfaces = network_interfaces;
      discovered_at = now;
    })

  -- step 6
  unfoldable pub recorded : DiscoveryResult Float → Exec W (DiscoveryResult Float)
  recorded result = do _ ← ports.save (to_snapshot result); pure result

  unfoldable pub discover_server : ℕ → Exec W (DiscoveryResult Float)
  unfolding query communication_error assemble recorded
  discover_server server_id = do
    found ← ports.server_by_id server_id
    server ← known server_id found
    connector ← lift (ports.resolve ssh (ssh_config ports.hostinger ports.one server))
    outputs ← finally_disconnect connector (queried connector)
    result ← assemble server_id outputs
    recorded result

  unfoldable pub get_latest_discovery : ℕ → Exec W (Option (DiscoverySnapshot Float))
  get_latest_discovery server_id = do
    found ← ports.server_by_id server_id
    _ ← known server_id found
    ports.get_latest_by_server_id server_id
