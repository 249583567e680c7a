-- ===== src/Telemetry/Orchestrator.antt =====
-- `TelemetryOrchestrator` (src/application/services/telemetry_orchestrator.py) over repositories, a
-- connector resolver and a clock that are parameters.
use ai_sre_platform_for_auto.Common.{ℕ, Text, Option, List, none, some, [], ◌∷◌, ◌++◌, lit, show}
use ai_sre_platform_for_auto.Errors.{Result, ok, raise, not_found, connection_failed}
use ai_sre_platform_for_auto.Effects.{Exec, pure, throw, lift, gets, ◌>>=◌}
use ai_sre_platform_for_auto.Values.{end}
use ai_sre_platform_for_auto.Server.{Server}
use ai_sre_platform_for_auto.Inventory.{Inventory, ConnectorType, ssh}
use ai_sre_platform_for_auto.Monitoring.{TelemetryMetric}
use ai_sre_platform_for_auto.Connector.{Connector}
use ai_sre_platform_for_auto.Connector.Ssh.{Config, given}
use ai_sre_platform_for_auto.Telemetry.{
  CollectionContext, RawMetric, MetricRegistry, get_collector, get_all_types,
}

pub record HostingerSettings (Float : Type 0) : Type 0 where
  pub ssh_username : Text
  pub ssh_password : Option Text
  pub ssh_key_path : Option Text
  pub ssh_port : ℕ
  pub ssh_timeout : Float

-- The constructor's arguments, the settings, the clock, and 1.0.
pub record Ports (W Float : Type 0) : Type 0 where
  pub server_by_id : ℕ → Exec W (Option (Server Float))
  pub get_by_server_id : ℕ → Exec W (Option (Inventory Float))
  pub resolve : ConnectorType → Config Float → Result (Connector W Float)
  pub save : TelemetryMetric Float → Exec W (TelemetryMetric Float)
  pub hostinger : HostingerSettings Float
  pub now : W → ℕ
  pub one : Float

-- `MetricMapper.to_entity`
unfoldable pub to_entity : {Float : Type 0} → RawMetric Float → TelemetryMetric Float
to_entity raw = record {
  id = none;
  server_id = raw.server_id;
  metric_type = raw.metric_type;
  timestamp = raw.timestamp;
  «data» = raw.«data»;
}

module _ {A : Type 0} where
  abbrev pub closed_with : Result (Unit {0}) → Result A → Result A
  closed_with (ok _) r = r
  closed_with (raise k m) r = raise k m

module _ {A W Float : Type 0} where
  -- `try: ... finally: await connector.disconnect()`
  unfoldable pub finally_disconnect : Connector W Float → Exec W A → Exec W A
  finally_disconnect connector m s =
      let (r, s₁) = m s in let (q, s₂) = connector.disconnect s₁ in (closed_with q r, s₂)

module _ {Float : Type 0} where
  -- the arguments of the resolver; `one` is 1.0
  unfoldable pub ssh_config : HostingerSettings Float → Float → Server Float → Config Float
  ssh_config hostinger one server = record {
    host = server.ip_address;
    username = hostinger.ssh_username;
    password = given hostinger.ssh_password;
    key_path = hostinger.ssh_key_path;
    port = hostinger.ssh_port;
    timeout = hostinger.ssh_timeout;
    retries = 2;
    retry_delay = one;
  }

module _ {Float : Type 0} where
  -- A collector that raises is passed over.
  abbrev pub kept : Result (RawMetric Float) → List (RawMetric Float) → List (RawMetric Float)
  kept (ok metric) rest = metric ∷ rest
  kept (raise k m) rest = rest

module _ {W Float : Type 0} where
  abbrev pub attempt : Exec W (RawMetric Float) → Exec W (Result (RawMetric Float))
  attempt m s = let (r, s') = m s in (ok r, s')

  -- the loop of step 6
  unfoldable pub harvest :
      MetricRegistry W Float
      → CollectionContext W Float
      → List Text
      → Exec W (List (RawMetric Float))
  harvest registry context [] = pure []
  harvest registry context (metric_type ∷ metric_types) = do
    collector ← lift (get_collector registry metric_type)
    metric ← attempt (collector context)
    rest ← harvest registry context metric_types
    pure (kept metric rest)

module _ {W Float : Type 0} (ports : Ports W Float) where
  unfoldable pub known_server : ℕ → Option (Server Float) → Exec W (Server Float)
  known_server n none = throw not_found (lit "Server with ID " ++ (show n ++ lit " not found."))
  known_server n (some server) = pure server

  unfoldable pub known_inventory : ℕ → Option (Inventory Float) → Exec W (Inventory Float)
  known_inventory n none =
      throw not_found (lit "Inventory record for server ID " ++ (show n ++ lit " not found."))
  known_inventory n (some inventory) = pure inventory

  -- step 4
  unfoldable pub connected : Result (Unit {0}) → Result (Unit {0})
  connected (ok _) = ok tt
  connected (raise k m) =
      raise connection_failed (lit "Telemetry collection connection failed: " ++ m)

  abbrev pub connect_to : Connector W Float → Exec W (Unit {0})
  connect_to connector s = let (r, s') = connector.connect s in (connected r, s')

  -- step 7
  unfoldable pub persist : List (RawMetric Float) → Exec W (List (TelemetryMetric Float))
  persist [] = pure []
  persist (raw ∷ raws) = do
    saved ← ports.save (to_entity raw)
    rest ← persist raws
    pure (saved ∷ rest)

  -- steps 4 to 7
  unfoldable pub collect_over :
      MetricRegistry W Float
      → Server Float
      → Inventory Float
      → Connector W Float
      → Exec W (List (TelemetryMetric Float))
  unfolding connected harvest finally_disconnect persist
  collect_over registry server inventory connector = do
    _ ← connect_to connector
    timestamp ← gets ports.now
    metrics ← finally_disconnect connector (
        harvest registry
          (record {
            server = server;
            inventory = inventory;
            connector = connector;
            timestamp = timestamp;
            metadata = end;
          })
          (get_all_types registry))
    persist metrics

  unfoldable pub collect_telemetry :
      MetricRegistry W Float → ℕ → Exec W (List (TelemetryMetric Float))
  unfolding known_server known_inventory ssh_config collect_over
  collect_telemetry registry server_id = do
    found ← ports.server_by_id server_id
    server ← known_server server_id found
    recorded ← ports.get_by_server_id server_id
    inventory ← known_inventory server_id recorded
    connector ← lift (ports.resolve ssh (ssh_config ports.hostinger ports.one server))
    collect_over registry server inventory connector
