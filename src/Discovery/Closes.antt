-- ===== src/Discovery/Closes.antt =====
-- The connection of a discovery run.
use ai_sre_platform_for_auto.Common.{ℕ, Option, none, some}
use ai_sre_platform_for_auto.Errors.{Result, ok}
use ai_sre_platform_for_auto.Effects.{Exec, resume}
use ai_sre_platform_for_auto.Server.{Server}
use ai_sre_platform_for_auto.Inventory.{ConnectorType, ssh}
use ai_sre_platform_for_auto.Inventory.Service.{DiscoveryResult}
use ai_sre_platform_for_auto.Connector.{Connector}
use ai_sre_platform_for_auto.Connector.Ssh.{Config}
use ai_sre_platform_for_auto.Telemetry.Orchestrator.{finally_disconnect, ssh_config}
use ai_sre_platform_for_auto.Telemetry.Closes.{Closing, Keeps, resume-Keeps}
use ai_sre_platform_for_auto.Discovery.{
  DiscoverySnapshot, Outputs, Ports, assemble, discover_server, known, queried, recorded,
  to_snapshot,
}
use ai_sre_platform_for_auto.Common.{◌≡◌}

module _ {W : Type 0} (Closed : W → Type 0) where
  -- The repositories leave connections alone, and `disconnect` closes them.
  pub record Settings {Float : Type 0} (ports : Ports W Float) : Type 0 where
    pub server_keeps : (n : ℕ) → Keeps Closed (ports.server_by_id n)
    pub save_keeps : (e : DiscoverySnapshot Float) → Keeps Closed (ports.save e)
    pub closing :
        (t : ConnectorType) (c : Config Float) (connector : Connector W Float)
        → ports.resolve t c ≡ ok connector
        → Closing Closed connector

  lift-Keeps :
      {A B : Type 0} (r : Result A) (f : A → Exec W B) (s : W)
      → Closed s
      → ((a : A) → Keeps Closed (f a))
      → Closed (resume r f s).1
  lift-Keeps r f s h k = resume-Keeps Closed r f s h (λ a e. k a)

  module _ {Float : Type 0} (ports : Ports W Float) (l : Settings ports) where
    known-Keeps : (n : ℕ) (o : Option (Server Float)) → Keeps Closed (known ports n o)
    known-Keeps n none s h = h
    known-Keeps n (some server) s h = h

    assemble-Keeps : (n : ℕ) (outputs : Outputs) → Keeps Closed (assemble ports n outputs)
    unfolding assemble
    assemble-Keeps n o s h = lift-Keeps (ports.parsers.os_parser o.os_out) _ s h (λ os s h.
        lift-Keeps (ports.parsers.cpu_parser o.cpu_out) _ s h (λ cpu s h.
          lift-Keeps (ports.parsers.memory_parser o.mem_out) _ s h (λ memory s h.
            lift-Keeps (ports.parsers.filesystem_parser o.disk_out) _ s h (λ disks s h.
              lift-Keeps (ports.parsers.network_parser o.net_out) _ s h (λ net s h.
                lift-Keeps (ports.parsers.timezone_parser o.tz_out) _ s h (λ tz s h.
                  lift-Keeps (ports.parsers.uptime_parser o.uptime_out) _ s h
                    (λ uptime s h. h)))))))

    recorded-Keeps : (result : DiscoveryResult Float) → Keeps Closed (recorded ports result)
    unfolding recorded
    recorded-Keeps result s h =
        lift-Keeps (ports.save (to_snapshot result) s).0 _ _ (l.save_keeps (to_snapshot result) s h)
          (λ saved s h. h)

    query-Keeps :
        (connector : Connector W Float)
        → Closing Closed connector
        → Keeps Closed (finally_disconnect connector (queried ports connector))
    unfolding finally_disconnect
    query-Keeps connector c s h = c.disconnects _

    -- A run of `discover_server` that starts with the connection closed ends with it closed, on every
    -- path, where the repositories leave the connection alone and the connectors that are resolved are
    -- closed by `disconnect` and left closed by a `connect` that raises.
    pub discover_server-Keeps : (server_id : ℕ) → Keeps Closed (discover_server ports server_id)
    unfolding discover_server
    discover_server-Keeps n s h =
        lift-Keeps (ports.server_by_id n s).0 _ _ (l.server_keeps n s h) (λ found s₁ h₁.
          lift-Keeps (known ports n found s₁).0 _ _ (known-Keeps n found s₁ h₁) (λ server s₂ h₂.
            resume-Keeps Closed (ports.resolve ssh (ssh_config ports.hostinger ports.one server)) _
              s₂ h₂
              (λ connector e s₃ h₃.
                let q : Exec W Outputs = finally_disconnect connector (queried ports connector) in
                lift-Keeps (q s₃).0 _ (q s₃).1
                  (query-Keeps connector (l.closing ssh _ connector e) s₃ h₃)
                  (λ outputs s₄ h₄.
                    lift-Keeps (assemble ports n outputs s₄).0 _ _ (assemble-Keeps n outputs s₄ h₄)
                      (λ result s₅ h₅. recorded-Keeps result s₅ h₅)))))
