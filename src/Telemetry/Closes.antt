-- ===== src/Telemetry/Closes.antt =====
-- The connection of a telemetry run, whatever its collectors do.
use ai_sre_platform_for_auto.Common.{ℕ, Text, List, [], ◌∷◌, none, some, refl}
use ai_sre_platform_for_auto.Errors.{Kind, Result, ok, raise}
use ai_sre_platform_for_auto.Effects.{Exec, resume}
use ai_sre_platform_for_auto.Server.{Server}
use ai_sre_platform_for_auto.Inventory.{Inventory, ConnectorType, ssh}
use ai_sre_platform_for_auto.Connector.{Connector}
use ai_sre_platform_for_auto.Connector.Ssh.{Config}
use ai_sre_platform_for_auto.Monitoring.{TelemetryMetric}
use ai_sre_platform_for_auto.Telemetry.{MetricRegistry, RawMetric}
use ai_sre_platform_for_auto.Telemetry.Orchestrator.{
  Ports, collect_telemetry, collect_over, connected, finally_disconnect, persist, known_server,
  known_inventory, to_entity, ssh_config,
}
use ai_sre_platform_for_auto.Common.{Option, ◌≡◌}

module _ {W : Type 0} (Closed : W → Type 0) where
  -- A method that leaves a closed connection closed, also where it raises.
  abbrev pub Keeps : {A : Type 0} → Exec W A → Type 0
  Keeps m = (s : W) → Closed s → Closed (m s).1

  -- A connector that is open after `connect` only where that returned, and closed by `disconnect`.
  pub record Closing {Float : Type 0} (connector : Connector W Float) : Type 0 where
    pub connect_fails :
        (s : W) (k : Kind) (m : Text)
        → Closed s
        → (connector.connect s).0 ≡ raise k m
        → Closed (connector.connect s).1
    pub disconnects : (s : W) → Closed (connector.disconnect s).1

  -- The repositories leave connections alone, and the connectors are as above.
  pub record Settings {Float : Type 0} (ports : Ports W Float) : Type 0 where
    pub server_keeps : (n : ℕ) → Keeps (ports.server_by_id n)
    pub inventory_keeps : (n : ℕ) → Keeps (ports.get_by_server_id n)
    pub save_keeps : (e : TelemetryMetric Float) → Keeps (ports.save e)
    pub closing :
        (t : ConnectorType) (c : Config Float) (connector : Connector W Float)
        → ports.resolve t c ≡ ok connector
        → Closing connector

  pub resume-Keeps :
      {A B : Type 0} (r : Result A) (f : A → Exec W B) (s : W)
      → Closed s
      → ((a : A) → r ≡ ok a → Keeps (f a))
      → Closed (resume r f s).1
  resume-Keeps (ok a) f s h k = k a refl s h
  resume-Keeps (raise k m) f s h i = h

  module _ {Float : Type 0} (ports : Ports W Float) (l : Settings ports) where
    persist-Keeps : (raws : List (RawMetric Float)) → Keeps (persist ports raws)
    unfolding persist
    persist-Keeps [] s h = h
    persist-Keeps (raw ∷ raws) s h =
        resume-Keeps (ports.save (to_entity raw) s).0 _ _ (l.save_keeps (to_entity raw) s h)
          (λ saved e s₁ h₁.
            resume-Keeps (persist ports raws s₁).0 _ _ (persist-Keeps raws s₁ h₁)
              (λ rest e s₂ h₂. h₂))

    known_server-Keeps : (n : ℕ) (o : Option (Server Float)) → Keeps (known_server ports n o)
    unfolding known_server
    known_server-Keeps n none s h = h
    known_server-Keeps n (some server) s h = h

    known_inventory-Keeps :
        (n : ℕ) (o : Option (Inventory Float)) → Keeps (known_inventory ports n o)
    unfolding known_inventory
    known_inventory-Keeps n none s h = h
    known_inventory-Keeps n (some inventory) s h = h

    -- what follows a `connect` that came to `r`
    connected-Keeps :
        {B : Type 0} (connector : Connector W Float)
        → Closing connector
        → (r : Result (Unit {0})) (f : Unit {0} → Exec W B) (s : W) → Closed s
        → (connector.connect s).0 ≡ r
        → ((s' : W) → Closed (f tt s').1)
        → Closed (resume (connected ports r) f (connector.connect s).1).1
    unfolding connected
    connected-Keeps connector c (ok _) f s h e k = k (connector.connect s).1
    connected-Keeps connector c (raise k m) f s h e i = c.connect_fails s k m h e

    collect_over-Keeps :
        (registry : MetricRegistry W Float) (server : Server Float) (inventory : Inventory Float)
        (connector : Connector W Float)
        → Closing connector
        → Keeps (collect_over ports registry server inventory connector)
    unfolding collect_over finally_disconnect
    collect_over-Keeps registry server inventory connector c s h =
        connected-Keeps connector c (connector.connect s).0 _ s h refl (λ s₁.
          resume-Keeps _ _ _ (c.disconnects _) (λ metrics e s₂ h₂. persist-Keeps metrics s₂ h₂))

    -- A run of `collect_telemetry` that starts with the connection closed ends with it closed, on every
    -- path and for any registered collectors, where the repositories leave the connection alone and
    -- the connectors that are resolved are closed by `disconnect` and by a `connect` that raises.
    pub collect_telemetry-Keeps :
        (registry : MetricRegistry W Float) (server_id : ℕ)
        → Keeps (collect_telemetry ports registry server_id)
    unfolding collect_telemetry
    collect_telemetry-Keeps registry server_id s h =
        resume-Keeps (ports.server_by_id server_id s).0 _ _ (l.server_keeps server_id s h)
          (λ found e₁ s₁ h₁.
            resume-Keeps (known_server ports server_id found s₁).0 _ _
              (known_server-Keeps server_id found s₁ h₁)
              (λ server e₂ s₂ h₂.
                resume-Keeps (ports.get_by_server_id server_id s₂).0 _ _
                  (l.inventory_keeps server_id s₂ h₂)
                  (λ recorded e₃ s₃ h₃.
                    resume-Keeps (known_inventory ports server_id recorded s₃).0 _ _
                      (known_inventory-Keeps server_id recorded s₃ h₃)
                      (λ inventory e₄ s₄ h₄.
                        resume-Keeps
                          (ports.resolve ssh (ssh_config ports.hostinger ports.one server)) _ s₄ h₄
                          (λ connector e₅ s₅ h₅.
                            collect_over-Keeps registry server inventory connector
                              (l.closing ssh (ssh_config ports.hostinger ports.one server) connector
                                e₅)
                              s₅ h₅)))))
