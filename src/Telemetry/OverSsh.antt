-- ===== src/Telemetry/OverSsh.antt =====
-- `LinuxSSHConnector` as the connector of a telemetry run. Its `execute` is a parameter `run`: it
-- returns where commands end.
use ai_sre_platform_for_auto.Common.{ℕ, Text, Option, none, some, refl}
use ai_sre_platform_for_auto.Errors.{Kind, Result, ok, raise}
use ai_sre_platform_for_auto.Effects.{Exec}
use ai_sre_platform_for_auto.Inventory.{ssh}
use ai_sre_platform_for_auto.Connector.{Connector}
use ai_sre_platform_for_auto.Connector.Ssh.{
  Config, Paramiko, Ssh, closing, connect, disconnect, is_connected,
}
use ai_sre_platform_for_auto.Connector.Ssh.Session.{upload_file, download_file}
use ai_sre_platform_for_auto.Connector.Ssh.Retries.{Settles, closing-closed, connect-Settles}
use ai_sre_platform_for_auto.Telemetry.Closes.{Closing}
use ai_sre_platform_for_auto.Common.{false}
use ai_sre_platform_for_auto.Common.{◌≡◌}
use ai_sre_platform_for_auto.Common.{◌∙◌}
use ai_sre_platform_for_auto.Common.{◌≢◌}

abbrev returned : Result (Unit {0})
returned = ok tt

returned-ne-raise : {k : Kind} {m : Text} → returned ≢ raise k m
returned-ne-raise e = cc

module _ {W : Type 0} where
  abbrev pub HasNoClient : Ssh W → Type 0
  HasNoClient s = s.client ≡ none

module _ {W Float : Type 0} (p : Paramiko W Float) (config : Config Float) where
  abbrev pub ssh_connector : (Text → Option Float → Exec (Ssh W) Text) → Connector (Ssh W) Float
  ssh_connector run = record {
    connector_type = ssh;
    is_connected = is_connected p config;
    connect = connect p config;
    disconnect = disconnect p config;
    execute = run;
    upload_file = upload_file p config;
    download_file = download_file p config;
  }

  raised-client :
      (s : Ssh W) (x : Result (Unit {0}) × Ssh W) (k : Kind) (m : Text)
      → Settles p config s x
      → x.0 ≡ raise k m
      → x.1.client ≡ s.client
  raised-client s (ok _, s') k m h e = absurd (returned-ne-raise e)
  raised-client s (raise k' m', s') k m (i, c, d) e = c

  closing-none : (s : Ssh W) (o : Option ℕ) → s.client ≡ o → HasNoClient (closing p config o s)
  closing-none s none e = e
  closing-none s (some c) e = refl

  -- `LinuxSSHConnector` holds no client after `disconnect`, nor after a `connect` that started without
  -- one and raised.
  pub ssh_connector-Closing :
      (run : Text → Option Float → Exec (Ssh W) Text) → Closing HasNoClient (ssh_connector run)
  unfolding disconnect
  ssh_connector-Closing run = record {
    connect_fails = λ s k m h e.
        let n : is_connected p config s ≡ false = closing-closed p config none s h in
        raised-client s (connect p config s) k m (connect-Settles p config s n) e ∙ h;
    disconnects = λ s. closing-none s s.client refl;
  }
