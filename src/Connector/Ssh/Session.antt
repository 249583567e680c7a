-- ===== src/Connector/Ssh/Session.antt =====
-- `LinuxSSHConnector`: the calls that connect first where the connector is not connected.
use mathlib.Core.Option
use ai_sre_platform_for_auto.Common.{ℕ, Text, Option, none, some, ◌++◌, ◌||◌, lit, if◌then◌else◌}
use ai_sre_platform_for_auto.Errors.{
  Result, ok, raise, connection_failed, connector_timeout, command_execution_failed, is_instance,
}
use ai_sre_platform_for_auto.Effects.{Exec}
use ai_sre_platform_for_auto.Values.{FloatOps}
use ai_sre_platform_for_auto.Connector.Ssh.{
  Call, Config, Paramiko, Ssh, connect, done, fault, is_connected,
}
use ai_sre_platform_for_auto.Connector.Ssh.Channel.{sync_execute}

module _ {Float : Type 0} (floats : FloatOps Float) where
  -- `timeout or self._timeout`
  unfoldable pub or_timeout : Option Float → Float → Float
  or_timeout none t = t
  or_timeout (some t') t = if floats.is_zero t' then t else t'

-- `except ...: raise`, and any other exception
unfoldable pub rethrown : Result Text → Result Text
rethrown (ok out) = ok out
rethrown (raise k m) =
    if is_instance k command_execution_failed
      || is_instance k connector_timeout
      || is_instance k connection_failed
    then raise k m
    else raise command_execution_failed (lit "Command execution failed: " ++ m)

module _ {W Float : Type 0} (p : Paramiko W Float) (config : Config Float) where
  -- `if not self.is_connected: await self.connect()`
  unfoldable pub ensure : Exec (Ssh W) (Unit {0})
  ensure s = if is_connected p config s then (ok tt, s) else connect p config s

module _ {W Float : Type 0} (floats : FloatOps Float) (p : Paramiko W Float)
    (config : Config Float) where
  abbrev pub executed :
      ℕ → Text → Option Float → Result (Unit {0}) → Ssh W → Option (Result Text × Ssh W)
  executed fuel command timeout (raise k m) s = some (raise k m, s)
  executed fuel command timeout (ok _) s =
      Option.map (λ (r, s'). (rethrown r, s'))
        (sync_execute floats p fuel command (or_timeout floats timeout config.timeout) s)

  unfoldable pub execute : ℕ → Text → Option Float → Ssh W → Option (Result Text × Ssh W)
  unfolding ensure sync_execute rethrown or_timeout
  execute fuel command timeout s =
      let (r, s') = ensure p config s in executed fuel command timeout r s'

module _ {W Float : Type 0} (p : Paramiko W Float) (config : Config Float) where
  -- The exception of the transfer, or of the `finally` that closes the session.
  abbrev finally : Call (Unit {0}) → Call (Unit {0}) → Call (Unit {0})
  finally r (fault k m) = fault k m
  finally r (done _) = r

  abbrev transferred : (ℕ → W → Call (Unit {0}) × W) → Call ℕ → W → Call (Unit {0}) × W
  transferred transfer (fault k m) w = (fault k m, w)
  transferred transfer (done sftp) w =
      let (r, w₁) = transfer sftp w in let (q, w₂) = p.sftp_close sftp w₁ in (finally r q, w₂)

  abbrev pub failing : Text → Call (Unit {0}) → Result (Unit {0})
  failing label (done _) = ok tt
  failing label (fault k m) = raise connection_failed (label ++ m)

  -- `_sync_upload_file` and `_sync_download_file` under the `try` of their callers
  unfoldable pub transfer_by : Text → (ℕ → W → Call (Unit {0}) × W) → Exec (Ssh W) (Unit {0})
  transfer_by label transfer s = elim s.client [
    | none ↦ (raise connection_failed (label ++ lit "Client is not connected."), s)
    | some c ↦
        let (r, w₁) = p.open_sftp c s.world in
        let (q, w₂) = transferred transfer r w₁ in (failing label q, record s { world = w₂ })
  ]

  abbrev pub after : Result (Unit {0}) → Exec (Ssh W) (Unit {0}) → Exec (Ssh W) (Unit {0})
  after (ok _) next s = next s
  after (raise k m) next s = (raise k m, s)

  unfoldable pub upload_file : Text → Text → Exec (Ssh W) (Unit {0})
  unfolding ensure transfer_by
  upload_file local_path remote_path s =
      let (r, s') = ensure p config s in
      after r
        (transfer_by (lit "SFTP upload failed: ") (λ sftp. p.sftp_put sftp local_path remote_path))
        s'

  unfoldable pub download_file : Text → Text → Exec (Ssh W) (Unit {0})
  unfolding ensure transfer_by
  download_file remote_path local_path s =
      let (r, s') = ensure p config s in
      after r
        (transfer_by (lit "SFTP download failed: ")
          (λ sftp. p.sftp_get sftp remote_path local_path))
        s'
