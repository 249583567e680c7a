-- ===== src/Connector/Ssh/Raises.antt =====
-- The exceptions of `LinuxSSHConnector`, whatever paramiko raises.
use mathlib.Core.Option
use ai_sre_platform_for_auto.Common.{◌||◌}
use ai_sre_platform_for_auto.Values.{FloatOps}
use ai_sre_platform_for_auto.Errors.{
  Kind, Result, ok, raise, connector, connection_failed, connector_timeout,
  command_execution_failed, is_instance,
}
use ai_sre_platform_for_auto.Effects.{Exec}
use ai_sre_platform_for_auto.Connector.Ssh.{
  Call, Config, Paramiko, Ssh, connect, done, fault, is_connected,
}
use ai_sre_platform_for_auto.Connector.Ssh.Retries.{IsConnectError, Settles, connect-Settles}
use ai_sre_platform_for_auto.Connector.Ssh.Channel.{sync_execute}
use ai_sre_platform_for_auto.Connector.Ssh.Session.{
  ensure, execute, executed, rethrown, transfer_by, upload_file, download_file, failing, after,
  or_timeout,
}
use ai_sre_platform_for_auto.Connector.Ssh.{Text}
use ai_sre_platform_for_auto.Common.{inl, inr, refl, true}
use ai_sre_platform_for_auto.Common.{Bool-cases, ℕ, ◌≡◌}
use ai_sre_platform_for_auto.Common.{Option, none, some}
use ai_sre_platform_for_auto.Common.{arith}

-- A result whose exception, if it is one, is a `ConnectorError`.
abbrev pub Raises : {A : Type 0} → Result A → Type 0
Raises (ok a) = Unit
Raises (raise k m) = is_instance k connector ≡ true

connect_error-Raises : (k : Kind) → IsConnectError k → is_instance k connector ≡ true
unfolding is_instance
connect_error-Raises k (inl e) = rw e refl
connect_error-Raises k (inr (inl e)) = rw e refl
connect_error-Raises k (inr (inr e)) = rw e refl

caught-Raises :
    (k : Kind)
    → (is_instance k command_execution_failed
        || is_instance k connector_timeout
        || is_instance k connection_failed)
      ≡ true
    → is_instance k connector ≡ true
unfolding is_instance
caught-Raises k e = ground arith

own_kind : is_instance command_execution_failed connector ≡ true
unfolding is_instance
own_kind = refl

rethrown-Raises : (r : Result Text) → Raises (rethrown r)
unfolding rethrown
rethrown-Raises (ok out) = tt
rethrown-Raises (raise k m) =
    elim (Bool-cases (
      is_instance k command_execution_failed
      || is_instance k connector_timeout
      || is_instance k connection_failed)) [
        | inl t ↦ rw (rethrown, t) (caught-Raises k t)
        | inr f ↦ rw (rethrown, f) own_kind
      ]

module _ {W Float : Type 0} (p : Paramiko W Float) (config : Config Float) where
  Settles-Raises : (s : Ssh W) (x : Result (Unit {0}) × Ssh W) → Settles p config s x → Raises x.0
  Settles-Raises s (ok _, s') h = tt
  Settles-Raises s (raise k m, s') h = connect_error-Raises k h.0

  connect-Raises : (s : Ssh W) → Raises (connect p config s).0
  unfolding connect
  connect-Raises s = elim (Bool-cases (is_connected p config s)) [
    | inl t ↦ rw (connect, t) tt
    | inr f ↦ Settles-Raises s (connect p config s) (connect-Settles p config s f)
  ]

  ensure-Raises : (s : Ssh W) → Raises (ensure p config s).0
  unfolding ensure
  ensure-Raises s = elim (Bool-cases (is_connected p config s)) [
    | inl t ↦ rw (ensure, t) tt
    | inr f ↦ rw (ensure, f) (connect-Raises s)
  ]

  failing-Raises : (label : Text) (r : Call (Unit {0})) → Raises (failing p config label r)
  unfolding is_instance
  failing-Raises label (done _) = tt
  failing-Raises label (fault k m) = refl

  transfer_by-Raises :
      (label : Text) (transfer : ℕ → W → Call (Unit {0}) × W) (s : Ssh W)
      → Raises (transfer_by p config label transfer s).0
  unfolding transfer_by is_instance
  transfer_by-Raises label transfer s = go s.client refl
    where
      go : (c : Option ℕ) → s.client ≡ c → Raises (transfer_by p config label transfer s).0
      go none e = rw (transfer_by, e) refl
      go (some c) e = rw (transfer_by, e) (failing-Raises label _)

  after-Raises :
      (r : Result (Unit {0})) (next : Exec (Ssh W) (Unit {0})) (s : Ssh W)
      → Raises r
      → Raises (next s).0
      → Raises (after p config r next s).0
  after-Raises (ok _) next s h i = i
  after-Raises (raise k m) next s h i = h

  -- A run that has not returned, or has returned in such a result.
  abbrev pub RunRaises : Option (Result Text × Ssh W) → Type 0
  RunRaises none = Unit
  RunRaises (some (r, s)) = Raises r

  rethrown-RunRaises :
      (o : Option (Result Text × Ssh W)) → RunRaises (Option.map (λ (r, s). (rethrown r, s)) o)
  rethrown-RunRaises none = tt
  rethrown-RunRaises (some (r, s)) = rethrown-Raises r

  executed-RunRaises :
      (floats : FloatOps Float) (fuel : ℕ) (command : Text) (timeout : Option Float)
      (r : Result (Unit {0})) (s : Ssh W)
      → Raises r
      → RunRaises (executed floats p config fuel command timeout r s)
  executed-RunRaises floats fuel command timeout (raise k m) s h = h
  executed-RunRaises floats fuel command timeout (ok _) s h =
      rethrown-RunRaises
        (sync_execute floats p fuel command (or_timeout floats timeout config.timeout) s)

  -- Whatever the state and whatever paramiko answers or raises, the exceptions of `connect`,
  -- `upload_file`, `download_file` and, when it returns, `execute` are `ConnectorError`s.
  pub calls-Raise :
      (floats : FloatOps Float) (s : Ssh W)
      → Raises (connect p config s).0
        × ((local_path remote_path : Text)
            → Raises (upload_file p config local_path remote_path s).0
              × Raises (download_file p config remote_path local_path s).0)
        × ((fuel : ℕ) (command : Text) (timeout : Option Float)
            → RunRaises (execute floats p config fuel command timeout s))
  unfolding upload_file download_file execute
  calls-Raise floats s = (
    connect-Raises s,
    λ local_path remote_path. (
      after-Raises (ensure p config s).0 _ _ (ensure-Raises s) (transfer_by-Raises _ _ _),
      after-Raises (ensure p config s).0 _ _ (ensure-Raises s) (transfer_by-Raises _ _ _),
    ),
    λ fuel command timeout.
        executed-RunRaises floats fuel command timeout (ensure p config s).0 (ensure p config s).1
          (ensure-Raises s),
  )
