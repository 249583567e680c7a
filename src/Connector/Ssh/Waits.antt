-- ===== src/Connector/Ssh/Waits.antt =====
-- When `LinuxSSHConnector._sync_execute` returns.
use ai_sre_platform_for_auto.Values.{FloatOps}
use ai_sre_platform_for_auto.Common.{ℕ, zero, suc, none, some, false, refl}
use ai_sre_platform_for_auto.Connector.Ssh.{Call, Paramiko, Ssh, done}
use ai_sre_platform_for_auto.Connector.Ssh.Channel.{
  Streams, read_if, read_both, wait, collect_output, sync_execute,
}
use ai_sre_platform_for_auto.Common.{Bool, ◌≡◌}
use ai_sre_platform_for_auto.Common.{List}
use ai_sre_platform_for_auto.Common.{Text}
use ai_sre_platform_for_auto.Connector.Ssh.Channel.{run_channel}

module _ {W Float : Type 0} (p : Paramiko W Float) where
  -- A command that runs on without an output: the channel is open, and never has anything.
  pub record RunsOn : Type 0 where
    pub not_ready : (c : ℕ) (w : W) → (p.exit_status_ready c w).0 ≡ false
    pub not_closed : (c : ℕ) (w : W) → (p.closed c w).0 ≡ false
    pub no_output : (c : ℕ) (w : W) → (p.recv_ready c w).0 ≡ false
    pub no_error : (c : ℕ) (w : W) → (p.recv_stderr_ready c w).0 ≡ false

  read_if-done :
      (ready : ℕ → W → Bool × W) (recv : ℕ → W → Call (List ℕ) × W) (c : ℕ) (t : Text) (w : W)
      → (ready c w).0 ≡ false
      → read_if p ready recv c t w ≡ (done t, (ready c w).1)
  unfolding read_if
  read_if-done ready recv c t w e = rw (read_if, e) refl

  read_both-quiet :
      RunsOn
      → (c : ℕ) (s : Streams) (w : W)
      → read_both p c s w ≡ (done s, (p.recv_stderr_ready c (p.recv_ready c w).1).1)
  unfolding read_both
  read_both-quiet h c s w =
      rw
        (
          read_both,
          read_if-done p.recv_ready p.recv c s.out w (h.no_output c w),
          read_if-done p.recv_stderr_ready p.recv_stderr c s.err (p.recv_ready c w).1
              (h.no_error c (p.recv_ready c w).1),
        )
        refl

  wait-none : RunsOn → (fuel c : ℕ) (s : Streams) (w : W) → wait p fuel c s w ≡ none
  unfolding wait
  wait-none h zero c s w = refl
  wait-none h (suc fuel) c s w =
      rw
        (
          wait,
          h.not_ready c w,
          read_both-quiet h c s (p.exit_status_ready c w).1,
          h.not_closed c (read_both p c s (p.exit_status_ready c w).1).1,
        )
        (wait-none h fuel c s _)

  -- The command starts: the session opens and takes the timeout and the command.
  pub record Starts (timeout : Float) (command : Text) (transport : ℕ) (w : W) : Type 0 where
    pub channel : ℕ
    pub opened : (p.open_session transport w).0 ≡ done channel
    pub timed : (p.settimeout channel timeout (p.open_session transport w).1).0 ≡ done tt
    pub started :
        (p.exec_command channel command
          (p.settimeout channel timeout (p.open_session transport w).1).1).0
        ≡ done tt

  run_channel-none :
      RunsOn
      → (fuel : ℕ) (timeout : Float) (command : Text) (transport : ℕ) (w : W)
      → Starts timeout command transport w
      → run_channel p fuel timeout command transport w ≡ none
  unfolding collect_output
  run_channel-none h fuel timeout command transport w st =
      rw (st.opened, st.timed, st.started, wait-none h fuel st.channel) refl

module _ {W Float : Type 0} (floats : FloatOps Float) (p : Paramiko W Float) where
  -- On a connector with a client and a transport, a command that starts and then runs on without an
  -- output keeps `_sync_execute` waiting for ever: with no fuel does it return, whatever the timeout is.
  pub sync_execute-waits :
      RunsOn p
      → (fuel : ℕ) (command : Text) (timeout : Float) (s : Ssh W) (client transport : ℕ)
      → s.client ≡ some client
      → p.get_transport client s.world ≡ some transport
      → Starts p timeout command transport s.world
      → sync_execute floats p fuel command timeout s ≡ none
  unfolding sync_execute
  sync_execute-waits h fuel command timeout s client transport e f st =
      rw (sync_execute, e, f, run_channel-none p h fuel timeout command transport s.world st) refl
