-- ===== src/Connector/Ssh/Tests.antt =====
-- A host that takes two attempts to answer, and a command that prints once; the world is a clock.
use ai_sre_platform_for_auto.Common.{
  ℕ, [], ◌∷◌, ◌==◌, ◌≡◌, refl, true, false, none, some, pos, lit, ltb, show,
}
use ai_sre_platform_for_auto.Errors.{ok, is_instance}
use ai_sre_platform_for_auto.Values.{FloatOps}
use ai_sre_platform_for_auto.Connector.Ssh.{
  Config, Paramiko, Ssh, attempts, connect, done, fault, is_connected, ssh_or_os, sync_connect,
  settled, load_key, given,
}
use ai_sre_platform_for_auto.Connector.Ssh.Channel.{sync_execute}
use ai_sre_platform_for_auto.Connector.Ssh.Session.{execute, upload_file, download_file}
use ai_sre_platform_for_auto.Connector.Ssh.Retries.{Settles, Tried, connect-Settles, connect-Tried}
use ai_sre_platform_for_auto.Connector.Ssh.Waits.{RunsOn, Starts, sync_execute-waits}
use ai_sre_platform_for_auto.Connector.Ssh.Finishes.{Ends, Returns, sync_execute-Returns}
use ai_sre_platform_for_auto.Connector.Ssh.Raises.{Raises, RunRaises, calls-Raise}
use ai_sre_platform_for_auto.Common.{Text, arith, if◌then◌else◌, ◌+◌}
use ai_sre_platform_for_auto.Common.{Option, ◌-◌}

abbrev pub floats : FloatOps ℕ
floats = record {
  gt = λ a b. ltb b a;
  is_zero = λ a. a == 0;
  of_ℕ = λ n. n;
  parse = λ s. none;
  show = show;
}

abbrev pub config : Config ℕ
config = record {
  host = lit "10.0.0.7";
  username = lit "root";
  password = none;
  key_path = none;
  port = 22;
  timeout = 10;
  retries = 3;
  retry_delay = 1;
}

-- The world counts the time that is left until the host is up and the command has ended.
abbrev pub paramiko : Paramiko ℕ ℕ
paramiko = record {
  expanduser = λ path w. path;
  path_exists = λ path w. false;
  from_private_key_file = λ path password w. (fault ssh_or_os (lit "no key"), w);
  new_client = λ w. (1, w);
  client_connect =
      λ c config key w. (if w == 0 then done tt else fault ssh_or_os (lit "refused"), w);
  client_close = λ c w. (fault ssh_or_os (lit "gone"), w);
  get_transport = λ c w. some 2;
  is_active = λ t w. true;
  sleep = λ t w. w - t;
  open_session = λ t w. (done 3, w);
  settimeout = λ c t w. (done tt, w);
  exec_command = λ c command w. (done tt, w);
  exit_status_ready = λ c w. (w == 0, w - 1);
  recv_ready = λ c w. (ltb 0 w, w);
  recv = λ c w. (done (b'x' ∷ []), w - 1);
  recv_stderr_ready = λ c w. (false, w);
  recv_stderr = λ c w. (done [], w);
  closed = λ c w. (false, w);
  get_exit_status = λ c w. (done (pos 0), w);
  decode = λ bytes. bytes;
  open_sftp = λ t w. (done 4, w);
  sftp_put = λ s a b w. (done tt, w);
  sftp_get = λ s a b w. (done tt, w);
  sftp_close = λ s w. (done tt, w);
}

-- A host whose commands run on.
abbrev silent : Paramiko ℕ ℕ
silent = record paramiko { exit_status_ready = λ c w. (false, w); recv_ready = λ c w. (false, w) }

abbrev pub fresh : Ssh ℕ
fresh = record { client = none; connected = false; world = 1 }

abbrev opened : Ssh ℕ
opened = record { client = some 1; connected = true; world = 2 }

not_yet : is_connected paramiko config fresh ≡ false
unfolding is_connected
not_yet = refl

connect-Tried_example :
    (unused : ℕ) × (used : ℕ) × (unused + used ≡ 3)
    × Tried paramiko config unused used fresh (connect paramiko config fresh)
connect-Tried_example = connect-Tried paramiko config fresh not_yet (omega arith)

-- The second attempt connects.
connect_test :
    connect paramiko config fresh ≡ (ok tt, record { client = some 1; connected = true; world = 0 })
unfolding connect sync_connect load_key given attempts settled is_connected is_instance
connect_test = refl

connect-Settles_example : Settles paramiko config fresh (connect paramiko config fresh)
connect-Settles_example = connect-Settles paramiko config fresh not_yet

silent-RunsOn : RunsOn silent
silent-RunsOn = record {
  not_ready = λ c w. refl;
  not_closed = λ c w. refl;
  no_output = λ c w. refl;
  no_error = λ c w. refl;
}

silent-Starts : Starts silent 5 (lit "sleep infinity") 2 2
silent-Starts = record { channel = 3; opened = refl; timed = refl; started = refl }

sync_execute-waits_example : sync_execute floats silent 1000 (lit "sleep infinity") 5 opened ≡ none
sync_execute-waits_example =
    sync_execute-waits floats silent silent-RunsOn 1000 (lit "sleep infinity") 5 opened 1 2 refl
      refl silent-Starts

paramiko-Ends : Ends (λ w. w) paramiko
paramiko-Ends = record {
  waits = λ c w. (omega arith, λ e. ground arith);
  out_spends = λ c w. (omega arith, λ e. ground arith);
  err_spends = λ c w. (omega arith, λ e. ground arith);
  closed_keeps = λ c w. omega arith;
  open_keeps = λ t w. omega arith;
  settimeout_keeps = λ c t w. omega arith;
  exec_keeps = λ c command w. omega arith;
}

sync_execute-Returns_example : Returns (sync_execute floats paramiko 3 (lit "uptime") 5 opened)
sync_execute-Returns_example =
    sync_execute-Returns (λ w. w) paramiko floats paramiko-Ends 3 (lit "uptime") 5 opened
      (omega arith)

calls-Raise_example :
    Raises (connect paramiko config fresh).0
    × ((local_path remote_path : Text)
        → Raises (upload_file paramiko config local_path remote_path fresh).0
          × Raises (download_file paramiko config remote_path local_path fresh).0)
    × ((fuel : ℕ) (command : Text) (timeout : Option ℕ)
        → RunRaises paramiko config (execute floats paramiko config fuel command timeout fresh))
calls-Raise_example = calls-Raise paramiko config floats fresh
