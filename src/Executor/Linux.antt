-- ===== src/Executor/Linux.antt =====
-- `LinuxCommandExecutor` (src/infrastructure/executor/linux_command_executor.py) and
-- `CommandResult` (src/domain/executor/command_result.py). The operating system is a parameter: it
-- answers each call by what has been asked of it so far.
pub mod Outcomes
mod Tests
use ai_sre_platform_for_auto.Common.{
  ℕ, Text, lit, Bool, true, false, not, ◌&&◌, Option, none, some, List, [], ◌∷◌, ◌++◌, ℤ, pos,
  negsuc, is_zero, if◌then◌else◌,
}
use ai_sre_platform_for_auto.Errors.{Kind, Result, ok, raise, policy_violation, is_instance}

pub record CommandResult : Type 0 where
  pub command : Text
  pub arguments : List Text
  pub stdout : Text
  pub stderr : Text
  pub exit_code : ℤ
  pub execution_time_ms : ℕ
  pub timed_out : Bool
  pub success : Bool
  pub timestamp : ℕ

-- What the executor asks of the operating system, oldest first.
pub data Event : Type 0 where
  created : Text → List Text → Event
  communicated : Event
  killed : Event
  waited : Event

abbrev pub Trace : Type 0
Trace = List Event

-- The exceptions that the executor tells apart, each with its `str(e)`.
pub data Failure : Type 0 where
  timeout_error : Failure
  file_not_found : Text → Failure
  permission_error : Text → Failure
  os_error : Text → Failure
  unexpected : Text → Failure

pub data Attempt {ℓ} (A : Type ℓ) : Type ℓ where
  done : A → Attempt A
  failed : Failure → Attempt A

-- The pipes' bytes and the return code.
pub record Completed : Type 0 where
  pub stdout_bytes : List ℕ
  pub stderr_bytes : List ℕ
  pub returncode : Option ℤ

-- asyncio, the clocks and the decoder. `Timeout` is Python's float.
pub record Host (Timeout : Type 0) : Type 0 where
  pub create_subprocess_exec : Text → List Text → Trace → Attempt (Unit {0})
  pub communicate : Option Timeout → Trace → Attempt Completed
  -- whether `process.kill()` raises `OSError`
  pub kill_fails : Trace → Bool
  -- whether the last `process.wait()` asked ever returns, which it need not after a refused kill
  pub wait_returns : Trace → Bool
  pub decode : List ℕ → Text
  pub show_timeout : Option Timeout → Text
  -- int((time.perf_counter() - start_time) * 1000) and datetime.now
  pub elapsed_ms : Trace → ℕ
  pub now : Trace → ℕ

-- The local variables that the `try` block and its handlers assign.
pub record Local : Type 0 where
  pub stdout : Text
  pub stderr : Text
  pub exit_code : ℤ
  pub timed_out : Bool

abbrev initial : Local
initial = record { stdout = []; stderr = []; exit_code = negsuc 0; timed_out = false }

-- `process.returncode if process.returncode is not None else 0`
abbrev pub or_zero : Option ℤ → ℤ
or_zero none = pos 0
or_zero (some code) = code

-- `arguments or []`
abbrev pub or_empty : Option (List Text) → List Text
or_empty none = []
or_empty (some args) = args

module _ {Timeout : Type 0} (host : Host Timeout) where
  -- `process.kill()` under its own handler, and `await process.wait()`: what has been asked then,
  -- and whether the wait returns
  kill_and_wait : Trace → Bool × Trace
  kill_and_wait t =
      let t' = if host.kill_fails t then t ++ (waited ∷ []) else t ++ (killed ∷ waited ∷ []) in
      (host.wait_returns t', t')

  -- the rest of a handler after the wait; without it the call waits for ever, `none`
  after_wait : Local → Bool × Trace → Option Local × Trace
  after_wait l (ended, t) = (if ended then some l else none, t)

  -- the `except` clauses, in order; `process` tells whether the process was created
  handle : Option Timeout → Bool → Failure → Trace → Option Local × Trace
  unfolding kill_and_wait after_wait
  handle timeout process timeout_error t =
      let l = record initial {
        stderr = lit "Execution timed out after " ++ (host.show_timeout timeout ++ lit " seconds.");
        timed_out = true;
      } in
      if process then after_wait l (kill_and_wait t) else (some l, t)
  handle timeout process (file_not_found e) t =
      (some (record initial { stderr = lit "Command not found: " ++ e; exit_code = pos 127 }), t)
  handle timeout process (permission_error e) t =
      (some (record initial { stderr = lit "Permission denied: " ++ e; exit_code = pos 126 }), t)
  handle timeout process (os_error e) t =
      (some (record initial { stderr = lit "OS Error: " ++ e }), t)
  handle timeout process (unexpected e) t =
      (some (record initial { stderr = lit "Unexpected Exception: " ++ e }), t)

  -- the rest of the `try` block once the process is there
  after_communicate : Option Timeout → Attempt Completed → Trace → Option Local × Trace
  unfolding handle
  after_communicate timeout (done c) t = (
    some (record {
      stdout = host.decode c.stdout_bytes;
      stderr = host.decode c.stderr_bytes;
      exit_code = or_zero c.returncode;
      timed_out = false;
    }),
    t,
  )
  after_communicate timeout (failed e) t = handle timeout true e t

  after_create : Option Timeout → Attempt (Unit {0}) → Trace → Option Local × Trace
  unfolding after_communicate
  after_create timeout (done _) t =
      after_communicate timeout (host.communicate timeout t) (t ++ (communicated ∷ []))
  after_create timeout (failed e) t = handle timeout false e t

  -- the `try` statement of step 2
  unfoldable pub run_process : Text → List Text → Option Timeout → Trace → Option Local × Trace
  unfolding after_create
  run_process command args timeout t = elim (host.create_subprocess_exec command args t) [
    | done _ ↦ after_create timeout (done tt) (t ++ (created command args ∷ []))
    | failed e ↦ after_create timeout (failed e) t
  ]

  finish : Text → List Text → Local → Trace → CommandResult
  finish command args l t = record {
    command = command;
    arguments = args;
    stdout = l.stdout;
    stderr = l.stderr;
    exit_code = l.exit_code;
    execution_time_ms = host.elapsed_ms t;
    timed_out = l.timed_out;
    success = is_zero l.exit_code && not l.timed_out;
    timestamp = host.now t;
  }

  refusal : Text → List Text → Text → Trace → CommandResult
  refusal command args message t = record {
    command = command;
    arguments = args;
    stdout = [];
    stderr = lit "Security Policy Violation: " ++ message;
    exit_code = negsuc 0;
    execution_time_ms = host.elapsed_ms t;
    timed_out = false;
    success = false;
    timestamp = host.now t;
  }

  -- steps 3 and 4, if the `try` statement ends
  finished : Text → List Text → Option Local × Trace → Option (Result CommandResult) × Trace
  unfolding finish
  finished command args (none, t) = (none, t)
  finished command args (some l, t) = (some (ok (finish command args l t)), t)

  -- step 1 decides; only a `PolicyViolationError` is handled there
  unfoldable pub after_validate :
      Result (Unit {0})
      → Text
      → List Text
      → Option Timeout
      → Trace
      → Option (Result CommandResult) × Trace
  unfolding run_process finished refusal is_instance
  after_validate (raise k message) command args timeout t =
      if is_instance k policy_violation
      then (some (ok (refusal command args message t)), t)
      else (some (raise k message), t)
  after_validate (ok _) command args timeout t =
      finished command args (run_process command args timeout t)

  -- `execute`, with the injected validator; `none` is a call that never returns
  unfoldable pub execute :
      (Text → List Text → Result (Unit {0}))
      → Text
      → Option (List Text)
      → Option Timeout
      → Trace
      → Option (Result CommandResult) × Trace
  unfolding after_validate
  execute validate command arguments timeout t =
      after_validate (validate command (or_empty arguments)) command (or_empty arguments) timeout t
