-- ===== src/Executor/Linux/Tests.antt =====
-- The executor on concrete hosts, and the theorems about it there.
use ai_sre_platform_for_auto.Common.{
  ℕ, lit, true, false, none, some, [], ◌∷◌, ◌++◌, ◌≡◌, refl, ascii_tables, pos, negsuc,
}
use ai_sre_platform_for_auto.Errors.{ok, raise, policy_violation}
use ai_sre_platform_for_auto.Executor.Validator.{validate}
use ai_sre_platform_for_auto.Executor.Validator.Runs.{run_validator}
use ai_sre_platform_for_auto.Executor.Linux.{
  CommandResult, created, communicated, killed, waited, timeout_error, done, failed, Host, execute,
}
use ai_sre_platform_for_auto.Executor.Linux.Outcomes.{
  Ran, execute-rejected, execute-Ran, Succeeded, execute-Succeeded,
}

-- A host on which every process prints "up" and returns zero.
abbrev answering : Host ℕ
answering = record {
  create_subprocess_exec = λ c a t. done tt;
  communicate = λ l t.
      done
        (record { stdout_bytes = b'u' ∷ b'p' ∷ []; stderr_bytes = []; returncode = some (pos 0) });
  kill_fails = λ t. false;
  wait_returns = λ t. true;
  decode = λ b. b;
  show_timeout = λ l. lit "5.0";
  elapsed_ms = λ t. 3;
  now = λ t. 7;
}

-- A host on which every process runs out of time.
abbrev hanging : Host ℕ
hanging = record answering { communicate = λ l t. failed timeout_error }

-- The same where the kill is refused and the process never ends.
abbrev stuck_host : Host ℕ
stuck_host = record hanging { kill_fails = λ t. true; wait_returns = λ t. false }

abbrev uptime_result : CommandResult
uptime_result = record {
  command = lit "uptime";
  arguments = [];
  stdout = b'u' ∷ b'p' ∷ [];
  stderr = [];
  exit_code = pos 0;
  execution_time_ms = 3;
  timed_out = false;
  success = true;
  timestamp = 7;
}

execute_tests :
    (execute answering (validate ascii_tables) (lit "uptime") none none []
      ≡ (some (ok uptime_result), created (lit "uptime") [] ∷ communicated ∷ []))
    × ((execute hanging (validate ascii_tables) (lit "uptime") none (some 5) []).1
        ≡ created (lit "uptime") [] ∷ communicated ∷ killed ∷ waited ∷ [])
    × (execute stuck_host (validate ascii_tables) (lit "uptime") none (some 5) []
        ≡ (none, created (lit "uptime") [] ∷ communicated ∷ waited ∷ []))
unfolding run_validator execute
execute_tests = (refl, refl, refl)

rm_rejected :
    validate ascii_tables (lit "rm") []
    ≡ raise policy_violation (lit "Command 'rm' is not whitelisted for read-only execution.")
unfolding run_validator
rm_rejected = refl

execute-rejected_example :
    (r : CommandResult) × (execute answering (validate ascii_tables) (lit "rm") none none []
      ≡ (some (ok r), []))
    × (r.success ≡ false)
    × (r.exit_code ≡ negsuc 0)
    × (r.timed_out ≡ false)
    × (r.stderr
        ≡ lit "Security Policy Violation: "
          ++ lit "Command 'rm' is not whitelisted for read-only execution.")
execute-rejected_example =
    execute-rejected answering ascii_tables (lit "rm") none none [] policy_violation
      (lit "Command 'rm' is not whitelisted for read-only execution.") rm_rejected

uptime_accepted : validate ascii_tables (lit "uptime") [] ≡ ok tt
unfolding run_validator
uptime_accepted = refl

execute-Ran_example :
    Ran hanging
      (lit "uptime")
      []
      (some 5)
      []
      (execute hanging (validate ascii_tables) (lit "uptime") none (some 5) [])
execute-Ran_example =
    execute-Ran hanging ascii_tables (lit "uptime") none (some 5) [] uptime_accepted

execute-Succeeded_example :
    Succeeded answering ascii_tables
      (lit "uptime")
      []
      none
      []
      (created (lit "uptime") [] ∷ communicated ∷ [])
      uptime_result
execute-Succeeded_example =
    execute-Succeeded answering ascii_tables (lit "uptime") none none []
      (created (lit "uptime") [] ∷ communicated ∷ []) uptime_result execute_tests.0 refl
