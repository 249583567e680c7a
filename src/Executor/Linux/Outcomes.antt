-- ===== src/Executor/Linux/Outcomes.antt =====
-- What a call of `LinuxCommandExecutor.execute` does to the system and reports
-- (src/infrastructure/executor/linux_command_executor.py).
use ai_sre_platform_for_auto.Common.{
  some, none, ◌↔◌, if◌then◌else◌, Text, lit, Bool, true, false, Option, List, [], ◌∷◌, ◌++◌, ◌≡◌,
  refl, ◌⊎◌, inl, inr, ◌&&◌, not, ℤ, pos, negsuc, is_zero, arith, CaseTables, Bool-cases,
}
use ai_sre_platform_for_auto.Errors.{Kind, Result, ok, raise}
use mathlib.Core.List.{append_assoc}
use ai_sre_platform_for_auto.Executor.Validator.{validate}
use ai_sre_platform_for_auto.Executor.Validator.Accepts.{IsReadOnly, validate-IsReadOnly_iff}
use ai_sre_platform_for_auto.Executor.Validator.Raises.{validate-raises}
use ai_sre_platform_for_auto.Executor.Linux.{
  CommandResult, created, communicated, killed, waited, Trace, Failure, timeout_error,
  file_not_found, permission_error, os_error, unexpected, Attempt, done, failed, Completed, Host,
  Local, handle, after_communicate, run_process, finish, refusal, after_validate, execute, or_empty,
  kill_and_wait, after_wait, finished,
}
use ai_sre_platform_for_auto.Common.{sym}
use ai_sre_platform_for_auto.Common.{ap}
use ai_sre_platform_for_auto.Executor.Linux.{or_zero}
use ai_sre_platform_for_auto.Common.{◌∙◌}

Result-cases : (v : Result (Unit {0})) → (v ≡ ok tt) ⊎ ((k : Kind) × (m : Text) × (v ≡ raise k m))
Result-cases (ok _) = inl refl
Result-cases (raise k m) = inr (k, m, refl)

-- The exit code that is reported for an exception.
abbrev pub code_of : Failure → ℤ
code_of timeout_error = negsuc 0
code_of (file_not_found e) = pos 127
code_of (permission_error e) = pos 126
code_of (os_error e) = negsuc 0
code_of (unexpected e) = negsuc 0

abbrev pub is_timeout : Failure → Bool
is_timeout timeout_error = true
is_timeout (file_not_found e) = false
is_timeout (permission_error e) = false
is_timeout (os_error e) = false
is_timeout (unexpected e) = false

is_zero→eq : (n : ℤ) → is_zero n ≡ true → n ≡ pos 0
is_zero→eq n h = ground arith

module _ {Timeout : Type 0} (host : Host Timeout) where
  -- A rejected command asks nothing of the operating system, and is reported as a failure with
  -- exit code -1 and the policy's message.
  pub execute-rejected :
      (tables : CaseTables) (command : Text) (arguments : Option (List Text))
      (timeout : Option Timeout) (t : Trace) (k : Kind) (message : Text)
      → validate tables command (or_empty arguments) ≡ raise k message
      → (r : CommandResult) × (execute host (validate tables) command arguments timeout t
          ≡ (some (ok r), t))
        × (r.success ≡ false)
        × (r.exit_code ≡ negsuc 0)
        × (r.timed_out ≡ false)
        × (r.stderr ≡ lit "Security Policy Violation: " ++ message)
  unfolding execute
  execute-rejected tables command arguments timeout t k message h =
      let policy = validate-raises tables command (or_empty arguments) k message h in
      (refusal host command (or_empty arguments) message t, ground arith, refl, refl, refl, refl)

  -- What a report says of a failure.
  pub record Failed (f : Failure) (r : CommandResult) : Type 0 where
    pub code : r.exit_code ≡ code_of f
    pub late : r.timed_out ≡ is_timeout f
    pub failing : r.success ≡ false

  module _ (command : Text) (args : List Text) (timeout : Option Timeout) (t : Trace) where
    abbrev started : Trace
    started = t ++ created command args ∷ []

    abbrev talking : Trace
    talking = started ++ communicated ∷ []

    -- what is asked after a timeout
    abbrev stopped : Trace
    stopped =
        if host.kill_fails talking then talking ++ waited ∷ [] else talking ++ killed ∷ waited ∷ []

    -- What a run that passed the policy asks and reports, by the answers of the system.
    pub data Ran (p : Option (Result CommandResult) × Trace) : Type 0 where
      not_created :
          (f : Failure) (r : CommandResult)
          → host.create_subprocess_exec command args t ≡ failed f
          → p ≡ (some (ok r), t)
          → Failed f r
          → Ran p
      replied :
          (c : Completed) (r : CommandResult)
          → host.create_subprocess_exec command args t ≡ done tt
          → host.communicate timeout started ≡ done c
          → p ≡ (some (ok r), talking)
          → r.exit_code ≡ or_zero c.returncode
          → r.timed_out ≡ false
          → r.stdout ≡ host.decode c.stdout_bytes
          → (r.success ≡ true) ↔ (or_zero c.returncode ≡ pos 0)
          → Ran p
      broken :
          (f : Failure) (r : CommandResult)
          → host.create_subprocess_exec command args t ≡ done tt
          → host.communicate timeout started ≡ failed f
          → is_timeout f ≡ false
          → p ≡ (some (ok r), talking)
          → Failed f r
          → Ran p
      timed_out :
          (r : CommandResult)
          → host.create_subprocess_exec command args t ≡ done tt
          → host.communicate timeout started ≡ failed timeout_error
          → host.wait_returns stopped ≡ true
          → p ≡ (some (ok r), stopped)
          → Failed timeout_error r
          → Ran p
      stuck :
          host.create_subprocess_exec command args t ≡ done tt
          → host.communicate timeout started ≡ failed timeout_error
          → host.wait_returns stopped ≡ false
          → p ≡ (none, stopped)
          → Ran p

    abbrev run : Option (Result CommandResult) × Trace
    run = finished host command args (run_process host command args timeout t)

    abbrev Creates : Attempt (Unit {0}) → Type 0
    Creates a = host.create_subprocess_exec command args t ≡ a

    abbrev Answers : Attempt Completed → Type 0
    Answers b = host.communicate timeout started ≡ b

    refused-Ran : (f : Failure) → Creates (failed f) → Ran run
    unfolding run_process finished finish handle
    refused-Ran timeout_error e =
        rw (e, run_process, finished)
          (Ran.not_created timeout_error _ e refl
            (record { code = refl; late = refl; failing = refl }))
    refused-Ran (file_not_found m) e =
        rw (e, run_process, finished)
          (Ran.not_created (file_not_found m) _ e refl
            (record { code = refl; late = refl; failing = refl }))
    refused-Ran (permission_error m) e =
        rw (e, run_process, finished)
          (Ran.not_created (permission_error m) _ e refl
            (record { code = refl; late = refl; failing = refl }))
    refused-Ran (os_error m) e =
        rw (e, run_process, finished)
          (Ran.not_created (os_error m) _ e refl
            (record { code = refl; late = refl; failing = refl }))
    refused-Ran (unexpected m) e =
        rw (e, run_process, finished)
          (Ran.not_created (unexpected m) _ e refl
            (record { code = refl; late = refl; failing = refl }))

    broken-Ran : (f : Failure) → Creates (done tt) → Answers (failed f) → Ran run
    unfolding run_process finished finish handle after_communicate kill_and_wait
    broken-Ran timeout_error e g = elim (Bool-cases (host.wait_returns stopped)) [
      | inl w ↦
          rw (e, run_process, g, after_communicate, w, finished)
            (Ran.timed_out _ e g w refl (record { code = refl; late = refl; failing = refl }))
      | inr w ↦ rw (e, run_process, g, after_communicate, w, finished) (Ran.stuck e g w refl)
    ]
    broken-Ran (file_not_found m) e g =
        rw (e, run_process, g, after_communicate, finished)
          (Ran.broken (file_not_found m) _ e g refl refl
            (record { code = refl; late = refl; failing = refl }))
    broken-Ran (permission_error m) e g =
        rw (e, run_process, g, after_communicate, finished)
          (Ran.broken (permission_error m) _ e g refl refl
            (record { code = refl; late = refl; failing = refl }))
    broken-Ran (os_error m) e g =
        rw (e, run_process, g, after_communicate, finished)
          (Ran.broken (os_error m) _ e g refl refl
            (record { code = refl; late = refl; failing = refl }))
    broken-Ran (unexpected m) e g =
        rw (e, run_process, g, after_communicate, finished)
          (Ran.broken (unexpected m) _ e g refl refl
            (record { code = refl; late = refl; failing = refl }))

    answered-Ran : (c : Completed) → Creates (done tt) → Answers (done c) → Ran run
    unfolding run_process finished finish after_communicate
    answered-Ran c e g =
        rw (e, run_process, g, after_communicate, finished)
          (Ran.replied c _ e g refl refl refl refl
            (λ h. is_zero→eq (or_zero c.returncode) (ground arith), λ h. rw h refl))

    communicated-Ran : (b : Attempt Completed) → Creates (done tt) → Answers b → Ran run
    communicated-Ran (done c) e g = answered-Ran c e g
    communicated-Ran (failed f) e g = broken-Ran f e g

    created-Ran : (a : Attempt (Unit {0})) → Creates a → Ran run
    created-Ran (done _) e = communicated-Ran (host.communicate timeout started) e refl
    created-Ran (failed f) e = refused-Ran f e

  -- A command that passes the policy is run, with just this command and these arguments, as the
  -- system answers: where no process is created, nothing else is asked, and the exception is
  -- reported by its exit code; where the process answers, its return code and output are reported, and a success
  -- exactly where that is zero or unknown; where `communicate` raises another exception than a
  -- timeout, that is reported. After a timeout the process is killed, unless the system refuses that,
  -- and waited for: the call reports the timeout, with exit code -1 and no success, if the wait ever
  -- returns, and else never returns.
  pub execute-Ran :
      (tables : CaseTables) (command : Text) (arguments : Option (List Text))
      (timeout : Option Timeout) (t : Trace)
      → validate tables command (or_empty arguments) ≡ ok tt
      → Ran command
          (or_empty arguments)
          timeout
          t
          (execute host (validate tables) command arguments timeout t)
  unfolding execute
  execute-Ran tables command arguments timeout t h =
      let args = or_empty arguments in
      rw (execute, h)
        (created-Ran command args timeout t (host.create_subprocess_exec command args t) refl)

  module _ (command : Text) (args : List Text) (timeout : Option Timeout) (t : Trace) where
    abbrev outcome : Option Local × Trace
    outcome = run_process host command args timeout t

    abbrev succeeds : Option Local → Bool
    succeeds none = false
    succeeds (some l) = is_zero l.exit_code && not l.timed_out

    abbrev output : Option Local → Text
    output none = []
    output (some l) = l.stdout

    abbrev Answered : Attempt Completed → Option Local × Trace → Type 0
    Answered b p =
        (c : Completed) × (b ≡ done c)
        × (or_zero c.returncode ≡ pos 0)
        × (p.1 ≡ t ++ (created command args ∷ communicated ∷ []))
        × (output p.0 ≡ host.decode c.stdout_bytes)

    waiting-fails :
        (w : Bool × Trace) (l : Local)
        → (is_zero l.exit_code && not l.timed_out) ≡ false
        → succeeds (after_wait host l w).0 ≡ false
    unfolding after_wait
    waiting-fails (true, t') l h = h
    waiting-fails (false, t') l h = refl

    handle-fails :
        (process : Bool) (f : Failure) (t' : Trace)
        → succeeds (handle host timeout process f t').0 ≡ false
    unfolding handle
    handle-fails false timeout_error t' = refl
    handle-fails true timeout_error t' = waiting-fails (kill_and_wait host t') _ refl
    handle-fails process (file_not_found e) t' = refl
    handle-fails process (permission_error e) t' = refl
    handle-fails process (os_error e) t' = refl
    handle-fails process (unexpected e) t' = refl

    communicate-Answered :
        (b : Attempt Completed)
        → succeeds
            (after_communicate host timeout b
              ((t ++ created command args ∷ []) ++ communicated ∷ [])).0
          ≡ true
        → Answered b (
            after_communicate host timeout b
              ((t ++ created command args ∷ []) ++ communicated ∷ []))
    unfolding after_communicate
    communicate-Answered (done c) s =
        (c, refl, is_zero→eq (or_zero c.returncode) (ground arith), simp append_assoc, refl)
    communicate-Answered (failed f) s =
        cc (handle-fails true f ((t ++ created command args ∷ []) ++ communicated ∷ []))

    run-Answered :
        (a : Attempt (Unit {0}))
        → host.create_subprocess_exec command args t ≡ a
        → succeeds outcome.0 ≡ true
        → Answered (host.communicate timeout (t ++ created command args ∷ [])) outcome
    unfolding run_process
    run-Answered (done _) e s =
        rw (e, run_process) (communicate-Answered _ (rw (e, run_process) at s))
    run-Answered (failed f) e s = cc (handle-fails false f t, rw (e, run_process) at s)

  finished_lem :
      (command : Text) (args : List Text) (timeout : Option Timeout) (t t' : Trace)
      (r : CommandResult) (p : Option Local × Trace)
      → finished host command args p ≡ (some (ok r), t')
      → (succeeds command args timeout t p.0 ≡ r.success)
        × (p.1 ≡ t')
        × (output command args timeout t p.0 ≡ r.stdout)
  unfolding finished finish
  finished_lem command args timeout t t' r (none, u) h = cc
  finished_lem command args timeout t t' r (some l, u) h =
      let e : finish host command args l u ≡ r = ground arith in
      (
        ap (λ (q : CommandResult). q.success) e,
        ap (λ q. q.1) h,
        ap (λ (q : CommandResult). q.stdout) e,
      )

  -- What a reported success rests on.
  pub record Succeeded (tables : CaseTables) (command : Text) (args : List Text)
      (timeout : Option Timeout) (t t' : Trace) (r : CommandResult) : Type 0 where
    pub read_only : IsReadOnly tables command args
    pub answer : Completed
    pub answered : host.communicate timeout (t ++ created command args ∷ []) ≡ done answer
    pub exit_zero : or_zero answer.returncode ≡ pos 0
    pub asked : t' ≡ t ++ (created command args ∷ communicated ∷ [])
    pub captured : r.stdout ≡ host.decode answer.stdout_bytes

  Succeeded-run :
      (tables : CaseTables) (command : Text) (args : List Text) (timeout : Option Timeout)
      (t t' : Trace) (r : CommandResult)
      → IsReadOnly tables command args
      → finished host command args (outcome command args timeout t) ≡ (some (ok r), t')
      → r.success ≡ true
      → Succeeded tables command args timeout t t' r
  Succeeded-run tables command args timeout t t' r safe same s =
      let (success, last, out) =
        finished_lem command args timeout t t' r (outcome command args timeout t) same in
      let (c, answered, zero_, asked, captured) =
        run-Answered command args timeout t (host.create_subprocess_exec command args t) refl
          (success ∙ s) in
      record {
        read_only = safe;
        answer = c;
        answered = answered;
        exit_zero = zero_;
        asked = sym last ∙ asked;
        captured = sym out ∙ captured;
      }

  raised-fails :
      (command : Text) (args : List Text) (timeout : Option Timeout) (t t' : Trace)
      (r : CommandResult) (k : Kind) (m : Text)
      → after_validate host (raise k m) command args timeout t ≡ (some (ok r), t')
      → r.success ≡ false
  unfolding after_validate
  raised-fails command args timeout t t' r k m h = ground arith

  -- A success means that the policy holds of the command, that one process was created for it and
  -- answered, that its return code was zero or unknown, and that the reported output is what the
  -- process wrote.
  pub execute-Succeeded :
      (tables : CaseTables) (command : Text) (arguments : Option (List Text))
      (timeout : Option Timeout) (t t' : Trace) (r : CommandResult)
      → execute host (validate tables) command arguments timeout t ≡ (some (ok r), t')
      → r.success ≡ true
      → Succeeded tables command (or_empty arguments) timeout t t' r
  unfolding execute
  execute-Succeeded tables command arguments timeout t t' r h s =
      elim (Result-cases (validate tables command (or_empty arguments))) [
        | inl e ↦
            Succeeded-run tables command (or_empty arguments) timeout t t' r
              ((validate-IsReadOnly_iff _ _ _).0 e) (rw (e, execute) at h) s
        | inr (k, m, e) ↦
            cc (raised-fails command (or_empty arguments) timeout t t' r k m (rw (e, execute) at h))
      ]
