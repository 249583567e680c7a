-- ===== src/Collector/Concrete/Refused.antt =====
-- The Docker collector over `LinuxCommandExecutor`: `docker network ls` and `docker volume ls` are
-- not on the allow-list of src/domain/executor/command_validator.py.
use ai_sre_platform_for_auto.Common.{ℕ, none, some, [], ◌∷◌, ◌++◌, inl, inr, refl}
use ai_sre_platform_for_auto.Errors.{Result, ok, raise, policy_violation}
use ai_sre_platform_for_auto.Values.{Fields}
use ai_sre_platform_for_auto.Executor.Linux.{CommandResult, Host, Trace, execute}
use ai_sre_platform_for_auto.Executor.Linux.Outcomes.{execute-rejected}
use ai_sre_platform_for_auto.Executor.Validator.{validate}
use ai_sre_platform_for_auto.Executor.Validator.Runs.{run_validator}
use ai_sre_platform_for_auto.Collector.{failed}
use ai_sre_platform_for_auto.Collector.Concrete.{
  CommandExecutor, broken, result_of, resolve_hostname,
}
use ai_sre_platform_for_auto.Collector.Concrete.Docker.{
  docker_collect, docker_probed, docker_details, concluded, fetch, taken, inspect, container_ids,
}
use mathlib.Core.List.{cons-ne-nil}
use ai_sre_platform_for_auto.Common.{CaseTables}
use ai_sre_platform_for_auto.Collector.{List}
use ai_sre_platform_for_auto.Collector.Concrete.{lit}
use ai_sre_platform_for_auto.Collector.{Text, ℤ}
use ai_sre_platform_for_auto.Common.{◌≡◌, ◌≢◌}
use ai_sre_platform_for_auto.Common.{Bool-cases}

-- The executor of the collectors is `LinuxCommandExecutor`, which they call without a timeout:
-- wherever such a call returns, it gives this.
abbrev pub Runs : {Timeout : Type 0} → Host Timeout → CaseTables → CommandExecutor Trace → Type 0
Runs host tables executor =
    (command : Text) (args : List Text) (t : Trace) (r : Result CommandResult) (t' : Trace)
    → execute host (validate tables) command (some args) none t ≡ (some r, t')
    → executor command args t ≡ (r, t')

network_refused :
    (tables : CaseTables)
    → validate tables (lit "docker") (lit "network" ∷ lit "ls" ∷ [])
      ≡ raise policy_violation
          (lit "Sub-command 'network ls' violates the read-only execution policy.")
unfolding run_validator
network_refused tables = refl

append-left-ne-nil : (es fs : List Text) → es ≢ [] → es ++ fs ≢ []
append-left-ne-nil [] fs h = absurd (h refl)
append-left-ne-nil (e ∷ es) fs h = cons-ne-nil e _

append-right-ne-nil : (es fs : List Text) → fs ≢ [] → es ++ fs ≢ []
append-right-ne-nil [] fs h = h
append-right-ne-nil (e ∷ es) fs h = cons-ne-nil e _

module _ {Float : Type 0} where
  concluded-failed :
      (es : List Text) (r : Result (Fields Float)) → es ≢ [] → (concluded es r).status ≡ failed
  unfolding concluded
  concluded-failed [] (ok p) h = absurd (h refl)
  concluded-failed (e ∷ es) (ok p) h = refl
  concluded-failed [] (raise k m) h = refl
  concluded-failed (e ∷ es) (raise k m) h = refl

module _ {Timeout Float : Type 0} (host : Host Timeout) (tables : CaseTables) (clock : Trace → ℕ)
    (elapsed : Trace → Trace → ℤ) (parse : Text → Text → Text → Text → ℕ → Result (Fields Float))
    (executor : CommandExecutor Trace) (runs : Runs host tables executor) where
  network-errors :
      (failing raising : Text) (t : Trace)
      → (fetch executor [] failing raising (lit "docker") (lit "network" ∷ lit "ls" ∷ []) t).0.1
        ≢ []
  unfolding fetch taken
  network-errors failing raising t =
      let (r, e, failed_run, exit, timed, reason) =
        execute-rejected host tables (lit "docker") (some (lit "network" ∷ lit "ls" ∷ [])) none t _
          _ (network_refused tables) in
      rw (runs (lit "docker") (lit "network" ∷ lit "ls" ∷ []) t (ok r) t e)
        (rw failed_run (cons-ne-nil _ []))

  docker_details-failed :
      (s : Trace) (hostname out : Text) (s' : Trace)
      → (docker_details clock elapsed parse executor s hostname out s').0.status ≡ failed
  unfolding docker_details result_of
  docker_details-failed s hostname out s' =
      let (i, s₂) = inspect executor (container_ids out) s' in
      let (u, s₃) =
        fetch executor [] (lit "docker stats failed: ") (lit "docker stats execution failed: ")
          (lit "docker") (lit "stats" ∷ lit "--no-stream" ∷ lit "--no-trunc" ∷ []) s₂ in
      let (v, s₄) =
        fetch executor [] (lit "docker network ls failed: ")
          (lit "docker network execution failed: ") (lit "docker") (lit "network" ∷ lit "ls" ∷ [])
          s₃ in
      let (w, s₅) =
        fetch executor [] (lit "docker volume ls failed: ") (lit "docker volume execution failed: ")
          (lit "docker") (lit "volume" ∷ lit "ls" ∷ []) s₄ in
      concluded-failed (i.1 ++ (u.1 ++ (v.1 ++ w.1))) (parse i.0 u.0 v.0 w.0 (clock s)) (
        append-right-ne-nil i.1 _ (
          append-right-ne-nil u.1 _ (
            append-left-ne-nil v.1 w.1 (
              network-errors (lit "docker network ls failed: ")
                (lit "docker network execution failed: ") s₃))))

  docker_probed-failed :
      (s : Trace) (hostname : Text) (r : Result CommandResult) (s' : Trace)
      → (docker_probed clock elapsed parse executor s hostname r s').0.status ≡ failed
  unfolding docker_probed result_of broken
  docker_probed-failed s hostname (raise k m) s' = refl
  docker_probed-failed s hostname (ok r) s' = elim (Bool-cases r.success) [
    | inl t ↦ rw t (docker_details-failed s hostname r.stdout s')
    | inr f ↦ rw f refl
  ]

  -- Run by an executor that answers what the `LinuxCommandExecutor` that the policy guards answers,
  -- wherever that returns, the Docker collector never reports SUCCESS, whatever the system answers:
  -- the policy refuses its `docker network ls`.
  pub docker_collect-failed :
      (s : Trace) → (docker_collect clock elapsed parse executor s).0.status ≡ failed
  unfolding docker_collect
  docker_collect-failed s =
      let (hostname, s₁) = resolve_hostname executor s in
      let (r, s₂) = executor (lit "docker") (lit "ps" ∷ lit "--no-trunc" ∷ []) s₁ in
      docker_probed-failed s hostname r s₂
