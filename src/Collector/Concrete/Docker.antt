-- ===== src/Collector/Concrete/Docker.antt =====
-- The Docker collector (src/infrastructure/collectors/docker_collector.py), and what it shares with
-- the Kubernetes collector: commands whose failures are listed while the run goes on.

use ai_sre_platform_for_auto.Common.{ℕ}
use ai_sre_platform_for_auto.Errors.{Result, ok, raise}
use ai_sre_platform_for_auto.Values.{Fields, end}
use ai_sre_platform_for_auto.Executor.Linux.{CommandResult}
use ai_sre_platform_for_auto.Collector.{CollectorResult, failed, docker}
use ai_sre_platform_for_auto.Collector.Concrete.{
  CommandExecutor, Report, broken, reported, resolve_hostname, result_of,
}
use ai_sre_platform_for_auto.Collector.{List, Text, ℤ}
use ai_sre_platform_for_auto.Common.{[], false, true, ◌++◌, ◌∷◌}
use ai_sre_platform_for_auto.Collector.Concrete.{lit}
use ai_sre_platform_for_auto.Common.{if◌then◌else◌, split, splitlines}
use ai_sre_platform_for_auto.Collector.Concrete.{strip}

-- What a command gives, with `default` and an error where it fails or raises.
unfoldable pub taken : Text → Text → Text → Result CommandResult → Text × List Text
taken default failing raising (ok r) =
    if r.success then (r.stdout, []) else (default, (failing ++ strip r.stderr) ∷ [])
taken default failing raising (raise k message) = (default, (raising ++ message) ∷ [])

unfoldable pub fetch :
    {S : Type 0}
    → CommandExecutor S
    → Text
    → Text
    → Text
    → Text
    → List Text
    → S
    → (Text × List Text) × S
unfolding taken
fetch execute default failing raising command args s =
    let (r, s') = execute command args s in (taken default failing raising r, s')

module _ {Float : Type 0} where
  -- the last steps: the parser, and FAILED where any error is listed
  unfoldable pub concluded : List Text → Result (Fields Float) → Report Float
  unfolding reported
  concluded [] (ok payload) = reported payload
  concluded (e ∷ es) (ok payload) = record { payload = payload; status = failed; errors = e ∷ es }
  concluded es (raise k message) = record {
    payload = end;
    status = failed;
    errors = es ++ (lit "Parsing failed: " ++ message) ∷ [];
  }

-- the first columns
unfoldable pub first_columns : List Text → List Text
first_columns [] = []
first_columns (line ∷ lines) =
    let rest = first_columns lines in elim (split line) [ [] ↦ rest | part ∷ parts ↦ part ∷ rest ]

abbrev without_header : List Text → List Text
without_header [] = []
without_header (header ∷ lines) = lines

-- step 2: the container IDs below the header of `docker ps`
unfoldable pub container_ids : Text → List Text
unfolding first_columns
container_ids stdout = first_columns (without_header (splitlines (strip stdout)))

module _ {S : Type 0} where
  -- step 3, which is left out without containers
  unfoldable pub inspect : CommandExecutor S → List Text → S → (Text × List Text) × S
  inspect execute [] s = ((lit "[]", []), s)
  inspect execute (c ∷ cs) s =
      fetch execute (lit "[]") (lit "docker inspect failed: ")
        (lit "docker inspect execution failed: ") (lit "docker") (lit "inspect" ∷ c ∷ cs) s

module _ {S Float : Type 0} (clock : S → ℕ) (elapsed : S → S → ℤ)
    (parse : Text → Text → Text → Text → ℕ → Result (Fields Float)) where
  -- steps 2 to the end, after `docker ps`; `s` is where the run began
  unfoldable pub docker_details :
      CommandExecutor S → S → Text → Text → S → CollectorResult Float × S
  unfolding fetch inspect container_ids concluded
  docker_details execute s hostname ps_stdout s₁ =
      let ((inspect_output, e₁), s₂) = inspect execute (container_ids ps_stdout) s₁ in
      let ((stats_output, e₂), s₃) =
        fetch execute [] (lit "docker stats failed: ") (lit "docker stats execution failed: ")
          (lit "docker") (lit "stats" ∷ lit "--no-stream" ∷ lit "--no-trunc" ∷ []) s₂ in
      let ((network_output, e₃), s₄) =
        fetch execute [] (lit "docker network ls failed: ")
          (lit "docker network execution failed: ") (lit "docker") (lit "network" ∷ lit "ls" ∷ [])
          s₃ in
      let ((volume_output, e₄), s₅) =
        fetch execute [] (lit "docker volume ls failed: ") (lit "docker volume execution failed: ")
          (lit "docker") (lit "volume" ∷ lit "ls" ∷ []) s₄ in
      (
        result_of clock elapsed (lit "DockerCollector") docker s s₅ hostname (
            concluded (e₁ ++ (e₂ ++ (e₃ ++ e₄)))
              (parse inspect_output stats_output network_output volume_output (clock s))),
        s₅,
      )

  -- step 1: the answer to `docker ps`
  unfoldable pub docker_probed :
      CommandExecutor S → S → Text → Result CommandResult → S → CollectorResult Float × S
  unfolding docker_details
  docker_probed execute s hostname (ok r) s₁ = elim r.success [
    | true ↦ docker_details execute s hostname r.stdout s₁
    | false ↦ (
      result_of clock elapsed (lit "DockerCollector") docker s s₁ hostname
          (broken (lit "Docker daemon is unavailable: " ++ strip r.stderr)),
      s₁,
    )
  ]
  docker_probed execute s hostname (raise k message) s₁ = (
    result_of clock elapsed (lit "DockerCollector") docker s s₁ hostname
        (broken (lit "Docker not installed or execution failed: " ++ message)),
    s₁,
  )

  -- `DockerCollector.collect`
  unfoldable pub docker_collect : CommandExecutor S → S → CollectorResult Float × S
  unfolding docker_probed
  docker_collect execute s =
      let (hostname, s₁) = resolve_hostname execute s in
      let (r, s₂) = execute (lit "docker") (lit "ps" ∷ lit "--no-trunc" ∷ []) s₁ in
      docker_probed execute s hostname r s₂
