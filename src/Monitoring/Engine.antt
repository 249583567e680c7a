-- ===== src/Monitoring/Engine.antt =====
-- `RuleEngine` (src/application/services/rule_engine.py) over its repositories, the registry's rules
-- and the clock.
use ai_sre_platform_for_auto.Common.{ℕ}
use ai_sre_platform_for_auto.Errors.{Result, ok, raise, not_found}
use ai_sre_platform_for_auto.Effects.{Exec, pure, throw, gets, ◌>>=◌, ◌>>◌}
use ai_sre_platform_for_auto.Repository.{Repository}
use ai_sre_platform_for_auto.Server.{Server}
use ai_sre_platform_for_auto.Inventory.{Inventory}
use ai_sre_platform_for_auto.Health.{Finding, ServerHealth}
use ai_sre_platform_for_auto.Values.{end}
use ai_sre_platform_for_auto.Monitoring.{TelemetryMetric, EvaluationContext, MonitoringRule}
use ai_sre_platform_for_auto.Common.{CaseTables, List, Option, Text}
use ai_sre_platform_for_auto.Common.{Dict, if◌then◌else◌, lit, none, some, upper, ◌-◌, ◌∷◌}
use ai_sre_platform_for_auto.Common.{[], insert, leb, text_eq, ◌++◌, ◌+◌}
use ai_sre_platform_for_auto.Common.{show}

unfoldable pub status_of : ℕ → Text
status_of health_score =
    if leb 90 health_score
    then lit "HEALTHY"
    else if leb 70 health_score
    then lit "DEGRADED"
    else lit "UNHEALTHY"

module _ {Float : Type 0} where
  abbrev pub kept : Result (Option (Finding Float)) → List (Finding Float) → List (Finding Float)
  kept (ok (some finding)) findings = finding ∷ findings
  kept (ok none) findings = findings
  kept (raise k m) findings = findings

  -- step 5: a rule that raises is logged and left out
  unfoldable pub run_rules :
      EvaluationContext Float → List (MonitoringRule Float) → List (Finding Float)
  run_rules context [] = []
  run_rules context (rule ∷ rules) = kept (rule.evaluate context) (run_rules context rules)

  module _ (tables : CaseTables) where
    unfoldable pub deduction : Finding Float → ℕ
    deduction f =
        let sev = upper tables f.severity in
        if text_eq sev (lit "CRITICAL") then 20 else if text_eq sev (lit "WARNING") then 10 else 5

    -- The floats of step 6 are whole numbers below 2^53, where float arithmetic is exact.
    unfoldable pub deductions : List (Finding Float) → ℕ
    deductions [] = 0
    deductions (f ∷ fs) = deduction f + deductions fs

    -- `max(0.0, 100.0 - deductions)`
    unfoldable pub score : List (Finding Float) → ℕ
    unfolding deductions
    score fs = 100 - deductions fs

-- The constructor's arguments, the rules of the registry, the clock, and floats of whole numbers.
pub record Ports (S Float : Type 0) : Type 0 where
  pub server_repository : Repository S (Server Float)
  pub get_by_server_id : ℕ → Exec S (Option (Inventory Float))
  pub get_latest_by_server_id : ℕ → Text → Exec S (Option (TelemetryMetric Float))
  pub health_repository : Repository S (ServerHealth Float)
  pub rules : List (MonitoringRule Float)
  pub now : S → ℕ
  pub of_ℕ : ℕ → Float

module _ {S Float : Type 0} (tables : CaseTables) (ports : Ports S Float) where
  unfoldable pub find_server : ℕ → Option (Server Float) → Exec S (Server Float)
  find_server n none = throw not_found (lit "Server with ID " ++ (show n ++ lit " not found."))
  find_server n (some server) = pure server

  unfoldable pub find_inventory : ℕ → Option (Inventory Float) → Exec S (Inventory Float)
  find_inventory n none =
      throw not_found (lit "Inventory record for server ID " ++ (show n ++ lit " not found."))
  find_inventory n (some inventory) = pure inventory

  abbrev pub collected :
      Text
      → Option (TelemetryMetric Float)
      → Dict (TelemetryMetric Float)
      → Dict (TelemetryMetric Float)
  collected mtype none latest = latest
  collected mtype (some metric) latest = insert mtype metric latest

  -- step 3; `latest` is the dictionary so far
  unfoldable pub gather :
      ℕ → List Text → Dict (TelemetryMetric Float) → Exec S (Dict (TelemetryMetric Float))
  gather server_id [] latest = pure latest
  gather server_id (mtype ∷ mtypes) latest = do
    metric ← ports.get_latest_by_server_id server_id mtype
    gather server_id mtypes (collected mtype metric latest)

  abbrev pub metric_types : List Text
  metric_types = lit "cpu" ∷ lit "memory" ∷ lit "disk" ∷ lit "network" ∷ lit "service" ∷ []

  -- steps 5 to 7 before the save
  unfoldable pub assess : ℕ → EvaluationContext Float → ServerHealth Float
  unfolding run_rules
  assess server_id context =
      let findings = run_rules context ports.rules in
      let health_score = score tables findings in
      record {
        id = none;
        server_id = server_id;
        overall_status = status_of health_score;
        health_score = ports.of_ℕ health_score;
        findings = findings;
        evaluation_timestamp = context.timestamp;
      }

  unfoldable pub evaluate_server : ℕ → Exec S (ServerHealth Float)
  unfolding find_server find_inventory gather assess
  evaluate_server server_id = do
    known ← ports.server_repository.get_by_id server_id
    find_server server_id known
    recorded ← ports.get_by_server_id server_id
    inventory ← find_inventory server_id recorded
    latest ← gather server_id metric_types []
    now ← gets ports.now
    ports.health_repository.save (
        assess server_id (record {
          inventory = inventory;
          latest_telemetry = latest;
          timestamp = now;
          metadata = end;
        }))
