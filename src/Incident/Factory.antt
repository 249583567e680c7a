-- ===== src/Incident/Factory.antt =====
-- `IncidentFactory` (src/domain/factories/incident_factory.py).
use ai_sre_platform_for_auto.Common.{
  ℕ, Text, lit, Bool, none, ◌++◌, CaseTables, upper, text_eq, any, length, show, if◌then◌else◌,
}
use ai_sre_platform_for_auto.Errors.{Result, ok, raise, value_error}
use ai_sre_platform_for_auto.Health.{Finding, ServerHealth}
use ai_sre_platform_for_auto.Incident.{Incident}

module _ {Float : Type 0} (tables : CaseTables) (show_float : Float → Text) where
  unfoldable pub is_critical : Finding Float → Bool
  is_critical f = text_eq (upper tables f.severity) (lit "CRITICAL")

  unfoldable pub severity_of : ServerHealth Float → Text
  unfolding is_critical
  severity_of health =
      if text_eq (upper tables health.overall_status) (lit "UNHEALTHY")
      then lit "CRITICAL"
      else if any is_critical health.findings
      then lit "CRITICAL"
      else lit "WARNING"

  -- `now` is the default of `created_at`
  unfoldable pub create_from_health : ServerHealth Float → Text → ℕ → Result (Incident Float)
  unfolding severity_of
  create_from_health health server_hostname now =
      if text_eq (upper tables health.overall_status) (lit "HEALTHY")
      then raise value_error (lit "Cannot trigger SRE incidents from a HEALTHY server status.")
      else ok (record {
        id = none;
        title = lit "Health degradation detected on host " ++ server_hostname;
        description =
            lit "Server health check score dropped to "
            ++ (show_float health.health_score
                ++ (lit " with "
                    ++ (show (length health.findings) ++ lit " active SRE rule violations.")));
        severity = severity_of health;
        status = lit "OPEN";
        source = lit "MONITORING";
        server_id = health.server_id;
        findings = health.findings;
        created_at = now;
        acknowledged_at = none;
        resolved_at = none;
        closed_at = none;
        assigned_to = none;
        resolution_notes = none;
      })
