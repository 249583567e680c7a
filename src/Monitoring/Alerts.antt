-- ===== src/Monitoring/Alerts.antt =====
-- Incidents raised from the assessments of `RuleEngine`.
use ai_sre_platform_for_auto.Common.{ℕ, [], ◌∷◌, refl}
use ai_sre_platform_for_auto.Errors.{ok, raise}
use ai_sre_platform_for_auto.Health.{Finding}
use ai_sre_platform_for_auto.Incident.{Incident}
use ai_sre_platform_for_auto.Incident.Factory.{create_from_health, severity_of, is_critical}
use ai_sre_platform_for_auto.Monitoring.{EvaluationContext}
use ai_sre_platform_for_auto.Monitoring.Engine.{Ports, assess, run_rules, status_of, score}
use ai_sre_platform_for_auto.Monitoring.Score.{
  criticals, warnings, others, is_severity, assess-healthy_iff, assess-unhealthy_iff,
}
use ai_sre_platform_for_auto.Common.{CaseTables}
use ai_sre_platform_for_auto.Common.{Text}
use ai_sre_platform_for_auto.Common.{upper}
use ai_sre_platform_for_auto.Common.{lit}
use ai_sre_platform_for_auto.Common.{◌≡◌}
use ai_sre_platform_for_auto.Common.{arith}
use ai_sre_platform_for_auto.Common.{List, ◌↔◌}
use ai_sre_platform_for_auto.Errors.{value_error}
use ai_sre_platform_for_auto.Common.{any, ◌*◌, ◌<◌}
use ai_sre_platform_for_auto.Common.{true, ◌+◌, ◌⊎◌}
use ai_sre_platform_for_auto.Common.{◌≤◌}
use ai_sre_platform_for_auto.Common.{text_eq_iff}
use ai_sre_platform_for_auto.Common.{text_eq}
use ai_sre_platform_for_auto.Common.{◌≢◌}
use ai_sre_platform_for_auto.Common.{text_ne}

module _ {Float : Type 0} (tables : CaseTables) where
  any-criticals :
      (fs : List (Finding Float))
      → (any (is_critical tables (λ _. [])) fs ≡ true) ↔ (0 < criticals tables fs)
  unfolding criticals is_critical is_severity
  any-criticals [] = ground arith
  any-criticals (f ∷ fs) = ground (arith, any-criticals fs)

critical_ne_warning : lit "CRITICAL" ≢ lit "WARNING"
unfolding lit text_eq
critical_ne_warning = text_ne _ _ refl

upper-status : (tables : CaseTables) (s : ℕ) → upper tables (status_of s) ≡ status_of s
unfolding status_of upper lit
upper-status tables s = ground arith

module _ {S Float : Type 0} (tables : CaseTables) (ports : Ports S Float)
    (show_float : Float → Text) (n : ℕ) (context : EvaluationContext Float) (hostname : Text)
    (now : ℕ) where
  upper-assessed :
      upper tables (assess tables ports n context).overall_status
      ≡ (assess tables ports n context).overall_status
  unfolding assess
  upper-assessed = upper-status tables (score tables (run_rules context ports.rules))

  assessed_findings : (assess tables ports n context).findings ≡ run_rules context ports.rules
  unfolding assess
  assessed_findings = refl

  -- `IncidentFactory` refuses an assessment exactly when no finding is critical and the warnings
  -- and lesser findings cost at most 10 points.
  pub alert-refused_iff :
      (create_from_health tables show_float (assess tables ports n context) hostname now
        ≡ raise value_error (lit "Cannot trigger SRE incidents from a HEALTHY server status."))
      ↔ ((criticals tables (run_rules context ports.rules) ≡ 0)
          × (2 * warnings tables (run_rules context ports.rules)
                + others tables (run_rules context ports.rules)
              ≤ 2))
  unfolding create_from_health
  alert-refused_iff = ground (
    arith,
    upper-assessed,
    assess-healthy_iff tables ports n context,
    text_eq_iff (assess tables ports n context).overall_status (lit "HEALTHY"),
  )

  -- An incident that is raised from an assessment is CRITICAL exactly when some finding is critical
  -- or the others cost more than 30 points; else it is a WARNING.
  pub alert-severity :
      (i : Incident Float)
      → create_from_health tables show_float (assess tables ports n context) hostname now ≡ ok i
      → ((i.severity ≡ lit "CRITICAL") ↔ (
          (0 < criticals tables (run_rules context ports.rules))
          ⊎ (30
              < 10 * warnings tables (run_rules context ports.rules)
                + 5 * others tables (run_rules context ports.rules))))
        × ((i.severity ≡ lit "CRITICAL") ⊎ (i.severity ≡ lit "WARNING"))
  unfolding create_from_health severity_of
  alert-severity i h =
      let fs = run_rules context ports.rules in
      let health = assess tables ports n context in
      ground (
        arith,
        h,
        upper-assessed,
        assessed_findings,
        critical_ne_warning,
        any-criticals tables fs,
        text_eq_iff health.overall_status (lit "HEALTHY"),
        text_eq_iff health.overall_status (lit "UNHEALTHY"),
        assess-unhealthy_iff tables ports n context,
      )
