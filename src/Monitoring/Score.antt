-- ===== src/Monitoring/Score.antt =====
-- What the score of `RuleEngine` says of the findings.
use ai_sre_platform_for_auto.Common.{ℕ, [], ◌∷◌, refl, ◌++◌, none, some}
use mathlib.Core.List.{Permᴰ}
use ai_sre_platform_for_auto.Health.{Finding}
use ai_sre_platform_for_auto.Errors.{Kind, Result, ok, raise}
use ai_sre_platform_for_auto.Monitoring.{EvaluationContext, MonitoringRule}
use ai_sre_platform_for_auto.Monitoring.Engine.{
  Ports, status_of, score, deduction, deductions, run_rules, assess, kept,
}
use ai_sre_platform_for_auto.Common.{CaseTables}
use ai_sre_platform_for_auto.Common.{List, Text, text_eq}
use ai_sre_platform_for_auto.Common.{Bool, lit, ◌∷◌, ◌≡◌}
use ai_sre_platform_for_auto.Common.{if◌then◌else◌, true, upper, ◌*◌}
use ai_sre_platform_for_auto.Common.{false, suc, ◌+◌, ◌||◌}
use ai_sre_platform_for_auto.Common.{arith}
use ai_sre_platform_for_auto.Common.{text_eq_iff}
use ai_sre_platform_for_auto.Common.{◌↔◌, ◌∙◌, ◌≢◌}
use ai_sre_platform_for_auto.Common.{text_ne, ◌<◌, ◌≤◌}
use ai_sre_platform_for_auto.Common.{◌-◌}
use ai_sre_platform_for_auto.Common.{Option, ap}
use ai_sre_platform_for_auto.Common.{some}

one_severity : (s : Text) → text_eq s (lit "CRITICAL") ≡ true → text_eq s (lit "WARNING") ≡ false
unfolding text_eq lit
one_severity s h = rw ((text_eq_iff s (lit "CRITICAL")).0 h) refl

module _ {Float : Type 0} (tables : CaseTables) where
  unfoldable pub is_severity : Text → Finding Float → Bool
  is_severity name f = text_eq (upper tables f.severity) name

  -- critical findings, warnings, and findings of another severity
  unfoldable pub criticals : List (Finding Float) → ℕ
  unfolding is_severity
  criticals [] = 0
  criticals (f ∷ fs) =
      let rest = criticals fs in if is_severity (lit "CRITICAL") f then suc rest else rest

  unfoldable pub warnings : List (Finding Float) → ℕ
  warnings [] = 0
  warnings (f ∷ fs) =
      let rest = warnings fs in if is_severity (lit "WARNING") f then suc rest else rest

  unfoldable pub others : List (Finding Float) → ℕ
  others [] = 0
  others (f ∷ fs) =
      let rest = others fs in
      if is_severity (lit "CRITICAL") f || is_severity (lit "WARNING") f then rest else suc rest

  pub deductions_lem :
      (fs : List (Finding Float))
      → deductions tables fs ≡ 20 * criticals fs + 10 * warnings fs + 5 * others fs
  unfolding deductions deduction criticals warnings others is_severity
  deductions_lem [] = omega arith
  deductions_lem (f ∷ fs) =
      ground (arith, deductions_lem fs, one_severity (upper tables f.severity))

distinct_names : Unit {0}
unfolding lit text_eq
distinct_names = tt

degraded_ne_healthy : lit "DEGRADED" ≢ lit "HEALTHY"
unfolding distinct_names
degraded_ne_healthy = text_ne _ _ refl

unhealthy_ne_healthy : lit "UNHEALTHY" ≢ lit "HEALTHY"
unfolding distinct_names
unhealthy_ne_healthy = text_ne _ _ refl

healthy_ne_unhealthy : lit "HEALTHY" ≢ lit "UNHEALTHY"
unfolding distinct_names
healthy_ne_unhealthy = text_ne _ _ refl

degraded_ne_unhealthy : lit "DEGRADED" ≢ lit "UNHEALTHY"
unfolding distinct_names
degraded_ne_unhealthy = text_ne _ _ refl

status_of-healthy_iff : (n : ℕ) → (status_of n ≡ lit "HEALTHY") ↔ (90 ≤ n)
unfolding status_of
status_of-healthy_iff n = ground (arith, degraded_ne_healthy, unhealthy_ne_healthy)

status_of-unhealthy_iff : (n : ℕ) → (status_of n ≡ lit "UNHEALTHY") ↔ (n < 70)
unfolding status_of
status_of-unhealthy_iff n = ground (arith, healthy_ne_unhealthy, degraded_ne_unhealthy)

module _ {S Float : Type 0} (tables : CaseTables) (ports : Ports S Float) (n : ℕ)
    (context : EvaluationContext Float) where
  -- An assessment is HEALTHY exactly when no finding is critical and there is at most one warning
  -- alone or at most two findings of lesser severity.
  pub assess-healthy_iff : ((assess tables ports n context).overall_status ≡ lit "HEALTHY") ↔ (
      (criticals tables (run_rules context ports.rules) ≡ 0)
      × (2 * warnings tables (run_rules context ports.rules)
            + others tables (run_rules context ports.rules)
          ≤ 2))
  unfolding assess score
  assess-healthy_iff =
      let fs = run_rules context ports.rules in
      ground (arith, status_of-healthy_iff (100 - deductions tables fs), deductions_lem tables fs)

  -- An assessment is UNHEALTHY exactly when the findings weigh more than 30 points, a critical one
  -- 20, a warning 10, and any other 5.
  pub assess-unhealthy_iff : ((assess tables ports n context).overall_status ≡ lit "UNHEALTHY") ↔ (
      30
      < 20 * criticals tables (run_rules context ports.rules)
        + 10 * warnings tables (run_rules context ports.rules)
        + 5 * others tables (run_rules context ports.rules))
  unfolding assess score
  assess-unhealthy_iff =
      let fs = run_rules context ports.rules in
      ground (arith, status_of-unhealthy_iff (100 - deductions tables fs), deductions_lem tables fs)

module _ {Float : Type 0} (tables : CaseTables) where
  -- what the outcome of one rule costs
  weight : Result (Option (Finding Float)) → ℕ
  unfolding deductions
  weight r = deductions tables (kept r [])

  deductions-kept :
      (r : Result (Option (Finding Float))) (fs : List (Finding Float))
      → deductions tables (kept r fs) ≡ weight r + deductions tables fs
  unfolding deductions weight
  deductions-kept (ok none) fs = omega arith
  deductions-kept (ok (some f)) fs = omega arith
  deductions-kept (raise k m) fs = omega arith

  deductions-Perm :
      (context : EvaluationContext Float) {rs rs' : List (MonitoringRule Float)}
      → Permᴰ rs rs'
      → deductions tables (run_rules context rs) ≡ deductions tables (run_rules context rs')
  unfolding run_rules
  deductions-Perm context Permᴰ.nil = refl
  deductions-Perm context {rs = a ∷ l} {rs' = b ∷ k} (Permᴰ.cons e p) =
      grind (arith, e, deductions-kept, deductions-Perm context p)
  deductions-Perm context {rs = a ∷ b ∷ l} {rs' = c ∷ d ∷ k} (Permᴰ.swap e f) =
      grind (arith, e, f, deductions-kept)
  deductions-Perm context (Permᴰ.trans p q) = deductions-Perm context p ∙ deductions-Perm context q

module _ {S Float : Type 0} (tables : CaseTables) (ports : Ports S Float) (n : ℕ)
    (context : EvaluationContext Float) where
  run_rules-raises :
      (before after : List (MonitoringRule Float)) (rule : MonitoringRule Float) {k : Kind}
      {m : Text}
      → rule.evaluate context ≡ raise k m
      → run_rules context (before ++ (rule ∷ after)) ≡ run_rules context (before ++ after)
  unfolding run_rules
  run_rules-raises [] after rule h = rw h refl
  run_rules-raises (r ∷ before) after rule h =
      ap (kept (r.evaluate context)) (run_rules-raises before after rule h)

  -- A rule that raises does not change the assessment: it is the one without that rule.
  pub assess-isolates :
      (before after : List (MonitoringRule Float)) (rule : MonitoringRule Float) {k : Kind}
      {m : Text}
      → rule.evaluate context ≡ raise k m
      → assess tables (record ports { rules = before ++ (rule ∷ after) }) n context
        ≡ assess tables (record ports { rules = before ++ after }) n context
  unfolding assess
  assess-isolates before after rule h = rw (run_rules-raises before after rule h) refl

  -- The order in which rules are registered matters neither for the score nor for the status.
  pub assess-Perm :
      {rs rs' : List (MonitoringRule Float)}
      → Permᴰ rs rs'
      → ((assess tables (record ports { rules = rs }) n context).health_score
          ≡ (assess tables (record ports { rules = rs' }) n context).health_score)
        × ((assess tables (record ports { rules = rs }) n context).overall_status
            ≡ (assess tables (record ports { rules = rs' }) n context).overall_status)
  unfolding assess score
  assess-Perm p = rw (deductions-Perm tables context p) (refl, refl)
