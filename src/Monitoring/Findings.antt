-- ===== src/Monitoring/Findings.antt =====
-- What the disk rule finds, and how far the registered rules take the score down.
use ai_sre_platform_for_auto.Common.{[], ◌∷◌, refl, ◌++◌, none, some}
use ai_sre_platform_for_auto.Errors.{Result, ok, raise}
use ai_sre_platform_for_auto.Values.{
  FloatOps, Value, Items, Fields, null, bool, num, text, arr, obj, nil, cons,
}
use ai_sre_platform_for_auto.Health.{Finding}
use ai_sre_platform_for_auto.Monitoring.{EvaluationContext, MonitoringRule, MonitoringSettings}
use ai_sre_platform_for_auto.Monitoring.Rules.{
  disk_scan, disk_usage, disk_mount, disk_finding, registered_rules,
}
use ai_sre_platform_for_auto.Monitoring.Engine.{deduction, deductions, score, run_rules, kept}
use ai_sre_platform_for_auto.Common.{List, Text}
use ai_sre_platform_for_auto.Common.{Option, ◌≡◌}
use ai_sre_platform_for_auto.Common.{false, if◌then◌else◌, true, ◌↔◌}
use ai_sre_platform_for_auto.Errors.{◌>>=◌}
use ai_sre_platform_for_auto.Common.{All, Bool-cases}
use ai_sre_platform_for_auto.Common.{inl}
use ai_sre_platform_for_auto.Common.{arith}
use ai_sre_platform_for_auto.Common.{inr}
use ai_sre_platform_for_auto.Common.{CaseTables, ap, ◌⊎◌}
use ai_sre_platform_for_auto.Common.{◌+◌, ◌≤◌}
use ai_sre_platform_for_auto.Common.{◌*◌}
use ai_sre_platform_for_auto.Common.{length}

module _ {Float : Type 0} where
  pub listed : Items Float → List (Value Float)
  listed nil = []
  listed (cons v vs) = v ∷ listed vs

module _ {Float : Type 0} (floats : FloatOps Float) (show_value : Value Float → Text)
    (threshold : Float) where
  -- a partition that can be read and does not exceed the threshold
  abbrev pub IsBelow : Value Float → Type 0
  IsBelow (obj part) =
      (val : Float) × (disk_usage floats show_value part ≡ ok val)
      × (floats.gt val threshold ≡ false)
  IsBelow _ = ⊥

  abbrev pub Exceeds : Fields Float → Finding Float → Type 0
  Exceeds part f =
      (val : Float) × (disk_usage floats show_value part ≡ ok val)
      × (floats.gt val threshold ≡ true)
      × (f ≡ disk_finding floats show_value threshold val (disk_mount floats show_value part))

  abbrev chosen :
      Float → Fields Float → Result (Option (Finding Float)) → Result (Option (Finding Float))
  chosen val part later =
      if floats.gt val threshold
      then ok
          (some (disk_finding floats show_value threshold val (disk_mount floats show_value part)))
      else later

  scan_step :
      Fields Float
      → Result Float
      → Result (Option (Finding Float))
      → Result (Option (Finding Float))
  scan_step part usage later = usage >>= λ val. chosen val part later

  scan_step-quiet_iff :
      (part : Fields Float) (usage : Result Float) (later : Result (Option (Finding Float)))
      → (scan_step part usage later ≡ ok none) ↔ (
          ((val : Float) × (usage ≡ ok val) × (floats.gt val threshold ≡ false))
          × (later ≡ ok none))
  unfolding scan_step
  scan_step-quiet_iff part (raise k m) later = (λ h. cc, λ ((v, e, g), l). cc)
  scan_step-quiet_iff part (ok val) later = elim (Bool-cases (floats.gt val threshold)) [
    | inl g ↦ (λ h. grind (arith, g), λ ((v, e, g'), l). grind (arith, g, e, g'))
    | inr g ↦ (λ h. ((val, refl, g), ground arith), λ ((v, e, g'), l). ground arith)
  ]

  -- The disk rule finds nothing exactly when every partition can be read and none exceeds the
  -- threshold.
  pub disk_scan-quiet_iff :
      (parts : Items Float)
      → (disk_scan floats show_value threshold parts ≡ ok none) ↔ All IsBelow (listed parts)
  unfolding disk_scan listed scan_step
  disk_scan-quiet_iff nil = (λ _. tt, λ _. refl)
  disk_scan-quiet_iff (cons null rest) = ground arith
  disk_scan-quiet_iff (cons (bool b) rest) = ground arith
  disk_scan-quiet_iff (cons (num x) rest) = ground arith
  disk_scan-quiet_iff (cons (text s) rest) = ground arith
  disk_scan-quiet_iff (cons (arr xs) rest) = ground arith
  disk_scan-quiet_iff (cons (obj part) rest) =
      let later = disk_scan floats show_value threshold rest in
      let step = scan_step-quiet_iff part (disk_usage floats show_value part) later in
      (
        λ h. let (b, l) = step.0 h in (b, (disk_scan-quiet_iff rest).0 l),
        λ (b, a). step.1 (b, (disk_scan-quiet_iff rest).1 a),
      )

  -- what makes `f` the finding of the loop over `parts`
  abbrev pub IsFirst : Finding Float → List (Value Float) → Type 0
  IsFirst f parts =
      (before : List (Value Float)) × (part : Fields Float) × (after : List (Value Float)) × (parts
        ≡ before ++ (obj part ∷ after))
      × All IsBelow before
      × Exceeds part f

  scan_step-finds :
      (part : Fields Float) (usage : Result Float) (later : Result (Option (Finding Float)))
      (f : Finding Float)
      → scan_step part usage later ≡ ok (some f)
      → ((val : Float) × (usage ≡ ok val)
          × (floats.gt val threshold ≡ true)
          × (f ≡ disk_finding floats show_value threshold val (disk_mount floats show_value part)))
        ⊎ (((val : Float) × (usage ≡ ok val) × (floats.gt val threshold ≡ false))
            × (later ≡ ok (some f)))
  unfolding scan_step
  scan_step-finds part (raise k m) later f h = cc
  scan_step-finds part (ok val) later f h = elim (Bool-cases (floats.gt val threshold)) [
    | inl g ↦ inl (val, refl, g, ground arith)
    | inr g ↦ inr ((val, refl, g), ground arith)
  ]

  further :
      (part : Fields Float) (rest : Items Float) (f : Finding Float)
      → IsBelow (obj part)
      → IsFirst f (listed rest)
      → IsFirst f (obj part ∷ listed rest)
  further part rest f b (before, p, after, e, a, x) =
      (obj part ∷ before, p, after, ap (λ l. obj part ∷ l) e, (b, a), x)

  -- What the disk rule finds is the finding of the first partition that exceeds the threshold, and
  -- every partition before it can be read and does not exceed it.
  pub disk_scan-finds :
      (parts : Items Float) (f : Finding Float)
      → disk_scan floats show_value threshold parts ≡ ok (some f)
      → IsFirst f (listed parts)
  unfolding disk_scan listed scan_step
  disk_scan-finds (cons (obj part) rest) f h =
      let later = disk_scan floats show_value threshold rest in
      elim (scan_step-finds part (disk_usage floats show_value part) later f h) [
        | inl e ↦ ([], part, listed rest, refl, tt, e)
        | inr (b, l) ↦ further part rest f b (disk_scan-finds rest f l)
      ]
  disk_scan-finds nil f h = ground arith
  disk_scan-finds (cons null rest) f h = ground arith
  disk_scan-finds (cons (bool b) rest) f h = ground arith
  disk_scan-finds (cons (num x) rest) f h = ground arith
  disk_scan-finds (cons (text s) rest) f h = ground arith
  disk_scan-finds (cons (arr xs) rest) f h = ground arith

module _ {Float : Type 0} (tables : CaseTables) where
  deductions-kept-le :
      (r : Result (Option (Finding Float))) (fs : List (Finding Float))
      → deductions tables (kept r fs) ≤ 20 + deductions tables fs
  unfolding deductions deduction
  deductions-kept-le (ok (some f)) fs = ground arith
  deductions-kept-le (ok none) fs = omega arith
  deductions-kept-le (raise k m) fs = omega arith

  deductions-length :
      (context : EvaluationContext Float) (rules : List (MonitoringRule Float))
      → deductions tables (run_rules context rules) ≤ 20 * length rules
  unfolding run_rules deductions
  deductions-length context [] = omega arith
  deductions-length context (rule ∷ rules) = omega (
    arith,
    deductions-kept-le (rule.evaluate context) (run_rules context rules),
    deductions-length context rules,
  )

  -- The five registered rules never cost more than 100 points, so the score is exactly what their
  -- findings leave of 100.
  pub registered_rules-score :
      (floats : FloatOps Float) (show_value : Value Float → Text)
      (settings : MonitoringSettings Float) (context : EvaluationContext Float)
      → let fs = run_rules context (registered_rules floats show_value tables settings) in
        score tables fs + deductions tables fs ≡ 100
  unfolding registered_rules score
  registered_rules-score floats show_value settings context =
      omega (arith, deductions-length context (registered_rules floats show_value tables settings))
