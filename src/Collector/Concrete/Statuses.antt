-- ===== src/Collector/Concrete/Statuses.antt =====
-- The status of what each query of a concrete collector reports.
use ai_sre_platform_for_auto.Common.{ℕ, [], ◌∷◌, ◌++◌, inl, inr, refl}
use mathlib.Core.List.{cons-ne-nil}
use ai_sre_platform_for_auto.Errors.{Result, ok, raise}
use ai_sre_platform_for_auto.Effects.{Exec, resume}
use ai_sre_platform_for_auto.Values.{Fields}
use ai_sre_platform_for_auto.Executor.Linux.{CommandResult}
use ai_sre_platform_for_auto.Collector.{CollectorStatus, success, failed}
use ai_sre_platform_for_auto.Collector.Concrete.{
  CommandExecutor, Report, broken, reported, parse_step, guarded,
}
use ai_sre_platform_for_auto.Collector.Concrete.Simple.{
  cpu_query, memory_query, disk_query, network_query, service_query, service_details, unit_names,
  show_units, unless_failed,
}
use ai_sre_platform_for_auto.Collector.Concrete.Docker.{concluded}
use ai_sre_platform_for_auto.Collector.{List, Text}
use ai_sre_platform_for_auto.Effects.{resume}
use ai_sre_platform_for_auto.Collector.Concrete.{lit}
use ai_sre_platform_for_auto.Common.{Bool, false, true}
use ai_sre_platform_for_auto.Common.{if◌then◌else◌, ◌≡◌}
use ai_sre_platform_for_auto.Common.{◌⊎◌}
use ai_sre_platform_for_auto.Common.{◌≢◌}
use ai_sre_platform_for_auto.Common.{Option, not}
use ai_sre_platform_for_auto.Common.{splitlines}

-- no error and SUCCESS, or some error and FAILED
abbrev pub Agrees : CollectorStatus → List Text → Type 0
Agrees status errors = ((status ≡ success) × (errors ≡ [])) ⊎ ((status ≡ failed) × (errors ≢ []))

abbrev pub IsReport : {Float : Type 0} → Report Float → Type 0
IsReport report = Agrees report.status report.errors

-- what holds of an answer, where there is one
abbrev pub Gives : {A : Type 0} → (A → Type 0) → Result A → Type 0
Gives P (ok a) = P a
Gives P (raise k m) = Unit

module _ {S A B : Type 0} (P : B → Type 0) where
  pub Gives-resume :
      (answer : Result A) (s : S) (f : A → Exec S B)
      → ((a : A) (s : S) → Gives P (f a s).0)
      → Gives P (resume answer f s).0
  Gives-resume (ok a) s f h = h a s
  Gives-resume (raise k e) s f h = tt

pub broken-IsReport : (Float : Type 0) (e : Text) → IsReport {Float = Float} (broken e)
unfolding broken
broken-IsReport Float e = inr (refl, cons-ne-nil e [])

module _ {Float : Type 0} where
  pub parse_step-IsReport : (r : Result (Fields Float)) → IsReport (parse_step r)
  unfolding parse_step
  parse_step-IsReport (ok p) = inl (refl, refl)
  parse_step-IsReport (raise k m) = broken-IsReport Float (lit "Parsing failed: " ++ m)

  pub if-IsReport :
      (b : Bool) (x y : Report Float) → IsReport x → IsReport y → IsReport (if b then x else y)
  if-IsReport true x y p q = p
  if-IsReport false x y p q = q

  pub unless_failed-IsReport :
      (label : Text) (fs : List Text) (r : Report Float)
      → IsReport r
      → IsReport (unless_failed label fs r)
  unless_failed-IsReport label [] r p = p
  unless_failed-IsReport label (f ∷ fs) r p = broken-IsReport Float _

  pub guarded-IsReport : (r : Result (Report Float)) → Gives IsReport r → IsReport (guarded r)
  unfolding guarded
  guarded-IsReport (ok report) p = p
  guarded-IsReport (raise k m) p = broken-IsReport Float _

  pub concluded-IsReport : (es : List Text) (r : Result (Fields Float)) → IsReport (concluded es r)
  unfolding concluded reported
  concluded-IsReport [] (ok p) = inl (refl, refl)
  concluded-IsReport (e ∷ es) (ok p) = inr (refl, cons-ne-nil e es)
  concluded-IsReport [] (raise k m) = inr (refl, cons-ne-nil _ [])
  concluded-IsReport (e ∷ es) (raise k m) = inr (refl, cons-ne-nil e _)

module _ {S Float : Type 0} (execute : CommandExecutor S) where
  -- A query reports well from every state.
  abbrev pub AlwaysReports : (ℕ → Exec S (Report Float)) → Type 0
  AlwaysReports query = (t : ℕ) (s : S) → Gives IsReport (query t s).0

  -- the step of a query that runs a command
  pub Gives-call :
      (P : Report Float → Type 0) (command : Text) (args : List Text)
      (f : CommandResult → Exec S (Report Float))
      → ((r : CommandResult) (s : S) → Gives P (f r s).0)
      → (s : S) → Gives P (resume (execute command args s).0 f (execute command args s).1).0
  Gives-call P command args f h s =
      Gives-resume P (execute command args s).0 (execute command args s).1 f h

  pub cpu_query-AlwaysReports :
      (parse : Text → Text → ℕ → Result (Fields Float)) → AlwaysReports (cpu_query parse execute)
  unfolding cpu_query
  cpu_query-AlwaysReports parse t =
      Gives-call IsReport (lit "cat") (lit "/proc/stat" ∷ []) _ (λ stat.
        Gives-call IsReport (lit "cat") (lit "/proc/loadavg" ∷ []) _ (λ load s.
          if-IsReport (not stat.success) _ _ (broken-IsReport Float _)
            (if-IsReport (not load.success) _ _ (broken-IsReport Float _) (parse_step-IsReport _))))

  pub memory_query-AlwaysReports :
      (parse : Text → ℕ → Result (Fields Float)) → AlwaysReports (memory_query parse execute)
  unfolding memory_query
  memory_query-AlwaysReports parse t =
      Gives-call IsReport (lit "cat") (lit "/proc/meminfo" ∷ []) _
        (λ r s. if-IsReport (not r.success) _ _ (broken-IsReport Float _) (parse_step-IsReport _))

  pub disk_query-AlwaysReports :
      (parse : Text → Text → ℕ → Result (Fields Float)) → AlwaysReports (disk_query parse execute)
  unfolding disk_query
  disk_query-AlwaysReports parse t =
      Gives-call IsReport (lit "df")
        (lit "-B1" ∷ lit "--output=source,fstype,size,used,avail,pcent,target" ∷ []) _
        (λ df. Gives-call IsReport (lit "cat") (lit "/proc/diskstats" ∷ []) _ (λ stats s.
          if-IsReport (not df.success) _ _ (broken-IsReport Float _) (
            if-IsReport (not stats.success) _ _ (broken-IsReport Float _) (parse_step-IsReport _))))

  pub network_query-AlwaysReports :
      (parse : Text → Text → Text → Text → Text → ℕ → Result (Fields Float))
      → AlwaysReports (network_query parse execute)
  unfolding network_query
  network_query-AlwaysReports parse t =
      Gives-call IsReport (lit "cat") (lit "/proc/net/dev" ∷ []) _ (λ dev.
        Gives-call IsReport (lit "ip") (lit "-o" ∷ lit "addr" ∷ lit "show" ∷ []) _ (λ addr.
          Gives-call IsReport (lit "ip") (lit "route" ∷ lit "show" ∷ []) _ (λ route.
            Gives-call IsReport (lit "cat") (lit "/proc/net/tcp" ∷ []) _ (λ tcp.
              Gives-call IsReport (lit "cat") (lit "/proc/net/udp" ∷ []) _
                (λ udp s. unless_failed-IsReport _ _ _ (parse_step-IsReport _))))))

  pub shown-Reports :
      (parse : Text → Option Text → ℕ → Result (Fields Float)) (t : ℕ) (listed : Text)
      (names : List Text) (s : S)
      → Gives IsReport
          (resume
            (show_units execute names s).0
            (λ shown s'. (ok (parse_step (parse listed shown t)), s'))
            (show_units execute names s).1).0
  shown-Reports parse t listed names s =
      Gives-resume IsReport (show_units execute names s).0 (show_units execute names s).1
        (λ shown s'. (ok (parse_step (parse listed shown t)), s'))
        (λ shown s'. parse_step-IsReport (parse listed shown t))

  pub service_details-Reports :
      (parse : Text → Option Text → ℕ → Result (Fields Float)) (t : ℕ) (r : CommandResult)
      (b : Bool) (s : S)
      → Gives IsReport (service_details parse execute t r b s).0
  unfolding service_details
  service_details-Reports parse t r true s =
      shown-Reports parse t r.stdout (unit_names (splitlines r.stdout)) s
  service_details-Reports parse t r false s = broken-IsReport Float _

  pub service_query-AlwaysReports :
      (parse : Text → Option Text → ℕ → Result (Fields Float))
      → AlwaysReports (service_query parse execute)
  unfolding service_query
  service_query-AlwaysReports parse t =
      Gives-call IsReport (lit "systemctl")
        (lit "list-units"
          ∷ lit "--type=service"
          ∷ lit "--all"
          ∷ lit "--no-pager"
          ∷ lit "--no-legend"
          ∷ [])
        _ (λ r. service_details-Reports parse t r r.success)
