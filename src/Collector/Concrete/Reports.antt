-- ===== src/Collector/Concrete/Reports.antt =====
-- That every concrete collector answers, and says FAILED exactly when it lists an error.
use ai_sre_platform_for_auto.Common.{ℕ, some, [], ◌∷◌, inl, inr, refl}
use ai_sre_platform_for_auto.Errors.{Result, ok, raise}
use ai_sre_platform_for_auto.Effects.{Exec}
use ai_sre_platform_for_auto.Values.{FloatOps, Fields, text, obj, get}
use ai_sre_platform_for_auto.Executor.Linux.{CommandResult}
use ai_sre_platform_for_auto.Collector.{Collector, CollectorResult, MetricType}
use ai_sre_platform_for_auto.Collector.Concrete.{
  CommandExecutor, Report, broken, reported, parse_step, guarded, collect_by, result_of,
  resolve_hostname,
}
use ai_sre_platform_for_auto.Collector.Concrete.Suite.{
  Parsers, collectors, querying, system_collect, renamed, identity_name, parsed_name,
}
use ai_sre_platform_for_auto.Collector.Concrete.Simple.{system_query, unless_failed}
use ai_sre_platform_for_auto.Collector.Concrete.Logs.{log_collect}
use ai_sre_platform_for_auto.Collector.Concrete.Docker.{
  docker_collect, docker_probed, docker_details,
}
use ai_sre_platform_for_auto.Collector.Concrete.Kubernetes.{
  kubernetes_collect, kubernetes_probed, kubernetes_details,
}
use ai_sre_platform_for_auto.Collector.{List, Text}
use ai_sre_platform_for_auto.Collector.Concrete.{lit}
use ai_sre_platform_for_auto.Common.{if◌then◌else◌, ◌≡◌}
use ai_sre_platform_for_auto.Common.{◌⊎◌}
use ai_sre_platform_for_auto.Collector.{ℤ}
use ai_sre_platform_for_auto.Collector.Concrete.{end}
use ai_sre_platform_for_auto.Collector.{docker, kubernetes}
use ai_sre_platform_for_auto.Common.{All, Bool-cases}
use ai_sre_platform_for_auto.Values.{truthy}
use ai_sre_platform_for_auto.Collector.{cpu}
use ai_sre_platform_for_auto.Collector.{disk}
use ai_sre_platform_for_auto.Collector.{memory}
use ai_sre_platform_for_auto.Collector.{network}
use ai_sre_platform_for_auto.Collector.{service}
use ai_sre_platform_for_auto.Common.{text_eq}
use ai_sre_platform_for_auto.Collector.{system}
use ai_sre_platform_for_auto.Collector.Concrete.Statuses.{
  broken-IsReport, parse_step-IsReport, guarded-IsReport, concluded-IsReport, Gives-call,
  cpu_query-AlwaysReports, memory_query-AlwaysReports, disk_query-AlwaysReports,
  network_query-AlwaysReports, service_query-AlwaysReports, Agrees, IsReport, Gives,
}

abbrev pub SystemParser : Type 0 → Type 0
SystemParser Float = Text → Text → Text → Text → Text → Text → ℕ → Result (Fields Float)

module _ {Float : Type 0} where
  -- The dump of the system metrics has a host identity, with a host name.
  abbrev pub IsIdentified : Fields Float → Type 0
  IsIdentified payload =
      (identity : Fields Float) × (name : Text) × (get (lit "host_identity") payload
        ≡ some (obj identity))
      × (get (lit "hostname") identity ≡ some (text name))

  abbrev pub HasIdentity : SystemParser Float → Type 0
  HasIdentity parse =
      (a b c d e f : Text) (t : ℕ) (payload : Fields Float)
      → parse a b c d e f t ≡ ok payload
      → IsIdentified payload

  -- a report whose payload is empty, or comes from the parser
  abbrev Named : SystemParser Float → Report Float → Type 0
  Named parse r =
      IsReport r
      × ((r.payload ≡ end)
          ⊎ ((a b c d e f : Text) × (t : ℕ) × (parse a b c d e f t ≡ ok r.payload)))

  broken-Named : (parse : SystemParser Float) (e : Text) → Named parse (broken e)
  unfolding broken
  broken-Named parse e = (broken-IsReport Float e, inl refl)

  unless_failed-Named :
      (parse : SystemParser Float) (label : Text) (fs : List Text) (r : Report Float)
      → Named parse r
      → Named parse (unless_failed label fs r)
  unless_failed-Named parse label [] r p = p
  unless_failed-Named parse label (f ∷ fs) r p = broken-Named parse _

  parsed-Named :
      (parse : SystemParser Float) (a b c d e f : Text) (t : ℕ) (r : Result (Fields Float))
      → parse a b c d e f t ≡ r
      → Named parse (parse_step r)
  unfolding parse_step reported
  parsed-Named parse a b c d e f t (ok payload) h =
      (parse_step-IsReport (ok payload), inr (a, b, c, d, e, f, t, h))
  parsed-Named parse a b c d e f t (raise k m) h = broken-Named parse _

  parse_step-Named :
      (parse : SystemParser Float) (a b c d e f : Text) (t : ℕ)
      → Named parse (parse_step (parse a b c d e f t))
  parse_step-Named parse a b c d e f t = parsed-Named parse a b c d e f t (parse a b c d e f t) refl

module _ {S Float : Type 0} (execute : CommandExecutor S) where
  system_query-Named :
      (parse : Text → Text → Text → Text → Text → Text → ℕ → Result (Fields Float))
      → (t : ℕ) (s : S) → Gives (Named parse) (system_query parse execute t s).0
  unfolding system_query
  system_query-Named parse t = Gives-call execute (Named parse) (lit "hostnamectl") [] _ (λ hctl.
      Gives-call execute (Named parse) (lit "uname") (lit "-a" ∷ []) _ (λ uname.
        Gives-call execute (Named parse) (lit "cat") (lit "/etc/os-release" ∷ []) _ (λ release.
          Gives-call execute (Named parse) (lit "lscpu") [] _ (λ lscpu.
            Gives-call execute (Named parse) (lit "uptime") [] _ (λ uptime.
              Gives-call execute (Named parse) (lit "cat") (lit "/etc/timezone" ∷ []) _ (λ zone s.
                unless_failed-Named parse _ _ _ (parse_step-Named parse _ _ _ _ _ _ _)))))))

module _ {S Float : Type 0} where
  -- An answer in the collector's name.
  abbrev pub Answers :
      {E : Type 0} → Collector S E Float → Result (CollectorResult Float) × S → Type 0
  Answers c (ok r, s) =
      (r.collector_name ≡ c.name) × (r.metric_type ≡ c.metric_type) × Agrees r.status r.errors
  Answers c (raise k m, s) = ⊥

module _ {S Float : Type 0} (floats : FloatOps Float) (clock : S → ℕ) (elapsed : S → S → ℤ)
    (parsers : Parsers Float) where
  guarded-Named :
      (parse : SystemParser Float) (r : Result (Report Float))
      → Gives (Named parse) r
      → Named parse (guarded r)
  unfolding guarded
  guarded-Named parse (ok report) p = p
  guarded-Named parse (raise k m) p = broken-Named parse _

  -- A result with the name and the metric type of its collector, that agrees with itself.
  abbrev Tells : Text → MetricType → CollectorResult Float → Type 0
  Tells name m r = (r.collector_name ≡ name) × (r.metric_type ≡ m) × Agrees r.status r.errors

  collect_by-Tells :
      (name : Text) (m : MetricType) (query : ℕ → Exec S (Report Float)) (e : CommandExecutor S)
      (s : S)
      → ((t : ℕ) (s : S) → Gives IsReport (query t s).0)
      → Tells name m (collect_by clock elapsed name m query e s).0
  unfolding collect_by result_of
  collect_by-Tells name m query e s h = (
    refl,
    refl,
    guarded-IsReport (query (clock s) (resolve_hostname e s).1).0
        (h (clock s) (resolve_hostname e s).1),
  )

  docker_probed-Tells :
      (e : CommandExecutor S) (s : S) (hostname : Text) (r : Result CommandResult) (s' : S)
      → Tells
          (lit "DockerCollector")
          docker
          (docker_probed clock elapsed parsers.docker_parser e s hostname r s').0
  unfolding docker_probed docker_details result_of
  docker_probed-Tells e s hostname (raise k m) s' = (refl, refl, broken-IsReport Float _)
  docker_probed-Tells e s hostname (ok r) s' = elim (Bool-cases r.success) [
    | inl t ↦ rw t (refl, refl, concluded-IsReport _ _)
    | inr f ↦ rw f (refl, refl, broken-IsReport Float _)
  ]

  kubernetes_probed-Tells :
      (e : CommandExecutor S) (s : S) (hostname : Text) (r : Result CommandResult) (s' : S)
      → Tells
          (lit "KubernetesCollector")
          kubernetes
          (kubernetes_probed clock elapsed parsers.kubernetes_parser e s hostname r s').0
  unfolding kubernetes_probed kubernetes_details result_of
  kubernetes_probed-Tells e s hostname (raise k m) s' = (refl, refl, broken-IsReport Float _)
  kubernetes_probed-Tells e s hostname (ok r) s' = elim (Bool-cases r.success) [
    | inl t ↦ rw t (refl, refl, concluded-IsReport _ _)
    | inr f ↦ rw f (refl, refl, broken-IsReport Float _)
  ]

  parsed_name-text :
      (hostname name : Text)
      → (found : Text) × (parsed_name floats hostname (some (text name)) ≡ ok found)
  unfolding parsed_name
  parsed_name-text hostname name = elim (Bool-cases (truthy floats (text name))) [
    | inl t ↦ (if text_eq name (lit "unknown") then hostname else name, rw t refl)
    | inr f ↦ (hostname, rw f refl)
  ]

  identity-ok :
      (hostname : Text) (payload : Fields Float)
      → ((payload ≡ end) ⊎ IsIdentified payload)
      → (found : Text) × (identity_name floats hostname (get (lit "host_identity") payload)
          ≡ ok found)
  unfolding identity_name get
  identity-ok hostname payload (inl e) = (hostname, rw e refl)
  identity-ok hostname payload (inr (identity, name, e, f)) =
      let (found, h) = parsed_name-text hostname name in (found, rw e (rw f h))

  renamed-Tells :
      (name : Text) (m : MetricType) (r : CollectorResult Float) (s : S)
      → Tells name m r
      → ((r.payload ≡ end) ⊎ IsIdentified r.payload)
      → (q : CollectorResult Float) × (renamed floats r ≡ ok q) × Tells name m q
  unfolding renamed
  renamed-Tells name m r s t p =
      let (found, e) = identity-ok r.hostname r.payload p in
      (record r { hostname = found }, rw e refl, t)

  system-payload :
      HasIdentity parsers.system_parser
      → (r : Report Float) → Named parsers.system_parser r
      → (r.payload ≡ end) ⊎ IsIdentified r.payload
  system-payload h r (i, inl e) = inl e
  system-payload h r (i, inr (a, b, c, d, e, f, t, p)) = inr (h a b c d e f t r.payload p)

  Tells-Answers :
      (name : Text) (m : MetricType) (collect : CommandExecutor S → Exec S (CollectorResult Float))
      (r : Result (CollectorResult Float)) (s : S)
      → ((q : CollectorResult Float) × (r ≡ ok q) × Tells name m q)
      → Answers (record { name = name; metric_type = m; collect = collect }) (r, s)
  Tells-Answers name m collect r s (q, e, t) = rw e t

  system_collect-Answers :
      HasIdentity parsers.system_parser
      → (e : CommandExecutor S) (s : S)
      → Answers
          (record {
            name = lit "SystemCollector";
            metric_type = system;
            collect = system_collect floats clock elapsed parsers;
          })
          (system_collect floats clock elapsed parsers e s)
  unfolding system_collect collect_by result_of
  system_collect-Answers h e s =
      let (hostname, s₁) = resolve_hostname e s in
      let (r, s₂) = system_query parsers.system_parser e (clock s) s₁ in
      let n =
        guarded-Named parsers.system_parser r
          (system_query-Named e parsers.system_parser (clock s) s₁) in
      Tells-Answers _ system (system_collect floats clock elapsed parsers) _ _ (
        renamed-Tells (lit "SystemCollector") system _ s₂ (refl, refl, n.0)
          (system-payload h (guarded r) n))

  -- Whatever the executor answers or raises, each of the nine collectors answers with a result under
  -- its own name and metric type, which is SUCCESS without errors or FAILED with some, provided that
  -- the parser of the system metrics gives a host identity with a name.
  pub collectors-Answers :
      HasIdentity parsers.system_parser
      → All
          (λ c. (e : CommandExecutor S) (s : S) → Answers c (c.collect e s))
          (collectors floats clock elapsed parsers)
  unfolding collectors querying docker_collect kubernetes_collect log_collect result_of
  collectors-Answers h = (
    λ e s. collect_by-Tells _ memory _ e s (memory_query-AlwaysReports e parsers.memory_parser),
    (
      λ e s. collect_by-Tells _ cpu _ e s (cpu_query-AlwaysReports e parsers.cpu_parser),
      (
        λ e s. collect_by-Tells _ disk _ e s (disk_query-AlwaysReports e parsers.disk_parser),
        (
          λ e s.
              collect_by-Tells _ network _ e s
                (network_query-AlwaysReports e parsers.network_parser),
          (
            λ e s.
                collect_by-Tells _ service _ e s
                  (service_query-AlwaysReports e parsers.service_parser),
            (
              λ e s. system_collect-Answers h e s,
              (
                λ e s. (refl, refl, parse_step-IsReport _),
                (
                  λ e s. docker_probed-Tells e s _ _ _,
                  (λ e s. kubernetes_probed-Tells e s _ _ _, tt),
                ),
              ),
            ),
          ),
        ),
      ),
    ),
  )
