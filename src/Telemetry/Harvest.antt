-- ===== src/Telemetry/Harvest.antt =====
-- What the loop over the registered telemetry collectors brings in.
use ai_sre_platform_for_auto.Common.{
  ℕ, Text, List, Option, [], ◌∷◌, none, some, refl, lookup, insert, text_eq, lit, All,
}
use ai_sre_platform_for_auto.Errors.{Kind, Result, ok, raise}
use ai_sre_platform_for_auto.Effects.{Exec, resume, pure}
use ai_sre_platform_for_auto.Telemetry.{
  CollectionContext, MetricCollector, MetricRegistry, RawMetric, get_all_types, get_collector,
  register_collector,
}
use ai_sre_platform_for_auto.Telemetry.Orchestrator.{harvest, kept}
use ai_sre_platform_for_auto.Telemetry.Collectors.{
  collect_memory, collect_disk, collect_network, collect_process, collect_service, TelemetryParsers,
  asserted, collect_cpu, collect_with, metric_of, or_loadavg, registered,
}
use ai_sre_platform_for_auto.Common.{lit, ◌≡◌}
use ai_sre_platform_for_auto.Telemetry.{Fields}

module _ {W Float : Type 0} (context : CollectionContext W Float) where
  -- A metric of the server and the time of the run.
  abbrev pub IsStamped : RawMetric Float → Type 0
  IsStamped m = (some m.server_id ≡ context.server.id) × (m.timestamp ≡ context.timestamp)

  -- A metric of the type, if it is one.
  abbrev Labels : Text → Result (RawMetric Float) → Type 0
  Labels t (ok m) = (m.metric_type ≡ t) × IsStamped m
  Labels t (raise k m) = Unit

  -- The collectors one after another, each with the metric that it brings in, which is of its type and
  -- of this run, or none where it raises.
  pub data Harvested : MetricRegistry W Float → W → List (RawMetric Float) → W → Type 0 where
    over : {s : W} → Harvested [] s [] s
    brings :
        {t : Text} {c : MetricCollector W Float} {entries : MetricRegistry W Float} {s s₁ s₂ : W}
        {m : RawMetric Float} {ms : List (RawMetric Float)}
        → c context s ≡ (ok m, s₁)
        → m.metric_type ≡ t
        → IsStamped m
        → Harvested entries s₁ ms s₂
        → Harvested ((t, c) ∷ entries) s (m ∷ ms) s₂
    fails :
        {t : Text} {c : MetricCollector W Float} {entries : MetricRegistry W Float} {s s₁ s₂ : W}
        {k : Kind} {message : Text} {ms : List (RawMetric Float)}
        → c context s ≡ (raise k message, s₁)
        → Harvested entries s₁ ms s₂
        → Harvested ((t, c) ∷ entries) s ms s₂

  -- No exception, and metrics as above.
  abbrev pub Harvests : MetricRegistry W Float → W → Result (List (RawMetric Float)) × W → Type 0
  Harvests entries s (ok ms, s') = Harvested entries s ms s'
  Harvests entries s (raise k m, s') = ⊥

  resume-Labels :
      {A : Type 0} (t : Text) (r : Result A) (f : A → Exec W (RawMetric Float)) (s : W)
      → ((a : A) (s : W) → Labels t (f a s).0)
      → Labels t (resume r f s).0
  resume-Labels t (ok a) f s h = h a s
  resume-Labels t (raise k m) f s h = tt

  asserted-Labels :
      (t : Text) (o : Option ℕ) (f : ℕ → Exec W (RawMetric Float)) (s : W)
      → ((n : ℕ) → some n ≡ o → (s : W) → Labels t (f n s).0)
      → Labels t (resume (asserted o s).0 f (asserted o s).1).0
  unfolding asserted
  asserted-Labels t none f s h = tt
  asserted-Labels t (some n) f s h = h n refl s

  metric_of-Labels :
      (t : Text) (parse : Text → Result (Fields Float)) (n : ℕ) (output : Text) (s : W)
      → some n ≡ context.server.id
      → Labels t (metric_of t parse context n output s).0
  unfolding metric_of
  metric_of-Labels t parse n output s e =
      resume-Labels t (parse output) _ s (λ parsed s'. (refl, (e, refl)))

  collect_with-Labels :
      (t command : Text) (parse : Text → Result (Fields Float)) (s : W)
      → Labels t (collect_with t command parse context s).0
  unfolding collect_with
  collect_with-Labels t command parse s = asserted-Labels t context.server.id _ s (λ n e s₁.
      resume-Labels t (context.connector.execute command none s₁).0 _ _
        (λ output s₂. metric_of-Labels t parse n output s₂ e))

  collect_cpu-Labels :
      (parsers : TelemetryParsers Float) (s : W)
      → Labels (lit "cpu") (collect_cpu parsers context s).0
  unfolding collect_cpu
  collect_cpu-Labels parsers s = asserted-Labels (lit "cpu") context.server.id _ s (λ n e s₁.
      let (top, s₂) =
        context.connector.execute (lit "top -bn1 | grep \"Cpu(s)\" || cat /proc/loadavg") none s₁ in
      resume-Labels (lit "cpu") (or_loadavg context top s₂).0 _ _
        (λ output s₃. metric_of-Labels (lit "cpu") parsers.cpu_parser n output s₃ e))

  -- An entry that is found under its type, with a collector of that type.
  abbrev IsEntry : MetricRegistry W Float → Text × MetricCollector W Float → Type 0
  IsEntry registry (t, c) = (lookup t registry ≡ some c) × ((s : W) → Labels t (c context s).0)

  kept-Harvests :
      (t : Text) (c : MetricCollector W Float) (entries : MetricRegistry W Float) (s : W)
      (x : Result (RawMetric Float) × W) (y : Result (List (RawMetric Float)) × W)
      → c context s ≡ x
      → Labels t x.0
      → Harvests entries x.1 y
      → Harvests ((t, c) ∷ entries) s (resume y.0 (λ rest. pure (kept x.0 rest)) y.1)
  kept-Harvests t c entries s (ok m, s₁) (ok ms, s₂) e (l, stamped) h = brings e l stamped h
  kept-Harvests t c entries s (raise k m, s₁) (ok ms, s₂) e l h = fails e h
  kept-Harvests t c entries s x (raise k m, s₂) e l h = absurd h

  harvest-Harvests :
      (registry entries : MetricRegistry W Float) (s : W)
      → All (IsEntry registry) entries
      → Harvests entries s (harvest registry context (get_all_types entries) s)
  unfolding harvest get_all_types get_collector
  harvest-Harvests registry [] s all = over
  harvest-Harvests registry ((t, c) ∷ entries) s ((e, labels), all) =
      rw (get_collector, e)
        (kept-Harvests t c entries s (c context s)
          (harvest registry context (get_all_types entries) (c context s).1) refl (labels s)
          (harvest-Harvests registry entries (c context s).1 all))

  -- The loop over the registered collectors raises nothing and runs each of them once, in the order of
  -- their registration. Its metrics are those of the collectors that return one, in that order, each
  -- of the type under which its collector is registered and with the server's id and the run's time.
  pub registered-Harvests :
      (parsers : TelemetryParsers Float) (s : W)
      → let registry : MetricRegistry W Float = registered parsers in
        Harvests registry s (harvest registry context (get_all_types registry) s)
  unfolding registered register_collector get_all_types insert lookup text_eq lit collect_memory
      collect_disk collect_network collect_process collect_service
  registered-Harvests parsers s = harvest-Harvests (registered parsers) (registered parsers) s (
    (refl, collect_cpu-Labels parsers),
    (
      (refl, collect_with-Labels _ _ _),
      (
        (refl, collect_with-Labels _ _ _),
        (
          (refl, collect_with-Labels _ _ _),
          ((refl, collect_with-Labels _ _ _), ((refl, collect_with-Labels _ _ _), tt)),
        ),
      ),
    ),
  )
