-- ===== src/Collector/Tests.antt =====
-- A registry with a collector that answers and one that raises; the state counts the runs.
use ai_sre_platform_for_auto.Common.{ℕ, some, [], ◌∷◌, refl}
use ai_sre_platform_for_auto.Errors.{Result, ok, raise, builtin, conflict}
use ai_sre_platform_for_auto.Values.{end}
use ai_sre_platform_for_auto.Collector.{Collector, CollectorResult, success, cpu, disk}
use ai_sre_platform_for_auto.Collector.Registry.{CollectorRegistry, list, exists, register}
use ai_sre_platform_for_auto.Collector.Registry.Laws.{IsRegistry, register_lem}
use ai_sre_platform_for_auto.Collector.Orchestrator.{run_all}
use ai_sre_platform_for_auto.Collector.Orchestrator.Runs.{ReportsAll, run_all-ReportsAll}
use ai_sre_platform_for_auto.Collector.Orchestrator.Parallel.{
  Coroutine, returned, raised, waits, run_parallel,
}
use ai_sre_platform_for_auto.Collector.Orchestrator.Parallel.Coroutines.{HoldsAll}
use ai_sre_platform_for_auto.Collector.Orchestrator.Parallel.Interleavings.{
  Answers, run_parallel-Answers,
}
use ai_sre_platform_for_auto.Common.{lit, lookup, ◌++◌}
use ai_sre_platform_for_auto.Collector.{List}
use ai_sre_platform_for_auto.Collector.{ℤ}
use ai_sre_platform_for_auto.Common.{pos, text_eq, ◌+◌, ◌≡◌}
use ai_sre_platform_for_auto.Common.{false, true, ◌-◌}
use ai_sre_platform_for_auto.Collector.{Text}
use ai_sre_platform_for_auto.Common.{◌⊎◌}
use ai_sre_platform_for_auto.Common.{if◌then◌else◌}

abbrev answer : CollectorResult ℕ
answer = record {
  timestamp = 0;
  hostname = lit "web-1";
  collector_name = lit "CPUCollector";
  metric_type = cpu;
  payload = end;
  status = success;
  errors = [];
  execution_time_ms = pos 1;
}

abbrev steady : Collector ℕ ℕ ℕ
steady = record {
  name = lit "CPUCollector";
  metric_type = cpu;
  collect = λ e s. (ok answer, s + 1);
}

abbrev broken : Collector ℕ ℕ ℕ
broken = record {
  name = lit "DiskCollector";
  metric_type = disk;
  collect = λ e s. (raise builtin (lit "no disk"), s + 1);
}

abbrev registry : CollectorRegistry ℕ ℕ ℕ
registry = (lit "DiskCollector", broken) ∷ (lit "CPUCollector", steady) ∷ []

abbrev elapsed : ℕ → ℕ → ℤ
elapsed s s' = pos (s' - s)

registry-IsRegistry : IsRegistry registry
unfolding lookup text_eq lit
registry-IsRegistry = (refl, refl, (refl, refl, tt))

run_all-ReportsAll_example :
    let (results, s') = run_all (λ s. s) elapsed registry 0 5 in
    ReportsAll 0 (list registry) 5 results s'
run_all-ReportsAll_example = run_all-ReportsAll (λ s. s) elapsed registry 0 5 registry-IsRegistry

register_lem_example :
    ((exists registry (lit "CPUCollector") ≡ true)
      × ((message : Text) × (register registry steady ≡ raise conflict message)))
    ⊎ ((exists registry (lit "CPUCollector") ≡ false)
        × ((r' : CollectorRegistry ℕ ℕ ℕ) × (register registry steady ≡ ok r')
            × IsRegistry r'
            × ((n : Text)
                → lookup n r'
                  ≡ (if text_eq (lit "CPUCollector") n then some steady else lookup n registry))))
register_lem_example = register_lem registry steady registry-IsRegistry

-- Each collector waits once; the one of the disks then raises.
abbrev after_wait : Result (CollectorResult ℕ) → Coroutine ℕ (CollectorResult ℕ)
after_wait (ok result) = returned result
after_wait (raise kind message) = raised kind message

abbrev waiting : Collector ℕ ℕ ℕ → ℕ → Coroutine ℕ (CollectorResult ℕ)
waiting c e = waits (λ s. after_wait (c.collect e s).0) (λ s. s + 1)

run_parallel-Answers_example :
    ((more : List ℕ) × (results : List (CollectorResult ℕ)) × ((run_parallel
          (λ s. s)
          elapsed
          registry
          waiting
          ((1 ∷ 0 ∷ []) ++ more)
          0
          5).0
        ≡ some results))
    × ((results : List (CollectorResult ℕ))
        → (run_parallel (λ s. s) elapsed registry waiting (1 ∷ 0 ∷ []) 0 5).0 ≡ some results
        → HoldsAll (Answers (λ s. s) elapsed registry waiting 0) (list registry) results)
run_parallel-Answers_example =
    run_parallel-Answers (λ s. s) elapsed registry waiting 0 (1 ∷ 0 ∷ []) 5 registry-IsRegistry
