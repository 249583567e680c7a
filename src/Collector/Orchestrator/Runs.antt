-- ===== src/Collector/Orchestrator/Runs.antt =====
-- What a run of the collectors returns, whichever of them raise.
use ai_sre_platform_for_auto.Common.{ℕ, [], ◌∷◌, ◌++◌, refl, inl, inr}
use ai_sre_platform_for_auto.Errors.{Kind, Result, ok, raise}
use ai_sre_platform_for_auto.Collector.{Collector, CollectorResult, failed, log}
use ai_sre_platform_for_auto.Collector.Registry.{CollectorRegistry, get, list, exists}
use ai_sre_platform_for_auto.Collector.Registry.Laws.{IsRegistry, list-found, exists-none}
use ai_sre_platform_for_auto.Collector.Orchestrator.{
  run_collector, run_each, run_all, run_found, settled, crashed, missing,
}
use ai_sre_platform_for_auto.Common.{◌≡◌}
use ai_sre_platform_for_auto.Collector.{List, ℤ}
use ai_sre_platform_for_auto.Common.{All, ◌⊎◌}
use ai_sre_platform_for_auto.Collector.{Text}
use ai_sre_platform_for_auto.Collector.Orchestrator.{lit}
use ai_sre_platform_for_auto.Common.{false}

module _ {S Executor Float : Type 0} (executor : Executor) where
  -- `result` is what the collector answers from `s`, or names its exception; `s'` is the state that
  -- the collector leaves.
  abbrev pub Reports : Collector S Executor Float → S → CollectorResult Float → S → Type 0
  Reports c s result s' =
      (c.collect executor s ≡ (ok result, s'))
      ⊎ ((k : Kind) × (message : Text) × (c.collect executor s ≡ (raise k message, s'))
          × (result.status ≡ failed)
          × (result.collector_name ≡ c.name)
          × (result.metric_type ≡ c.metric_type)
          × (result.errors ≡ (lit "Unhandled exception during collection: " ++ message) ∷ []))

  -- one result for each collector, in order, each run from the state that the one before leaves
  abbrev pub ReportsAll :
      List (Collector S Executor Float) → S → List (CollectorResult Float) → S → Type 0
  ReportsAll [] s results s' = (results ≡ []) × (s ≡ s')
  ReportsAll (c ∷ cs) s [] s' = ⊥
  ReportsAll (c ∷ cs) s (result ∷ results) s' =
      (middle : S) × Reports c s result middle × ReportsAll cs middle results s'

module _ {S Executor Float : Type 0} (clock : S → ℕ) (elapsed : S → S → ℤ)
    (registry : CollectorRegistry S Executor Float) where
  settled-Reports :
      (name : Text) (executor : Executor) (c : Collector S Executor Float) (s : S)
      (answer : Result (CollectorResult Float) × S)
      → c.collect executor s ≡ answer
      → name ≡ c.name
      → let (result, s') = settled clock elapsed registry name c s answer in
        Reports executor c s result s'
  unfolding settled crashed
  settled-Reports name executor c s (ok result, s') h n = inl h
  settled-Reports name executor c s (raise k m, s') h n = inr (k, m, h, refl, n, refl, refl)

  run_collector-Reports :
      (executor : Executor) (c : Collector S Executor Float) (s : S)
      → get registry c.name ≡ ok c
      → let (result, s') = run_collector clock elapsed registry c.name executor s in
        Reports executor c s result s'
  unfolding run_collector
  run_collector-Reports executor c s h =
      rw h (settled-Reports c.name executor c s (c.collect executor s) refl refl)

  -- The run of a name that is not registered answers with one failed result of that name, and runs
  -- nothing.
  pub run_collector-unknown :
      (name : Text) (executor : Executor) (s : S)
      → exists registry name ≡ false
      → let (result, s') = run_collector clock elapsed registry name executor s in
        (s' ≡ s)
        × (result.status ≡ failed)
        × (result.collector_name ≡ name)
        × (result.metric_type ≡ log)
        × (result.timestamp ≡ clock s)
  unfolding run_collector run_found missing get
  run_collector-unknown name executor s h =
      rw (exists-none registry name h) (refl, refl, refl, refl, refl)

  run_each-ReportsAll :
      (executor : Executor) (cs : List (Collector S Executor Float)) (s : S)
      → All (λ c. get registry c.name ≡ ok c) cs
      → let (results, s') = run_each clock elapsed registry cs executor s in
        ReportsAll executor cs s results s'
  unfolding run_each
  run_each-ReportsAll executor [] s h = (refl, refl)
  run_each-ReportsAll executor (c ∷ cs) s (f, h) =
      let (result, s') = run_collector clock elapsed registry c.name executor s in
      (s', run_collector-Reports executor c s f, run_each-ReportsAll executor cs s' h)

  -- A run of all collectors of a well-formed registry gives one result for each collector, in the
  -- order of registration, and each collector runs whichever raise: the result is the collector's
  -- own, or a failed one with its name, its metric type and the text of the exception.
  pub run_all-ReportsAll :
      (executor : Executor) (s : S)
      → IsRegistry registry
      → let (results, s') = run_all clock elapsed registry executor s in
        ReportsAll executor (list registry) s results s'
  unfolding run_all
  run_all-ReportsAll executor s v =
      run_each-ReportsAll executor (list registry) s (list-found registry v)
