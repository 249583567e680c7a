-- ===== src/Collector/Orchestrator/Parallel/Interleavings.antt =====
-- What `run_parallel` returns, in whatever order the event loop resumes the tasks.
use ai_sre_platform_for_auto.Common.{
  ℕ, ◌≡◌, refl, ap, ◌∙◌, ◌⊎◌, inl, inr, some, [], ◌∷◌, ◌++◌, All, map,
}
use mathlib.Core.Path.{subst}
use ai_sre_platform_for_auto.Errors.{Kind, ok}
use ai_sre_platform_for_auto.Collector.{List, Text, ℤ, Collector, CollectorResult, failed}
use ai_sre_platform_for_auto.Collector.Registry.{CollectorRegistry, get, list}
use ai_sre_platform_for_auto.Collector.Registry.Laws.{IsRegistry, list-found}
use ai_sre_platform_for_auto.Collector.Orchestrator.{lit, crashed}
use ai_sre_platform_for_auto.Collector.Orchestrator.Parallel.{
  Coroutine, returned, raised, waits, resumed, left_by, run_loop, gathered, caught, found_task,
  collector_task, run_parallel,
}
use ai_sre_platform_for_auto.Collector.Orchestrator.Parallel.Coroutines.{
  Returns, Raises, Gives, GivesAll, HoldsAll, HoldsSome, resumed-Returns, resumed-Raises,
  run_loop-GivesAll, gathered-HoldsSome, run_loop-append, all-return,
}

module _ {S Executor Float : Type 0} (clock : S → ℕ) (elapsed : S → S → ℤ)
    (registry : CollectorRegistry S Executor Float)
    (start : Collector S Executor Float → Executor → Coroutine S (CollectorResult Float))
    (executor : Executor) where
  -- The result is one that a run of the collector returns, or it names an exception that a run of
  -- the collector raises.
  abbrev pub Answers : Collector S Executor Float → CollectorResult Float → Type 0
  Answers c result =
      Returns (start c executor) result
      ⊎ ((k : Kind) × (message : Text) × Raises (start c executor) k message
          × (result.status ≡ failed)
          × (result.collector_name ≡ c.name)
          × (result.metric_type ≡ c.metric_type)
          × (result.errors ≡ (lit "Unhandled exception during collection: " ++ message) ∷ []))

  caught-Gives :
      (c : Collector S Executor Float) (s s' : S) (task : Coroutine S (CollectorResult Float))
      → ((a : CollectorResult Float) → Returns task a → Returns (start c executor) a)
      → ((k : Kind) (m : Text) → Raises task k m → Raises (start c executor) k m)
      → Gives (Answers c) (caught clock elapsed registry start c.name c s s' task)
  unfolding caught crashed
  caught-Gives c s s' (returned a) h k = inl (h a refl)
  caught-Gives c s s' (raised kind message) h k =
      inr (kind, message, k kind message (refl, refl), refl, refl, refl, refl)
  caught-Gives c s s' (waits next left) h k =
      λ t. caught-Gives c s (left t) (next t) (λ a r. h a (t, r)) (λ kind m r. k kind m (t, r))

  found_task-Gives :
      (c : Collector S Executor Float)
      → Gives (Answers c) (found_task clock elapsed registry start c.name executor (ok c))
  found_task-Gives c = λ s.
      caught-Gives c s (left_by (start c executor) s) (resumed (start c executor) s)
        (λ a. resumed-Returns (start c executor) s a)
        (λ k m. resumed-Raises (start c executor) s k m)

  collector_task-Gives :
      (c : Collector S Executor Float)
      → get registry c.name ≡ ok c
      → Gives (Answers c) (collector_task clock elapsed registry start c.name executor)
  unfolding collector_task
  collector_task-Gives c h = rw h (found_task-Gives c)

  tasks-GivesAll :
      (cs : List (Collector S Executor Float))
      → All (λ c. get registry c.name ≡ ok c) cs
      → GivesAll Answers cs
          (map (λ c. collector_task clock elapsed registry start c.name executor) cs)
  tasks-GivesAll [] h = tt
  tasks-GivesAll (c ∷ cs) (h, hs) = (collector_task-Gives c h, tasks-GivesAll cs hs)

  -- the tasks of `run_parallel` after some picks
  after_picks-GivesAll :
      (picks : List ℕ) (s : S)
      → IsRegistry registry
      → GivesAll Answers
          (list registry)
          (run_loop picks
            (map (λ c. collector_task clock elapsed registry start c.name executor) (list registry))
            s).0
  after_picks-GivesAll picks s v =
      run_loop-GivesAll Answers picks (list registry)
        (map (λ c. collector_task clock elapsed registry start c.name executor) (list registry)) s
        (tasks-GivesAll (list registry) (list-found registry v))

  -- Whatever order the event loop resumes the tasks in, `run_parallel` of a well-formed registry can
  -- go on until all of them have returned. Once it has its results, there is one for each collector,
  -- in the order of registration: it is one that the collector returns, or a failed one with the
  -- collector's name and metric type and the text of an exception that the collector raises.
  pub run_parallel-Answers :
      (picks : List ℕ) (s : S)
      → IsRegistry registry
      → ((more : List ℕ) × (results : List (CollectorResult Float)) × ((run_parallel clock elapsed
              registry start
              (picks ++ more)
              executor
              s).0
            ≡ some results))
        × ((results : List (CollectorResult Float))
            → (run_parallel clock elapsed registry start picks executor s).0 ≡ some results
            → HoldsAll Answers (list registry) results)
  unfolding run_parallel
  run_parallel-Answers picks s v =
      let tasks =
        map (λ c. collector_task clock elapsed registry start c.name executor) (list registry) in
      let (tasks', s') = run_loop picks tasks s in
      let h = after_picks-GivesAll picks s v in
      let (more, results, f) = all-return Answers (list registry) tasks' s' h in
      (
        (more, results, ap (λ r. gathered r.0) (run_loop-append picks more tasks s) ∙ f),
        λ found e.
            subst (HoldsSome Answers (list registry)) e
              (gathered-HoldsSome Answers (list registry) tasks' h),
      )
