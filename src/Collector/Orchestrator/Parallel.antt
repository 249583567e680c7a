-- ===== src/Collector/Orchestrator/Parallel.antt =====
-- `run_parallel` of src/application/orchestrator/collector_orchestrator.py. A task is a coroutine that
-- runs from one `await` to the next; the event loop picks the task that goes on, in any order.
pub mod Coroutines
pub mod Interleavings
use ai_sre_platform_for_auto.Common.{
  ℕ, zero, suc, ◌≡◌, refl, ◌⊎◌, inl, inr, Option, none, some, [], ◌∷◌, ◌++◌, All, map, length,
}
use ai_sre_platform_for_auto.Errors.{Kind, Result, ok, raise}
use ai_sre_platform_for_auto.Collector.{List, Text, ℤ, Collector, CollectorResult, failed, log}
use ai_sre_platform_for_auto.Collector.Registry.{CollectorRegistry, get, list}
use ai_sre_platform_for_auto.Collector.Registry.Laws.{IsRegistry, list-found}
use ai_sre_platform_for_auto.Collector.Orchestrator.{lit, missing, crashed}

-- A coroutine that has returned, has raised, or waits; what it becomes when it goes on, and the state
-- that it leaves then.
pub data Coroutine (S A : Type 0) : Type 0 where
  returned : A → Coroutine S A
  raised : Kind → Text → Coroutine S A
  waits : (S → Coroutine S A) → (S → S) → Coroutine S A

abbrev pub with_rest : {A : Type 0} → Option A → Option (List A) → Option (List A)
with_rest none rest = none
with_rest (some a) none = none
with_rest (some a) (some rest) = some (a ∷ rest)

module _ {S A : Type 0} where
  abbrev pub result_of : Coroutine S A → Option A
  result_of (returned a) = some a
  result_of _ = none

  -- up to the next `await`
  unfoldable pub resumed : Coroutine S A → S → Coroutine S A
  resumed (waits next left) s = next s
  resumed task s = task

  unfoldable pub left_by : Coroutine S A → S → S
  left_by (waits next left) s = left s
  left_by task s = s

  -- The event loop resumes task `i`.
  unfoldable pub resume : ℕ → List (Coroutine S A) → S → List (Coroutine S A) × S
  unfolding resumed left_by
  resume i [] s = ([], s)
  resume zero (task ∷ tasks) s = (resumed task s ∷ tasks, left_by task s)
  resume (suc i) (task ∷ tasks) s = let (rest, s') = resume i tasks s in (task ∷ rest, s')

  unfoldable pub run_loop : List ℕ → List (Coroutine S A) → S → List (Coroutine S A) × S
  unfolding resume
  run_loop [] tasks s = (tasks, s)
  run_loop (i ∷ picks) tasks s = let (tasks', s') = resume i tasks s in run_loop picks tasks' s'

  -- `asyncio.gather`: the results in the order of the tasks, once all have returned
  unfoldable pub gathered : List (Coroutine S A) → Option (List A)
  gathered [] = some []
  gathered (task ∷ tasks) = with_rest (result_of task) (gathered tasks)

module _ {S Executor Float : Type 0} (clock : S → ℕ) (elapsed : S → S → ℤ)
    (registry : CollectorRegistry S Executor Float)
    (start : Collector S Executor Float → Executor → Coroutine S (CollectorResult Float)) where
  -- The `try` around `collector.collect`; `s` is the state of the start, `s'` the present one.
  unfoldable pub caught :
      Text
      → Collector S Executor Float
      → S
      → S
      → Coroutine S (CollectorResult Float)
      → Coroutine S (CollectorResult Float)
  caught name collector s s' (returned result) = returned result
  caught name collector s s' (raised kind message) =
      returned (crashed clock elapsed registry name collector s s' message)
  caught name collector s s' (waits next left) =
      waits (λ t. caught name collector s (left t) (next t)) left

  abbrev pub found_task :
      Text → Executor → Result (Collector S Executor Float) → Coroutine S (CollectorResult Float)
  found_task name executor (raise kind message) =
      waits (λ s. returned (missing clock elapsed name s message)) (λ s. s)
  found_task name executor (ok collector) =
      let task = start collector executor in
      waits (λ s. caught name collector s (left_by task s) (resumed task s)) (left_by task)

  -- the task of `run_collector`
  unfoldable pub collector_task : Text → Executor → Coroutine S (CollectorResult Float)
  unfolding caught
  collector_task name executor = found_task name executor (get registry name)

  -- the results, once every task has returned, for the picks of the event loop
  unfoldable pub run_parallel : List ℕ → Executor → S → Option (List (CollectorResult Float)) × S
  unfolding run_loop gathered collector_task
  run_parallel picks executor s =
      let (tasks, s') =
        run_loop picks (map (λ c. collector_task c.name executor) (list registry)) s in
      (gathered tasks, s')
