-- ===== src/Collector/Registry.antt =====
-- `CollectorRegistry` (src/application/orchestrator/collector_registry.py).
pub mod Laws
use ai_sre_platform_for_auto.Common.{ℕ, none, some, [], ◌∷◌, ◌++◌}
use ai_sre_platform_for_auto.Errors.{Result, ok, raise, not_found, conflict}
use ai_sre_platform_for_auto.Collector.{Collector}
use ai_sre_platform_for_auto.Common.{Dict, if◌then◌else◌}
use ai_sre_platform_for_auto.Collector.{List, Text}
use ai_sre_platform_for_auto.Common.{Bool, Option, lit, lookup, remove}
use ai_sre_platform_for_auto.Common.{false, insert}
use ai_sre_platform_for_auto.Common.{true}

-- `_collectors`
abbrev pub CollectorRegistry : Type 0 → Type 0 → Type 0 → Type 0
CollectorRegistry S Executor Float = Dict (Collector S Executor Float)

module _ {S Executor Float : Type 0} where
  unfoldable pub exists : CollectorRegistry S Executor Float → Text → Bool
  exists r name = elim (lookup name r) [ none ↦ false | some c ↦ true ]

  -- A call that raises leaves the registry as it was.
  unfoldable pub register :
      CollectorRegistry S Executor Float
      → Collector S Executor Float
      → Result (CollectorRegistry S Executor Float)
  unfolding exists
  register r collector =
      if exists r collector.name
      then raise conflict (lit "Collector '" ++ (collector.name ++ lit "' is already registered."))
      else ok (insert collector.name collector r)

  unfoldable pub unregister :
      CollectorRegistry S Executor Float → Text → Result (CollectorRegistry S Executor Float)
  unfolding exists
  unregister r name =
      if exists r name
      then ok (remove name r)
      else raise not_found (lit "Collector '" ++ (name ++ lit "' is not registered."))

  abbrev found : Text → Option (Collector S Executor Float) → Result (Collector S Executor Float)
  found name none = raise not_found (lit "Collector '" ++ (name ++ lit "' is not registered."))
  found name (some collector) = ok collector

  unfoldable pub get :
      CollectorRegistry S Executor Float → Text → Result (Collector S Executor Float)
  get r name = found name (lookup name r)

  -- `list`
  unfoldable pub list : CollectorRegistry S Executor Float → List (Collector S Executor Float)
  list [] = []
  list ((k, c) ∷ r) = c ∷ list r
