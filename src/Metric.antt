-- ===== src/Metric.antt =====
-- `MetricService` (src/application/services/metric_service.py) and its entity
-- (src/domain/entities/metrics.py). The repository and the clock are parameters.
pub mod Laws
mod Tests
use ai_sre_platform_for_auto.Common.{
  ℕ, Text, Dict, Option, List, none, some, true, false, [], ◌∷◌, lit, strip, if◌then◌else◌,
}
use ai_sre_platform_for_auto.Errors.{Result, ok, raise, validation}
use ai_sre_platform_for_auto.Effects.{Exec, pure, throw, gets, ◌>>=◌, ◌>>◌}
use ai_sre_platform_for_auto.Repository.{Repository}
use ai_sre_platform_for_auto.Common.{Bool}

pub record Metric (Float : Type 0) : Type 0 where
  pub id : Option ℕ
  pub name : Text
  pub value : Float
  pub timestamp : ℕ
  pub service : Text
  pub tags : Dict Text

-- `not s or len(s.strip()) == 0`
unfoldable pub is_unnamed : Text → Bool
is_unnamed [] = true
is_unnamed (c ∷ s) = elim (strip (c ∷ s)) [ [] ↦ true | d ∷ t ↦ false ]

module _ {S : Type 0} (now : S → ℕ) where
  -- `timestamp or datetime.now(...)`; a point in time is never false
  abbrev or_now : Option ℕ → S → ℕ
  or_now none s = now s
  or_now (some t) s = t

  -- `tags or {}`
  abbrev tags_or_none : Option (Dict Text) → Dict Text
  tags_or_none none = []
  tags_or_none (some tags) = tags

  module _ {Float : Type 0} (repository : Repository S (Metric Float)) where
    abbrev metric_at : Text → Float → Text → Option ℕ → Option (Dict Text) → S → Metric Float
    metric_at name value service timestamp tags s = record {
      id = none;
      name = name;
      value = value;
      timestamp = or_now timestamp s;
      service = service;
      tags = tags_or_none tags;
    }

    unfoldable pub create_metric :
        Text → Float → Text → Option ℕ → Option (Dict Text) → Exec S (Metric Float)
    unfolding is_unnamed
    create_metric name value service timestamp tags s =
        if is_unnamed name
        then throw validation (lit "Metric name cannot be empty.") s
        else if is_unnamed service
        then throw validation (lit "Service name cannot be empty.") s
        else repository.save (metric_at name value service timestamp tags s) s

    unfoldable pub get_metric_by_id : ℕ → Exec S (Option (Metric Float))
    get_metric_by_id metric_id = repository.get_by_id metric_id

    unfoldable pub get_all_metrics : ℕ → ℕ → Exec S (List (Metric Float))
    get_all_metrics limit offset = repository.get_all limit offset
