-- ===== src/Metric/Tests.antt =====
-- The metric service over a table in memory, with natural numbers for floats.
use ai_sre_platform_for_auto.Common.{ℕ, Text, Option, List, [], none, some, refl, lit, strip}
use ai_sre_platform_for_auto.Repository.{IsRepository, Keyed, Repository}
use ai_sre_platform_for_auto.Repository.Memory.{memory, read, memory-IsRepository}
use ai_sre_platform_for_auto.Metric.{Metric}
use ai_sre_platform_for_auto.Metric.Laws.{Works, Refuses, Stores, create_metric_lem}
use ai_sre_platform_for_auto.Common.{◌≡◌}
use ai_sre_platform_for_auto.Common.{◌⊎◌}

abbrev Table : Type 0
Table = List (Option (Metric ℕ))

abbrev metric_key : Keyed (Metric ℕ)
metric_key = record { id_of = λ m. m.id; with_id = λ m n. record m { id = some n } }

abbrev table : Repository Table (Metric ℕ)
table = memory metric_key (λ s. s) (λ s l. l)

abbrev stored : Table → ℕ → Option (Metric ℕ)
stored = read metric_key (λ s. s) (λ s l. l)

abbrev as_repository : IsRepository metric_key table stored
as_repository = memory-IsRepository metric_key (λ s. s) (λ s l. l) (λ s l. refl) (λ e n. refl)

abbrev works : Works table stored
works = record {
  fresh = as_repository.fresh;
  after = as_repository.after;
  fresh_unused = as_repository.fresh_unused;
  reads = as_repository.reads;
  saves = λ s m new. rw (as_repository.saves s m, new) refl;
  stores = λ s m n new. rw (as_repository.stores s m n, new) refl;
}

abbrev name : Text
name = lit "cpu.usage"

abbrev service : Text
service = lit "api"

create_metric_lem_example :
    (((strip name ≡ []) ⊎ (strip service ≡ []))
      × Refuses (λ s. 9) table stored works name 45 service (some 4) none [])
    ⊎ (¬ (strip name ≡ [])
        × ¬ (strip service ≡ [])
        × Stores (λ s. 9) table stored works name 45 service (some 4) none [])
create_metric_lem_example =
    create_metric_lem (λ s. 9) table stored works name service 45 (some 4) none []
