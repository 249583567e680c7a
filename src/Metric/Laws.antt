-- ===== src/Metric/Laws.antt =====
-- What `MetricService.create_metric` stores.
use ai_sre_platform_for_auto.Common.{ℕ, Text, Dict, Option, none, some, true, false, refl, ◌==◌}
use ai_sre_platform_for_auto.Errors.{ok, raise, validation}
use ai_sre_platform_for_auto.Repository.{Repository}
use ai_sre_platform_for_auto.Metric.{Metric, create_metric, get_metric_by_id, is_unnamed, metric_at}
use ai_sre_platform_for_auto.Common.{◌≡◌}
use ai_sre_platform_for_auto.Common.{arith}
use ai_sre_platform_for_auto.Common.{inl, inr, ◌⊎◌}
use ai_sre_platform_for_auto.Common.{Bool-cases, Option-cases}
use ai_sre_platform_for_auto.Common.{if◌then◌else◌, lit, strip, [], ◌↔◌, List, ◌∷◌}

-- What is given, or else the default.
abbrev pub given : {A : Type 0} → Option A → A → A
given none default = default
given (some a) default = a

-- What `MetricService` relies on in its repository while the database works, for a metric that has
-- no key yet: it is stored under an unused key, and nothing else is written.
pub record Works {S Float : Type 0} (repository : Repository S (Metric Float))
    (stored : S → ℕ → Option (Metric Float)) : Type 0 where
  pub fresh : S → ℕ
  pub after : S → Metric Float → S
  pub fresh_unused : (s : S) → stored s (fresh s) ≡ none
  pub reads : (s : S) (n : ℕ) → repository.get_by_id n s ≡ (ok (stored s n), s)
  pub saves :
      (s : S) (m : Metric Float)
      → m.id ≡ none
      → repository.save m s ≡ (ok (record m { id = some (fresh s) }), after s m)
  pub stores :
      (s : S) (m : Metric Float) (n : ℕ)
      → m.id ≡ none
      → stored (after s m) n
        ≡ (if n == fresh s then some (record m { id = some (fresh s) }) else stored s n)

List-cases : {A : Type 0} (l : List A) → (l ≡ []) ⊎ ((x : A) × (xs : List A) × (l ≡ x ∷ xs))
List-cases [] = inl refl
List-cases (x ∷ xs) = inr (x, xs, refl)

-- `strip` of a text with no character is the text itself, so this is the blank test of the service.
is_unnamed-blank : (s : Text) → (is_unnamed s ≡ true) ↔ (strip s ≡ [])
unfolding is_unnamed strip
is_unnamed-blank [] = (λ h. refl, λ h. refl)
is_unnamed-blank (c ∷ s) = elim (List-cases (strip (c ∷ s))) [
  | inl e ↦ (λ h. e, λ h. rw (is_unnamed, e) refl)
  | inr (d, t, e) ↦ (λ h. cc (rw (is_unnamed, e) at h), λ h. cc)
]

module _ {S Float : Type 0} (now : S → ℕ) (repository : Repository S (Metric Float))
    (stored : S → ℕ → Option (Metric Float)) (works : Works repository stored) where
  -- The fields of a stored metric are those of the request: its time is the one that is given, or
  -- else that of the call, and its tags are those that are given, or none.
  pub record IsAsGiven (name : Text) (value : Float) (service : Text) (timestamp : Option ℕ)
      (tags : Option (Dict Text)) (s : S) (metric : Metric Float) : Type 0 where
    pub name_given : metric.name ≡ name
    pub value_given : metric.value ≡ value
    pub service_given : metric.service ≡ service
    pub time_given : metric.timestamp ≡ given timestamp (now s)
    pub tags_given : metric.tags ≡ given tags []

  -- A metric with the fields of the request is stored under a key that was free and is found there;
  -- under all other keys the repository is as it was.
  abbrev pub Stores : Text → Float → Text → Option ℕ → Option (Dict Text) → S → Type 0
  Stores name value service timestamp tags s =
      (n : ℕ) × (s' : S) × (metric : Metric Float) × (IsAsGiven name value service timestamp tags s
        metric)
      × (metric.id ≡ some n)
      × (stored s n ≡ none)
      × (create_metric now repository name value service timestamp tags s ≡ (ok metric, s'))
      × (get_metric_by_id now repository n s' ≡ (ok (some metric), s'))
      × ((m : ℕ) → (m == n) ≡ false → stored s' m ≡ stored s m)

  -- The call raised a validation error and left the repository as it was.
  abbrev pub Refuses : Text → Float → Text → Option ℕ → Option (Dict Text) → S → Type 0
  Refuses name value service timestamp tags s =
      (message : Text) × (create_metric now repository name value service timestamp tags s
        ≡ (raise validation message, s))

  stores-itself : (n : ℕ) → (n == n) ≡ true
  stores-itself n = ground arith

  module _ (name service : Text) (value : Float) (timestamp : Option ℕ) (tags : Option (Dict Text))
      (s : S) where
    abbrev metric : Metric Float
    metric = metric_at now repository name value service timestamp tags s

    abbrev kept : Metric Float
    kept = record metric { id = some (works.fresh s) }

    kept-IsAsGiven : IsAsGiven name value service timestamp tags s kept
    kept-IsAsGiven = record {
      name_given = refl;
      value_given = refl;
      service_given = refl;
      time_given = elim (Option-cases timestamp) [ inl e ↦ rw e refl | inr (t, e) ↦ rw e refl ];
      tags_given = elim (Option-cases tags) [ inl e ↦ rw e refl | inr (d, e) ↦ rw e refl ];
    }

    -- `create_metric` raises a ValidationError and changes nothing where the name or the service is
    -- empty once stripped. Else it stores a metric with the given name, value, service and tags (none
    -- where none are given) and the given time (that of the call where none is given) under a key
    -- that was free, where `get_metric_by_id` finds it, and nothing else changes.
    pub create_metric_lem :
        (((strip name ≡ []) ⊎ (strip service ≡ [])) × Refuses name value service timestamp tags s)
        ⊎ (¬ (strip name ≡ [])
            × ¬ (strip service ≡ [])
            × Stores name value service timestamp tags s)
    unfolding create_metric get_metric_by_id
    create_metric_lem = elim (Bool-cases (is_unnamed name)) [
      | inl t ↦ inl (
        inl ((is_unnamed-blank name).0 t),
        (lit "Metric name cannot be empty.", rw (create_metric, t) refl),
      )
      | inr f ↦ elim (Bool-cases (is_unnamed service)) [
        | inl t ↦ inl (
          inr ((is_unnamed-blank service).0 t),
          (lit "Service name cannot be empty.", rw (create_metric, f, t) refl),
        )
        | inr g ↦ inr (
          λ h. cc ((is_unnamed-blank name).1 h),
          λ h. cc ((is_unnamed-blank service).1 h),
          (
            works.fresh s,
            works.after s metric,
            kept,
            kept-IsAsGiven,
            refl,
            works.fresh_unused s,
            rw (create_metric, f, g) (works.saves s metric refl),
            rw
                (
                  get_metric_by_id,
                  works.reads (works.after s metric) (works.fresh s),
                  works.stores s metric (works.fresh s) refl,
                  stores-itself (works.fresh s),
                )
                refl,
            λ m e. rw (works.stores s metric m refl, e) refl,
          ),
        )
      ]
    ]
