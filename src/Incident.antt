-- ===== src/Incident.antt =====
-- The incident aggregate (src/domain/entities/incident.py): its data and the state machine of
-- `transition_to`. Dates are numbers that grow with time.
pub mod Lifecycle
pub mod Factory
pub mod Service
use ai_sre_platform_for_auto.Common.{
  ℕ, Text, lit, Bool, Option, none, some, List, [], ◌∷◌, ◌++◌, Dict, lookup, member, text_eq,
  CaseTables, upper, if◌then◌else◌,
}
use ai_sre_platform_for_auto.Errors.{Result, ok, raise, value_error}
use ai_sre_platform_for_auto.Health.{Finding}

pub record TimelineEntry : Type 0 where
  pub id : Option ℕ
  pub incident_id : ℕ
  pub event_type : Text
  pub message : Text
  pub timestamp : ℕ
  pub actor : Option Text

pub record Incident (Float : Type 0) : Type 0 where
  pub id : Option ℕ
  pub title : Text
  pub description : Text
  pub severity : Text
  pub status : Text
  pub source : Text
  pub server_id : ℕ
  pub findings : List (Finding Float)
  pub created_at : ℕ
  pub acknowledged_at : Option ℕ
  pub resolved_at : Option ℕ
  pub closed_at : Option ℕ
  pub assigned_to : Option Text
  pub resolution_notes : Option Text

-- `allowed` in `transition_to`
unfoldable pub allowed : Dict (List Text)
allowed =
    (lit "OPEN", lit "ACKNOWLEDGED" ∷ [])
    ∷ (lit "ACKNOWLEDGED", lit "IN_PROGRESS" ∷ [])
    ∷ (lit "IN_PROGRESS", lit "RESOLVED" ∷ [])
    ∷ (lit "RESOLVED", lit "CLOSED" ∷ [])
    ∷ (lit "CLOSED", [])
    ∷ []

-- `allowed.get(current, [])`
abbrev pub targets_of : Option (List Text) → List Text
targets_of none = []
targets_of (some targets) = targets

module _ {Float : Type 0} where
  -- the status and the timestamp of the state that is entered
  unfoldable pub enter : Incident Float → Text → ℕ → Incident Float
  enter i target now =
      if text_eq target (lit "ACKNOWLEDGED")
      then record i { status = target; acknowledged_at = some now }
      else if text_eq target (lit "RESOLVED")
      then record i { status = target; resolved_at = some now }
      else if text_eq target (lit "CLOSED")
      then record i { status = target; closed_at = some now }
      else record i { status = target }

  -- An invalid transition raises before anything is written.
  unfoldable pub transition_to : CaseTables → Incident Float → Text → ℕ → Result (Incident Float)
  unfolding enter
  transition_to tables i new_status now =
      let current = upper tables i.status in
      let target = upper tables new_status in
      if member target (targets_of (lookup current allowed))
      then ok (enter i target now)
      else raise value_error
          (lit "Invalid state transition from " ++ (current ++ (lit " to " ++ target)))
