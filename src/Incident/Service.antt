-- ===== src/Incident/Service.antt =====
-- `IncidentService` (src/application/services/incident_service.py). Its repositories and the clock
-- are parameters, over a state `S` that they share.
pub mod Contract
pub mod Effect
pub mod Request
pub mod Invariant
mod Tests
use ai_sre_platform_for_auto.Common.{
  ℕ, Text, lit, Option, none, some, List, [], ◌∷◌, ◌++◌, CaseTables, show,
}
use ai_sre_platform_for_auto.Errors.{Result, ok, raise, not_found, assertion_error}
use ai_sre_platform_for_auto.Effects.{Exec, pure, throw, lift, gets, ◌>>=◌, ◌>>◌}
use ai_sre_platform_for_auto.Repository.{Repository}
use ai_sre_platform_for_auto.Server.{Server}
use ai_sre_platform_for_auto.Health.{Finding, ServerHealth}
use ai_sre_platform_for_auto.Incident.{Incident, TimelineEntry, transition_to}
use ai_sre_platform_for_auto.Incident.Factory.{create_from_health}

-- The constructor's arguments, the clock, and the printer of floats.
pub record Ports (S Float : Type 0) : Type 0 where
  pub incident_repository : Repository S (Incident Float)
  pub timeline_repository : Repository S TimelineEntry
  pub get_by_incident_id : ℕ → Exec S (List TimelineEntry)
  pub server_repository : Repository S (Server Float)
  pub health_repository : Repository S (ServerHealth Float)
  pub now : S → ℕ
  pub show_float : Float → Text

module _ {S Float : Type 0} (tables : CaseTables) (ports : Ports S Float) where
  -- `_record_timeline`
  unfoldable pub record_timeline : ℕ → Text → Text → Text → Exec S TimelineEntry
  record_timeline incident_id event_type message actor = do
    timestamp ← gets ports.now
    ports.timeline_repository.save (record {
      id = none;
      incident_id = incident_id;
      event_type = event_type;
      message = message;
      timestamp = timestamp;
      actor = some actor;
    })

  -- raises unless the server is there
  find_server : ℕ → Option (Server Float) → Exec S (Server Float)
  find_server n none = throw not_found (lit "Server with ID " ++ (show n ++ lit " not found."))
  find_server n (some server) = pure server

  -- `assert saved.id is not None`
  saved_id : Incident Float → Exec S ℕ
  saved_id i = elim i.id [ none ↦ throw assertion_error [] | some n ↦ pure n ]

  -- `findings or []` keeps a list of findings as it is
  abbrev pub or_none : Option (List (Finding Float)) → List (Finding Float)
  or_none none = []
  or_none (some fs) = fs

  unfoldable pub create_incident :
      Text → Text → Text → ℕ → Text → Option (List (Finding Float)) → Exec S (Incident Float)
  unfolding record_timeline find_server saved_id
  create_incident title description severity server_id source findings = do
    found ← ports.server_repository.get_by_id server_id
    find_server server_id found
    created_at ← gets ports.now
    saved ← ports.incident_repository.save (record {
      id = none;
      title = title;
      description = description;
      severity = severity;
      status = lit "OPEN";
      source = source;
      server_id = server_id;
      findings = or_none findings;
      created_at = created_at;
      acknowledged_at = none;
      resolved_at = none;
      closed_at = none;
      assigned_to = none;
      resolution_notes = none;
    })
    n ← saved_id saved
    record_timeline n (lit "CREATED") (lit "Incident manually created.") (lit "system")
    pure saved

  find_health : ℕ → Option (ServerHealth Float) → Exec S (ServerHealth Float)
  find_health n none =
      throw not_found (lit "Health record with ID " ++ (show n ++ lit " not found."))
  find_health n (some health) = pure health

  unfoldable pub create_incident_from_health : ℕ → Exec S (Incident Float)
  unfolding record_timeline find_server find_health saved_id
  create_incident_from_health health_id = do
    known ← ports.health_repository.get_by_id health_id
    health ← find_health health_id known
    found ← ports.server_repository.get_by_id health.server_id
    server ← find_server health.server_id found
    now ← gets ports.now
    incident ← lift (create_from_health tables ports.show_float health server.hostname now)
    saved ← ports.incident_repository.save incident
    n ← saved_id saved
    record_timeline n (lit "CREATED")
        (lit "Incident automatically created from health evaluation ID "
          ++ (show health_id ++ lit "."))
        (lit "system")
    pure saved

  or_missing : ℕ → Option (Incident Float) → Exec S (Incident Float)
  or_missing n none = throw not_found (lit "Incident with ID " ++ (show n ++ lit " not found."))
  or_missing n (some i) = pure i

  unfoldable pub get_incident : ℕ → Exec S (Incident Float)
  unfolding or_missing
  get_incident incident_id = do
    found ← ports.incident_repository.get_by_id incident_id
    or_missing incident_id found

  unfoldable pub list_incidents : ℕ → ℕ → Exec S (List (Incident Float))
  list_incidents limit offset = ports.incident_repository.get_all limit offset

  unfoldable pub assign_incident : ℕ → Text → Text → Exec S (Incident Float)
  unfolding record_timeline get_incident
  assign_incident incident_id assignee actor = do
    incident ← get_incident incident_id
    saved ← ports.incident_repository.save (record incident { assigned_to = some assignee })
    record_timeline incident_id (lit "ASSIGNED")
        (lit "Incident assigned to owner '" ++ (assignee ++ lit "'.")) actor
    pure saved

  unfoldable pub update_status : ℕ → Text → Text → Exec S (Incident Float)
  unfolding record_timeline get_incident
  update_status incident_id new_status actor = do
    incident ← get_incident incident_id
    now ← gets ports.now
    moved ← lift (transition_to tables incident new_status now)
    saved ← ports.incident_repository.save moved
    record_timeline incident_id (lit "STATUS_CHANGED")
        (lit "Incident status transitioned from "
          ++ (incident.status ++ (lit " to " ++ (new_status ++ lit "."))))
        actor
    pure saved

  unfoldable pub resolve_incident : ℕ → Text → Text → Text → Exec S (Incident Float)
  unfolding record_timeline get_incident
  resolve_incident incident_id notes resolved_by actor = do
    incident ← get_incident incident_id
    now ← gets ports.now
    moved ← lift (transition_to tables incident (lit "RESOLVED") now)
    saved ← ports.incident_repository.save (record moved { resolution_notes = some notes })
    record_timeline incident_id (lit "RESOLVED")
        (lit "Incident resolved by " ++ (resolved_by ++ (lit ". Notes: " ++ notes))) actor
    pure saved

  unfoldable pub close_incident : ℕ → Text → Exec S (Incident Float)
  unfolding record_timeline get_incident
  close_incident incident_id actor = do
    incident ← get_incident incident_id
    now ← gets ports.now
    moved ← lift (transition_to tables incident (lit "CLOSED") now)
    saved ← ports.incident_repository.save moved
    record_timeline incident_id (lit "CLOSED") (lit "Incident closed.") actor
    pure saved

  unfoldable pub get_timeline : ℕ → Exec S (List TimelineEntry)
  unfolding get_incident
  get_timeline incident_id = do get_incident incident_id; ports.get_by_incident_id incident_id
