-- ===== src/Api/Endpoints.antt =====
-- The endpoints of src/presentation/api/v1/incidents.py, over the incident service.
use ai_sre_platform_for_auto.Common.{ℕ, Text, CaseTables, Option, List, none, some, [], ◌∷◌, lit}
use ai_sre_platform_for_auto.Incident.{Incident, TimelineEntry}
use ai_sre_platform_for_auto.Incident.Service.{
  Ports, create_incident, create_incident_from_health, list_incidents, get_incident,
  assign_incident, resolve_incident, close_incident, get_timeline,
}
use ai_sre_platform_for_auto.Api.{
  Response, status_response, found_response, create_response, health_response, bare_response,
  respond,
}

-- `payload.source or "MANUAL"`
abbrev source_or_manual : Option Text → Text
source_or_manual none = lit "MANUAL"
source_or_manual (some []) = lit "MANUAL"
source_or_manual (some (c ∷ s)) = c ∷ s

module _ {S Float : Type 0} (tables : CaseTables) (ports : Ports S Float) where
  unfoldable pub create_endpoint :
      Text → Text → Text → ℕ → Option Text → S → Response (Incident Float) × S
  unfolding respond
  create_endpoint title description severity server_id source = respond create_response (
      create_incident tables ports title description severity server_id (source_or_manual source)
        none)

  unfoldable pub from_health_endpoint : ℕ → S → Response (Incident Float) × S
  unfolding respond
  from_health_endpoint health_id =
      respond health_response (create_incident_from_health tables ports health_id)

  unfoldable pub list_endpoint : ℕ → ℕ → S → Response (List (Incident Float)) × S
  unfolding respond
  list_endpoint limit offset = respond bare_response (list_incidents tables ports limit offset)

  unfoldable pub get_endpoint : ℕ → S → Response (Incident Float) × S
  unfolding respond
  get_endpoint id = respond found_response (get_incident tables ports id)

  unfoldable pub assign_endpoint : ℕ → Text → S → Response (Incident Float) × S
  unfolding respond
  assign_endpoint id assignee =
      respond found_response (assign_incident tables ports id assignee (lit "operator"))

  unfoldable pub resolve_endpoint : ℕ → Text → Text → S → Response (Incident Float) × S
  unfolding respond
  resolve_endpoint id notes resolved_by =
      respond status_response (resolve_incident tables ports id notes resolved_by (lit "operator"))

  unfoldable pub close_endpoint : ℕ → S → Response (Incident Float) × S
  unfolding respond
  close_endpoint id = respond status_response (close_incident tables ports id (lit "operator"))

  unfoldable pub timeline_endpoint : ℕ → S → Response (List TimelineEntry) × S
  unfolding respond
  timeline_endpoint id = respond found_response (get_timeline tables ports id)
