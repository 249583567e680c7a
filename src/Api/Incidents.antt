-- ===== src/Api/Incidents.antt =====
-- PATCH /incidents/{id}/status of src/presentation/api/v1/incidents.py, over a working database.
use ai_sre_platform_for_auto.Common.{ℕ, Text, [], ◌∷◌, ◌∙◌, sym, lit, none, some, inl, inr, refl}
use ai_sre_platform_for_auto.Errors.{Kind, ok, raise, value_error, is_instance, not_found}
use ai_sre_platform_for_auto.Incident.{
  Incident, TimelineEntry, transition_to, enter, allowed, targets_of,
}
use ai_sre_platform_for_auto.Incident.Lifecycle.{Edge, transition_to-ok_iff}
use ai_sre_platform_for_auto.Incident.Service.{Ports, update_status, get_incident}
use ai_sre_platform_for_auto.Incident.Service.Contract.{Works}
use ai_sre_platform_for_auto.Incident.Service.Effect.{
  keyed, get_incident-some, save_and_log, key-stored, entry,
}
use ai_sre_platform_for_auto.Api.{Response, answer, http_exception, escapes, status_response}
use ai_sre_platform_for_auto.Common.{CaseTables}
use ai_sre_platform_for_auto.Common.{◌≡◌}
use ai_sre_platform_for_auto.Common.{◌⊎◌}
use ai_sre_platform_for_auto.Common.{Bool-cases, upper}
use ai_sre_platform_for_auto.Common.{Option-cases, member}
use ai_sre_platform_for_auto.Incident.{targets_of}
use ai_sre_platform_for_auto.Common.{lookup}
use ai_sre_platform_for_auto.Incident.{allowed}
use ai_sre_platform_for_auto.Common.{ap, arith, ◌++◌}
use ai_sre_platform_for_auto.Common.{show}

module _ {S Float : Type 0} (tables : CaseTables) (ports : Ports S Float) where
  unfoldable pub status_endpoint : ℕ → Text → S → Response (Incident Float) × S
  status_endpoint id status s =
      let (result, s') = update_status tables ports id status (lit "operator") s in
      (status_response result, s')

enter-id :
    {Float : Type 0} (i : Incident Float) (target : Text) (now : ℕ) → (enter i target now).id ≡ i.id
unfolding enter
enter-id i target now = ground arith

refusal : Text → Text → Text
refusal current target = lit "Invalid state transition from " ++ (current ++ (lit " to " ++ target))

transition_to-cases :
    {Float : Type 0} (tables : CaseTables) (i : Incident Float) (status : Text) (now : ℕ)
    → ((j : Incident Float) × (transition_to tables i status now ≡ ok j))
      ⊎ ((m : Text) × (transition_to tables i status now ≡ raise value_error m))
unfolding transition_to refusal
transition_to-cases tables i status now =
    let current = upper tables i.status in
    let target = upper tables status in
    elim (Bool-cases (member target (targets_of (lookup current allowed)))) [
      | inl t ↦ inl (enter i target now, rw t refl)
      | inr f ↦ inr (refusal current target, rw f refl)
    ]

missing : ℕ → Text
missing n = lit "Incident with ID " ++ (show n ++ lit " not found.")

module _ {S Float : Type 0} (tables : CaseTables) (ports : Ports S Float)
    (works : Works ports) where
  update_status-missing :
      (s : S) (n : ℕ) (status actor : Text)
      → works.stored s n ≡ none
      → update_status tables ports n status actor s ≡ (raise not_found (missing n), s)
  unfolding update_status get_incident missing
  update_status-missing s n status actor e = rw (works.incidents.reads s n) (rw e refl)

  update_status-refused :
      (s : S) (n : ℕ) (status actor : Text) (i : Incident Float) (m : Text)
      → works.stored s n ≡ some i
      → transition_to tables i status (ports.now s) ≡ raise value_error m
      → update_status tables ports n status actor s ≡ (raise value_error m, s)
  unfolding update_status
  update_status-refused s n status actor i m e t =
      rw (get_incident-some tables ports works s n i e) (rw t refl)

  keyed-enter :
      (s : S) (n : ℕ) (i : Incident Float) (target : Text) (now : ℕ)
      → works.stored s n ≡ some i
      → keyed tables ports works s (enter i target now)
        ≡ record (enter i target now) { id = some n }
  keyed-enter s n i target now e =
      rw (enter-id i target now) (rw (works.incidents.named s n i e) refl)

  stored-enter :
      (s : S) (n : ℕ) (i : Incident Float) (target : Text)
      → works.stored s n ≡ some i
      → works.stored (works.incidents.after s (enter i target (ports.now s))) n
        ≡ some (record (enter i target (ports.now s)) { id = some n })
  stored-enter s n i target e =
      rw
        (
          works.incidents.stores s (enter i target (ports.now s)) n,
          enter-id i target (ports.now s),
          works.incidents.named s n i e,
        )
        (ground arith)

  -- What a call answers and leaves, for a transition that is an edge.
  abbrev pub Moved : S → ℕ → Incident Float → Response (Incident Float) × S → Type 0
  Moved s n moved p =
      (works.stored p.1 n ≡ some (record moved { id = some n }))
      × (((works.incidents.rejects s moved ≡ none)
            × (p.0 ≡ answer (record moved { id = some n }))
            × ((e : TimelineEntry) × (works.timeline p.1 ≡ works.timeline s ++ e ∷ [])
                × (e.incident_id ≡ n)))
          ⊎ ((k : Kind) × (m : Text) × (works.incidents.rejects s moved ≡ some (k, m))
              × (p.0 ≡ escapes k m)
              × (works.timeline p.1 ≡ works.timeline s)))

  update_status-Moved :
      (s : S) (n : ℕ) (status : Text) (i j : Incident Float)
      → works.stored s n ≡ some i
      → transition_to tables i status (ports.now s) ≡ ok j
      → j ≡ enter i (upper tables status) (ports.now s)
      → Moved s n
          (enter i (upper tables status) (ports.now s))
          (status_endpoint tables ports n status s)
  unfolding status_endpoint update_status status_response
  update_status-Moved s n status i j e t h =
      let moved = enter i (upper tables status) (ports.now s) in
      let key = key-stored tables ports works s n i moved e (enter-id i _ _) in
      let message =
        lit "Incident status transitioned from "
        ++ (i.status ++ (lit " to " ++ (status ++ lit "."))) in
      let logged =
        entry tables ports works s moved (lit "STATUS_CHANGED") message (lit "operator") in
      elim (save_and_log tables ports works s moved n (lit "STATUS_CHANGED") message
        (lit "operator") key) [
          | inl (r, f) ↦
              rw (get_incident-some tables ports works s n i e, t, h, f)
                (
                  works.log_keeps (works.incidents.after s moved) logged n
                      ∙ stored-enter s n i (upper tables status) e,
                  inl (
                    r,
                    ap answer (keyed-enter s n i (upper tables status) (ports.now s) e),
                    (
                      record logged { id = some (works.entry_id (works.incidents.after s moved)) },
                      rw
                          (
                            works.logged (works.incidents.after s moved) logged,
                            works.save_keeps s moved,
                          )
                          refl,
                      sym key,
                    ),
                  ),
                )
          | inr (k, m, r, f) ↦
              let (a, b) = works.incidents.foreign s moved r in
              rw (get_incident-some tables ports works s n i e, t, h, f, a, b)
                (
                  stored-enter s n i (upper tables status) e,
                  inr (k, m, r, refl, works.save_keeps s moved),
                )
        ]

  -- The endpoint answers 404 for an incident that is not stored, and 400 for a transition that is not
  -- one of the four edges, both without a write. Else the incident is stored in its new status: the
  -- endpoint answers it and one entry of that incident is logged, or, where the repository raises
  -- after the write, its exception leaves the endpoint and no entry is logged.
  pub status_endpoint_lem :
      (s : S) (n : ℕ) (status : Text)
      → ((works.stored s n ≡ none)
          × ((m : Text) × (status_endpoint tables ports n status s ≡ (http_exception 404 m, s))))
        ⊎ ((i : Incident Float) × (works.stored s n ≡ some i)
            × ((¬ Edge (upper tables i.status) (upper tables status)
                  × ((m : Text) × (status_endpoint tables ports n status s
                        ≡ (http_exception 400 m, s))))
                ⊎ (Edge (upper tables i.status) (upper tables status)
                    × Moved s n
                        (enter i (upper tables status) (ports.now s))
                        (status_endpoint tables ports n status s))))
  unfolding status_endpoint status_response is_instance
  status_endpoint_lem s n status = elim (Option-cases (works.stored s n)) [
    | inl e ↦ inl (e, (missing n, rw (update_status-missing s n status (lit "operator") e) refl))
    | inr (i, e) ↦ inr (
      i,
      e,
      elim (transition_to-cases tables i status (ports.now s)) [
        | inl (j, t) ↦ inr (
            let (edge, h) = (transition_to-ok_iff tables i j status (ports.now s)).0 t in
            (edge, update_status-Moved s n status i j e t h))
        | inr (m, t) ↦ inl (
          λ edge. ground (
            arith,
            t,
            (transition_to-ok_iff tables i (enter i (upper tables status) (ports.now s)) status
                  (ports.now s)).1
                (edge, refl),
          ),
          (m, rw (update_status-refused s n status (lit "operator") i m e t) refl),
        )
      ],
    )
  ]
