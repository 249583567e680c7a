-- ===== src/Incident/Service/Request.antt =====
-- The operations of `IncidentService` that write, as one function of a request, and what
-- each of them leaves (src/application/services/incident_service.py).
use ai_sre_platform_for_auto.Common.{
  ℕ, Text, lit, Option, none, some, List, ◌++◌, ◌≡◌, refl, ◌⊎◌, inl, inr, CaseTables, arith, show,
  Option-cases,
}
use ai_sre_platform_for_auto.Errors.{Kind, Result, ok, raise, not_found}
use ai_sre_platform_for_auto.Effects.{Exec, pure, ◌>>=◌, ◌>>◌}
use ai_sre_platform_for_auto.Health.{Finding, ServerHealth}
use ai_sre_platform_for_auto.Incident.{Incident, transition_to, enter}
use ai_sre_platform_for_auto.Incident.Factory.{create_from_health}
use ai_sre_platform_for_auto.Incident.Service.{
  Ports, record_timeline, get_incident, assign_incident, update_status, resolve_incident,
  close_incident, create_incident, create_incident_from_health, or_none, saved_id,
}
use ai_sre_platform_for_auto.Incident.Service.Contract.{Works}
use ai_sre_platform_for_auto.Incident.Service.Effect.{
  keyed, entry, committed, save_and_log, get_incident-some, key-stored,
}

pub data Request (Float : Type 0) : Type 0 where
  create : Text → Text → Text → ℕ → Text → Option (List (Finding Float)) → Request Float
  from_health : ℕ → Request Float
  assign : ℕ → Text → Text → Request Float
  update : ℕ → Text → Text → Request Float
  resolve : ℕ → Text → Text → Text → Request Float
  close : ℕ → Text → Request Float

module _ {S Float : Type 0} (tables : CaseTables) (ports : Ports S Float) where
  unfoldable pub perform : Request Float → Exec S (Incident Float)
  perform (create title description severity server_id source findings) =
      create_incident tables ports title description severity server_id source findings
  perform (from_health health_id) = create_incident_from_health tables ports health_id
  perform (assign n assignee actor) = assign_incident tables ports n assignee actor
  perform (update n new_status actor) = update_status tables ports n new_status actor
  perform (resolve n notes resolved_by actor) =
      resolve_incident tables ports n notes resolved_by actor
  perform (close n actor) = close_incident tables ports n actor

-- Two incidents with one key, one status and the same dates.
pub record SameLife {Float : Type 0} (i j : Incident Float) : Type 0 where
  pub id : i.id ≡ j.id
  pub status : i.status ≡ j.status
  pub created_at : i.created_at ≡ j.created_at
  pub acknowledged_at : i.acknowledged_at ≡ j.acknowledged_at
  pub resolved_at : i.resolved_at ≡ j.resolved_at
  pub closed_at : i.closed_at ≡ j.closed_at

module _ {S Float : Type 0} (tables : CaseTables) (ports : Ports S Float)
    (works : Works ports) where
  -- What an operation may save: a new open incident, or one that is stored, with its status and
  -- dates kept, or moved by one transition.
  pub data Change (s : S) (i : Incident Float) : Type 0 where
    opened :
        i.id ≡ none
        → i.status ≡ lit "OPEN"
        → i.created_at ≡ ports.now s
        → i.acknowledged_at ≡ none
        → i.resolved_at ≡ none
        → i.closed_at ≡ none
        → Change s i
    edited : (n : ℕ) (o : Incident Float) → works.stored s n ≡ some o → SameLife i o → Change s i
    moved :
        (n : ℕ) (o j : Incident Float) (new_status : Text)
        → works.stored s n ≡ some o
        → transition_to tables o new_status (ports.now s) ≡ ok j
        → SameLife i j
        → Change s i

  -- How a request ends.
  pub data Atomic (s : S) (m : Result (Incident Float) × S) : Type 0 where
    -- it raises, and nothing is written
    failed : (k : Kind) (message : Text) → m ≡ (raise k message, s) → Atomic s m
    -- it saves one incident and logs the entry of that incident
    saved :
        (i : Incident Float) (event message actor : Text)
        → m ≡ (
          ok (keyed tables ports works s i),
          committed tables ports works s i event message actor,
        )
        → Change s i
        → works.incidents.rejects s i ≡ none
        → Atomic s m
    -- it saves one incident that was stored before, and the repository raises after the write
    unlogged :
        (i : Incident Float) (k : Kind) (message : Text)
        → m ≡ (raise k message, works.incidents.after s i)
        → Change s i
        → works.incidents.rejects s i ≡ some (k, message)
        → ¬ (i.id ≡ none)
        → Atomic s m

  SameLife-edit :
      (i : Incident Float) (assignee notes : Option Text)
      → SameLife (record i { assigned_to = assignee; resolution_notes = notes }) i
  SameLife-edit i assignee notes = record {
    id = refl;
    status = refl;
    created_at = refl;
    acknowledged_at = refl;
    resolved_at = refl;
    closed_at = refl;
  }

  not_new :
      (s : S) (i : Incident Float) (e : Kind × Text)
      → works.incidents.rejects s i ≡ some e
      → ¬ (i.id ≡ none)
  not_new s i e h new = cc (works.incidents.accepts_new s i new)

  -- A change of a stored incident is saved, and logged where the save returns.
  store-Atomic :
      (s : S) (n : ℕ) (o i : Incident Float) (event message actor : Text)
      → works.stored s n ≡ some o
      → i.id ≡ o.id
      → Change s i
      → Atomic s (
          (do
            kept ← ports.incident_repository.save i
            record_timeline tables ports n event message actor
            pure kept)
            s)
  store-Atomic s n o i event message actor h e change =
      elim (save_and_log tables ports works s i n event message actor
        (key-stored tables ports works s n o i h e)) [
          | inl (r, f) ↦ Atomic.saved i event message actor f change r
          | inr (k, m, r, f) ↦ Atomic.unlogged i k m f change r (not_new s i (k, m) r)
        ]

  -- A request that needs a stored incident fails when there is none.
  missing :
      (s : S) (n : ℕ)
      → works.stored s n ≡ none
      → get_incident tables ports n s
        ≡ (raise not_found (lit "Incident with ID " ++ (show n ++ lit " not found.")), s)
  unfolding get_incident
  missing s n h = rw (works.incidents.reads s n, h)

  assign-Atomic :
      (s : S) (n : ℕ) (assignee actor : Text)
      → Atomic s (assign_incident tables ports n assignee actor s)
  unfolding assign_incident
  assign-Atomic s n assignee actor = elim (Option-cases (works.stored s n)) [
    | inl h ↦ rw (missing s n h) (Atomic.failed _ _ refl)
    | inr (i, h) ↦ rw (get_incident-some tables ports works s n i h) (
        store-Atomic s n i (record i { assigned_to = some assignee }) (lit "ASSIGNED") _ actor h
          refl (Change.edited n i h (SameLife-edit i (some assignee) i.resolution_notes)))
  ]

  Result-cases :
      (r : Result (Incident Float))
      → ((i : Incident Float) × (r ≡ ok i)) ⊎ ((k : Kind) × (m : Text) × (r ≡ raise k m))
  Result-cases (ok i) = inl (i, refl)
  Result-cases (raise k m) = inr (k, m, refl)

  transition_to-id :
      (i j : Incident Float) (new_status : Text) (now : ℕ)
      → transition_to tables i new_status now ≡ ok j
      → j.id ≡ i.id
  unfolding transition_to enter
  transition_to-id i j new_status now e = ground arith

  update-Atomic :
      (s : S) (n : ℕ) (new_status actor : Text)
      → Atomic s (update_status tables ports n new_status actor s)
  unfolding update_status
  update-Atomic s n new_status actor = elim (Option-cases (works.stored s n)) [
    | inl h ↦ rw (missing s n h) (Atomic.failed _ _ refl)
    | inr (i, h) ↦ elim (Result-cases (transition_to tables i new_status (ports.now s))) [
      | inl (j, e) ↦
          rw (get_incident-some tables ports works s n i h, e)
            (store-Atomic s n i j (lit "STATUS_CHANGED") _ actor h
              (transition_to-id i j new_status (ports.now s) e)
              (Change.moved n i j new_status h e
                (SameLife-edit j j.assigned_to j.resolution_notes)))
      | inr (k, m, e) ↦
          rw (get_incident-some tables ports works s n i h, e) (Atomic.failed k m refl)
    ]
  ]

  resolve-Atomic :
      (s : S) (n : ℕ) (notes resolved_by actor : Text)
      → Atomic s (resolve_incident tables ports n notes resolved_by actor s)
  unfolding resolve_incident
  resolve-Atomic s n notes resolved_by actor = elim (Option-cases (works.stored s n)) [
    | inl h ↦ rw (missing s n h) (Atomic.failed _ _ refl)
    | inr (i, h) ↦ elim (Result-cases (transition_to tables i (lit "RESOLVED") (ports.now s))) [
      | inl (j, e) ↦
          rw (get_incident-some tables ports works s n i h, e)
            (store-Atomic s n i (record j { resolution_notes = some notes }) (lit "RESOLVED") _
              actor h (transition_to-id i j (lit "RESOLVED") (ports.now s) e)
              (Change.moved n i j (lit "RESOLVED") h e
                (SameLife-edit j j.assigned_to (some notes))))
      | inr (k, m, e) ↦
          rw (get_incident-some tables ports works s n i h, e) (Atomic.failed k m refl)
    ]
  ]

  close-Atomic : (s : S) (n : ℕ) (actor : Text) → Atomic s (close_incident tables ports n actor s)
  unfolding close_incident
  close-Atomic s n actor = elim (Option-cases (works.stored s n)) [
    | inl h ↦ rw (missing s n h) (Atomic.failed _ _ refl)
    | inr (i, h) ↦ elim (Result-cases (transition_to tables i (lit "CLOSED") (ports.now s))) [
      | inl (j, e) ↦
          rw (get_incident-some tables ports works s n i h, e)
            (store-Atomic s n i j (lit "CLOSED") _ actor h
              (transition_to-id i j (lit "CLOSED") (ports.now s) e)
              (Change.moved n i j (lit "CLOSED") h e
                (SameLife-edit j j.assigned_to j.resolution_notes)))
      | inr (k, m, e) ↦
          rw (get_incident-some tables ports works s n i h, e) (Atomic.failed k m refl)
    ]
  ]

  -- The same for a new incident, whose key is the one that it was given.
  create_and_log :
      (s : S) (i : Incident Float) (event message actor : Text)
      → i.id ≡ none
      → Change s i
      → Atomic s (
          (do
            kept ← ports.incident_repository.save i
            n ← saved_id tables ports kept
            record_timeline tables ports n event message actor
            pure kept)
            s)
  unfolding record_timeline saved_id
  create_and_log s i event message actor new change =
      let r = works.incidents.accepts_new s i new in
      Atomic.saved i event message actor
        (rw (works.incidents.saves s i, r)
          (rw (
            works.logs (works.incidents.after s i)
              (entry tables ports works s i event message actor))))
        change r

  module _ (s : S) (title description severity : Text) (server_id : ℕ) (source : Text)
      (findings : Option (List (Finding Float))) where
    draft : Incident Float
    draft = record {
      id = none;
      title = title;
      description = description;
      severity = severity;
      status = lit "OPEN";
      source = source;
      server_id = server_id;
      findings = or_none tables ports findings;
      created_at = ports.now s;
      acknowledged_at = none;
      resolved_at = none;
      closed_at = none;
      assigned_to = none;
      resolution_notes = none;
    }

    create-Atomic :
        Atomic s
          (create_incident tables ports title description severity server_id source findings s)
    unfolding create_incident draft
    create-Atomic = elim (Option-cases (works.servers s server_id)) [
      | inl h ↦ rw (works.reads_server s server_id, h) (Atomic.failed _ _ refl)
      | inr (server, h) ↦
          rw (works.reads_server s server_id, h)
            (create_and_log s draft (lit "CREATED") (lit "Incident manually created.")
              (lit "system") refl (Change.opened refl refl refl refl refl refl))
    ]

  health-opened :
      (s : S) (health : ServerHealth Float) (hostname : Text) (i : Incident Float)
      → create_from_health tables ports.show_float health hostname (ports.now s) ≡ ok i
      → Change s i
  unfolding create_from_health
  health-opened s health hostname i e =
      Change.opened (ground arith) (ground arith) (ground arith) (ground arith) (ground arith)
        (ground arith)

  health-new :
      (s : S) (health : ServerHealth Float) (hostname : Text) (i : Incident Float)
      → create_from_health tables ports.show_float health hostname (ports.now s) ≡ ok i
      → i.id ≡ none
  unfolding create_from_health
  health-new s health hostname i e = ground arith

  from_health-Atomic :
      (s : S) (health_id : ℕ) → Atomic s (create_incident_from_health tables ports health_id s)
  unfolding create_incident_from_health
  from_health-Atomic s health_id = elim (Option-cases (works.healths s health_id)) [
    | inl h ↦ rw (works.reads_health s health_id, h) (Atomic.failed _ _ refl)
    | inr (health, h) ↦ elim (Option-cases (works.servers s health.server_id)) [
      | inl g ↦
          rw (works.reads_health s health_id, h, works.reads_server s health.server_id, g)
            (Atomic.failed _ _ refl)
      | inr (server, g) ↦
          elim (Result-cases
            (create_from_health tables ports.show_float health server.hostname (ports.now s))) [
              | inl (i, e) ↦
                  rw
                    (works.reads_health s health_id, h, works.reads_server s health.server_id, g, e)
                    (create_and_log s i (lit "CREATED") _ (lit "system")
                      (health-new s health server.hostname i e)
                      (health-opened s health server.hostname i e))
              | inr (k, m, e) ↦
                  rw
                    (works.reads_health s health_id, h, works.reads_server s health.server_id, g, e)
                    (Atomic.failed k m refl)
            ]
    ]
  ]

  -- A request raises and leaves the tables as they were; or it saves one incident, by a change that
  -- the state machine allows, logs one entry, whose incident is the saved one, and returns the
  -- incident; or it saves so an incident that was stored before, and then the repository raises: that
  -- exception leaves the request, the write stays, and no entry is logged.
  pub perform-Atomic : (s : S) (r : Request Float) → Atomic s (perform tables ports r s)
  unfolding perform
  perform-Atomic s (create title description severity server_id source findings) =
      create-Atomic s title description severity server_id source findings
  perform-Atomic s (from_health health_id) = from_health-Atomic s health_id
  perform-Atomic s (assign n assignee actor) = assign-Atomic s n assignee actor
  perform-Atomic s (update n new_status actor) = update-Atomic s n new_status actor
  perform-Atomic s (resolve n notes resolved_by actor) = resolve-Atomic s n notes resolved_by actor
  perform-Atomic s (close n actor) = close-Atomic s n actor
