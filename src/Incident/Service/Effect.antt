-- ===== src/Incident/Service/Effect.antt =====
-- What each operation of `IncidentService` leaves in the tables
-- (src/application/services/incident_service.py).
use ai_sre_platform_for_auto.Common.{
  Option-cases, inl, inr, ◌⊎◌, ℕ, Text, none, some, ◌≡◌, CaseTables,
}
use ai_sre_platform_for_auto.Errors.{Kind, ok, raise}
use ai_sre_platform_for_auto.Effects.{pure, ◌>>=◌, ◌>>◌}
use ai_sre_platform_for_auto.Repository.{key_or}
use ai_sre_platform_for_auto.Incident.{Incident, TimelineEntry}
use ai_sre_platform_for_auto.Incident.Service.{Ports, record_timeline, get_incident}
use ai_sre_platform_for_auto.Incident.Service.Contract.{Works}

module _ {S Float : Type 0} (tables : CaseTables) (ports : Ports S Float)
    (works : Works ports) where
  abbrev pub key : S → Incident Float → ℕ
  key s i = key_or i.id (works.incidents.fresh s)

  abbrev pub keyed : S → Incident Float → Incident Float
  keyed s i = record i { id = some (key s i) }

  -- The entry that an operation logs after the incident `i` was saved in `s`: it names that
  -- incident.
  abbrev pub entry : S → Incident Float → Text → Text → Text → TimelineEntry
  entry s i event message actor = record {
    id = none;
    incident_id = key s i;
    event_type = event;
    message = message;
    timestamp = ports.now (works.incidents.after s i);
    actor = some actor;
  }

  abbrev pub committed : S → Incident Float → Text → Text → Text → S
  committed s i event message actor =
      works.after_entry (works.incidents.after s i) (entry s i event message actor)

  -- Where the save returns, the entry is logged and the incident returned; where it raises, the
  -- incident is stored and no entry is logged.
  pub save_and_log :
      (s : S) (i : Incident Float) (n : ℕ) (event message actor : Text)
      → n ≡ key s i
      → ((works.incidents.rejects s i ≡ none)
          × ((do
            saved ← ports.incident_repository.save i
            record_timeline tables ports n event message actor
            pure saved)
                s
              ≡ (ok (keyed s i), committed s i event message actor)))
        ⊎ ((k : Kind) × (m : Text) × (works.incidents.rejects s i ≡ some (k, m))
            × ((do
              saved ← ports.incident_repository.save i
              record_timeline tables ports n event message actor
              pure saved)
                  s
                ≡ (raise k m, works.incidents.after s i)))
  unfolding record_timeline
  save_and_log s i n event message actor e = elim (Option-cases (works.incidents.rejects s i)) [
    | inl h ↦ inl (
      h,
      rw (works.incidents.saves s i, h, e)
          (rw (works.logs (works.incidents.after s i) (entry s i event message actor))),
    )
    | inr ((k, m), h) ↦ inr (k, m, h, rw (works.incidents.saves s i, h))
  ]

  pub get_incident-some :
      (s : S) (n : ℕ) (i : Incident Float)
      → works.stored s n ≡ some i
      → get_incident tables ports n s ≡ (ok i, s)
  unfolding get_incident
  get_incident-some s n i h = rw (works.incidents.reads s n, h)

  -- A stored incident is saved under the key that it is stored under.
  pub key-stored :
      (s : S) (n : ℕ) (i j : Incident Float) → works.stored s n ≡ some i → j.id ≡ i.id → n ≡ key s j
  key-stored s n i j h e = rw (e, works.incidents.named s n i h)
