-- ===== src/Incident/Service/Contract.antt =====
-- What `IncidentService` relies on in its repositories and in the clock, while the database works.
-- The class behind the incident repository (src/infrastructure/repositories/postgres_incident_repository.py)
-- commits what it saves and then reads it again; that second step may raise for an incident that
-- came with a key, since `merge` leaves the object that it refreshes outside the session.
use ai_sre_platform_for_auto.Common.{
  ℕ, false, Text, none, ◌==◌, if◌then◌else◌, ◌≤◌, Option, some, List, [], ◌∷◌, ◌++◌, ◌≡◌,
}
use ai_sre_platform_for_auto.Errors.{Kind, Result, ok, raise, is_instance, not_found, value_error}
use ai_sre_platform_for_auto.Repository.{Keyed, Repository, key_or}
use ai_sre_platform_for_auto.Server.{Server}
use ai_sre_platform_for_auto.Health.{ServerHealth}
use ai_sre_platform_for_auto.Incident.{Incident, TimelineEntry}
use ai_sre_platform_for_auto.Incident.Service.{Ports}

abbrev pub incident_key : {Float : Type 0} → Keyed (Incident Float)
incident_key = record { id_of = λ i. i.id; with_id = λ i n. record i { id = some n } }

-- What a save hands back, once it has committed.
abbrev pub settled : {E : Type 0} → Option (Kind × Text) → E → Result E
settled none e = ok e
settled (some (k, message)) e = raise k message

-- The incident repository: `get_by_id` reads what is stored under the key that an incident
-- carries, and `save` stores the incident under its key, or under an unused one, and nothing else.
-- For a new incident it returns what it stored; for another one it returns that or raises, after the
-- write.
pub record IsIncidentRepository {S Float : Type 0} (repo : Repository S (Incident Float))
    (stored : S → ℕ → Option (Incident Float)) : Type 0 where
  pub fresh : S → ℕ
  pub after : S → Incident Float → S
  -- the exception that leaves a save
  pub rejects : S → Incident Float → Option (Kind × Text)
  pub fresh_unused : (s : S) → stored s (fresh s) ≡ none
  pub named : (s : S) (n : ℕ) (i : Incident Float) → stored s n ≡ some i → i.id ≡ some n
  pub reads : (s : S) (n : ℕ) → repo.get_by_id n s ≡ (ok (stored s n), s)
  pub accepts_new : (s : S) (i : Incident Float) → i.id ≡ none → rejects s i ≡ none
  -- it is one of SQLAlchemy's, which are neither of the program's classes nor a ValueError
  pub foreign :
      (s : S) (i : Incident Float) {k : Kind} {message : Text}
      → rejects s i ≡ some (k, message)
      → (is_instance k not_found ≡ false) × (is_instance k value_error ≡ false)
  pub saves :
      (s : S) (i : Incident Float)
      → repo.save i s
        ≡ (settled (rejects s i) (record i { id = some (key_or i.id (fresh s)) }), after s i)
  pub stores :
      (s : S) (i : Incident Float) (m : ℕ)
      → stored (after s i) m ≡ (
          if m == key_or i.id (fresh s)
          then some (record i { id = some (key_or i.id (fresh s)) })
          else stored s m)

-- `stored` and `timeline` are the tables as a reader sees them.
pub record Works {S Float : Type 0} (ports : Ports S Float) : Type 0 where
  pub stored : S → ℕ → Option (Incident Float)
  pub timeline : S → List TimelineEntry
  pub servers : S → ℕ → Option (Server Float)
  pub healths : S → ℕ → Option (ServerHealth Float)
  pub incidents : IsIncidentRepository ports.incident_repository stored
  pub reads_server : (s : S) (n : ℕ) → ports.server_repository.get_by_id n s ≡ (ok (servers s n), s)
  pub reads_health : (s : S) (n : ℕ) → ports.health_repository.get_by_id n s ≡ (ok (healths s n), s)
  -- an entry of the timeline gets a key and is added at the end
  pub entry_id : S → ℕ
  pub after_entry : S → TimelineEntry → S
  pub logs :
      (s : S) (e : TimelineEntry)
      → ports.timeline_repository.save e s
        ≡ (ok (record e { id = some (entry_id s) }), after_entry s e)
  pub logged :
      (s : S) (e : TimelineEntry)
      → timeline (after_entry s e) ≡ timeline s ++ record e { id = some (entry_id s) } ∷ []
  -- the two tables are apart, and the clock does not run backwards
  pub log_keeps : (s : S) (e : TimelineEntry) (n : ℕ) → stored (after_entry s e) n ≡ stored s n
  pub save_keeps : (s : S) (i : Incident Float) → timeline (incidents.after s i) ≡ timeline s
  pub log_later : (s : S) (e : TimelineEntry) → ports.now s ≤ ports.now (after_entry s e)
  pub save_later : (s : S) (i : Incident Float) → ports.now s ≤ ports.now (incidents.after s i)
