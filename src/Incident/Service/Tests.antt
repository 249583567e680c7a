-- ===== src/Incident/Service/Tests.antt =====
-- `IncidentService` over tables in memory, and its theorems there.
use ai_sre_platform_for_auto.Common.{
  ℕ, ◌+◌, lit, false, Option, none, some, List, [], ◌∷◌, ◌++◌, ◌≡◌, refl, ascii_tables, arith,
  length, show, pos, text_eq, upper, lookup, member,
}
use ai_sre_platform_for_auto.Errors.{Kind, Result, ok, builtin, is_instance, not_found, value_error}
use ai_sre_platform_for_auto.Api.{http_exception}
use ai_sre_platform_for_auto.Api.Incidents.{status_endpoint, Moved, status_endpoint_lem}
use ai_sre_platform_for_auto.Incident.Lifecycle.{Edge}
use ai_sre_platform_for_auto.Repository.{Repository, Keyed, IsRepository, key_or}
use ai_sre_platform_for_auto.Repository.Memory.{memory, read, memory-IsRepository}
use ai_sre_platform_for_auto.Server.{Server}
use ai_sre_platform_for_auto.Health.{ServerHealth}
use ai_sre_platform_for_auto.Incident.{Incident, TimelineEntry, allowed, enter, transition_to}
use ai_sre_platform_for_auto.Incident.Service.{
  Ports, update_status, create_incident, resolve_incident, close_incident, record_timeline,
}
use ai_sre_platform_for_auto.Incident.Service.Contract.{
  Works, incident_key, settled, IsIncidentRepository,
}
use ai_sre_platform_for_auto.Incident.Service.Request.{
  Request, create, update, resolve, close, perform, Atomic, perform-Atomic,
}
use ai_sre_platform_for_auto.Incident.Service.Invariant.{
  AllCoherent, IsCoherent, OnSome, serve, serve-AllCoherent, successes, serve-timeline,
}
use ai_sre_platform_for_auto.Common.{Text, ap, sym}
use ai_sre_platform_for_auto.Common.{◌⊎◌}

record Tables : Type 0 where
  incidents : List (Option (Incident ℕ))
  entries : List (Option TimelineEntry)
  log : List TimelineEntry
  servers : List (Option (Server ℕ))
  healths : List (Option (ServerHealth ℕ))
  clock : ℕ

abbrev server_key : Keyed (Server ℕ)
server_key = record { id_of = λ e. e.id; with_id = λ e n. record e { id = some n } }

abbrev health_key : Keyed (ServerHealth ℕ)
health_key = record { id_of = λ e. e.id; with_id = λ e n. record e { id = some n } }

abbrev put_incidents : Tables → List (Option (Incident ℕ)) → Tables
put_incidents s l = record s { incidents = l; clock = s.clock + 1 }

abbrev log_entry : Tables → TimelineEntry → Tables
log_entry s e = record s {
  log = s.log ++ record e { id = some (length s.log) } ∷ [];
  clock = s.clock + 1;
}

abbrev timeline_table : Repository Tables TimelineEntry
timeline_table = record {
  save = λ e s. (ok (record e { id = some (length s.log) }), log_entry s e);
  get_by_id = λ n s. (ok none, s);
  get_all = λ limit offset s. (ok s.log, s);
  delete = λ n s. (ok false, s);
}

abbrev ports : Ports Tables ℕ
ports = record {
  incident_repository = memory incident_key (λ s. s.incidents) put_incidents;
  timeline_repository = timeline_table;
  get_by_incident_id = λ n s. (ok s.log, s);
  server_repository = memory server_key (λ s. s.servers) (λ s l. record s { servers = l });
  health_repository = memory health_key (λ s. s.healths) (λ s l. record s { healths = l });
  now = λ s. s.clock;
  show_float = show;
}

abbrev as_repository :
    IsRepository incident_key ports.incident_repository
      (read incident_key (λ s. s.incidents) put_incidents)
as_repository =
    memory-IsRepository incident_key (λ s. s.incidents) put_incidents (λ s l. refl) (λ e n. refl)

-- This repository never raises.
abbrev kept :
    IsIncidentRepository ports.incident_repository
      (read incident_key (λ s. s.incidents) put_incidents)
kept = record {
  fresh = as_repository.fresh;
  after = as_repository.after;
  rejects = λ s i. none;
  fresh_unused = as_repository.fresh_unused;
  named = as_repository.named;
  reads = as_repository.reads;
  accepts_new = λ s i h. refl;
  foreign = λ s i h. cc;
  saves = as_repository.saves;
  stores = as_repository.stores;
}

abbrev works : Works ports
works = record {
  stored = read incident_key (λ s. s.incidents) put_incidents;
  timeline = λ s. s.log;
  servers = read server_key (λ s. s.servers) (λ s l. record s { servers = l });
  healths = read health_key (λ s. s.healths) (λ s l. record s { healths = l });
  incidents = kept;
  reads_server = λ s n. refl;
  reads_health = λ s n. refl;
  entry_id = λ s. length s.log;
  after_entry = log_entry;
  logs = λ s e. refl;
  logged = λ s e. refl;
  log_keeps = λ s e n. refl;
  save_keeps = λ s i. refl;
  log_later = λ s e. omega arith;
  save_later = λ s i. omega arith;
}

abbrev web : Server ℕ
web = record {
  id = none;
  hostname = lit "web-1";
  ip_address = lit "10.0.0.1";
  operating_system = lit "linux";
  cpu_cores = pos 4;
  memory_gb = 16;
  created_at = none;
  updated_at = none;
}

abbrev empty_tables : Tables
empty_tables = record {
  incidents = [];
  entries = [];
  log = [];
  servers = some web ∷ [];
  healths = [];
  clock = 0;
}

abbrev requests : List (Request ℕ)
requests =
    create (lit "down") (lit "web-1 is down") (lit "CRITICAL") 0 (lit "MANUAL") none
    ∷ update 0 (lit "acknowledged") (lit "ann")
    ∷ close 0 (lit "ann")
    ∷ update 0 (lit "IN_PROGRESS") (lit "ann")
    ∷ resolve 0 (lit "restarted") (lit "ann") (lit "ann")
    ∷ close 0 (lit "ann")
    ∷ []

run_incidents : Unit {0}
unfolding lit text_eq upper lookup member allowed enter transition_to perform create_incident
    update_status resolve_incident close_incident record_timeline serve successes show
run_incidents = tt

-- Closing an incident that is only acknowledged raises; the other five requests succeed.
serve_tests :
    (successes ascii_tables ports works empty_tables requests ≡ 5)
    × (length (serve ascii_tables ports works empty_tables requests).log ≡ 5)
unfolding run_incidents
serve_tests = (refl, refl)

empty-AllCoherent : AllCoherent ascii_tables ports works empty_tables
empty-AllCoherent n = tt

serve-AllCoherent_example :
    OnSome
      (IsCoherent (serve ascii_tables ports works empty_tables requests).clock)
      (works.stored (serve ascii_tables ports works empty_tables requests) 0)
serve-AllCoherent_example =
    serve-AllCoherent ascii_tables ports works empty_tables requests empty-AllCoherent 0

serve-timeline_example :
    (added : List TimelineEntry) × (works.timeline
        (serve ascii_tables ports works empty_tables requests)
      ≡ works.timeline empty_tables ++ added)
    × (length added ≡ successes ascii_tables ports works empty_tables requests)
serve-timeline_example = serve-timeline ascii_tables ports works empty_tables requests

abbrev down : Incident ℕ
down = record {
  id = some 0;
  title = lit "down";
  description = lit "web-1 is down";
  severity = lit "CRITICAL";
  status = lit "OPEN";
  source = lit "MANUAL";
  server_id = 0;
  findings = [];
  created_at = 0;
  acknowledged_at = none;
  resolved_at = none;
  closed_at = none;
  assigned_to = none;
  resolution_notes = none;
}

abbrev one_incident : Tables
one_incident = record empty_tables { incidents = some down ∷ [] }

-- The same tables behind a repository that raises when a stored incident was saved again.
abbrev refused_key : Option ℕ → Option (Kind × Text)
refused_key none = none
refused_key (some n) = some (builtin, lit "not persistent")

abbrev kept_only : Incident ℕ → Option (Kind × Text)
kept_only i = refused_key i.id

abbrev raising : Ports Tables ℕ
raising = record ports {
  incident_repository = record ports.incident_repository {
    save = λ i s.
        let (r, s') = ports.incident_repository.save i s in
        (
          settled (kept_only i) (record i { id = some (key_or i.id (works.incidents.fresh s)) }),
          s',
        );
  };
}

kept_only-new : (i : Incident ℕ) → i.id ≡ none → kept_only i ≡ none
kept_only-new i h = rw h refl

abbrev kind_of : Option (Kind × Text) → Kind
kind_of none = builtin
kind_of (some (k, m)) = k

kept_only-builtin :
    (o : Option ℕ) {k : Kind} {m : Text}
    → refused_key o ≡ some (k, m)
    → (is_instance k not_found ≡ false) × (is_instance k value_error ≡ false)
unfolding is_instance
kept_only-builtin none h = cc
kept_only-builtin (some n) {k = k} h =
    let e : builtin ≡ k = ap kind_of h in (rw (sym e) refl, rw (sym e) refl)

abbrev raising_works : Works raising
raising_works = record {
  stored = works.stored;
  timeline = works.timeline;
  servers = works.servers;
  healths = works.healths;
  incidents = record {
    fresh = works.incidents.fresh;
    after = works.incidents.after;
    rejects = λ s i. kept_only i;
    fresh_unused = works.incidents.fresh_unused;
    named = works.incidents.named;
    reads = works.incidents.reads;
    accepts_new = λ s i h. kept_only-new i h;
    foreign = λ s i h. kept_only-builtin i.id h;
    saves = λ s i.
        ap {B = Result (Incident ℕ) × Tables}
          (λ p. (
            settled (kept_only i) (record i { id = some (key_or i.id (works.incidents.fresh s)) }),
            p.1,
          ))
          (works.incidents.saves s i);
    stores = works.incidents.stores;
  };
  reads_server = works.reads_server;
  reads_health = works.reads_health;
  entry_id = works.entry_id;
  after_entry = works.after_entry;
  logs = works.logs;
  logged = works.logged;
  log_keeps = works.log_keeps;
  save_keeps = works.save_keeps;
  log_later = works.log_later;
  save_later = works.save_later;
}

perform-Atomic_example :
    Atomic ascii_tables raising raising_works one_incident
      (perform ascii_tables raising (update 0 (lit "acknowledged") (lit "ann")) one_incident)
perform-Atomic_example =
    perform-Atomic ascii_tables raising raising_works one_incident
      (update 0 (lit "acknowledged") (lit "ann"))

status_endpoint_lem_example :
    ((raising_works.stored one_incident 0 ≡ none)
      × ((m : Text) × (status_endpoint ascii_tables raising 0 (lit "acknowledged") one_incident
            ≡ (http_exception 404 m, one_incident))))
    ⊎ ((i : Incident ℕ) × (raising_works.stored one_incident 0 ≡ some i)
        × ((¬ Edge (upper ascii_tables i.status) (upper ascii_tables (lit "acknowledged"))
              × ((m : Text) × (status_endpoint ascii_tables raising 0
                      (lit "acknowledged")
                      one_incident
                    ≡ (http_exception 400 m, one_incident))))
            ⊎ (Edge (upper ascii_tables i.status) (upper ascii_tables (lit "acknowledged"))
                × Moved ascii_tables raising raising_works one_incident 0
                    (enter i (upper ascii_tables (lit "acknowledged")) 0)
                    (status_endpoint ascii_tables raising 0 (lit "acknowledged") one_incident))))
status_endpoint_lem_example =
    status_endpoint_lem ascii_tables raising raising_works one_incident 0 (lit "acknowledged")
