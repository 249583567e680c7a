-- ===== src/Incident/Lifecycle/Tests.antt =====
-- The state machine of `transition_to` at concrete incidents, and its theorems there.
use ai_sre_platform_for_auto.Common.{
  ℕ, lit, none, some, [], ◌≡◌, refl, ◌↔◌, ascii_tables, upper, text_eq, lookup, member, arith,
}
use ai_sre_platform_for_auto.Errors.{ok}
use ai_sre_platform_for_auto.Incident.{Incident, allowed, enter, transition_to}
use ai_sre_platform_for_auto.Incident.Lifecycle.{
  Edge, transition_to-ok_iff, Stage, opened, IsAt, History, begun, moved, History-IsAt,
}

abbrev fresh : Incident ℕ
fresh = record {
  id = some 1;
  title = lit "down";
  description = lit "web-1 is down";
  severity = lit "CRITICAL";
  status = lit "OPEN";
  source = lit "MANUAL";
  server_id = 1;
  findings = [];
  created_at = 3;
  acknowledged_at = none;
  resolved_at = none;
  closed_at = none;
  assigned_to = none;
  resolution_notes = none;
}

abbrev taken : Incident ℕ
taken = record fresh { status = lit "ACKNOWLEDGED"; acknowledged_at = some 5 }

run_transition : Unit {0}
unfolding lit upper text_eq lookup member allowed enter transition_to
run_transition = tt

acknowledges : transition_to ascii_tables fresh (lit "Acknowledged") 5 ≡ ok taken
unfolding run_transition
acknowledges = refl

fresh-IsAt : IsAt opened 3 fresh
fresh-IsAt = record { named = refl; stamps = (omega arith, refl, refl, refl) }

transition_to-ok_iff_example :
    (transition_to ascii_tables fresh (lit "Acknowledged") 5 ≡ ok taken) ↔ (
      Edge (upper ascii_tables (lit "OPEN")) (upper ascii_tables (lit "Acknowledged"))
      × (taken ≡ enter fresh (upper ascii_tables (lit "Acknowledged")) 5))
transition_to-ok_iff_example = transition_to-ok_iff ascii_tables fresh taken (lit "Acknowledged") 5

upper_acknowledged : upper ascii_tables (lit "Acknowledged") ≡ lit "ACKNOWLEDGED"
unfolding run_transition
upper_acknowledged = refl

one_step : History ascii_tables fresh 3 taken 5
one_step = moved (lit "Acknowledged") 5 begun (omega arith) acknowledges

History-IsAt_example : (after : Stage) × IsAt after 5 taken
History-IsAt_example = History-IsAt opened fresh-IsAt one_step
