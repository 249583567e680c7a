-- ===== src/Parsing/Service/Sound.antt =====
-- What holds of every unit that the service parser reports.
use ai_sre_platform_for_auto.Common.{
  ℕ, zero, suc, ℤ, pos, negsuc, ◌≡◌, refl, sym, ap, inl, inr, Text, Dict, Option, List, Bool, none,
  some, true, false, [], ◌∷◌, lit, length, split, splitlines, strip, lookup, insert, ends_with,
  text_eq, All, Bool-cases,
}
use ai_sre_platform_for_auto.Errors.{Result, ok, raise}
use ai_sre_platform_for_auto.Parsing.{NumberTables, parse_int, part}
use ai_sre_platform_for_auto.Parsing.Service.{
  ServiceUnit, ServiceMetrics, listed, note_unit, list_units, show_blocks, with_file_state,
  positive, pid_of, prop, enrich, enrich_from, enrich_all, shown, units_of, service_metrics,
  parse_service,
}
use ai_sre_platform_for_auto.Parsing.{columns}
use ai_sre_platform_for_auto.Parsing.{Row}
use ai_sre_platform_for_auto.Common.{leb}
use ai_sre_platform_for_auto.Common.{if◌then◌else◌}
use ai_sre_platform_for_auto.Parsing.{tested}

abbrev pub IsPid : Option ℤ → Type 0
IsPid none = Unit
IsPid (some (pos zero)) = ⊥
IsPid (some (pos (suc n))) = Unit
IsPid (some (negsuc n)) = ⊥

abbrev pub enabled_by : Option Text → Bool
enabled_by none = false
enabled_by (some ufs) = text_eq ufs (lit "enabled")

-- The name is a service's, the process id is positive where there is one, and the unit is enabled
-- exactly when its unit file's state is `enabled`.
abbrev pub IsSound : ServiceUnit → Type 0
IsSound unit =
    (ends_with unit.name (lit ".service") ≡ true)
    × (IsPid unit.main_pid × (unit.is_enabled ≡ enabled_by unit.unit_file_state))

abbrev AllSound : Dict ServiceUnit → Type 0
AllSound = All (λ (name, unit). IsSound unit)

insert-AllSound :
    (key : Text) (unit : ServiceUnit) (d : Dict ServiceUnit)
    → IsSound unit
    → AllSound d
    → AllSound (insert key unit d)
unfolding insert
insert-AllSound key unit [] h hs = (h, tt)
insert-AllSound key unit ((j, v) ∷ d) h (k, hs) = elim (Bool-cases (text_eq j key)) [
  | inl t ↦ rw t (h, hs)
  | inr f ↦ rw f (k, insert-AllSound key unit d h hs)
]

tested-all :
    (n : ℕ) (parts : List Text) (b : Bool) (h : leb n (length parts) ≡ b) (short : Dict ServiceUnit)
    (rest : Row n → Dict ServiceUnit)
    → AllSound short
    → ((row : Row n) → AllSound (rest row))
    → AllSound (tested n parts b h short rest)
unfolding tested
tested-all n parts true h short rest p q = q (record { parts = parts; enough = h })
tested-all n parts false h short rest p q = p

note_unit-AllSound : (line : Text) (d : Dict ServiceUnit) → AllSound d → AllSound (note_unit line d)
unfolding note_unit listed columns
note_unit-AllSound line d hs =
    tested-all 4 (split (strip line)) _ refl d
      (λ row.
        if ends_with (part row 0 refl) (lit ".service")
        then insert (part row 0 refl) (listed row) d
        else d)
      hs
      (λ row. elim (Bool-cases (ends_with (part row 0 refl) (lit ".service"))) [
        | inl t ↦ rw t (insert-AllSound (part row 0 refl) (listed row) d (t, (tt, refl)) hs)
        | inr g ↦ rw g hs
      ])

list_units-AllSound :
    (lines : List Text) (d : Dict ServiceUnit) → AllSound d → AllSound (list_units d lines)
unfolding list_units
list_units-AllSound [] d hs = hs
list_units-AllSound (line ∷ lines) d hs =
    list_units-AllSound lines (note_unit line d) (note_unit-AllSound line d hs)

with_file_state-IsSound :
    (state : Option Text) (unit : ServiceUnit) → IsSound unit → IsSound (with_file_state state unit)
with_file_state-IsSound none unit h = h
with_file_state-IsSound (some ufs) unit (h, (k, l)) = (h, (k, refl))

positive-IsPid : (before read : Option ℤ) → IsPid before → IsPid (positive before read)
positive-IsPid before none h = h
positive-IsPid before (some (pos zero)) h = tt
positive-IsPid before (some (pos (suc n))) h = tt
positive-IsPid before (some (negsuc n)) h = tt

module _ (tables : NumberTables) where
  pid_of-IsPid :
      (before : Option ℤ) (mpid : Option Text) → IsPid before → IsPid (pid_of tables before mpid)
  pid_of-IsPid before none h = h
  pid_of-IsPid before (some mpid) h = positive-IsPid before (parse_int tables mpid) h

  enrich-IsSound :
      (props : Dict Text) (unit : ServiceUnit) → IsSound unit → IsSound (enrich tables props unit)
  unfolding enrich
  enrich-IsSound props unit (h, (k, l)) =
      let (name, (pid, enabled)) =
        with_file_state-IsSound (prop (lit "UnitFileState") props) unit (h, (k, l)) in
      (name, (pid_of-IsPid unit.main_pid (prop (lit "MainPID") props) k, enabled))

  enrich_from-IsSound :
      (props : Option (Dict Text)) (unit : ServiceUnit)
      → IsSound unit
      → IsSound (enrich_from tables props unit)
  enrich_from-IsSound none unit h = h
  enrich_from-IsSound (some []) unit h = h
  enrich_from-IsSound (some (entry ∷ entries)) unit h = enrich-IsSound (entry ∷ entries) unit h

  enrich_all-AllSound :
      (show_data : Dict (Dict Text)) (d : Dict ServiceUnit)
      → AllSound d
      → AllSound (enrich_all tables show_data d)
  unfolding enrich_all
  enrich_all-AllSound show_data [] hs = hs
  enrich_all-AllSound show_data ((name, unit) ∷ d) (h, hs) =
      (enrich_from-IsSound (lookup name show_data) unit h, enrich_all-AllSound show_data d hs)

  shown-AllSound :
      (show_output : Option Text) (d : Dict ServiceUnit)
      → AllSound d
      → AllSound (shown tables show_output d)
  shown-AllSound none d hs = hs
  shown-AllSound (some []) d hs = hs
  shown-AllSound (some (c ∷ s)) d hs =
      enrich_all-AllSound (show_blocks [] [] [] (splitlines (c ∷ s))) d hs

units_of-All : (d : Dict ServiceUnit) → AllSound d → All IsSound (units_of d)
unfolding units_of
units_of-All [] hs = hs
units_of-All ((name, unit) ∷ d) (h, hs) = (h, units_of-All d hs)

abbrev services_of : Result ServiceMetrics → List ServiceUnit
services_of (ok m) = m.services
services_of (raise kind message) = []

service_metrics-All :
    (units : List ServiceUnit) (timestamp : ℕ) (m : ServiceMetrics)
    → All IsSound units
    → service_metrics units timestamp ≡ ok m
    → All IsSound m.services
service_metrics-All [] timestamp m hs e = cc e
service_metrics-All (unit ∷ units) timestamp m hs e = rw (ap services_of (sym e)) hs

-- In every unit that the service parser reports, the name ends in `.service`, the main process id
-- is positive where there is one, and the unit counts as enabled exactly when its unit file's state
-- is `enabled`.
pub parse_service-IsSound :
    (tables : NumberTables) (list_units_output : Text) (show_output : Option Text) (timestamp : ℕ)
    (m : ServiceMetrics)
    → parse_service tables list_units_output show_output timestamp ≡ ok m
    → All IsSound m.services
unfolding parse_service
parse_service-IsSound tables list_units_output show_output timestamp m e =
    let listing = list_units-AllSound (splitlines list_units_output) [] tt in
    let d = list_units [] (splitlines list_units_output) in
    service_metrics-All (units_of (shown tables show_output d)) timestamp m
      (units_of-All (shown tables show_output d) (shown-AllSound tables show_output d listing)) e
