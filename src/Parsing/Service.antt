-- ===== src/Parsing/Service.antt =====
-- `ServiceParser` (src/application/parsers/service_parser.py) and its metrics
-- (src/domain/metrics/service_metrics.py).
pub mod Sound
use ai_sre_platform_for_auto.Common.{
  ℕ, zero, suc, ℤ, pos, negsuc, Text, Dict, Option, List, Bool, none, some, true, false, [], ◌∷◌,
  lit, length, ltb, join, split, splitlines, strip, lookup, insert, ends_with, text_eq, map,
  if◌then◌else◌,
}
use ai_sre_platform_for_auto.Errors.{Result, ok, raise, validation}
use ai_sre_platform_for_auto.Parsing.{NumberTables, parse_int, part, drop, split_once}
use ai_sre_platform_for_auto.Parsing.{Row, columns}
use ai_sre_platform_for_auto.Common.{refl}

pub record ServiceUnit : Type 0 where
  pub name : Text
  pub description : Text
  pub load_state : Text
  pub active_state : Text
  pub sub_state : Text
  pub unit_file_state : Option Text
  pub main_pid : Option ℤ
  pub service_type : Option Text
  pub restart_policy : Option Text
  pub fragment_path : Option Text
  pub is_enabled : Bool

pub record ServiceMetrics : Type 0 where
  pub services : List ServiceUnit
  pub timestamp : ℕ

unfoldable pub listed : Row 4 → ServiceUnit
listed row = record {
  name = part row 0 refl;
  description = join (lit " ") (drop 4 row.parts);
  load_state = part row 1 refl;
  active_state = part row 2 refl;
  sub_state = part row 3 refl;
  unit_file_state = none;
  main_pid = none;
  service_type = none;
  restart_policy = none;
  fragment_path = none;
  is_enabled = false;
}

-- one line of list-units
unfoldable pub note_unit : Text → Dict ServiceUnit → Dict ServiceUnit
unfolding listed
note_unit line services_map = columns 4 (split (strip line)) services_map (λ row.
    if ends_with (part row 0 refl) (lit ".service")
    then insert (part row 0 refl) (listed row) services_map
    else services_map)

unfoldable pub list_units : Dict ServiceUnit → List Text → Dict ServiceUnit
unfolding note_unit
list_units services_map [] = services_map
list_units services_map (line ∷ lines) = list_units (note_unit line services_map) lines

-- `if current_unit: show_data[current_unit] = current_props`; no unit is the empty text
abbrev pub close_unit : Text → Dict Text → Dict (Dict Text) → Dict (Dict Text)
close_unit [] current_props show_data = show_data
close_unit (c ∷ s) current_props show_data = insert (c ∷ s) current_props show_data

abbrev pub keep_prop : Text → Text → Text → Dict Text → Dict Text
keep_prop [] key value current_props = current_props
keep_prop (c ∷ s) key value current_props = insert key value current_props

-- The loop over the lines of `systemctl show`, and the unit that it leaves open.
unfoldable pub show_blocks : Text → Dict Text → Dict (Dict Text) → List Text → Dict (Dict Text)
show_blocks current_unit current_props show_data [] =
    close_unit current_unit current_props show_data
show_blocks current_unit current_props show_data (line ∷ lines) =
    elim (split_once b'=' (strip line)) [
      | none ↦ show_blocks current_unit current_props show_data lines
      | some (key, value) ↦ elim (text_eq key (lit "Id")) [
        | true ↦ show_blocks value [] (close_unit current_unit current_props show_data) lines
        | false ↦
            show_blocks current_unit (keep_prop current_unit key value current_props) show_data
              lines
      ]
    ]

-- `props.get(key)`, where a falsy value counts as none
abbrev truthy_prop : Option Text → Option Text
truthy_prop none = none
truthy_prop (some []) = none
truthy_prop (some (c ∷ s)) = some (c ∷ s)

unfoldable pub prop : Text → Dict Text → Option Text
prop key props = truthy_prop (lookup key props)

abbrev pub with_file_state : Option Text → ServiceUnit → ServiceUnit
with_file_state none unit = unit
with_file_state (some ufs) unit = record unit {
  unit_file_state = some ufs;
  is_enabled = text_eq ufs (lit "enabled");
}

abbrev pub positive : Option ℤ → Option ℤ → Option ℤ
positive before none = before
positive before (some (pos (suc n))) = some (pos (suc n))
positive before (some n) = none

abbrev or_before : Option Text → Option Text → Option Text
or_before before none = before
or_before before (some value) = some value

unfoldable pub units_of : Dict ServiceUnit → List ServiceUnit
units_of [] = []
units_of ((name, unit) ∷ services_map) = unit ∷ units_of services_map

abbrev pub service_metrics : List ServiceUnit → ℕ → Result ServiceMetrics
service_metrics [] timestamp =
    raise validation (lit "No systemd services parsed from list-units output.")
service_metrics (unit ∷ units) timestamp =
    ok (record { services = unit ∷ units; timestamp = timestamp })

module _ (tables : NumberTables) where
  abbrev pub pid_of : Option ℤ → Option Text → Option ℤ
  pid_of before none = before
  pid_of before (some mpid) = positive before (parse_int tables mpid)

  unfoldable pub enrich : Dict Text → ServiceUnit → ServiceUnit
  unfolding prop
  enrich props unit =
      let base = with_file_state (prop (lit "UnitFileState") props) unit in
      record base {
        main_pid = pid_of unit.main_pid (prop (lit "MainPID") props);
        service_type = or_before unit.service_type (prop (lit "Type") props);
        restart_policy = or_before unit.restart_policy (prop (lit "Restart") props);
        fragment_path = or_before unit.fragment_path (prop (lit "FragmentPath") props);
      }

  -- `show_data.get(name, {})`
  abbrev pub enrich_from : Option (Dict Text) → ServiceUnit → ServiceUnit
  enrich_from none unit = unit
  enrich_from (some []) unit = unit
  enrich_from (some (entry ∷ entries)) unit = enrich (entry ∷ entries) unit

  unfoldable pub enrich_all : Dict (Dict Text) → Dict ServiceUnit → Dict ServiceUnit
  unfolding enrich
  enrich_all show_data [] = []
  enrich_all show_data ((name, unit) ∷ services_map) =
      (name, enrich_from (lookup name show_data) unit) ∷ enrich_all show_data services_map

  -- step 2; an empty text of `show` counts as none
  abbrev pub shown : Option Text → Dict ServiceUnit → Dict ServiceUnit
  shown none services_map = services_map
  shown (some []) services_map = services_map
  shown (some (c ∷ s)) services_map =
      enrich_all (show_blocks [] [] [] (splitlines (c ∷ s))) services_map

  unfoldable pub parse_service : Text → Option Text → ℕ → Result ServiceMetrics
  unfolding list_units show_blocks enrich_all units_of
  parse_service list_units_output show_output timestamp =
      service_metrics (units_of (shown show_output (list_units [] (splitlines list_units_output))))
        timestamp
