-- ===== src/Telemetry/Parsers.antt =====
-- src/application/telemetry/parsers.py: the parsers that the telemetry collectors call. The
-- arithmetic on floats and its rounding are parameters.
pub mod Texts
use ai_sre_platform_for_auto.Common.{
  ℕ, zero, suc, ◌-◌, ℤ, Text, Option, List, Bool, none, some, true, false, not, [], ◌∷◌, ◌++◌, ◌==◌,
  ◌&&◌, ◌||◌, lit, length, leb, is_space, lstrip, member, split, splitlines, starts_with, strip,
  contains, text_eq, if◌then◌else◌,
}
use ai_sre_platform_for_auto.Errors.{Result, ok, raise, value_error, ◌>>=◌}
use ai_sre_platform_for_auto.Values.{FloatOps, Fields, Items, end, field, nil, cons, num, text, obj}
use ai_sre_platform_for_auto.Telemetry.Collectors.{TelemetryParsers}
use ai_sre_platform_for_auto.Telemetry.Parsers.Texts.{
  below_header, removed, search_idle, split_at_most,
}
use ai_sre_platform_for_auto.Parsing.{NumberTables, digit_of, gather, parse_int, part, parts_from}
use ai_sre_platform_for_auto.Parsing.{Row, columns, split_once}
use ai_sre_platform_for_auto.Common.{refl}
use ai_sre_platform_for_auto.Parsing.{first_part}

-- `round(100.0 - idle, 2)`, `round((used / total) * 100.0, 2)` and `float` of an int
pub record Arithmetic (Float : Type 0) : Type 0 where
  pub floats : FloatOps Float
  pub usage_of_idle : Float → Float
  pub percentage : Float → Float → Float
  pub of_int : ℤ → Float

module _ {Float : Type 0} where
  abbrev pub items_of : List (Fields Float) → Items Float
  items_of [] = nil
  items_of (d ∷ ds) = cons (obj d) (items_of ds)

  unfoldable pub services : List Text → List (Fields Float)
  unfolding removed
  services = gather λ line. elim (split line) [
    | [] ↦ none
    | name ∷ rest ↦ some (
        field (lit "name") (text (removed (lit ".service") 0 name))
          (field (lit "state") (text (lit "running")) end))
  ]

  -- `ServiceTelemetryParser`
  unfoldable pub service_parse : Text → Items Float
  unfolding services
  service_parse output = items_of (services (splitlines output))

module _ {Float : Type 0} (arithmetic : Arithmetic Float) where
  abbrev float : Text → Result Float
  float s = elim (arithmetic.floats.parse s) [ none ↦ raise value_error [] | some x ↦ ok x ]

  -- the row of a `try` block that passes over a ValueError
  abbrev pub kept_row : Result (Fields Float) → Option (Fields Float)
  kept_row (ok d) = some d
  kept_row (raise kind message) = none

  unfoldable pub loads : Row 3 → Result (Fields Float)
  loads row = do
    load_1m ← float (part row 0 refl)
    load_5m ← float (part row 1 refl)
    load_15m ← float (part row 2 refl)
    ok (
        field (lit "load_1m") (num load_1m)
          (field (lit "load_5m") (num load_5m) (field (lit "load_15m") (num load_15m) end)))

  abbrev idle_machine : Fields Float
  idle_machine =
      field (lit "usage_percent") (num (arithmetic.floats.of_ℕ 0))
        (field (lit "idle_percent") (num (arithmetic.floats.of_ℕ 100)) end)

  abbrev or_idle : Option (Fields Float) → Fields Float
  or_idle none = idle_machine
  or_idle (some d) = d

  unfoldable pub idle_usage : Float → Fields Float
  idle_usage idle =
      field (lit "usage_percent") (num (arithmetic.usage_of_idle idle))
        (field (lit "idle_percent") (num idle) end)

  -- `CPUTelemetryParser`
  unfoldable pub cpu_parse : NumberTables → Text → Result (Fields Float)
  unfolding loads search_idle idle_usage
  cpu_parse numbers output = elim (search_idle numbers output) [
    | some group ↦ float group >>= λ idle. ok (idle_usage idle)
    | none ↦ columns 3 (split output) (ok idle_machine) (λ row. ok (or_idle (kept_row (loads row))))
  ]

  unfoldable pub memory_row : Row 7 → Result (Fields Float)
  memory_row row = do
    total ← float (part row 1 refl)
    used ← float (part row 2 refl)
    free ← float (part row 3 refl)
    available ← float (part row 6 refl)
    ok (
        field (lit "total_mb") (num total) (
          field (lit "used_mb") (num used) (
            field (lit "free_mb") (num free) (
              field (lit "available_mb") (num available) (
                field (lit "usage_percent")
                  (num (
                    if arithmetic.floats.gt total (arithmetic.floats.of_ℕ 0)
                    then arithmetic.percentage used total
                    else arithmetic.floats.of_ℕ 0))
                  end)))))

  unfoldable pub memory_lines : List Text → Result (Fields Float)
  unfolding memory_row
  memory_lines [] = ok (field (lit "usage_percent") (num (arithmetic.floats.of_ℕ 0)) end)
  memory_lines (line ∷ lines) =
      let rest = memory_lines lines in
      if starts_with line (lit "Mem:") then columns 7 (split line) rest memory_row else rest

  -- `MemoryTelemetryParser`
  unfoldable pub memory_parse : Text → Result (Fields Float)
  unfolding memory_lines
  memory_parse output = memory_lines (splitlines output)

  unfoldable pub disk_row : Row 6 → Result (Fields Float)
  unfolding removed
  disk_row row = do
    usage_percent ← float (removed (lit "%") 0 (part row 4 refl))
    ok (
        field (lit "device") (text (part row 0 refl)) (
          field (lit "size") (text (part row 1 refl)) (
            field (lit "used") (text (part row 2 refl)) (
              field (lit "available") (text (part row 3 refl)) (
                field (lit "usage_percent") (num usage_percent)
                  (field (lit "mount_point") (text (part row 5 refl)) end))))))

  unfoldable pub disk_line : Text → Option (Fields Float)
  unfolding disk_row
  disk_line line = columns 6 (split line) none (λ row.
      if not (
        member (part row 0 refl) (lit "udev" ∷ lit "tmpfs" ∷ [])
        || starts_with (part row 5 refl) (lit "/snap"))
      then kept_row (disk_row row)
      else none)

  -- `DiskTelemetryParser`
  unfoldable pub disk_parse : Text → Items Float
  unfolding disk_line
  disk_parse output = items_of (gather disk_line (below_header (splitlines output)))

  module _ (numbers : NumberTables) where
    abbrev int : Text → Result Float
    int s = elim (parse_int numbers s) [
      | none ↦ raise value_error []
      | some n ↦ ok (arithmetic.of_int n)
    ]

    unfoldable pub interface_row : Text → Row 9 → Result (Fields Float)
    interface_row name row = do
      rx_bytes ← int (part row 0 refl)
      tx_bytes ← int (part row 8 refl)
      ok (
          field (lit "interface") (text name)
            (field (lit "rx_bytes") (num rx_bytes) (field (lit "tx_bytes") (num tx_bytes) end)))

    unfoldable pub interface_line : Text → Option (Fields Float)
    unfolding interface_row
    interface_line line = elim (split_once b':' line) [
      | none ↦ none
      | some (before, rest) ↦ columns 9 (split (first_part b':' rest)) none (λ row.
          if not (text_eq (strip before) (lit "lo"))
          then kept_row (interface_row (strip before) row)
          else none)
    ]

    -- `NetworkTelemetryParser`
    unfoldable pub network_parse : Text → Items Float
    unfolding interface_line
    network_parse output = items_of (gather interface_line (splitlines output))

    unfoldable pub process_row : Row 5 → Result (Fields Float)
    process_row row = do
      pid ← int (part row 0 refl)
      ppid ← int (part row 1 refl)
      cpu_percent ← float (part row 2 refl)
      mem_percent ← float (part row 3 refl)
      ok (
          field (lit "pid") (num pid) (
            field (lit "ppid") (num ppid) (
              field (lit "cpu_percent") (num cpu_percent) (
                field (lit "mem_percent") (num mem_percent)
                  (field (lit "command") (text (strip (part row 4 refl))) end)))))

    unfoldable pub process_line : Text → Option (Fields Float)
    unfolding process_row split_at_most
    process_line line = columns 5 (split_at_most 4 line) none (λ row. kept_row (process_row row))

    -- `ProcessTelemetryParser`
    unfoldable pub process_parse : Text → Items Float
    unfolding process_line
    process_parse output = items_of (gather process_line (below_header (splitlines output)))

    unfoldable pub telemetry_parsers : TelemetryParsers Float
    unfolding cpu_parse memory_parse disk_parse network_parse process_parse service_parse
    telemetry_parsers = record {
      cpu_parser = cpu_parse numbers;
      memory_parser = memory_parse;
      disk_parser = λ output. ok (disk_parse output);
      network_parser = λ output. ok (network_parse output);
      process_parser = λ output. ok (process_parse output);
      service_parser = λ output. ok (service_parse output);
    }
