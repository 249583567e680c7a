-- ===== src/Parsing/Cpu.antt =====
-- `CPUParser` (src/application/parsers/cpu_parser.py) and its metrics
-- (src/domain/metrics/cpu_metrics.py). The text of a float's ValueError is not modelled.
use ai_sre_platform_for_auto.Common.{
  ℕ, ◌+◌, ℤ, pos, Text, Option, List, Bool, none, some, true, false, [], ◌∷◌, ◌++◌, ◌==◌, ◌&&◌, lit,
  split, splitlines, starts_with, strip, if◌then◌else◌,
}
use ai_sre_platform_for_auto.Errors.{Result, ok, raise, validation}
use ai_sre_platform_for_auto.Values.{FloatOps}
use ai_sre_platform_for_auto.Parsing.{
  NumberTables, digit_of, is_empty, or_else, parse_int, part, ◌>>=◌,
}
use ai_sre_platform_for_auto.Parsing.{Row, columns}
use ai_sre_platform_for_auto.Common.{refl}

pub record CpuMetrics (Float : Type 0) : Type 0 where
  pub user_ticks : ℤ
  pub system_ticks : ℤ
  pub idle_ticks : ℤ
  pub iowait_ticks : ℤ
  pub irq_ticks : ℤ
  pub softirq_ticks : ℤ
  pub steal_ticks : ℤ
  pub guest_ticks : ℤ
  pub load_average_1m : Float
  pub load_average_5m : Float
  pub load_average_15m : Float
  pub logical_cpu_count : ℕ
  pub timestamp : ℕ

module _ (tables : NumberTables) where
  -- `re.match(r"^cpu\d+", line)`; `\d` is a decimal digit
  abbrev begins_with_digit : Text → Bool
  begins_with_digit [] = false
  begins_with_digit (c ∷ s) = elim (digit_of tables c) [ none ↦ false | some d ↦ true ]

  unfoldable pub is_core_line : Text → Bool
  is_core_line (c ∷ p ∷ u ∷ s) = (c == b'c' && p == b'p' && u == b'u') && begins_with_digit s
  is_core_line _ = false

  -- The loop over the lines of /proc/stat: the last line of all processors, and the number of the
  -- lines of one processor.
  unfoldable pub scan_stat : Option Text → ℕ → List Text → Option Text × ℕ
  unfolding is_core_line
  scan_stat aggregate_line logical_cpu_count [] = (aggregate_line, logical_cpu_count)
  scan_stat aggregate_line logical_cpu_count (raw ∷ lines) =
      let line = strip raw in
      let aggregate = scan_stat (some line) logical_cpu_count lines in
      let core = scan_stat aggregate_line (logical_cpu_count + 1) lines in
      let rest = scan_stat aggregate_line logical_cpu_count lines in
      if starts_with line (lit "cpu ") then aggregate else if is_core_line line then core else rest

  unfoldable pub safe_int : Text → ℤ
  safe_int token = or_else (pos 0) (parse_int tables token)

  module _ {Float : Type 0} (floats : FloatOps Float) where
    unfoldable pub load_averages : Row 3 → Option (Float × (Float × Float))
    load_averages row = do
      load_average_1m ← floats.parse (part row 0 refl)
      load_average_5m ← floats.parse (part row 1 refl)
      load_average_15m ← floats.parse (part row 2 refl)
      some (load_average_1m, (load_average_5m, load_average_15m))

    abbrev pub cpu_metrics :
        Row 9 → ℕ → ℕ → Option (Float × (Float × Float)) → Result (CpuMetrics Float)
    cpu_metrics row count timestamp none =
        raise validation (lit "Failed to parse float values from /proc/loadavg: ")
    cpu_metrics row count timestamp (some (one, (five, fifteen))) = ok (record {
      user_ticks = safe_int (part row 1 refl);
      system_ticks = safe_int (part row 3 refl);
      idle_ticks = safe_int (part row 4 refl);
      iowait_ticks = safe_int (part row 5 refl);
      irq_ticks = safe_int (part row 6 refl);
      softirq_ticks = safe_int (part row 7 refl);
      steal_ticks = safe_int (part row 8 refl);
      guest_ticks = columns 10 row.parts (pos 0) (λ longer. safe_int (part longer 9 refl));
      load_average_1m = one;
      load_average_5m = five;
      load_average_15m = fifteen;
      logical_cpu_count = if count == 0 then 1 else count;
      timestamp = timestamp;
    })

    -- what follows the loop
    abbrev pub with_aggregate : Text → ℕ → Option Text × ℕ → Result (CpuMetrics Float)
    with_aggregate proc_loadavg_output timestamp (none, count) =
        raise validation (lit "Could not find aggregate CPU ticks ('cpu ') line in /proc/stat.")
    with_aggregate proc_loadavg_output timestamp (some aggregate_line, count) =
        columns 9 (split aggregate_line)
          (raise validation
            (lit "Unexpected CPU aggregate line column count in /proc/stat: " ++ aggregate_line))
          (λ tokens.
            columns 3 (split (strip proc_loadavg_output))
              (raise validation
                (lit "Unexpected column count in /proc/loadavg: " ++ proc_loadavg_output))
              (λ loads. cpu_metrics tokens count timestamp (load_averages loads)))

    unfoldable pub parse_cpu : Text → Text → ℕ → Result (CpuMetrics Float)
    unfolding scan_stat safe_int load_averages
    parse_cpu proc_stat_output proc_loadavg_output timestamp =
        if is_empty proc_stat_output
        then raise validation (lit "Raw /proc/stat output is empty or whitespace.")
        else if is_empty proc_loadavg_output
        then raise validation (lit "Raw /proc/loadavg output is empty or whitespace.")
        else with_aggregate proc_loadavg_output timestamp
            (scan_stat none 0 (splitlines proc_stat_output))
