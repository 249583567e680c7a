-- ===== src/Parsing/Memory.antt =====
-- `MemoryParser` (src/application/parsers/memory_parser.py) and its metrics
-- (src/domain/metrics/memory_metrics.py).
pub mod Printed
use ai_sre_platform_for_auto.Common.{
  ℕ, ℤ, pos, Text, Dict, Option, List, none, some, [], ◌∷◌, lit, strip, split, splitlines, lookup,
  insert,
}
use ai_sre_platform_for_auto.Errors.{Result, ok, raise, validation}
use ai_sre_platform_for_auto.Parsing.{NumberTables, is_empty, parse_int, split_once}
use ai_sre_platform_for_auto.Common.{if◌then◌else◌}

pub record MemoryMetrics : Type 0 where
  pub total_memory_kb : ℤ
  pub free_memory_kb : ℤ
  pub available_memory_kb : ℤ
  pub buffers_kb : ℤ
  pub cached_kb : ℤ
  pub swap_total_kb : ℤ
  pub swap_free_kb : ℤ
  pub dirty_kb : ℤ
  pub timestamp : ℕ

-- `metrics_dict.get(key, 0)`
abbrev pub or_zero : Option ℤ → ℤ
or_zero none = pos 0
or_zero (some n) = n

unfoldable pub field_of : Text → Dict ℤ → ℤ
field_of key metrics_dict = or_zero (lookup key metrics_dict)

abbrev pub metrics_of : Dict ℤ → ℕ → Result MemoryMetrics
metrics_of [] timestamp =
    raise validation (lit "Could not parse any valid key-value pairs from /proc/meminfo.")
metrics_of (entry ∷ entries) timestamp =
    let metrics_dict = entry ∷ entries in
    ok (record {
      total_memory_kb = field_of (lit "MemTotal") metrics_dict;
      free_memory_kb = field_of (lit "MemFree") metrics_dict;
      available_memory_kb = field_of (lit "MemAvailable") metrics_dict;
      buffers_kb = field_of (lit "Buffers") metrics_dict;
      cached_kb = field_of (lit "Cached") metrics_dict;
      swap_total_kb = field_of (lit "SwapTotal") metrics_dict;
      swap_free_kb = field_of (lit "SwapFree") metrics_dict;
      dirty_kb = field_of (lit "Dirty") metrics_dict;
      timestamp = timestamp;
    })

module _ (tables : NumberTables) where
  abbrev pub first_int : List Text → Option ℤ
  first_int [] = none
  first_int (token ∷ tokens) = parse_int tables token

  abbrev pub keyed_int : Option (Text × Text) → Option (Text × ℤ)
  keyed_int none = none
  keyed_int (some (key, value)) = elim (first_int (split (strip value))) [
    | none ↦ none
    | some n ↦ some (strip key, n)
  ]

  -- The key and the number of a line; lines without them are passed over.
  unfoldable pub meminfo_line : Text → Option (Text × ℤ)
  meminfo_line line = keyed_int (split_once b':' (strip line))

  abbrev pub noted : Option (Text × ℤ) → Dict ℤ → Dict ℤ
  noted none metrics_dict = metrics_dict
  noted (some (key, n)) metrics_dict = insert key n metrics_dict

  -- the loop over the lines
  unfoldable pub read_lines : Dict ℤ → List Text → Dict ℤ
  unfolding meminfo_line
  read_lines metrics_dict [] = metrics_dict
  read_lines metrics_dict (line ∷ lines) = read_lines (noted (meminfo_line line) metrics_dict) lines

  unfoldable pub parse_memory : Text → ℕ → Result MemoryMetrics
  unfolding read_lines field_of
  parse_memory raw_output timestamp =
      if is_empty raw_output
      then raise validation (lit "Raw /proc/meminfo output is empty or whitespace.")
      else metrics_of (read_lines [] (splitlines raw_output)) timestamp
