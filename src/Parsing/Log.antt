-- ===== src/Parsing/Log.antt =====
-- `LogParser` (src/application/parsers/log_parser.py) and its metrics
-- (src/domain/metrics/log_metrics.py). A datetime is a parameter: `strptime` with the format
-- "%Y %b %d %H:%M:%S", made UTC, and `fromisoformat`.
use ai_sre_platform_for_auto.Common.{
  ◌≡◌, ℕ, ◌+◌, ◌-◌, ℤ, Text, CaseTables, Option, List, Bool, none, some, not, [], ◌∷◌, ◌++◌, ◌==◌,
  ◌&&◌, lit, length, ltb, join, lower, split, splitlines, strip, contains, ends_with, member, take,
  if◌then◌else◌,
}
use ai_sre_platform_for_auto.Parsing.{
  NumberTables, after, gather, last, lstrip_char, or_else, part, part?, parse_int, parts_from,
  rstrip_char, split_at, split_once,
}
use ai_sre_platform_for_auto.Parsing.{Row, columns}
use ai_sre_platform_for_auto.Common.{refl, true}

pub record LogEntry : Type 0 where
  pub timestamp : ℕ
  pub hostname : Text
  pub process_name : Text
  pub pid : Option ℤ
  pub severity : Option Text
  pub facility : Option Text
  pub message : Text
  pub source_file : Text
  pub source_type : Text

pub record LogMetrics : Type 0 where
  pub entries : List LogEntry
  pub timestamp : ℕ

-- the readings of dates, and the current time and year
pub record Calendar : Type 0 where
  pub now : ℕ
  pub current_year : Text
  pub strptime : Text → Option ℕ
  pub fromisoformat : Text → Option ℕ

abbrev pub months : List Text
months =
    lit "jan"
    ∷ lit "feb"
    ∷ lit "mar"
    ∷ lit "apr"
    ∷ lit "may"
    ∷ lit "jun"
    ∷ lit "jul"
    ∷ lit "aug"
    ∷ lit "sep"
    ∷ lit "oct"
    ∷ lit "nov"
    ∷ lit "dec"
    ∷ []

-- `line[line.find(token) + len(token):]` of a token of the line
unfoldable pub rest_after : Text → Text → Text
rest_after token line = elim (split_at token line) [ none ↦ [] | some (before, rest) ↦ rest ]

-- the host name, the process and the message
pub record Header : Type 0 where
  pub hostname : Text
  pub proc_token : Text
  pub message : Text

abbrev with_process : Text → Text → Option Text → Header
with_process line host none = record { hostname = host; proc_token = lit "unknown"; message = [] }
with_process line host (some token) = record {
  hostname = host;
  proc_token = token;
  message = strip (lstrip_char b':' (rest_after token line));
}

-- The header whose host name is column `i`.
unfoldable pub header_at : {n : ℕ} → Text → (row : Row n) (i : ℕ) → ltb i n ≡ true → Header
unfolding rest_after
header_at line row i h =
    let host = part row i h in
    if ends_with host (lit ":")
    then record {
      hostname = rstrip_char b':' host;
      proc_token = lit "unknown";
      message = strip (rest_after host line);
    }
    else with_process line host (part? row.parts (i + 1))

-- the name and the number of the process
unfoldable pub process_of : NumberTables → Text → Text × Option ℤ
process_of tables proc_token =
    let proc_info = rstrip_char b':' proc_token in
    if ends_with proc_info (lit "]")
    then elim (split_once b'[' proc_info) [
      | none ↦ (proc_info, none)
      | some (name_part, pid_part) ↦ (name_part, parse_int tables (rstrip_char b']' pid_part))
    ]
    else (proc_info, none)

-- `s.replace("Z", "+00:00")`
unfoldable pub with_offset : Text → Text
with_offset [] = []
with_offset (c ∷ s) = if c == b'Z' then lit "+00:00" ++ with_offset s else c ∷ with_offset s

-- `s.split(c)[-1]`
unfoldable pub last_part : ℕ → Text → Text
last_part c s = or_else [] (last (parts_from c [] s))

-- the colon between the hours and the minutes of an offset
unfoldable pub with_colon : Text → Text → Text
with_colon ts_str_clean tz_part =
    if length tz_part == 4
    then take (length ts_str_clean - 4) ts_str_clean
      ++ (take 2 tz_part ++ (lit ":" ++ after 2 tz_part))
    else ts_str_clean

unfoldable pub clean_iso : Text → Text
unfolding with_offset last_part with_colon
clean_iso ts_str =
    let clean = with_offset ts_str in
    let right_part = last_part b'T' clean in
    if contains clean (lit "+") && not (contains (last_part b'+' clean) (lit ":"))
    then with_colon clean (last_part b'+' clean)
    else if contains clean (lit "-")
        && (not (contains (last_part b'-' clean) (lit ":")) && contains clean (lit "T"))
    then (if contains right_part (lit "-")
        then with_colon clean (last_part b'-' right_part)
        else clean)
    else clean

module _ (tables : NumberTables) (cases : CaseTables) (calendar : Calendar) where
  unfoldable pub is_syslog : Row 2 → Bool
  is_syslog row = member (rstrip_char b':' (lower cases (part row 0 refl))) months

  unfoldable pub entry : Text → Text → ℕ → Header → LogEntry
  unfolding process_of
  entry source_file source_type timestamp header =
      let process = process_of tables header.proc_token in
      record {
        timestamp = timestamp;
        hostname = header.hostname;
        process_name = process.0;
        pid = process.1;
        severity = none;
        facility = none;
        message = header.message;
        source_file = source_file;
        source_type = source_type;
      }

  unfoldable pub syslog_time : List Text → ℕ
  syslog_time parts =
      or_else calendar.now
        (calendar.strptime (calendar.current_year ++ (lit " " ++ join (lit " ") (take 3 parts))))

  unfoldable pub iso_time : Row 2 → ℕ
  unfolding clean_iso
  iso_time row = or_else calendar.now (calendar.fromisoformat (clean_iso (part row 0 refl)))

  unfoldable pub parse_line : Text → Text → Text → Option LogEntry
  unfolding is_syslog entry syslog_time iso_time header_at
  parse_line source_file source_type raw =
      let line = strip raw in
      columns 2 (split line) none (λ row.
        if is_syslog row
        then columns 4 (split line) none (λ longer.
          some (
            entry source_file source_type (syslog_time longer.parts)
              (header_at line longer 3 refl)))
        else some (entry source_file source_type (iso_time row) (header_at line row 1 refl)))

  unfoldable pub parse_log : Text → Text → Text → ℕ → LogMetrics
  unfolding parse_line
  parse_log journalctl_output syslog_output messages_output timestamp = record {
    entries =
        gather (parse_line (lit "journalctl") (lit "journalctl")) (splitlines journalctl_output)
        ++ (gather (parse_line (lit "/var/log/syslog") (lit "syslog")) (splitlines syslog_output)
            ++ gather (parse_line (lit "/var/log/messages") (lit "messages"))
                (splitlines messages_output));
    timestamp = timestamp;
  }
