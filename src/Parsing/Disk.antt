-- ===== src/Parsing/Disk.antt =====
-- `DiskParser` (src/application/parsers/disk_parser.py) and its metrics
-- (src/domain/metrics/disk_metrics.py).
use ai_sre_platform_for_auto.Common.{
  ℕ, ℤ, pos, Text, Option, List, none, some, [], lit, join, split, splitlines, strip, if◌then◌else◌,
}
use ai_sre_platform_for_auto.Errors.{Result, ok, raise, validation}
use ai_sre_platform_for_auto.Parsing.{
  NumberTables, parse_int, isdigit, rstrip_char, part, drop, gather, ◌>>=◌,
}
use ai_sre_platform_for_auto.Parsing.{Row, columns}
use ai_sre_platform_for_auto.Common.{refl}

pub record FilesystemMetrics : Type 0 where
  pub filesystem : Text
  pub fstype : Text
  pub total_bytes : ℤ
  pub used_bytes : ℤ
  pub available_bytes : ℤ
  pub use_percent : ℤ
  pub mount_point : Text

pub record DiskIoMetrics : Type 0 where
  pub major_number : ℤ
  pub minor_number : ℤ
  pub device_name : Text
  pub reads_completed : ℤ
  pub reads_merged : ℤ
  pub sectors_read : ℤ
  pub read_time_ms : ℤ
  pub writes_completed : ℤ
  pub writes_merged : ℤ
  pub sectors_written : ℤ
  pub write_time_ms : ℤ
  pub io_in_progress : ℤ
  pub io_time_ms : ℤ
  pub weighted_io_time_ms : ℤ

pub record DiskMetrics : Type 0 where
  pub filesystems : List FilesystemMetrics
  pub disk_io : List DiskIoMetrics
  pub timestamp : ℕ

abbrev pub disk_metrics : List FilesystemMetrics → List DiskIoMetrics → ℕ → Result DiskMetrics
disk_metrics [] [] timestamp =
    raise validation (lit "Could not parse any filesystem mount or disk I/O metrics.")
disk_metrics filesystems disk_io timestamp =
    ok (record { filesystems = filesystems; disk_io = disk_io; timestamp = timestamp })

module _ (tables : NumberTables) where
  unfoldable pub use_percent_of : Text → Option ℤ
  use_percent_of column =
      let pcent_str = rstrip_char b'%' column in
      if isdigit tables pcent_str then parse_int tables pcent_str else some (pos 0)

  unfoldable pub df_row : Row 7 → Option FilesystemMetrics
  unfolding use_percent_of
  df_row row = do
    total_bytes ← parse_int tables (part row 2 refl)
    used_bytes ← parse_int tables (part row 3 refl)
    available_bytes ← parse_int tables (part row 4 refl)
    use_percent ← use_percent_of (part row 5 refl)
    some (record {
      filesystem = part row 0 refl;
      fstype = part row 1 refl;
      total_bytes = total_bytes;
      used_bytes = used_bytes;
      available_bytes = available_bytes;
      use_percent = use_percent;
      mount_point = join (lit " ") (drop 6 row.parts);
    })

  -- a line of df; `none` for a line that is skipped
  unfoldable pub df_line : Text → Option FilesystemMetrics
  unfolding df_row
  df_line line = columns 7 (split (strip line)) none df_row

  unfoldable pub diskstats_row : Row 14 → Option DiskIoMetrics
  diskstats_row row = do
    major_number ← parse_int tables (part row 0 refl)
    minor_number ← parse_int tables (part row 1 refl)
    reads_completed ← parse_int tables (part row 3 refl)
    reads_merged ← parse_int tables (part row 4 refl)
    sectors_read ← parse_int tables (part row 5 refl)
    read_time_ms ← parse_int tables (part row 6 refl)
    writes_completed ← parse_int tables (part row 7 refl)
    writes_merged ← parse_int tables (part row 8 refl)
    sectors_written ← parse_int tables (part row 9 refl)
    write_time_ms ← parse_int tables (part row 10 refl)
    io_in_progress ← parse_int tables (part row 11 refl)
    io_time_ms ← parse_int tables (part row 12 refl)
    weighted_io_time_ms ← parse_int tables (part row 13 refl)
    some (record {
      major_number = major_number;
      minor_number = minor_number;
      device_name = part row 2 refl;
      reads_completed = reads_completed;
      reads_merged = reads_merged;
      sectors_read = sectors_read;
      read_time_ms = read_time_ms;
      writes_completed = writes_completed;
      writes_merged = writes_merged;
      sectors_written = sectors_written;
      write_time_ms = write_time_ms;
      io_in_progress = io_in_progress;
      io_time_ms = io_time_ms;
      weighted_io_time_ms = weighted_io_time_ms;
    })

  unfoldable pub diskstats_line : Text → Option DiskIoMetrics
  unfolding diskstats_row
  diskstats_line line = columns 14 (split (strip line)) none diskstats_row

  unfoldable pub parse_disk : Text → Text → ℕ → Result DiskMetrics
  unfolding df_line diskstats_line
  parse_disk df_output proc_diskstats_output timestamp =
      disk_metrics (gather df_line (splitlines df_output))
        (gather diskstats_line (splitlines proc_diskstats_output)) timestamp
