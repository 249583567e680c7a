-- ===== src/Discovery/Parsers.antt =====
-- src/application/discovery/parsers.py: the parsers that the discovery service calls, with
-- `MemoryParser` and `FilesystemParser`.
pub mod Texts
pub mod Hardware
use ai_sre_platform_for_auto.Common.{
  ℕ, zero, suc, ℤ, pos, Text, CaseTables, Dict, Option, List, Bool, none, some, true, false, not,
  [], ◌∷◌, ◌++◌, ◌==◌, ◌&&◌, ◌||◌, lit, length, leb, is_space, upper, split, splitlines, strip,
  contains, starts_with, member, lookup, insert, if◌then◌else◌,
}
use ai_sre_platform_for_auto.Errors.{Result, ok, raise, value_error, builtin, ◌>>=◌}
use ai_sre_platform_for_auto.Values.{FloatOps}
use ai_sre_platform_for_auto.Inventory.{CpuInfo, MemoryInfo, DiskInfo, NetworkInterfaceInfo}
use ai_sre_platform_for_auto.Discovery.{DiscoveryParsers}
use ai_sre_platform_for_auto.Parsing.{
  NumberTables, after, digit_of, following, gather, or_else, parse_int, part, rstrip_char,
  split_once,
}
use ai_sre_platform_for_auto.Discovery.Parsers.Texts.{os_parse, timezone_parse, uptime_parse}
use ai_sre_platform_for_auto.Discovery.Parsers.Hardware.{cpu_parse, network_parse}
use ai_sre_platform_for_auto.Parsing.{Row, columns}
use ai_sre_platform_for_auto.Common.{refl}

-- `s.replace("%", "")`
unfoldable pub without_percent : Text → Text
without_percent [] = []
without_percent (c ∷ s) = let rest = without_percent s in if c == b'%' then rest else c ∷ rest

module _ {Float : Type 0} (floats : FloatOps Float) where
  abbrev float : Text → Result Float
  float s = elim (floats.parse s) [ none ↦ raise value_error [] | some x ↦ ok x ]

  unfoldable pub memory_row : Row 7 → Result (MemoryInfo Float)
  memory_row row = do
    total_mb ← float (part row 1 refl)
    used_mb ← float (part row 2 refl)
    free_mb ← float (part row 3 refl)
    shared_mb ← float (part row 4 refl)
    buff_cache_mb ← float (part row 5 refl)
    available_mb ← float (part row 6 refl)
    ok (record {
      total_mb = total_mb;
      used_mb = used_mb;
      free_mb = free_mb;
      shared_mb = shared_mb;
      buff_cache_mb = buff_cache_mb;
      available_mb = available_mb;
    })

  unfoldable pub memory_lines : List Text → Result (MemoryInfo Float)
  unfolding memory_row
  memory_lines [] =
      let nothing = floats.of_ℕ 0 in
      ok (record {
        total_mb = nothing;
        used_mb = nothing;
        free_mb = nothing;
        shared_mb = nothing;
        buff_cache_mb = nothing;
        available_mb = nothing;
      })
  memory_lines (line ∷ lines) =
      let rest = memory_lines lines in
      if starts_with line (lit "Mem:") then columns 7 (split line) rest memory_row else rest

  -- `MemoryParser`
  unfoldable pub memory_parse : Text → Result (MemoryInfo Float)
  unfolding memory_lines
  memory_parse output = memory_lines (splitlines output)

  -- `shrunk` and `grown` are the division by 1024.0 and the product with it.
  module _ (tables : NumberTables) (cases : CaseTables) (shrunk grown : Float → Float) where
    abbrev is_numeric : ℕ → Bool
    is_numeric c = elim (digit_of tables c) [ none ↦ c == b'.' | some d ↦ true ]

    unfoldable pub numeric_prefix : Text → Text
    numeric_prefix [] = []
    numeric_prefix (c ∷ s) = let rest = numeric_prefix s in if is_numeric c then c ∷ rest else []

    -- the first of `re.findall(r"[\d\.]+", s)`
    unfoldable pub first_numeric : Text → Option Text
    unfolding numeric_prefix
    first_numeric [] = none
    first_numeric (c ∷ s) =
        let rest = first_numeric s in if is_numeric c then some (c ∷ numeric_prefix s) else rest

    abbrev scaled : Text → Float → Float
    scaled s val =
        if contains s (lit "M") then shrunk val else if contains s (lit "T") then grown val else val

    unfoldable pub to_gb : Text → Result Float
    unfolding first_numeric
    to_gb size = elim (first_numeric (upper cases size)) [
      | none ↦ ok (floats.of_ℕ 0)
      | some digits ↦ float digits >>= λ val. ok (scaled (upper cases size) val)
    ]

    unfoldable pub disk_row : Row 7 → Result (DiskInfo Float)
    unfolding to_gb without_percent
    disk_row row = do
      total_gb ← to_gb (part row 2 refl)
      used_gb ← to_gb (part row 3 refl)
      free_gb ← to_gb (part row 4 refl)
      percentage ← float (without_percent (part row 5 refl))
      ok (record {
        device = part row 0 refl;
        mount_point = part row 6 refl;
        fstype = part row 1 refl;
        total_gb = total_gb;
        used_gb = used_gb;
        free_gb = free_gb;
        percentage = percentage;
      })

    unfoldable pub is_pseudo : Row 7 → Bool
    is_pseudo row =
        member (part row 0 refl) (lit "udev" ∷ lit "tmpfs" ∷ lit "devtmpfs" ∷ [])
        || (starts_with (part row 6 refl) (lit "/boot/efi")
            || starts_with (part row 6 refl) (lit "/snap"))

    unfoldable pub disk_line : Text → Option (DiskInfo Float)
    unfolding disk_row is_pseudo
    disk_line line = columns 7 (split line) none (λ row.
        if is_pseudo row
        then none
        else elim (disk_row row) [ ok disk ↦ some disk | raise kind message ↦ none ])

    -- `FilesystemParser`; the first line is the header.
    abbrev below_header : List Text → List (DiskInfo Float)
    below_header [] = []
    below_header (header ∷ lines) = gather disk_line lines

    unfoldable pub filesystem_parse : Text → List (DiskInfo Float)
    unfolding disk_line
    filesystem_parse output = below_header (splitlines output)

    unfoldable pub discovery_parsers : DiscoveryParsers Float
    unfolding os_parse cpu_parse memory_parse filesystem_parse network_parse timezone_parse
        uptime_parse
    discovery_parsers = record {
      os_parser = λ output. ok (os_parse output);
      cpu_parser = λ output. ok (cpu_parse tables output);
      memory_parser = memory_parse;
      filesystem_parser = λ output. ok (filesystem_parse output);
      network_parser = network_parse;
      timezone_parser = λ output. ok (timezone_parse output);
      uptime_parser = λ output. ok (uptime_parse tables output);
    }
