-- ===== src/Parsing/System.antt =====
-- `SystemParser.parse` (src/application/parsers/system_parser.py) and its metrics
-- (src/domain/metrics/system_metrics.py). `float` of an int and the subtraction of an uptime from a
-- time are parameters, since both may overflow.
use ai_sre_platform_for_auto.Common.{
  ℕ, ◌-◌, ℤ, pos, is_zero, Text, CaseTables, Dict, Option, List, Bool, none, some, false, not, [],
  ◌∷◌, ◌&&◌, lit, leb, length, join, lower, split, splitlines, strip, lookup, insert, text_eq,
  if◌then◌else◌,
}
use ai_sre_platform_for_auto.Errors.{Result, ok, raise, validation}
use ai_sre_platform_for_auto.Errors
use ai_sre_platform_for_auto.Values.{FloatOps}
use ai_sre_platform_for_auto.Parsing.{
  NumberTables, drop, or_else, parse_int, part, split_once, strip_char, ◌>>=◌,
}
use ai_sre_platform_for_auto.Parsing.Uptime.{uptime_seconds}
use ai_sre_platform_for_auto.Parsing.{columns, item}
use ai_sre_platform_for_auto.Common.{refl}
use ai_sre_platform_for_auto.Parsing.{Row}
use ai_sre_platform_for_auto.Common.{arith}

pub record HostIdentity : Type 0 where
  pub hostname : Text
  pub machine_id : Option Text
  pub boot_id : Option Text

pub record OperatingSystemInfo : Type 0 where
  pub distribution_name : Text
  pub distribution_version : Text
  pub pretty_name : Text
  pub kernel_version : Text
  pub kernel_release : Text
  pub architecture : Text

pub record CpuInfo (Float : Type 0) : Type 0 where
  pub cpu_model : Text
  pub vendor : Text
  pub logical_cpu_count : ℤ
  pub physical_cpu_count : Option ℤ
  pub threads_per_core : ℤ
  pub cores_per_socket : ℤ
  pub cpu_mhz : Option Float

pub record HardwareInfo : Type 0 where
  pub virtualization_type : Text
  pub hypervisor_vendor : Option Text

pub record SystemState (Float : Type 0) : Type 0 where
  pub system_uptime : Float
  pub boot_time : Option ℕ

pub record SystemMetrics (Float : Type 0) : Type 0 where
  pub host_identity : HostIdentity
  pub os_info : OperatingSystemInfo
  pub cpu_info : CpuInfo Float
  pub hardware : HardwareInfo
  pub system_state : SystemState Float
  pub timezone : Text
  pub operating_mode : Text
  pub timestamp : ℕ

-- `value or default`, where no value and the empty text are falsy
unfoldable pub or_text : Option Text → Text → Text
or_text none default = default
or_text (some []) default = default
or_text (some (c ∷ s)) default = c ∷ s

-- step 1: a line `key=value`; 34 and 39 are the quotes
abbrev release_entry : Option (Text × Text) → Dict Text → Dict Text
release_entry none os_props = os_props
release_entry (some (key, val)) os_props =
    insert (strip key) (strip_char 39 (strip_char 34 (strip val))) os_props

unfoldable pub release_props : Dict Text → List Text → Dict Text
release_props os_props [] = os_props
release_props os_props (line ∷ lines) =
    release_props (release_entry (split_once b'=' (strip line)) os_props) lines

-- the host name, with the fallback to uname
unfoldable pub host_name : Dict Text → List Text → Text
unfolding or_text
host_name h_props uname_parts =
    let hostname =
      or_text (lookup (lit "static hostname") h_props)
        (or_text (lookup (lit "transient hostname") h_props) (lit "unknown")) in
    if text_eq hostname (lit "unknown")
    then columns 2 uname_parts hostname (λ row. part row 1 refl)
    else hostname

-- `uname_parts[-2]`
last_but_one : Row 12 → Text
unfolding item
last_but_one row = item row.parts (length row.parts - 2) (ground (arith, row.enough))

-- step 5
unfoldable pub os_info_of : Dict Text → Dict Text → List Text → OperatingSystemInfo
unfolding or_text last_but_one
os_info_of os_props h_props uname_parts =
    let dist_name =
      or_text (lookup (lit "NAME") os_props) (or_text (lookup (lit "ID") os_props) (lit "Linux")) in
    let own = or_text (lookup (lit "architecture") h_props) (lit "unknown") in
    let version =
      if leb 4 (length uname_parts) then join (lit " ") (drop 3 uname_parts) else lit "unknown" in
    record {
      distribution_name = dist_name;
      distribution_version =
          or_text (lookup (lit "VERSION_ID") os_props)
            (or_text (lookup (lit "VERSION") os_props) (lit "unknown"));
      pretty_name = or_text (lookup (lit "PRETTY_NAME") os_props) dist_name;
      kernel_version =
          if text_eq version (lit "unknown")
          then or_text (lookup (lit "kernel") h_props) (lit "unknown")
          else version;
      kernel_release = columns 3 uname_parts (lit "unknown") (λ row. part row 2 refl);
      architecture =
          if text_eq own (lit "unknown") then columns 12 uname_parts own last_but_one else own;
    }

abbrev differs : Option Text → Option Text → Bool
differs (some (c ∷ s)) (some (d ∷ t)) = not (text_eq (c ∷ s) (d ∷ t))
differs _ _ = false

unfoldable pub operating_mode_of : Dict Text → Text
operating_mode_of h_props =
    if differs (lookup (lit "transient hostname") h_props) (lookup (lit "static hostname") h_props)
    then lit "transient"
    else lit "static"

module _ {Float : Type 0} (floats : FloatOps Float) (tables : NumberTables)
    (cases : CaseTables) where
  -- steps 2 and 3: a line `key: value`, the key in lower case
  abbrev colon_entry : Option (Text × Text) → Dict Text → Dict Text
  colon_entry none props = props
  colon_entry (some (key, val)) props = insert (lower cases (strip key)) (strip val) props

  unfoldable pub colon_props : Dict Text → List Text → Dict Text
  colon_props props [] = props
  colon_props props (line ∷ lines) =
      colon_props (colon_entry (split_once b':' (strip line)) props) lines

  -- the number under a key, where there is one
  unfoldable pub int_prop : Text → Dict Text → Option ℤ
  int_prop key cpu_props = do token ← lookup key cpu_props; parse_int tables token

  -- step 6
  unfoldable pub cpu_info_of : Dict Text → CpuInfo Float
  unfolding or_text int_prop
  cpu_info_of cpu_props =
      let logical_cpu_count = or_else (pos 0) (int_prop (lit "cpu(s)") cpu_props) in
      record {
        cpu_model = or_text (lookup (lit "model name") cpu_props) (lit "unknown");
        vendor = or_text (lookup (lit "vendor id") cpu_props) (lit "unknown");
        logical_cpu_count = logical_cpu_count;
        physical_cpu_count = int_prop (lit "socket(s)") cpu_props;
        threads_per_core = or_else (pos 1) (int_prop (lit "thread(s) per core") cpu_props);
        cores_per_socket =
            or_else logical_cpu_count (int_prop (lit "core(s) per socket") cpu_props);
        cpu_mhz = lookup (lit "cpu mhz") cpu_props >>= floats.parse;
      }

  module _ (float_of_int : ℤ → Result Float) (before : ℕ → Float → Result ℕ) where
    -- step 8
    unfoldable pub boot_time_of : ℕ → Float → Result (Option ℕ)
    boot_time_of timestamp uptime =
        if floats.gt uptime (floats.of_ℕ 0)
        then Errors.◌>>=◌ (before timestamp uptime) (λ boot_time. ok (some boot_time))
        else ok none

    unfoldable pub parse_system :
        Text → Text → Text → Text → Text → Text → ℕ → Result (SystemMetrics Float)
    unfolding release_props colon_props host_name os_info_of cpu_info_of operating_mode_of
        boot_time_of
    parse_system hostnamectl_output uname_output os_release_output lscpu_output uptime_output
          timezone_output timestamp =
        let os_props = release_props [] (splitlines os_release_output) in
        let h_props = colon_props [] (splitlines hostnamectl_output) in
        let cpu_props = colon_props [] (splitlines lscpu_output) in
        let uname_parts = split uname_output in
        let hostname = host_name h_props uname_parts in
        let os_info = os_info_of os_props h_props uname_parts in
        let cpu_info = cpu_info_of cpu_props in
        Errors.◌>>=◌ (float_of_int (uptime_seconds tables cases uptime_output)) λ uptime.
          Errors.◌>>=◌ (boot_time_of timestamp uptime) λ boot_time.
            if text_eq hostname (lit "unknown")
              && (text_eq os_info.distribution_name (lit "Linux")
                  && (is_zero cpu_info.logical_cpu_count && floats.is_zero uptime))
            then raise validation (lit "Could not parse any valid host system information.")
            else ok (record {
              host_identity = record {
                hostname = hostname;
                machine_id = lookup (lit "machine id") h_props;
                boot_id = lookup (lit "boot id") h_props;
              };
              os_info = os_info;
              cpu_info = cpu_info;
              hardware = record {
                virtualization_type =
                    or_text (lookup (lit "virtualization") h_props)
                      (or_else (lit "none") (lookup (lit "virtualization") cpu_props));
                hypervisor_vendor = lookup (lit "hypervisor vendor") cpu_props;
              };
              system_state = record { system_uptime = uptime; boot_time = boot_time };
              timezone = or_text (some (strip timezone_output)) (lit "UTC");
              operating_mode = operating_mode_of h_props;
              timestamp = timestamp;
            })
