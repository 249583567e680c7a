-- ===== src/Collector/Concrete/Simple.antt =====
-- The CPU, memory, disk, network, system and service collectors.
use ai_sre_platform_for_auto.Common.{ℕ, none, some, [], ◌∷◌, ◌++◌}
use ai_sre_platform_for_auto.Errors.{Result}
use ai_sre_platform_for_auto.Effects.{Exec, pure, ◌>>=◌}
use ai_sre_platform_for_auto.Values.{Fields}
use ai_sre_platform_for_auto.Executor.Linux.{CommandResult}
use ai_sre_platform_for_auto.Collector.Concrete.{CommandExecutor, Report, broken, parse_step}
use ai_sre_platform_for_auto.Collector.{List, Text}
use ai_sre_platform_for_auto.Collector.Concrete.{lit}
use ai_sre_platform_for_auto.Common.{Option, join, split}
use ai_sre_platform_for_auto.Collector.Concrete.{strip}
use ai_sre_platform_for_auto.Common.{false, if◌then◌else◌, true}
use ai_sre_platform_for_auto.Common.{ends_with, not, splitlines}
use ai_sre_platform_for_auto.Common.{Bool}

-- one `if not res.success: failed_commands.append(...)`
abbrev pub failure : Text → CommandResult → List Text → List Text
failure label r rest = if r.success then rest else (label ++ r.stderr) ∷ rest

abbrev pub unless_failed : {Float : Type 0} → Text → List Text → Report Float → Report Float
unless_failed label [] report = report
unless_failed label (f ∷ fs) report = broken (label ++ join (lit ", ") (f ∷ fs))

-- the unit names in the first column
abbrev first_unit : List Text → List Text → List Text
first_unit [] rest = rest
first_unit (part ∷ parts) rest = if ends_with part (lit ".service") then part ∷ rest else rest

unfoldable pub unit_names : List Text → List Text
unit_names [] = []
unit_names (line ∷ lines) = first_unit (split (strip line)) (unit_names lines)

-- `systemctl show` for the units, if there are any
unfoldable pub show_units : {S : Type 0} → CommandExecutor S → List Text → Exec S (Option Text)
show_units execute [] = pure none
show_units execute (name ∷ names) = do
  show_res ← execute (lit "systemctl") (lit "show" ∷ name ∷ names)
  pure (if show_res.success then some show_res.stdout else none)

module _ {S Float : Type 0} where
  -- `CPUCollector`
  unfoldable pub cpu_query :
      (Text → Text → ℕ → Result (Fields Float)) → CommandExecutor S → ℕ → Exec S (Report Float)
  cpu_query parse execute timestamp = do
    stat_res ← execute (lit "cat") (lit "/proc/stat" ∷ [])
    loadavg_res ← execute (lit "cat") (lit "/proc/loadavg" ∷ [])
    pure (
        if not stat_res.success
        then broken (lit "Failed to read /proc/stat: " ++ stat_res.stderr)
        else if not loadavg_res.success
        then broken (lit "Failed to read /proc/loadavg: " ++ loadavg_res.stderr)
        else parse_step (parse stat_res.stdout loadavg_res.stdout timestamp))

  -- `MemoryCollector`
  unfoldable pub memory_query :
      (Text → ℕ → Result (Fields Float)) → CommandExecutor S → ℕ → Exec S (Report Float)
  memory_query parse execute timestamp = do
    cmd_result ← execute (lit "cat") (lit "/proc/meminfo" ∷ [])
    pure (
        if not cmd_result.success
        then broken (lit "Command execution failed: " ++ cmd_result.stderr)
        else parse_step (parse cmd_result.stdout timestamp))

  -- `DiskCollector`
  unfoldable pub disk_query :
      (Text → Text → ℕ → Result (Fields Float)) → CommandExecutor S → ℕ → Exec S (Report Float)
  disk_query parse execute timestamp = do
    df_res ←
        execute (lit "df")
          (lit "-B1" ∷ lit "--output=source,fstype,size,used,avail,pcent,target" ∷ [])
    stats_res ← execute (lit "cat") (lit "/proc/diskstats" ∷ [])
    pure (
        if not df_res.success
        then broken (lit "Failed to execute df: " ++ df_res.stderr)
        else if not stats_res.success
        then broken (lit "Failed to read /proc/diskstats: " ++ stats_res.stderr)
        else parse_step (parse df_res.stdout stats_res.stdout timestamp))

  -- `NetworkCollector`
  unfoldable pub network_query :
      (Text → Text → Text → Text → Text → ℕ → Result (Fields Float))
      → CommandExecutor S
      → ℕ
      → Exec S (Report Float)
  network_query parse execute timestamp = do
    dev_res ← execute (lit "cat") (lit "/proc/net/dev" ∷ [])
    addr_res ← execute (lit "ip") (lit "-o" ∷ lit "addr" ∷ lit "show" ∷ [])
    route_res ← execute (lit "ip") (lit "route" ∷ lit "show" ∷ [])
    tcp_res ← execute (lit "cat") (lit "/proc/net/tcp" ∷ [])
    udp_res ← execute (lit "cat") (lit "/proc/net/udp" ∷ [])
    pure (
        unless_failed (lit "Failed to gather network raw source data: ")
          (failure (lit "/proc/net/dev: ") dev_res (
            failure (lit "ip addr: ") addr_res (
              failure (lit "ip route: ") route_res (
                failure (lit "/proc/net/tcp: ") tcp_res
                  (failure (lit "/proc/net/udp: ") udp_res [])))))
          (parse_step (
            parse dev_res.stdout addr_res.stdout route_res.stdout tcp_res.stdout udp_res.stdout
              timestamp)))

  -- `SystemCollector`
  unfoldable pub system_query :
      (Text → Text → Text → Text → Text → Text → ℕ → Result (Fields Float))
      → CommandExecutor S
      → ℕ
      → Exec S (Report Float)
  system_query parse execute timestamp = do
    hctl_res ← execute (lit "hostnamectl") []
    uname_res ← execute (lit "uname") (lit "-a" ∷ [])
    osrel_res ← execute (lit "cat") (lit "/etc/os-release" ∷ [])
    lscpu_res ← execute (lit "lscpu") []
    uptime_res ← execute (lit "uptime") []
    tz_res ← execute (lit "cat") (lit "/etc/timezone" ∷ [])
    pure (
        unless_failed (lit "Failed to gather system metadata: ")
          (failure (lit "uname -a: ") uname_res (
            failure (lit "/etc/os-release: ") osrel_res
              (failure (lit "lscpu: ") lscpu_res (failure (lit "uptime: ") uptime_res []))))
          (parse_step (
            parse (if hctl_res.success then hctl_res.stdout else []) uname_res.stdout
              osrel_res.stdout lscpu_res.stdout uptime_res.stdout
              (if tz_res.success then strip tz_res.stdout else lit "UTC") timestamp)))

  -- the rest once the list of units is there, if it is
  unfoldable pub service_details :
      (Text → Option Text → ℕ → Result (Fields Float))
      → CommandExecutor S
      → ℕ
      → CommandResult
      → Bool
      → Exec S (Report Float)
  unfolding unit_names show_units
  service_details parse execute timestamp list_res true = do
    show_stdout ← show_units execute (unit_names (splitlines list_res.stdout))
    pure (parse_step (parse list_res.stdout show_stdout timestamp))
  service_details parse execute timestamp list_res false =
      pure (broken (lit "Failed to execute systemctl list-units: " ++ list_res.stderr))

  -- `ServiceCollector`
  unfoldable pub service_query :
      (Text → Option Text → ℕ → Result (Fields Float))
      → CommandExecutor S
      → ℕ
      → Exec S (Report Float)
  unfolding service_details
  service_query parse execute timestamp = do
    list_res ← execute (lit "systemctl") (
        lit "list-units"
        ∷ lit "--type=service"
        ∷ lit "--all"
        ∷ lit "--no-pager"
        ∷ lit "--no-legend"
        ∷ [])
    service_details parse execute timestamp list_res list_res.success
