-- ===== src/Discovery/Parsers/Hardware.antt =====
-- `CPUParser` and `NetworkParser` of src/application/discovery/parsers.py.
use ai_sre_platform_for_auto.Common.{
  ℤ, pos, Text, Dict, Option, List, none, some, not, [], ◌∷◌, ◌++◌, ◌&&◌, lit, split, splitlines,
  contains, member, lookup, insert, if◌then◌else◌,
}
use ai_sre_platform_for_auto.Errors.{Result, ok, raise, builtin, ◌>>=◌}
use ai_sre_platform_for_auto.Inventory.{CpuInfo, NetworkInterfaceInfo}
use ai_sre_platform_for_auto.Parsing.{
  NumberTables, following, or_else, parse_int, part, rstrip_char, split_once,
}
use ai_sre_platform_for_auto.Discovery.Parsers.Texts.{value_of}
use ai_sre_platform_for_auto.Parsing.{columns}
use ai_sre_platform_for_auto.Common.{refl}

module _ (tables : NumberTables) where
  abbrev int_or : ℤ → Text → ℤ
  int_or before line = or_else before (parse_int tables (value_of line))

  -- one line of lscpu
  unfoldable pub cpu_line : Text → CpuInfo → CpuInfo
  unfolding value_of
  cpu_line line info =
      if contains line (lit "Model name:")
      then record info { model = value_of line }
      else if contains line (lit "CPU(s):") && not (contains line (lit "NUMA"))
      then record info { cores = int_or info.cores line }
      else if contains line (lit "Socket(s):")
      then record info { sockets = int_or info.sockets line }
      else if contains line (lit "Thread(s) per core:")
      then record info { threads_per_core = int_or info.threads_per_core line }
      else if contains line (lit "Architecture:")
      then record info { architecture = value_of line }
      else info

  unfoldable pub cpu_lines : CpuInfo → List Text → CpuInfo
  unfolding cpu_line
  cpu_lines info [] = info
  cpu_lines info (line ∷ lines) = cpu_lines (cpu_line line info) lines

  -- `CPUParser`
  unfoldable pub cpu_parse : Text → CpuInfo
  unfolding cpu_lines
  cpu_parse output =
      cpu_lines
        (record {
          model = lit "Unknown CPU";
          cores = pos 1;
          sockets = pos 1;
          threads_per_core = pos 1;
          architecture = lit "Unknown";
        })
        (splitlines output)

-- `interfaces[ifname].append(ip)`, after an empty list where there is none
abbrev appended : Option (List Text) → Text → List Text
appended none ip = ip ∷ []
appended (some ips) ip = ips ++ ip ∷ []

unfoldable pub bound : Text → Text → Dict (List Text) → Dict (List Text)
bound ifname ip interfaces = insert ifname (appended (lookup ifname interfaces) ip) interfaces

-- `parts[idx + 1].split("/")[0]`, which raises an IndexError where nothing follows
unfoldable pub address_after : Text → List Text → Result Text
address_after key parts = elim (following key parts) [
  | none ↦ raise builtin []
  | some prefix ↦ elim (split_once b'/' prefix) [ none ↦ ok prefix | some (ip, rest) ↦ ok ip ]
]

-- one line of `ip -o addr show`
unfoldable pub interface_line : List Text → Dict (List Text) → Result (Dict (List Text))
unfolding bound address_after
interface_line parts interfaces = columns 4 parts (ok interfaces) (λ row.
    let ifname = rstrip_char b':' (part row 1 refl) in
    if member (lit "inet") parts
    then address_after (lit "inet") parts >>= (λ ip. ok (bound ifname ip interfaces))
    else if member (lit "inet6") parts
    then address_after (lit "inet6") parts >>= (λ ip. ok (bound ifname ip interfaces))
    else ok interfaces)

unfoldable pub interface_lines : Dict (List Text) → List Text → Result (Dict (List Text))
unfolding interface_line
interface_lines interfaces [] = ok interfaces
interface_lines interfaces (line ∷ lines) =
    interface_line (split line) interfaces >>= λ more. interface_lines more lines

unfoldable pub interfaces_of : Dict (List Text) → List NetworkInterfaceInfo
interfaces_of [] = []
interfaces_of ((name, ips) ∷ interfaces) =
    record { name = name; ip_addresses = ips; mac_address = none; state = lit "UP" }
    ∷ interfaces_of interfaces

-- `NetworkParser`
unfoldable pub network_parse : Text → Result (List NetworkInterfaceInfo)
unfolding interface_lines interfaces_of
network_parse output =
    interface_lines [] (splitlines output) >>= λ interfaces. ok (interfaces_of interfaces)
