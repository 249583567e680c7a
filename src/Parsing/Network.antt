-- ===== src/Parsing/Network.antt =====
-- `NetworkParser.parse` (src/application/parsers/network_parser.py) and its metrics
-- (src/domain/metrics/network_metrics.py).
use ai_sre_platform_for_auto.Common.{
  ℕ, ℤ, pos, Text, Option, List, Bool, none, some, true, false, not, [], ◌∷◌, ◌&&◌, lit, contains,
  split, splitlines, starts_with, strip, if◌then◌else◌,
}
use ai_sre_platform_for_auto.Errors.{Result, ok, raise, validation}
use ai_sre_platform_for_auto.Parsing.{
  NumberTables, parse_int, or_else, part, following, gather, split_once, ◌>>=◌,
}
use ai_sre_platform_for_auto.Parsing.Hex.{parse_hex_ipv4, parse_hex_port}
use ai_sre_platform_for_auto.Parsing.{Row, columns}
use ai_sre_platform_for_auto.Common.{refl}

pub record NetworkInterfaceMetrics : Type 0 where
  pub interface_name : Text
  pub rx_bytes : ℤ
  pub rx_packets : ℤ
  pub rx_errors : ℤ
  pub rx_drops : ℤ
  pub rx_fifo_errors : ℤ
  pub rx_frame_errors : ℤ
  pub rx_compressed : ℤ
  pub rx_multicast : ℤ
  pub tx_bytes : ℤ
  pub tx_packets : ℤ
  pub tx_errors : ℤ
  pub tx_drops : ℤ
  pub tx_fifo_errors : ℤ
  pub collisions : ℤ
  pub carrier_errors : ℤ
  pub tx_compressed : ℤ

pub record InterfaceConfiguration : Type 0 where
  pub interface_name : Text
  pub ip_address : Text
  pub prefix_length : ℤ
  pub broadcast_address : Option Text
  pub scope : Text

pub record RouteMetrics : Type 0 where
  pub destination : Text
  pub gateway : Option Text
  pub interface : Text
  pub protocol : Option Text
  pub metric : Option ℤ

pub record TcpConnectionMetrics : Type 0 where
  pub local_address : Text
  pub local_port : ℤ
  pub remote_address : Text
  pub remote_port : ℤ
  pub connection_state : Text

pub record UdpConnectionMetrics : Type 0 where
  pub local_address : Text
  pub local_port : ℤ

pub record NetworkMetrics : Type 0 where
  pub interfaces : List NetworkInterfaceMetrics
  pub configurations : List InterfaceConfiguration
  pub routes : List RouteMetrics
  pub tcp_connections : List TcpConnectionMetrics
  pub udp_connections : List UdpConnectionMetrics
  pub timestamp : ℕ

unfoldable pub route_metric : NumberTables → Option Text → Option ℤ
route_metric tables none = none
route_metric tables (some token) = parse_int tables token

module _ (tables : NumberTables) where
  unfoldable pub counters : Text → Row 16 → Option NetworkInterfaceMetrics
  counters iface_name row = do
    rx_bytes ← parse_int tables (part row 0 refl)
    rx_packets ← parse_int tables (part row 1 refl)
    rx_errors ← parse_int tables (part row 2 refl)
    rx_drops ← parse_int tables (part row 3 refl)
    rx_fifo_errors ← parse_int tables (part row 4 refl)
    rx_frame_errors ← parse_int tables (part row 5 refl)
    rx_compressed ← parse_int tables (part row 6 refl)
    rx_multicast ← parse_int tables (part row 7 refl)
    tx_bytes ← parse_int tables (part row 8 refl)
    tx_packets ← parse_int tables (part row 9 refl)
    tx_errors ← parse_int tables (part row 10 refl)
    tx_drops ← parse_int tables (part row 11 refl)
    tx_fifo_errors ← parse_int tables (part row 12 refl)
    collisions ← parse_int tables (part row 13 refl)
    carrier_errors ← parse_int tables (part row 14 refl)
    tx_compressed ← parse_int tables (part row 15 refl)
    some (record {
      interface_name = iface_name;
      rx_bytes = rx_bytes;
      rx_packets = rx_packets;
      rx_errors = rx_errors;
      rx_drops = rx_drops;
      rx_fifo_errors = rx_fifo_errors;
      rx_frame_errors = rx_frame_errors;
      rx_compressed = rx_compressed;
      rx_multicast = rx_multicast;
      tx_bytes = tx_bytes;
      tx_packets = tx_packets;
      tx_errors = tx_errors;
      tx_drops = tx_drops;
      tx_fifo_errors = tx_fifo_errors;
      collisions = collisions;
      carrier_errors = carrier_errors;
      tx_compressed = tx_compressed;
    })

  -- a line of /proc/net/dev
  unfoldable pub dev_line : Text → Option NetworkInterfaceMetrics
  unfolding counters
  dev_line line = do
    (name, numbers) ← split_once b':' (strip line)
    columns 16 (split numbers) none (counters (strip name))

  -- the address and the length of the prefix
  abbrev address_of : Text → Option (Text × Text) → Option (Text × ℤ)
  address_of ip_prefix none = some (ip_prefix, pos 32)
  address_of ip_prefix (some (ip_addr, prefix_len_str)) = do
    prefix_length ← parse_int tables prefix_len_str
    some (ip_addr, prefix_length)

  unfoldable pub addr_row : Row 4 → Option InterfaceConfiguration
  addr_row row = do
    ip_prefix ← following (lit "inet") row.parts
    (ip_addr, prefix_length) ← address_of ip_prefix (split_once b'/' ip_prefix)
    some (record {
      interface_name = part row 1 refl;
      ip_address = ip_addr;
      prefix_length = prefix_length;
      broadcast_address = following (lit "brd") row.parts;
      scope = or_else (lit "unknown") (following (lit "scope") row.parts);
    })

  -- a line of `ip -o addr show`
  unfoldable pub addr_line : Text → Option InterfaceConfiguration
  unfolding addr_row
  addr_line line =
      if not (contains (strip line) (lit " inet "))
      then none
      else columns 4 (split (strip line)) none addr_row

  -- a line of `ip route show`
  unfoldable pub route_line : Text → Option RouteMetrics
  unfolding route_metric
  route_line line = columns 2 (split (strip line)) none (λ row. some (record {
    destination = part row 0 refl;
    gateway = following (lit "via") row.parts;
    interface = or_else (lit "unknown") (following (lit "dev") row.parts);
    protocol = following (lit "proto") row.parts;
    metric = route_metric tables (following (lit "metric") row.parts);
  }))

  unfoldable pub tcp_row : Row 4 → Option TcpConnectionMetrics
  tcp_row row = do
    (local_ip_hex, local_port_hex) ← split_once b':' (part row 1 refl)
    (remote_ip_hex, remote_port_hex) ← split_once b':' (part row 2 refl)
    some (record {
      local_address = parse_hex_ipv4 tables local_ip_hex;
      local_port = parse_hex_port tables local_port_hex;
      remote_address = parse_hex_ipv4 tables remote_ip_hex;
      remote_port = parse_hex_port tables remote_port_hex;
      connection_state = part row 3 refl;
    })

  -- a line of /proc/net/tcp
  unfoldable pub tcp_line : Text → Option TcpConnectionMetrics
  unfolding tcp_row
  tcp_line line =
      if starts_with (strip line) (lit "sl")
      then none
      else columns 4 (split (strip line)) none tcp_row

  unfoldable pub udp_row : Row 2 → Option UdpConnectionMetrics
  udp_row row = do
    (local_ip_hex, local_port_hex) ← split_once b':' (part row 1 refl)
    some (record {
      local_address = parse_hex_ipv4 tables local_ip_hex;
      local_port = parse_hex_port tables local_port_hex;
    })

  -- a line of /proc/net/udp
  unfoldable pub udp_line : Text → Option UdpConnectionMetrics
  unfolding udp_row
  udp_line line =
      if starts_with (strip line) (lit "sl")
      then none
      else columns 2 (split (strip line)) none udp_row

abbrev pub is_nil : {A : Type 0} → List A → Bool
is_nil [] = true
is_nil (x ∷ xs) = false

abbrev pub has_nothing : NetworkMetrics → Bool
has_nothing m =
    is_nil m.interfaces
    && (is_nil m.configurations
        && (is_nil m.routes && (is_nil m.tcp_connections && is_nil m.udp_connections)))

abbrev pub network_metrics : NetworkMetrics → Result NetworkMetrics
network_metrics m =
    if has_nothing m
    then raise validation (lit "Could not parse any network metrics from any output files.")
    else ok m

unfoldable pub parse_network :
    NumberTables → Text → Text → Text → Text → Text → ℕ → Result NetworkMetrics
unfolding dev_line addr_line route_line tcp_line udp_line
parse_network tables proc_net_dev_output ip_addr_output ip_route_output proc_tcp_output
      proc_udp_output timestamp =
    network_metrics (record {
      interfaces = gather (dev_line tables) (splitlines proc_net_dev_output);
      configurations = gather (addr_line tables) (splitlines ip_addr_output);
      routes = gather (route_line tables) (splitlines ip_route_output);
      tcp_connections = gather (tcp_line tables) (splitlines proc_tcp_output);
      udp_connections = gather (udp_line tables) (splitlines proc_udp_output);
      timestamp = timestamp;
    })
