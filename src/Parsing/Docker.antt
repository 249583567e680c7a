-- ===== src/Parsing/Docker.antt =====
-- The tables of `DockerParser` (src/application/parsers/docker_parser.py) with their metrics
-- (src/domain/metrics/docker_metrics.py). `parse_container_metadata`, which reads JSON, is a
-- parameter, and so is `int(val * mult)` on a float.
use ai_sre_platform_for_auto.Common.{
  ℕ, ◌*◌, ℤ, pos, Text, CaseTables, Option, List, Bool, none, some, [], ◌∷◌, ◌==◌, ◌&&◌, ◌||◌, lit,
  all, leb, lookup, lstrip, split, splitlines, strip, text_eq, upper, Dict, if◌then◌else◌,
}
use ai_sre_platform_for_auto.Errors.{Result, ok, raise, value_error, ◌>>=◌}
use ai_sre_platform_for_auto.Values.{FloatOps}
use ai_sre_platform_for_auto.Parsing.{NumberTables, gather, or_else, parse_int, part, rstrip_char}
use ai_sre_platform_for_auto.Parsing.{Row, columns, first_part}
use ai_sre_platform_for_auto.Common.{refl}

pub record ContainerStats (Float : Type 0) : Type 0 where
  pub container_id : Text
  pub name : Text
  pub cpu_percentage : Float
  pub memory_usage_bytes : ℤ
  pub memory_limit_bytes : ℤ
  pub memory_percentage : Float
  pub network_rx_bytes : ℤ
  pub network_tx_bytes : ℤ
  pub block_read_bytes : ℤ
  pub block_write_bytes : ℤ
  pub pids_count : ℤ

pub record DockerNetwork : Type 0 where
  pub network_id : Text
  pub name : Text
  pub driver : Text
  pub scope : Text

pub record DockerVolume : Type 0 where
  pub name : Text
  pub driver : Text
  pub mountpoint : Option Text

pub record DockerMetrics (Metadata Float : Type 0) : Type 0 where
  pub containers : List Metadata
  pub stats : List (ContainerStats Float)
  pub networks : List DockerNetwork
  pub volumes : List DockerVolume
  pub timestamp : ℕ

abbrev pub multipliers : Dict ℕ
multipliers =
    (lit "", 1)
    ∷ (lit "B", 1)
    ∷ (lit "KB", 1000)
    ∷ (lit "MB", 1000 * 1000)
    ∷ (lit "GB", 1000 * 1000 * 1000)
    ∷ (lit "TB", 1000 * 1000 * 1000 * 1000)
    ∷ (lit "KIB", 1024)
    ∷ (lit "MIB", 1024 * 1024)
    ∷ (lit "GIB", 1024 * 1024 * 1024)
    ∷ (lit "TIB", 1024 * 1024 * 1024 * 1024)
    ∷ (lit "K", 1024)
    ∷ (lit "M", 1024 * 1024)
    ∷ (lit "G", 1024 * 1024 * 1024)
    ∷ []

abbrev is_amount : ℕ → Bool
is_amount c = (leb 48 c && leb c 57) || c == b'.'

-- the group `([0-9.]+)`, and what follows it
unfoldable pub amount_of : Text → Text × Text
amount_of [] = ([], [])
amount_of (c ∷ s) =
    let (amount, rest) = amount_of s in if is_amount c then (c ∷ amount, rest) else ([], c ∷ s)

-- the group `([A-Z]*)` up to the end, after `\s*`
abbrev unit_of : Text → Option Text
unit_of s = if all (λ c. leb b'A' c && leb c b'Z') (lstrip s) then some (lstrip s) else none

abbrev with_unit : Text × Text → Option (Text × Text)
with_unit ([], rest) = none
with_unit (c ∷ amount, rest) = elim (unit_of rest) [
  | none ↦ none
  | some unit ↦ some (c ∷ amount, unit)
]

-- `re.match(r"^([0-9.]+)\s*([A-Z]*)$", s)`
unfoldable pub match_size : Text → Option (Text × Text)
unfolding amount_of
match_size s = with_unit (amount_of s)

-- `for line in lines[1:]`, where there is more than one
abbrev pub below_header : List Text → List Text
below_header [] = []
below_header (header ∷ lines) = lines

-- a line of `docker network ls`
unfoldable pub network_row : Text → Option DockerNetwork
network_row line = columns 4 (split line) none (λ row. some (record {
  network_id = part row 0 refl;
  name = part row 1 refl;
  driver = part row 2 refl;
  scope = part row 3 refl;
}))

unfoldable pub parse_networks : Text → List DockerNetwork
unfolding network_row
parse_networks network_output =
    gather network_row (below_header (splitlines (strip network_output)))

-- a line of `docker volume ls`
unfoldable pub volume_row : Text → Option DockerVolume
volume_row line =
    columns 2 (split line) none
      (λ row. some (record { driver = part row 0 refl; name = part row 1 refl; mountpoint = none }))

unfoldable pub parse_volumes : Text → List DockerVolume
unfolding volume_row
parse_volumes volume_output = gather volume_row (below_header (splitlines (strip volume_output)))

module _ {Float : Type 0} (floats : FloatOps Float) (tables : NumberTables) (cases : CaseTables)
    (int_of_product : Float → ℕ → Result ℤ) where
  abbrev size_of : Option (Text × Text) → Result ℤ
  size_of none = ok (pos 0)
  size_of (some (amount, unit)) = elim (floats.parse amount) [
    | none ↦ ok (pos 0)
    | some val ↦ int_of_product val (or_else 1 (lookup unit multipliers))
  ]

  unfoldable pub parse_size_in_bytes : Text → Result ℤ
  unfolding match_size
  parse_size_in_bytes size_str =
      let size = upper cases (strip size_str) in
      if text_eq size (lit "") || (text_eq size (lit "0B") || text_eq size (lit "0"))
      then ok (pos 0)
      else size_of (match_size (strip (first_part b'/' size)))

  abbrev float : Text → Result Float
  float s = elim (floats.parse s) [ none ↦ raise value_error [] | some x ↦ ok x ]

  abbrev int : Text → Result ℤ
  int s = elim (parse_int tables s) [ none ↦ raise value_error [] | some n ↦ ok n ]

  unfoldable pub stats_row : Row 14 → Result (ContainerStats Float)
  unfolding parse_size_in_bytes
  stats_row row = do
    cpu_pct ← float (rstrip_char b'%' (part row 2 refl))
    mem_usage ← parse_size_in_bytes (part row 3 refl)
    mem_limit ← parse_size_in_bytes (part row 5 refl)
    mem_pct ← float (rstrip_char b'%' (part row 6 refl))
    net_rx ← parse_size_in_bytes (part row 7 refl)
    net_tx ← parse_size_in_bytes (part row 9 refl)
    blk_read ← parse_size_in_bytes (part row 10 refl)
    blk_write ← parse_size_in_bytes (part row 12 refl)
    pids ← int (part row 13 refl)
    ok (record {
      container_id = part row 0 refl;
      name = part row 1 refl;
      cpu_percentage = cpu_pct;
      memory_usage_bytes = mem_usage;
      memory_limit_bytes = mem_limit;
      memory_percentage = mem_pct;
      network_rx_bytes = net_rx;
      network_tx_bytes = net_tx;
      block_read_bytes = blk_read;
      block_write_bytes = blk_write;
      pids_count = pids;
    })

  abbrev kept_stats : Result (ContainerStats Float) → Option (ContainerStats Float)
  kept_stats (ok stats) = some stats
  kept_stats (raise kind message) = none

  -- a line of `docker stats`
  unfoldable pub stats_line : Text → Option (ContainerStats Float)
  unfolding stats_row
  stats_line line = columns 14 (split line) none (λ row. kept_stats (stats_row row))

  unfoldable pub parse_container_stats : Text → List (ContainerStats Float)
  unfolding stats_line
  parse_container_stats stats_output =
      gather stats_line (below_header (splitlines (strip stats_output)))

  unfoldable pub parse_docker :
      {Metadata : Type 0}
      → (Text → List Metadata)
      → Text
      → Text
      → Text
      → Text
      → ℕ
      → DockerMetrics Metadata Float
  unfolding parse_container_stats
  parse_docker parse_container_metadata inspect_output stats_output network_output volume_output
        timestamp =
      record {
        containers = parse_container_metadata inspect_output;
        stats = parse_container_stats stats_output;
        networks = parse_networks network_output;
        volumes = parse_volumes volume_output;
        timestamp = timestamp;
      }
