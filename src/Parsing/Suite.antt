-- ===== src/Parsing/Suite.antt =====
-- The parsers as the collectors of src/infrastructure/collectors call them: `parse`, then
-- `model_dump` of the metrics, which is a parameter. The collectors of logs, of Docker and of
-- Kubernetes keep their parsers as parameters.
use ai_sre_platform_for_auto.Common.{ℕ, ℤ, ◌≡◌, sym, ap, Text, CaseTables, some, lit, All}
use ai_sre_platform_for_auto.Errors.{Result, ok, raise, ◌>>=◌}
use ai_sre_platform_for_auto.Values.{FloatOps, Fields, end, text, obj, get}
use ai_sre_platform_for_auto.Collector.Concrete.{CommandExecutor}
use ai_sre_platform_for_auto.Collector.Concrete.Suite.{Parsers, collectors}
use ai_sre_platform_for_auto.Collector.Concrete.Reports.{
  IsIdentified, HasIdentity, Answers, collectors-Answers,
}
use ai_sre_platform_for_auto.Parsing.{NumberTables}
use ai_sre_platform_for_auto.Parsing.Cpu.{CpuMetrics, parse_cpu}
use ai_sre_platform_for_auto.Parsing.Memory.{MemoryMetrics, parse_memory}
use ai_sre_platform_for_auto.Parsing.Disk.{DiskMetrics, parse_disk}
use ai_sre_platform_for_auto.Parsing.Network.{NetworkMetrics, parse_network}
use ai_sre_platform_for_auto.Parsing.System.{SystemMetrics, parse_system}
use ai_sre_platform_for_auto.Parsing.Service.{ServiceMetrics, parse_service}

-- `model_dump` of the metrics
pub record Dumps (Float : Type 0) : Type 0 where
  pub cpu_metrics : CpuMetrics Float → Fields Float
  pub memory_metrics : MemoryMetrics → Fields Float
  pub disk_metrics : DiskMetrics → Fields Float
  pub network_metrics : NetworkMetrics → Fields Float
  pub system_metrics : SystemMetrics Float → Fields Float
  pub service_metrics : ServiceMetrics → Fields Float

-- what the interpreter brings to the parsers
pub record Runtime (Float : Type 0) : Type 0 where
  pub floats : FloatOps Float
  pub numbers : NumberTables
  pub cases : CaseTables
  pub float_of_int : ℤ → Result Float
  pub before : ℕ → Float → Result ℕ

unfoldable pub dumped : {A Float : Type 0} → (A → Fields Float) → Result A → Result (Fields Float)
dumped dump r = r >>= λ m. ok (dump m)

abbrev payload_of : {Float : Type 0} → Result (Fields Float) → Fields Float
payload_of (ok payload) = payload
payload_of (raise kind message) = end

module _ {Float : Type 0} (runtime : Runtime Float) (dumps : Dumps Float) where
  unfoldable pub system_dump : Text → Text → Text → Text → Text → Text → ℕ → Result (Fields Float)
  unfolding dumped
  system_dump hostnamectl uname os_release lscpu uptime timezone timestamp =
      dumped dumps.system_metrics (
        parse_system runtime.floats runtime.numbers runtime.cases runtime.float_of_int
          runtime.before hostnamectl uname os_release lscpu uptime timezone timestamp)

  unfoldable pub with_parsers : Parsers Float → Parsers Float
  unfolding dumped system_dump
  with_parsers parsers = record parsers {
    cpu_parser = λ stat loadavg timestamp.
        dumped dumps.cpu_metrics (parse_cpu runtime.numbers runtime.floats stat loadavg timestamp);
    memory_parser = λ meminfo timestamp.
        dumped dumps.memory_metrics (parse_memory runtime.numbers meminfo timestamp);
    disk_parser = λ df diskstats timestamp.
        dumped dumps.disk_metrics (parse_disk runtime.numbers df diskstats timestamp);
    network_parser = λ dev addr route tcp udp timestamp.
        dumped dumps.network_metrics
          (parse_network runtime.numbers dev addr route tcp udp timestamp);
    system_parser = system_dump;
    service_parser = λ list_units show_output timestamp.
        dumped dumps.service_metrics
          (parse_service runtime.numbers list_units show_output timestamp);
  }

  -- `model_dump` writes the host identity, with the host name, under the names of the fields.
  abbrev pub DumpsIdentity : Type 0
  DumpsIdentity =
      (m : SystemMetrics Float)
      → (identity : Fields Float) × (get (lit "host_identity") (dumps.system_metrics m)
          ≡ some (obj identity))
        × (get (lit "hostname") identity ≡ some (text m.host_identity.hostname))

  dumped-IsIdentified :
      DumpsIdentity
      → (r : Result (SystemMetrics Float)) (payload : Fields Float)
      → dumped dumps.system_metrics r ≡ ok payload
      → IsIdentified payload
  unfolding dumped
  dumped-IsIdentified h (raise kind message) payload e = cc e
  dumped-IsIdentified h (ok m) payload e =
      let (identity, p, q) = h m in
      rw (ap payload_of (sym e)) (identity, m.host_identity.hostname, p, q)

  system_dump-HasIdentity : DumpsIdentity → HasIdentity system_dump
  unfolding system_dump
  system_dump-HasIdentity h a b c d e f t payload k = dumped-IsIdentified h _ payload k

  -- With the platform's own parsers of processors, memory, disks, network, system and services,
  -- each of the nine collectors answers with a result under its own name and metric type, which is
  -- SUCCESS without errors or FAILED with some, whatever the executor answers or raises and
  -- whatever the texts are, where `model_dump` writes the host name under its field's name.
  pub with_parsers-Answers :
      {S : Type 0} (clock : S → ℕ) (elapsed : S → S → ℤ) (parsers : Parsers Float)
      → DumpsIdentity
      → All
          (λ c. (e : CommandExecutor S) (s : S) → Answers c (c.collect e s))
          (collectors runtime.floats clock elapsed (with_parsers parsers))
  unfolding with_parsers
  with_parsers-Answers clock elapsed parsers h =
      collectors-Answers runtime.floats clock elapsed (with_parsers parsers)
        (system_dump-HasIdentity h)
