-- ===== src/Collector/Concrete.antt =====
-- What the concrete collectors share (src/infrastructure/collectors). A collector runs commands by
-- an executor over the world `S`, and hands what they print to its parser; a parser is a function
-- from the outputs to the dumped metrics, or an exception. `clock` is the time and `elapsed` the
-- milliseconds between two states.
pub mod Simple
pub mod Logs
pub mod Docker
pub mod Kubernetes
pub mod Suite
pub mod Statuses
pub mod Reports
pub mod Refused
mod Tests
use ai_sre_platform_for_auto.Common.{ℕ, none, some, [], ◌∷◌, ◌++◌}
use ai_sre_platform_for_auto.Errors.{Result, ok, raise}
use ai_sre_platform_for_auto.Effects.{Exec}
use ai_sre_platform_for_auto.Values.{Fields, end}
use ai_sre_platform_for_auto.Executor.Linux.{CommandResult}
use ai_sre_platform_for_auto.Collector.{
  CollectorResult, CollectorStatus, MetricType, success, failed,
}
use ai_sre_platform_for_auto.Collector.{List, Text, ℤ}
use ai_sre_platform_for_auto.Common.{lit}
use ai_sre_platform_for_auto.Common.{if◌then◌else◌}
use ai_sre_platform_for_auto.Common.{strip}

-- `CommandExecutor.execute`
abbrev pub CommandExecutor : Type 0 → Type 0
CommandExecutor S = Text → List Text → Exec S CommandResult

-- The local variables that a `collect` fills in.
pub record Report (Float : Type 0) : Type 0 where
  pub payload : Fields Float
  pub status : CollectorStatus
  pub errors : List Text

module _ {Float : Type 0} where
  unfoldable pub reported : Fields Float → Report Float
  reported payload = record { payload = payload; status = success; errors = [] }

  unfoldable pub broken : Text → Report Float
  broken error = record { payload = end; status = failed; errors = error ∷ [] }

  -- the inner `try` around the parser
  unfoldable pub parse_step : Result (Fields Float) → Report Float
  unfolding reported broken
  parse_step (ok payload) = reported payload
  parse_step (raise k message) = broken (lit "Parsing failed: " ++ message)

  -- the outer `try`
  unfoldable pub guarded : Result (Report Float) → Report Float
  unfolding broken
  guarded (ok report) = report
  guarded (raise k message) =
      broken (lit "Collector execution encountered unexpected error: " ++ message)

unfoldable pub hostname_of : Result CommandResult → Text
hostname_of (ok r) = if r.success then strip r.stdout else lit "unknown"
hostname_of (raise k message) = lit "unknown"

-- the block that asks for the host name
unfoldable pub resolve_hostname : {S : Type 0} → CommandExecutor S → S → Text × S
unfolding hostname_of
resolve_hostname execute s = let (r, s') = execute (lit "hostname") [] s in (hostname_of r, s')

module _ {S Float : Type 0} (clock : S → ℕ) (elapsed : S → S → ℤ) where
  -- the `CollectorResult` at the end, for a run from `s` to `s'`
  unfoldable pub result_of : Text → MetricType → S → S → Text → Report Float → CollectorResult Float
  result_of name metric_type s s' hostname report = record {
    timestamp = clock s;
    hostname = hostname;
    collector_name = name;
    metric_type = metric_type;
    payload = report.payload;
    status = report.status;
    errors = report.errors;
    execution_time_ms = elapsed s s';
  }

  -- A `collect` whose commands all stand in one `try`.
  unfoldable pub collect_by :
      Text
      → MetricType
      → (ℕ → Exec S (Report Float))
      → CommandExecutor S
      → S
      → CollectorResult Float × S
  unfolding resolve_hostname result_of guarded
  collect_by name metric_type query execute s =
      let (hostname, s₁) = resolve_hostname execute s in
      let (r, s₂) = query (clock s) s₁ in (result_of name metric_type s s₂ hostname (guarded r), s₂)
