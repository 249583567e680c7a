-- ===== src/Collector/Concrete/Logs.antt =====
-- The log collector (src/infrastructure/collectors/log_collector.py).
use ai_sre_platform_for_auto.Common.{ℕ}
use ai_sre_platform_for_auto.Errors.{Result, ok, raise}
use ai_sre_platform_for_auto.Values.{Fields}
use ai_sre_platform_for_auto.Executor.Linux.{CommandResult}
use ai_sre_platform_for_auto.Collector.{CollectorResult, log}
use ai_sre_platform_for_auto.Collector.Concrete.{
  CommandExecutor, parse_step, resolve_hostname, result_of,
}
use ai_sre_platform_for_auto.Collector.{Text, ℤ}
use ai_sre_platform_for_auto.Common.{[], ◌∷◌}
use ai_sre_platform_for_auto.Collector.{List}
use ai_sre_platform_for_auto.Collector.Concrete.{lit}
use ai_sre_platform_for_auto.Common.{if◌then◌else◌}

-- what a source gives: nothing where the command fails or raises
unfoldable pub output_of : Result CommandResult → Text
output_of (ok r) = if r.success then r.stdout else []
output_of (raise k message) = []

module _ {S : Type 0} where
  -- a command under its own `try`
  unfoldable pub output : CommandExecutor S → Text → List Text → S → Text × S
  unfolding output_of
  output execute command args s = let (r, s') = execute command args s in (output_of r, s')

  -- step 2: the system log, when the journal gave nothing
  unfoldable pub syslog_fallback : CommandExecutor S → Text → S → Text × S
  syslog_fallback execute [] s =
      output execute (lit "tail") (lit "-n" ∷ lit "1000" ∷ lit "/var/log/syslog" ∷ []) s
  syslog_fallback execute (c ∷ journal) s = ([], s)

module _ {S Float : Type 0} (clock : S → ℕ) (elapsed : S → S → ℤ)
    (parse : Text → Text → Text → ℕ → Result (Fields Float)) where
  -- `LogCollector.collect`
  unfoldable pub log_collect : CommandExecutor S → S → CollectorResult Float × S
  unfolding output syslog_fallback
  log_collect execute s =
      let (hostname, s₁) = resolve_hostname execute s in
      let (journal, s₂) =
        output execute (lit "journalctl")
          (lit "--no-pager" ∷ lit "--output=short-iso" ∷ lit "-n" ∷ lit "1000" ∷ []) s₁ in
      let (syslog, s₃) = syslog_fallback execute journal s₂ in
      let (messages, s₄) =
        output execute (lit "tail") (lit "-n" ∷ lit "1000" ∷ lit "/var/log/messages" ∷ []) s₃ in
      (
        result_of clock elapsed (lit "LogCollector") log s s₄ hostname
            (parse_step (parse journal syslog messages (clock s))),
        s₄,
      )
