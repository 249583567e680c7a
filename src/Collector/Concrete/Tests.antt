-- ===== src/Collector/Concrete/Tests.antt =====
-- The nine collectors with parsers that give one field, over an executor that always answers.
use ai_sre_platform_for_auto.Common.{
  ℕ, [], ◌∷◌, ◌==◌, ◌≡◌, false, none, some, pos, lit, ltb, show, length, ascii_tables,
}
use ai_sre_platform_for_auto.Errors.{Result, ok, raise, builtin}
use ai_sre_platform_for_auto.Values.{FloatOps, Fields, end, field, text, obj}
use ai_sre_platform_for_auto.Executor.Linux.{CommandResult, Trace, Host, done, execute}
use ai_sre_platform_for_auto.Collector.{failed}
use ai_sre_platform_for_auto.Collector.Concrete.{CommandExecutor}
use ai_sre_platform_for_auto.Executor.Validator.{validate}
use ai_sre_platform_for_auto.Common.{Option, refl}
use ai_sre_platform_for_auto.Collector.Concrete.Suite.{Parsers}
use ai_sre_platform_for_auto.Collector.Concrete.Docker.{docker_collect}
use ai_sre_platform_for_auto.Collector.Concrete.Refused.{Runs, docker_collect-failed}
use ai_sre_platform_for_auto.Common.{true}

abbrev floats : FloatOps ℕ
floats = record {
  gt = λ a b. ltb b a;
  is_zero = λ a. a == 0;
  of_ℕ = λ n. n;
  parse = λ s. none;
  show = show;
}

abbrev parsed : Fields ℕ
parsed = field (lit "status") (text (lit "up")) end

abbrev identity : Fields ℕ
identity = field (lit "hostname") (text (lit "web-1")) end

abbrev identified : Fields ℕ
identified = field (lit "host_identity") (obj identity) end

abbrev parsers : Parsers ℕ
parsers = record {
  cpu_parser = λ a b t. ok parsed;
  memory_parser = λ a t. ok parsed;
  disk_parser = λ a b t. ok parsed;
  network_parser = λ a b c d e t. ok parsed;
  system_parser = λ a b c d e f t. ok identified;
  service_parser = λ a b t. ok parsed;
  log_parser = λ a b c t. ok parsed;
  docker_parser = λ a b c d t. ok parsed;
  kubernetes_parser = λ a b c d e f g t. ok parsed;
}

-- A host on which every process prints "up" and returns zero.
abbrev answering : Host ℕ
answering = record {
  create_subprocess_exec = λ c a t. done tt;
  communicate = λ l t.
      done
        (record { stdout_bytes = b'u' ∷ b'p' ∷ []; stderr_bytes = []; returncode = some (pos 0) });
  kill_fails = λ t. false;
  wait_returns = λ t. true;
  decode = λ b. b;
  show_timeout = λ l. lit "5.0";
  elapsed_ms = λ t. 3;
  now = λ t. 7;
}

-- What this host lets the executor return.
abbrev or_ended : Option (Result CommandResult) → Result CommandResult
or_ended none = raise builtin []
or_ended (some r) = r

abbrev answering_executor : CommandExecutor Trace
answering_executor command args t =
    let (r, t') = execute answering (validate ascii_tables) command (some args) none t in
    (or_ended r, t')

answering-Runs : Runs answering ascii_tables answering_executor
answering-Runs command args t r t' h = rw h refl

docker_collect-failed_example :
    (docker_collect length
      (λ s s'. pos (length s'))
      parsers.docker_parser
      answering_executor
      []).0.status
    ≡ failed
docker_collect-failed_example =
    docker_collect-failed answering ascii_tables length (λ s s'. pos (length s'))
      parsers.docker_parser answering_executor answering-Runs []
