-- ===== src/Parsing/Tests.antt =====
-- The parsers on small outputs.
use ai_sre_platform_for_auto.Common.{
  ℕ, pos, ◌-◌, ◌≡◌, refl, arith, All, none, some, true, [], ◌∷◌, ◌++◌, lit, show, length, ltb, ◌==◌,
  ascii_tables, Text, splitlines, insert, lookup, text_eq, split, splitlines, strip, ends_with,
  join,
}
use ai_sre_platform_for_auto.Errors.{ok}
use ai_sre_platform_for_auto.Values.{FloatOps, end, field, text, obj, get}
use ai_sre_platform_for_auto.Collector.Concrete.{CommandExecutor}
use ai_sre_platform_for_auto.Collector.Concrete.Suite.{Parsers, collectors}
use ai_sre_platform_for_auto.Collector.Concrete.Reports.{Answers}
use ai_sre_platform_for_auto.Parsing.{ascii_numbers, columns, parse_int, part, split_once, drop}
use ai_sre_platform_for_auto.Parsing.Numbers.{parse_int-show}
use ai_sre_platform_for_auto.Parsing.Hex.{parse_hex_ipv4}
use ai_sre_platform_for_auto.Parsing.Hex.Address.{hex_address, parse_hex_ipv4-hex_address}
use ai_sre_platform_for_auto.Parsing.Memory.{parse_memory, or_zero}
use ai_sre_platform_for_auto.Parsing.Memory.Printed.{
  printed, last_value, metrics_by, parse_memory-printed,
}
use ai_sre_platform_for_auto.Parsing.Service.{ServiceMetrics, parse_service}
use ai_sre_platform_for_auto.Parsing.Service.Sound.{IsSound, parse_service-IsSound}
use ai_sre_platform_for_auto.Parsing.Suite.{
  Runtime, Dumps, DumpsIdentity, with_parsers, with_parsers-Answers,
}
use ai_sre_platform_for_auto.Common.{is_space}

parse_int-show_example : parse_int ascii_numbers (show 4096) ≡ some (pos 4096)
unfolding show
parse_int-show_example = parse_int-show ascii_numbers 4096 (ground arith)

parse_hex_ipv4-hex_address_example :
    parse_hex_ipv4 ascii_numbers (hex_address 127 0 0 1)
    ≡ show 127 ++ (lit "." ++ (show 0 ++ (lit "." ++ (show 0 ++ (lit "." ++ show 1)))))
parse_hex_ipv4-hex_address_example =
    parse_hex_ipv4-hex_address ascii_numbers 127 0 0 1 (omega arith) (omega arith) (omega arith)
      (omega arith)

abbrev floats : FloatOps ℕ
floats = record {
  gt = λ a b. ltb b a;
  is_zero = λ a. a == 0;
  of_ℕ = λ n. n;
  parse = λ s. some (length s);
  show = show;
}

abbrev df : Text
df = lit "/dev/sda1 ext4 100 40 60 40% /"

abbrev route : Text
route = lit "default via 10.0.0.1 dev eth0"

abbrev units : Text
units = lit "cron.service loaded active running Cron"

abbrev shown_unit : Text
shown_unit = lit "Id=cron.service\nMainPID=12\nUnitFileState=enabled"

abbrev cron : ServiceMetrics
cron = record {
  services =
      record {
        name = lit "cron.service";
        description = lit "Cron";
        load_state = lit "loaded";
        active_state = lit "active";
        sub_state = lit "running";
        unit_file_state = some (lit "enabled");
        main_pid = some (pos 12);
        service_type = none;
        restart_policy = none;
        fragment_path = none;
        is_enabled = true;
      }
      ∷ [];
  timestamp = 7;
}

parse_service-cron : parse_service ascii_numbers units (some shown_unit) 7 ≡ ok cron
unfolding lit splitlines parse_service split strip ends_with part columns insert lookup split_once
    text_eq join parse_int drop
parse_service-cron = refl

parse_service-IsSound_example : All IsSound cron.services
parse_service-IsSound_example =
    parse_service-IsSound ascii_numbers units (some shown_unit) 7 cron parse_service-cron

-- `model_dump`, where the only field kept is the host name
abbrev dumps : Dumps ℕ
dumps = record {
  cpu_metrics = λ m. end;
  memory_metrics = λ m. end;
  disk_metrics = λ m. end;
  network_metrics = λ m. end;
  system_metrics = λ m.
      field (lit "host_identity") (obj (field (lit "hostname") (text m.host_identity.hostname) end))
        end;
  service_metrics = λ m. end;
}

abbrev runtime : Runtime ℕ
runtime = record {
  floats = floats;
  numbers = ascii_numbers;
  cases = ascii_tables;
  float_of_int = λ n. ok 3;
  before = λ t n. ok (t - n);
}

dumps-DumpsIdentity : DumpsIdentity runtime dumps
unfolding get text_eq lit
dumps-DumpsIdentity m = (field (lit "hostname") (text m.host_identity.hostname) end, refl, refl)

abbrev parsers : Parsers ℕ
parsers = record {
  cpu_parser = λ a b t. ok end;
  memory_parser = λ a t. ok end;
  disk_parser = λ a b t. ok end;
  network_parser = λ a b c d e t. ok end;
  system_parser = λ a b c d e f t. ok end;
  service_parser = λ a b t. ok end;
  log_parser = λ a b c t. ok end;
  docker_parser = λ a b c d t. ok end;
  kubernetes_parser = λ a b c d e f g t. ok end;
}

with_parsers-Answers_example :
    All
      (λ c. (e : CommandExecutor ℕ) (s : ℕ) → Answers c (c.collect e s))
      (collectors floats (λ s. s) (λ s s'. pos (s' - s)) (with_parsers runtime dumps parsers))
with_parsers-Answers_example =
    with_parsers-Answers runtime dumps (λ s. s) (λ s s'. pos (s' - s)) parsers dumps-DumpsIdentity

parse_memory-printed_example :
    parse_memory ascii_numbers (printed ((lit "MemTotal", 16) ∷ (lit "MemFree", 4) ∷ [])) 7
    ≡ ok (
        metrics_by
          (λ key. or_zero (last_value key ((lit "MemTotal", 16) ∷ (lit "MemFree", 4) ∷ [])))
          7)
unfolding lit show is_space
parse_memory-printed_example =
    parse_memory-printed ascii_numbers (lit "MemTotal") 16 ((lit "MemFree", 4) ∷ []) 7 (
      (
        (
          omega arith,
          (
            (refl, (refl, (refl, (refl, (refl, (refl, (refl, (refl, tt)))))))),
            (refl, (refl, (refl, (refl, (refl, (refl, (refl, (refl, tt)))))))),
          ),
        ),
        ground arith,
      ),
      (
        (
          (
            omega arith,
            (
              (refl, (refl, (refl, (refl, (refl, (refl, (refl, tt))))))),
              (refl, (refl, (refl, (refl, (refl, (refl, (refl, tt))))))),
            ),
          ),
          ground arith,
        ),
        tt,
      ),
    )
