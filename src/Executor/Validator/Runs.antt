-- ===== src/Executor/Validator/Runs.antt =====
-- One name for all that a run of the policy computes with, for `unfolding` lines.
use ai_sre_platform_for_auto.Common.{
  lit, text_eq, lower, lookup, member, strip, split, join, starts_with,
}
use ai_sre_platform_for_auto.Executor.Policy.{
  allowed_commands, allowed_subcommands, allows, allows_none, has_forbidden_char,
  forbidden_journalctl_options, ip_verbs, kubectl_allowed,
}
use ai_sre_platform_for_auto.Executor.Validator.{
  extract_subcommand, check_command, check_chars, check_verbs, match_prefix, check_subcommand,
  check_options, validate,
}

unfoldable pub run_validator : Unit {0}
unfolding lit text_eq lower lookup member strip split join starts_with allowed_commands
    allowed_subcommands allows allows_none has_forbidden_char forbidden_journalctl_options ip_verbs
    kubectl_allowed extract_subcommand check_command check_chars check_verbs match_prefix
    check_subcommand check_options validate
run_validator = tt
