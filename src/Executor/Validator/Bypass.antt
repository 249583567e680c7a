-- ===== src/Executor/Validator/Bypass.antt =====
-- Calls that the policy accepts although the program behind them changes state
-- (src/domain/executor/command_validator.py).
use ai_sre_platform_for_auto.Common.{
  Text, lit, true, false, some, List, [], ◌∷◌, ◌≡◌, refl, inl, CaseTables, split, join, length,
  arith, lookup,
}
use ai_sre_platform_for_auto.Errors.{ok}
use ai_sre_platform_for_auto.Executor.Policy.{
  allowed_subcommands, has_forbidden_char, kubectl_allowed,
}
use ai_sre_platform_for_auto.Executor.Validator.{
  is_flag, take_parts, extract_subcommand, clean, validate,
}
use ai_sre_platform_for_auto.Executor.Validator.Runs.{run_validator}
use ai_sre_platform_for_auto.Executor.Validator.Accepts.{
  HasPlainChars, HasAllowedPrefix, validate-IsReadOnly_iff, check_chars_iff,
}

-- `hostname NAME` sets the host name. Any arguments are accepted as long as they have no shell
-- metacharacter.
pub hostname_accepted :
    (tables : CaseTables) (args : List Text)
    → HasPlainChars args
    → validate tables (lit "hostname") args ≡ ok tt
unfolding run_validator
hostname_accepted tables args plain = rw ((check_chars_iff args).1 plain)

-- The words of a text that begins with "get" and a space.
get_prefix :
    (parts : List Text)
    → HasAllowedPrefix kubectl_allowed
        (split (join (lit " ") (lit "get" ∷ parts)))
        (length (split (join (lit " ") (lit "get" ∷ parts))))
unfolding run_validator
get_prefix [] = (1, omega arith, omega arith, refl)
get_prefix (p ∷ parts) = (1, omega arith, omega arith, refl)

lookup-kubectl :
    (tables : CaseTables)
    → lookup (clean tables (lit "kubectl")) allowed_subcommands ≡ some kubectl_allowed
unfolding run_validator
lookup-kubectl tables = refl

extract_subcommand-get :
    (flag : Text) (args : List Text)
    → is_flag flag ≡ true
    → extract_subcommand (flag ∷ lit "get" ∷ args)
      ≡ some (join (lit " ") (lit "get" ∷ take_parts 2 args))
unfolding run_validator
extract_subcommand-get flag args h = ground arith

-- The value of a leading option is taken for the sub-command: with `-n get`, any `kubectl` verb
-- passes, as long as no argument has a shell metacharacter.
pub kubectl_flag_value_accepted :
    (tables : CaseTables) (flag : Text) (args : List Text)
    → is_flag flag ≡ true
    → has_forbidden_char flag ≡ false
    → HasPlainChars args
    → validate tables (lit "kubectl") (flag ∷ lit "get" ∷ args) ≡ ok tt
kubectl_flag_value_accepted tables flag args is_flag_ plain_flag plain =
    (validate-IsReadOnly_iff tables (lit "kubectl") (flag ∷ lit "get" ∷ args)).1 (record {
      whitelisted = unfold run_validator in refl;
      plain = (plain_flag, (unfold run_validator in refl, plain));
      listed =
          rw (lookup-kubectl tables, extract_subcommand-get flag args is_flag_)
            (get_prefix (take_parts 2 args), inl (unfold run_validator in refl));
      journal = inl (unfold run_validator in refl);
    })
