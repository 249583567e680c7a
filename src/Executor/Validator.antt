-- ===== src/Executor/Validator.antt =====
-- `ReadOnlyCommandValidator.validate` (src/domain/executor/command_validator.py).
pub mod Accepts
pub mod Subcommand
pub mod Raises
pub mod Runs
pub mod Bypass
mod Tests
use ai_sre_platform_for_auto.Common.{
  ℕ, zero, suc, Text, lit, Bool, true, false, Option, none, some, List, [], ◌∷◌, ◌++◌, CaseTables,
  lower, strip, split, join, starts_with, member, text_eq, length, take, any, lookup, if◌then◌else◌,
}
use ai_sre_platform_for_auto.Errors.{Result, ok, raise, policy_violation, ◌>>=◌, ◌>>◌}
use ai_sre_platform_for_auto.Executor.Policy.{
  AllowedSet, allowed_commands, allowed_subcommands, allows, allows_none, has_forbidden_char,
  forbidden_journalctl_options, ip_verbs,
}

unfoldable pub is_flag : Text → Bool
unfolding starts_with
is_flag arg = starts_with arg (b'-' ∷ [])

-- `arguments[first_non_flag_idx:]`, empty where there is no such index
unfoldable pub skip_flags : List Text → List Text
skip_flags [] = []
skip_flags (arg ∷ args) = if is_flag arg then skip_flags args else arg ∷ args

-- the loop that fills `sub_parts`, which has room for `n` more
unfoldable pub take_parts : ℕ → List Text → List Text
take_parts zero args = []
take_parts (suc n) [] = []
take_parts (suc n) (arg ∷ args) = if is_flag arg then [] else arg ∷ take_parts n args

-- `_extract_subcommand`
unfoldable pub extract_subcommand : List Text → Option Text
unfolding skip_flags take_parts is_flag
extract_subcommand arguments = elim (skip_flags arguments) [
  | [] ↦ none
  | arg ∷ args ↦ some (join (lit " ") (take_parts 3 (arg ∷ args)))
]

-- `command.strip().lower()`
unfoldable pub clean : CaseTables → Text → Text
clean tables command = lower tables (strip command)

-- step 2
unfoldable pub check_chars : List Text → Result (Unit {0})
check_chars [] = ok tt
check_chars (arg ∷ args) =
    if has_forbidden_char arg
    then raise policy_violation
        (lit "Shell metacharacters are forbidden in arguments: '" ++ (arg ++ lit "'"))
    else check_chars args

-- the extra check for `ip`
unfoldable pub check_verbs : CaseTables → List Text → Result (Unit {0})
check_verbs tables [] = ok tt
check_verbs tables (arg ∷ args) =
    if member (clean tables arg) ip_verbs
    then raise policy_violation (lit "Verb '" ++ (arg ++ lit "' is not allowed for command 'ip'."))
    else check_verbs tables args

-- the loop over `i`, which stands at `words[:i]`; the result is `matched`
unfoldable pub match_prefix :
    CaseTables → Text → List Text → AllowedSet → List Text → ℕ → Result Bool
match_prefix tables command arguments set words zero = ok false
match_prefix tables command arguments set words (suc i) =
    let shorter = match_prefix tables command arguments set words i in
    if allows set (join (lit " ") (take (suc i) words))
    then (if text_eq command (lit "ip") then check_verbs tables arguments else ok tt) >> ok true
    else shorter

refuse_subcommand : Text → Bool → Result (Unit {0})
refuse_subcommand subcommand true = ok tt
refuse_subcommand subcommand false =
    raise policy_violation
      (lit "Sub-command '" ++ (subcommand ++ lit "' violates the read-only execution policy."))

-- what step 3 does with the sub-command, for a command that has the allow-list `set`
unfoldable pub check_extracted :
    CaseTables → Text → Text → List Text → AllowedSet → Option Text → Result (Unit {0})
unfolding refuse_subcommand
check_extracted tables command cleaned arguments set none =
    if allows_none set
    then ok tt
    else raise policy_violation (lit "Command '" ++ (command ++ lit "' requires a sub-command."))
check_extracted tables command cleaned arguments set (some subcommand) = do
  let words = split subcommand
  matched ← match_prefix tables cleaned arguments set words (length words)
  refuse_subcommand subcommand matched

-- step 3
unfoldable pub check_subcommand : CaseTables → Text → Text → List Text → Result (Unit {0})
unfolding check_extracted
check_subcommand tables command cleaned arguments = elim (lookup cleaned allowed_subcommands) [
  | none ↦ ok tt
  | some set ↦ check_extracted tables command cleaned arguments set (extract_subcommand arguments)
]

-- step 4; the message does not name the option, so their order does not matter
unfoldable pub check_options : List Text → Result (Unit {0})
check_options [] = ok tt
check_options (arg ∷ args) =
    if any (starts_with arg) forbidden_journalctl_options
    then raise policy_violation
        (lit "Forbidden journalctl option '" ++ (arg ++ lit "' is not allowed."))
    else check_options args

-- step 1
unfoldable pub check_command : Text → Text → Result (Unit {0})
check_command command cleaned =
    if member cleaned allowed_commands
    then ok tt
    else raise policy_violation
        (lit "Command '" ++ (command ++ lit "' is not whitelisted for read-only execution."))

unfoldable pub validate : CaseTables → Text → List Text → Result (Unit {0})
unfolding clean
validate tables command arguments = do
  let cleaned = clean tables command
  check_command command cleaned
  check_chars arguments
  check_subcommand tables command cleaned arguments
  if text_eq cleaned (lit "journalctl") then check_options arguments else ok tt
