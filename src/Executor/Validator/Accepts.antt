-- ===== src/Executor/Validator/Accepts.antt =====
-- When `ReadOnlyCommandValidator.validate` returns, stated without its loops and early exits
-- (src/domain/executor/command_validator.py).
use ai_sre_platform_for_auto.Common.{
  ℕ, zero, suc, ◌≤◌, ◌<◌, Text, lit, true, false, Option, none, some, List, [], ◌∷◌, ◌≡◌, ◌↔◌, ◌⊎◌,
  ◌≢◌, ap, inl, inr, CaseTables, split, join, starts_with, member, text_eq, length, take, any,
  lookup, All, arith, Bool-cases, Option-cases, if◌then◌else◌,
}
use ai_sre_platform_for_auto.Errors.{Result, ok}
use ai_sre_platform_for_auto.Executor.Policy.{
  AllowedSet, allowed_commands, allowed_subcommands, allows, allows_none, has_forbidden_char,
  forbidden_journalctl_options, ip_verbs,
}
use ai_sre_platform_for_auto.Executor.Validator.{
  extract_subcommand, clean, check_chars, check_verbs, match_prefix, check_extracted,
  check_subcommand, check_options, check_command, validate,
}

abbrev pub HasPlainChars : List Text → Type 0
HasPlainChars args = All (λ arg. has_forbidden_char arg ≡ false) args

abbrev pub HasNoVerb : CaseTables → List Text → Type 0
HasNoVerb tables args = All (λ arg. member (clean tables arg) ip_verbs ≡ false) args

abbrev pub HasNoMutatingOption : List Text → Type 0
HasNoMutatingOption args =
    All (λ arg. any (starts_with arg) forbidden_journalctl_options ≡ false) args

pub check_chars_iff : (args : List Text) → (check_chars args ≡ ok tt) ↔ HasPlainChars args
unfolding check_chars
check_chars_iff [] = ground arith
check_chars_iff (arg ∷ args) = ground (arith, check_chars_iff args)

check_verbs_iff :
    (tables : CaseTables) (args : List Text)
    → (check_verbs tables args ≡ ok tt) ↔ HasNoVerb tables args
unfolding check_verbs
check_verbs_iff tables [] = ground arith
check_verbs_iff tables (arg ∷ args) = ground (arith, check_verbs_iff tables args)

check_options_iff : (args : List Text) → (check_options args ≡ ok tt) ↔ HasNoMutatingOption args
unfolding check_options
check_options_iff [] = ground arith
check_options_iff (arg ∷ args) = ground (arith, check_options_iff args)

-- The verbs are looked at for `ip` only.
abbrev pub IsVerbFree : CaseTables → Text → List Text → Type 0
IsVerbFree tables cleaned args = (text_eq cleaned (lit "ip") ≡ false) ⊎ HasNoVerb tables args

-- Some non-empty run of the first `n` words is an entry of the allow-list.
abbrev pub HasAllowedPrefix : AllowedSet → List Text → ℕ → Type 0
HasAllowedPrefix set words n =
    (i : ℕ) × (0 < i) × (i ≤ n) × (allows set (join (lit " ") (take i words)) ≡ true)

module _ (tables : CaseTables) (cleaned : Text) (args : List Text) where
  verbs_step : Result (Unit {0})
  verbs_step = if text_eq cleaned (lit "ip") then check_verbs tables args else ok tt

  verbs_step_iff : (verbs_step ≡ ok tt) ↔ IsVerbFree tables cleaned args
  unfolding verbs_step
  verbs_step_iff = ground (arith, check_verbs_iff tables args)

  match_prefix_sound :
      (set : AllowedSet) (words : List Text) (n : ℕ)
      → match_prefix tables cleaned args set words n ≡ ok true
      → HasAllowedPrefix set words n × IsVerbFree tables cleaned args
  unfolding match_prefix verbs_step
  match_prefix_sound set words zero h = cc
  match_prefix_sound set words (suc n) h =
      elim (Bool-cases (allows set (join (lit " ") (take (suc n) words)))) [
        | inl found ↦ ((suc n, omega arith, omega arith, found), ground (arith, verbs_step_iff))
        | inr absent ↦
            let ((i, p, q, r), v) = match_prefix_sound set words n (ground arith) in
            ((i, p, omega arith, r), v)
      ]

  match_prefix_complete :
      (set : AllowedSet) (words : List Text) (n : ℕ) (i : ℕ)
      → 0 < i
      → i ≤ n
      → allows set (join (lit " ") (take i words)) ≡ true
      → IsVerbFree tables cleaned args
      → match_prefix tables cleaned args set words n ≡ ok true
  unfolding match_prefix verbs_step
  match_prefix_complete set words zero i p q r v = absurd (omega arith)
  match_prefix_complete set words (suc n) i p q r v =
      elim (Bool-cases (allows set (join (lit " ") (take (suc n) words)))) [
        | inl found ↦ ground (arith, verbs_step_iff)
        | inr absent ↦
            let shorter : i ≢ suc n =
              λ e. cc (ap (λ j. allows set (join (lit " ") (take j words))) e) in
            rw absent (match_prefix_complete set words n i p (omega arith) r v)
      ]

-- What step 3 accepts of the extracted sub-command.
abbrev pub MeetsAllowList : CaseTables → Text → List Text → AllowedSet → Option Text → Type 0
MeetsAllowList tables cleaned args set none = allows_none set ≡ true
MeetsAllowList tables cleaned args set (some sub) =
    HasAllowedPrefix set (split sub) (length (split sub)) × IsVerbFree tables cleaned args

-- A command with no allow-list of its own passes; any other has to meet it.
abbrev pub IsListed : CaseTables → Text → List Text → Option AllowedSet → Type 0
IsListed tables cleaned args none = Unit
IsListed tables cleaned args (some set) =
    MeetsAllowList tables cleaned args set (extract_subcommand args)

module _ (tables : CaseTables) (command cleaned : Text) (args : List Text) where
  check_extracted_sound :
      (set : AllowedSet) (sub : Option Text)
      → check_extracted tables command cleaned args set sub ≡ ok tt
      → MeetsAllowList tables cleaned args set sub
  unfolding check_extracted
  check_extracted_sound set none h = ground arith
  check_extracted_sound set (some sub) h =
      match_prefix_sound tables cleaned args set (split sub) (length (split sub)) (ground arith)

  check_extracted_complete :
      (set : AllowedSet) (sub : Option Text)
      → MeetsAllowList tables cleaned args set sub
      → check_extracted tables command cleaned args set sub ≡ ok tt
  unfolding check_extracted
  check_extracted_complete set none h = ground arith
  check_extracted_complete set (some sub) ((i, p, q, r), v) =
      rw (match_prefix_complete tables cleaned args set (split sub) (length (split sub)) i p q r v)

  check_subcommand_sound :
      check_subcommand tables command cleaned args ≡ ok tt
      → IsListed tables cleaned args (lookup cleaned allowed_subcommands)
  unfolding check_subcommand
  check_subcommand_sound h = elim (Option-cases (lookup cleaned allowed_subcommands)) [
    | inl absent ↦ rw absent tt
    | inr (set, found) ↦
        rw found
          (check_extracted_sound set (extract_subcommand args) (rw (found, check_subcommand) at h))
  ]

  check_subcommand_complete :
      IsListed tables cleaned args (lookup cleaned allowed_subcommands)
      → check_subcommand tables command cleaned args ≡ ok tt
  unfolding check_subcommand
  check_subcommand_complete h = elim (Option-cases (lookup cleaned allowed_subcommands)) [
    | inl absent ↦ rw (absent, check_subcommand)
    | inr (set, found) ↦
        rw (found, check_subcommand)
          (check_extracted_complete set (extract_subcommand args) (rw found at h))
  ]

-- Everything that an accepted command has.
pub record IsReadOnly (tables : CaseTables) (command : Text) (args : List Text) : Type 0 where
  pub whitelisted : member (clean tables command) allowed_commands ≡ true
  pub plain : HasPlainChars args
  pub listed :
      IsListed tables
        (clean tables command)
        args
        (lookup (clean tables command) allowed_subcommands)
  pub journal :
      (text_eq (clean tables command) (lit "journalctl") ≡ false) ⊎ HasNoMutatingOption args

-- `validate` returns exactly for the commands that are read-only in this sense: the base command
-- is on the whitelist, no argument has a shell metacharacter, a command with an allow-list has an
-- allowed run of leading words (with no modifying verb, for `ip`), and `journalctl` has no
-- mutating option.
pub validate-IsReadOnly_iff :
    (tables : CaseTables) (command : Text) (args : List Text)
    → (validate tables command args ≡ ok tt) ↔ IsReadOnly tables command args
unfolding validate check_command
validate-IsReadOnly_iff tables command args = (
  (λ h. record {
    whitelisted = ground arith;
    plain = (check_chars_iff args).0 (ground arith);
    listed = check_subcommand_sound tables command (clean tables command) args (ground arith);
    journal = ground (arith, check_options_iff args);
  }),
  (λ r. ground (
    arith,
    check_chars_iff args,
    check_options_iff args,
    check_subcommand_complete tables command (clean tables command) args r.listed,
  )),
)
