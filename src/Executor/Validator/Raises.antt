-- ===== src/Executor/Validator/Raises.antt =====
-- What `ReadOnlyCommandValidator.validate` raises (src/domain/executor/command_validator.py).
use ai_sre_platform_for_auto.Common.{none, some, refl}
use ai_sre_platform_for_auto.Common.{true, false}
use ai_sre_platform_for_auto.Common.{ℕ, zero, suc, Text, List, [], ◌∷◌, ◌≡◌, CaseTables, arith}
use ai_sre_platform_for_auto.Errors.{Result, ok, raise, policy_violation, ◌>>=◌}
use ai_sre_platform_for_auto.Executor.Policy.{AllowedSet}
use ai_sre_platform_for_auto.Executor.Validator.{
  check_chars, check_verbs, match_prefix, check_options,
}
use ai_sre_platform_for_auto.Executor.Validator.{check_extracted, check_subcommand, validate}
use ai_sre_platform_for_auto.Errors.{Kind}
use ai_sre_platform_for_auto.Common.{Option, Option-cases}
use ai_sre_platform_for_auto.Executor.Validator.{check_command}
use ai_sre_platform_for_auto.Common.{lookup, some}
use ai_sre_platform_for_auto.Executor.Validator.{clean}
use ai_sre_platform_for_auto.Common.{split}
use ai_sre_platform_for_auto.Executor.Policy.{allowed_subcommands}
use ai_sre_platform_for_auto.Common.{inl, length}
use ai_sre_platform_for_auto.Executor.Validator.{refuse_subcommand}
use ai_sre_platform_for_auto.Common.{inr}
use ai_sre_platform_for_auto.Executor.Validator.{extract_subcommand}

-- A step that raises, if at all, a policy violation.
abbrev Polices {ℓ} : {A : Type ℓ} → Result A → Type 0
Polices (ok a) = Unit
Polices (raise k m) = k ≡ policy_violation

Polices-bind {ℓ κ} :
    {A : Type ℓ} {B : Type κ} (r : Result A) (f : A → Result B)
    → Polices r
    → ((a : A) → Polices (f a))
    → Polices (r >>= f)
Polices-bind (ok a) f h k = k a
Polices-bind (raise c m) f h k = h

check_chars-Polices : (args : List Text) → Polices (check_chars args)
unfolding check_chars
check_chars-Polices [] = tt
check_chars-Polices (arg ∷ args) = ground (arith, check_chars-Polices args)

check_verbs-Polices : (tables : CaseTables) (args : List Text) → Polices (check_verbs tables args)
unfolding check_verbs
check_verbs-Polices tables [] = tt
check_verbs-Polices tables (arg ∷ args) = ground (arith, check_verbs-Polices tables args)

check_options-Polices : (args : List Text) → Polices (check_options args)
unfolding check_options
check_options-Polices [] = tt
check_options-Polices (arg ∷ args) = ground (arith, check_options-Polices args)

match_prefix-Polices :
    (tables : CaseTables) (cleaned : Text) (args : List Text) (set : AllowedSet) (words : List Text)
    (n : ℕ)
    → Polices (match_prefix tables cleaned args set words n)
unfolding match_prefix
match_prefix-Polices tables cleaned args set words zero = tt
match_prefix-Polices tables cleaned args set words (suc n) =
    ground
      (arith, check_verbs-Polices tables args, match_prefix-Polices tables cleaned args set words n)

check_extracted-Polices :
    (tables : CaseTables) (command cleaned : Text) (args : List Text) (set : AllowedSet)
    (sub : Option Text)
    → Polices (check_extracted tables command cleaned args set sub)
unfolding check_extracted
check_extracted-Polices tables command cleaned args set none = ground arith
check_extracted-Polices tables command cleaned args set (some sub) =
    Polices-bind _ _ (match_prefix-Polices tables cleaned args set (split sub) (length (split sub)))
      (λ b. elim b as (λ b. Polices (refuse_subcommand sub b)) [ true ↦ tt | false ↦ refl ])

check_subcommand-Polices :
    (tables : CaseTables) (command cleaned : Text) (args : List Text)
    → Polices (check_subcommand tables command cleaned args)
unfolding check_subcommand
check_subcommand-Polices tables command cleaned args =
    elim (Option-cases (lookup cleaned allowed_subcommands)) [
      | inl absent ↦ rw (absent, check_subcommand) tt
      | inr (set, found) ↦
          rw (found, check_subcommand)
            (check_extracted-Polices tables command cleaned args set (extract_subcommand args))
    ]

validate-Polices :
    (tables : CaseTables) (command : Text) (args : List Text)
    → Polices (validate tables command args)
unfolding validate check_command
validate-Polices tables command args =
    let chars = check_chars-Polices args in
    let options = check_options-Polices args in
    let sub = check_subcommand-Polices tables command (clean tables command) args in
    ground (arith, chars, options, sub)

-- Whatever `validate` raises is a `PolicyViolationError`.
pub validate-raises :
    (tables : CaseTables) (command : Text) (args : List Text) (k : Kind) (message : Text)
    → validate tables command args ≡ raise k message
    → k ≡ policy_violation
validate-raises tables command args k message h = rw h at (validate-Polices tables command args)
