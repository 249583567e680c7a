-- ===== src/Executor/Validator/Tests.antt =====
-- The policy at concrete commands, and the theorems about it at concrete arguments.
use ai_sre_platform_for_auto.Common.{lit, [], ◌∷◌, ◌≡◌, refl, ascii_tables, ◌↔◌}
use ai_sre_platform_for_auto.Errors.{ok, raise, policy_violation}
use ai_sre_platform_for_auto.Executor.Validator.{validate}
use ai_sre_platform_for_auto.Executor.Validator.Runs.{run_validator}
use ai_sre_platform_for_auto.Executor.Validator.Accepts.{IsReadOnly, validate-IsReadOnly_iff}
use ai_sre_platform_for_auto.Executor.Validator.Bypass.{kubectl_flag_value_accepted}

validate_tests :
    (validate ascii_tables (lit " DF ") (lit "-h" ∷ []) ≡ ok tt)
    × (validate ascii_tables (lit "systemctl") (lit "--no-pager" ∷ lit "status" ∷ lit "nginx" ∷ [])
        ≡ ok tt)
    × (validate ascii_tables (lit "docker") (lit "system" ∷ lit "df" ∷ []) ≡ ok tt)
    × (validate ascii_tables (lit "hostnamectl") [] ≡ ok tt)
    × (validate ascii_tables (lit "ip") (lit "addr" ∷ lit "del" ∷ [])
        ≡ raise policy_violation (lit "Verb 'del' is not allowed for command 'ip'."))
    × (validate ascii_tables (lit "rm") []
        ≡ raise policy_violation (lit "Command 'rm' is not whitelisted for read-only execution."))
    × (validate ascii_tables (lit "journalctl") (lit "--vacuum-size=1" ∷ [])
        ≡ raise policy_violation
            (lit "Forbidden journalctl option '--vacuum-size=1' is not allowed."))
unfolding run_validator
validate_tests = (refl, refl, refl, refl, refl, refl, refl)

validate-IsReadOnly_iff_example :
    (validate ascii_tables (lit "ip") (lit "addr" ∷ lit "show" ∷ []) ≡ ok tt)
    ↔ IsReadOnly ascii_tables (lit "ip") (lit "addr" ∷ lit "show" ∷ [])
validate-IsReadOnly_iff_example =
    validate-IsReadOnly_iff ascii_tables (lit "ip") (lit "addr" ∷ lit "show" ∷ [])

kubectl_flag_value_accepted_example :
    validate ascii_tables
      (lit "kubectl")
      (lit "-n" ∷ lit "get" ∷ lit "delete" ∷ lit "pods" ∷ lit "--all" ∷ [])
    ≡ ok tt
unfolding run_validator
kubectl_flag_value_accepted_example =
    kubectl_flag_value_accepted ascii_tables (lit "-n")
      (lit "delete" ∷ lit "pods" ∷ lit "--all" ∷ []) refl refl (refl, (refl, (refl, tt)))
