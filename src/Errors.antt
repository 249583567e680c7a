-- ===== src/Errors.antt =====
-- domain/exceptions.py, with the built-in classes that the program raises or catches; a call that
-- may raise returns a `Result`.
use ai_sre_platform_for_auto.Common.{
  ℕ, zero, suc, Text, lit, Bool, true, false, ◌||◌, ◌==◌, ◌↔◌, Option, none, some, ◌≡◌, arith,
}

-- The exception classes. `builtin` stands for any other subclass of `Exception`.
pub data Kind : Type 0 where
  domain not_found validation policy_violation unauthorized conflict : Kind
  infrastructure connection llm connector connection_failed authentication_failed : Kind
  command_execution_failed connector_timeout : Kind
  value_error assertion_error builtin : Kind

abbrev tag : Kind → ℕ
tag domain = 0
tag not_found = 1
tag validation = 2
tag policy_violation = 3
tag unauthorized = 4
tag conflict = 5
tag infrastructure = 6
tag connection = 7
tag llm = 8
tag connector = 9
tag connection_failed = 10
tag authentication_failed = 11
tag command_execution_failed = 12
tag connector_timeout = 13
tag value_error = 14
tag assertion_error = 15
tag builtin = 16

-- The class that a class of the module extends.
abbrev pub base : Kind → Option Kind
base domain = none
base not_found = some domain
base validation = some domain
base policy_violation = some domain
base unauthorized = some domain
base conflict = some domain
base infrastructure = some domain
base connection = some infrastructure
base llm = some infrastructure
base connector = some infrastructure
base connection_failed = some connector
base authentication_failed = some connector
base command_execution_failed = some connector
base connector_timeout = some connector
base value_error = none
base assertion_error = none
base builtin = none

-- `isinstance(e, c)` for an `e` of class `k`, looking `steps` classes up.
is_instance_from : ℕ → Kind → Kind → Bool
is_instance_from zero k c = tag k == tag c
is_instance_from (suc steps) k c =
    let above : Bool = elim (base k) [ none ↦ false | some b ↦ is_instance_from steps b c ] in
    tag k == tag c || above

-- No class stands more than three classes below a root.
unfoldable pub is_instance : Kind → Kind → Bool
unfolding is_instance_from
is_instance k c = is_instance_from 3 k c

pub data Result {ℓ} (A : Type ℓ) : Type ℓ where
  ok : A → Result A
  raise : Kind → Text → Result A

-- the statements after a call are `rest`
module _ {ℓ κ} {A : Type ℓ} {B : Type κ} where
  infixl 5 ◌>>=◌
  abbrev pub ◌>>=◌ : Result A → (A → Result B) → Result B
  ◌>>=◌ (raise kind message) rest = raise kind message
  ◌>>=◌ (ok value) rest = rest value

module _ {ℓ} {B : Type ℓ} where
  infixl 5 ◌>>◌
  abbrev pub ◌>>◌ : Result (Unit {0}) → Result B → Result B
  ◌>>◌ check rest = check >>= λ _. rest

-- `self.__class__.__name__`
unfoldable pub class_name : Kind → Text
class_name domain = lit "DomainError"
class_name not_found = lit "NotFoundError"
class_name validation = lit "ValidationError"
class_name policy_violation = lit "PolicyViolationError"
class_name unauthorized = lit "UnauthorizedError"
class_name conflict = lit "ConflictError"
class_name infrastructure = lit "InfrastructureError"
class_name connection = lit "ConnectionError"
class_name llm = lit "LLMError"
class_name connector = lit "ConnectorError"
class_name connection_failed = lit "ConnectionFailedError"
class_name authentication_failed = lit "AuthenticationFailedError"
class_name command_execution_failed = lit "CommandExecutionFailedError"
class_name connector_timeout = lit "ConnectorTimeoutError"
class_name value_error = lit "ValueError"
class_name assertion_error = lit "AssertionError"
class_name builtin = lit "Exception"

-- Every exception of the module is caught as a `DomainError`, and a built-in one is not.
pub domain_iff :
    (k : Kind)
    → (is_instance k domain ≡ true) ↔ (
        (is_instance k value_error ≡ false)
        × (is_instance k assertion_error ≡ false)
        × (is_instance k builtin ≡ false))
unfolding is_instance
domain_iff k = ground arith
