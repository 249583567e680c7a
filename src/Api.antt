-- ===== src/Api.antt =====
-- How exceptions become HTTP answers: `domain_error_handler` (src/main.py), and the `except`
-- clauses of the endpoints of src/presentation/api/v1/incidents.py.
pub mod Incidents
pub mod Endpoints
use ai_sre_platform_for_auto.Common.{ℕ, Text, if◌then◌else◌}
use ai_sre_platform_for_auto.Errors.{
  Kind, Result, ok, raise, is_instance, not_found, validation, conflict, unauthorized, value_error,
}
use ai_sre_platform_for_auto.Effects.{Exec}

-- An answer, an `HTTPException`, or an exception that leaves the endpoint.
pub data Response (A : Type 0) : Type 0 where
  answer : A → Response A
  http_exception : ℕ → Text → Response A
  escapes : Kind → Text → Response A

-- the status code of `domain_error_handler`
unfoldable pub handler_status : Kind → ℕ
handler_status k =
    if is_instance k not_found
    then 404
    else if is_instance k validation
    then 400
    else if is_instance k conflict
    then 409
    else if is_instance k unauthorized
    then 401
    else 500

module _ {A : Type 0} where
  -- the `except` clauses of the endpoint
  unfoldable pub status_response : Result A → Response A
  status_response (ok a) = answer a
  status_response (raise k message) =
      if is_instance k not_found
      then http_exception 404 message
      else if is_instance k value_error
      then http_exception 400 message
      else escapes k message

  -- `except NotFoundError` alone
  unfoldable pub found_response : Result A → Response A
  found_response (ok a) = answer a
  found_response (raise k message) =
      if is_instance k not_found then http_exception 404 message else escapes k message

  -- `except NotFoundError`, then `except Exception`
  unfoldable pub create_response : Result A → Response A
  create_response (ok a) = answer a
  create_response (raise k message) =
      if is_instance k not_found then http_exception 404 message else http_exception 500 message

  -- `except NotFoundError`, `except ValueError`, then `except Exception`
  unfoldable pub health_response : Result A → Response A
  health_response (ok a) = answer a
  health_response (raise k message) =
      if is_instance k not_found
      then http_exception 404 message
      else if is_instance k value_error
      then http_exception 400 message
      else http_exception 500 message

  -- no `except` clause
  unfoldable pub bare_response : Result A → Response A
  bare_response (ok a) = answer a
  bare_response (raise k message) = escapes k message

  -- a `return await` under the clauses
  unfoldable pub respond : {S : Type 0} → (Result A → Response A) → Exec S A → S → Response A × S
  respond clauses call s = let (result, s') = call s in (clauses result, s')
