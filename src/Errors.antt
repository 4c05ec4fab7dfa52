-- ===== src/Errors.antt =====
-- server/domain/errors.ts: the errors that handlers throw, and computations that may throw.
pub mod Laws
pub mod Exec
use realmroot.Prelude.{ℕ, String, Bool, true, false, Option, none, some}

-- `type ErrorCode`
pub data ErrorCode : Type 0 where
  bad_request unauthorized forbidden not_found conflict resource_in_use precondition_failed :
      ErrorCode
  precondition_required bad_gateway payload_too_large internal_error : ErrorCode

-- What is thrown: an `ApiError`, an `OAuthError`, or a plain `Error`.
pub data Failure : Type 0 where
  api_error : (status : ℕ) → ErrorCode → (message : String) → Failure
  oauth_failure : (status : ℕ) → (error : String) → (description : String) → Failure
  thrown : (message : String) → Failure

abbrev pub bad_request_error : String → Failure
bad_request_error = api_error 400 ErrorCode.bad_request

abbrev pub unauthorized_error : String → Failure
unauthorized_error = api_error 401 ErrorCode.unauthorized

abbrev pub forbidden_error : String → Failure
forbidden_error = api_error 403 ErrorCode.forbidden

abbrev pub not_found_error : String → Failure
not_found_error = api_error 404 ErrorCode.not_found

abbrev pub conflict_error : String → Failure
conflict_error = api_error 409 ErrorCode.conflict

abbrev pub precondition_failed_error : String → Failure
precondition_failed_error = api_error 412 ErrorCode.precondition_failed

abbrev pub precondition_required_error : String → Failure
precondition_required_error = api_error 428 ErrorCode.precondition_required

-- `oauthError` at its default status
abbrev pub oauth_error : String → String → Failure
oauth_error = oauth_failure 400

pub data Result {ℓ} (A : Type ℓ) : Type ℓ where
  ok : A → Result A
  err : Failure → Result A

-- What a `throw` skips
infixl 10 ◌>>=◌ ◌>>◌
abbrev pub ◌>>=◌ {ℓ κ} : {A : Type ℓ} {B : Type κ} → Result A → (A → Result B) → Result B
err failure >>= next = err failure
ok value >>= next = next value

-- The same for a statement that gives no value
abbrev pub ◌>>◌ {ℓ} : {B : Type ℓ} → Result (Unit {0}) → Result B → Result B
check >> rest = check >>= λ _. rest

-- `if (!test) throw failure`
abbrev pub require : Bool → Failure → Result (Unit {0})
require true e = ok tt
require false e = err e

-- `if (!value) throw failure`
abbrev pub or_throw {ℓ} : {A : Type ℓ} → Option A → Failure → Result A
or_throw none e = err e
or_throw (some a) e = ok a
