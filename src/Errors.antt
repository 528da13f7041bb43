-- ===== src/Errors.antt =====
-- src/common/errors/error-codes.ts: HTTP and socket error codes, and Postgres error mapping.
pub mod Thrown
pub mod SocketAck
pub mod HttpBody
pub mod Laws
mod Tests
use zevra_server.Prelude.{
  ℕ, zero, suc, String, Bool, true, false, ◌&&◌, ◌||◌, Option, none, some, ◌==◌, ltb, leb, eqb,
  length, if◌then◌else◌,
}
use mathlib.Core.Option
use zevra_server.Js.{JsValue, string, get, is_object, codes, all, is_digit, is_upper}

pub data HttpErrorCode : Type 0 where
  validation_error unauthorized forbidden not_found conflict : HttpErrorCode
  rate_limited payload_too_large internal_error : HttpErrorCode

pub data SocketErrorCode : Type 0 where
  validation_error not_authenticated not_member not_found : SocketErrorCode
  rate_limited payload_too_large internal_error : SocketErrorCode

unfoldable pub http_status_to_error_code : ℕ → HttpErrorCode
http_status_to_error_code status =
    if eqb status 400 || eqb status 422
    then HttpErrorCode.validation_error
    else if eqb status 401
    then HttpErrorCode.unauthorized
    else if eqb status 403
    then HttpErrorCode.forbidden
    else if eqb status 404
    then HttpErrorCode.not_found
    else if eqb status 409
    then HttpErrorCode.conflict
    else if eqb status 429
    then HttpErrorCode.rate_limited
    else if eqb status 413
    then HttpErrorCode.payload_too_large
    else if leb 400 status && ltb status 500
    then HttpErrorCode.validation_error
    else HttpErrorCode.internal_error

unfoldable pub http_status_to_socket_code : ℕ → SocketErrorCode
http_status_to_socket_code status =
    if eqb status 400 || eqb status 422 || eqb status 409
    then SocketErrorCode.validation_error
    else if eqb status 401
    then SocketErrorCode.not_authenticated
    else if eqb status 403
    then SocketErrorCode.not_member
    else if eqb status 404
    then SocketErrorCode.not_found
    else if eqb status 429
    then SocketErrorCode.rate_limited
    else if eqb status 413
    then SocketErrorCode.payload_too_large
    else SocketErrorCode.internal_error

pub record PgErrorMapping : Type 0 where
  pub status : ℕ
  pub error : HttpErrorCode
  pub message : String

-- `/^[0-9A-Z]{5}$/`
unfoldable pub is_sqlstate : String → Bool
unfolding all
is_sqlstate s = eqb (length (codes s)) 5 && all (λ c. is_digit c || is_upper c) (codes s)

unfoldable pub sqlstate : JsValue → Option String
unfolding is_sqlstate
sqlstate (string s) = if is_sqlstate s then some s else none
sqlstate _ = none

-- The loop of `findPgError`, with the number of rounds that are left.
unfoldable pub find_pg_error : ℕ → JsValue → Option String
unfolding sqlstate get
find_pg_error zero current = none
find_pg_error (suc depth) current =
    let deeper = find_pg_error depth (get current "cause") in
    if is_object current
    then elim (sqlstate (get current "code")) [ some code ↦ some code | none ↦ deeper ]
    else none

-- The `switch` of `mapPgError`.
unfoldable pub pg_mapping : String → PgErrorMapping
pg_mapping code =
    if code == "23505"
    then record {
      status = 409;
      error = HttpErrorCode.conflict;
      message = "Resource already exists";
    }
    else if code == "23503"
    then record {
      status = 404;
      error = HttpErrorCode.not_found;
      message = "Referenced resource not found";
    }
    else if code == "22P02"
        || code == "22001"
        || code == "22003"
        || code == "23502"
        || code == "23514"
    then record { status = 400; error = HttpErrorCode.validation_error; message = "Invalid input" }
    else record {
      status = 500;
      error = HttpErrorCode.internal_error;
      message = "Internal server error";
    }

unfoldable pub map_pg_error : JsValue → Option PgErrorMapping
map_pg_error err = Option.map pg_mapping (find_pg_error 4 err)
