-- ===== src/Errors/HttpBody.antt =====
-- src/common/filters/all-exceptions.filter.ts: any thrown value as an HTTP error body.
use zevra_server.Prelude.{
  ℕ, String, Bool, true, false, not, ◌||◌, List, [], ◌∷◌, Option, none, some, ◌==◌, ltb,
  if◌then◌else◌,
}
use zevra_server.Js.{
  JsValue, Items, boolean, number, string, array, object, nil, cons, field, end, get, is_object,
}
use zevra_server.Errors.{
  SocketErrorCode, HttpErrorCode, validation_error, unauthorized, forbidden, not_found, conflict,
  rate_limited, payload_too_large, internal_error, PgErrorMapping, http_status_to_error_code,
  map_pg_error,
}
use zevra_server.Errors.Thrown.{Thrown, socket_error, ws_exception, http_exception, other}

pub record NormalizedError : Type 0 where
  pub status : ℕ
  pub error : HttpErrorCode
  pub message : String
  pub details : Option (List String)

abbrev pub generic_message : HttpErrorCode → String
generic_message validation_error = "Invalid request"
generic_message unauthorized = "Authentication required"
generic_message forbidden = "Access denied"
generic_message not_found = "Resource not found"
generic_message conflict = "Resource already exists"
generic_message rate_limited = "Too many requests, please try again later"
generic_message payload_too_large = "Payload too large"
generic_message internal_error = "Internal server error"

texts : Items → List String
texts nil = []
texts (cons (string s) vs) = let rest = texts vs in if s == "" then rest else s ∷ rest
texts (cons _ vs) = texts vs

non_empty : List String → Option (List String)
non_empty [] = none
non_empty out = some out

unfoldable pub to_string_array : JsValue → Option (List String)
unfolding texts non_empty
to_string_array (array items) = non_empty (texts items)
to_string_array _ = none

or_list : Option (List String) → Option (List String) → Option (List String)
or_list (some a) b = some a
or_list none b = b

or_text : String → String → String
or_text s d = if s == "" then d else s

without_text : Option (List String) → String → HttpErrorCode → String
unfolding or_text
without_text (some (d ∷ _)) message error = d
without_text _ message error = or_text message (generic_message error)

-- The message of an exception whose response is an object.
body_message : JsValue → Option (List String) → String → HttpErrorCode → String
unfolding without_text
body_message (string s) details message error =
    if s == "" then without_text details message error else s
body_message _ details message error = without_text details message error

hides_message : HttpErrorCode → Bool
hides_message internal_error = true
hides_message rate_limited = true
hides_message _ = false

abbrev plain : ℕ → HttpErrorCode → String → NormalizedError
plain status error message = record {
  status = status;
  error = error;
  message = message;
  details = none;
}

from_response : ℕ → HttpErrorCode → JsValue → String → NormalizedError
unfolding or_text body_message to_string_array or_list get
from_response status error (string s) message =
    plain status error (or_text s (generic_message error))
from_response status error response message =
    let details =
      or_list (to_string_array (get response "details"))
        (to_string_array (get response "message")) in
    record {
      status = status;
      error = error;
      message = body_message (get response "message") details message error;
      details = details;
    }

unfoldable pub normalize_http_exception : ℕ → JsValue → String → NormalizedError
unfolding hides_message from_response
normalize_http_exception status response message =
    let error = http_status_to_error_code status in
    if hides_message error
    then plain status error (generic_message error)
    else from_response status error response message

as_number : JsValue → Option ℕ
as_number (number n) = some n
as_number _ = none

or_number : Option ℕ → Option ℕ → Option ℕ
or_number (some n) o = some n
or_number none o = o

is_boolean : JsValue → Bool
is_boolean (boolean _) = true
is_boolean _ = false

is_text : JsValue → String → Bool
is_text (string s) t = s == t
is_text _ t = false

-- `normalizeMiddlewareError` once the status is read.
unfoldable pub middleware_error : JsValue → Option ℕ → Option NormalizedError
unfolding is_boolean is_text
middleware_error e none = none
middleware_error e (some status) =
    let error = http_status_to_error_code status in
    if ltb status 400 || ltb 599 status || not (is_boolean (get e "expose"))
    then none
    else if is_text (get e "type") "entity.parse.failed"
    then some (plain 400 validation_error "Malformed request body")
    else some (plain status error (generic_message error))

unfoldable pub normalize_middleware_error : JsValue → Option NormalizedError
unfolding as_number or_number
normalize_middleware_error e =
    let status = or_number (as_number (get e "status")) (as_number (get e "statusCode")) in
    if is_object e then middleware_error e status else none

abbrev code_text : SocketErrorCode → String
code_text SocketErrorCode.validation_error = "VALIDATION_ERROR"
code_text SocketErrorCode.not_authenticated = "NOT_AUTHENTICATED"
code_text SocketErrorCode.not_member = "NOT_MEMBER"
code_text SocketErrorCode.not_found = "NOT_FOUND"
code_text SocketErrorCode.rate_limited = "RATE_LIMITED"
code_text SocketErrorCode.payload_too_large = "PAYLOAD_TOO_LARGE"
code_text SocketErrorCode.internal_error = "INTERNAL_ERROR"

-- The thrown object as a value, with those of its properties that the mapping reads.
unfoldable pub as_value : Thrown → JsValue
as_value (socket_error code message) =
    object (field "code" (string (code_text code)) (field "message" (string message) end))
as_value (ws_exception payload) = object end
as_value (http_exception status response message) = object end
as_value (other err) = err

unfoldable pub pg_or : Option PgErrorMapping → Option NormalizedError → NormalizedError
pg_or (some pg) middleware = plain pg.status pg.error pg.message
pg_or none (some middleware) = middleware
pg_or none none = plain 500 internal_error (generic_message internal_error)

unfoldable pub normalize_value : JsValue → NormalizedError
normalize_value err = pg_or (map_pg_error err) (normalize_middleware_error err)

unfoldable pub normalize_exception : Thrown → NormalizedError
normalize_exception (http_exception status response message) =
    normalize_http_exception status response message
normalize_exception exception = normalize_value (as_value exception)
