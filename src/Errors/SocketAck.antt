-- ===== src/Errors/SocketAck.antt =====
-- src/common/errors/socket-error.ts: any thrown value as a socket acknowledgement.
use zevra_server.Prelude.{String, Bool, true, false, Option, none, some, ◌==◌, if◌then◌else◌}
use zevra_server.Js.{JsValue, string, array, get, first, is_object}
use zevra_server.Errors.{
  SocketErrorCode, validation_error, not_authenticated, not_member, internal_error, PgErrorMapping,
  http_status_to_socket_code, map_pg_error,
}
use zevra_server.Errors.Thrown.{Thrown, socket_error, ws_exception, http_exception, other}

pub record SocketErrorAck : Type 0 where
  pub error : SocketErrorCode
  pub message : String

-- `isSocketCode`, with the code that the text stands for.
unfoldable pub socket_code : JsValue → Option SocketErrorCode
socket_code (string s) =
    if s == "VALIDATION_ERROR"
    then some SocketErrorCode.validation_error
    else if s == "NOT_AUTHENTICATED"
    then some not_authenticated
    else if s == "NOT_MEMBER"
    then some not_member
    else if s == "NOT_FOUND"
    then some SocketErrorCode.not_found
    else if s == "RATE_LIMITED"
    then some SocketErrorCode.rate_limited
    else if s == "PAYLOAD_TOO_LARGE"
    then some SocketErrorCode.payload_too_large
    else if s == "INTERNAL_ERROR"
    then some SocketErrorCode.internal_error
    else none
socket_code _ = none

as_string : JsValue → Option String
as_string (string s) = some s
as_string _ = none

unfoldable pub first_message : JsValue → Option String
unfolding as_string first
first_message (string s) = if s == "" then none else some s
first_message (array items) = as_string (first items)
first_message _ = none

abbrev pub or_else {ℓ} : {A : Type ℓ} → Option A → A → A
or_else none d = d
or_else (some a) d = a

abbrev pub or_try {ℓ} : {A : Type ℓ} → Option A → Option A → Option A
or_try none o = o
or_try (some a) o = some a

abbrev pub ack : SocketErrorCode → String → SocketErrorAck
ack code message = record { error = code; message = message }

-- The branch for a WsException.
unfoldable pub ws_ack : JsValue → SocketErrorAck
unfolding socket_code first_message get
ws_ack (string s) = ack (or_else (socket_code (string s)) validation_error) s
ws_ack payload =
    if is_object payload
    then ack
        (or_else (or_try (socket_code (get payload "error")) (socket_code (get payload "code")))
          validation_error)
        (or_else (first_message (get payload "message")) "Request failed")
    else ack validation_error "Request failed"

is_internal : SocketErrorCode → Bool
is_internal internal_error = true
is_internal _ = false

response_message : JsValue → String → String
unfolding first_message get
response_message (string s) message = s
response_message response message = or_else (first_message (get response "message")) message

-- The branch for an HttpException.
unfoldable pub http_ack : SocketErrorCode → JsValue → String → SocketErrorAck
unfolding is_internal response_message
http_ack code response message =
    if is_internal code
    then ack code "Internal server error"
    else ack code (response_message response message)

-- The branch for a database error, and the last return.
unfoldable pub pg_ack : Option PgErrorMapping → SocketErrorAck
pg_ack (some pg) = ack (http_status_to_socket_code pg.status) pg.message
pg_ack none = ack internal_error "Internal server error"

unfoldable pub to_socket_error : Thrown → SocketErrorAck
to_socket_error (socket_error code message) = ack code message
to_socket_error (ws_exception payload) = ws_ack payload
to_socket_error (http_exception status response message) =
    http_ack (http_status_to_socket_code status) response message
to_socket_error (other err) = pg_ack (map_pg_error err)
