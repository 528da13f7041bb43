-- ===== src/Errors/Laws.antt =====
-- What leaves the server for a thrown value.
use zevra_server.Prelude.{
  ℕ, zero, suc, String, true, Option, none, some, ltb, ◌≤◌, ◌<◌, if◌then◌else◌, ◌≡◌, refl, ◌≢◌, ◌⊎◌,
  inl, inr, arith, Option-cases, ◌↔◌, Bool-cases,
}
use mathlib.Core.Option
use zevra_server.Js.{JsValue, string, get, is_object}
use zevra_server.Errors.{
  HttpErrorCode, SocketErrorCode, internal_error, http_status_to_error_code,
  http_status_to_socket_code, map_pg_error, find_pg_error, pg_mapping, sqlstate,
}
use zevra_server.Errors.Thrown.{Thrown, http_exception, other}
use zevra_server.Errors.SocketAck.{SocketErrorAck, to_socket_error, ack, pg_ack}
use zevra_server.Errors.HttpBody.{
  NormalizedError, normalize_exception, normalize_http_exception, normalize_value,
  normalize_middleware_error, middleware_error, pg_or, generic_message,
}

-- An acknowledgement that says nothing of the value that was thrown but its class.
abbrev pub IsGeneric : SocketErrorAck → Type 0
IsGeneric a =
    (a ≡ ack SocketErrorCode.internal_error "Internal server error")
    ⊎ (a ≡ ack SocketErrorCode.validation_error "Resource already exists")
    ⊎ (a ≡ ack SocketErrorCode.not_found "Referenced resource not found")
    ⊎ (a ≡ ack SocketErrorCode.validation_error "Invalid input")

pg_ack-IsGeneric :
    (code : String)
    → IsGeneric
        (ack (http_status_to_socket_code (pg_mapping code).status) (pg_mapping code).message)
unfolding pg_mapping http_status_to_socket_code
pg_ack-IsGeneric code = ground arith

-- What is thrown and is no SocketError, WsException or HttpException is answered by one of four
-- fixed acknowledgements.
pub to_socket_error-IsGeneric : (err : JsValue) → IsGeneric (to_socket_error (other err))
unfolding to_socket_error pg_ack map_pg_error
to_socket_error-IsGeneric err = elim (Option-cases (find_pg_error 4 err)) [
  | inl e ↦ rw e (inl refl)
  | inr (code, e) ↦ rw e (pg_ack-IsGeneric code)
]

-- The status and the code of a normalised error belong together, and an internal error has one
-- fixed text and no details.
abbrev pub IsClean : NormalizedError → Type 0
IsClean n =
    (n.error ≡ http_status_to_error_code n.status)
    × (n.error ≡ internal_error → (n.message ≡ generic_message internal_error) × (n.details ≡ none))

normalize_http-IsClean :
    (status : ℕ) (response : JsValue) (message : String)
    → IsClean (normalize_http_exception status response message)
unfolding normalize_http_exception
normalize_http-IsClean status (string s) message = (ground arith, λ h. ground arith)
normalize_http-IsClean status _ message = (ground arith, λ h. ground arith)

abbrev IsCleanIfAny : Option NormalizedError → Type 0
IsCleanIfAny none = Unit
IsCleanIfAny (some n) = IsClean n

middleware_error-IsClean :
    (v : JsValue) (status : Option ℕ) → IsCleanIfAny (middleware_error v status)
unfolding middleware_error http_status_to_error_code
middleware_error-IsClean v none = tt
middleware_error-IsClean v (some status) = ground arith

normalize_middleware_error-IsClean : (v : JsValue) → IsCleanIfAny (normalize_middleware_error v)
unfolding normalize_middleware_error
normalize_middleware_error-IsClean v = elim (Bool-cases (is_object v)) [
  | inl e ↦ rw e (middleware_error-IsClean v _)
  | inr e ↦ rw e tt
]

pg_or-IsClean :
    (code : Option String) (m : Option NormalizedError)
    → IsCleanIfAny m
    → IsClean (pg_or (Option.map pg_mapping code) m)
unfolding pg_or pg_mapping http_status_to_error_code
pg_or-IsClean (some code) m h = ground arith
pg_or-IsClean none (some n) h = h
pg_or-IsClean none none h = ground arith

normalize_value-IsClean : (v : JsValue) → IsClean (normalize_value v)
unfolding normalize_value map_pg_error
normalize_value-IsClean v =
    pg_or-IsClean (find_pg_error 4 v) _ (normalize_middleware_error-IsClean v)

-- For every thrown value the HTTP body's code is the one of its status, and a body with the code
-- INTERNAL_ERROR has the generic text and no details.
pub normalize_exception-IsClean : (t : Thrown) → IsClean (normalize_exception t)
unfolding normalize_exception
normalize_exception-IsClean (http_exception status response message) =
    normalize_http-IsClean status response message
normalize_exception-IsClean _ = normalize_value-IsClean _

-- The status of a client error that neither `switch` names.
abbrev pub IsUnlisted : ℕ → Type 0
IsUnlisted s =
    (400 ≤ s)
    × (s < 500)
    × (s ≢ 400)
    × (s ≢ 401)
    × (s ≢ 403)
    × (s ≢ 404)
    × (s ≢ 409)
    × (s ≢ 413)
    × (s ≢ 422)
    × (s ≢ 429)

-- What the socket code would be if it were read off the HTTP code.
abbrev pub translate : HttpErrorCode → SocketErrorCode
translate HttpErrorCode.unauthorized = SocketErrorCode.not_authenticated
translate HttpErrorCode.forbidden = SocketErrorCode.not_member
translate HttpErrorCode.not_found = SocketErrorCode.not_found
translate HttpErrorCode.rate_limited = SocketErrorCode.rate_limited
translate HttpErrorCode.payload_too_large = SocketErrorCode.payload_too_large
translate HttpErrorCode.internal_error = SocketErrorCode.internal_error
translate _ = SocketErrorCode.validation_error

-- The HTTP and the socket table of status codes agree on a status exactly when it is no client
-- error that both leave unnamed.
pub socket_code-agrees_iff :
    (s : ℕ)
    → (http_status_to_socket_code s ≡ translate (http_status_to_error_code s)) ↔ (¬ IsUnlisted s)
unfolding http_status_to_socket_code http_status_to_error_code
socket_code-agrees_iff s = (λ e u. ground arith, λ n. ground arith)

-- A value that leads to the SQLSTATE `code` by its cause `n` times: an object that has that code, or
-- one that has no SQLSTATE of its own and whose cause leads to it.
pub data Carries : ℕ → JsValue → String → Type 0 where
  here :
      (err : JsValue) (code : String)
      → is_object err ≡ true
      → sqlstate (get err "code") ≡ some code
      → Carries 0 err code
  under :
      (n : ℕ) (err : JsValue) (code : String)
      → is_object err ≡ true
      → sqlstate (get err "code") ≡ none
      → Carries n (get err "cause") code
      → Carries (suc n) err code

find_pg_error-Carries :
    (depth n : ℕ) (err : JsValue) (code : String)
    → Carries n err code
    → find_pg_error depth err ≡ (if ltb n depth then some code else none)
unfolding find_pg_error
find_pg_error-Carries zero n err code c = ground arith
find_pg_error-Carries (suc depth) _ _ _ (here err code o h) = rw (o, h) (ground arith)
find_pg_error-Carries (suc depth) _ _ _ (under n err code o h c) =
    rw (o, h) (ground (arith, find_pg_error-Carries depth n (get err "cause") code c))

-- An object whose code is an SQLSTATE is mapped by that code under at most three wrappers, and is
-- not mapped under more. A wrapper is any object that carries it as its cause and has no SQLSTATE
-- as a code of its own.
pub map_pg_error-wrapped :
    (n : ℕ) (err : JsValue) (code : String)
    → Carries n err code
    → map_pg_error err ≡ (if ltb n 4 then some (pg_mapping code) else none)
unfolding map_pg_error
map_pg_error-wrapped n err code c = rw (find_pg_error-Carries 4 n err code c) (ground arith)
