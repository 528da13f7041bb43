-- ===== src/Errors/Thrown.antt =====
-- The values that handlers throw. Nest's exception classes and the server's own SocketError are
-- kept apart from other values, as `instanceof` does (src/common/errors/socket-error.ts).
use zevra_server.Prelude.{ap, ℕ, String, ◌≡◌, arith}
use zevra_server.Js.{JsValue, string, number, object, field, end}
use zevra_server.Errors.{SocketErrorCode}

pub data Thrown : Type 0 where
  socket_error : SocketErrorCode → String → Thrown
  -- `getError()`
  ws_exception : JsValue → Thrown
  -- `getStatus()`, `getResponse()` and `message`
  http_exception : ℕ → JsValue → String → Thrown
  -- any other value
  other : JsValue → Thrown

-- What Nest's `HttpException` answers for an exception built from a message.
abbrev pub http : ℕ → String → Thrown
http status message =
    http_exception status
      (object (field "statusCode" (number status) (field "message" (string message) end))) message

abbrev pub bad_request : String → Thrown
bad_request = http 400

abbrev pub unauthorized : String → Thrown
unauthorized = http 401

abbrev pub forbidden : String → Thrown
forbidden = http 403

abbrev pub not_found : String → Thrown
not_found = http 404

abbrev pub conflict : String → Thrown
conflict = http 409

abbrev pub payload_too_large : String → Thrown
payload_too_large = http 413

abbrev pub service_unavailable : String → Thrown
service_unavailable = http 503

-- What an asynchronous method ends with.
pub data Result {ℓ} (A : Type ℓ) : Type ℓ where
  ok : A → Result A
  thrown : Thrown → Result A

pub thrown≢ok {ℓ} : {A : Type ℓ} {e : Thrown} {a : A} → thrown e ≡ ok a → ⊥
thrown≢ok h = ground arith

pub ok-injective {ℓ} : {A : Type ℓ} {a b : A} → ok a ≡ ok b → a ≡ b
ok-injective {A = A} {a = a} h = ap (value_or a) h
  where
    value_or : A → Result A → A
    value_or d (ok x) = x
    value_or d (thrown e) = d
