-- ===== src/Errors/Tests.antt =====
-- Thrown values and what leaves the server for them.
use zevra_server.Prelude.{◌≡◌, ◌↔◌, refl, some}
use zevra_server.Js.{JsValue, string, object, field, end, get, all}
use zevra_server.Errors.{
  http_status_to_socket_code, http_status_to_error_code, map_pg_error, pg_mapping, is_sqlstate,
  sqlstate,
}
use zevra_server.Errors.Thrown.{other, not_found}
use zevra_server.Errors.SocketAck.{to_socket_error}
use zevra_server.Errors.HttpBody.{normalize_exception, normalize_http_exception}
use zevra_server.Errors.Laws.{
  IsGeneric, to_socket_error-IsGeneric, IsClean, normalize_exception-IsClean, IsUnlisted, translate,
  socket_code-agrees_iff, Carries, here, under, map_pg_error-wrapped,
}

-- An error of the driver with a text that names a row.
abbrev leaky : JsValue
leaky =
    object
      (field "message" (string "Key (email)=(a@b.c) exists") (field "code" (string "23505") end))

not_found_status : (normalize_exception (not_found "Channel not found")).status ≡ 404
unfolding normalize_exception normalize_http_exception http_status_to_error_code
not_found_status = refl

to_socket_error-IsGeneric_example : IsGeneric (to_socket_error (other leaky))
to_socket_error-IsGeneric_example = to_socket_error-IsGeneric leaky

normalize_exception-IsClean_example : IsClean (normalize_exception (other leaky))
normalize_exception-IsClean_example = normalize_exception-IsClean (other leaky)

socket_code-agrees_iff_example :
    (http_status_to_socket_code 413 ≡ translate (http_status_to_error_code 413))
    ↔ (¬ IsUnlisted 413)
socket_code-agrees_iff_example = socket_code-agrees_iff 413

-- A unique violation that drizzle wraps, with a code of its own that is no SQLSTATE.
abbrev driver_error : JsValue
driver_error = object (field "code" (string "23505") (field "detail" (string "Key exists") end))

abbrev query_error : JsValue
query_error = object (
    field "message" (string "Failed query")
      (field "code" (string "EQUERY") (field "cause" driver_error end)))

query_error-Carries : Carries 1 query_error "23505"
unfolding sqlstate is_sqlstate get all
query_error-Carries = under 0 query_error "23505" refl refl (here driver_error "23505" refl refl)

map_pg_error-wrapped_example : map_pg_error query_error ≡ some (pg_mapping "23505")
map_pg_error-wrapped_example = map_pg_error-wrapped 1 query_error "23505" query_error-Carries
