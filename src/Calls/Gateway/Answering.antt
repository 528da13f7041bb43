-- ===== src/Calls/Gateway/Answering.antt =====
-- src/modules/calls/calls.gateway.ts: call:accept and call:reject.
pub mod Keeping
use zevra_server.Prelude.{
  ℕ, String, Bool, true, false, not, ◌&&◌, ◌||◌, List, [], ◌∷◌, Option, none, some, ◌==◌, any,
  if◌then◌else◌,
}
use zevra_server.Js.{JsValue, string, get}
use zevra_server.Errors.Thrown.{Thrown, Result, ok, thrown}
use zevra_server.Errors.SocketAck.{to_socket_error}
use zevra_server.Redis.Session.{Client, is_online}
use zevra_server.Sockets.{emit_to_user}
use zevra_server.Store.{Backend, World}
use zevra_server.Uuid.{uuid_of}
use zevra_server.Calls.State.{
  ActiveCall, get_active_call, create_call, accept_call, cleanup_call, cleanup_user_call,
}
use zevra_server.Calls.Logs.{
  LogInput, create_call_log, update_call_log_accepted, update_call_log_rejected, end_call_log,
}
use zevra_server.Calls.Gateway.{
  SocketUser, SocketClient, Reply, done, failed, refused, Fresh, user_of, invalid, unauthenticated,
  limited, is_some, get_other_user_id, with_id, ringing_for, allowed, place_call, tell_incoming,
  active_call, on_call, log_of, cleaned, finish,
}

module _ (b : Backend) where
  accepted_log : World b → Option String → World b
  accepted_log w none = w
  accepted_log w (some id) = update_call_log_accepted b w id

  accept_found : World b → SocketUser → Fresh → Option ActiveCall → World b × Reply
  unfolding accepted_log
  accept_found w user fresh none = (w, failed "INVALID_CALL" "Call not found" [])
  accept_found w user fresh (some call) =
      let v =
        accepted_log (record w { client = accept_call b.redis w.client call fresh.now })
          call.call_log_id in
      (
        record v {
          socket = emit_to_user v.socket call.initiator_id "call:accepted" (
              ("callId", string call.call_id)
              ∷ ("calleeId", string user.id)
              ∷ ("calleeUsername", user.username)
              ∷ []);
        },
        done [],
      )

  pub handle_accept : World b → SocketClient → JsValue → Fresh → World b × Reply
  unfolding on_call accept_found
  handle_accept w client body fresh =
      on_call b w client body fresh.now
        (λ user call. accept_found w user fresh (ringing_for user.id call))

  reject_logged : String → ActiveCall → Fresh → World b × Result String → World b × Reply
  reject_logged user_id call fresh (w, thrown e) = (w, refused (to_socket_error e))
  reject_logged user_id call fresh (w, ok log_id) =
      let v = cleaned b (update_call_log_rejected b w log_id) call.call_id fresh.now in
      (
        record v {
          socket =
              emit_to_user v.socket (get_other_user_id call user_id) "call:rejected"
                (("callId", string call.call_id) ∷ []);
        },
        done [],
      )

  reject_found : World b → SocketUser → Fresh → Option ActiveCall → World b × Reply
  unfolding reject_logged
  reject_found w user fresh none = (w, failed "INVALID_CALL" "Call not found" [])
  reject_found w user fresh (some call) = reject_logged user.id call fresh (log_of b w call fresh)

  pub handle_reject : World b → SocketClient → JsValue → Fresh → World b × Reply
  unfolding on_call reject_found
  handle_reject w client body fresh =
      on_call b w client body fresh.now (λ user call. reject_found w user fresh call)
