-- ===== src/Calls/Gateway/Ending.antt =====
-- src/modules/calls/calls.gateway.ts: call:hangup, and the end of a call when its user's last socket
-- disconnects.
pub mod Keeping
pub mod Frees
mod Tests
use zevra_server.Prelude.{
  ℕ, String, Bool, true, false, not, ◌&&◌, ◌||◌, List, [], ◌∷◌, Option, none, some, ◌==◌, any,
  if◌then◌else◌,
}
use zevra_server.Js.{JsValue, string, get}
use zevra_server.Errors.Thrown.{Thrown, Result, ok, thrown}
use zevra_server.Errors.SocketAck.{to_socket_error}
use zevra_server.Redis.Session.{Client, is_online}
use zevra_server.Sockets.{emit_to_user}
use zevra_server.Store.{Backend, World}
use zevra_server.Uuid.{uuid_of}
use zevra_server.Calls.State.{
  ActiveCall, get_active_call, create_call, accept_call, cleanup_call, cleanup_user_call,
}
use zevra_server.Calls.Logs.{
  LogInput, create_call_log, update_call_log_accepted, update_call_log_rejected, end_call_log,
}
use zevra_server.Calls.Gateway.{
  SocketUser, SocketClient, Reply, done, failed, refused, Fresh, user_of, invalid, unauthenticated,
  limited, is_some, get_other_user_id, with_id, ringing_for, allowed, place_call, tell_incoming,
  active_call, on_call, log_of, cleaned, finish,
}

module _ (b : Backend) where
  hangup_finished : String → ActiveCall → Fresh → World b × Result (Unit {0}) → World b × Reply
  hangup_finished user_id call fresh (w, thrown e) = (w, refused (to_socket_error e))
  hangup_finished user_id call fresh (w, ok _) =
      let v = cleaned b w call.call_id fresh.now in
      (
        record v {
          socket =
              emit_to_user v.socket (get_other_user_id call user_id) "call:hangup"
                (("callId", string call.call_id) ∷ []);
        },
        done [],
      )

  hangup_found : World b → SocketUser → Fresh → Option ActiveCall → World b × Reply
  unfolding hangup_finished
  hangup_found w user fresh none = (w, failed "INVALID_CALL" "Call not found" [])
  hangup_found w user fresh (some call) = hangup_finished user.id call fresh (finish b w call fresh)

  pub handle_hangup : World b → SocketClient → JsValue → Fresh → World b × Reply
  unfolding on_call hangup_found
  handle_hangup w client body fresh =
      on_call b w client body fresh.now (λ user call. hangup_found w user fresh call)

  -- The other user is told only when the row could be finished.
  disconnect_finished : String → ActiveCall → World b × Result (Unit {0}) → World b
  disconnect_finished user_id call (w, thrown e) = w
  disconnect_finished user_id call (w, ok _) = record w {
    socket = emit_to_user w.socket (get_other_user_id call user_id) "call:hangup" (
        ("callId", string call.call_id)
        ∷ (
          "reason",
          string (if call.status == "connected" then "disconnected" else "caller_disconnected"),
        )
        ∷ []);
  }

  disconnect_cleaned :
      World b → String → Fresh → Client b.redis × Result (Option ActiveCall) → World b
  unfolding disconnect_finished
  disconnect_cleaned w user_id fresh (c, thrown e) = w
  disconnect_cleaned w user_id fresh (c, ok none) = record w { client = c }
  disconnect_cleaned w user_id fresh (c, ok (some call)) =
      disconnect_finished user_id call (finish b (record w { client = c }) call fresh)

  -- `sockets` are the ids of the user's sockets that Socket.IO finds, none when it fails.
  pub handle_disconnect : World b → SocketClient → List String → Fresh → World b
  unfolding disconnect_cleaned
  handle_disconnect w client sockets fresh = elim (user_of client) [
    | none ↦ w
    | some user ↦
        if any (λ id. not (id == client.id)) sockets
        then w
        else disconnect_cleaned w user.id fresh
            (cleanup_user_call b.redis w.client user.id fresh.now)
  ]
