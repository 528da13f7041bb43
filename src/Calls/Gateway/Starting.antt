-- ===== src/Calls/Gateway/Starting.antt =====
-- src/modules/calls/calls.gateway.ts: call:invite.
pub mod Keeping
use zevra_server.Prelude.{
  ℕ, String, Bool, true, false, not, ◌&&◌, ◌||◌, List, [], ◌∷◌, Option, none, some, ◌==◌, any,
  if◌then◌else◌,
}
use zevra_server.Js.{JsValue, string, get}
use zevra_server.Errors.Thrown.{Thrown, Result, ok, thrown}
use zevra_server.Errors.SocketAck.{to_socket_error}
use zevra_server.Redis.Session.{Client, is_online}
use zevra_server.Sockets.{emit_to_user}
use zevra_server.Store.{Backend, World}
use zevra_server.Uuid.{uuid_of}
use zevra_server.Calls.State.{
  ActiveCall, get_active_call, create_call, accept_call, cleanup_call, cleanup_user_call,
}
use zevra_server.Calls.Logs.{
  LogInput, create_call_log, update_call_log_accepted, update_call_log_rejected, end_call_log,
}
use zevra_server.Calls.Gateway.{
  SocketUser, SocketClient, Reply, done, failed, refused, Fresh, user_of, invalid, unauthenticated,
  limited, is_some, get_other_user_id, with_id, ringing_for, allowed, place_call, tell_incoming,
  active_call, on_call, log_of, cleaned, finish,
}

abbrev pub invited : Fresh → ActiveCall → Reply
invited fresh call =
    done (("callId", string call.call_id) ∷ ("callLogId", string fresh.log_id) ∷ [])

module _ (b : Backend) where
  invite_allowed : World b → SocketUser → String → Fresh → World b × Reply
  unfolding active_call place_call
  invite_allowed w user target_id fresh =
      if is_some (active_call b w user.id fresh.now)
      then (w, failed "ALREADY_IN_CALL" "You are already in a call" [])
      else if is_some (active_call b w target_id fresh.now)
      then (w, failed "TARGET_BUSY" "User is busy" [])
      else if not (is_online b.redis w.client target_id fresh.now)
      then (w, failed "TARGET_OFFLINE" "User is offline" [])
      else place_call b w user.id target_id none fresh (tell_incoming b user target_id)
          (invited fresh)

  invite_limited : SocketUser → String → Fresh → World b × Bool → World b × Reply
  unfolding invite_allowed
  invite_limited user target_id fresh (w, true) = invite_allowed w user target_id fresh
  invite_limited user target_id fresh (w, false) = (w, limited)

  invite_as : World b → SocketUser → Option String → Fresh → World b × Reply
  unfolding invite_limited allowed
  invite_as w user none fresh = (w, invalid "targetUserId must be a valid user id")
  invite_as w user (some target_id) fresh =
      if target_id == user.id
      then (w, invalid "targetUserId must be a valid user id")
      else invite_limited user target_id fresh (allowed b w user.id "call" 5000 10 fresh.now)

  pub handle_invite : World b → SocketClient → JsValue → Fresh → World b × Reply
  unfolding invite_as
  handle_invite w client body fresh = elim (user_of client) [
    | none ↦ (w, unauthenticated)
    | some user ↦ invite_as w user (uuid_of (get body "targetUserId")) fresh
  ]
