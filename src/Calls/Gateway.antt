-- ===== src/Calls/Gateway.antt =====
-- src/modules/calls/calls.gateway.ts: what its handlers of calls between two users share. A handler
-- runs as one step; what it generates is an argument.
pub mod Starting
pub mod Answering
pub mod Ending
pub mod Limits
pub mod Steps
pub mod Placing
use zevra_server.Prelude.{
  ℕ, String, Bool, true, false, not, ◌&&◌, ◌||◌, List, [], ◌∷◌, Option, none, some, ◌==◌, any,
  if◌then◌else◌,
}
use zevra_server.Js.{JsValue, string, get}
use zevra_server.Errors.{not_authenticated, validation_error, rate_limited}
use zevra_server.Errors.Thrown.{Thrown, Result, ok, thrown}
use zevra_server.Errors.SocketAck.{SocketErrorAck, ack, to_socket_error}
use zevra_server.Redis.{key, rate_limit_key}
use zevra_server.Redis.Session.{Client, is_online}
use zevra_server.RateLimit.{check_rate_limit}
use zevra_server.Sockets.{emit_to_user}
use zevra_server.Store.{Backend, World}
use zevra_server.Uuid.{uuid_of}
use zevra_server.Calls.State.{
  ActiveCall, get_active_call, create_call, accept_call, cleanup_call, cleanup_user_call,
}
use zevra_server.Calls.Logs.{
  LogInput, create_call_log, update_call_log_accepted, update_call_log_rejected, end_call_log,
}

pub record SocketUser : Type 0 where
  pub id : String
  pub username : JsValue

-- A socket, and the `user` of its data.
pub record SocketClient : Type 0 where
  pub id : String
  pub user : JsValue

pub data Reply : Type 0 where
  -- { success: true, … }
  done : List (String × JsValue) → Reply
  -- { success: false, error, message, … }
  failed : String → String → List (String × JsValue) → Reply
  -- a SocketErrorAck
  refused : SocketErrorAck → Reply

-- What a handler generates: ids of a call, of its row and of the participants' rows, and the time.
pub record Fresh : Type 0 where
  pub call_id : String
  pub log_id : String
  pub participant_id : String → String
  pub now : ℕ

user_from : JsValue → JsValue → Option SocketUser
user_from (string id) username = some (record { id = id; username = username })
user_from _ username = none

unfoldable pub user_of : SocketClient → Option SocketUser
unfolding user_from
user_of client = user_from (get client.user "id") (get client.user "username")

abbrev pub invalid : String → Reply
invalid message = refused (ack validation_error message)

abbrev pub unauthenticated : Reply
unauthenticated = refused (ack not_authenticated "Not authenticated")

abbrev pub limited : Reply
limited = refused (ack rate_limited "Too many call attempts")

abbrev pub is_some {ℓ} : {A : Type ℓ} → Option A → Bool
is_some none = false
is_some (some a) = true

unfoldable pub get_other_user_id : ActiveCall → String → String
get_other_user_id call user_id =
    if call.initiator_id == user_id then call.target_id else call.initiator_id

-- The call of the id, out of the active call of a user.
unfoldable pub with_id : String → Option ActiveCall → Option ActiveCall
with_id call_id none = none
with_id call_id (some call) = if call.call_id == call_id then some call else none

-- The same, when the user is its callee.
unfoldable pub ringing_for : String → Option ActiveCall → Option ActiveCall
ringing_for user_id none = none
ringing_for user_id (some call) = if call.target_id == user_id then some call else none

abbrev pub webrtc : String → Option String → Option String → LogInput
webrtc initiator_id target_id channel_id = record {
  type = "WEBRTC";
  initiator_id = initiator_id;
  callee_id = target_id;
  room_name = none;
  channel_id = channel_id;
}

module _ (b : Backend) where
  -- The limit of attempts, 10 in 5 s.
  unfoldable pub allowed : World b → String → String → ℕ → ℕ → ℕ → World b × Bool
  allowed w user_id scope window_ms max_requests now =
      let (c, result) =
        check_rate_limit b.redis w.client (rate_limit_key scope user_id) window_ms max_requests
          now in
      (record w { client = c }, result.allowed)

  -- The end of `call:invite`: what follows the creation of the row, and of the call.
  created :
      World b
      → Fresh
      → (World b → ActiveCall → World b)
      → (ActiveCall → Reply)
      → Client b.redis × Result ActiveCall
      → World b × Reply
  created w fresh tell reply (c, ok call) = (tell (record w { client = c }) call, reply call)
  created w fresh tell reply (c, thrown e) = (record w { client = c }, refused (to_socket_error e))

  logged :
      String
      → String
      → Fresh
      → (World b → ActiveCall → World b)
      → (ActiveCall → Reply)
      → World b × Result String
      → World b × Reply
  unfolding created
  logged initiator_id target_id fresh tell reply (w, ok log_id) =
      created w fresh tell reply
        (create_call b.redis w.client initiator_id target_id (some log_id) fresh.call_id fresh.now)
  logged initiator_id target_id fresh tell reply (w, thrown e) = (w, refused (to_socket_error e))

  -- A row and a call from one user to another.
  unfoldable pub place_call :
      World b
      → String
      → String
      → Option String
      → Fresh
      → (World b → ActiveCall → World b)
      → (ActiveCall → Reply)
      → World b × Reply
  unfolding logged
  place_call w initiator_id target_id channel_id fresh tell reply =
      logged initiator_id target_id fresh tell reply (
        create_call_log b w (webrtc initiator_id (some target_id) channel_id) fresh.log_id
          fresh.now)

  abbrev pub tell_incoming : SocketUser → String → World b → ActiveCall → World b
  tell_incoming user target_id w call = record w {
    socket = emit_to_user w.socket target_id "call:incoming" (
        ("callId", string call.call_id)
        ∷ ("callerId", string user.id)
        ∷ ("callerUsername", user.username)
        ∷ []);
  }

  unfoldable pub active_call : World b → String → ℕ → Option ActiveCall
  active_call w user_id now = get_active_call b.redis w.client user_id now

  -- The handlers that take the id of a call.
  unfoldable pub on_call :
      World b
      → SocketClient
      → JsValue
      → ℕ
      → (SocketUser → Option ActiveCall → World b × Reply)
      → World b × Reply
  unfolding active_call
  on_call w client body now act = elim (user_of client) [
    | none ↦ (w, unauthenticated)
    | some user ↦ elim (uuid_of (get body "callId")) [
      | none ↦ (w, invalid "callId must be a valid id")
      | some call_id ↦ act user (with_id call_id (active_call w user.id now))
    ]
  ]

  -- The row of the call, made when it has none.
  log_found : World b → ActiveCall → Fresh → Option String → World b × Result String
  log_found w call fresh (some id) = (w, ok id)
  log_found w call fresh none =
      create_call_log b w (webrtc call.initiator_id (some call.target_id) none) fresh.log_id
        fresh.now

  unfoldable pub log_of : World b → ActiveCall → Fresh → World b × Result String
  unfolding log_found
  log_of w call fresh = log_found w call fresh call.call_log_id

  abbrev pub cleaned : World b → String → ℕ → World b
  cleaned w call_id now = record w { client = (cleanup_call b.redis w.client call_id now).0 }

  finish_logged : ActiveCall → Fresh → World b × Result String → World b × Result (Unit {0})
  finish_logged call fresh (w, thrown e) = (w, thrown e)
  finish_logged call fresh (w, ok log_id) =
      end_call_log b w log_id call.initiator_id call.target_id call.started_at fresh.participant_id
        fresh.now

  unfoldable pub finish_connected_call : World b → ActiveCall → Fresh → World b × Result (Unit {0})
  unfolding finish_logged log_of
  finish_connected_call w call fresh = finish_logged call fresh (log_of w call fresh)

  -- A call that is not connected has nothing to finish.
  unfoldable pub finish : World b → ActiveCall → Fresh → World b × Result (Unit {0})
  unfolding finish_connected_call
  finish w call fresh =
      if call.status == "connected" then finish_connected_call w call fresh else (w, ok tt)
