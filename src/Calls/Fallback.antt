-- ===== src/Calls/Fallback.antt =====
-- src/modules/calls/calls.gateway.ts: call:livekit-fallback, call:livekit-active and
-- call:livekit-join-group. Requests to
-- create a room are not recorded: nothing reads their outcome.
pub mod Keeping
use zevra_server.Prelude.{
  ℕ, String, Bool, true, false, not, ◌&&◌, ◌||◌, List, [], ◌∷◌, Option, none, some, ◌==◌, keep,
  length, leb, ltb, eqb, if◌then◌else◌,
}
use zevra_server.Js.{
  JsValue, undefined, null, boolean, number, string, array, Items, nil, cons, get, codes, is_digit,
  distinct_from,
}
use zevra_server.Errors.{not_member}
use zevra_server.Errors.Thrown.{Thrown, Result, ok, thrown}
use zevra_server.Errors.SocketAck.{ack, to_socket_error}
use zevra_server.Redis.Session.{is_online}
use zevra_server.Sockets.{emit_to_user}
use zevra_server.Schema.{User}
use zevra_server.Store.{Backend, World}
use zevra_server.Uuid.{uuid_of, is_hex_digit, lower}
use zevra_server.Livekit.{
  LiveKit, generate_token, get_participants, get_dm_room_name, get_group_room_name,
  authorize_room_access, after_word,
}
use zevra_server.Calls.Inputs.{
  max_group_targets, uuid_list, channel_of, CallKind, dm, group, kind_of, room_name_of, target_of,
  name_or, no_target, outsider, not_available, token_value, livekit_log,
}
use zevra_server.Calls.State.{ActiveCall}
use zevra_server.Calls.Logs.{LogInput, create_call_log, get_usernames, name_in}
use zevra_server.Calls.Gateway.{
  SocketUser, SocketClient, Reply, done, failed, refused, Fresh, user_of, invalid, unauthenticated,
  limited, is_some, allowed, place_call, tell_incoming, active_call,
}

module _ (b : Backend) (l : LiveKit) where
  -- The invitation of the other user, if the name is known.
  invite_target : World b → SocketUser → String → String → Option String → World b
  invite_target w user room_name target_id none = w
  invite_target w user room_name target_id (some name) =
      elim (generate_token l room_name target_id (string name)) [
        | none ↦ w
        | some token ↦ if name == "" then w else record w {
          socket = emit_to_user w.socket target_id "livekit:incoming" (
              ("roomName", string room_name)
              ∷ ("serverUrl", l.url)
              ∷ ("token", string token)
              ∷ ("callerId", string user.id)
              ∷ ("callerUsername", user.username)
              ∷ []);
        }
      ]

  fallback_logged : SocketUser → String → String → World b × Result String → World b × Reply
  unfolding invite_target
  fallback_logged user target_id room_name (w, thrown e) = (w, refused (to_socket_error e))
  fallback_logged user target_id room_name (w, ok log_id) =
      elim (generate_token l room_name user.id user.username) [
        | none ↦ (w, failed "TOKEN_FAILED" "Could not start the call" [])
        | some token ↦ (
          invite_target w user room_name target_id
              (name_in (get_usernames b w (target_id ∷ [])) target_id),
          done (
              ("method", string "LIVEKIT")
              ∷ ("roomName", string room_name)
              ∷ ("serverUrl", l.url)
              ∷ ("token", string token)
              ∷ ("callLogId", string log_id)
              ∷ []),
        )
      ]

  fallback_to : World b → SocketUser → Option String → Option String → Fresh → World b × Reply
  unfolding fallback_logged
  fallback_to w user none channel fresh = (w, no_target)
  fallback_to w user (some target_id) channel fresh =
      let room_name = get_dm_room_name user.id target_id in
      fallback_logged user target_id room_name (
        create_call_log b w (livekit_log user.id (some target_id) room_name channel) fresh.log_id
          fresh.now)

  fallback_limited :
      SocketUser → List String → Option String → Fresh → World b × Bool → World b × Reply
  unfolding fallback_to
  fallback_limited user target_ids channel fresh (w, false) = (w, limited)
  fallback_limited user target_ids channel fresh (w, true) =
      fallback_to w user (target_of user.id target_ids) channel fresh

  fallback_as :
      World b → SocketUser → Option (List String) → Option (Option String) → Fresh → World b × Reply
  unfolding fallback_limited
  fallback_as w user none _ fresh = (w, invalid "targetUserIds must be a list of user ids")
  fallback_as w user (some target_ids) none fresh = (w, invalid "channelId must be a valid id")
  fallback_as w user (some target_ids) (some channel) fresh =
      if l.is_configured
      then fallback_limited user target_ids channel fresh
          (allowed b w user.id "call" 5000 10 fresh.now)
      else (w, not_available)

  pub handle_livekit_fallback : World b → SocketClient → JsValue → Fresh → World b × Reply
  unfolding fallback_as
  handle_livekit_fallback w client body fresh = elim (user_of client) [
    | none ↦ (w, unauthenticated)
    | some user ↦
        fallback_as w user (uuid_list (get body "targetUserIds") max_group_targets)
          (channel_of (get body "channelId")) fresh
  ]

  active_in : World b → SocketUser → Option String → Reply
  active_in w user none = invalid "channelId must be a valid id"
  active_in w user (some channel_id) =
      let room_name = get_group_room_name channel_id in
      let count = get_participants l room_name in
      if not (authorize_room_access b w room_name user.id)
      then outsider "Not a member of this channel"
      else if not l.is_configured
      then done (("active", boolean false) ∷ ("participantCount", number 0) ∷ [])
      else done (
          ("active", boolean (ltb 0 count))
          ∷ ("participantCount", number count)
          ∷ ("roomName", string room_name)
          ∷ [])

  -- Nothing changes.
  pub handle_livekit_active : World b → SocketClient → JsValue → Reply
  unfolding active_in
  handle_livekit_active w client body = elim (user_of client) [
    | none ↦ unauthenticated
    | some user ↦ active_in w user (uuid_of (get body "channelId"))
  ]

  join_room : World b → SocketUser → Option String → Reply
  join_room w user none = invalid "roomName is invalid"
  join_room w user (some room_name) =
      if not l.is_configured
      then not_available
      else if not (authorize_room_access b w room_name user.id)
      then outsider "Not allowed to join this call"
      else elim (generate_token l room_name user.id user.username) [
        | none ↦ failed "TOKEN_FAILED" "Could not join the call" []
        | some token ↦
            done
              (("serverUrl", l.url) ∷ ("token", string token) ∷ ("roomName", string room_name) ∷ [])
      ]

  -- Nothing changes.
  pub handle_livekit_join_group : World b → SocketClient → JsValue → Reply
  unfolding join_room
  handle_livekit_join_group w client body = elim (user_of client) [
    | none ↦ unauthenticated
    | some user ↦ join_room w user (room_name_of (get body "roomName"))
  ]
