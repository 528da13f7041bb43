-- ===== src/Calls/Group.antt =====
-- src/modules/calls/calls.gateway.ts: call:initiate and the calls in rooms of LiveKit. Requests to
-- create a room are not recorded: nothing reads their outcome.
pub mod Keeping
use zevra_server.Prelude.{
  ℕ, String, Bool, true, false, not, ◌&&◌, ◌||◌, List, [], ◌∷◌, Option, none, some, ◌==◌, keep,
  length, leb, ltb, eqb, if◌then◌else◌,
}
use zevra_server.Js.{
  JsValue, undefined, null, boolean, number, string, array, Items, nil, cons, get, codes, is_digit,
  distinct_from,
}
use zevra_server.Errors.{not_member}
use zevra_server.Errors.Thrown.{Thrown, Result, ok, thrown}
use zevra_server.Errors.SocketAck.{ack, to_socket_error}
use zevra_server.Redis.Session.{is_online}
use zevra_server.Sockets.{emit_to_user}
use zevra_server.Schema.{User}
use zevra_server.Store.{Backend, World}
use zevra_server.Uuid.{uuid_of, is_hex_digit, lower}
use zevra_server.Livekit.{
  LiveKit, generate_token, get_participants, get_dm_room_name, get_group_room_name,
  authorize_room_access, after_word,
}
use zevra_server.Calls.Inputs.{
  max_group_targets, uuid_list, channel_of, CallKind, dm, group, kind_of, room_name_of, target_of,
  name_or, no_target, outsider, not_available, token_value, livekit_log,
}
use zevra_server.Calls.State.{ActiveCall}
use zevra_server.Calls.Logs.{LogInput, create_call_log, get_usernames, name_in}
use zevra_server.Calls.Gateway.{
  SocketUser, SocketClient, Reply, done, failed, refused, Fresh, user_of, invalid, unauthenticated,
  limited, is_some, allowed, place_call, tell_incoming, active_call,
}

abbrev pub started : Fresh → ActiveCall → Reply
started fresh call = done (
    ("method", string "WEBRTC")
    ∷ ("callId", string call.call_id)
    ∷ ("callLogId", string fresh.log_id)
    ∷ [])

module _ (b : Backend) (l : LiveKit) where
  -- The invitation of a candidate whose name is known and who may join the room.
  invite_member : SocketUser → String → List User → String → World b → World b
  invite_member user room_name names target_id w = elim (name_in names target_id) [
    | none ↦ w
    | some name ↦ elim (generate_token l room_name target_id (string name)) [
      | none ↦ w
      | some token ↦
          if name == "" || not (authorize_room_access b w room_name target_id)
          then w
          else record w {
            socket = emit_to_user w.socket target_id "livekit:group-invite" (
                ("roomName", string room_name)
                ∷ ("serverUrl", l.url)
                ∷ ("token", string token)
                ∷ ("creatorId", string user.id)
                ∷ ("creatorUsername", user.username)
                ∷ []);
          }
    ]
  ]

  invite_members : SocketUser → String → List User → List String → World b → World b
  unfolding invite_member
  invite_members user room_name names [] w = w
  invite_members user room_name names (id ∷ ids) w =
      invite_members user room_name names ids (invite_member user room_name names id w)

  group_logged : SocketUser → String → List String → World b × Result String → World b × Reply
  unfolding invite_members
  group_logged user room_name target_ids (w, thrown e) = (w, refused (to_socket_error e))
  group_logged user room_name target_ids (w, ok log_id) =
      let candidates = distinct_from [] (keep (λ id. not (id == user.id)) target_ids) in
      (
        invite_members user room_name (get_usernames b w candidates) candidates w,
        done (
            ("method", string "LIVEKIT")
            ∷ ("roomName", string room_name)
            ∷ ("serverUrl", l.url)
            ∷ ("token", token_value (generate_token l room_name user.id user.username))
            ∷ ("callLogId", string log_id)
            ∷ []),
      )

  pub initiate_livekit_group_call :
      World b → SocketUser → String → List String → Fresh → World b × Reply
  unfolding group_logged
  initiate_livekit_group_call w user channel_id target_ids fresh =
      let room_name = get_group_room_name channel_id in
      if l.is_configured
      then group_logged user room_name target_ids (
          create_call_log b w (livekit_log user.id none room_name (some channel_id)) fresh.log_id
            fresh.now)
      else (w, not_available)

  initiate_group : World b → SocketUser → Option String → List String → Fresh → World b × Reply
  initiate_group w user none target_ids fresh =
      (w, failed "CHANNEL_REQUIRED" "channelId is required" [])
  initiate_group w user (some channel_id) target_ids fresh =
      if authorize_room_access b w (get_group_room_name channel_id) user.id
      then initiate_livekit_group_call w user channel_id target_ids fresh
      else (w, (outsider "Not a member of this channel"))

  -- The events of a call that was placed.
  tell_started : SocketUser → String → World b → ActiveCall → World b
  unfolding name_or
  tell_started user target_id w call =
      let name = name_or "Unknown" (name_in (get_usernames b w (target_id ∷ [])) target_id) in
      tell_incoming b user target_id
        (record w {
          socket = emit_to_user w.socket user.id "call:method-selected" (
              ("callId", string call.call_id)
              ∷ ("method", string "WEBRTC")
              ∷ ("targetUserId", string target_id)
              ∷ ("targetUsername", string name)
              ∷ []);
        })
        call

  initiate_dm : World b → SocketUser → Option String → Option String → Fresh → World b × Reply
  unfolding tell_started
  initiate_dm w user channel none fresh = (w, no_target)
  initiate_dm w user channel (some target_id) fresh =
      if is_some (active_call b w target_id fresh.now)
      then (w, failed "TARGET_BUSY" "User is busy" [])
      else if not (is_online b.redis w.client target_id fresh.now)
      then (w, failed "TARGET_OFFLINE" "User is offline" (("fallback", string "LIVEKIT") ∷ []))
      else place_call b w user.id target_id channel fresh (tell_started user target_id)
          (started fresh)

  initiate_kind :
      World b → SocketUser → CallKind → List String → Option String → Fresh → World b × Reply
  unfolding initiate_group initiate_dm target_of
  initiate_kind w user group target_ids channel fresh =
      initiate_group w user channel target_ids fresh
  initiate_kind w user dm target_ids channel fresh =
      initiate_dm w user channel (target_of user.id target_ids) fresh

  initiate_limited :
      SocketUser → CallKind → List String → Option String → Fresh → World b × Bool → World b × Reply
  unfolding initiate_kind
  initiate_limited user kind target_ids channel fresh (w, false) = (w, limited)
  initiate_limited user kind target_ids channel fresh (w, true) =
      if is_some (active_call b w user.id fresh.now)
      then (w, failed "ALREADY_IN_CALL" "You are already in a call" [])
      else initiate_kind w user kind target_ids channel fresh

  initiate_as :
      World b
      → SocketUser
      → Option CallKind
      → Option (List String)
      → Option (Option String)
      → Fresh
      → World b × Reply
  unfolding initiate_limited
  initiate_as w user none _ _ fresh = (w, invalid "type must be DM or GROUP")
  initiate_as w user (some kind) none _ fresh =
      (w, invalid "targetUserIds must be a list of user ids")
  initiate_as w user (some kind) (some target_ids) none fresh =
      (w, invalid "channelId must be a valid id")
  initiate_as w user (some kind) (some target_ids) (some channel) fresh =
      initiate_limited user kind target_ids channel fresh
        (allowed b w user.id "call" 5000 10 fresh.now)

  pub handle_initiate : World b → SocketClient → JsValue → Fresh → World b × Reply
  unfolding initiate_as kind_of channel_of
  handle_initiate w client body fresh = elim (user_of client) [
    | none ↦ (w, unauthenticated)
    | some user ↦
        initiate_as w user (kind_of (get body "type"))
          (uuid_list (get body "targetUserIds") max_group_targets)
          (channel_of (get body "channelId")) fresh
  ]
