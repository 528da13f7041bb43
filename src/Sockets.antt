-- ===== src/Sockets.antt =====
-- src/socket/socket.service.ts: what the services send through Socket.IO. Its server is a
-- parameter: a call of it is recorded in an outbox, in order.
use zevra_server.Js.{JsValue}
use zevra_server.Prelude.{String, Bool, List, [], ◌∷◌, ◌++◌, Option, none, some, map, if◌then◌else◌}

pub data Room : Type 0 where
  channel_room user_room socket_room : String → Room

pub data Sent : Type 0 where
  -- rooms, rooms that are left out, event and fields of the payload
  emit : List Room → List Room → String → List (String × JsValue) → Sent
  sockets_join sockets_leave : List Room → Room → Sent

-- `server` is null before the gateway has started.
pub record SocketService : Type 0 where
  pub server : Bool
  pub outbox : List Sent

pub record EmitOptions : Type 0 where
  pub except_socket_id : Option String
  pub except_user_id : Option String

abbrev send : SocketService → Sent → SocketService
send s m = if s.server then record s { outbox = s.outbox ++ m ∷ [] } else s

unfoldable pub emit_to_user :
    SocketService → String → String → List (String × JsValue) → SocketService
emit_to_user s user_id event payload = send s (emit (user_room user_id ∷ []) [] event payload)

unfoldable pub emit_to_users :
    SocketService → List String → String → List (String × JsValue) → SocketService
emit_to_users s [] event payload = s
emit_to_users s (u ∷ us) event payload = send s (emit (map user_room (u ∷ us)) [] event payload)

abbrev room_of : (String → Room) → Option String → List Room
room_of room none = []
room_of room (some id) = room id ∷ []

unfoldable pub emit_to_channel :
    SocketService → String → String → List (String × JsValue) → EmitOptions → SocketService
emit_to_channel s channel_id event payload options = send s (
    emit (channel_room channel_id ∷ [])
      (room_of socket_room options.except_socket_id ++ room_of user_room options.except_user_id)
      event payload)

unfoldable pub emit_to_channel_and_users :
    SocketService → String → List String → String → List (String × JsValue) → SocketService
emit_to_channel_and_users s channel_id user_ids event payload =
    send s (emit (channel_room channel_id ∷ map user_room user_ids) [] event payload)

unfoldable pub join_users_to_channel : SocketService → List String → String → SocketService
join_users_to_channel s [] channel_id = s
join_users_to_channel s (u ∷ us) channel_id =
    send s (sockets_join (map user_room (u ∷ us)) (channel_room channel_id))

unfoldable pub remove_user_from_channel : SocketService → String → String → SocketService
remove_user_from_channel s user_id channel_id =
    send s (sockets_leave (user_room user_id ∷ []) (channel_room channel_id))
