-- ===== src/Livekit/Webhook/Tests.antt =====
-- A room that starts twice and finishes.
use zevra_server.Prelude.{◌≡◌, refl, [], ◌∷◌, none}
use zevra_server.Store.{World}
use zevra_server.Store.Concrete.{list_backend, empty_world}
use zevra_server.Livekit.Webhook.{room_log, handle_room_started, handle_room_finished}
use zevra_server.Livekit.Webhook.Sessions.{
  Closes, handle_room_finished-Closes, handle_room_started-again,
}

abbrev in_room : World list_backend
in_room = record empty_world { call_logs = room_log "group-a" "r1" 5 none none "missed" ∷ [] }

handle_room_finished-Closes_example :
    Closes list_backend "group-a" in_room
      (handle_room_finished list_backend in_room "group-a" "r2" 9)
handle_room_finished-Closes_example =
    handle_room_finished-Closes list_backend in_room "group-a" "r2" 9 refl

handle_room_started-again_example :
    handle_room_started list_backend
      (handle_room_started list_backend empty_world "group-a" "r1" 5).0
      "group-a"
      "r2"
      6
    ≡ handle_room_started list_backend empty_world "group-a" "r1" 5
handle_room_started-again_example =
    handle_room_started-again list_backend empty_world "group-a" "r1" "r2" 5 6 refl
