-- ===== src/Livekit/Tests.antt =====
-- The room of a direct channel.
use zevra_server.Prelude.{◌≡◌, refl, ◌||◌}
use zevra_server.Store.Concrete.{list_backend, empty_world}
use zevra_server.Uuid.{is_uuid_text, same_uuid, after_uuid, after_hex, after_char, is_end}
use zevra_server.Livekit.{authorize_room_access, get_dm_room_name}
use zevra_server.Livekit.Rooms.{authorize_room_access-dm}

authorize_room_access-dm_example :
    authorize_room_access list_backend empty_world
      (get_dm_room_name "7e57a1b2-0000-4000-8000-00000000000a"
        "7e57a1b2-0000-4000-8000-00000000000b")
      "7e57a1b2-0000-4000-8000-00000000000a"
    ≡ (same_uuid "7e57a1b2-0000-4000-8000-00000000000a" "7e57a1b2-0000-4000-8000-00000000000a"
        || same_uuid "7e57a1b2-0000-4000-8000-00000000000b" "7e57a1b2-0000-4000-8000-00000000000a")
unfolding is_uuid_text after_uuid after_hex after_char is_end
authorize_room_access-dm_example =
    authorize_room_access-dm list_backend empty_world "7e57a1b2-0000-4000-8000-00000000000a"
      "7e57a1b2-0000-4000-8000-00000000000b" "7e57a1b2-0000-4000-8000-00000000000a" refl refl
