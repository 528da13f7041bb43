-- ===== src/Channels/Direct/Tests.antt =====
-- Two users who open a chat with each other, channels.service.ts.
use zevra_server.Prelude.{◌≡◌, refl, true, false, any, find}
use zevra_server.Store.{World}
use zevra_server.Store.Concrete.{list_backend, empty_world}
use zevra_server.Channels.{
  NewIds, CreateChannelResult, create_direct, direct_or_new, insert_channel, insert_members,
  has_member,
}
use zevra_server.Channels.Direct.{create_direct-again}

abbrev first_ids : NewIds
first_ids = record { channel = "c1"; membership = λ u. u }

abbrev later_ids : NewIds
later_ids = record { channel = "c2"; membership = λ u. u }

abbrev opened : World list_backend × CreateChannelResult
opened = create_direct list_backend empty_world "ann" "bob" first_ids 1

first_is_new : opened.1.created ≡ true
unfolding create_direct direct_or_new insert_channel insert_members has_member any find
first_is_new = refl

create_direct-again_example :
    create_direct list_backend opened.0 "bob" "ann" later_ids 2
    ≡ (opened.0, record { channel = opened.1.channel; created = false })
unfolding any
create_direct-again_example =
    create_direct-again list_backend empty_world "ann" "bob" first_ids later_ids 1 2 refl
