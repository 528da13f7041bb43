-- ===== src/Calls/Gateway/Ending/Tests.antt =====
-- A hangup of a call that rings.
use zevra_server.Prelude.{refl}
use zevra_server.Js.{JsValue, object, field, end, string, undefined, null}
use zevra_server.Redis.{up}
use zevra_server.Redis.Values.{live, hash_of}
use zevra_server.Redis.Session.{text_of}
use zevra_server.Store.Concrete.{list_backend}
use zevra_server.Calls.State.{new_call, create_call, get_active_call}
use zevra_server.Calls.Gateway.{user_of, on_call, active_call, with_id, finish}
use zevra_server.Calls.Gateway.Ending.{hangup_finished, hangup_found, handle_hangup}
use zevra_server.Calls.Gateway.Ending.Frees.{Ends, handle_hangup-Ends}
use zevra_server.Uuid.{uuid_of}
use zevra_server.Calls.State.{field_of}
use zevra_server.Uuid.{uuid_of}
use zevra_server.Calls.State.{field_of}
use zevra_server.Calls.Samples.{socket_of_ann, at_200, in_call, in_call-IsMutual, offer}

handle_hangup-Ends_example :
    Ends list_backend 200 socket_of_ann in_call
      (handle_hangup list_backend in_call socket_of_ann offer at_200).0
unfolding handle_hangup on_call hangup_found hangup_finished active_call get_active_call
    zevra_server.Calls.State.active text_of live user_of uuid_of with_id finish zevra_server.Js.get
    create_call zevra_server.Calls.State.write_call zevra_server.Redis.Values.effect
    zevra_server.Calls.State.to_active_call field_of hash_of zevra_server.Redis.Values.set_fields
handle_hangup-Ends_example =
    handle_hangup-Ends list_backend in_call socket_of_ann offer at_200 in_call-IsMutual refl
