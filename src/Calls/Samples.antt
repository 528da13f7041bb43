-- ===== src/Calls/Samples.antt =====
-- Two users, before and in a call, on a small store.
use mathlib.Core.Option.{none-ne-some}
use zevra_server.Prelude.{refl, String, none, some, arith}
use zevra_server.Js.{JsValue, object, field, end, string}
use zevra_server.Redis.Values.{live, hash_of}
use zevra_server.Redis.Session.{text_of}
use zevra_server.Store.{World}
use zevra_server.Store.Concrete.{list_backend, empty_world, memory_redis}
use zevra_server.Calls.State.{new_call, create_call, get_active_call}
use zevra_server.Calls.State.Mutual.{IsMutual, IsMutual-later}
use zevra_server.Calls.State.Users.{IsNewCall, create_call-IsMutual}
use zevra_server.Calls.State.Lifetime.{answering}
use zevra_server.Calls.Gateway.{SocketClient, Fresh}

abbrev pub ann : String
ann = "7e57a1b2-0000-4000-8000-00000000000a"

abbrev pub bob : String
bob = "7e57a1b2-0000-4000-8000-00000000000b"

abbrev pub call_id : String
call_id = "7e57a1b2-0000-4000-8000-0000000000c1"

abbrev pub socket_of_ann : SocketClient
socket_of_ann = record {
  id = "s1";
  user = object (field "id" (string ann) (field "username" (string "ann") end));
}

abbrev pub at_100 : Fresh
at_100 = record { call_id = call_id; log_id = "log"; participant_id = λ id. id; now = 100 }

abbrev pub at_200 : Fresh
at_200 = record at_100 { now = 200 }

pub nobody-IsMutual : IsMutual memory_redis 100 (λ k. none)
unfolding live text_of
nobody-IsMutual t h u id k = absurd (none-ne-some id k)

pub nobody-IsNewCall : IsNewCall memory_redis 100 (λ k. none) call_id
unfolding live text_of hash_of
nobody-IsNewCall = (refl, λ u k. none-ne-some call_id k, refl)

abbrev pub in_call : World list_backend
in_call = record empty_world {
  client =
      (create_call memory_redis (answering memory_redis 100 (λ k. none)) ann bob (some "log")
        call_id 100).0;
}

pub in_call-IsMutual : IsMutual memory_redis 200 in_call.client.store
unfolding get_active_call zevra_server.Calls.State.active text_of live
in_call-IsMutual = IsMutual-later memory_redis 100 200 in_call.client.store (omega arith) (
    create_call-IsMutual memory_redis 100 (answering memory_redis 100 (λ k. none)) nobody-IsMutual
      ann bob (some "log") call_id nobody-IsNewCall refl refl refl refl refl)

abbrev pub offer : JsValue
offer = object (field "callId" (string call_id) (field "sdp" (string "v=0") end))
