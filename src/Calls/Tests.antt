-- ===== src/Calls/Tests.antt =====
-- Two users in a call, on a small store.
use mathlib.Core.Option.{some-injective}
use zevra_server.Prelude.{◌≡◌, refl, sym, ap, ◌==◌, false, none, some, arith, leb, if◌then◌else◌}
use zevra_server.Js.{JsValue, object, field, end, string, undefined, null}
use zevra_server.Errors.Thrown.{ok}
use zevra_server.Store.{World}
use zevra_server.Store.Concrete.{list_backend, empty_world, memory_redis}
use zevra_server.Livekit.{LiveKit}
use zevra_server.Calls.State.{new_call, create_call, get_active_call}
use zevra_server.Calls.State.Mutual.{IsMutual}
use zevra_server.Calls.State.Lifetime.{answering, create_call-Rings}
use zevra_server.Calls.Gateway.{SocketUser, user_of}
use zevra_server.Calls.Gateway.Starting.{handle_invite}
use zevra_server.Calls.Gateway.Ending.{handle_hangup}
use zevra_server.Calls.Signals.{handle_offer, handle_answer, handle_ice_candidate}
use zevra_server.Calls.Signals.Peers.{ReachesPeer, signals-ReachPeer}
use zevra_server.Calls.Runs.{here, next, invite, hangup, Reaches-IsMutual}
use zevra_server.Calls.Samples.{
  ann, bob, call_id, socket_of_ann, at_100, at_200, nobody-IsMutual, nobody-IsNewCall, in_call,
  in_call-IsMutual, offer,
}

create_call-Rings_example :
    let (c, result) =
      create_call memory_redis
        (answering memory_redis 100 (λ k. none))
        ann
        bob
        (some "log")
        call_id
        100 in
    let call = new_call ann bob (some "log") call_id 100 in
    (result ≡ ok call)
    × (get_active_call memory_redis c ann 200 ≡ (if leb 120100 200 then none else some call))
    × (get_active_call memory_redis c bob 200 ≡ (if leb 120100 200 then none else some call))
create_call-Rings_example =
    create_call-Rings memory_redis 100 (λ k. none) ann bob "log" call_id 200 nobody-IsNewCall refl
      refl

signals-ReachPeer_example :
    ReachesPeer list_backend 200 socket_of_ann "call:offer" in_call
      (handle_offer list_backend in_call socket_of_ann offer 200)
    × ReachesPeer list_backend 200 socket_of_ann "call:answer" in_call
        (handle_answer list_backend in_call socket_of_ann offer 200)
    × ReachesPeer list_backend 200 socket_of_ann "call:ice-candidate" in_call
        (handle_ice_candidate list_backend in_call socket_of_ann (λ v. "") offer 200)
signals-ReachPeer_example =
    signals-ReachPeer list_backend 200 socket_of_ann in_call (λ v. "") offer in_call-IsMutual

abbrev livekit : LiveKit
livekit = record {
  is_configured = false;
  url = null;
  sign = λ room user name. "";
  participants = λ room. 0;
}

abbrev to_bob : JsValue
to_bob = object (field "targetUserId" (string bob) end)

ann-HasId : (user : SocketUser) → user_of socket_of_ann ≡ some user → (user.id == "") ≡ false
unfolding user_of zevra_server.Js.get
ann-HasId user h =
    ap (λ (v : SocketUser). v.id == "")
      (sym (some-injective (record { id = ann; username = string "ann" }) user h))

abbrev after_invite : World list_backend
after_invite = (handle_invite list_backend empty_world socket_of_ann to_bob at_100).0

Reaches-IsMutual_example :
    IsMutual memory_redis 200
      (handle_hangup list_backend after_invite socket_of_ann offer at_200).0.client.store
Reaches-IsMutual_example = Reaches-IsMutual list_backend livekit nobody-IsMutual (
    next
      (next here (omega arith)
        (invite socket_of_ann to_bob at_100 refl nobody-IsNewCall ann-HasId refl))
      (omega arith) (hangup socket_of_ann offer at_200 refl refl))
