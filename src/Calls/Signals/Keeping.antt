-- ===== src/Calls/Signals/Keeping.antt =====
-- Calls stay mutual when their signals are relayed, calls.gateway.ts.
use zevra_server.Prelude.{ℕ, String, List, Option, none, some, Option-cases, inl, inr, by_test}
use zevra_server.Js.{JsValue, get}
use zevra_server.Store.{Backend, World}
use zevra_server.Calls.Gateway.{SocketClient}
use zevra_server.Calls.Gateway.Steps.{Kept}
use zevra_server.Calls.Signals.{
  RelayContext, relay_target, relay, sdp_of, handle_offer, handle_answer, handle_ice_candidate,
}
use zevra_server.Calls.Signals.Peers.{relay_target-Targets}

module _ (b : Backend) (now : ℕ) (client : SocketClient) where
  relay-Kept :
      (event : String) (fields : RelayContext → List (String × JsValue))
      (x : World b × Option RelayContext)
      → Kept b now x.0
      → Kept b now (relay b event fields x)
  unfolding relay
  relay-Kept event fields (w, none) m = m
  relay-Kept event fields (w, some ctx) m = m

  relayed-Kept :
      (event : String) (fields : RelayContext → List (String × JsValue)) (w : World b) (v : JsValue)
      → Kept b now w
      → Kept b now (relay b event fields (relay_target b w client v now))
  relayed-Kept event fields w v m =
      relay-Kept event fields (relay_target b w client v now)
        (relay_target-Targets b now client w v m).1

  pub handle_offer-Kept :
      (w : World b) (body : JsValue) → Kept b now w → Kept b now (handle_offer b w client body now)
  unfolding handle_offer
  handle_offer-Kept w body m = elim (Option-cases (sdp_of (get body "sdp"))) [
    | inl e ↦ rw (e, handle_offer) m
    | inr (sdp, e) ↦ rw (e, handle_offer) (relayed-Kept "call:offer" _ w (get body "callId") m)
  ]

  pub handle_answer-Kept :
      (w : World b) (body : JsValue) → Kept b now w → Kept b now (handle_answer b w client body now)
  unfolding handle_answer
  handle_answer-Kept w body m = elim (Option-cases (sdp_of (get body "sdp"))) [
    | inl e ↦ rw (e, handle_answer) m
    | inr (sdp, e) ↦ rw (e, handle_answer) (relayed-Kept "call:answer" _ w (get body "callId") m)
  ]

  pub handle_ice_candidate-Kept :
      (w : World b) (stringify : JsValue → String) (body : JsValue)
      → Kept b now w
      → Kept b now (handle_ice_candidate b w client stringify body now)
  unfolding handle_ice_candidate
  handle_ice_candidate-Kept w stringify body m =
      by_test (Kept b now) m (relayed-Kept "call:ice-candidate" _ w (get body "callId") m) _
