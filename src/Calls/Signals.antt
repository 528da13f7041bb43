-- ===== src/Calls/Signals.antt =====
-- src/modules/calls/calls.gateway.ts: the relays of WebRTC signals to the other user of a call.
pub mod Peers
pub mod Keeping
use zevra_server.Prelude.{
  ℕ, ◌*◌, String, Bool, true, false, not, ◌&&◌, ◌||◌, List, [], ◌∷◌, Option, none, some, ◌==◌, ltb,
  eqb, if◌then◌else◌,
}
use zevra_server.Js.{JsValue, undefined, null, string, object, field, end, get, codes, text_length}
use zevra_server.Sockets.{emit_to_user}
use zevra_server.Store.{Backend, World}
use zevra_server.Uuid.{uuid_of}
use zevra_server.Calls.State.{ActiveCall}
use zevra_server.Calls.Gateway.{
  SocketUser, SocketClient, user_of, get_other_user_id, with_id, allowed, active_call,
}

abbrev pub max_sdp_length : ℕ
max_sdp_length = 64 * 1024

abbrev pub max_candidate_length : ℕ
max_candidate_length = 4096

pub record RelayContext : Type 0 where
  pub user : SocketUser
  pub call : ActiveCall

context_of : SocketUser → Option ActiveCall → Option RelayContext
context_of user none = none
context_of user (some call) = some (record { user = user; call = call })

-- The text of a session description.
sdp_of : JsValue → Option String
sdp_of (string sdp) =
    let size = text_length (codes sdp) in
    if eqb size 0 || ltb max_sdp_length size then none else some sdp
sdp_of _ = none

-- `value ?? null`
or_null : JsValue → JsValue
or_null undefined = null
or_null value = value

is_undefined : JsValue → Bool
is_undefined undefined = true
is_undefined _ = false

module _ (b : Backend) where
  relay_limited : SocketUser → String → ℕ → World b × Bool → World b × Option RelayContext
  unfolding active_call context_of
  relay_limited user call_id now (w, false) = (w, none)
  relay_limited user call_id now (w, true) =
      (w, context_of user (with_id call_id (active_call b w user.id now)))

  relay_as : World b → SocketUser → ℕ → Option String → World b × Option RelayContext
  unfolding relay_limited allowed
  relay_as w user now none = (w, none)
  relay_as w user now (some call_id) =
      relay_limited user call_id now (allowed b w user.id "call-signal" 1000 50 now)

  unfoldable pub relay_target : World b → SocketClient → JsValue → ℕ → World b × Option RelayContext
  unfolding relay_as
  relay_target w client call_id now = elim (user_of client) [
    | none ↦ (w, none)
    | some user ↦ relay_as w user now (uuid_of call_id)
  ]

  -- The emission to the other user, of an event and what it carries.
  relay :
      String → (RelayContext → List (String × JsValue)) → World b × Option RelayContext → World b
  relay event fields (w, none) = w
  relay event fields (w, some ctx) = record w {
    socket =
        emit_to_user w.socket (get_other_user_id ctx.call ctx.user.id) event
          (("callId", string ctx.call.call_id) ∷ fields ctx);
  }

  -- `{ type, sdp }`
  abbrev description : String → String → JsValue
  description type sdp = object (field "type" (string type) (field "sdp" (string sdp) end))

  pub handle_offer : World b → SocketClient → JsValue → ℕ → World b
  unfolding relay sdp_of
  handle_offer w client body now = elim (sdp_of (get body "sdp")) [
    | none ↦ w
    | some sdp ↦
        relay "call:offer"
          (λ ctx.
            ("offer", description "offer" sdp)
            ∷ ("callerId", string ctx.user.id)
            ∷ ("callerUsername", ctx.user.username)
            ∷ [])
          (relay_target w client (get body "callId") now)
  ]

  pub handle_answer : World b → SocketClient → JsValue → ℕ → World b
  unfolding relay sdp_of
  handle_answer w client body now = elim (sdp_of (get body "sdp")) [
    | none ↦ w
    | some sdp ↦
        relay "call:answer"
          (λ ctx.
            ("answer", description "answer" sdp)
            ∷ ("calleeId", string ctx.user.id)
            ∷ ("calleeUsername", ctx.user.username)
            ∷ [])
          (relay_target w client (get body "callId") now)
  ]

  -- `stringify` is `JSON.stringify`.
  pub handle_ice_candidate : World b → SocketClient → (JsValue → String) → JsValue → ℕ → World b
  unfolding relay is_undefined or_null
  handle_ice_candidate w client stringify body now =
      let candidate = get body "candidate" in
      if is_undefined candidate
        || ltb max_candidate_length (text_length (codes (stringify (or_null candidate))))
      then w
      else relay "call:ice-candidate"
          (λ ctx. ("candidate", candidate) ∷ ("from", string ctx.user.id) ∷ [])
          (relay_target w client (get body "callId") now)
