-- ===== src/Calls/Signals/Peers.antt =====
-- Whom the signals of a call reach, calls.gateway.ts.
use mathlib.Core.Option.{none-ne-some, some-injective}
use zevra_server.Prelude.{
  ℕ, String, Bool, true, false, List, ◌∷◌, Option, none, some, ◌≡◌, refl, ◌∙◌, ap, sym, subst, ◌==◌,
  eq_iff, arith, Option-cases, Bool-cases, inl, inr, ◌⊎◌, by_test,
}
use zevra_server.Js.{JsValue, string, get}
use zevra_server.Redis.{Redis, Link, up, down, failing}
use zevra_server.Redis.Session.{Client}
use zevra_server.Sockets.{SocketService, emit_to_user}
use zevra_server.Store.{Backend, World}
use zevra_server.Uuid.{uuid_of}
use zevra_server.Calls.State.{ActiveCall, active, get_active_call}
use zevra_server.Calls.State.Views.{named, fields}
use zevra_server.Calls.State.Mutual.{IsMutual}
use zevra_server.Calls.State.Active.{IsCallOf, IsCallOf-own, active-named, active-IsCallOf}
use zevra_server.Calls.Gateway.{
  SocketUser, SocketClient, user_of, get_other_user_id, allowed, active_call,
}
use zevra_server.Calls.Gateway.Limits.{allowed-IsMutual}
use zevra_server.Calls.Gateway.Steps.{Kept, with_id-eq-some}
use zevra_server.Calls.Signals.{
  RelayContext, context_of, relay_limited, relay_as, relay_target, relay, sdp_of, handle_offer,
  handle_answer, handle_ice_candidate,
}

-- The other user of a call is in the same call, and is another.
module _ (r : Redis) (now : ℕ) (s : r.State) (m : IsMutual r now s) (u : String) (c : ActiveCall)
    (h : IsCallOf r now s u c) where
  other-named : named r now s (get_other_user_id c u) ≡ some c.call_id
  unfolding get_other_user_id
  other-named =
      let (_, _, _, _, _, a, b) = IsCallOf-own r now s u c h in
      elim (Bool-cases (c.initiator_id == u)) [ inl e ↦ rw e b | inr e ↦ rw e a ]

  pub other-differs : (get_other_user_id c u == u) ≡ false
  unfolding get_other_user_id
  other-differs =
      let (_, _, _, differ, _, _, _) = IsCallOf-own r now s u c h in
      ground
        (arith, eq_iff c.initiator_id u, eq_iff c.target_id u, eq_iff c.initiator_id c.target_id)

  pub other-active : active r now s (get_other_user_id c u) ≡ some c
  other-active =
      active-named r now s (get_other_user_id c u) c.call_id other-named
        (m now (omega arith) (get_other_user_id c u) c.call_id other-named)
      ∙ ap some h.1

-- Nobody hears of the signal, or exactly the other user of the caller's active call, who is in the
-- same call.
abbrev pub ReachesPeer : (b : Backend) → ℕ → SocketClient → String → World b → World b → Type 0
ReachesPeer b now client event w v =
    (v.socket ≡ w.socket)
    ⊎ ((user : SocketUser) × (call : ActiveCall) × (payload : List (String × JsValue)) × (user_of
            client
          ≡ some user)
        × (get_active_call b.redis v.client user.id now ≡ some call)
        × (get_active_call b.redis v.client (get_other_user_id call user.id) now ≡ some call)
        × ((get_other_user_id call user.id == user.id) ≡ false)
        × (v.socket ≡ emit_to_user w.socket (get_other_user_id call user.id) event payload))

module _ (b : Backend) (now : ℕ) (client : SocketClient) where
  -- While the link answers, both users are in the call.
  get_active_call-other :
      (c : Client b.redis) (u : String) (call : ActiveCall)
      → IsMutual b.redis now c.store
      → get_active_call b.redis c u now ≡ some call
      → (get_active_call b.redis c (get_other_user_id call u) now ≡ some call)
        × ((get_other_user_id call u == u) ≡ false)
  unfolding get_active_call
  get_active_call-other c u call m h = at_link c.link h
    where
      at_link :
          (l : Link)
          → (let o : Option ActiveCall = elim l [ up ↦ active b.redis now c.store u | _ ↦ none ] in
              o)
            ≡ some call
          → ((let o : Option ActiveCall = elim l [
            | up ↦ active b.redis now c.store (get_other_user_id call u)
            | _ ↦ none
          ] in
                o)
              ≡ some call)
            × ((get_other_user_id call u == u) ≡ false)
      at_link up h =
          let is_call = active-IsCallOf b.redis now c.store m u call h in
          (
            other-active b.redis now c.store m u call is_call,
            other-differs b.redis now c.store m u call is_call,
          )
      at_link down h = absurd (none-ne-some call h)
      at_link failing h = absurd (none-ne-some call h)

  -- What a relay has found: nothing was sent yet, and the call is the user's.
  abbrev pub Targets : World b → World b × Option RelayContext → Type 0
  Targets w x =
      (x.0.socket ≡ w.socket)
      × Kept b now x.0
      × ((ctx : RelayContext)
          → x.1 ≡ some ctx
          → (user_of client ≡ some ctx.user)
            × (get_active_call b.redis x.0.client ctx.user.id now ≡ some ctx.call))

  relay-ReachesPeer :
      (event : String) (fields : RelayContext → List (String × JsValue)) (w : World b)
      (x : World b × Option RelayContext)
      → Targets w x
      → ReachesPeer b now client event w (relay b event fields x)
  unfolding relay
  relay-ReachesPeer event fields w (v, none) t = inl t.0
  relay-ReachesPeer event fields w (v, some ctx) t =
      let (user, call) = t.2 ctx refl in
      let (other, differs) = get_active_call-other v.client ctx.user.id ctx.call t.1 call in
      inr (
        ctx.user,
        ctx.call,
        ("callId", string ctx.call.call_id) ∷ fields ctx,
        user,
        call,
        other,
        differs,
        ap
            (λ (s : SocketService).
              emit_to_user s (get_other_user_id ctx.call ctx.user.id) event
                (("callId", string ctx.call.call_id) ∷ fields ctx))
            t.0,
      )

  context_of-some :
      (user : SocketUser) (o : Option ActiveCall) (ctx : RelayContext)
      → context_of user o ≡ some ctx
      → (user ≡ ctx.user) × (o ≡ some ctx.call)
  unfolding context_of
  context_of-some user none ctx h = absurd (none-ne-some ctx h)
  context_of-some user (some call) ctx h =
      let e = some-injective _ ctx h in
      (ap (λ (x : RelayContext). x.user) e, ap (λ (x : RelayContext). some x.call) e)

  relay_limited-Targets :
      (w : World b) (user : SocketUser) (id : String) (x : World b × Bool)
      → user_of client ≡ some user
      → x.0.socket ≡ w.socket
      → Kept b now x.0
      → Targets w (relay_limited b user id now x)
  unfolding relay_limited active_call
  relay_limited-Targets w user id (v, false) hu hs m = (hs, m, λ ctx h. absurd (none-ne-some ctx h))
  relay_limited-Targets w user id (v, true) hu hs m = (
    hs,
    m,
    λ ctx h.
        let (same, found) = context_of-some user _ ctx h in
        (
          hu ∙ ap some same,
          ap (λ (y : SocketUser). get_active_call b.redis v.client y.id now) (sym same)
              ∙ with_id-eq-some b id _ ctx.call found,
        ),
  )

  relay_as-Targets :
      (w : World b) (user : SocketUser) (o : Option String)
      → user_of client ≡ some user
      → Kept b now w
      → Targets w (relay_as b w user now o)
  unfolding relay_as
  relay_as-Targets w user none hu m = (refl, m, λ ctx h. absurd (none-ne-some ctx h))
  relay_as-Targets w user (some id) hu m =
      relay_limited-Targets w user id (allowed b w user.id "call-signal" 1000 50 now) hu refl
        (allowed-IsMutual b w user.id "call-signal" 1000 50 now m)

  relay_target-user :
      (w : World b) (user : SocketUser) (v : JsValue)
      → user_of client ≡ some user
      → relay_target b w client v now ≡ relay_as b w user now (uuid_of v)
  unfolding relay_target
  relay_target-user w user v e = rw (e, relay_target) refl

  pub relay_target-Targets :
      (w : World b) (v : JsValue) → Kept b now w → Targets w (relay_target b w client v now)
  unfolding relay_target
  relay_target-Targets w v m = elim (Option-cases (user_of client)) [
    | inl e ↦ rw (e, relay_target) ((refl, m, λ ctx h. absurd (none-ne-some ctx h)))
    | inr (user, e) ↦
        subst (Targets w) (sym (relay_target-user w user v e))
          (relay_as-Targets w user (uuid_of v) e m)
  ]

  relayed :
      (event : String) (fields : RelayContext → List (String × JsValue)) (w : World b) (v : JsValue)
      → Kept b now w
      → ReachesPeer b now client event w (relay b event fields (relay_target b w client v now))
  relayed event fields w v m =
      relay-ReachesPeer event fields w (relay_target b w client v now) (relay_target-Targets w v m)

  handle_offer-peer :
      (w : World b) (body : JsValue)
      → Kept b now w
      → ReachesPeer b now client "call:offer" w (handle_offer b w client body now)
  unfolding handle_offer
  handle_offer-peer w body m = elim (Option-cases (sdp_of (get body "sdp"))) [
    | inl e ↦ rw (e, handle_offer) (inl refl)
    | inr (sdp, e) ↦ rw (e, handle_offer) (relayed "call:offer" _ w (get body "callId") m)
  ]

  handle_answer-peer :
      (w : World b) (body : JsValue)
      → Kept b now w
      → ReachesPeer b now client "call:answer" w (handle_answer b w client body now)
  unfolding handle_answer
  handle_answer-peer w body m = elim (Option-cases (sdp_of (get body "sdp"))) [
    | inl e ↦ rw (e, handle_answer) (inl refl)
    | inr (sdp, e) ↦ rw (e, handle_answer) (relayed "call:answer" _ w (get body "callId") m)
  ]

  handle_ice_candidate-peer :
      (w : World b) (stringify : JsValue → String) (body : JsValue)
      → Kept b now w
      → ReachesPeer b now client "call:ice-candidate" w
          (handle_ice_candidate b w client stringify body now)
  unfolding handle_ice_candidate
  handle_ice_candidate-peer w stringify body m =
      by_test (ReachesPeer b now client "call:ice-candidate" w) (inl refl)
        (relayed "call:ice-candidate" _ w (get body "callId") m) _

  -- In a state where every key of a user that holds an id of a call names a call that the user and
  -- another user are in, whose key holds the same id, an offer, an answer and a candidate are each
  -- either emitted to nobody, or to exactly one user: the other user of the sender's active call,
  -- who differs from the sender and whose active call is the same call.
  pub signals-ReachPeer :
      (w : World b) (stringify : JsValue → String) (body : JsValue)
      → Kept b now w
      → ReachesPeer b now client "call:offer" w (handle_offer b w client body now)
        × ReachesPeer b now client "call:answer" w (handle_answer b w client body now)
        × ReachesPeer b now client "call:ice-candidate" w
            (handle_ice_candidate b w client stringify body now)
  signals-ReachPeer w stringify body m = (
    handle_offer-peer w body m,
    handle_answer-peer w body m,
    handle_ice_candidate-peer w stringify body m,
  )
