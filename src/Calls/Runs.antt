-- ===== src/Calls/Runs.antt =====
-- Sequences of the events of calls, each a handler of calls.gateway.ts at its time.
use zevra_server.Prelude.{ℕ, ◌≤◌, String, List, ◌≡◌, sym, subst}
use zevra_server.Js.{JsValue}
use zevra_server.Store.{Backend, World}
use zevra_server.Livekit.{LiveKit}
use zevra_server.Calls.State.Mutual.{IsMutual, IsMutual-later}
use zevra_server.Calls.State.Users.{IsNewCall}
use zevra_server.Calls.Gateway.{SocketClient, Fresh}
use zevra_server.Calls.Gateway.Steps.{Kept}
use zevra_server.Calls.Gateway.Starting.{handle_invite}
use zevra_server.Calls.Gateway.Starting.Keeping.{HasUserId, handle_invite-Kept}
use zevra_server.Calls.Gateway.Answering.{handle_accept, handle_reject}
use zevra_server.Calls.Gateway.Answering.Keeping.{handle_accept-Kept, handle_reject-Kept}
use zevra_server.Calls.Gateway.Ending.{handle_hangup, handle_disconnect}
use zevra_server.Calls.Gateway.Ending.Keeping.{handle_hangup-Kept, handle_disconnect-Kept}
use zevra_server.Calls.Signals.{handle_offer, handle_answer, handle_ice_candidate}
use zevra_server.Calls.Signals.Keeping.{
  handle_offer-Kept, handle_answer-Kept, handle_ice_candidate-Kept,
}
use zevra_server.Calls.Group.{handle_initiate}
use zevra_server.Calls.Group.Keeping.{handle_initiate-Kept}
use zevra_server.Calls.Fallback.{handle_livekit_fallback}
use zevra_server.Calls.Fallback.Keeping.{handle_livekit_fallback-Kept}

-- The event at a time and the state it leads to. An id of a new call is fresh, as `randomUUID` makes
-- it, and the user of a socket has an id.
pub data Step (b : Backend) (l : LiveKit) (now : ℕ) (w v : World b) : Type 0 where
  invite :
      (client : SocketClient) (body : JsValue) (fresh : Fresh)
      → fresh.now ≡ now
      → IsNewCall b.redis fresh.now w.client.store fresh.call_id
      → HasUserId client
      → v ≡ (handle_invite b w client body fresh).0
      → Step b l now w v
  initiate :
      (client : SocketClient) (body : JsValue) (fresh : Fresh)
      → fresh.now ≡ now
      → IsNewCall b.redis fresh.now w.client.store fresh.call_id
      → HasUserId client
      → v ≡ (handle_initiate b l w client body fresh).0
      → Step b l now w v
  accept :
      (client : SocketClient) (body : JsValue) (fresh : Fresh)
      → fresh.now ≡ now
      → v ≡ (handle_accept b w client body fresh).0
      → Step b l now w v
  reject :
      (client : SocketClient) (body : JsValue) (fresh : Fresh)
      → fresh.now ≡ now
      → v ≡ (handle_reject b w client body fresh).0
      → Step b l now w v
  hangup :
      (client : SocketClient) (body : JsValue) (fresh : Fresh)
      → fresh.now ≡ now
      → v ≡ (handle_hangup b w client body fresh).0
      → Step b l now w v
  disconnect :
      (client : SocketClient) (sockets : List String) (fresh : Fresh)
      → fresh.now ≡ now
      → v ≡ handle_disconnect b w client sockets fresh
      → Step b l now w v
  fallback :
      (client : SocketClient) (body : JsValue) (fresh : Fresh)
      → fresh.now ≡ now
      → v ≡ (handle_livekit_fallback b l w client body fresh).0
      → Step b l now w v
  offer :
      (client : SocketClient) (body : JsValue)
      → v ≡ handle_offer b w client body now
      → Step b l now w v
  answer :
      (client : SocketClient) (body : JsValue)
      → v ≡ handle_answer b w client body now
      → Step b l now w v
  candidate :
      (client : SocketClient) (stringify : JsValue → String) (body : JsValue)
      → v ≡ handle_ice_candidate b w client stringify body now
      → Step b l now w v

-- The states that events at later and later times lead to.
pub data Reaches (b : Backend) (l : LiveKit) (start : ℕ) (w : World b) : ℕ → World b → Type 0 where
  here : Reaches b l start w start w
  next :
      {now later : ℕ} {v u : World b}
      → Reaches b l start w now v
      → now ≤ later
      → Step b l later v u
      → Reaches b l start w later u

module _ (b : Backend) (l : LiveKit) where
  -- A step leads from one state with mutual calls to another.
  at_fresh :
      (now : ℕ) (w v : World b) (fresh : Fresh)
      → fresh.now ≡ now
      → (Kept b fresh.now w → Kept b fresh.now v)
      → Kept b now w
      → Kept b now v
  at_fresh now w v fresh e f m = subst (λ n. Kept b n v) e (f (subst (λ n. Kept b n w) (sym e) m))

  Step-Kept : (now : ℕ) (w v : World b) → Step b l now w v → Kept b now w → Kept b now v
  Step-Kept now w v (invite client body fresh e new hu h) m =
      at_fresh now w v fresh e
        (λ m. subst (Kept b fresh.now) (sym h) (handle_invite-Kept b fresh w client body m new hu))
        m
  Step-Kept now w v (initiate client body fresh e new hu h) m =
      at_fresh now w v fresh e
        (λ m.
          subst (Kept b fresh.now) (sym h) (handle_initiate-Kept b l fresh w client body m new hu))
        m
  Step-Kept now w v (accept client body fresh e h) m =
      at_fresh now w v fresh e
        (λ m. subst (Kept b fresh.now) (sym h) (handle_accept-Kept b w client body fresh m)) m
  Step-Kept now w v (reject client body fresh e h) m =
      at_fresh now w v fresh e
        (λ m. subst (Kept b fresh.now) (sym h) (handle_reject-Kept b w client body fresh m)) m
  Step-Kept now w v (hangup client body fresh e h) m =
      at_fresh now w v fresh e
        (λ m. subst (Kept b fresh.now) (sym h) (handle_hangup-Kept b w client body fresh m)) m
  Step-Kept now w v (disconnect client sockets fresh e h) m =
      at_fresh now w v fresh e
        (λ m. subst (Kept b fresh.now) (sym h) (handle_disconnect-Kept b w client sockets fresh m))
        m
  Step-Kept now w v (fallback client body fresh e h) m =
      at_fresh now w v fresh e
        (λ m.
          subst (Kept b fresh.now) (sym h) (handle_livekit_fallback-Kept b l fresh w client body m))
        m
  Step-Kept now w v (offer client body h) m =
      subst (Kept b now) (sym h) (handle_offer-Kept b now client w body m)
  Step-Kept now w v (answer client body h) m =
      subst (Kept b now) (sym h) (handle_answer-Kept b now client w body m)
  Step-Kept now w v (candidate client stringify body h) m =
      subst (Kept b now) (sym h) (handle_ice_candidate-Kept b now client w stringify body m)

  -- If at some time every key of a user that holds an id of a call names, from then on, a call that
  -- the user and another user are in, whose key holds the same id, then this is so in every state
  -- that a sequence of the calls' events leads to, at later and later times: invite, initiate,
  -- accept, reject, hangup, disconnect, the fallback to LiveKit and the three signals. It holds
  -- whether Redis answers, is down or fails, and on every branch of the handlers. The id of a new
  -- call is one that no key names and that has no fields, and the user of a socket that starts a
  -- call has an id that is not empty.
  pub Reaches-IsMutual :
      {start : ℕ} {w : World b} {now : ℕ} {v : World b}
      → IsMutual b.redis start w.client.store
      → Reaches b l start w now v
      → IsMutual b.redis now v.client.store
  Reaches-IsMutual m here = m
  Reaches-IsMutual m (next {now} {later} {v} {u} r h step) =
      Step-Kept later v u step
        (IsMutual-later b.redis now later v.client.store h (Reaches-IsMutual m r))
