-- ===== src/Calls/Gateway/Ending/Keeping.antt =====
-- Calls stay mutual when they are over, calls.gateway.ts.
use zevra_server.Prelude.{
  ℕ, String, List, Option, none, some, ◌≡◌, refl, Option-cases, Bool-cases, inl, inr, any, not,
  ◌==◌,
}
use zevra_server.Js.{JsValue}
use zevra_server.Errors.Thrown.{Result, ok, thrown}
use zevra_server.Redis.Session.{Client}
use zevra_server.Store.{Backend, World}
use zevra_server.Calls.State.{ActiveCall, cleanup_user_call}
use zevra_server.Calls.State.Mutual.{IsMutual}
use zevra_server.Calls.State.Active.{IsCallOf}
use zevra_server.Calls.State.Users.{cleanup_user_call-IsMutual}
use zevra_server.Calls.Gateway.{SocketUser, SocketClient, Fresh, user_of, finish}
use zevra_server.Calls.Gateway.Steps.{
  Kept, Finds, Kept-as, on_call-cases, cleaned-Kept, finish-client,
}
use zevra_server.Calls.Gateway.Ending.{
  hangup_finished, hangup_found, handle_hangup, disconnect_finished, disconnect_cleaned,
  handle_disconnect,
}

module _ (b : Backend) where
  hangup_finished-Kept :
      (w : World b) (user_id : String) (c : ActiveCall) (fresh : Fresh)
      (x : World b × Result (Unit {0}))
      → Kept b fresh.now w
      → IsCallOf b.redis fresh.now w.client.store user_id c
      → x.0.client ≡ w.client
      → Kept b fresh.now (hangup_finished b user_id c fresh x).0
  unfolding hangup_finished
  hangup_finished-Kept w user_id c fresh (v, ok _) m call h =
      cleaned-Kept b fresh.now w user_id c call m v h
  hangup_finished-Kept w user_id c fresh (v, thrown e) m call h = Kept-as b fresh.now w v h m

  hangup_found-Kept :
      (w : World b) (user : SocketUser) (fresh : Fresh) (o : Option ActiveCall)
      → Kept b fresh.now w
      → Finds b fresh.now w user.id o
      → Kept b fresh.now (hangup_found b w user fresh o).0
  unfolding hangup_found
  hangup_found-Kept w user fresh none m f = m
  hangup_found-Kept w user fresh (some c) m f =
      hangup_finished-Kept w user.id c fresh (finish b w c fresh) m (f c refl).1
        (finish-client b w c fresh)

  pub handle_hangup-Kept :
      (w : World b) (client : SocketClient) (body : JsValue) (fresh : Fresh)
      → Kept b fresh.now w
      → Kept b fresh.now (handle_hangup b w client body fresh).0
  unfolding handle_hangup
  handle_hangup-Kept w client body fresh m =
      on_call-cases b (λ x. Kept b fresh.now x.0) w client body fresh.now
        (λ user o. hangup_found b w user fresh o) m (λ _. m)
        (λ user o _ f. hangup_found-Kept w user fresh o m f)

  disconnect_finished-Kept :
      (user_id : String) (c : ActiveCall) (now : ℕ) (x : World b × Result (Unit {0}))
      → Kept b now x.0
      → Kept b now (disconnect_finished b user_id c x)
  unfolding disconnect_finished
  disconnect_finished-Kept user_id c now (w, ok _) m = m
  disconnect_finished-Kept user_id c now (w, thrown e) m = m

  disconnect_cleaned-Kept :
      (w : World b) (user_id : String) (fresh : Fresh)
      (x : Client b.redis × Result (Option ActiveCall))
      → Kept b fresh.now w
      → IsMutual b.redis fresh.now x.0.store
      → Kept b fresh.now (disconnect_cleaned b w user_id fresh x)
  unfolding disconnect_cleaned
  disconnect_cleaned-Kept w user_id fresh (c, thrown e) m h = m
  disconnect_cleaned-Kept w user_id fresh (c, ok none) m h = h
  disconnect_cleaned-Kept w user_id fresh (c, ok (some call)) m h =
      disconnect_finished-Kept user_id call fresh.now
        (finish b (record w { client = c }) call fresh)
        (Kept-as b fresh.now (record w { client = c })
          (finish b (record w { client = c }) call fresh).0
          (finish-client b (record w { client = c }) call fresh) h)

  pub handle_disconnect-Kept :
      (w : World b) (client : SocketClient) (sockets : List String) (fresh : Fresh)
      → Kept b fresh.now w
      → Kept b fresh.now (handle_disconnect b w client sockets fresh)
  unfolding handle_disconnect
  handle_disconnect-Kept w client sockets fresh m = elim (Option-cases (user_of client)) [
    | inl e ↦ rw (e, handle_disconnect) m
    | inr (user, e) ↦
        rw (e, handle_disconnect)
          (elim (Bool-cases (any (λ id. not (id == client.id)) sockets)) [
            | inl h ↦ rw h m
            | inr h ↦ rw h (
                disconnect_cleaned-Kept w user.id fresh
                  (cleanup_user_call b.redis w.client user.id fresh.now) m
                  (cleanup_user_call-IsMutual b.redis fresh.now w.client m user.id))
          ])
  ]
