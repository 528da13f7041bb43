-- ===== src/Calls/Gateway/Answering/Keeping.antt =====
-- Calls stay mutual when they are accepted or rejected, calls.gateway.ts.
use zevra_server.Prelude.{String, Option, none, some, ◌≡◌, refl}
use zevra_server.Js.{JsValue}
use zevra_server.Errors.Thrown.{Result, ok, thrown}
use zevra_server.Store.{Backend, World}
use zevra_server.Calls.State.{ActiveCall, accept_call}
use zevra_server.Calls.State.Active.{IsCallOf}
use zevra_server.Calls.Logs.{update_call_log_accepted, update_call_log_rejected}
use zevra_server.Calls.Gateway.{SocketUser, SocketClient, Fresh, log_of, ringing_for}
use zevra_server.Calls.Gateway.Steps.{
  Kept, Finds, Kept-as, on_call-cases, ringing_for-Finds, cleaned-Kept, accepted-Kept,
  log_of-client,
}
use zevra_server.Calls.Gateway.Answering.{
  accepted_log, accept_found, handle_accept, reject_logged, reject_found, handle_reject,
}

module _ (b : Backend) where
  accepted_log-client : (w : World b) (o : Option String) → (accepted_log b w o).client ≡ w.client
  unfolding accepted_log update_call_log_accepted
  accepted_log-client w none = refl
  accepted_log-client w (some id) = refl

  accept_found-Kept :
      (w : World b) (user : SocketUser) (fresh : Fresh) (o : Option ActiveCall)
      → Kept b fresh.now w
      → Finds b fresh.now w user.id o
      → Kept b fresh.now (accept_found b w user fresh o).0
  unfolding accept_found
  accept_found-Kept w user fresh none m f = m
  accept_found-Kept w user fresh (some c) m f =
      accepted-Kept b fresh.now w user.id c (f c refl).1 m (accept_found b w user fresh (some c)).0
        (accepted_log-client (record w { client = accept_call b.redis w.client c fresh.now })
          c.call_log_id)

  pub handle_accept-Kept :
      (w : World b) (client : SocketClient) (body : JsValue) (fresh : Fresh)
      → Kept b fresh.now w
      → Kept b fresh.now (handle_accept b w client body fresh).0
  unfolding handle_accept
  handle_accept-Kept w client body fresh m =
      on_call-cases b (λ x. Kept b fresh.now x.0) w client body fresh.now
        (λ user o. accept_found b w user fresh (ringing_for user.id o)) m (λ _. m)
        (λ user o _ f.
          accept_found-Kept w user fresh (ringing_for user.id o) m
            (ringing_for-Finds b fresh.now w user.id o f))

  reject_logged-Kept :
      (w : World b) (user_id : String) (c : ActiveCall) (fresh : Fresh)
      (x : World b × Result String)
      → Kept b fresh.now w
      → IsCallOf b.redis fresh.now w.client.store user_id c
      → x.0.client ≡ w.client
      → Kept b fresh.now (reject_logged b user_id c fresh x).0
  unfolding reject_logged update_call_log_rejected
  reject_logged-Kept w user_id c fresh (v, ok id) m call h =
      cleaned-Kept b fresh.now w user_id c call m (update_call_log_rejected b v id) h
  reject_logged-Kept w user_id c fresh (v, thrown e) m call h = Kept-as b fresh.now w v h m

  reject_found-Kept :
      (w : World b) (user : SocketUser) (fresh : Fresh) (o : Option ActiveCall)
      → Kept b fresh.now w
      → Finds b fresh.now w user.id o
      → Kept b fresh.now (reject_found b w user fresh o).0
  unfolding reject_found
  reject_found-Kept w user fresh none m f = m
  reject_found-Kept w user fresh (some c) m f =
      reject_logged-Kept w user.id c fresh (log_of b w c fresh) m (f c refl).1
        (log_of-client b w c fresh)

  pub handle_reject-Kept :
      (w : World b) (client : SocketClient) (body : JsValue) (fresh : Fresh)
      → Kept b fresh.now w
      → Kept b fresh.now (handle_reject b w client body fresh).0
  unfolding handle_reject
  handle_reject-Kept w client body fresh m =
      on_call-cases b (λ x. Kept b fresh.now x.0) w client body fresh.now
        (λ user o. reject_found b w user fresh o) m (λ _. m)
        (λ user o _ f. reject_found-Kept w user fresh o m f)
